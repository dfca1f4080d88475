-- ===== src/Ffi/Transmit/Opening.antt =====
-- The handles of `wfb_tx_open` and `wfb_tx_close` of src/ffi.rs, and their descriptors.
use meshinator.Prelude.{
  ℕ, ◌≡◌, refl, ap, ◌≢◌, ◌⊎◌, inl, inr, false, List, [], ◌∷◌, ◌++◌, Option, none, some, arith,
}
use meshinator.Prelude.Int.{ℤ, is_negative}
use meshinator.Run.{Run, done, Returns}
use meshinator.Kernel.{Syscall, Kernel, ◌>>=◌, socket, close_fd, pure}
use meshinator.Kernel.Laws.{Sys-bind}
use meshinator.Proto.{WfbTxConfig, Result, ok, err}
use meshinator.Tx.{WfbTx, open_tx, drop_tx}
use meshinator.Tx.Descriptors.{
  closes, closed_once, OpenAccounts, open_tx-OpenAccounts, drop_tx-closes,
}
use meshinator.Ffi.{
  wfb_rs_ok, wfb_rs_err_null_ptr, CTxConfig, finished, run_ffi, OrCode, value, failed_with, c_iface,
  store_handle,
}
use meshinator.Ffi.Laws.{Finishes, run_ffi-Finishes, IsRefused, c_iface-IsRefused, map_err-nonzero}
use meshinator.Ffi.Transmit.{tx_open_with, wfb_tx_open, wfb_tx_close}

module _ (k : Kernel) (log : List Syscall) where
  abbrev made : ℤ
  made = k.ret (socket ∷ log)

  -- The handle is a transmitter with an open descriptor; or the handle is as it was, and a descriptor
  -- that was made is closed again.
  abbrev pub HandleAccounts : Option WfbTx → (ℕ × Option WfbTx) × List Syscall → Type 0
  HandleAccounts old ((c, handle), log') =
      ((tx : WfbTx) × (calls : List Syscall) × (c ≡ wfb_rs_ok)
        × (handle ≡ some tx)
        × (log' ≡ calls ++ (socket ∷ log))
        × (tx.fd ≡ made)
        × (is_negative made ≡ false)
        × (closes calls ≡ []))
      ⊎ ((c ≢ wfb_rs_ok)
          × (handle ≡ old)
          × ((log' ≡ log)
              ⊎ ((calls : List Syscall) × (log' ≡ calls ++ (socket ∷ log))
                  × (closes calls ≡ closed_once made))))

  abbrev pub OutAccounts :
      Option (Option WfbTx) → (ℕ × Option (Option WfbTx)) × List Syscall → Type 0
  OutAccounts none ((c, out'), log') = (c ≡ wfb_rs_err_null_ptr) × (out' ≡ none) × (log' ≡ log)
  OutAccounts (some old) ((c, out'), log') =
      (handle : Option WfbTx) × (out' ≡ some handle) × HandleAccounts old ((c, handle), log')

  store_handle-HandleAccounts :
      (old : Option WfbTx) (r : Result WfbTx) (log' : List Syscall)
      → OpenAccounts k log (r, log')
      → HandleAccounts old (store_handle old r, log')
  store_handle-HandleAccounts old (ok tx) log' (inl (failed, same)) = absurd failed
  store_handle-HandleAccounts old (ok tx) log' (inr (calls, p, (same_fd, opened, kept))) =
      inl (tx, calls, refl, refl, p, same_fd, opened, kept)
  store_handle-HandleAccounts old (err e) log' (inl (failed, same)) =
      inr (map_err-nonzero e, refl, inl same)
  store_handle-HandleAccounts old (err e) log' (inr (calls, p, closed)) =
      inr (map_err-nonzero e, refl, inr (calls, p, closed))

  tx_open_with-HandleAccounts :
      (cfg : CTxConfig) (old : Option WfbTx) (o : OrCode (List ℕ))
      → IsRefused o
      → Returns (HandleAccounts old) (tx_open_with k cfg old o log)
  unfolding tx_open_with
  tx_open_with-HandleAccounts cfg old (failed_with c) nonzero = inr (nonzero, refl, inl refl)
  tx_open_with-HandleAccounts cfg old (value iface) u =
      let config : WfbTxConfig = record {
        iface = iface;
        stream_id = cfg.stream_id;
        frame_type = cfg.frame_type;
        mcs_index = cfg.mcs_index;
        bandwidth = cfg.bandwidth;
      } in
      Sys-bind (OpenAccounts k log) (HandleAccounts old) (open_tx k config)
        (λ r. pure (store_handle old r)) log (open_tx-OpenAccounts k config log)
        (store_handle-HandleAccounts old)

  -- Whatever the pointers, the configuration and the answers of the system, `wfb_tx_open` finishes
  -- without a panic. With the code 0 it has stored a transmitter whose descriptor is open. With any
  -- other code what `out_handle` points to is as it was, and a descriptor that was made was closed
  -- exactly once. Without an `out_handle` the code is 1 and the system is not called.
  pub wfb_tx_open-OutAccounts :
      (cfg : Option CTxConfig) (out : Option (Option WfbTx))
      → Returns (Finishes (OutAccounts out)) (wfb_tx_open k cfg out log)
  unfolding wfb_tx_open
  wfb_tx_open-OutAccounts none none = (refl, refl, refl)
  wfb_tx_open-OutAccounts none (some old) =
      (old, refl, inr ((λ h. omega (arith, h)), refl, inl refl))
  wfb_tx_open-OutAccounts (some cfg) none = (refl, refl, refl)
  wfb_tx_open-OutAccounts (some cfg) (some old) = run_ffi-Finishes (OutAccounts (some old)) _ (
      Sys-bind (HandleAccounts old) (OutAccounts (some old))
        (tx_open_with k cfg old (c_iface cfg.iface)) _ log
        (tx_open_with-HandleAccounts cfg old (c_iface cfg.iface) (c_iface-IsRefused cfg.iface))
        (λ r log' h. (r.1, refl, h)))

  wfb_tx_close-drop_tx :
      (tx : WfbTx) (log₁ log₂ : List Syscall)
      → drop_tx k tx log₁ ≡ done (tt, log₂)
      → wfb_tx_close k (some tx) log₁ ≡ done (finished (wfb_rs_ok, log₂))
  unfolding wfb_tx_close
  wfb_tx_close-drop_tx tx log₁ log₂ e =
      ap
        (λ (m : Run (Unit {0} × List Syscall)).
          run_ffi (((λ (l : List Syscall). m) >>= (λ dropped. pure wfb_rs_ok)) log₁))
        e

  -- A handle that `wfb_tx_open` stored is closed by `wfb_tx_close` with the code 0, and between the two
  -- the descriptor that was made is closed exactly once.
  pub wfb_tx_close-wfb_tx_open :
      (cfg : Option CTxConfig) (old : Option WfbTx) (tx : WfbTx) (log' : List Syscall)
      → wfb_tx_open k cfg (some old) log ≡ done (finished ((wfb_rs_ok, some (some tx)), log'))
      → (calls : List Syscall) × (wfb_tx_close k (some tx) log'
          ≡ done (finished (wfb_rs_ok, calls ++ (socket ∷ log))))
        × (closes calls ≡ made ∷ [])
  wfb_tx_close-wfb_tx_open cfg old tx log' e =
      closed (rw e at (wfb_tx_open-OutAccounts cfg (some old)))
    where
      closed :
          OutAccounts (some old) ((wfb_rs_ok, some (some tx)), log')
          → (calls : List Syscall) × (wfb_tx_close k (some tx) log'
              ≡ done (finished (wfb_rs_ok, calls ++ (socket ∷ log))))
            × (closes calls ≡ made ∷ [])
      closed (handle, stored, inr (nonzero, same, rest)) = absurd (nonzero refl)
      closed (handle, stored, inl (tx', calls, c, there, p, same_fd, opened, kept)) =
          let same : tx' ≡ tx = cc (there, stored) in
          let own_fd : tx.fd ≡ made = rw (← same) same_fd in
          let open_fd : is_negative tx.fd ≡ false = rw own_fd opened in
          (
            close_fd tx.fd ∷ calls,
            wfb_tx_close-drop_tx tx log' _ (rw (← p) (drop_tx-closes k tx log' open_fd)),
            rw (own_fd, kept),
          )
