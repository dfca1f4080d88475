-- ===== src/Tx/Descriptors.antt =====
-- The descriptors of src/tx.rs: who closes the socket, and how often.
use meshinator.Prelude.{
  arith, ℕ, ◌≡◌, refl, ap, ◌∙◌, ◌⊎◌, inl, inr, false, not, ◌&&◌, ◌||◌, List, [], ◌∷◌, ◌++◌, length,
  leb, overwrite, replicate, ◌==◌, if◌then◌else◌,
}
use meshinator.Prelude.Int.{ℤ, is_negative}
use meshinator.Run.{Run, done, Returns}
use meshinator.Kernel.{
  Syscall, Kernel, socket, setsockopt_bypass, ioctl_ifindex, bind_to, sendmsg, close_fd,
}
use meshinator.Kernel.Laws.{Sys-if, Sys-bind}
use meshinator.Proto.{
  WfbTxConfig, Result, WfbError, ok, err, wfb_frame_type_data, wfb_frame_type_rts,
}
use meshinator.Tx.{
  WfbTx, ifnamsiz, open_pfpacket_tx_socket, mcs_bw, patch_radiotap, build_radiotap_ht, drop_tx,
  patched_tx, finish_open, with_socket, mcs_index_or_one, bandwidth_or_20, open_tx, close_tx,
}

-- The descriptors that a list of calls closes, the newest call first.
abbrev pub closes : List Syscall → List ℤ
closes [] = []
closes (socket ∷ log) = closes log
closes (setsockopt_bypass fd ∷ log) = closes log
closes (ioctl_ifindex fd name ∷ log) = closes log
closes (bind_to fd i ∷ log) = closes log
closes (sendmsg fd bufs ∷ log) = closes log
closes (close_fd fd ∷ log) = fd ∷ closes log

-- A descriptor that was made, and the calls since: an error leaves it closed once, if there is one.
abbrev pub closed_once : ℤ → List ℤ
closed_once fd = if is_negative fd then [] else fd ∷ []

abbrev SocketEnds : ℤ → List Syscall → Result ℤ → Type 0
SocketEnds made calls (ok fd) = (fd ≡ made) × (is_negative made ≡ false) × (closes calls ≡ [])
SocketEnds made calls (err e) = closes calls ≡ closed_once made

module _ (k : Kernel) where
  abbrev Socketed : List Syscall → Result ℤ × List Syscall → Type 0
  Socketed log (r, log') =
      (calls : List Syscall) × (log' ≡ calls ++ (socket ∷ log))
      × SocketEnds (k.ret (socket ∷ log)) calls r

  open_socket-Socketed :
      (iface : List ℕ) (log : List Syscall)
      → Returns (Socketed log) (open_pfpacket_tx_socket k iface log)
  unfolding open_pfpacket_tx_socket
  open_socket-Socketed iface log =
      let fd : ℤ = k.ret (socket ∷ log) in
      let name : List ℕ = overwrite (replicate ifnamsiz 0) 0 iface in
      let log₂ : List Syscall = setsockopt_bypass fd ∷ socket ∷ log in
      let log₃ : List Syscall = ioctl_ifindex fd name ∷ log₂ in
      let log₄ : List Syscall = bind_to fd (k.ifindex log₃) ∷ log₃ in
      Sys-if (Socketed log) (is_negative fd) _ _ (socket ∷ log) (λ failed. ([], refl, rw failed))
        (λ made.
          Sys-if (Socketed log) (length iface == 0 || leb ifnamsiz (length iface)) _ _ log₂
            (λ unfit. (close_fd fd ∷ setsockopt_bypass fd ∷ [], refl, rw made))
            (λ fits.
              Sys-if (Socketed log) (is_negative (k.ret log₃)) _ _ log₃
                (λ failed.
                  (close_fd fd ∷ ioctl_ifindex fd name ∷ setsockopt_bypass fd ∷ [], refl, rw made))
                (λ found.
                  Sys-if (Socketed log) (is_negative (k.ret log₄)) _ _ log₄
                    (λ failed. (
                      close_fd fd
                          ∷ bind_to fd (k.ifindex log₃)
                          ∷ ioctl_ifindex fd name
                          ∷ setsockopt_bypass fd
                          ∷ [],
                      refl,
                      rw made,
                    ))
                    (λ bound. (
                      bind_to fd (k.ifindex log₃)
                          ∷ ioctl_ifindex fd name
                          ∷ setsockopt_bypass fd
                          ∷ [],
                      refl,
                      (refl, made, refl),
                    )))))

  abbrev pub OpenEnds : ℤ → List Syscall → Result WfbTx → Type 0
  OpenEnds made calls (ok tx) = (tx.fd ≡ made) × (is_negative made ≡ false) × (closes calls ≡ [])
  OpenEnds made calls (err e) = closes calls ≡ closed_once made

  abbrev pub IsErr : Result WfbTx → Type 0
  IsErr (ok tx) = ⊥
  IsErr (err e) = Unit {0}

  -- No call at all and an error; or a socket, and the calls since.
  abbrev pub OpenAccounts : List Syscall → Result WfbTx × List Syscall → Type 0
  OpenAccounts log (r, log') =
      (IsErr r × (log' ≡ log))
      ⊎ ((calls : List Syscall) × (log' ≡ calls ++ (socket ∷ log))
          × OpenEnds (k.ret (socket ∷ log)) calls r)

  build-same_fd : (tx tx' : WfbTx) (m b : ℕ) → build_radiotap_ht tx m b ≡ ok tx' → tx'.fd ≡ tx.fd
  unfolding build_radiotap_ht patch_radiotap mcs_bw
  build-same_fd tx tx' m b e = ground arith

  pub drop_tx-closes :
      (tx : WfbTx) (log : List Syscall)
      → is_negative tx.fd ≡ false
      → drop_tx k tx log ≡ done (tt, close_fd tx.fd ∷ log)
  unfolding drop_tx
  drop_tx-closes tx log h = rw h

  with_socket-OpenAccounts :
      (cfg : WfbTxConfig) (m b : ℕ) (log : List Syscall) (r : Result ℤ) (log' : List Syscall)
      → Socketed log (r, log')
      → Returns (OpenAccounts log) (with_socket k cfg m b r log')
  unfolding with_socket drop_tx patched_tx
  with_socket-OpenAccounts cfg m b log (err e) log' (calls, p, q) = inr (calls, p, q)
  with_socket-OpenAccounts cfg m b log (ok fd) log' (calls, p, (same, made, kept)) =
      built (build_radiotap_ht (patched_tx cfg fd) m b) refl
    where
      same_fd : (patched_tx cfg fd).fd ≡ k.ret (socket ∷ log)
      same_fd = unfold patched_tx in same

      open_fd : is_negative (patched_tx cfg fd).fd ≡ false
      open_fd = rw same_fd made

      dropped :
          (x : WfbError)
          → Returns (OpenAccounts log) (finish_open k (patched_tx cfg fd) (err x) log')
      dropped x =
          unfold finish_open in
          rw (drop_tx-closes (patched_tx cfg fd) log' open_fd) (
            inr (
              close_fd (patched_tx cfg fd).fd ∷ calls,
              ap (λ l. close_fd (patched_tx cfg fd).fd ∷ l) p,
              rw (kept, made, same_fd),
            ))

      built :
          (o : Result WfbTx)
          → build_radiotap_ht (patched_tx cfg fd) m b ≡ o
          → Returns (OpenAccounts log) (finish_open k (patched_tx cfg fd) o log')
      built (ok tx) e =
          unfold finish_open in
          inr (calls, p, (build-same_fd (patched_tx cfg fd) tx m b e ∙ same_fd, made, kept))
      built (err x) e = dropped x

  -- `open` makes at most one descriptor. On success the transmitter owns it, and it is open; on an
  -- error it was closed exactly once, if the system gave one. A configuration that is refused before
  -- the socket is made causes no call at all.
  pub open_tx-OpenAccounts :
      (cfg : WfbTxConfig) (log : List Syscall) → Returns (OpenAccounts log) (open_tx k cfg log)
  unfolding open_tx
  open_tx-OpenAccounts cfg log =
      Sys-if (OpenAccounts log) (length cfg.iface == 0) _ _ log (λ _. inl (tt, refl))
        (λ _.
          Sys-if (OpenAccounts log) (cfg.stream_id == 0) _ _ log (λ _. inl (tt, refl))
            (λ _.
              Sys-if (OpenAccounts log)
                (not (cfg.frame_type == wfb_frame_type_data)
                  && not (cfg.frame_type == wfb_frame_type_rts))
                _ _ log (λ _. inl (tt, refl))
                (λ _.
                  Sys-bind (Socketed log) (OpenAccounts log) (open_pfpacket_tx_socket k cfg.iface)
                    (with_socket k cfg (mcs_index_or_one cfg.mcs_index)
                      (bandwidth_or_20 cfg.bandwidth))
                    log (open_socket-Socketed cfg.iface log)
                    (with_socket-OpenAccounts cfg (mcs_index_or_one cfg.mcs_index)
                      (bandwidth_or_20 cfg.bandwidth) log))))

  close_tx-twice :
      (tx : WfbTx) (log : List Syscall)
      → is_negative tx.fd ≡ false
      → close_tx k tx log ≡ done (tt, close_fd tx.fd ∷ close_fd tx.fd ∷ log)
  unfolding close_tx
  close_tx-twice tx log h = drop_tx-closes tx (close_fd tx.fd ∷ log) h

  -- The closes from the socket on, after a successful open and a way to end the transmitter.
  abbrev pub EndsWith : List Syscall → List ℤ → Run (Unit {0} × List Syscall) → Type 0
  EndsWith log fds m =
      (calls : List Syscall) × (m ≡ done (tt, calls ++ (socket ∷ log))) × (closes calls ≡ fds)

  -- A transmitter that `open` returned closes its descriptor once if it is dropped, and twice by
  -- the method `close`: by its own call, and by the drop of the transmitter that it was given.
  pub open_tx-close_tx :
      (cfg : WfbTxConfig) (log : List Syscall) (tx : WfbTx) (log' : List Syscall)
      → open_tx k cfg log ≡ done (ok tx, log')
      → EndsWith log (tx.fd ∷ []) (drop_tx k tx log')
        × EndsWith log (tx.fd ∷ tx.fd ∷ []) (close_tx k tx log')
  open_tx-close_tx cfg log tx log' e = ended (rw e at (open_tx-OpenAccounts cfg log))
    where
      ended :
          OpenAccounts log (ok tx, log')
          → EndsWith log (tx.fd ∷ []) (drop_tx k tx log')
            × EndsWith log (tx.fd ∷ tx.fd ∷ []) (close_tx k tx log')
      ended (inl (failed, same)) = absurd failed
      ended (inr (calls, p, (same, made, kept))) =
          let open_fd : is_negative tx.fd ≡ false = rw same made in
          (
            (close_fd tx.fd ∷ calls, drop_tx-closes tx log' open_fd ∙ rw p, rw kept),
            (
              close_fd tx.fd ∷ close_fd tx.fd ∷ calls,
              close_tx-twice tx log' open_fd ∙ rw p,
              rw kept,
            ),
          )
