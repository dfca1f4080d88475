-- ===== src/Ffi/Transmit.antt =====
-- src/ffi.rs: `wfb_tx_open`, `wfb_tx_close` and `wfb_tx_send`.
pub mod Sending
pub mod Opening
use meshinator.Prelude.{
  ℕ, ◌*◌, Bool, true, false, not, ◌&&◌, List, [], ◌++◌, Option, none, some, length, take, drop,
  replicate, ltb, ◌==◌, if◌then◌else◌,
}
use meshinator.Run.{Run, done, panic, slice}
use meshinator.Proto.{WfbTxConfig, WfbRxConfig, WfbRxMeta, Result, ok, err}
use meshinator.Kernel.{Syscall, Kernel, Sys, ◌>>=◌, pure, lift}
use meshinator.Tx.{WfbTx, open_tx, drop_tx, send}
use meshinator.Ffi.{
  wfb_rs_ok, wfb_rs_err_null_ptr, wfb_rs_err_invalid_argument, wfb_rs_err_timeout, CTxConfig,
  CRxConfig, CRxMeta, default_c_meta, map_err, Caught, run_ffi, OrCode, value, failed_with, c_iface,
  to_c_meta, write_to, store_handle,
}

module _ (k : Kernel) where
  unfoldable pub tx_open_with : CTxConfig → Option WfbTx → OrCode (List ℕ) → Sys (ℕ × Option WfbTx)
  tx_open_with cfg old (failed_with c) = pure (c, old)
  tx_open_with cfg old (value iface) = do
    r ← open_tx k (record {
      iface = iface;
      stream_id = cfg.stream_id;
      frame_type = cfg.frame_type;
      mcs_index = cfg.mcs_index;
      bandwidth = cfg.bandwidth;
    })
    pure (store_handle old r)

  -- The code and what `out_handle` points to, if it is not null.
  unfoldable pub wfb_tx_open :
      Option CTxConfig
      → Option (Option WfbTx)
      → List Syscall
      → Run (Caught ((ℕ × Option (Option WfbTx)) × List Syscall))
  wfb_tx_open none out log = run_ffi (pure (wfb_rs_err_null_ptr, out) log)
  wfb_tx_open (some cfg) none log = run_ffi (pure (wfb_rs_err_null_ptr, none) log)
  wfb_tx_open (some cfg) (some old) log =
      run_ffi ((do r ← tx_open_with cfg old (c_iface cfg.iface); pure (r.0, some r.1)) log)

  pub wfb_tx_close : Option WfbTx → List Syscall → Run (Caught (ℕ × List Syscall))
  wfb_tx_close none log = run_ffi (pure wfb_rs_err_null_ptr log)
  wfb_tx_close (some tx) log = run_ffi ((do dropped ← drop_tx k tx; pure wfb_rs_ok) log)

  abbrev pub code_of_send : Result (Unit {0}) → ℕ
  code_of_send (ok u) = wfb_rs_ok
  code_of_send (err e) = map_err e

  -- `slice::from_raw_parts`, which no caller may use on a null pointer or on less memory: such a call has
  -- no meaning, and is a panic here.
  pub memory_at : Option (List ℕ) → ℕ → Run (List ℕ)
  memory_at none payload_len = panic
  memory_at (some memory) payload_len = slice memory 0 payload_len

  pub bytes_at : Option (List ℕ) → ℕ → Run (List ℕ)
  bytes_at payload payload_len = if payload_len == 0 then done [] else memory_at payload payload_len

  abbrev pub is_null : {A : Type 0} → Option A → Bool
  is_null none = true
  is_null (some a) = false

  -- The code and the transmitter.
  pub wfb_tx_send :
      Option WfbTx
      → Option (List ℕ)
      → ℕ
      → ℕ
      → List Syscall
      → Run (Caught ((ℕ × Option WfbTx) × List Syscall))
  wfb_tx_send none payload payload_len seq log = run_ffi (pure (wfb_rs_err_null_ptr, none) log)
  wfb_tx_send (some tx) payload payload_len seq log =
      if ltb 0 payload_len && is_null payload
      then run_ffi (pure (wfb_rs_err_null_ptr, some tx) log)
      else run_ffi (
          (do
            bytes ← lift (bytes_at payload payload_len)
            r ← send k tx bytes seq
            pure (code_of_send r.1, some r.0))
            log)
