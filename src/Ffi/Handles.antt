-- ===== src/Ffi/Handles.antt =====
-- src/ffi.rs: `wfb_rx_open` and `wfb_rx_close`. A handle holds the receiver and its capture.
pub mod Opening
use meshinator.Prelude.{
  ℕ, ◌*◌, Bool, true, false, not, ◌&&◌, List, [], ◌++◌, Option, none, some, length, take, drop,
  replicate, ltb, ◌==◌, if◌then◌else◌,
}
use meshinator.Run.{Run, done}
use meshinator.Proto.{WfbTxConfig, WfbRxConfig, WfbRxMeta, Result, ok, err}
use meshinator.Kernel.{Syscall, Kernel, Sys, ◌>>=◌, pure}
use meshinator.Rx.State.{WfbRx}
use meshinator.Rx.Open.{PcapLib, open_rx}
use meshinator.Rx.Drop.{drop_rx}
use meshinator.Ffi.{
  wfb_rs_ok, wfb_rs_err_null_ptr, wfb_rs_err_invalid_argument, wfb_rs_err_timeout, CTxConfig,
  CRxConfig, CRxMeta, default_c_meta, map_err, Caught, run_ffi, OrCode, value, failed_with, c_iface,
  to_c_meta, write_to, store_handle,
}

module _ (lib : PcapLib) where
  open lib use {Active}

  pub rx_open_with :
      CRxConfig → Option (WfbRx × Active) → OrCode (List ℕ) → ℕ × Option (WfbRx × Active)
  rx_open_with cfg old (failed_with c) = (c, old)
  rx_open_with cfg old (value iface) = store_handle old (
      open_rx lib (record {
        iface = iface;
        stream_id = cfg.stream_id;
        rcv_buf_size = none;
        ignore_self_injected = not (cfg.ignore_self_injected == 0);
        ring_size = cfg.ring_size;
      }))

  -- The code and what `out_handle` points to, if it is not null.
  pub wfb_rx_open :
      Option CRxConfig
      → Option (Option (WfbRx × Active))
      → Run (Caught (ℕ × Option (Option (WfbRx × Active))))
  wfb_rx_open none out = run_ffi (done (wfb_rs_err_null_ptr, out))
  wfb_rx_open (some cfg) none = run_ffi (done (wfb_rs_err_null_ptr, none))
  wfb_rx_open (some cfg) (some old) =
      run_ffi (let r = rx_open_with cfg old (c_iface cfg.iface) in done (r.0, some r.1))

module _ (k : Kernel) {Active : Type 0} (drop_capture : Active → Sys (Unit {0})) where
  pub wfb_rx_close : Option (WfbRx × Active) → List Syscall → Run (Caught (ℕ × List Syscall))
  wfb_rx_close none log = run_ffi (pure wfb_rs_err_null_ptr log)
  wfb_rx_close (some (rx, cap)) log =
      run_ffi ((do dropped ← drop_rx k drop_capture rx cap; pure wfb_rs_ok) log)
