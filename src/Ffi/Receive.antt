-- ===== src/Ffi/Receive.antt =====
-- src/ffi.rs: `wfb_rx_recv`. The capture of the handle is the script.
pub mod Answers
use meshinator.Prelude.{
  ℕ, ◌*◌, Bool, true, false, not, ◌&&◌, List, [], ◌++◌, Option, none, some, length, take, drop,
  replicate, ltb, ◌==◌, if◌then◌else◌,
}
use meshinator.Run.{Run, done, ◌>>=◌}
use meshinator.Proto.{WfbTxConfig, WfbRxConfig, WfbRxMeta, Result, ok, err}
use meshinator.Rx.State.{WfbRx}
use meshinator.Rx.Recv.{Round, Received, recv}
use meshinator.Ffi.{
  wfb_rs_ok, wfb_rs_err_null_ptr, wfb_rs_err_invalid_argument, wfb_rs_err_timeout, CTxConfig,
  CRxConfig, CRxMeta, default_c_meta, map_err, Caught, run_ffi, OrCode, value, failed_with, c_iface,
  to_c_meta, write_to, store_handle,
}

-- What `wfb_rx_recv` changes, and its code.
pub record CReceived : Type 0 where
  pub code : ℕ
  pub handle : Option WfbRx
  pub out_buf : Option (List ℕ)
  pub out_len : Option ℕ
  pub out_meta : Option CRxMeta

-- The `match` on the result; `behind` is the memory behind the buffer.
pub answer_recv :
    List ℕ → ℕ → Option CRxMeta → WfbRx → List ℕ → Result (Option (ℕ × WfbRxMeta)) → CReceived
answer_recv behind old_len old_meta rx buf (ok (some (n, meta))) = record {
  code = wfb_rs_ok;
  handle = some rx;
  out_buf = some (buf ++ behind);
  out_len = some n;
  out_meta = write_to old_meta (to_c_meta meta);
}
answer_recv behind old_len old_meta rx buf (ok none) = record {
  code = wfb_rs_err_timeout;
  handle = some rx;
  out_buf = some (buf ++ behind);
  out_len = some 0;
  out_meta = write_to old_meta default_c_meta;
}
answer_recv behind old_len old_meta rx buf (err e) = record {
  code = map_err e;
  handle = some rx;
  out_buf = some (buf ++ behind);
  out_len = some old_len;
  out_meta = old_meta;
}

abbrev unchanged : ℕ → Option WfbRx → Option (List ℕ) → Option ℕ → Option CRxMeta → CReceived
unchanged c handle out_buf out_len out_meta = record {
  code = c;
  handle = handle;
  out_buf = out_buf;
  out_len = out_len;
  out_meta = out_meta;
}

-- Null handle, buffer or length pointer; a length of 0; and the call.
pub wfb_rx_recv :
    Option WfbRx
    → Option (List ℕ)
    → ℕ
    → ℕ
    → Option ℕ
    → Option CRxMeta
    → List Round
    → Run (Caught CReceived)
wfb_rx_recv none out_buf out_buf_len timeout_ms out_len out_meta rounds =
    run_ffi (done (unchanged wfb_rs_err_null_ptr none out_buf out_len out_meta))
wfb_rx_recv (some rx) none out_buf_len timeout_ms out_len out_meta rounds =
    run_ffi (done (unchanged wfb_rs_err_null_ptr (some rx) none out_len out_meta))
wfb_rx_recv (some rx) (some memory) out_buf_len timeout_ms none out_meta rounds =
    run_ffi (done (unchanged wfb_rs_err_null_ptr (some rx) (some memory) none out_meta))
wfb_rx_recv (some rx) (some memory) out_buf_len timeout_ms (some old_len) out_meta rounds =
    if out_buf_len == 0
    then run_ffi (
        done
          (unchanged wfb_rs_err_invalid_argument (some rx) (some memory) (some old_len) out_meta))
    else run_ffi (do
      r ← recv rx (take out_buf_len memory) (timeout_ms * 1_000_000) rounds
      done (answer_recv (drop out_buf_len memory) old_len out_meta r.rx r.buf r.result))
