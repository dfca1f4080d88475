-- ===== src/Ffi.antt =====
-- src/ffi.rs: the functions for C, with the system calls, the pcap crate and the script of the capture
-- as in `Tx` and `Rx`.
-- A pointer is null or points to a value: `Option`. A handle is the box that it points to; whether a
-- handle is used after it was closed is the caller's duty, as is the size of the memory at a pointer.
pub mod Utf8
pub mod Transmit
pub mod Receive
pub mod Handles
pub mod Laws
mod Tests
use meshinator.Prelude.{
  ℕ, ◌*◌, Bool, true, false, not, ◌&&◌, List, [], ◌++◌, Option, none, some, length, take, drop,
  replicate, ltb, ◌==◌, if◌then◌else◌,
}
use mathlib.Core.Option
use meshinator.Prelude.Int.{ℤ, pos}
use meshinator.Run
use meshinator.Run.{Run, done, panic, out_of_fuel}
use meshinator.Kernel
use meshinator.Kernel.{Syscall, Kernel, Sys, pure}
use meshinator.Proto.{
  WfbError, invalid_argument, io, pcap, Result, ok, err, WfbTxConfig, WfbRxConfig, WfbRxMeta,
  compute_max_payload,
}
use meshinator.Tx.{WfbTx, open_tx, drop_tx, send}
use meshinator.Rx.State.{WfbRx}
use meshinator.Rx.Recv.{Round, Received, recv}
use meshinator.Rx.Open.{PcapLib, open_rx}
use meshinator.Rx.Drop.{drop_rx}
use Utf8.{is_text}

abbrev pub wfb_rs_ok : ℕ
wfb_rs_ok = 0

abbrev pub wfb_rs_err_null_ptr : ℕ
wfb_rs_err_null_ptr = 1

abbrev pub wfb_rs_err_invalid_argument : ℕ
wfb_rs_err_invalid_argument = 2

abbrev pub wfb_rs_err_io : ℕ
wfb_rs_err_io = 3

abbrev pub wfb_rs_err_pcap : ℕ
wfb_rs_err_pcap = 4

abbrev pub wfb_rs_err_timeout : ℕ
wfb_rs_err_timeout = 5

abbrev pub wfb_rs_err_internal : ℕ
wfb_rs_err_internal = 255

abbrev pub wfb_rs_abi_version : ℕ
wfb_rs_abi_version = 1

abbrev pub wfb_rs_max_payload : ℕ
wfb_rs_max_payload = compute_max_payload

pub record CTxConfig : Type 0 where
  pub iface : Option (List ℕ)
  pub stream_id : ℕ
  pub frame_type : ℕ
  pub mcs_index : ℕ
  pub bandwidth : ℕ

pub record CRxConfig : Type 0 where
  pub iface : Option (List ℕ)
  pub stream_id : ℕ
  pub ignore_self_injected : ℕ
  pub ring_size : ℕ

pub record CRxMeta : Type 0 where
  pub seq : ℕ
  pub flags : ℕ
  pub freq : ℕ
  pub mcs_index : ℕ
  pub bandwidth : ℕ
  pub antenna : List ℕ
  pub rssi : List ℤ
  pub noise : List ℤ
  pub antenna_count : ℕ
  pub truncated : ℕ

-- `wfb_rx_meta::default()`
abbrev pub default_c_meta : CRxMeta
default_c_meta = record {
  seq = 0;
  flags = 0;
  freq = 0;
  mcs_index = 0;
  bandwidth = 0;
  antenna = replicate 4 0;
  rssi = replicate 4 (pos 0);
  noise = replicate 4 (pos 0);
  antenna_count = 0;
  truncated = 0;
}

abbrev pub map_err : WfbError → ℕ
map_err (invalid_argument m) = wfb_rs_err_invalid_argument
map_err (io errno) = wfb_rs_err_io
map_err (pcap text) = wfb_rs_err_pcap

-- What `catch_unwind` leaves: the code and what the function changed, or a panic, whose code is
-- `wfb_rs_err_internal` and whose changes are not described.
pub data Caught (A : Type 0) : Type 0 where
  finished : A → Caught A
  internal : Caught A

abbrev pub run_ffi : {A : Type 0} → Run A → Run (Caught A)
run_ffi (done a) = done (finished a)
run_ffi panic = done internal
run_ffi out_of_fuel = out_of_fuel

-- `Result<A, i32>`
pub data OrCode (A : Type 0) : Type 0 where
  value : A → OrCode A
  failed_with : ℕ → OrCode A

-- The bytes at the pointer up to the first 0.
pub c_iface : Option (List ℕ) → OrCode (List ℕ)
c_iface none = failed_with wfb_rs_err_null_ptr
c_iface (some iface) =
    if not (is_text [] iface)
    then failed_with wfb_rs_err_invalid_argument
    else if length iface == 0
    then failed_with wfb_rs_err_invalid_argument
    else value iface

abbrev pub to_c_meta : WfbRxMeta → CRxMeta
to_c_meta meta = record {
  seq = meta.seq;
  flags = meta.flags;
  freq = meta.freq;
  mcs_index = meta.mcs_index;
  bandwidth = meta.bandwidth;
  antenna = meta.antenna;
  rssi = meta.rssi;
  noise = meta.noise;
  antenna_count = meta.antenna_count;
  truncated = if meta.truncated then 1 else 0;
}

-- `if !p.is_null() { *p = a }`
abbrev pub write_to : {A : Type 0} → Option A → A → Option A
write_to none a = none
write_to (some old) a = some a

-- An `out_handle` and a return code. The handle that it pointed to is not dropped.
abbrev pub store_handle : {A : Type 0} → Option A → Result A → ℕ × Option A
store_handle old (ok a) = (wfb_rs_ok, some a)
store_handle old (err e) = (map_err e, old)
