-- ===== src/Rx/Drop.antt =====
-- src/rx.rs, `impl Drop for WfbRx`: the code closes the descriptor, and then the fields are dropped, of
-- which the capture is one. What its drop does is the pcap crate's.

pub mod Twice
use meshinator.Kernel.{Syscall, Kernel, Sys, ◌>>=◌, call, close_fd}
use meshinator.Rx.State.{WfbRx}

pub drop_rx :
    Kernel → {Active : Type 0} → (Active → Sys (Unit {0})) → WfbRx → Active → Sys (Unit {0})
drop_rx k drop_capture rx cap = do rc ← call k (close_fd rx.fd); drop_capture cap
