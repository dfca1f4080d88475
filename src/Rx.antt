-- ===== src/Rx.antt =====
-- src/rx.rs, `WfbRx`: the ring of decoded frames, the parsing of a captured packet and `recv`.
pub mod Queue
pub mod State
pub mod Ring
pub mod Parse
pub mod Recv
pub mod Open
pub mod Drop
pub mod Session
mod Tests
