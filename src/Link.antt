-- ===== src/Link.antt =====
-- The two ends together: a frame of src/tx.rs as src/rx.rs takes it in. Between them stands the
-- hardware, which puts a radiotap header of its own before the frame and may leave the frame check
-- sequence behind it.
pub mod Carried
pub mod Injected
pub mod Filter
mod Tests
