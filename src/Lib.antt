-- ===== src/Lib.antt =====
-- The wfb_rs crate: raw 802.11 frames of a stream, sent by injection and received by a capture.
--
-- `WfbTx` (src/tx.rs) opens a packet socket, builds a radiotap and an 802.11 header for its stream, and
-- sends a payload behind them and a frame header of eight bytes (src/proto.rs). `WfbRx` (src/rx.rs)
-- opens a capture with a filter for its stream; `recv` waits for the capture with `poll`, drains it,
-- parses every packet (radiotap header, 802.11 header, frame header) and holds the payloads in a
-- bounded ring, from which it delivers the oldest. src/ffi.rs wraps both for C.
--
-- The files:
--   Prelude       library names, lists over the native numbers, i8, bits of a word, texts
--   Run           code that may panic or run out of fuel; slices and indices as in Rust
--   Proto         src/proto.rs: constants, errors, configurations, `encode` and `decode`
--   Radiotap      src/rx.rs, `radiotap_meta_from_packet`, in the steps of its two loops;
--                 Radiotap/Reading describes what a header says without them
--   Rx/State      src/rx.rs, `WfbRx`; Rx/Queue is the bounded queue that its ring implements
--   Rx/Ring       src/rx.rs, `enqueue_decoded` and `pop_one`
--   Rx/Parse      src/rx.rs, `parse_and_enqueue_one_packet`; Rx/Parse/FrameOf describes the frame that a
--                 packet carries without the parser
--   Rx/Recv       src/rx.rs, `drain_pcap_nonblock` and `recv`
--   Rx/Session    what many calls of `recv` deliver, as a function of their scripts over the queue
--   Rx/Open       src/rx.rs, `open`; Rx/Drop is `drop`
--   Kernel        the system calls of src/tx.rs
--   Tx            src/tx.rs, `open`, `send`, `close` and `drop`
--   Link          the two ends together; Link/Filter is the receiver's filter on the sender's frames
--   Ffi           src/ffi.rs: codes, types and helpers; Ffi/Transmit, Ffi/Handles and Ffi/Receive are the
--                 exported functions, Ffi/Utf8 the test of `CStr::to_str`
--   Examples      examples/simple_txrx.rs, the main thread; Examples/Receiver is its receiving thread,
--                 Examples/ParseU32 its `parse_u32`, and Examples/Chat two stations that run it
--   Examples/Bandwidth  examples/bandwidth.rs; Examples/Bandwidth/Link is two stations that run it
--   Examples/Air  what the air between two stations makes of frames
--
-- Numbers: a byte, a word and a size are natural numbers. Where the code casts or wraps, the modulus is
-- written out; a sum of sizes is not reduced, since every one is at most the size of a buffer in
-- memory, or a small constant above it. `i8` and descriptors are integers. A range or an index out of
-- bounds is `panic`.
--
-- Fuel: the loop over the present words is given the length of the packet, and each of its rounds takes
-- four bytes of it. The loop over the fields counts its rounds. The loop of `recv` is given a script,
-- one entry a round: the clock, the answer of `poll`, and the packets that the capture then returns.
-- `out_of_fuel` is a call that is still waiting when the script ends. The loops of the examples run
-- until an error; they are followed over a list of their turns, and what they return when it ends is
-- their state at that point.
--
-- Outside: the system calls and the `pcap` crate are records of functions, and what they return is
-- arbitrary, save that the drop of a capture is taken, where it is said, to return or to close its
-- descriptor. Their effect on the device is not modelled. The command line is read by the `clap` crate
-- and is an argument; of a printed line the values are kept that it is formatted from; a thread and the
-- wait for it are not modelled. The Python binding and the generated C header only call the crate.
pub mod Prelude
pub mod Run
pub mod Proto
pub mod Radiotap
pub mod Rx
pub mod Kernel
pub mod Tx
pub mod Link
pub mod Ffi
pub mod Examples
