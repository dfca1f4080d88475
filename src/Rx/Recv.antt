-- ===== src/Rx/Recv.antt =====
-- src/rx.rs, `drain_pcap_nonblock` and `recv`.
-- The capture, the clock and `poll` are outside. A round of the loop of `recv` is what they answer in
-- it; a list of rounds is the fuel of the loop, and `out_of_fuel` is a call that still waits after it.
pub mod Drain
pub mod Outcome
pub mod Answers
pub mod Timeouts
pub mod Script
use meshinator.Prelude.{
  ℕ, ◌+◌, ◌-◌, ◌*◌, ◌/◌, ◌^◌, min, List, [], ◌∷◌, Option, none, some, length, ltb, leb, ◌==◌,
  if◌then◌else◌,
}
use meshinator.Run.{Run, done, out_of_fuel, ◌>>=◌, slice}
use meshinator.Proto.{
  WfbRxMeta, Result, ok, err, default_meta, invalid_argument, recv_buffer_empty, io,
}
use meshinator.Rx.State.{WfbRx}
use meshinator.Rx.Ring.{pop_one}
use meshinator.Rx.Parse.{parse_and_enqueue_one_packet}

-- What `next_packet` hands out.
pub record Packet : Type 0 where
  pub caplen : ℕ
  pub bytes : List ℕ

-- The packets are those that `next_packet` returns up to its first error, which ends the loop. The
-- result is always `Ok(())`, and that of the parser is not looked at.
pub drain_pcap_nonblock : WfbRx → List Packet → Run WfbRx
drain_pcap_nonblock rx [] = done rx
drain_pcap_nonblock rx (packet ∷ packets) = do
  pkt ← slice packet.bytes 0 packet.caplen
  rx' ← parse_and_enqueue_one_packet rx pkt
  drain_pcap_nonblock rx' packets

-- The return value of `poll`: negative, with the error's number; zero; positive.
pub data PollResult : Type 0 where
  failed : ℕ → PollResult
  no_event : PollResult
  ready : PollResult

-- The number for which `io::Error::kind` is `Interrupted`.
abbrev pub eintr : ℕ
eintr = 4

abbrev pub i32_max : ℕ
i32_max = 2 ^ 31 - 1

pub record Round : Type 0 where
  -- nanoseconds since the start of the loop
  pub elapsed : ℕ
  -- the answer to a wait of so many milliseconds
  pub poll : ℕ → PollResult
  pub packets : List Packet

pub record Received : Type 0 where
  pub rx : WfbRx
  pub buf : List ℕ
  pub result : Result (Option (ℕ × WfbRxMeta))

abbrev pub meta_or : Option WfbRxMeta → WfbRxMeta → WfbRxMeta
meta_or none d = d
meta_or (some m) d = m

-- `pop_one` into a fresh meta, and the return of both.
pub deliver : WfbRx → List ℕ → Run Received
deliver rx buf = do
  p ← pop_one rx buf (some default_meta)
  done (record {
    rx = p.rx;
    buf = p.buf;
    result = ok (some (p.copied, meta_or p.out_meta default_meta));
  })

-- `as_millis` of what is left, cut to the range of `i32`.
pub remaining_ms : ℕ → ℕ → ℕ
remaining_ms timeout elapsed = min ((timeout - elapsed) / 1_000_000) i32_max

-- What follows `poll`; `again` is the next round.
unfoldable pub after_poll :
    WfbRx → List ℕ → List Packet → (WfbRx → Run Received) → PollResult → Run Received
after_poll rx buf packets again (failed errno) =
    if errno == eintr
    then again rx
    else done (record { rx = rx; buf = buf; result = err (io errno) })
after_poll rx buf packets again no_event = done (record { rx = rx; buf = buf; result = ok none })
after_poll rx buf packets again ready = do rx' ← drain_pcap_nonblock rx packets; again rx'

-- The `loop` of `recv`; the timeout is in nanoseconds.
unfoldable pub recv_loop : ℕ → List Round → WfbRx → List ℕ → Run Received
recv_loop timeout [] rx buf = if ltb 0 rx.ring_count then deliver rx buf else out_of_fuel
recv_loop timeout (r ∷ rounds) rx buf =
    if ltb 0 rx.ring_count
    then deliver rx buf
    else if leb timeout r.elapsed
    then done (record { rx = rx; buf = buf; result = ok none })
    else after_poll rx buf r.packets (λ rx'. recv_loop timeout rounds rx' buf)
        (r.poll (remaining_ms timeout r.elapsed))

unfoldable pub recv : WfbRx → List ℕ → ℕ → List Round → Run Received
recv rx buf timeout rounds =
    if length buf == 0
    then done (record { rx = rx; buf = buf; result = err (invalid_argument recv_buffer_empty) })
    else if ltb 0 rx.ring_count
    then deliver rx buf
    else recv_loop timeout rounds rx buf
