-- ===== src/Rx/Recv/Drain.antt =====
-- `drain_pcap_nonblock` of src/rx.rs against the bounded queue.
use meshinator.Prelude.{ℕ, ◌-◌, ◌≤◌, ◌≡◌, refl, ap, ◌∙◌, Bool, List, [], ◌∷◌, length, take, arith}
use meshinator.Run.{◌>>=◌, Returns}
use meshinator.Run.Laws.{Returns-bind, Returns-weaken, slice-done}
use meshinator.Rx.Queue.{Frame}
use meshinator.Rx.State.{WfbRx}
use meshinator.Rx.Ring.Valid.{IsValid}
use meshinator.Rx.Ring.Fifo.{contents}
use meshinator.Rx.Ring.Refine.{SameSettings}
use meshinator.Rx.Parse.{parse_and_enqueue_one_packet}
use meshinator.Rx.Parse.FrameOf.{frame_of, push_option}
use meshinator.Rx.Parse.Refine.{Took, parse_and_enqueue_refines}
use meshinator.Rx.Recv.{Packet, drain_pcap_nonblock}

-- What the capture library documents: a packet comes with its `caplen` bytes.
abbrev pub AreCaptured : List Packet → Type 0
AreCaptured [] = Unit {0}
AreCaptured (p ∷ ps) = (p.caplen ≤ length p.bytes) × AreCaptured ps

-- The bounded queue after the packets.
abbrev pub push_packets : Bool → ℕ → ℕ → List Frame → List Packet → List Frame
push_packets ignore max size q [] = q
push_packets ignore max size q (p ∷ ps) =
    push_packets ignore max size (push_option size q (frame_of ignore max (take p.caplen p.bytes)))
      ps

-- The queue of a receiver after the packets.
abbrev pub heard : WfbRx → List Packet → List Frame
heard rx ps = push_packets rx.ignore_self_injected rx.max_payload rx.ring_size (contents rx) ps

pub record Drained (rx : WfbRx) (ps : List Packet) (rx' : WfbRx) : Type 0 where
  pub valid : IsValid rx'
  pub same : SameSettings rx rx'
  pub holds : contents rx' ≡ heard rx ps

pub SameSettings-trans : (a b c : WfbRx) → SameSettings a b → SameSettings b c → SameSettings a c
SameSettings-trans a b c p q = record {
  same_ignore = q.same_ignore ∙ p.same_ignore;
  same_max = q.same_max ∙ p.same_max;
  same_size = q.same_size ∙ p.same_size;
  same_fd = q.same_fd ∙ p.same_fd;
}

-- With the same settings and contents the same queue comes of the same packets.
pub push_packets_same :
    (rx rx' : WfbRx) (q : List Frame) (ps : List Packet)
    → SameSettings rx rx'
    → push_packets rx'.ignore_self_injected rx'.max_payload rx'.ring_size q ps
      ≡ push_packets rx.ignore_self_injected rx.max_payload rx.ring_size q ps
push_packets_same rx rx' q ps s = simp (s.same_ignore, s.same_max, s.same_size)

drain-cons :
    (p : Packet) (ps : List Packet) (rx : WfbRx)
    → p.caplen ≤ length p.bytes
    → drain_pcap_nonblock rx (p ∷ ps) ≡ (
        parse_and_enqueue_one_packet rx (take p.caplen p.bytes) >>= λ rx'.
        drain_pcap_nonblock rx' ps)
unfolding drain_pcap_nonblock
drain-cons p ps rx h =
    let whole : p.caplen - 0 ≡ p.caplen = omega arith in
    rw (slice-done p.bytes 0 p.caplen (omega arith) h, whole)

-- For a valid receiver and packets that have the bytes that they announce, draining the capture
-- returns, keeps the invariant and the settings, and leaves the ring holding what the bounded
-- queue holds after the frames of all the packets, in their order.
pub drain_refines :
    (ps : List Packet) (rx : WfbRx)
    → IsValid rx
    → AreCaptured ps
    → Returns (Drained rx ps) (drain_pcap_nonblock rx ps)
unfolding drain_pcap_nonblock
drain_refines [] rx v c = record {
  valid = v;
  same = record { same_ignore = refl; same_max = refl; same_size = refl; same_fd = refl };
  holds = refl;
}
drain_refines (p ∷ ps) rx v c =
    let pkt : List ℕ = take p.caplen p.bytes in
    rw (drain-cons p ps rx c.0) (
      Returns-bind (Took rx (frame_of rx.ignore_self_injected rx.max_payload pkt))
        (Drained rx (p ∷ ps)) (parse_and_enqueue_one_packet rx pkt)
        (λ rx'. drain_pcap_nonblock rx' ps) (parse_and_enqueue_refines rx pkt v)
        (λ rx' t.
          Returns-weaken (Drained rx' ps) (Drained rx (p ∷ ps)) (drain_pcap_nonblock rx' ps)
            (drain_refines ps rx' t.valid c.1)
            (λ rx'' d. record {
              valid = d.valid;
              same = SameSettings-trans rx rx' rx'' t.same d.same;
              holds =
                  d.holds
                  ∙ push_packets_same rx rx' (contents rx') ps t.same
                  ∙ ap (λ q. push_packets rx.ignore_self_injected rx.max_payload rx.ring_size q ps)
                      t.holds;
            })))
