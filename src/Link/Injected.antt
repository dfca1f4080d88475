-- ===== src/Link/Injected.antt =====
-- A frame of src/tx.rs that src/rx.rs hears as the card injects it, behind the radiotap header of the
-- transmitter and not one of the card's.
use meshinator.Prelude.{
  ℕ, ◌+◌, ◌*◌, ◌/◌, ◌%◌, ◌^◌, ◌≤◌, ◌<◌, ◌≡◌, refl, ap, ◌∙◌, Bool, true, false, List, [], Option,
  none, some, length, replicate, append-nil, if◌then◌else◌, subst,
}
use meshinator.Prelude.Int.{i8_min, i8_max}
use meshinator.Run.{Returns}
use meshinator.Run.Laws.{Returns-weaken}
use meshinator.Proto.{WfbTxConfig}
use meshinator.Radiotap.Layout.{has_flag}
use meshinator.Radiotap.Injected.{own_radiotap, own_meta, own_radiotap-parsed}
use meshinator.Tx.Frames.{ieee_header, frame}
use meshinator.Rx.Queue
use meshinator.Rx.Queue.{Frame}
use meshinator.Rx.State.{WfbRx}
use meshinator.Rx.Ring.Valid.{IsValid}
use meshinator.Rx.Ring.Fifo.{contents}
use meshinator.Rx.Parse.{rx_meta, parse_and_enqueue_one_packet}
use meshinator.Rx.Parse.FrameOf.{push_option, frame_of, frame_of_lem}
use meshinator.Rx.Parse.Refine.{Took, parse_and_enqueue_refines}
use meshinator.Link.Carried.{captured, frame_of-captured}

-- What the receiver reports of a frame that was asked to be sent with `mcs` and `bw`: the radiotap
-- header has no frequency, antenna or signal.
abbrev pub own_frame : (bw mcs seq : ℕ) → List ℕ → Frame
own_frame bw mcs seq payload = (
  payload,
  record {
    seq = seq;
    flags = 0;
    freq = 0;
    mcs_index = mcs;
    bandwidth = 20 + 20 * bw;
    antenna = replicate 4 255;
    rssi = replicate 4 i8_min;
    noise = replicate 4 i8_max;
    antenna_count = 0;
    truncated = false;
  },
)

-- A receiver that ignores what its own machine injects.
abbrev pub unless : Bool → Frame → Option Frame
unless ignore f = if ignore then none else some f

module _ (cfg : WfbTxConfig) (n bw mcs seq : ℕ) (payload : List ℕ) (bw_range : bw ≤ 1)
    (mcs_range : mcs ≤ 15) (seq_fits : seq < 2 ^ 32) (payload_fits : length payload < 2 ^ 16) where
  abbrev ieee : List ℕ
  ieee = ieee_header cfg.frame_type cfg.stream_id (16 * n % 256) (16 * n % 65536 / 256)

  abbrev pkt : List ℕ
  pkt = captured (own_radiotap bw mcs) ieee seq payload []

  frame_of-own :
      (ignore : Bool) (max : ℕ)
      → length payload ≤ max
      → frame_of ignore max pkt ≡ unless ignore (own_frame bw mcs seq payload)
  unfolding has_flag rx_meta
  frame_of-own true max fits =
      frame_of_lem true max pkt (some (own_meta mcs (20 + 20 * bw)))
        (own_radiotap-parsed bw mcs _ bw_range mcs_range)
  frame_of-own false max fits =
      frame_of-captured (own_meta mcs (20 + 20 * bw)) (own_radiotap bw mcs) ieee seq payload [] refl
        refl refl seq_fits payload_fits false max (own_radiotap-parsed bw mcs _ bw_range mcs_range)
        refl fits

push_option-unless :
    (cap : ℕ) (q : List Frame) (ignore : Bool) (f : Frame)
    → push_option cap q (unless ignore f) ≡ (if ignore then q else Queue.push cap q f)
push_option-unless cap q true f = refl
push_option-unless cap q false f = refl

-- The receiver after a frame that its own machine injected.
abbrev pub Heard : WfbRx → Frame → WfbRx → Type 0
Heard rx f rx' =
    IsValid rx'
    × (contents rx' ≡ (
        if rx.ignore_self_injected then contents rx else Queue.push rx.ring_size (contents rx) f))

-- The frame of send number `n`, with a sequence number below 2 ^ 32 and a payload below 2 ^ 16
-- bytes that fits a slot, heard with the radiotap header that the transmitter itself wrote for a
-- bandwidth bit of 0 or 1 and an index of at most 15: a valid receiver that ignores self-injected
-- frames does not change its queue; another one takes the frame in, unless the ring is full, with
-- the payload and the sequence number that were sent, with the MCS index and the bandwidth, 20 or 40,
-- that the transmitter asked for, and with flags, a frequency and a number of antennas of 0.
pub recv-send_own :
    (cfg : WfbTxConfig) (n bw mcs seq : ℕ) (payload : List ℕ) (rx : WfbRx)
    → IsValid rx
    → bw ≤ 1
    → mcs ≤ 15
    → seq < 2 ^ 32
    → length payload < 2 ^ 16
    → length payload ≤ rx.max_payload
    → Returns
        (Heard rx (own_frame bw mcs seq payload))
        (parse_and_enqueue_one_packet rx (frame cfg n bw mcs seq payload))
recv-send_own cfg n bw mcs seq payload rx v b m s p fits =
    let packet : List ℕ = pkt cfg n bw mcs seq payload b m s p in
    let same : packet ≡ frame cfg n bw mcs seq payload = rw append-nil refl in
    subst
      (λ bytes.
        Returns (Heard rx (own_frame bw mcs seq payload)) (parse_and_enqueue_one_packet rx bytes))
      same
      (Returns-weaken (Took rx (frame_of rx.ignore_self_injected rx.max_payload packet)) _ _
        (parse_and_enqueue_refines rx packet v)
        (λ rx' t. (
          t.valid,
          t.holds
              ∙ ap (push_option rx.ring_size (contents rx)) (
                  frame_of-own cfg n bw mcs seq payload b m s p rx.ignore_self_injected
                    rx.max_payload fits)
              ∙ push_option-unless rx.ring_size (contents rx) rx.ignore_self_injected
                  (own_frame bw mcs seq payload),
        )))
