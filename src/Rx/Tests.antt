-- ===== src/Rx/Tests.antt =====
-- The receiver of src/rx.rs at concrete inputs: a ring of two slots of two bytes, and packets that
-- carry a frame of two bytes.
use meshinator.Prelude.{
  ℕ, zero, suc, ◌≤◌, ◌≡◌, refl, ◌⊎◌, inl, inr, ◌*◌, ◌+◌, ◌<◌, ◌^◌, false, List, [], ◌∷◌, ◌++◌, none,
  some, get_or, arith,
}
use meshinator.Prelude.Int.{pos}
use meshinator.Run.{Returns, done}
use meshinator.Kernel.{Kernel, Sys, close_fd}
use meshinator.Rx.Drop.{drop_rx}
use meshinator.Rx.Drop.Twice.{drop_rx-open_rx}
use meshinator.Proto.{WfbRxConfig, ok, default_meta}
use meshinator.Rx.State.{WfbRx}
use meshinator.Rx.Ring.{enqueue_decoded, pop_one}
use meshinator.Rx.Ring.Valid.{IsValid}
use meshinator.Rx.Ring.Fifo.{contents}
use meshinator.Rx.Ring.Refine.{
  SameSettings, Enqueued, enqueue_decoded_refines, Delivered, pop_one_refines,
}
use meshinator.Rx.Parse.{parse_and_enqueue_one_packet}
use meshinator.Rx.Parse.FrameOf.{frame_of}
use meshinator.Rx.Parse.Refine.{Took, parse_and_enqueue_refines}
use meshinator.Rx.Recv.{
  Packet, no_event, ready, Round, drain_pcap_nonblock, recv, i32_max, remaining_ms,
}
use meshinator.Rx.Recv.Drain.{Drained, drain_refines}
use meshinator.Rx.Recv.Outcome.{Answered, DeliveredFirst}
use meshinator.Rx.Recv.Answers.{recv_accounts, recv_held}
use meshinator.Rx.Recv.Script.{recv-Expires}
use meshinator.Rx.Recv.Timeouts.{remaining_ms_lem}
use meshinator.Rx.Open.{success, PcapLib, open_rx, open_capture, fresh}
use meshinator.Rx.Open.Outcome.{OpenOutcome, open_rx-Outcome}

abbrev empty_rx : WfbRx
empty_rx = record {
  iface = [];
  ignore_self_injected = false;
  max_payload = 2;
  ring_size = 2;
  ring_count = 0;
  ring_head = 1;
  ring_tail = 1;
  ring_payload_store = 0 ∷ 0 ∷ 5 ∷ 6 ∷ [];
  ring_payload_len = 0 ∷ 2 ∷ [];
  ring_meta = default_meta ∷ default_meta ∷ [];
  fd = pos 3;
}

-- One frame, in the last slot.
abbrev one_held : WfbRx
one_held = record empty_rx { ring_count = 1; ring_tail = 0 }

small_lens : (i : ℕ) → get_or (0 ∷ 2 ∷ []) i 0 ≤ 2
small_lens zero = omega arith
small_lens (suc zero) = omega arith
small_lens (suc (suc i)) = omega arith

empty_rx-IsValid : IsValid empty_rx
empty_rx-IsValid = record {
  size_pos = omega arith;
  count_le = omega arith;
  head_lt = omega arith;
  tail_eq = refl;
  lens_slots = refl;
  meta_slots = refl;
  store_bytes = refl;
  lens_fit = small_lens;
}

one_held-IsValid : IsValid one_held
one_held-IsValid = record {
  size_pos = omega arith;
  count_le = omega arith;
  head_lt = omega arith;
  tail_eq = refl;
  lens_slots = refl;
  meta_slots = refl;
  store_bytes = refl;
  lens_fit = small_lens;
}

-- A radiotap header of eight bytes, an 802.11 header, and a frame with payload 9 9.
abbrev packet : List ℕ
packet =
    (0 ∷ 0 ∷ 8 ∷ 0 ∷ 0 ∷ 0 ∷ 0 ∷ 0 ∷ [])
    ++ ((8 ∷ 1 ∷ 0 ∷ 0 ∷ 255 ∷ 255 ∷ 255 ∷ 255 ∷ 255 ∷ 255 ∷ [])
        ++ ((0x57 ∷ 0x42 ∷ 0 ∷ 0 ∷ 0 ∷ 7 ∷ 0x57 ∷ 0x42 ∷ 0 ∷ 0 ∷ 0 ∷ 7 ∷ 0 ∷ 0 ∷ [])
            ++ ((0 ∷ 0 ∷ 0 ∷ 0 ∷ 1 ∷ 0 ∷ 2 ∷ 0 ∷ []) ++ (9 ∷ 9 ∷ []))))

abbrev captured_packet : Packet
captured_packet = record { caplen = 42; bytes = packet }

-- The capture becomes readable, then the clock passes five nanoseconds.
abbrev script : List Round
script =
    record { elapsed = 0; poll = λ ms. ready; packets = captured_packet ∷ [] }
    ∷ record { elapsed = 6; poll = λ ms. no_event; packets = [] }
    ∷ []

recv_accounts_example :
    Returns (Answered empty_rx 5 script (0 ∷ 0 ∷ 0 ∷ [])) (recv empty_rx (0 ∷ 0 ∷ 0 ∷ []) 5 script)
recv_accounts_example =
    recv_accounts empty_rx (0 ∷ 0 ∷ 0 ∷ []) 5 script empty_rx-IsValid (omega arith)
      ((omega arith, tt), (tt, tt)) (inr (inl (omega arith)))

recv-Expires_example :
    recv empty_rx (0 ∷ 0 ∷ 0 ∷ []) 5 (script ++ script) ≡ recv empty_rx (0 ∷ 0 ∷ 0 ∷ []) 5 script
recv-Expires_example =
    recv-Expires 5 (0 ∷ 0 ∷ 0 ∷ []) script script empty_rx (inr (inl (omega arith)))

recv_held_example :
    Returns
      (λ r.
        IsValid r.rx × SameSettings one_held r.rx × DeliveredFirst (contents one_held) (0 ∷ []) r)
      (recv one_held (0 ∷ []) 0 [])
recv_held_example = recv_held one_held (0 ∷ []) 0 [] one_held-IsValid (omega arith) (omega arith)

parse_and_enqueue_refines_example :
    Returns (Took one_held (frame_of false 2 packet)) (parse_and_enqueue_one_packet one_held packet)
parse_and_enqueue_refines_example = parse_and_enqueue_refines one_held packet one_held-IsValid

enqueue_decoded_refines_example :
    Returns
      (Enqueued one_held (9 ∷ [], default_meta))
      (enqueue_decoded one_held (9 ∷ []) default_meta)
enqueue_decoded_refines_example =
    enqueue_decoded_refines one_held (9 ∷ []) default_meta one_held-IsValid (omega arith)

held : contents one_held ≡ (5 ∷ 6 ∷ [], default_meta) ∷ []
held = refl

-- The buffer has room for one byte of the two.
pop_one_refines_example :
    Returns
      (Delivered one_held (5 ∷ 6 ∷ [], default_meta) [] (0 ∷ []))
      (pop_one one_held (0 ∷ []) (some default_meta))
pop_one_refines_example =
    pop_one_refines one_held (0 ∷ []) default_meta (5 ∷ 6 ∷ [], default_meta) [] one_held-IsValid
      held

drain_refines_example :
    Returns
      (Drained one_held (captured_packet ∷ captured_packet ∷ []))
      (drain_pcap_nonblock one_held (captured_packet ∷ captured_packet ∷ []))
drain_refines_example =
    drain_refines (captured_packet ∷ captured_packet ∷ []) one_held one_held-IsValid
      (omega arith, (omega arith, tt))

-- Two and a half milliseconds are left.
remaining_ms_example :
    (remaining_ms 3_000_000 500_000 < 2 ^ 31)
    × (500_000 + remaining_ms 3_000_000 500_000 * 1_000_000 ≤ 3_000_000)
    × ((remaining_ms 3_000_000 500_000 ≡ i32_max)
        ⊎ (3_000_000 < 500_000 + (remaining_ms 3_000_000 500_000 + 1) * 1_000_000))
remaining_ms_example = remaining_ms_lem 3_000_000 500_000 (omega arith)

-- A capture library whose calls all succeed.
abbrev willing : PcapLib
willing = record {
  Inactive = Unit {0};
  Active = Unit {0};
  from_device = λ iface. success tt;
  promisc = λ b c. c;
  immediate_mode = λ b c. c;
  snaplen = λ n c. c;
  timeout = λ ms c. c;
  activate = λ c. success tt;
  setnonblock = λ c. success tt;
  filter = λ text optimize c. success tt;
  as_raw_fd = λ c. pos 5;
}

abbrev config : WfbRxConfig
config = record {
  iface = 119 ∷ [];
  stream_id = 7;
  rcv_buf_size = none;
  ignore_self_injected = false;
  ring_size = 3;
}

opened : open_rx willing config ≡ ok (fresh config (pos 5), tt)
unfolding open_rx open_capture
opened = refl

open_rx-Outcome_example : OpenOutcome willing config (open_rx willing config)
open_rx-Outcome_example = open_rx-Outcome willing config

abbrev kernel : Kernel
kernel = record { ret = λ log. pos 0; errno = λ log. 0; ifindex = λ log. pos 0 }

-- A capture that closes its descriptor.
abbrev drop_willing : Unit {0} → Sys (Unit {0})
drop_willing c log = done (tt, close_fd (pos 5) ∷ log)

drop_rx-open_rx_example :
    drop_rx kernel drop_willing (fresh config (pos 5)) tt []
    ≡ done (tt, close_fd (fresh config (pos 5)).fd ∷ close_fd (fresh config (pos 5)).fd ∷ [])
drop_rx-open_rx_example =
    drop_rx-open_rx kernel willing drop_willing config (fresh config (pos 5)) tt [] opened
      (λ calls. refl)
