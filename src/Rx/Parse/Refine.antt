-- ===== src/Rx/Parse/Refine.antt =====
-- `parse_and_enqueue_one_packet` of src/rx.rs against the frame that the packet carries.
use meshinator.Prelude.{
  ℕ, ◌+◌, ◌-◌, ◌≤◌, ◌≡◌, refl, Bool, true, false, not, ◌&&◌, List, Option, none, some, length, take,
  drop, length-take, length-drop, ltb, leb, leb-false, le→leb, ◌==◌, if◌then◌else◌, arith,
}
use meshinator.Run.{◌>>=◌, Returns, slice}
use meshinator.Run.Laws.{Returns-if, Returns-done, Returns-weaken, slice-done}
use meshinator.Proto.{WfbFrameHeader, ok, decode}
use meshinator.Proto.Decode.{decode_lem, header_at-take}
use meshinator.Radiotap.{RadiotapMeta, radiotap_meta_from_packet}
use meshinator.Radiotap.Layout.{has_flag, rtap_f_badfcs}
use meshinator.Radiotap.Safe.{radiotap_meta-Returns}
use meshinator.Rx.Queue.{Frame}
use meshinator.Rx.State.{WfbRx}
use meshinator.Rx.Ring.{enqueue_decoded}
use meshinator.Rx.Ring.Valid.{IsValid}
use meshinator.Rx.Ring.Fifo.{contents}
use meshinator.Rx.Ring.Refine.{SameSettings, Enqueued, enqueue_decoded_refines}
use meshinator.Rx.Parse.{
  rx_meta, take_payload, effective_len_of, parse_with, parse_and_enqueue_one_packet,
}
use meshinator.Rx.Parse.FrameOf.{
  end_of, payload_start, header_of, is_whole, frame_with, frame_of, frame_of_lem, push_option,
}

-- The receiver after a packet that carries the frame `o`, or none.
pub record Took (rx : WfbRx) (o : Option Frame) (rx' : WfbRx) : Type 0 where
  pub valid : IsValid rx'
  pub same : SameSettings rx rx'
  pub holds : contents rx' ≡ push_option rx.ring_size (contents rx) o

pub Took-none : (rx : WfbRx) → IsValid rx → Took rx none rx
Took-none rx v = record {
  valid = v;
  same = record { same_ignore = refl; same_max = refl; same_size = refl; same_fd = refl };
  holds = refl;
}

effective_len_of-eq-end_of :
    (m : RadiotapMeta) (pkt : List ℕ) → effective_len_of m pkt ≡ end_of m pkt
unfolding effective_len_of
effective_len_of-eq-end_of m pkt = ground arith

end_of-le : (m : RadiotapMeta) (pkt : List ℕ) → end_of m pkt ≤ length pkt
end_of-le m pkt = ground arith

not-true : (b : Bool) → not b ≡ true → b ≡ false
not-true false h = refl
not-true true h = cc

not-false : (b : Bool) → not b ≡ false → b ≡ true
not-false true h = refl
not-false false h = cc

module _ (rx : WfbRx) (pkt : List ℕ) (m : RadiotapMeta) (v : IsValid rx) where
  -- The last four checks, for any header.
  take_payload-Took :
      (e s : ℕ) (sh : WfbFrameHeader)
      → s + 8 ≤ e
      → e ≤ length pkt
      → Returns
          (Took rx (
            if (sh.version == 0)
              && leb (s + 8 + sh.payload_len) e
              && leb sh.payload_len rx.max_payload
            then some (take sh.payload_len (drop (s + 8) pkt), rx_meta sh m)
            else none))
          (take_payload rx pkt m e s (ok (sh, 8)))
  unfolding take_payload
  take_payload-Took e s sh h k =
      Returns-if _ (not (sh.version == 0)) _ _
        (λ wrong. rw (not-true (sh.version == 0) wrong) (Took-none rx v))
        (λ known. rw (not-false (sh.version == 0) known) (
          Returns-if _ (ltb e (s + 8)) _ _ (λ short. absurd (ground arith))
            (λ _.
              Returns-if _ (ltb (e - (s + 8)) sh.payload_len) _ _
                (λ cut. rw (leb-false (s + 8 + sh.payload_len) e (ground arith)) (Took-none rx v))
                (λ whole.
                  let inside : s + 8 + sh.payload_len ≤ e = ground arith in
                  rw (le→leb (s + 8 + sh.payload_len) e inside) (
                    Returns-if _ (ltb rx.max_payload sh.payload_len) _ _
                      (λ large.
                        rw (leb-false sh.payload_len rx.max_payload (ground arith))
                          (Took-none rx v))
                      (λ fits.
                        rw (le→leb sh.payload_len rx.max_payload (ground arith))
                          (enqueue (omega arith) (ground arith))))))))
    where
      enqueue :
          s + 8 + sh.payload_len ≤ length pkt
          → sh.payload_len ≤ rx.max_payload
          → Returns (Took rx (some (take sh.payload_len (drop (s + 8) pkt), rx_meta sh m))) (
              slice pkt (s + 8) (s + 8 + sh.payload_len) >>= λ payload.
              enqueue_decoded rx payload (rx_meta sh m))
      enqueue inside fits =
          let cut : s + 8 + sh.payload_len - (s + 8) ≡ sh.payload_len = omega arith in
          let len : length (take sh.payload_len (drop (s + 8) pkt)) ≡ sh.payload_len = omega (
            arith,
            length-take {0} sh.payload_len (drop (s + 8) pkt),
            length-drop {0} (s + 8) pkt,
          ) in
          rw (slice-done pkt (s + 8) (s + 8 + sh.payload_len) (omega arith) inside, cut)
            (Returns-weaken (Enqueued rx (take sh.payload_len (drop (s + 8) pkt), rx_meta sh m)) _ _
              (enqueue_decoded_refines rx (take sh.payload_len (drop (s + 8) pkt)) (rx_meta sh m) v
                (rw len fits))
              (λ rx' q. record { valid = q.valid; same = q.same; holds = q.holds }))

  -- The header is read from the slice as it stands in the packet.
  read_header-Took :
      payload_start m ≤ end_of m pkt
      → Returns
          (Took rx (
            if is_whole rx.max_payload m pkt
            then some (
              take (header_of m pkt).payload_len (drop (payload_start m) pkt),
              rx_meta (header_of m pkt) m,
            )
            else none))
          (slice pkt (m.radiotap_len + 24) (m.radiotap_len + 24 + 8) >>= λ bytes.
            decode bytes >>= λ r. take_payload rx pkt m (end_of m pkt) (m.radiotap_len + 24) r)
  read_header-Took h =
      let at : ℕ = m.radiotap_len + 24 in
      let inside : at + 8 ≤ length pkt = omega (arith, end_of-le m pkt) in
      let cut : at + 8 - at ≡ 8 = omega arith in
      let long : 8 ≤ length (take 8 (drop at pkt)) =
        omega (arith, length-take {0} 8 (drop at pkt), length-drop {0} at pkt) in
      rw (slice-done pkt at (at + 8) (omega arith) inside, cut)
        (rw (decode_lem (take 8 (drop at pkt)) long) (
          rw (header_at-take (drop at pkt), le→leb (payload_start m) (end_of m pkt) h)
            (take_payload-Took (end_of m pkt) at (header_of m pkt) h (end_of-le m pkt))))

  parse_with-Took :
      Returns
        (Took rx (frame_with rx.ignore_self_injected rx.max_payload pkt (some m)))
        (parse_with rx pkt (some m))
  unfolding parse_with
  parse_with-Took =
      Returns-if _ (m.self_injected && rx.ignore_self_injected) _ _ (λ own. rw own (Took-none rx v))
        (λ foreign.
          rw (foreign, effective_len_of-eq-end_of m pkt)
            (Returns-if _ (has_flag m.rt_flags rtap_f_badfcs) _ _ (λ bad. rw bad (Took-none rx v))
              (λ good. rw good (
                Returns-if _ (leb (end_of m pkt) (m.radiotap_len + 24)) _ _
                  (λ no_room.
                    rw (leb-false (payload_start m) (end_of m pkt) (ground arith)) (Took-none rx v))
                  (λ room.
                    Returns-if _ (ltb (end_of m pkt - m.radiotap_len - 24) 8) _ _
                      (λ short.
                        rw (leb-false (payload_start m) (end_of m pkt) (ground arith))
                          (Took-none rx v))
                      (λ long.
                        Returns-if _ (ltb (end_of m pkt) (m.radiotap_len + 24 + 8)) _ _
                          (λ short.
                            rw (leb-false (payload_start m) (end_of m pkt) (ground arith))
                              (Took-none rx v))
                          (λ enough. read_header-Took (ground arith))))))))

-- For a valid receiver and any bytes, parsing a packet returns, and takes in exactly the frame that
-- `frame_of` reads from it: the ring is that of the bounded queue after the frame was pushed, or it
-- is unchanged if the packet carries none.
pub parse_and_enqueue_refines :
    (rx : WfbRx) (pkt : List ℕ)
    → IsValid rx
    → Returns
        (Took rx (frame_of rx.ignore_self_injected rx.max_payload pkt))
        (parse_and_enqueue_one_packet rx pkt)
unfolding parse_and_enqueue_one_packet
parse_and_enqueue_refines rx pkt v =
    let read = Returns-done _ (radiotap_meta_from_packet pkt) (radiotap_meta-Returns pkt) in
    rw (read.1, frame_of_lem rx.ignore_self_injected rx.max_payload pkt read.0 read.1)
      (by_meta read.0)
  where
    by_meta :
        (o : Option RadiotapMeta)
        → Returns
            (Took rx (frame_with rx.ignore_self_injected rx.max_payload pkt o))
            (parse_with rx pkt o)
    by_meta none = unfold parse_with in Took-none rx v
    by_meta (some m) = parse_with-Took rx pkt m v
