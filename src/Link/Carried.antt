-- ===== src/Link/Carried.antt =====
-- A frame of src/tx.rs behind a radiotap header of the capture's, read by src/rx.rs.
use meshinator.Prelude.{
  ℕ, ◌+◌, ◌*◌, ◌/◌, ◌%◌, ◌^◌, ◌≤◌, ◌<◌, ◌≡◌, refl, sym, ap, ap₂, ◌∙◌, Bool, true, ◌&&◌, List, ◌++◌,
  none, some, length, take, drop, length-append, take-append_self, drop-append_self,
  drop-length_add, drop-drop, leb, le→leb, ◌==◌, if◌then◌else◌, arith,
}
use meshinator.Run.{done, Returns}
use meshinator.Run.Laws.{Returns-weaken}
use meshinator.Proto.{WfbTxConfig, WfbFrameHeader}
use meshinator.Proto.Bytes.{from_be_u32_lem, from_be_u16_lem}
use meshinator.Proto.Decode.{header_at}
use meshinator.Radiotap.{RadiotapMeta, radiotap_meta_from_packet}
use meshinator.Radiotap.Layout.{has_flag, rtap_f_fcs}
use meshinator.Tx.Frames.{frame_header, mac_frame, ieee_header}
use meshinator.Rx.Queue
use meshinator.Rx.Queue.{Frame}
use meshinator.Rx.State.{WfbRx}
use meshinator.Rx.Ring.Valid.{IsValid}
use meshinator.Rx.Ring.Fifo.{contents}
use meshinator.Rx.Parse.{rx_meta, parse_and_enqueue_one_packet}
use meshinator.Rx.Parse.FrameOf.{
  push_option, end_of, payload_start, header_of, is_wanted, frame_of, frame_of_lem,
}
use meshinator.Rx.Parse.Refine.{Took, parse_and_enqueue_refines}

abbrev pub header_for : ℕ → List ℕ → WfbFrameHeader
header_for seq payload = record { version = 0; seq = seq; payload_len = length payload; flags = 0 }

-- The frame check sequence is there exactly if the radiotap header says so.
abbrev pub fcs_len : RadiotapMeta → ℕ
fcs_len m = if has_flag m.rt_flags rtap_f_fcs then 4 else 0

-- A captured frame.
abbrev pub captured : List ℕ → List ℕ → ℕ → List ℕ → List ℕ → List ℕ
captured rt ieee seq payload fcs =
    rt ++ (ieee ++ (frame_header seq (length payload) ++ (payload ++ fcs)))

module _ (m : RadiotapMeta) (rt ieee : List ℕ) (seq : ℕ) (payload fcs : List ℕ)
    (rt_len : m.radiotap_len ≡ length rt) (ieee_len : length ieee ≡ 24)
    (fcs_there : length fcs ≡ fcs_len m) (seq_fits : seq < 2 ^ 32)
    (payload_fits : length payload < 2 ^ 16) where
  abbrev pkt : List ℕ
  pkt = captured rt ieee seq payload fcs

  at_header : drop (m.radiotap_len + 24) pkt ≡ frame_header seq (length payload) ++ (payload ++ fcs)
  at_header =
      let body : List ℕ = frame_header seq (length payload) ++ (payload ++ fcs) in
      ap₂ (λ a b. drop (a + b) pkt) rt_len (sym ieee_len)
      ∙ drop-length_add rt (ieee ++ body) (length ieee)
      ∙ drop-append_self ieee body

  at_payload : drop (payload_start m) pkt ≡ payload ++ fcs
  at_payload = drop-drop (m.radiotap_len + 24) 8 pkt ∙ ap (drop 8) at_header

  header_read : header_of m pkt ≡ header_for seq payload
  header_read =
      ap header_at at_header
      ∙ ap₂ (λ a b. record { version = 0; seq = a; payload_len = b; flags = 0 })
          (from_be_u32_lem seq seq_fits) (from_be_u16_lem (length payload) payload_fits)

  length-pkt : length pkt ≡ length rt + 24 + 8 + length payload + length fcs
  length-pkt = omega (
    arith,
    length-append {0} rt (ieee ++ (frame_header seq (length payload) ++ (payload ++ fcs))),
    length-append {0} ieee (frame_header seq (length payload) ++ (payload ++ fcs)),
    length-append {0} payload fcs,
    ieee_len,
  )

  end_of-eq : end_of m pkt ≡ payload_start m + length payload
  end_of-eq = ground (arith, length-pkt, fcs_there, rt_len)

  pub frame_of-captured :
      (ignore : Bool) (max : ℕ)
      → radiotap_meta_from_packet pkt ≡ done (some m)
      → is_wanted ignore m ≡ true
      → length payload ≤ max
      → frame_of ignore max pkt ≡ some (payload, rx_meta (header_for seq payload) m)
  frame_of-captured ignore max parsed wanted fits =
      let inside : payload_start m ≤ end_of m pkt = omega (arith, end_of-eq) in
      let whole : payload_start m + length payload ≤ end_of m pkt = omega (arith, end_of-eq) in
      frame_of_lem ignore max pkt (some m) parsed
      ∙ ap₂
          (λ (h : WfbFrameHeader) (bytes : List ℕ).
            if is_wanted ignore m
              && (leb (payload_start m) (end_of m pkt)
                  && (h.version == 0)
                  && leb (payload_start m + h.payload_len) (end_of m pkt)
                  && leb h.payload_len max)
            then some (take h.payload_len bytes, rx_meta h m)
            else none)
          header_read at_payload
      ∙ rw (
        wanted,
        le→leb (payload_start m) (end_of m pkt) inside,
        le→leb (payload_start m + length payload) (end_of m pkt) whole,
        le→leb (length payload) max fits,
        take-append_self payload fcs,
      )

-- Take the frame of a transmitter's send number `n` with a sequence number below 2 ^ 32 and a
-- payload below 2 ^ 16 bytes that fits a slot of a valid receiver. Captured behind any radiotap
-- header that the receiver's walk accepts with that header's length, which marks the frame neither
-- as an ignored echo nor as damaged, and in front of the check sequence that the header announces,
-- it is taken in as one frame with exactly the payload and the sequence number that were sent,
-- flags 0, and the readings of the radiotap header, unless the ring is full.
pub recv-send :
    (cfg : WfbTxConfig) (n seq : ℕ) (payload : List ℕ) (rt fcs : List ℕ) (m : RadiotapMeta)
    (rx : WfbRx)
    → IsValid rx
    → length payload ≤ rx.max_payload
    → length payload < 2 ^ 16
    → seq < 2 ^ 32
    → radiotap_meta_from_packet (rt ++ (mac_frame cfg n seq payload ++ fcs)) ≡ done (some m)
    → m.radiotap_len ≡ length rt
    → is_wanted rx.ignore_self_injected m ≡ true
    → length fcs ≡ fcs_len m
    → Returns
        (λ rx'.
          IsValid rx'
          × (contents rx'
              ≡ Queue.push rx.ring_size
                  (contents rx)
                  (payload, rx_meta (header_for seq payload) m)))
        (parse_and_enqueue_one_packet rx (rt ++ (mac_frame cfg n seq payload ++ fcs)))
recv-send cfg n seq payload rt fcs m rx v fits short seq_fits parsed rt_len wanted fcs_there =
    let ieee : List ℕ =
      ieee_header cfg.frame_type cfg.stream_id (16 * n % 256) (16 * n % 65536 / 256) in
    let taken =
      frame_of-captured m rt ieee seq payload fcs rt_len refl fcs_there seq_fits short
        rx.ignore_self_injected rx.max_payload parsed wanted fits in
    Returns-weaken
      (Took rx (frame_of rx.ignore_self_injected rx.max_payload (captured rt ieee seq payload fcs)))
      _ _ (parse_and_enqueue_refines rx (captured rt ieee seq payload fcs) v)
      (λ rx' t. (t.valid, t.holds ∙ ap (push_option rx.ring_size (contents rx)) taken))
