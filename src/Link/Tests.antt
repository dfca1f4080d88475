-- ===== src/Link/Tests.antt =====
-- A frame of two bytes, from the transmitter to the receiver.
use meshinator.Prelude.{
  ℕ, suc, zero, ◌≤◌, ◌≡◌, refl, true, false, List, [], ◌∷◌, ◌++◌, some, get_or, arith,
}
use meshinator.Prelude.Int.{pos}
use meshinator.Run.{Returns, done, index, slice}
use meshinator.Proto.{WfbTxConfig, default_meta}
use meshinator.Radiotap.{
  RadiotapMeta, radiotap_meta_from_packet, le_u16, le_u32, read_present_words, read_args,
  walk_fields, visit_field, meta_of,
}
use meshinator.Radiotap.Layout.{has_flag}
use meshinator.Kernel.{Kernel}
use meshinator.Tx.{WfbTx}
use meshinator.Tx.Frames.{ieee_header, radiotap_header}
use meshinator.Rx.Parse.FrameOf.{is_wanted}
use meshinator.Radiotap.Injected.{own_meta}
use meshinator.Tx.Frames.{mac_frame, frame}
use meshinator.Rx.Queue
use meshinator.Rx.State.{WfbRx}
use meshinator.Rx.Ring.Valid.{IsValid}
use meshinator.Rx.Ring.Fifo.{contents}
use meshinator.Rx.Parse.{rx_meta, parse_and_enqueue_one_packet}
use meshinator.Link.Carried.{header_for, fcs_len, recv-send}
use meshinator.Link.Injected.{own_frame, Heard, recv-send_own}

abbrev tx_config : WfbTxConfig
tx_config = record {
  iface = 119 ∷ [];
  stream_id = 7;
  frame_type = 8;
  mcs_index = 3;
  bandwidth = 40;
}

abbrev payload : List ℕ
payload = 9 ∷ 8 ∷ []

abbrev receiver : WfbRx
receiver = record {
  iface = 119 ∷ [];
  ignore_self_injected = true;
  max_payload = 2;
  ring_size = 2;
  ring_count = 0;
  ring_head = 0;
  ring_tail = 0;
  ring_payload_store = 0 ∷ 0 ∷ 0 ∷ 0 ∷ [];
  ring_payload_len = 0 ∷ 0 ∷ [];
  ring_meta = default_meta ∷ default_meta ∷ [];
  fd = pos 3;
}

no_lens : (i : ℕ) → get_or (0 ∷ 0 ∷ []) i 0 ≤ 2
no_lens zero = omega arith
no_lens (suc zero) = omega arith
no_lens (suc (suc i)) = omega arith

receiver-IsValid : IsValid receiver
receiver-IsValid = record {
  size_pos = omega arith;
  count_le = omega arith;
  head_lt = omega arith;
  tail_eq = refl;
  lens_slots = refl;
  meta_slots = refl;
  store_bytes = refl;
  lens_fit = no_lens;
}

-- A header of the card that announces nothing.
abbrev plain : List ℕ
plain = 0 ∷ 0 ∷ 8 ∷ 0 ∷ 0 ∷ 0 ∷ 0 ∷ 0 ∷ []

abbrev plain_meta : RadiotapMeta
plain_meta = record (own_meta 0 20) { self_injected = false; radiotap_len = 8 }

plain_read :
    radiotap_meta_from_packet (plain ++ (mac_frame tx_config 0 5 payload ++ []))
    ≡ done (some plain_meta)
unfolding radiotap_meta_from_packet le_u16 le_u32 read_present_words read_args walk_fields
    visit_field meta_of index slice has_flag
plain_read = refl

wanted : is_wanted true plain_meta ≡ true
unfolding has_flag
wanted = refl

no_fcs : ◌≡◌ {A = ℕ} 0 (fcs_len plain_meta)
unfolding has_flag
no_fcs = refl

recv-send_example :
    Returns
      (λ rx'.
        IsValid rx'
        × (contents rx'
            ≡ Queue.push 2
                (contents receiver)
                (payload, rx_meta (header_for 5 payload) plain_meta)))
      (parse_and_enqueue_one_packet receiver (plain ++ (mac_frame tx_config 0 5 payload ++ [])))
recv-send_example =
    recv-send tx_config 0 5 payload plain [] plain_meta receiver receiver-IsValid (omega arith)
      (omega arith) (omega arith) plain_read refl wanted no_fcs

recv-send_own_example :
    Returns
      (Heard receiver (own_frame 1 3 5 payload))
      (parse_and_enqueue_one_packet receiver (frame tx_config 0 1 3 5 payload))
recv-send_own_example =
    recv-send_own tx_config 0 1 3 5 payload receiver receiver-IsValid (omega arith) (omega arith)
      (omega arith) (omega arith) (omega arith)

abbrev kernel : Kernel
kernel = record { ret = λ log. pos 3; errno = λ log. 0; ifindex = λ log. pos 1 }

abbrev opened_tx : WfbTx
opened_tx = record {
  fd = pos 3;
  stream_id = 7;
  frame_type = 8;
  ieee80211_seq = 0;
  ieee_hdr = ieee_header 8 7 0 0;
  radiotap_ht = radiotap_header 1 3;
}
