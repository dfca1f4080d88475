-- ===== src/Radiotap/Injected.antt =====
-- The radiotap header that src/tx.rs puts before a frame, as the walk reads it: an echo of an own frame.
use meshinator.Prelude.{
  ℕ, zero, suc, ◌+◌, ◌*◌, ◌≤◌, ◌≡◌, refl, true, List, [], ◌∷◌, ◌++◌, some, length, drop, replicate,
  ltb-false, le→leb, if◌then◌else◌, ap₂, arith,
}
use meshinator.Prelude.Bits.{bit_and_ones}
use meshinator.Prelude.Int.{i8_min, i8_max}
use meshinator.Run.{done, index, slice, write}
use meshinator.Radiotap.{
  RadiotapMeta, le_u16, le_u32, read_present_words, read_args, walk_fields, visit_field,
  visit_present, visit_laid_out, meta_of, read_field, read_antenna, read_rssi, read_noise, read_mcs,
  radiotap_meta_from_packet,
}
use meshinator.Radiotap.Layout.{has_flag, align_up, field_layout}

abbrev pub own_radiotap : ℕ → ℕ → List ℕ
own_radiotap bw mcs =
    0x00 ∷ 0x00 ∷ 0x0d ∷ 0x00 ∷ 0x00 ∷ 0x80 ∷ 0x08 ∷ 0x00 ∷ 0x08 ∷ 0x00 ∷ 0x37 ∷ bw ∷ mcs ∷ []

abbrev pub own_meta : ℕ → ℕ → RadiotapMeta
own_meta mcs_index bandwidth = record {
  rt_flags = 0;
  self_injected = true;
  freq = 0;
  antenna = replicate 4 255;
  rssi = replicate 4 i8_min;
  noise = replicate 4 i8_max;
  ant_count = 0;
  mcs_index = mcs_index;
  bandwidth = bandwidth;
  radiotap_len = 13;
}

wide : (bw : ℕ) → bw ≤ 1 → (if has_flag bw 1 then 40 else 20) ≡ 20 + 20 * bw
unfolding has_flag
wide zero h = refl
wide (suc zero) h = refl
wide (suc (suc n)) h = absurd (omega arith)

module _ (bw mcs : ℕ) (rest : List ℕ) where
  abbrev pkt : List ℕ
  pkt = own_radiotap bw mcs ++ rest

  abbrev size : ℕ
  size = length pkt

  -- Its one present word has the bits of TX_FLAGS and MCS.
  own_words : (fuel : ℕ) → read_present_words (suc fuel) pkt 4 [] ≡ done (some (0x88000 ∷ []))
  unfolding read_present_words le_u32 index slice has_flag
  own_words fuel = rw (ltb-false size 8 (omega arith), le→leb 8 size (omega arith))

  own_args :
      bw ≤ 1
      → mcs ≤ 15
      → read_args pkt 13 (0x88000 ∷ []) ≡ done (some (own_meta mcs (20 + 20 * bw)))
  unfolding read_args walk_fields visit_field visit_present visit_laid_out meta_of read_field
      read_antenna read_rssi read_noise read_mcs index slice write has_flag align_up field_layout
  own_args h k =
      rw
        (
          ltb-false size 8 (omega arith),
          ltb-false size 10 (omega arith),
          le→leb 10 size (omega arith),
          ltb-false size 13 (omega arith),
          le→leb 13 size (omega arith),
        )
        (ap₂ (λ a b. done (some (record (own_meta mcs 20) { mcs_index = a; bandwidth = b })))
          (bit_and_ones 7 mcs (omega arith)) (wide bw h))

  -- The walk of the injected header reads back the modulation and the bandwidth that it was given.
  pub own_radiotap-parsed :
      bw ≤ 1
      → mcs ≤ 15
      → radiotap_meta_from_packet (own_radiotap bw mcs ++ rest)
        ≡ done (some (own_meta mcs (20 + 20 * bw)))
  unfolding radiotap_meta_from_packet le_u16 index slice
  own_radiotap-parsed h k =
      let words : read_present_words size pkt 4 [] ≡ done (some (0x88000 ∷ [])) =
        own_words (length (drop 1 pkt)) in
      rw
        (
          ltb-false size 8 (omega arith),
          le→leb 4 size (omega arith),
          ltb-false size 13 (omega arith),
          words,
          own_args h k,
        )
        refl
