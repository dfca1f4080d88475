-- ===== src/Radiotap/Tests.antt =====
-- The unit tests of src/rx.rs, and the theorems on the radiotap walk at concrete inputs.
use meshinator.Prelude.{arith, ℕ, ◌≡◌, refl, List, [], ◌∷◌, some, true, replicate, IsBytes}
use meshinator.Prelude.Int.{i8_min, i8_max}
use meshinator.Run.{done, index, slice, write, Returns}
use meshinator.Radiotap.{
  radiotap_meta_from_packet, RadiotapMeta, le_u16, le_u32, read_present_words, read_args,
  walk_fields, visit_field, visit_present, visit_laid_out, meta_of, read_field, read_antenna,
  read_rssi, read_noise, read_mcs,
}
use meshinator.Radiotap.Reading.{reading}
use meshinator.Radiotap.Reading.Whole.{radiotap_meta-reading}
use meshinator.Radiotap.Reading.Ranges.{IsInRange, radiotap_meta-IsInRange}
use meshinator.Radiotap.Fuel.{read_present_words-fuel}
use meshinator.Radiotap.Walking.{Ends, OptionIs, Parsed}
use meshinator.Radiotap.Safe.{HasSlots, radiotap_meta-Returns}
use meshinator.Radiotap.Antenna.{AtMostOneAntenna, radiotap_meta-AtMostOneAntenna}
use meshinator.Radiotap.Layout.{has_flag, align_up, field_layout}

abbrev template : ℕ → ℕ → List ℕ
template flags idx = 0 ∷ 0 ∷ 0x0d ∷ 0 ∷ 0 ∷ 0x80 ∷ 0x08 ∷ 0 ∷ 0x08 ∷ 0 ∷ 0x37 ∷ flags ∷ idx ∷ []

abbrev injected : ℕ → ℕ → RadiotapMeta
injected mcs_index bandwidth = record {
  rt_flags = 0;
  self_injected = true;
  freq = 0;
  antenna = replicate 4 255;
  rssi = replicate 4 i8_min;
  noise = replicate 4 i8_max;
  ant_count = 0;
  mcs_index = mcs_index;
  bandwidth = bandwidth;
  radiotap_len = 13;
}

parses_mcs_and_self_injected_40 :
    radiotap_meta_from_packet (template 1 3) ≡ done (some (injected 3 40))
unfolding radiotap_meta_from_packet le_u16 le_u32 read_present_words read_args walk_fields
    visit_field visit_present visit_laid_out meta_of read_field read_antenna read_rssi read_noise
    read_mcs index slice write has_flag align_up field_layout
parses_mcs_and_self_injected_40 = refl

parses_mcs_and_self_injected_20 :
    radiotap_meta_from_packet (template 0 7) ≡ done (some (injected 7 20))
unfolding radiotap_meta_from_packet le_u16 le_u32 read_present_words read_args walk_fields
    visit_field visit_present visit_laid_out meta_of read_field read_antenna read_rssi read_noise
    read_mcs index slice write has_flag align_up field_layout
parses_mcs_and_self_injected_20 = refl

radiotap_meta-Returns_example :
    Returns
      (OptionIs (Parsed (template 1 3) (λ i. HasSlots)))
      (radiotap_meta_from_packet (template 1 3))
radiotap_meta-Returns_example = radiotap_meta-Returns (template 1 3)

-- Two antennas: a second present word, and a field of the signal and of the antenna under each.
abbrev two_antennas : List ℕ
two_antennas =
    0 ∷ 0 ∷ 16 ∷ 0 ∷ 0x20 ∷ 0x08 ∷ 0 ∷ 0x80 ∷ 0x20 ∷ 0x08 ∷ 0 ∷ 0 ∷ 200 ∷ 0 ∷ 210 ∷ 1 ∷ []

two_antennas-IsBytes : IsBytes two_antennas
two_antennas-IsBytes = ground arith

radiotap_meta-reading_example : radiotap_meta_from_packet two_antennas ≡ done (reading two_antennas)
radiotap_meta-reading_example =
    radiotap_meta-reading two_antennas two_antennas-IsBytes (omega arith)

radiotap_meta-AtMostOneAntenna_example :
    Returns (OptionIs AtMostOneAntenna) (radiotap_meta_from_packet two_antennas)
radiotap_meta-AtMostOneAntenna_example = radiotap_meta-AtMostOneAntenna two_antennas (omega arith)

radiotap_meta-IsInRange_example :
    Returns (OptionIs IsInRange) (radiotap_meta_from_packet two_antennas)
radiotap_meta-IsInRange_example =
    radiotap_meta-IsInRange two_antennas two_antennas-IsBytes (omega arith)

-- Two present words, and fuel for four.
read_present_words-fuel_example :
    Ends (read_present_words 4 two_antennas 4 [])
    × (read_present_words 4 two_antennas 4 [] ≡ read_present_words 16 two_antennas 4 [])
read_present_words-fuel_example = read_present_words-fuel 4 two_antennas (omega arith) (omega arith)
