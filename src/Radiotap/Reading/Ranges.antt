-- ===== src/Radiotap/Reading/Ranges.antt =====
-- The ranges of what `radiotap_meta_from_packet` of src/rx.rs reads.
use meshinator.Prelude.{
  ℕ, ◌+◌, ◌^◌, ◌<◌, ◌≤◌, ◌≡◌, ◌⊎◌, inl, inr, refl, Bool, true, false, ◌&&◌, List, [], ◌∷◌, Option,
  none, some, length, ltb, get_or, get_or-IsBytes, IsBytes, leb, ◌==◌, Bool-cases, if◌then◌else◌,
  drop, arith,
}
use meshinator.Prelude.Bits.{bit_and_low_seven}
use meshinator.Prelude.Int.{ℤ, pos, negsuc, as_i8}
use meshinator.Run.{Returns}
use meshinator.Radiotap.{RadiotapMeta, radiotap_meta_from_packet}
use meshinator.Radiotap.Layout.{has_flag}
use meshinator.Radiotap.Walking.{OptionIs}
use meshinator.Radiotap.Reading.{
  reading, reading_from, meta_by_fields, reads, fit, byte, start, length_field, header_end,
}
use meshinator.Radiotap.Reading.Whole.{radiotap_meta-reading}

abbrev pub IsI8 : ℤ → Type 0
IsI8 (pos n) = n < 128
IsI8 (negsuc n) = n < 128

abbrev pub AreI8 : List ℤ → Type 0
AreI8 [] = Unit {0}
AreI8 (i ∷ is) = IsI8 i × AreI8 is

-- Four slots of each kind, and at most as many antennas; every value in the range of its integer type,
-- an MCS index of seven bits, and one of the two bandwidths.
pub record IsInRange (m : RadiotapMeta) : Type 0 where
  pub rt_flags : m.rt_flags < 256
  pub freq : m.freq < 2 ^ 16
  pub antenna : IsBytes m.antenna × (length m.antenna ≡ 4)
  pub rssi : AreI8 m.rssi × (length m.rssi ≡ 4)
  pub noise : AreI8 m.noise × (length m.noise ≡ 4)
  pub ant_count : m.ant_count ≤ 4
  pub mcs_index : m.mcs_index < 128
  pub bandwidth : (m.bandwidth ≡ 20) ⊎ (m.bandwidth ≡ 40)
  pub radiotap_len : m.radiotap_len < 2 ^ 16

either {ℓ} : {A : Type ℓ} (P : A → Type 0) (c : Bool) (x y : A) → P x → P y → P (if c then x else y)
either P true x y p q = p
either P false x y p q = q

as_i8-IsI8 : (b : ℕ) → b < 256 → IsI8 (as_i8 b)
as_i8-IsI8 b h = elim (Bool-cases (ltb b 128)) [
  | inl low ↦ rw low (ground arith)
  | inr high ↦ rw high (ground arith)
]

module _ (pkt : List ℕ) (bytes : IsBytes pkt) where
  byte_small : (i : ℕ) → get_or pkt i 0 < 256
  byte_small i = get_or-IsBytes pkt i bytes

  meta_by_fields-IsInRange : (base n : ℕ) → n < 2 ^ 16 → IsInRange (meta_by_fields pkt base n)
  meta_by_fields-IsInRange base n h = record {
    rt_flags = either (λ v. v < 256) (reads pkt base 1) _ 0 (byte_small _) (omega arith);
    freq =
        either (λ v. v < 2 ^ 16) (reads pkt base 3) _ 0
          (omega (arith, byte_small (start pkt base 3 + 0), byte_small (start pkt base 3 + 1)))
          (omega arith);
    antenna =
        either (λ l. IsBytes l × (length l ≡ 4)) (reads pkt base 11) _ _
          ((byte_small _, (omega arith, (omega arith, (omega arith, tt)))), refl)
          ((omega arith, (omega arith, (omega arith, (omega arith, tt)))), refl);
    rssi =
        either (λ l. AreI8 l × (length l ≡ 4)) (reads pkt base 5) _ _
          ((as_i8-IsI8 _ (byte_small _), (omega arith, (omega arith, (omega arith, tt)))), refl)
          ((omega arith, (omega arith, (omega arith, (omega arith, tt)))), refl);
    noise =
        either (λ l. AreI8 l × (length l ≡ 4)) (reads pkt base 6) _ _
          ((as_i8-IsI8 _ (byte_small _), (omega arith, (omega arith, (omega arith, tt)))), refl)
          ((omega arith, (omega arith, (omega arith, (omega arith, tt)))), refl);
    ant_count = either (λ v. v ≤ 4) (reads pkt base 11) 1 0 (omega arith) (omega arith);
    mcs_index =
        either (λ v. v < 128) (reads pkt base 19 && has_flag (byte pkt base 19 0) 2) _ 0
          (omega (arith, bit_and_low_seven (byte pkt base 19 2))) (omega arith);
    bandwidth =
        either (λ v. (v ≡ 20) ⊎ (v ≡ 40))
          (reads pkt base 19 && has_flag (byte pkt base 19 0) 1 && has_flag (byte pkt base 19 1) 1)
          40 20 (inr refl) (inl refl);
    radiotap_len = h;
  }

  reading_from-IsInRange : (o : Option ℕ) → OptionIs IsInRange (reading_from pkt o)
  reading_from-IsInRange none = tt
  reading_from-IsInRange (some base) =
      either (OptionIs IsInRange) (fit pkt base 23) _ none
        (meta_by_fields-IsInRange base (length_field pkt)
          (omega (arith, byte_small 2, byte_small 3)))
        tt

  -- The walk over a packet of bytes, shorter than 512 MiB, returns, and the meta that it returns, if any,
  -- has every value in its range: four slots for each kind of reading, the flags and the antennas bytes,
  -- the strengths and the noise in 8 signed bits, the frequency and the header's length in 16, at most
  -- four antennas, an MCS index of seven bits, and a bandwidth of 20 or 40.
  pub radiotap_meta-IsInRange :
      length pkt < 2 ^ 29 → Returns (OptionIs IsInRange) (radiotap_meta_from_packet pkt)
  unfolding reading
  radiotap_meta-IsInRange small = rw (radiotap_meta-reading pkt bytes small) (
      either (OptionIs IsInRange)
        (leb 8 (length pkt) && (get_or pkt 0 0 == 0) && leb (length_field pkt) (length pkt)) _ none
        (reading_from-IsInRange (header_end 4 (drop 4 pkt))) tt)
