-- ===== src/Radiotap/Reading/Gain/Arms.antt =====
-- The arms of the `match` on a field of `radiotap_meta_from_packet`, against what the header says.
use meshinator.Prelude.{
  ℕ, ◌+◌, ◌*◌, ◌%◌, ◌^◌, ◌≡◌, ◌≢◌, refl, sym, ap, ◌∙◌, bit_and, Bool, false, List, get_or, ◌==◌,
  Bool-cases, inl, inr, arith,
}
use meshinator.Prelude.Bits.{bit_and_low_two_bytes}
use meshinator.Run.{done, write}
use meshinator.Run.Laws.{index-done}
use meshinator.Radiotap.{le_u32, read_field, read_antenna, read_rssi, read_noise, read_mcs}
use meshinator.Radiotap.Layout.{has_flag}
use meshinator.Radiotap.Reading.{byte, walk_with}
use meshinator.Radiotap.Reading.Gain.{Gains, HasField}

module _ (pkt : List ℕ) (base : ℕ) where
  module _ (read read' : ℕ → Bool) (off : ℕ) (bytes : List ℕ) where
    pub read_rssi-done :
        Gains read read' 5
        → HasField pkt base 5 bytes
        → read_rssi bytes (walk_with pkt base read off) ≡ done (walk_with pkt base read' off)
    unfolding read_rssi write
    read_rssi-done g h =
        let o = g.others in
        rw
          (
            o 11 cc,
            o 6 cc,
            o 1 cc,
            o 15 cc,
            o 3 cc,
            o 19 cc,
            g.after,
            g.before,
            g.first_antenna (omega arith),
            index-done bytes 0 0 (omega (arith, h.size)),
            h.at 0 (omega arith),
          )
          refl

    pub read_noise-done :
        Gains read read' 6
        → HasField pkt base 6 bytes
        → read_noise bytes (walk_with pkt base read off) ≡ done (walk_with pkt base read' off)
    unfolding read_noise write
    read_noise-done g h =
        let o = g.others in
        rw
          (
            o 11 cc,
            o 5 cc,
            o 1 cc,
            o 15 cc,
            o 3 cc,
            o 19 cc,
            g.after,
            g.before,
            g.first_antenna (omega arith),
            index-done bytes 0 0 (omega (arith, h.size)),
            h.at 0 (omega arith),
          )
          refl

    pub read_antenna-done :
        Gains read read' 11
        → HasField pkt base 11 bytes
        → read_antenna bytes (walk_with pkt base read off) ≡ done (walk_with pkt base read' off)
    unfolding read_antenna write
    read_antenna-done g h =
        let o = g.others in
        rw
          (
            o 5 cc,
            o 6 cc,
            o 1 cc,
            o 15 cc,
            o 3 cc,
            o 19 cc,
            g.after,
            g.before,
            index-done bytes 0 0 (omega (arith, h.size)),
            h.at 0 (omega arith),
          )
          refl

    pub read_flags-done :
        Gains read read' 1
        → HasField pkt base 1 bytes
        → read_field 1 bytes (walk_with pkt base read off) ≡ done (walk_with pkt base read' off)
    unfolding read_field
    read_flags-done g h =
        let o = g.others in
        rw
          (
            o 11 cc,
            o 5 cc,
            o 6 cc,
            o 15 cc,
            o 3 cc,
            o 19 cc,
            g.after,
            index-done bytes 0 0 (omega (arith, h.size)),
            h.at 0 (omega arith),
          )
          refl

    pub read_tx_flags-done :
        Gains read read' 15
        → read_field 15 bytes (walk_with pkt base read off) ≡ done (walk_with pkt base read' off)
    unfolding read_field
    read_tx_flags-done g =
        let o = g.others in rw (o 11 cc, o 5 cc, o 6 cc, o 1 cc, o 3 cc, o 19 cc, g.after) refl

    pub read_channel-done :
        Gains read read' 3
        → HasField pkt base 3 bytes
        → read_field 3 bytes (walk_with pkt base read off) ≡ done (walk_with pkt base read' off)
    unfolding read_field le_u32
    read_channel-done g h =
        let o = g.others in
        let b : ℕ → ℕ = λ i. get_or bytes i 0 in
        let w : ℕ = b 0 + b 1 * 2 ^ 8 + b 2 * 2 ^ 16 + b 3 * 2 ^ 24 in
        let low : bit_and w 0xffff % 2 ^ 16 ≡ byte pkt base 3 0 + byte pkt base 3 1 * 256 = omega (
          arith,
          bit_and_low_two_bytes w,
          h.at 0 (omega arith),
          h.at 1 (omega arith),
          h.small 0,
          h.small 1,
        ) in
        rw
          (
            o 11 cc,
            o 5 cc,
            o 6 cc,
            o 1 cc,
            o 15 cc,
            o 19 cc,
            g.after,
            index-done bytes 0 0 (omega (arith, h.size)),
            index-done bytes 1 0 (omega (arith, h.size)),
            index-done bytes 2 0 (omega (arith, h.size)),
            index-done bytes 3 0 (omega (arith, h.size)),
            low,
          )
          refl

    pub read_mcs-done :
        Gains read read' 19
        → HasField pkt base 19 bytes
        → read_mcs bytes (walk_with pkt base read off) ≡ done (walk_with pkt base read' off)
    unfolding read_mcs
    read_mcs-done g h =
        let o = g.others in
        let first = index-done bytes 0 0 (omega (arith, h.size)) ∙ ap done (h.at 0 (omega arith)) in
        let second =
          index-done bytes 1 0 (omega (arith, h.size)) ∙ ap done (h.at 1 (omega arith)) in
        let third = index-done bytes 2 0 (omega (arith, h.size)) ∙ ap done (h.at 2 (omega arith)) in
        rw (o 11 cc, o 5 cc, o 6 cc, o 1 cc, o 15 cc, o 3 cc, g.after, g.before, first)
          (elim (Bool-cases (has_flag (byte pkt base 19 0) 2)) [
            | inl m ↦ elim (Bool-cases (has_flag (byte pkt base 19 0) 1)) [
              | inl b ↦ elim (Bool-cases (has_flag (byte pkt base 19 1) 1)) [
                | inl w ↦ rw (m, b, third, second, w) refl
                | inr w ↦ rw (m, b, third, second, w) refl
              ]
              | inr b ↦ rw (m, b, third) refl
            ]
            | inr m ↦ elim (Bool-cases (has_flag (byte pkt base 19 0) 1)) [
              | inl b ↦ elim (Bool-cases (has_flag (byte pkt base 19 1) 1)) [
                | inl w ↦ rw (m, b, second, w) refl
                | inr w ↦ rw (m, b, second, w) refl
              ]
              | inr b ↦ rw (m, b) refl
            ]
          ])

    -- A field that the walk takes no byte of.
    pub skipped-done :
        (n : ℕ)
        → n ≢ 11
        → n ≢ 5
        → n ≢ 6
        → n ≢ 3
        → n ≢ 1
        → n ≢ 15
        → n ≢ 19
        → Gains read read' n
        → read_field n bytes (walk_with pkt base read off) ≡ done (walk_with pkt base read' off)
    unfolding read_field
    skipped-done n a b c d e f k g =
        let o = g.others in
        let x : (n == 11) ≡ false = ground arith in
        let y : (n == 5) ≡ false = ground arith in
        let z : (n == 6) ≡ false = ground arith in
        let u : (n == 3) ≡ false = ground arith in
        let v : (n == 1) ≡ false = ground arith in
        let w : (n == 15) ≡ false = ground arith in
        let q : (n == 19) ≡ false = ground arith in
        rw
          (
            x,
            y,
            z,
            u,
            v,
            w,
            q,
            o 11 (λ h. a (sym h)),
            o 5 (λ h. b (sym h)),
            o 6 (λ h. c (sym h)),
            o 1 (λ h. e (sym h)),
            o 15 (λ h. f (sym h)),
            o 3 (λ h. d (sym h)),
            o 19 (λ h. k (sym h)),
          )
          refl
