-- ===== src/Radiotap/Reading/Whole.antt =====
-- `radiotap_meta_from_packet` is the reading of the header.
use native.Mathlib.Decide.{dec_lt}
use meshinator.Prelude.{
  ℕ, suc, ◌+◌, ◌-◌, ◌*◌, ◌^◌, ◌≤◌, ◌<◌, ◌≡◌, refl, ap, ◌∙◌, List, [], ◌∷◌, none, some, length,
  length-take, length-drop, get_or, get_or-take, get_or-drop, take, drop, IsBytes, ltb-false,
  lt→ltb, leb-false, le→leb, ◌==◌, Bool-cases, inl, inr, if◌then◌else◌, arith,
}
use meshinator.Run.{done}
use meshinator.Run.Laws.{index-done, slice-done}
use meshinator.Radiotap.{start_walk, le_u16, read_args, walk_fields, radiotap_meta_from_packet}
use meshinator.Radiotap.Reading.{is_clear, fit, meta_by_fields, length_field, reading}
use meshinator.Radiotap.Reading.Start.{word, read_present_words-SameEnd}
use meshinator.Radiotap.Reading.Fields.{walk_at, start_walk-at, meta_of-walk_at}
use meshinator.Radiotap.Reading.Rounds.{walk_rounds}

module _ (pkt : List ℕ) (bytes : IsBytes pkt) (small : length pkt < 2 ^ 29) where
  read_args-reading :
      (n : ℕ) (ws : List ℕ)
      → 4 + 4 * suc (length ws) ≤ length pkt
      → read_args pkt n (word pkt bytes 4 ∷ ws)
        ≡ done (
            if fit pkt (4 + 4 * suc (length ws)) 23
            then some (meta_by_fields pkt (4 + 4 * suc (length ws)) n)
            else none)
  unfolding read_args is_clear fit
  read_args-reading n ws few =
      let words : List ℕ = word pkt bytes 4 ∷ ws in
      let base : ℕ = 4 + 4 * suc (length ws) in
      let offset : 8 + 4 * (suc (length ws) - 1) ≡ base = omega arith in
      let walked : walk_fields pkt words (suc (length ws) * 32) 0 (start_walk base)
          ≡ done (if fit pkt base 23 then some (walk_at pkt base 23) else none) =
        rw (start_walk-at pkt base) (
          walk_rounds pkt base words bytes small (omega arith) refl (omega arith) 23
            (suc (length ws) * 32) 0 (omega arith) (omega arith) refl refl) in
      rw (offset, ltb-false (length pkt) base few, walked)
        (elim (Bool-cases (fit pkt base 23)) [
          | inl y ↦ rw y (ap (λ m. done (some m)) (meta_of-walk_at pkt base n))
          | inr y ↦ rw y refl
        ])

  le_u16-slice : 8 ≤ length pkt → le_u16 (take 2 (drop 2 pkt)) ≡ done (length_field pkt)
  unfolding le_u16
  le_u16-slice h =
      let enough : length (take 2 (drop 2 pkt)) ≡ 2 =
        omega (arith, length-take 2 (drop 2 pkt), length-drop 2 pkt) in
      let at : (i : ℕ) → i < 2 → get_or (take 2 (drop 2 pkt)) i 0 ≡ get_or pkt (2 + i) 0 =
        λ i lt. get_or-take 2 i (drop 2 pkt) 0 lt ∙ get_or-drop 2 i pkt 0 in
      rw
        (
          index-done (take 2 (drop 2 pkt)) 0 0 (omega (arith, enough)),
          index-done (take 2 (drop 2 pkt)) 1 0 (omega (arith, enough)),
          at 0 (omega arith),
          at 1 (omega arith),
        )
        refl

  -- The walk over a radiotap header returns exactly what the header says by itself, for every packet of
  -- less than 512 MiB: none unless the version is 0, the length field is within the packet, the present
  -- words end within it and the fields that can be read do; else each value of the meta from the bytes
  -- at its field's own place, which is found from the present bits, alignments and sizes alone.
  pub radiotap_meta-reading : radiotap_meta_from_packet pkt ≡ done (reading pkt)
  unfolding radiotap_meta_from_packet reading
  radiotap_meta-reading = elim (dec_lt (length pkt) 8) [
    | yes short ↦ rw (lt→ltb (length pkt) 8 short, leb-false 8 (length pkt) short) refl
    | no long ↦
        let h : 8 ≤ length pkt = omega (arith, long) in
        rw (ltb-false (length pkt) 8 h, le→leb 8 (length pkt) h, index-done pkt 0 0 (omega arith))
          (elim (Bool-cases (get_or pkt 0 0 == 0)) [
            | inr other ↦ rw other refl
            | inl version ↦
                rw (version, slice-done pkt 2 4 (omega arith) (omega arith), le_u16-slice h)
                  (elim (dec_lt (length pkt) (length_field pkt)) [
                    | yes cut ↦
                        rw
                          (
                            lt→ltb (length pkt) (length_field pkt) cut,
                            leb-false (length_field pkt) (length pkt) cut,
                          )
                          refl
                    | no whole ↦
                        let fits : length_field pkt ≤ length pkt = omega (arith, whole) in
                        rw
                          (
                            ltb-false (length pkt) (length_field pkt) fits,
                            le→leb (length_field pkt) (length pkt) fits,
                          )
                          (elim (read_present_words-SameEnd pkt bytes (length pkt) 4 []
                            (omega arith) (omega arith)) [
                              | inl (e, r) ↦ rw (e, r) refl
                              | inr (ws, e, r, few) ↦
                                  rw (e, r) (read_args-reading (length_field pkt) ws few)
                            ])
                  ])
          ])
  ]
