-- ===== src/Radiotap/Reading/Rounds.antt =====
-- The rounds of the loop over the fields of `radiotap_meta_from_packet`, against what the header says.
use meshinator.Prelude.{
  ℕ, zero, suc, ◌+◌, ◌*◌, ◌/◌, ◌%◌, ◌^◌, ◌≤◌, ◌<◌, ◌≡◌, refl, sym, ap, ◌∙◌, true, false, List,
  Option, none, some, length, get_or, IsBytes, leb, leb-false, Bool-cases, inl, inr, if◌then◌else◌,
  arith,
}
use meshinator.Run.{done}
use meshinator.Run.Laws.{index-done}
use meshinator.Radiotap.{Walk, next, visit_laid_out, visit_present, visit_field, walk_fields}
use meshinator.Radiotap.Layout.{has_flag, field_layout}
use meshinator.Radiotap.Reading.{
  sizes, is_known, first_word, is_present, is_clear, reads, start, fit,
}
use meshinator.Radiotap.Reading.Table.{layout_unknown}
use meshinator.Radiotap.Reading.Fields.{
  read_before, walk_at, walk_at-skip, visit_known, fit-skip, fit-stays, unknown-reads, fit-read,
  clear-step, reads-all, absent-reads, unclear-stays,
}

module _ (pkt : List ℕ) (base : ℕ) where
  module _ (words : List ℕ) (bytes : IsBytes pkt) (small : length pkt < 2 ^ 29)
      (some_word : 0 < length words) (first : get_or words 0 0 ≡ first_word pkt base)
      (few : 4 * length words ≤ length pkt) where
    -- A round whose field is among the first 32.
    visit_first :
        (n : ℕ) (s : Walk)
        → n < 32
        → s.ant_idx ≤ 1
        → visit_field pkt words n s ≡ (
            if is_present pkt base n
            then visit_laid_out pkt n s (field_layout n)
            else done (next s))
    unfolding visit_field visit_present
    visit_first n s h one =
        let word : n / 32 ≡ 0 = omega arith in
        let bit : n % 32 ≡ n = omega arith in
        let same : n % 2 ^ 32 ≡ n = omega arith in
        rw
          (
            word,
            bit,
            same,
            index-done words 0 0 some_word,
            first,
            leb-false 4 s.ant_idx (omega (arith, one)),
          )
          (elim (Bool-cases (is_present pkt base n)) [ inl p ↦ rw p refl | inr p ↦ rw p refl ])

    -- No field behind the table is known: the loop ends there, or passes it.
    walk_tail :
        (rounds n : ℕ) (s : Walk)
        → 23 ≤ n
        → n + rounds ≡ length words * 32
        → walk_fields pkt words rounds n s ≡ done (some s)
    unfolding walk_fields visit_field visit_present visit_laid_out
    walk_tail zero n s h e = refl
    walk_tail (suc rounds) n s h e =
        let w : ℕ = get_or words (n / 32) 0 in
        let same : n % 2 ^ 32 ≡ n = omega (arith, few, small) in
        rw (index-done words (n / 32) 0 (omega arith), same)
          (elim (Bool-cases (has_flag w (2 ^ (n % 32)))) [
            | inl p ↦ elim (Bool-cases (leb 4 s.ant_idx)) [
              | inl full ↦ rw (p, full) refl
              | inr room ↦ rw (p, room, layout_unknown n (ground arith)) refl
            ]
            | inr p ↦ rw p (walk_tail rounds (n + 1) s (omega arith) (omega arith))
          ])

    abbrev pub outcome : Option Walk
    outcome = if fit pkt base 23 then some (walk_at pkt base 23) else none

    one_antenna : (n : ℕ) → (walk_at pkt base n).ant_idx ≤ 1
    one_antenna n = elim (Bool-cases (read_before pkt base n 11)) [
      | inl y ↦ rw y (omega arith)
      | inr y ↦ rw y (omega arith)
    ]

    -- The rounds from `n` on, up to which every field that is there was known and within the packet.
    pub walk_rounds :
        (d rounds n : ℕ)
        → n + d ≡ 23
        → n + rounds ≡ length words * 32
        → is_clear pkt base n ≡ true
        → fit pkt base n ≡ true
        → walk_fields pkt words rounds n (walk_at pkt base n) ≡ done outcome
    unfolding walk_fields visit_laid_out
    walk_rounds zero rounds n e r clear fits =
        let here : n ≡ 23 = omega arith in
        let all_fit : fit pkt base 23 ≡ true = rw here at fits in
        walk_tail rounds n (walk_at pkt base n) (omega arith) r
        ∙ rw all_fit (ap (λ m. done (some (walk_at pkt base m))) here)
    walk_rounds (suc d) zero n e r clear fits = absurd (omega arith)
    walk_rounds (suc d) (suc rounds) n e r clear fits =
        let up : n + 1 ≡ suc n = omega arith in
        rw (visit_first n (walk_at pkt base n) (omega arith) (one_antenna n))
          (elim (Bool-cases (is_present pkt base n)) [
            | inl here ↦ elim (Bool-cases (is_known n)) [
              | inl known ↦
                  let is_read : reads pkt base n ≡ true = reads-all pkt base n clear here known in
                  rw (here, visit_known pkt base n bytes is_read known)
                    (elim (Bool-cases (leb (start pkt base n + get_or sizes n 0) (length pkt))) [
                      | inl inside ↦
                          rw (inside, up)
                            (walk_rounds d rounds (suc n) (omega arith) (omega arith)
                              (clear-step pkt base n true true clear here known)
                              (fit-read pkt base n true fits is_read inside))
                      | inr outside ↦
                          rw
                            (
                              outside,
                              fit-stays pkt base d (suc n) (omega arith)
                                  (fit-read pkt base n false fits is_read outside),
                            )
                            refl
                    ])
              | inr unknown ↦
                  let quiet : reads pkt base n ≡ false = unknown-reads pkt base n unknown in
                  let later =
                    unclear-stays pkt base d (suc n) (omega arith)
                      (clear-step pkt base n true false clear here unknown) in
                  let same : walk_at pkt base 23 ≡ walk_at pkt base n =
                    later.0 ∙ walk_at-skip pkt base n quiet in
                  let all_fit : fit pkt base 23 ≡ true =
                    later.1 ∙ fit-skip pkt base n quiet ∙ fits in
                  rw (here, layout_unknown n unknown, all_fit) (ap (λ w. done (some w)) (sym same))
            ]
            | inr absent ↦
                let quiet : reads pkt base n ≡ false = absent-reads pkt base n absent in
                rw (absent, up)
                  (ap (λ w. walk_fields pkt words rounds (suc n) w)
                      (sym (walk_at-skip pkt base n quiet))
                    ∙ walk_rounds d rounds (suc n) (omega arith) (omega arith)
                        (clear-step pkt base n false (is_known n) clear absent refl)
                        (fit-skip pkt base n quiet ∙ fits))
          ])
