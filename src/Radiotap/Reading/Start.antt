-- ===== src/Radiotap/Reading/Start.antt =====
-- The loop over the present words of `radiotap_meta_from_packet`, against where the header says that
-- they end.
use native.Mathlib.Decide.{dec_lt}
use meshinator.Prelude.{
  ℕ, zero, suc, ◌+◌, ◌-◌, ◌*◌, ◌^◌, ◌≤◌, ◌<◌, ◌≡◌, refl, sym, ap, ◌∙◌, ◌⊎◌, bit_and, List, [], ◌∷◌,
  ◌++◌, none, some, length, length-take, length-drop, get_or, get_or-take, get_or-drop,
  get_or-IsBytes, take, drop, drop-drop, append_assoc, IsBytes, ltb-false, lt→ltb, leb, leb-false,
  le→leb, Bool-cases, inl, inr, if◌then◌else◌, arith,
}
use meshinator.Prelude.Bits.{bit_and_top_off, bit_and_top_on}
use meshinator.Run.{done}
use meshinator.Run.Laws.{index-done, slice-done}
use meshinator.Radiotap.{le_u32, read_present_words}
use meshinator.Radiotap.Layout.{has_flag}
use meshinator.Radiotap.Reading.{header_end}

abbrev pub word_at : List ℕ → ℕ → ℕ
word_at pkt p =
    get_or pkt p 0
    + get_or pkt (p + 1) 0 * 2 ^ 8
    + get_or pkt (p + 2) 0 * 2 ^ 16
    + get_or pkt (p + 3) 0 * 2 ^ 24

header_end-short : (p : ℕ) (l : List ℕ) → length l < 4 → header_end p l ≡ none
unfolding header_end
header_end-short p [] h = refl
header_end-short p (a ∷ []) h = refl
header_end-short p (a ∷ b ∷ []) h = refl
header_end-short p (a ∷ b ∷ c ∷ []) h = refl
header_end-short p (a ∷ b ∷ c ∷ d ∷ rest) h = absurd (omega arith)

header_end-long :
    (p : ℕ) (l : List ℕ)
    → 4 ≤ length l
    → header_end p l
      ≡ (if leb 128 (get_or l 3 0) then header_end (p + 4) (drop 4 l) else some (p + 4))
unfolding header_end
header_end-long p [] h = absurd (omega arith)
header_end-long p (a ∷ []) h = absurd (omega arith)
header_end-long p (a ∷ b ∷ []) h = absurd (omega arith)
header_end-long p (a ∷ b ∷ c ∷ []) h = absurd (omega arith)
header_end-long p (a ∷ b ∷ c ∷ d ∷ rest) h = refl

module _ (pkt : List ℕ) (bytes : IsBytes pkt) where
  le_u32-slice :
      (p : ℕ) → p + 4 ≤ length pkt → le_u32 (take (p + 4 - p) (drop p pkt)) ≡ done (word_at pkt p)
  unfolding le_u32
  le_u32-slice p h =
      let width : p + 4 - p ≡ 4 = omega arith in
      let enough : length (take 4 (drop p pkt)) ≡ 4 =
        omega (arith, length-take 4 (drop p pkt), length-drop p pkt) in
      let at : (i : ℕ) → i < 4 → get_or (take 4 (drop p pkt)) i 0 ≡ get_or pkt (p + i) 0 =
        λ i lt. get_or-take 4 i (drop p pkt) 0 lt ∙ get_or-drop p i pkt 0 in
      let start : p + 0 ≡ p = omega arith in
      rw
        (
          width,
          index-done (take 4 (drop p pkt)) 0 0 (omega (arith, enough)),
          index-done (take 4 (drop p pkt)) 1 0 (omega (arith, enough)),
          index-done (take 4 (drop p pkt)) 2 0 (omega (arith, enough)),
          index-done (take 4 (drop p pkt)) 3 0 (omega (arith, enough)),
          at 0 (omega arith),
          at 1 (omega arith),
          at 2 (omega arith),
          at 3 (omega arith),
          start,
        )
        refl

  -- The top bit of a word is the top bit of its last byte.
  top_bit : (p : ℕ) → has_flag (word_at pkt p) 0x8000_0000 ≡ leb 128 (get_or pkt (p + 3) 0)
  unfolding has_flag
  top_bit p =
      let a = get_or-IsBytes pkt p bytes in
      let b = get_or-IsBytes pkt (p + 1) bytes in
      let c = get_or-IsBytes pkt (p + 2) bytes in
      let d = get_or-IsBytes pkt (p + 3) bytes in
      elim (dec_lt (get_or pkt (p + 3) 0) 128) [
        | yes low ↦
            rw
              (
                bit_and_top_off (word_at pkt p) (omega arith),
                leb-false 128 (get_or pkt (p + 3) 0) low,
              )
              refl
        | no high ↦
            let high' : 128 ≤ get_or pkt (p + 3) 0 = omega (arith, high) in
            rw
              (
                bit_and_top_on (word_at pkt p) (omega arith) (omega arith),
                le→leb 128 (get_or pkt (p + 3) 0) high',
              )
              refl
      ]

  abbrev pub word : ℕ → ℕ
  word p = bit_and (word_at pkt p) 0x7fff_ffff

  -- Both find that the words do not end, or that they end behind the same word.
  abbrev pub SameEnd : ℕ → ℕ → List ℕ → Type 0
  SameEnd fuel p words =
      ((header_end p (drop p pkt) ≡ none) × (read_present_words fuel pkt p words ≡ done none))
      ⊎ ((ws : List ℕ) × (header_end p (drop p pkt) ≡ some (p + 4 * suc (length ws)))
          × (read_present_words fuel pkt p words ≡ done (some (words ++ (word p ∷ ws))))
          × (p + 4 * suc (length ws) ≤ length pkt))

  pub read_present_words-SameEnd :
      (fuel p : ℕ) (words : List ℕ)
      → p ≤ length pkt
      → length pkt < p + 4 * fuel
      → SameEnd fuel p words
  unfolding read_present_words
  read_present_words-SameEnd zero p words h k = absurd (omega arith)
  read_present_words-SameEnd (suc fuel) p words h k = elim (dec_lt (length pkt) (p + 4)) [
    | yes short ↦ inl (
      header_end-short p (drop p pkt) (omega (arith, length-drop p pkt)),
      rw (lt→ltb (length pkt) (p + 4) short) refl,
    )
    | no long ↦
        let fits : p + 4 ≤ length pkt = omega (arith, long) in
        let ends : header_end p (drop p pkt) ≡ (
            if leb 128 (get_or pkt (p + 3) 0)
            then header_end (p + 4) (drop (p + 4) pkt)
            else some (p + 4)) =
          rw (sym (get_or-drop p 3 pkt 0), drop-drop p 4 pkt)
            (header_end-long p (drop p pkt) (omega (arith, length-drop p pkt))) in
        let reads : read_present_words (suc fuel) pkt p words ≡ (
            if leb 128 (get_or pkt (p + 3) 0)
            then read_present_words fuel pkt (p + 4) (words ++ (word p ∷ []))
            else done (some (words ++ (word p ∷ [])))) =
          rw
            (
              ltb-false (length pkt) (p + 4) fits,
              slice-done pkt p (p + 4) (omega arith) fits,
              le_u32-slice p fits,
              top_bit p,
            )
            refl in
        elim (Bool-cases (leb 128 (get_or pkt (p + 3) 0))) [
          | inl more ↦
              elim (read_present_words-SameEnd fuel (p + 4) (words ++ (word p ∷ [])) fits
                (omega arith)) [
                  | inl (e, r) ↦ inl (ends ∙ rw more e, reads ∙ rw more r)
                  | inr (ws, e, r, b) ↦
                      let place : p + 4 + 4 * suc (length ws) ≡ p + 4 * suc (suc (length ws)) =
                        omega arith in
                      inr (
                        word (p + 4) ∷ ws,
                        ends ∙ rw more e ∙ ap some place,
                        reads
                            ∙ rw more r
                            ∙ ap (λ l. done (some l))
                                (append_assoc words (word p ∷ []) (word (p + 4) ∷ ws)),
                        omega arith,
                      )
                ]
          | inr last ↦
              inr ([], ends ∙ rw last (ap some (omega arith)), reads ∙ rw last refl, omega arith)
        ]
  ]
