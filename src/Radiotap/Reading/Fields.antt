-- ===== src/Radiotap/Reading/Fields.antt =====
-- The fields of a radiotap header one after the other: what `radiotap_meta_from_packet` has read before each.
use native.Mathlib.Decide.{ℕ_discrete, dec_lt}
use meshinator.Prelude.{
  ℕ, zero, suc, ◌+◌, ◌-◌, ◌≤◌, ◌≡◌, refl, ap, ap₂, ◌∙◌, Bool, true, false, not, ◌&&◌, ◌||◌, List,
  length, get_or, take, drop, IsBytes, get_or-IsBytes, get_or-take, get_or-drop, length-take,
  length-drop, ltb, ltb-false, lt→ltb, leb, leb-false, le→leb, Bool-cases, inl, inr, if◌then◌else◌,
  arith,
}
use meshinator.Run.{done}
use meshinator.Run.Laws.{slice-done}
use meshinator.Radiotap.{Walk, meta_of, next, bail, start_walk, visit_laid_out}
use meshinator.Radiotap.Layout.{field_layout}
use meshinator.Radiotap.Reading.{
  sizes, is_known, is_present, is_clear, reads, behind, start, fit, walk_with, meta_by_fields,
}
use meshinator.Radiotap.Reading.Gain.{Gains, HasField}
use meshinator.Radiotap.Reading.Gain.Field.{read_field-done}
use meshinator.Radiotap.Reading.Table.{layout_known}

module _ (pkt : List ℕ) (base : ℕ) where
  -- The fields that were read before round `n`.
  pub read_before : ℕ → ℕ → Bool
  read_before n f = ltb f n && reads pkt base f

  abbrev pub walk_at : ℕ → Walk
  walk_at n = walk_with pkt base (read_before n) (behind pkt base n)

  read_before-skip :
      (n : ℕ) → reads pkt base n ≡ false → (f : ℕ) → read_before (suc n) f ≡ read_before n f
  unfolding read_before
  read_before-skip n h f = elim (ℕ_discrete f n) [
    | yes e ↦ rw (e, h, ltb-false n n (omega arith), lt→ltb n (suc n) (omega arith))
    | no other ↦ let same : ltb f (suc n) ≡ ltb f n = ground arith in rw same
  ]

  behind-skip : (n : ℕ) → reads pkt base n ≡ false → behind pkt base (suc n) ≡ behind pkt base n
  unfolding behind
  behind-skip n h = rw h

  behind-read :
      (n : ℕ)
      → reads pkt base n ≡ true
      → behind pkt base (suc n) ≡ start pkt base n + get_or sizes n 0
  unfolding behind
  behind-read n h = rw h

  pub walk_at-skip : (n : ℕ) → reads pkt base n ≡ false → walk_at (suc n) ≡ walk_at n
  walk_at-skip n h = ap₂ (walk_with pkt base) (λ i f. read_before-skip n h f i) (behind-skip n h)

  read_before-Gains :
      (n : ℕ) → reads pkt base n ≡ true → Gains (read_before n) (read_before (suc n)) n
  unfolding read_before
  read_before-Gains n h = record {
    before = rw (ltb-false n n (omega arith)) refl;
    after = rw (lt→ltb n (suc n) (omega arith), h) refl;
    others = λ f other. let same : ltb f (suc n) ≡ ltb f n = ground arith in rw same;
    first_antenna = λ below. rw (ltb-false 11 n below) refl;
  }

  slice-HasField :
      (n : ℕ)
      → IsBytes pkt
      → start pkt base n + get_or sizes n 0 ≤ length pkt
      → HasField pkt base n (
          take
            (start pkt base n + get_or sizes n 0 - start pkt base n)
            (drop (start pkt base n) pkt))
  slice-HasField n bytes fits =
      let s : ℕ = start pkt base n in
      let k : ℕ = get_or sizes n 0 in
      let width : s + k - s ≡ k = omega arith in
      rw width (record {
        size = omega (arith, length-take k (drop s pkt), length-drop s pkt, fits);
        at = λ i h. get_or-take k i (drop s pkt) 0 h ∙ get_or-drop s i pkt 0;
        small = λ i. get_or-IsBytes pkt (s + i) bytes;
      })

  -- A field that is there and known: its bytes are read, or the packet ends before them.
  pub visit_known :
      (n : ℕ)
      → IsBytes pkt
      → reads pkt base n ≡ true
      → is_known n ≡ true
      → visit_laid_out pkt n (walk_at n) (field_layout n)
        ≡ done (
            if leb (start pkt base n + get_or sizes n 0) (length pkt)
            then next (walk_at (suc n))
            else bail)
  unfolding visit_laid_out
  visit_known n bytes h known =
      let s : ℕ = start pkt base n in
      let k : ℕ = get_or sizes n 0 in
      rw (layout_known n known) (elim (dec_lt (length pkt) (s + k)) [
        | yes over ↦ rw (lt→ltb (length pkt) (s + k) over, leb-false (s + k) (length pkt) over) refl
        | no fits ↦
            let fits' : s + k ≤ length pkt = omega (arith, fits) in
            rw
              (
                ltb-false (length pkt) (s + k) fits',
                le→leb (s + k) (length pkt) fits',
                slice-done pkt s (s + k) (omega arith) fits',
                read_field-done pkt base n (read_before n) (read_before (suc n)) s
                    (take (s + k - s) (drop s pkt)) (read_before-Gains n h)
                    (slice-HasField n bytes fits'),
                behind-read n h,
              )
              refl
      ])

  pub fit-skip : (n : ℕ) → reads pkt base n ≡ false → fit pkt base (suc n) ≡ fit pkt base n
  unfolding fit
  fit-skip n h = elim (Bool-cases (fit pkt base n)) [ inl y ↦ rw (y, h) refl | inr y ↦ rw y refl ]

  pub fit-stays : (d n : ℕ) → n + d ≡ 23 → fit pkt base n ≡ false → fit pkt base 23 ≡ false
  unfolding fit
  fit-stays zero n e h = let here : n ≡ 23 = omega arith in rw here at h
  fit-stays (suc d) n e h = fit-stays d (suc n) (omega arith) (rw h refl)

  pub unknown-reads : (n : ℕ) → is_known n ≡ false → reads pkt base n ≡ false
  unfolding reads
  unknown-reads n h = rw h refl

  unclear-reads : (n : ℕ) → is_clear pkt base n ≡ false → reads pkt base n ≡ false
  unfolding reads
  unclear-reads n h = ground (arith, h)

  pub fit-read :
      (n : ℕ) (b : Bool)
      → fit pkt base n ≡ true
      → reads pkt base n ≡ true
      → leb (start pkt base n + get_or sizes n 0) (length pkt) ≡ b
      → fit pkt base (suc n) ≡ b
  unfolding fit
  fit-read n b fits here inside = rw (fits, here) inside

  pub clear-step :
      (n : ℕ) (p k : Bool)
      → is_clear pkt base n ≡ true
      → is_present pkt base n ≡ p
      → is_known n ≡ k
      → is_clear pkt base (suc n) ≡ (not p || k)
  unfolding is_clear
  clear-step n p k clear here known = rw (clear, here, known) refl

  pub reads-all :
      (n : ℕ)
      → is_clear pkt base n ≡ true
      → is_present pkt base n ≡ true
      → is_known n ≡ true
      → reads pkt base n ≡ true
  unfolding reads
  reads-all n clear here known = rw (known, here, clear) refl

  pub absent-reads : (n : ℕ) → is_present pkt base n ≡ false → reads pkt base n ≡ false
  unfolding reads
  absent-reads n h = rw h (none_known (is_known n) (is_clear pkt base n))
    where
      none_known : (b c : Bool) → (b && false) && c ≡ false
      none_known true c = refl
      none_known false c = refl

  -- Once a field is not known, nothing more is read.
  pub unclear-stays :
      (d n : ℕ)
      → n + d ≡ 23
      → is_clear pkt base n ≡ false
      → (walk_at 23 ≡ walk_at n) × (fit pkt base 23 ≡ fit pkt base n)
  unfolding is_clear
  unclear-stays zero n e h =
      let here : 23 ≡ n = omega arith in (ap walk_at here, ap (fit pkt base) here)
  unclear-stays (suc d) n e h =
      let quiet : reads pkt base n ≡ false = unclear-reads n h in
      let later = unclear-stays d (suc n) (omega arith) (rw h refl) in
      (later.0 ∙ walk_at-skip n quiet, later.1 ∙ fit-skip n quiet)

  pub start_walk-at : start_walk base ≡ walk_at 0
  unfolding read_before behind
  start_walk-at = refl

  pub meta_of-walk_at : (n : ℕ) → meta_of n (walk_at 23) ≡ meta_by_fields pkt base n
  unfolding meta_of read_before
  meta_of-walk_at n = elim (Bool-cases (reads pkt base 11)) [
    | inl y ↦ rw y refl
    | inr y ↦ rw y refl
  ]
