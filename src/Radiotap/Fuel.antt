-- ===== src/Radiotap/Fuel.antt =====
-- The fuel of the loop over the present words of `radiotap_meta_from_packet` of src/rx.rs, which the code
-- runs without one.
use native.Mathlib.Decide.{dec_lt}
use meshinator.Prelude.{
  ℕ, zero, suc, ◌+◌, ◌*◌, ◌≤◌, ◌<◌, ◌≡◌, refl, sym, ap, ◌∙◌, bit_and, Bool, List, [], ◌∷◌, ◌++◌,
  length, lt→ltb, ltb-false, if◌then◌else◌, arith,
}
use meshinator.Run.{slice}
use meshinator.Run.Laws.{bind-ext, Returns-weaken}
use meshinator.Radiotap.{le_u32, read_present_words}
use meshinator.Radiotap.Layout.{has_flag}
use meshinator.Radiotap.Walking.{Ends, read_present_words-bound}

if-ext :
    {A : Type 0} (b : Bool) (x x' y : A) → x ≡ x' → (if b then x else y) ≡ (if b then x' else y)
if-ext b x x' y e = ap (λ z. if b then z else y) e

read_present_words-more :
    (fuel extra : ℕ) (pkt : List ℕ) (p_off : ℕ) (words : List ℕ)
    → p_off ≤ length pkt
    → length pkt < p_off + 4 * fuel
    → read_present_words (fuel + extra) pkt p_off words ≡ read_present_words fuel pkt p_off words
unfolding read_present_words
read_present_words-more zero extra pkt p_off words h k = absurd (omega arith)
read_present_words-more (suc fuel) extra pkt p_off words h k =
    let more : suc fuel + extra ≡ suc (fuel + extra) = omega arith in
    elim (dec_lt (length pkt) (p_off + 4)) [
      | yes short ↦ rw (more, lt→ltb (length pkt) (p_off + 4) short) refl
      | no long ↦
          let fits : p_off + 4 ≤ length pkt = omega (arith, long) in
          rw (more, ltb-false (length pkt) (p_off + 4) fits)
            (bind-ext (slice pkt p_off (p_off + 4)) _ _ (λ four. bind-ext (le_u32 four) _ _ (λ w.
              if-ext (has_flag w 0x8000_0000) _ _ _ (
                read_present_words-more fuel extra pkt (p_off + 4)
                  (words ++ (bit_and w 0x7fff_ffff ∷ [])) fits (omega arith)))))
    ]

-- A packet of four bytes or more: with a fuel of more than a quarter of what is behind them, the loop
-- over the present words ends in a value, and in the same one as with any other such fuel; the length of
-- the packet, which the model gives it, is such a fuel. So the loop of the code ends.
pub read_present_words-fuel :
    (fuel : ℕ) (pkt : List ℕ)
    → 4 ≤ length pkt
    → length pkt < 4 + 4 * fuel
    → Ends (read_present_words fuel pkt 4 [])
      × (read_present_words fuel pkt 4 [] ≡ read_present_words (length pkt) pkt 4 [])
read_present_words-fuel fuel pkt h k =
    let n : ℕ = length pkt in
    let swapped : fuel + n ≡ n + fuel = omega arith in
    (
      Returns-weaken _ (λ _. Unit {0}) _ (read_present_words-bound fuel pkt 4 [] h k (omega arith))
          (λ _ _. tt),
      sym (read_present_words-more fuel n pkt 4 [] h k)
          ∙ ap (λ f. read_present_words f pkt 4 []) swapped
          ∙ read_present_words-more n fuel pkt 4 [] h (omega arith),
    )
