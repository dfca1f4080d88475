-- ===== src/Examples/ParseU32/Trim.antt =====
-- White space around a number is not looked at.
use meshinator.Prelude.{
  ◌≡◌, refl, ap, ◌∙◌, true, ℕ, List, [], ◌∷◌, ◌++◌, append-nil, Bool-cases, inl, inr,
}
use meshinator.Examples.ParseU32.{is_whitespace, trim_start, before_end, trim_end, trim}

abbrev pub IsBlank : List ℕ → Type 0
IsBlank [] = Unit {0}
IsBlank (c ∷ cs) = (is_whitespace c ≡ true) × IsBlank cs

trim_start-blank : (a t : List ℕ) → IsBlank a → trim_start (a ++ t) ≡ trim_start t
unfolding trim_start
trim_start-blank [] t h = refl
trim_start-blank (c ∷ a) t h = rw h.0 (trim_start-blank a t h.1)

trim_end-blank : (b : List ℕ) → IsBlank b → trim_end b ≡ []
unfolding trim_end
trim_end-blank [] h = refl
trim_end-blank (c ∷ b) h = rw (trim_end-blank b h.1, h.0) refl

trim_end-append : (t b : List ℕ) → IsBlank b → trim_end (t ++ b) ≡ trim_end t
unfolding trim_end
trim_end-append [] b h = trim_end-blank b h
trim_end-append (c ∷ t) b h = ap (before_end c) (trim_end-append t b h)

trim-append : (t b : List ℕ) → IsBlank b → trim (t ++ b) ≡ trim t
unfolding trim_start trim_end
trim-append [] b h = rw (← append-nil b, trim_start-blank b [] h) refl
trim-append (c ∷ t) b h = elim (Bool-cases (is_whitespace c)) [
  | inl blank ↦ rw blank (trim-append t b h)
  | inr other ↦ rw other (trim_end-append (c ∷ t) b h)
]

pub trim-around : (a t b : List ℕ) → IsBlank a → IsBlank b → trim (a ++ (t ++ b)) ≡ trim t
trim-around a t b ha hb = ap trim_end (trim_start-blank a (t ++ b) ha) ∙ trim-append t b hb
