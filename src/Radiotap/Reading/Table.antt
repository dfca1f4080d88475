-- ===== src/Radiotap/Reading/Table.antt =====
-- The table of src/rx.rs's `field_layout` against the lists of alignments and sizes.
use native.Mathlib.Decide.{ℕ_discrete}
use meshinator.Prelude.{ℕ, zero, suc, ◌<◌, ◌≡◌, refl, true, false, none, some, get_or, arith}
use meshinator.Radiotap.Layout.{field_layout}
use meshinator.Radiotap.Reading.{alignments, sizes, is_known}

-- A property of every number below a bound, one by one.
abbrev AllBelow : (ℕ → Type 0) → ℕ → Type 0
AllBelow P zero = Unit {0}
AllBelow P (suc n) = P n × AllBelow P n

all_below : (P : ℕ → Type 0) (n f : ℕ) → AllBelow P n → f < n → P f
all_below P zero f all h = absurd (omega arith)
all_below P (suc n) f all h = elim (ℕ_discrete f n) [
  | yes e ↦ rw e all.0
  | no other ↦ all_below P n f all.1 (omega (arith, other))
]

abbrev pub HasLayout : ℕ → Type 0
HasLayout f = is_known f ≡ true → field_layout f ≡ some (get_or alignments f 0, get_or sizes f 0)

layouts : AllBelow HasLayout 23
unfolding field_layout
layouts = (
  λ _. refl,
  (
    λ _. refl,
    (
      λ _. refl,
      (
        λ _. refl,
        (
          λ h. cc,
          (
            λ _. refl,
            (
              λ _. refl,
              (
                λ _. refl,
                (
                  λ _. refl,
                  (
                    λ _. refl,
                    (
                      λ _. refl,
                      (
                        λ _. refl,
                        (
                          λ _. refl,
                          (
                            λ _. refl,
                            (
                              λ _. refl,
                              (
                                λ _. refl,
                                (
                                  λ _. refl,
                                  (
                                    λ _. refl,
                                    (
                                      λ _. refl,
                                      (λ _. refl, (λ _. refl, (λ _. refl, (λ _. refl, tt)))),
                                    ),
                                  ),
                                ),
                              ),
                            ),
                          ),
                        ),
                      ),
                    ),
                  ),
                ),
              ),
            ),
          ),
        ),
      ),
    ),
  ),
)

pub layout_known : (f : ℕ) → HasLayout f
layout_known f h = all_below HasLayout 23 f layouts (ground arith) h

pub layout_unknown : (f : ℕ) → is_known f ≡ false → field_layout f ≡ none
unfolding field_layout
layout_unknown f h = ground arith
