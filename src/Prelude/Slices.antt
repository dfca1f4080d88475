-- ===== src/Prelude/Slices.antt =====
-- Where a write into a flat store shows: in the range that it covers, and in no range apart from it.
use Prim.Native.Nat.{ℕ, zero, suc, ◌+◌, ◌≤◌}
use mathlib.Core.Path.{◌≡◌, refl, ap}
use mathlib.Core.List.{List, [], ◌∷◌}
use native.Mathlib.Omega.{arith}
use meshinator.Prelude.Lists.{length, take, drop, overwrite}

module _ {ℓ} {A : Type ℓ} where
  take-nil : (n : ℕ) → take {A = A} n [] ≡ []
  take-nil zero = refl
  take-nil (suc n) = refl

  pub range-overwrite_self :
      (xs : List A) (off : ℕ) (src : List A)
      → off + length src ≤ length xs
      → take (length src) (drop off (overwrite xs off src)) ≡ src
  range-overwrite_self [] zero [] h = refl
  range-overwrite_self [] zero (s ∷ src) h = absurd (omega arith)
  range-overwrite_self [] (suc off) src h = absurd (omega arith)
  range-overwrite_self (x ∷ xs) zero [] h = refl
  range-overwrite_self (x ∷ xs) zero (s ∷ src) h =
      ap (λ l. s ∷ l) (range-overwrite_self xs zero src (omega arith))
  range-overwrite_self (x ∷ xs) (suc off) src h = range-overwrite_self xs off src (omega arith)

  -- The range stands before the write.
  pub range-overwrite_before :
      (xs : List A) (off : ℕ) (src : List A) (o n : ℕ)
      → o + n ≤ off
      → take n (drop o (overwrite xs off src)) ≡ take n (drop o xs)
  range-overwrite_before xs off src o zero h = refl
  range-overwrite_before [] off src o (suc n) h = refl
  range-overwrite_before (x ∷ xs) zero src o (suc n) h = absurd (omega arith)
  range-overwrite_before (x ∷ xs) (suc off) src zero (suc n) h =
      ap (λ l. x ∷ l) (range-overwrite_before xs off src zero n (omega arith))
  range-overwrite_before (x ∷ xs) (suc off) src (suc o) (suc n) h =
      range-overwrite_before xs off src o (suc n) (omega arith)

  -- The range stands behind the write.
  pub drop-overwrite :
      (xs : List A) (off : ℕ) (src : List A) (o : ℕ)
      → off + length src ≤ o
      → drop o (overwrite xs off src) ≡ drop o xs
  drop-overwrite [] off src o h = refl
  drop-overwrite (x ∷ xs) zero [] o h = refl
  drop-overwrite (x ∷ xs) zero (s ∷ src) zero h = absurd (omega arith)
  drop-overwrite (x ∷ xs) zero (s ∷ src) (suc o) h = drop-overwrite xs zero src o (omega arith)
  drop-overwrite (x ∷ xs) (suc off) src zero h = absurd (omega arith)
  drop-overwrite (x ∷ xs) (suc off) src (suc o) h = drop-overwrite xs off src o (omega arith)
