-- ===== src/Run.antt =====
-- What a Rust function that may panic returns, and the operations on slices that panic: an index,
-- a range, a write and `copy_from_slice` out of bounds.
pub mod Laws
use meshinator.Prelude.{
  ℕ, ◌+◌, ◌-◌, ◌%◌, Bool, true, ◌&&◌, List, length, get_elem?, set, take, drop, overwrite, Option,
  none, some, ltb, leb, ◌==◌, if◌then◌else◌,
}

-- `out_of_fuel` is a loop that was given too few rounds; it stands for no behaviour of the code.
pub data Run {ℓ} (A : Type ℓ) : Type ℓ where
  done : A → Run A
  panic : Run A
  out_of_fuel : Run A

infixl 5 ◌>>=◌
abbrev pub ◌>>=◌ {ℓ κ} : {A : Type ℓ} {B : Type κ} → Run A → (A → Run B) → Run B
done a >>= f = f a
panic >>= f = panic
out_of_fuel >>= f = out_of_fuel

-- The run ends in a value, and the value is as `P` says.
abbrev pub Returns {ℓ} : {A : Type ℓ} → (A → Type 0) → Run A → Type 0
Returns P (done a) = P a
Returns P panic = ⊥
Returns P out_of_fuel = ⊥

abbrev pub of_option {ℓ} : {A : Type ℓ} → Option A → Run A
of_option none = panic
of_option (some a) = done a

-- `a % b` and `a - b` of `usize`, with their checks.
unfoldable pub rem : ℕ → ℕ → Run ℕ
rem a b = if b == 0 then panic else done (a % b)

unfoldable pub checked_sub : ℕ → ℕ → Run ℕ
checked_sub a b = if leb b a then done (a - b) else panic

module _ {ℓ} {A : Type ℓ} where
  -- `xs[i]`
  unfoldable pub index : List A → ℕ → Run A
  index xs i = of_option (get_elem? xs i)

  -- `&xs[a..b]`
  unfoldable pub slice : List A → ℕ → ℕ → Run (List A)
  slice xs a b = if leb a b && leb b (length xs) then done (take (b - a) (drop a xs)) else panic

  -- `xs[i] = v`
  unfoldable pub write : List A → ℕ → A → Run (List A)
  write xs i v = if ltb i (length xs) then done (set xs i v) else panic

  -- `xs[a..b].copy_from_slice(src)`
  unfoldable pub copy_range : List A → ℕ → ℕ → List A → Run (List A)
  copy_range xs a b src =
      if leb a b && leb b (length xs) && (length src == (b - a))
      then done (overwrite xs a src)
      else panic
