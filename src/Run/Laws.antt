-- ===== src/Run/Laws.antt =====
-- When the operations on slices return, and what; and how `Returns` goes through a sequence.
use meshinator.Prelude.{
  ℕ, ◌+◌, ◌-◌, ◌≤◌, ◌<◌, ◌≡◌, refl, List, length, get_or, get_elem?-eq-get_or, set, take, drop,
  overwrite, ◌==◌, le→leb, lt→ltb, true, arith, length-take, length-drop, Bool, false,
  if◌then◌else◌, ◌%◌,
}
use meshinator.Run.{
  Run, done, panic, out_of_fuel, ◌>>=◌, Returns, rem, checked_sub, index, slice, write, copy_range,
}

pub Returns-bind {ℓ κ} :
    {A : Type ℓ} {B : Type κ} (P : A → Type 0) (Q : B → Type 0) (m : Run A) (f : A → Run B)
    → Returns P m
    → ((a : A) → P a → Returns Q (f a))
    → Returns Q (m >>= f)
Returns-bind P Q (done a) f h k = k a h
Returns-bind P Q panic f h k = absurd h
Returns-bind P Q out_of_fuel f h k = absurd h

-- Code that goes on in the same way is the same.
pub bind-ext :
    {A B : Type 0} (m : Run A) (f g : A → Run B) → ((a : A) → f a ≡ g a) → (m >>= f) ≡ (m >>= g)
bind-ext (done a) f g h = h a
bind-ext panic f g h = refl
bind-ext out_of_fuel f g h = refl

pub Returns-done {ℓ} :
    {A : Type ℓ} (P : A → Type 0) (m : Run A) → Returns P m → (a : A) × (m ≡ done a) × P a
Returns-done P (done a) h = (a, refl, h)
Returns-done P panic h = absurd h
Returns-done P out_of_fuel h = absurd h

pub Returns-weaken {ℓ} :
    {A : Type ℓ} (P Q : A → Type 0) (m : Run A) → Returns P m → ((a : A) → P a → Q a) → Returns Q m
Returns-weaken P Q (done a) h k = k a h
Returns-weaken P Q panic h k = absurd h
Returns-weaken P Q out_of_fuel h k = absurd h

-- Either branch of a test, with what the test says.
pub Returns-if {ℓ} :
    {A : Type ℓ} (P : A → Type 0) (b : Bool) (x y : Run A)
    → (b ≡ true → Returns P x)
    → (b ≡ false → Returns P y)
    → Returns P (if b then x else y)
Returns-if P true x y h k = h refl
Returns-if P false x y h k = k refl

module _ {A : Type 0} where
  pub index-done : (xs : List A) (i : ℕ) (d : A) → i < length xs → index xs i ≡ done (get_or xs i d)
  unfolding index
  index-done xs i d h = rw (get_elem?-eq-get_or xs i d h)

  pub slice-done :
      (xs : List A) (a b : ℕ)
      → a ≤ b
      → b ≤ length xs
      → slice xs a b ≡ done (take (b - a) (drop a xs))
  unfolding slice
  slice-done xs a b h k = rw (le→leb a b h, le→leb b (length xs) k)

  pub slice-Returns :
      (xs : List A) (a b : ℕ)
      → a ≤ b
      → b ≤ length xs
      → Returns (λ ys. length ys ≡ b - a) (slice xs a b)
  slice-Returns xs a b h k =
      rw (slice-done xs a b h k) (omega (arith, length-take (b - a) (drop a xs), length-drop a xs))

  pub write-done : (xs : List A) (i : ℕ) (v : A) → i < length xs → write xs i v ≡ done (set xs i v)
  unfolding write
  write-done xs i v h = rw (lt→ltb i (length xs) h)

  pub copy_range-done :
      (xs : List A) (a b : ℕ) (src : List A)
      → a + length src ≡ b
      → b ≤ length xs
      → copy_range xs a b src ≡ done (overwrite xs a src)
  unfolding copy_range
  copy_range-done xs a b src h k =
      let below : a ≤ b = omega arith in
      let fits : (length src == (b - a)) ≡ true = ground arith in
      rw (le→leb a b below, le→leb b (length xs) k, fits)

pub rem-done : (a b : ℕ) → 0 < b → rem a b ≡ done (a % b)
unfolding rem
rem-done a b h = let nonzero : (b == 0) ≡ false = ground arith in rw nonzero

pub checked_sub-done : (a b : ℕ) → b ≤ a → checked_sub a b ≡ done (a - b)
unfolding checked_sub
checked_sub-done a b h = rw (le→leb b a h)
