-- ===== src/Prelude/Bits.antt =====
-- `&` with a mask of ones, and with a mask of ones above cleared digits, as arithmetic.
use Prim.Native.Nat.{
  ℕ, zero, suc, ◌+◌, ◌-◌, ◌*◌, ◌/◌, ◌%◌, ◌^◌, ◌≤◌, ◌<◌, min, bit_and, digits, bit_and-bitwise,
}
use mathlib.Core.Path.{◌≡◌, refl, ap, ◌∙◌}
use native.Mathlib.Nat.{pow-suc, one-le-pow}
use native.Mathlib.Omega.{arith}

-- What `bit_and` stands for: the digits of `x` and `m`, lowest first, as far as the fuel goes.
abbrev meet : ℕ → ℕ → ℕ → ℕ
meet fuel x m = digits (λ _. 0) min fuel x m

meet-ones : (fuel k x : ℕ) → x ≤ fuel → x < 2 ^ k → meet fuel x (2 ^ k - 1) ≡ x
meet-ones zero k zero h lt = refl
meet-ones zero k (suc x) h lt = absurd (omega arith)
meet-ones (suc fuel) k zero h lt = refl
meet-ones (suc fuel) zero (suc x) h lt = absurd (omega arith)
meet-ones (suc fuel) (suc k) (suc x) h lt =
    let halved : (2 ^ suc k - 1) / 2 ≡ 2 ^ k - 1 = omega (arith, pow-suc 2 k) in
    rw halved (
      omega (
        arith,
        pow-suc 2 k,
        one-le-pow k 2,
        meet-ones fuel k (suc x / 2) (omega arith) (omega (arith, pow-suc 2 k)),
      ))

-- One more cleared digit at the low end.
meet-twice :
    (fuel x m y : ℕ)
    → x ≤ fuel
    → ((f : ℕ) → x / 2 ≤ f → meet f (x / 2) m ≡ y)
    → meet fuel x (2 * m) ≡ 2 * y
meet-twice zero zero m y h k = omega (arith, k 0)
meet-twice zero (suc x) m y h k = absurd (omega arith)
meet-twice (suc fuel) zero m y h k = omega (arith, k 0)
meet-twice (suc fuel) (suc x) m y h k =
    let halved : 2 * m / 2 ≡ m = omega arith in rw halved (omega (arith, k fuel))

pub bit_and_ones : (k x : ℕ) → x < 2 ^ k → bit_and x (2 ^ k - 1) ≡ x
bit_and_ones k x h = bit_and-bitwise x (2 ^ k - 1) ∙ meet-ones x k x (omega arith) h

-- The masks `!1`, `!3` and `!7` of a 64-bit word clear one, two and three digits.
pub bit_and_not_one : (x : ℕ) → x < 2 ^ 64 → bit_and x (2 ^ 64 - 2) ≡ 2 * (x / 2)
bit_and_not_one x h =
    bit_and-bitwise x (2 ^ 64 - 2)
    ∙ meet-twice x x (2 ^ 63 - 1) (x / 2) (omega arith)
        (λ f p. meet-ones f 63 (x / 2) p (omega arith))

pub bit_and_not_three : (x : ℕ) → x < 2 ^ 64 → bit_and x (2 ^ 64 - 4) ≡ 4 * (x / 4)
bit_and_not_three x h =
    bit_and-bitwise x (2 ^ 64 - 4)
    ∙ meet-twice x x (2 ^ 63 - 2) (2 * (x / 4)) (omega arith) (λ f p.
      meet-twice f (x / 2) (2 ^ 62 - 1) (x / 4) p
        (λ g q. meet-ones g 62 (x / 2 / 2) q (omega arith) ∙ omega arith))
    ∙ omega arith

pub bit_and_not_seven : (x : ℕ) → x < 2 ^ 64 → bit_and x (2 ^ 64 - 8) ≡ 8 * (x / 8)
bit_and_not_seven x h =
    bit_and-bitwise x (2 ^ 64 - 8)
    ∙ meet-twice x x (2 ^ 63 - 4) (4 * (x / 8)) (omega arith) (λ f p.
      meet-twice f (x / 2) (2 ^ 62 - 2) (2 * (x / 8)) p (λ g q.
        meet-twice g (x / 2 / 2) (2 ^ 61 - 1) (x / 8) q
          (λ e r. meet-ones e 61 (x / 2 / 2 / 2) r (omega arith) ∙ omega arith))
      ∙ omega arith)
    ∙ omega arith

meet-nothing : (fuel x : ℕ) → x ≤ fuel → meet fuel x 0 ≡ 0
meet-nothing zero zero h = refl
meet-nothing zero (suc x) h = absurd (omega arith)
meet-nothing (suc fuel) zero h = refl
meet-nothing (suc fuel) (suc x) h = omega (arith, meet-nothing fuel (suc x / 2) (omega arith))

-- The mask of `k` ones keeps the last `k` digits, `r`.
meet-low :
    (k fuel x q r : ℕ) → x ≤ fuel → x ≡ q * 2 ^ k + r → r < 2 ^ k → meet fuel x (2 ^ k - 1) ≡ r
meet-low zero fuel x q r h e lt = omega (arith, meet-nothing fuel x h)
meet-low (suc k) zero zero q r h e lt = omega arith
meet-low (suc k) zero (suc x) q r h e lt = absurd (omega arith)
meet-low (suc k) (suc fuel) zero q r h e lt = omega arith
meet-low (suc k) (suc fuel) (suc x) q r h e lt =
    let halved : (2 ^ suc k - 1) / 2 ≡ 2 ^ k - 1 = omega (arith, pow-suc 2 k) in
    let doubled : q * 2 ^ suc k ≡ 2 * (q * 2 ^ k) =
      omega (arith, ap (λ (t : ℕ). q * t) (pow-suc 2 k)) in
    rw halved (
      omega (
        arith,
        pow-suc 2 k,
        one-le-pow k 2,
        doubled,
        meet-low k fuel (suc x / 2) q (r / 2) (omega arith) (omega (arith, doubled))
            (omega (arith, pow-suc 2 k)),
      ))

pub bit_and_low_byte : (x : ℕ) → bit_and x 0xff ≡ x % 256
bit_and_low_byte x =
    bit_and-bitwise x 0xff
    ∙ meet-low 8 x x (x / 256) (x % 256) (omega arith) (omega arith) (omega arith)

pub bit_and_low_seven : (x : ℕ) → bit_and x 0x7f ≡ x % 128
bit_and_low_seven x =
    bit_and-bitwise x 0x7f
    ∙ meet-low 7 x x (x / 128) (x % 128) (omega arith) (omega arith) (omega arith)

pub bit_and_low_two_bytes : (x : ℕ) → bit_and x 0xffff ≡ x % 65536
bit_and_low_two_bytes x =
    bit_and-bitwise x 0xffff
    ∙ meet-low 16 x x (x / 65536) (x % 65536) (omega arith) (omega arith) (omega arith)

-- The mask of a single one at the top, for a number that has it or has not.
meet-top_off : (k fuel x : ℕ) → x ≤ fuel → x < 2 ^ k → meet fuel x (2 ^ k) ≡ 0
meet-top_off zero fuel x h lt = let none : x ≡ 0 = omega arith in rw none (meet-zero fuel)
  where
    meet-zero : (f : ℕ) → meet f 0 1 ≡ 0
    meet-zero zero = refl
    meet-zero (suc f) = refl
meet-top_off (suc k) fuel x h lt =
    let twice : 2 ^ suc k ≡ 2 * 2 ^ k = omega (arith, pow-suc 2 k) in
    rw twice
      (meet-twice fuel x (2 ^ k) 0 h (λ f p. meet-top_off k f (x / 2) p (omega (arith, twice))))

meet-top_on : (k fuel x : ℕ) → x ≤ fuel → 2 ^ k ≤ x → x < 2 * 2 ^ k → meet fuel x (2 ^ k) ≡ 2 ^ k
meet-top_on zero zero x h le lt = absurd (omega arith)
meet-top_on zero (suc fuel) x h le lt = let one : x ≡ 1 = omega arith in rw one (meet-one fuel)
  where
    meet-one : (f : ℕ) → meet (suc f) 1 1 ≡ 1
    meet-one zero = refl
    meet-one (suc f) = refl
meet-top_on (suc k) fuel x h le lt =
    let twice : 2 ^ suc k ≡ 2 * 2 ^ k = omega (arith, pow-suc 2 k) in
    rw twice (
      meet-twice fuel x (2 ^ k) (2 ^ k) h
        (λ f p. meet-top_on k f (x / 2) p (omega (arith, twice)) (omega (arith, twice))))

pub bit_and_top_off : (x : ℕ) → x < 2 ^ 31 → bit_and x (2 ^ 31) ≡ 0
bit_and_top_off x h = bit_and-bitwise x (2 ^ 31) ∙ meet-top_off 31 x x (omega arith) h

pub bit_and_top_on : (x : ℕ) → 2 ^ 31 ≤ x → x < 2 ^ 32 → bit_and x (2 ^ 31) ≡ 2 ^ 31
bit_and_top_on x h lt =
    bit_and-bitwise x (2 ^ 31) ∙ meet-top_on 31 x x (omega arith) h (omega arith)
