-- ===== src/Prelude/Text.antt =====
-- Literal text as the list of its codes, and the hexadecimal digits of a 32-bit word.
use Prim.Native.Char.{code}
use Prim.Native.String.{String}
use Prim.Native.Nat.{ℕ, ◌+◌, ◌/◌, ◌%◌, ◌^◌, ◌<◌}
use mathlib.Core.Path.{◌≡◌, ap}
use mathlib.Core.List.{List, [], ◌∷◌}
use native.Mathlib.Omega.{arith}
use meshinator.Prelude.Tests.{ltb, if◌then◌else◌}
use meshinator.Prelude.Lists.{get_or}

abbrev pub codes : String → List ℕ
codes String.[] = []
codes (String.◌∷◌ c s) = code c ∷ codes s

abbrev pub hex_digit : ℕ → ℕ
hex_digit d = if ltb d 10 then 48 + d else 87 + d

-- `{:08x}` of a `u32`
abbrev pub hex8 : ℕ → List ℕ
hex8 n =
    hex_digit (n / 2 ^ 28 % 16)
    ∷ hex_digit (n / 2 ^ 24 % 16)
    ∷ hex_digit (n / 2 ^ 20 % 16)
    ∷ hex_digit (n / 2 ^ 16 % 16)
    ∷ hex_digit (n / 2 ^ 12 % 16)
    ∷ hex_digit (n / 2 ^ 8 % 16)
    ∷ hex_digit (n / 2 ^ 4 % 16)
    ∷ hex_digit (n % 16)
    ∷ []

hex_digit-injective : (a b : ℕ) → a < 16 → b < 16 → hex_digit a ≡ hex_digit b → a ≡ b
hex_digit-injective a b ha hb e = ground arith

pub hex8-injective : (m n : ℕ) → m < 2 ^ 32 → n < 2 ^ 32 → hex8 m ≡ hex8 n → m ≡ n
hex8-injective m n hm hn e = omega (
  arith,
  hex_digit-injective (m / 2 ^ 28 % 16) (n / 2 ^ 28 % 16) (omega arith) (omega arith)
      (ap (λ l. get_or l 0 0) e),
  hex_digit-injective (m / 2 ^ 24 % 16) (n / 2 ^ 24 % 16) (omega arith) (omega arith)
      (ap (λ l. get_or l 1 0) e),
  hex_digit-injective (m / 2 ^ 20 % 16) (n / 2 ^ 20 % 16) (omega arith) (omega arith)
      (ap (λ l. get_or l 2 0) e),
  hex_digit-injective (m / 2 ^ 16 % 16) (n / 2 ^ 16 % 16) (omega arith) (omega arith)
      (ap (λ l. get_or l 3 0) e),
  hex_digit-injective (m / 2 ^ 12 % 16) (n / 2 ^ 12 % 16) (omega arith) (omega arith)
      (ap (λ l. get_or l 4 0) e),
  hex_digit-injective (m / 2 ^ 8 % 16) (n / 2 ^ 8 % 16) (omega arith) (omega arith)
      (ap (λ l. get_or l 5 0) e),
  hex_digit-injective (m / 2 ^ 4 % 16) (n / 2 ^ 4 % 16) (omega arith) (omega arith)
      (ap (λ l. get_or l 6 0) e),
  hex_digit-injective (m % 16) (n % 16) (omega arith) (omega arith) (ap (λ l. get_or l 7 0) e),
)
