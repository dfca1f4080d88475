-- ===== src/Examples/ParseU32/Printed.antt =====
-- A stream id as `WfbRx::open` prints it into its filter, `0x` and eight digits, read by `parse_u32`.
use meshinator.Prelude.{
  ℕ, ◌/◌, ◌%◌, ◌^◌, ◌<◌, ◌≡◌, refl, ap, ◌∙◌, false, ◌⊎◌, List, [], ◌∷◌, ◌++◌, some, ◌==◌, leb-false,
  arith,
}
use meshinator.Prelude.Text.{hex_digit, hex8}
use meshinator.Examples.ParseU32.{
  is_whitespace, trim_start, before_end, trim_end, trim, number, to_digit, parse_u32, behind_prefix,
}
use meshinator.Examples.ParseU32.Trim.{IsBlank}
use meshinator.Examples.ParseU32.Outcome.{reading, outcome, signless, value, parse_u32-reading}

abbrev IsSolid : List ℕ → Type 0
IsSolid [] = Unit {0}
IsSolid (c ∷ cs) = (is_whitespace c ≡ false) × IsSolid cs

trim_end-solid : (s : List ℕ) → IsSolid s → trim_end s ≡ s
unfolding trim_end
trim_end-solid [] h = refl
trim_end-solid (c ∷ []) h = rw h.0 refl
trim_end-solid (c ∷ d ∷ ds) h = ap (before_end c) (trim_end-solid (d ∷ ds) h.1)

trim-solid : (s : List ℕ) → IsSolid s → trim s ≡ s
unfolding trim_start
trim-solid [] h = trim_end-solid [] h
trim-solid (c ∷ cs) h = rw h.0 (trim_end-solid (c ∷ cs) h)

hex_digit-solid : (d : ℕ) → d < 16 → is_whitespace (hex_digit d) ≡ false
hex_digit-solid d h = ground arith

to_digit-hex_digit : (d : ℕ) → d < 16 → to_digit 16 (hex_digit d) ≡ some d
unfolding to_digit
to_digit-hex_digit d h = ground arith

hex_digit-unsigned : (d : ℕ) → d < 16 → (hex_digit d == 43) ≡ false
hex_digit-unsigned d h = ground arith

hex8-IsSolid : (n : ℕ) → IsSolid (hex8 n)
hex8-IsSolid n =
    let at : (k : ℕ) → is_whitespace (hex_digit (k % 16)) ≡ false =
      λ k. hex_digit-solid (k % 16) (omega arith) in
    (
      at (n / 2 ^ 28),
      (
        at (n / 2 ^ 24),
        (
          at (n / 2 ^ 20),
          (at (n / 2 ^ 16), (at (n / 2 ^ 12), (at (n / 2 ^ 8), (at (n / 2 ^ 4), (at n, tt))))),
        ),
      ),
    )

hex8-outcome : (n : ℕ) → n < 2 ^ 32 → outcome 16 0 (hex8 n) ≡ number n
hex8-outcome n h =
    let at : (k : ℕ) → to_digit 16 (hex_digit (k % 16)) ≡ some (k % 16) =
      λ k. to_digit-hex_digit (k % 16) (omega arith) in
    let spelled : value 16 0 (
          n / 2 ^ 28 % 16
          ∷ n / 2 ^ 24 % 16
          ∷ n / 2 ^ 20 % 16
          ∷ n / 2 ^ 16 % 16
          ∷ n / 2 ^ 12 % 16
          ∷ n / 2 ^ 8 % 16
          ∷ n / 2 ^ 4 % 16
          ∷ n % 16
          ∷ [])
        ≡ n =
      omega arith in
    rw
      (
        at (n / 2 ^ 28),
        at (n / 2 ^ 24),
        at (n / 2 ^ 20),
        at (n / 2 ^ 16),
        at (n / 2 ^ 12),
        at (n / 2 ^ 8),
        at (n / 2 ^ 4),
        at n,
        spelled,
        leb-false (2 ^ 32) n h,
      )
      refl

-- Every 32-bit number, printed as `0x` or `0X` and eight hexadecimal digits, with any white space
-- around it, is read as that number.
pub parse_u32-hex8 :
    (a b : List ℕ) (x n : ℕ)
    → IsBlank a
    → IsBlank b
    → (x ≡ 120) ⊎ (x ≡ 88)
    → n < 2 ^ 32
    → parse_u32 (a ++ ((48 ∷ x ∷ hex8 n) ++ b)) ≡ number n
parse_u32-hex8 a b x n ha hb letter h =
    let solid : is_whitespace x ≡ false = ground (arith, letter) in
    let prefix : behind_prefix (48 ∷ x ∷ hex8 n) ≡ some (hex8 n) = ground (arith, letter) in
    parse_u32-reading a (48 ∷ x ∷ hex8 n) b ha hb (trim-solid _ (refl, (solid, hex8-IsSolid n)))
    ∙ ap (reading (48 ∷ x ∷ hex8 n)) prefix
    ∙ ap (outcome 16 0) (unsigned n)
    ∙ hex8-outcome n h
  where
    unsigned : (n : ℕ) → signless (hex8 n) ≡ hex8 n
    unsigned n = rw (hex_digit-unsigned (n / 2 ^ 28 % 16) (omega arith)) refl
