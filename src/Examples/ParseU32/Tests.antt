-- ===== src/Examples/ParseU32/Tests.antt =====
-- `parse_u32` at texts that it takes, and at one for each of its errors.
use meshinator.Prelude.{◌≡◌, refl, inl, [], ◌∷◌, ◌++◌, arith}
use meshinator.Prelude.Text.{codes, hex8}
use meshinator.Examples.ParseU32.{
  empty, invalid_digit, pos_overflow, number, refused, to_digit, trim_start, trim_end, read_digits,
  from_str_radix, parse_u32, behind_prefix,
}
use meshinator.Examples.ParseU32.Outcome.{reading, parse_u32-reading}
use meshinator.Examples.ParseU32.Printed.{parse_u32-hex8}

hexadecimal : parse_u32 (codes " 0X1f4 ") ≡ number 500
unfolding parse_u32 trim_start trim_end from_str_radix read_digits to_digit
hexadecimal = refl

with_plus : parse_u32 (codes "+42") ≡ number 42
unfolding parse_u32 trim_start trim_end from_str_radix read_digits to_digit
with_plus = refl

largest : parse_u32 (codes "4294967295") ≡ number 4294967295
unfolding parse_u32 trim_start trim_end from_str_radix read_digits to_digit
largest = refl

too_large : parse_u32 (codes "4294967296") ≡ refused pos_overflow
unfolding parse_u32 trim_start trim_end from_str_radix read_digits to_digit
too_large = refl

negative : parse_u32 (codes "-1") ≡ refused invalid_digit
unfolding parse_u32 trim_start trim_end from_str_radix read_digits to_digit
negative = refl

no_digits : parse_u32 (codes "0x") ≡ refused empty
unfolding parse_u32 trim_start trim_end from_str_radix read_digits to_digit
no_digits = refl

trimmed : trim_end (trim_start (codes "12a")) ≡ codes "12a"
unfolding trim_start trim_end
trimmed = refl

parse_u32-reading_example :
    parse_u32 (codes " " ++ (codes "12a" ++ codes "  "))
    ≡ reading (codes "12a") (behind_prefix (codes "12a"))
parse_u32-reading_example =
    parse_u32-reading (codes " ") (codes "12a") (codes "  ") (refl, tt) (refl, (refl, tt)) trimmed

parse_u32-hex8_example : parse_u32 (codes " " ++ ((48 ∷ 120 ∷ hex8 500) ++ [])) ≡ number 500
parse_u32-hex8_example =
    parse_u32-hex8 (codes " ") [] 120 500 (refl, tt) tt (inl refl) (omega arith)
