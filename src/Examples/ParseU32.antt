-- ===== src/Examples/ParseU32.antt =====
-- `parse_u32` of examples/simple_txrx.rs and examples/bandwidth.rs, which reads the stream id of the
-- command line, over the functions of Rust's standard library that it calls: `str::trim`,
-- `u32::from_str_radix` and `str::parse`. A text is the list of its characters' codes.
pub mod Trim
pub mod Outcome
pub mod Printed
mod Tests
use meshinator.Prelude.{
  ℕ, ◌+◌, ◌-◌, ◌*◌, ◌^◌, Bool, true, false, not, ◌&&◌, ◌||◌, List, [], ◌∷◌, Option, none, some, ltb,
  leb, ◌==◌, if◌then◌else◌,
}

-- `char::is_whitespace`
abbrev pub is_whitespace : ℕ → Bool
is_whitespace c =
    (leb 0x09 c && leb c 0x0d)
    || (c == 0x20)
    || (c == 0x85)
    || (c == 0xa0)
    || (c == 0x1680)
    || (leb 0x2000 c && leb c 0x200a)
    || (c == 0x2028)
    || (c == 0x2029)
    || (c == 0x202f)
    || (c == 0x205f)
    || (c == 0x3000)

pub trim_start : List ℕ → List ℕ
trim_start [] = []
trim_start (c ∷ cs) = if is_whitespace c then trim_start cs else c ∷ cs

-- A character in front of the trimmed rest.
abbrev pub before_end : ℕ → List ℕ → List ℕ
before_end c [] = if is_whitespace c then [] else c ∷ []
before_end c (d ∷ ds) = c ∷ d ∷ ds

pub trim_end : List ℕ → List ℕ
trim_end [] = []
trim_end (c ∷ cs) = before_end c (trim_end cs)

abbrev pub trim : List ℕ → List ℕ
trim s = trim_end (trim_start s)

-- `IntErrorKind`, of which the text of the error is made.
pub data IntError : Type 0 where
  empty : IntError
  invalid_digit : IntError
  pos_overflow : IntError

pub data Parsed : Type 0 where
  number : ℕ → Parsed
  refused : IntError → Parsed

-- `char::to_digit`, for a radix of at most 36.
abbrev pub digit_of : ℕ → Option ℕ
digit_of c =
    if leb 48 c && leb c 57
    then some (c - 48)
    else if leb 97 c && leb c 122
    then some (c - 87)
    else if leb 65 c && leb c 90
    then some (c - 55)
    else none

abbrev pub below : ℕ → Option ℕ → Option ℕ
below radix none = none
below radix (some d) = if ltb d radix then some d else none

unfoldable pub to_digit : ℕ → ℕ → Option ℕ
to_digit radix c = below radix (digit_of c)

-- `checked_mul`, the digit and `checked_add` of one round.
abbrev pub add_digit : ℕ → ℕ → (ℕ → Parsed) → Option ℕ → Parsed
add_digit radix acc next none = refused invalid_digit
add_digit radix acc next (some d) =
    if ltb (acc * radix) (2 ^ 32) && ltb (acc * radix + d) (2 ^ 32)
    then next (acc * radix + d)
    else refused pos_overflow

pub read_digits : ℕ → List ℕ → ℕ → Parsed
read_digits radix [] acc = number acc
read_digits radix (c ∷ cs) acc = add_digit radix acc (read_digits radix cs) (to_digit radix c)

-- `u32::from_str_radix`: a sign alone is no number, and a `u32` takes only `+`.
pub from_str_radix : ℕ → List ℕ → Parsed
from_str_radix radix [] = refused empty
from_str_radix radix (c ∷ []) =
    if (c == 43) || (c == 45) then refused invalid_digit else read_digits radix (c ∷ []) 0
from_str_radix radix (c ∷ d ∷ ds) =
    if c == 43 then read_digits radix (d ∷ ds) 0 else read_digits radix (c ∷ d ∷ ds) 0

-- `starts_with` and `&s[2..]`: what follows `0x` or `0X`.
abbrev pub behind_prefix : List ℕ → Option (List ℕ)
behind_prefix [] = none
behind_prefix (c ∷ []) = none
behind_prefix (c ∷ d ∷ s) = if (c == 48) && ((d == 120) || (d == 88)) then some s else none

abbrev pub parse_trimmed : List ℕ → Option (List ℕ) → Parsed
parse_trimmed s (some digits) = from_str_radix 16 digits
parse_trimmed s none = from_str_radix 10 s

pub parse_u32 : List ℕ → Parsed
parse_u32 s = parse_trimmed (trim s) (behind_prefix (trim s))
