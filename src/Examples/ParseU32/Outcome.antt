-- ===== src/Examples/ParseU32/Outcome.antt =====
-- What `parse_u32` answers to a text, by the unbounded value of its digits.
use native.Mathlib.Decide.{dec_lt}
use meshinator.Prelude.{
  ℕ, ◌+◌, ◌*◌, ◌^◌, ◌≤◌, ◌<◌, ◌≡◌, refl, ◌∙◌, Bool, true, false, ◌||◌, ◌&&◌, List, [], ◌∷◌, ◌++◌,
  Option, none, some, Option-cases, Bool-cases, inl, inr, ltb, ltb-false, lt→ltb, leb, leb-false,
  le→leb, ◌==◌, if◌then◌else◌, arith,
}
use meshinator.Examples.ParseU32.{
  trim, empty, invalid_digit, pos_overflow, Parsed, number, refused, to_digit, add_digit,
  read_digits, from_str_radix, behind_prefix, parse_trimmed, parse_u32,
}
use meshinator.Examples.ParseU32.Trim.{IsBlank, trim-around}

-- The digits before the first character that is none, and whether there is no such character.
abbrev pub and_then : Option ℕ → List ℕ → List ℕ
and_then none ds = []
and_then (some d) ds = d ∷ ds

abbrev pub is_some : Option ℕ → Bool
is_some none = false
is_some (some d) = true

abbrev pub leading : ℕ → List ℕ → List ℕ
leading radix [] = []
leading radix (c ∷ cs) = and_then (to_digit radix c) (leading radix cs)

abbrev pub all_digits : ℕ → List ℕ → Bool
all_digits radix [] = true
all_digits radix (c ∷ cs) = is_some (to_digit radix c) && all_digits radix cs

-- The number that digits spell behind `acc`, with no bound.
abbrev pub value : ℕ → ℕ → List ℕ → ℕ
value radix acc [] = acc
value radix acc (d ∷ ds) = value radix (acc * radix + d) ds

-- Too large if the leading digits are already; else a number if there is nothing else.
abbrev pub outcome : ℕ → ℕ → List ℕ → Parsed
outcome radix acc cs =
    if leb (2 ^ 32) (value radix acc (leading radix cs))
    then refused pos_overflow
    else if all_digits radix cs
    then number (value radix acc (leading radix cs))
    else refused invalid_digit

le-value : (radix acc : ℕ) (ds : List ℕ) → 1 ≤ radix → acc ≤ value radix acc ds
le-value radix acc [] h = omega arith
le-value radix acc (d ∷ ds) h =
    let grows : acc ≤ acc * radix = grind arith in
    omega (arith, le-value radix (acc * radix + d) ds h)

-- A digit that fits, and one that does not.
add_digit-fits :
    (radix acc d : ℕ) (next : ℕ → Parsed)
    → acc * radix + d < 2 ^ 32
    → add_digit radix acc next (some d) ≡ next (acc * radix + d)
add_digit-fits radix acc d next h =
    let room : acc * radix < 2 ^ 32 = omega arith in
    rw (lt→ltb (acc * radix) (2 ^ 32) room, lt→ltb (acc * radix + d) (2 ^ 32) h)

add_digit-overflow :
    (radix acc d : ℕ) (next : ℕ → Parsed)
    → 2 ^ 32 ≤ acc * radix + d
    → add_digit radix acc next (some d) ≡ refused pos_overflow
add_digit-overflow radix acc d next h = elim (Bool-cases (ltb (acc * radix) (2 ^ 32))) [
  | inl small ↦ rw (small, ltb-false (acc * radix + d) (2 ^ 32) h)
  | inr large ↦ rw large
]

read_digits-outcome :
    (radix : ℕ) (cs : List ℕ) (acc : ℕ)
    → 1 ≤ radix
    → acc < 2 ^ 32
    → read_digits radix cs acc ≡ outcome radix acc cs
unfolding read_digits
read_digits-outcome radix [] acc h fits = rw (leb-false (2 ^ 32) acc fits)
read_digits-outcome radix (c ∷ cs) acc h fits = elim (Option-cases (to_digit radix c)) [
  | inl e ↦ rw (e, leb-false (2 ^ 32) acc fits)
  | inr (d, e) ↦ elim (dec_lt (acc * radix + d) (2 ^ 32)) [
    | yes small ↦ rw e (
        add_digit-fits radix acc d (read_digits radix cs) small
        ∙ read_digits-outcome radix cs (acc * radix + d) h small)
    | no large ↦
        let beyond : 2 ^ 32 ≤ acc * radix + d = omega (arith, large) in
        let all_beyond : 2 ^ 32 ≤ value radix (acc * radix + d) (leading radix cs) =
          omega (arith, le-value radix (acc * radix + d) (leading radix cs) h) in
        rw (e, le→leb (2 ^ 32) (value radix (acc * radix + d) (leading radix cs)) all_beyond)
          (add_digit-overflow radix acc d (read_digits radix cs) beyond)
  ]
]

-- A `+` in front of something is not looked at.
abbrev pub signless : List ℕ → List ℕ
signless [] = []
signless (c ∷ []) = c ∷ []
signless (c ∷ d ∷ ds) = if c == 43 then d ∷ ds else c ∷ d ∷ ds

abbrev pub numeral : ℕ → List ℕ → Parsed
numeral radix [] = refused empty
numeral radix (c ∷ cs) = outcome radix 0 (signless (c ∷ cs))

abbrev pub reading : List ℕ → Option (List ℕ) → Parsed
reading t (some digits) = numeral 16 digits
reading t none = numeral 10 t

-- A sign alone is no digit.
sign-to_digit : (radix c : ℕ) → ((c == 43) || (c == 45)) ≡ true → to_digit radix c ≡ none
unfolding to_digit
sign-to_digit radix c h = ground arith

from_str_radix-numeral :
    (radix : ℕ) (s : List ℕ) → 1 ≤ radix → from_str_radix radix s ≡ numeral radix s
unfolding from_str_radix
from_str_radix-numeral radix [] h = refl
from_str_radix-numeral radix (c ∷ []) h = elim (Bool-cases ((c == 43) || (c == 45))) [
  | inl sign ↦ rw (sign, sign-to_digit radix c sign)
  | inr other ↦ rw other (read_digits-outcome radix (c ∷ []) 0 h (omega arith))
]
from_str_radix-numeral radix (c ∷ d ∷ ds) h = elim (Bool-cases (c == 43)) [
  | inl plus ↦ rw plus (read_digits-outcome radix (d ∷ ds) 0 h (omega arith))
  | inr other ↦ rw other (read_digits-outcome radix (c ∷ d ∷ ds) 0 h (omega arith))
]

parse_trimmed-reading : (t : List ℕ) (o : Option (List ℕ)) → parse_trimmed t o ≡ reading t o
parse_trimmed-reading t (some digits) = from_str_radix-numeral 16 digits (omega arith)
parse_trimmed-reading t none = from_str_radix-numeral 10 t (omega arith)

-- White space around a text is not looked at, and a text that neither begins nor ends with it is read
-- to the base 16 behind `0x` or `0X`, and to the base 10 otherwise. Nothing there is the error of an
-- empty text. Else a `+` before something is not looked at, and the value of the digits up to the first
-- other character is taken without a bound: if it is 2 ^ 32 or more, the answer is the overflow; if
-- there is another character, or no digit, it is the error of a wrong digit; and otherwise the value.
pub parse_u32-reading :
    (a t b : List ℕ)
    → IsBlank a
    → IsBlank b
    → trim t ≡ t
    → parse_u32 (a ++ (t ++ b)) ≡ reading t (behind_prefix t)
unfolding parse_u32
parse_u32-reading a t b ha hb trimmed =
    rw (trim-around a t b ha hb, trimmed) (parse_trimmed-reading t (behind_prefix t))
