-- ===== src/Ffi/Utf8.antt =====
-- `str::from_utf8`, as `CStr::to_str` uses it: which bytes are a text.
use meshinator.Prelude.{
  ℕ, Bool, true, false, ◌&&◌, List, [], ◌∷◌, Option, none, some, leb, if◌then◌else◌,
}

-- The ranges of the bytes that have to follow a first byte; none if no text has it there.
abbrev tail : List (ℕ × ℕ)
tail = (0x80, 0xbf) ∷ []

unfoldable pub following : ℕ → Option (List (ℕ × ℕ))
following b =
    if leb b 0x7f
    then some []
    else if leb b 0xc1
    then none
    else if leb b 0xdf
    then some tail
    else if leb b 0xe0
    then some ((0xa0, 0xbf) ∷ tail)
    else if leb b 0xec
    then some ((0x80, 0xbf) ∷ tail)
    else if leb b 0xed
    then some ((0x80, 0x9f) ∷ tail)
    else if leb b 0xef
    then some ((0x80, 0xbf) ∷ tail)
    else if leb b 0xf0
    then some ((0x90, 0xbf) ∷ (0x80, 0xbf) ∷ tail)
    else if leb b 0xf3
    then some ((0x80, 0xbf) ∷ (0x80, 0xbf) ∷ tail)
    else if leb b 0xf4
    then some ((0x80, 0x8f) ∷ (0x80, 0xbf) ∷ tail)
    else none

-- The bytes go on with the pending ranges, and then with whole characters.
unfoldable pub is_text : List (ℕ × ℕ) → List ℕ → Bool
is_text [] [] = true
is_text (r ∷ pending) [] = false
is_text (r ∷ pending) (b ∷ bytes) = leb r.0 b && leb b r.1 && is_text pending bytes
is_text [] (b ∷ bytes) = elim (following b) [ none ↦ false | some pending ↦ is_text pending bytes ]
