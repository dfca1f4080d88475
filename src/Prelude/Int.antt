-- ===== src/Prelude/Int.antt =====
-- The signed integers that the program keeps: `i8` readings and C's `int`.
use Prim.Native.Nat.{ℕ, ◌-◌}
use mathlib.Core.Bool.{Bool, true, false}
use meshinator.Prelude.Tests.{ltb, if◌then◌else◌}

-- `negsuc n` is -(n + 1).
pub data ℤ : Type 0 where
  pos : ℕ → ℤ
  negsuc : ℕ → ℤ

abbrev pub is_negative : ℤ → Bool
is_negative (pos n) = false
is_negative (negsuc n) = true

-- `b as i8` of a `u8`
abbrev pub as_i8 : ℕ → ℤ
as_i8 b = if ltb b 128 then pos b else negsuc (255 - b)

abbrev pub i8_min : ℤ
i8_min = negsuc 127

abbrev pub i8_max : ℤ
i8_max = pos 127
