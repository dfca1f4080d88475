-- ===== src/Proto/Bytes.antt =====
-- The big-endian bytes of a word, and back.
use meshinator.Prelude.{ℕ, ◌/◌, ◌%◌, ◌^◌, ◌<◌, ◌≡◌, arith, [], ◌∷◌}
use meshinator.Proto.{be_bytes_u32, be_bytes_u16, from_be_u32, from_be_u16}

pub from_be_u32_lem :
    (n : ℕ)
    → n < 2 ^ 32
    → from_be_u32 (n / 2 ^ 24 % 256) (n / 2 ^ 16 % 256) (n / 2 ^ 8 % 256) (n % 256) ≡ n
from_be_u32_lem n h = omega arith

pub from_be_u16_lem : (n : ℕ) → n < 2 ^ 16 → from_be_u16 (n / 2 ^ 8 % 256) (n % 256) ≡ n
from_be_u16_lem n h = omega arith

pub be_bytes_u32_lem :
    (a b c d : ℕ)
    → a < 256
    → b < 256
    → c < 256
    → d < 256
    → be_bytes_u32 (from_be_u32 a b c d) ≡ a ∷ b ∷ c ∷ d ∷ []
be_bytes_u32_lem a b c d ha hb hc hd = ground arith

pub be_bytes_u16_lem : (a b : ℕ) → a < 256 → b < 256 → be_bytes_u16 (from_be_u16 a b) ≡ a ∷ b ∷ []
be_bytes_u16_lem a b ha hb = ground arith
