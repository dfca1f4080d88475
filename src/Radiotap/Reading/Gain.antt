-- ===== src/Radiotap/Reading/Gain.antt =====
-- One field of `radiotap_meta_from_packet`: what reading it adds.
pub mod Arms
pub mod Field
use native.Mathlib.Decide.{ℕ_discrete}
use meshinator.Prelude.{
  ℕ, ◌+◌, ◌*◌, ◌%◌, ◌^◌, ◌≤◌, ◌<◌, ◌≡◌, ◌≢◌, refl, sym, ap, ◌∙◌, bit_and, Bool, true, false, List,
  length, get_or, ◌==◌, Bool-cases, inl, inr, arith,
}
use meshinator.Prelude.Bits.{bit_and_low_two_bytes}
use meshinator.Run.{done, write}
use meshinator.Run.Laws.{index-done}
use meshinator.Radiotap.{le_u32, read_field, read_antenna, read_rssi, read_noise, read_mcs}
use meshinator.Radiotap.Layout.{has_flag}
use meshinator.Radiotap.Reading.{sizes, byte, walk_with}

-- `n` is the only field more, and no antenna comes before the signal and the noise.
pub record Gains (read read' : ℕ → Bool) (n : ℕ) : Type 0 where
  pub before : read n ≡ false
  pub after : read' n ≡ true
  pub others : (f : ℕ) → f ≢ n → read' f ≡ read f
  pub first_antenna : n ≤ 11 → read 11 ≡ false

module _ (pkt : List ℕ) (base : ℕ) where
  -- The bytes of the field, as its place in the packet has them.
  pub record HasField (n : ℕ) (bytes : List ℕ) : Type 0 where
    pub size : length bytes ≡ get_or sizes n 0
    pub at : (i : ℕ) → i < get_or sizes n 0 → get_or bytes i 0 ≡ byte pkt base n i
    pub small : (i : ℕ) → byte pkt base n i < 256
