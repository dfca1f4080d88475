-- ===== src/Radiotap/Reading.antt =====
-- What a radiotap header says, without the walk of src/rx.rs: where the list of its present words ends,
-- which fields come, where each of them stands, and what the frame's meta is by them.
pub mod Start
pub mod Table
pub mod Gain
pub mod Fields
pub mod Rounds
pub mod Whole
pub mod Ranges
use meshinator.Prelude.{
  ℕ, zero, suc, ◌+◌, ◌*◌, ◌^◌, bit_and, Bool, true, false, not, ◌&&◌, ◌||◌, List, [], ◌∷◌, Option,
  none, some, length, get_or, drop, replicate, ltb, leb, ◌==◌, if◌then◌else◌,
}
use meshinator.Prelude.Int.{ℤ, as_i8, i8_min, i8_max}
use meshinator.Radiotap.{RadiotapMeta, Walk}
use meshinator.Radiotap.Layout.{has_flag, align_up}

-- The fields 0 to 22, of which 18 is not in use.
abbrev pub alignments : List ℕ
alignments =
    8 ∷ 1 ∷ 1 ∷ 2 ∷ 2 ∷ 1 ∷ 1 ∷ 2 ∷ 2 ∷ 2 ∷ 1 ∷ 1 ∷ 1 ∷ 1 ∷ 2 ∷ 2 ∷ 1 ∷ 1 ∷ 1 ∷ 1 ∷ 4 ∷ 2 ∷ 8 ∷ []

abbrev pub sizes : List ℕ
sizes =
    8 ∷ 1 ∷ 1 ∷ 4 ∷ 2 ∷ 1 ∷ 1 ∷ 2 ∷ 2 ∷ 2 ∷ 1 ∷ 1 ∷ 1 ∷ 1 ∷ 2 ∷ 2 ∷ 1 ∷ 1 ∷ 0 ∷ 3 ∷ 8 ∷ 12 ∷ 12 ∷ []

abbrev pub is_known : ℕ → Bool
is_known f = leb f 22 && not (f == 18)

-- Behind the last present word, which has its top bit clear, from the position of the first on.
pub header_end : ℕ → List ℕ → Option ℕ
header_end p (a ∷ b ∷ c ∷ d ∷ rest) = if leb 128 d then header_end (p + 4) rest else some (p + 4)
header_end p [] = none
header_end p (a ∷ []) = none
header_end p (a ∷ b ∷ []) = none
header_end p (a ∷ b ∷ c ∷ []) = none

module _ (pkt : List ℕ) (base : ℕ) where
  -- The first present word, without its top bit.
  abbrev pub first_word : ℕ
  first_word =
      bit_and
        (get_or pkt 4 0
          + get_or pkt 5 0 * 2 ^ 8
          + get_or pkt 6 0 * 2 ^ 16
          + get_or pkt 7 0 * 2 ^ 24)
        0x7fff_ffff

  abbrev pub is_present : ℕ → Bool
  is_present f = has_flag first_word (2 ^ f)

  -- No field before `f` is there that is not known: behind one, no place is known.
  pub is_clear : ℕ → Bool
  is_clear zero = true
  is_clear (suc f) = is_clear f && (not (is_present f) || is_known f)

  -- The field can be read.
  pub reads : ℕ → Bool
  reads f = is_known f && is_present f && is_clear f

  -- Behind the fields before `f`, which stand one after the other, each at the next place of its
  -- alignment.
  pub behind : ℕ → ℕ
  behind zero = base
  behind (suc f) =
      if reads f then align_up (behind f) (get_or alignments f 0) + get_or sizes f 0 else behind f

  abbrev pub start : ℕ → ℕ
  start f = align_up (behind f) (get_or alignments f 0)

  -- The fields before `f` are within the packet.
  pub fit : ℕ → Bool
  fit zero = true
  fit (suc f) = fit f && (not (reads f) || leb (start f + get_or sizes f 0) (length pkt))

  abbrev pub byte : ℕ → ℕ → ℕ
  byte f i = get_or pkt (start f + i) 0

  -- The variables of the walk, by the fields that were read.
  abbrev pub walk_with : (ℕ → Bool) → ℕ → Walk
  walk_with read off = record {
    cur_off = off;
    ant_idx = if read 11 then 1 else 0;
    antenna = if read 11 then byte 11 0 ∷ replicate 3 0xff else replicate 4 0xff;
    rssi = if read 5 then as_i8 (byte 5 0) ∷ replicate 3 i8_min else replicate 4 i8_min;
    noise = if read 6 then as_i8 (byte 6 0) ∷ replicate 3 i8_max else replicate 4 i8_max;
    rt_flags = if read 1 then byte 1 0 else 0;
    self_injected = read 15;
    freq = if read 3 then byte 3 0 + byte 3 1 * 256 else 0;
    mcs_index = if read 19 && has_flag (byte 19 0) 2 then bit_and (byte 19 2) 0x7f else 0;
    bandwidth = if read 19 && has_flag (byte 19 0) 1 && has_flag (byte 19 1) 1 then 40 else 20;
  }

  -- The meta by the fields that can be read.
  abbrev pub meta_by_fields : ℕ → RadiotapMeta
  meta_by_fields radiotap_len = record {
    rt_flags = if reads 1 then byte 1 0 else 0;
    self_injected = reads 15;
    freq = if reads 3 then byte 3 0 + byte 3 1 * 256 else 0;
    antenna = if reads 11 then byte 11 0 ∷ replicate 3 0xff else replicate 4 0xff;
    rssi = if reads 5 then as_i8 (byte 5 0) ∷ replicate 3 i8_min else replicate 4 i8_min;
    noise = if reads 6 then as_i8 (byte 6 0) ∷ replicate 3 i8_max else replicate 4 i8_max;
    ant_count = if reads 11 then 1 else 0;
    mcs_index = if reads 19 && has_flag (byte 19 0) 2 then bit_and (byte 19 2) 0x7f else 0;
    bandwidth = if reads 19 && has_flag (byte 19 0) 1 && has_flag (byte 19 1) 1 then 40 else 20;
    radiotap_len = radiotap_len;
  }

abbrev pub length_field : List ℕ → ℕ
length_field pkt = get_or pkt 2 0 + get_or pkt 3 0 * 256

abbrev pub reading_from : List ℕ → Option ℕ → Option RadiotapMeta
reading_from pkt none = none
reading_from pkt (some base) =
    if fit pkt base 23 then some (meta_by_fields pkt base (length_field pkt)) else none

-- A header of version 0 whose length is within the packet, whose present words end, and whose fields
-- are within the packet.
pub reading : List ℕ → Option RadiotapMeta
reading pkt =
    if leb 8 (length pkt) && (get_or pkt 0 0 == 0) && leb (length_field pkt) (length pkt)
    then reading_from pkt (header_end 4 (drop 4 pkt))
    else none
