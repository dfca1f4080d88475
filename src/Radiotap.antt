-- ===== src/Radiotap.antt =====
-- src/rx.rs, `radiotap_meta_from_packet` and its helpers: the walk over the radiotap header that
-- the capture puts before every frame.
-- A range or an index out of bounds is the `panic` of the Rust code; a loop that its fuel cuts off is
-- `out_of_fuel`.
pub mod Layout
pub mod Walking
pub mod Safe
pub mod Antenna
pub mod Align
pub mod Injected
pub mod Reading
pub mod Fuel
mod Tests
use mathlib.Core.Option
use meshinator.Prelude.{
  ℕ, zero, suc, ◌+◌, ◌-◌, ◌*◌, ◌/◌, ◌%◌, ◌^◌, bit_and, Bool, true, false, not, ◌&&◌, List, [], ◌∷◌,
  ◌++◌, Option, none, some, length, replicate, ltb, leb, ◌==◌, if◌then◌else◌,
}
use meshinator.Prelude.Int.{ℤ, pos, as_i8, i8_min, i8_max}
use meshinator.Run.{Run, done, panic, out_of_fuel, ◌>>=◌, index, slice, write}
use Layout.{
  has_flag, align_up, field_layout, rtap_channel, rtap_flags, rtap_dbm_antsignal, rtap_dbm_antnoise,
  rtap_antenna, rtap_tx_flags, rtap_mcs, rtap_mcs_have_mcs, rtap_mcs_have_bw,
}

unfoldable pub le_u16 : List ℕ → Run ℕ
le_u16 x = do a ← index x 0; b ← index x 1; done (a + b * 2 ^ 8)

unfoldable pub le_u32 : List ℕ → Run ℕ
le_u32 x = do
  a ← index x 0
  b ← index x 1
  c ← index x 2
  d ← index x 3
  done (a + b * 2 ^ 8 + c * 2 ^ 16 + d * 2 ^ 24)

pub record RadiotapMeta : Type 0 where
  pub rt_flags : ℕ
  pub self_injected : Bool
  pub freq : ℕ
  pub antenna : List ℕ
  pub rssi : List ℤ
  pub noise : List ℤ
  pub ant_count : ℕ
  pub mcs_index : ℕ
  pub bandwidth : ℕ
  pub radiotap_len : ℕ

-- The `loop` that reads the present words; `none` is its `return None`.
unfoldable pub read_present_words : ℕ → List ℕ → ℕ → List ℕ → Run (Option (List ℕ))
read_present_words zero pkt p_off present_words = out_of_fuel
read_present_words (suc fuel) pkt p_off present_words =
    if ltb (length pkt) (p_off + 4) then done none else do
      four ← slice pkt p_off (p_off + 4)
      w ← le_u32 four
      let words = present_words ++ (bit_and w 0x7fff_ffff ∷ [])
      let rest = read_present_words fuel pkt (p_off + 4) words
      if has_flag w 0x8000_0000 then rest else done (some words)

-- The local variables of the walk over the fields.
pub record Walk : Type 0 where
  pub cur_off : ℕ
  pub ant_idx : ℕ
  pub antenna : List ℕ
  pub rssi : List ℤ
  pub noise : List ℤ
  pub rt_flags : ℕ
  pub self_injected : Bool
  pub freq : ℕ
  pub mcs_index : ℕ
  pub bandwidth : ℕ

abbrev pub start_walk : ℕ → Walk
start_walk args_offset = record {
  cur_off = args_offset;
  ant_idx = 0;
  antenna = replicate 4 0xff;
  rssi = replicate 4 i8_min;
  noise = replicate 4 i8_max;
  rt_flags = 0;
  self_injected = false;
  freq = 0;
  mcs_index = 0;
  bandwidth = 20;
}

-- How a round of the `for` loop ends: the next round (also by `continue`), `break`, `return None`.
pub data Flow : Type 0 where
  next : Walk → Flow
  stop : Walk → Flow
  bail : Flow

-- The arms of the `match field`.
pub read_antenna : List ℕ → Walk → Run Walk
read_antenna field_bytes s =
    if ltb s.ant_idx 4
    then (do
      b ← index field_bytes 0
      antenna ← write s.antenna s.ant_idx b
      done (record s { antenna = antenna; ant_idx = s.ant_idx + 1 }))
    else done s

pub read_rssi : List ℕ → Walk → Run Walk
read_rssi field_bytes s =
    if ltb s.ant_idx 4
    then (do
      b ← index field_bytes 0
      rssi ← write s.rssi s.ant_idx (as_i8 b)
      done (record s { rssi = rssi }))
    else done s

pub read_noise : List ℕ → Walk → Run Walk
read_noise field_bytes s =
    if ltb s.ant_idx 4
    then (do
      b ← index field_bytes 0
      noise ← write s.noise s.ant_idx (as_i8 b)
      done (record s { noise = noise }))
    else done s

pub read_mcs : List ℕ → Walk → Run Walk
read_mcs field_bytes s = do
  mcs_have ← index field_bytes 0
  mcs_index ←
      (if has_flag mcs_have rtap_mcs_have_mcs
        then (do b ← index field_bytes 2; done (bit_and b 0x7f))
        else done s.mcs_index)
  wide ←
      (if has_flag mcs_have rtap_mcs_have_bw
        then (do b ← index field_bytes 1; done (has_flag b 0x01))
        else done false)
  done (record s { mcs_index = mcs_index; bandwidth = if wide then 40 else s.bandwidth })

pub read_field : ℕ → List ℕ → Walk → Run Walk
read_field field field_bytes s =
    if field == rtap_antenna
    then read_antenna field_bytes s
    else if field == rtap_dbm_antsignal
    then read_rssi field_bytes s
    else if field == rtap_dbm_antnoise
    then read_noise field_bytes s
    else if field == rtap_channel
    then (do w ← le_u32 field_bytes; done (record s { freq = bit_and w 0xffff % 2 ^ 16 }))
    else if field == rtap_flags
    then (do b ← index field_bytes 0; done (record s { rt_flags = b }))
    else if field == rtap_tx_flags
    then done (record s { self_injected = true })
    else if field == rtap_mcs
    then read_mcs field_bytes s
    else done s

-- A field that is present, behind the check of `ant_idx`: the `match` on its layout, and the rest of
-- the body.
pub visit_laid_out : List ℕ → ℕ → Walk → Option (ℕ × ℕ) → Run Flow
visit_laid_out pkt field s none = done (stop s)
visit_laid_out pkt field s (some (align, size)) =
    let cur_off = align_up s.cur_off align in
    if ltb (length pkt) (cur_off + size) then done bail else do
      field_bytes ← slice pkt cur_off (cur_off + size)
      s' ← read_field field field_bytes (record s { cur_off = cur_off })
      done (next (record s' { cur_off = s'.cur_off + size }))

pub visit_present : List ℕ → ℕ → Walk → Run Flow
visit_present pkt field s = visit_laid_out pkt field s (field_layout field)

-- The body of the `for` loop.
unfoldable pub visit_field : List ℕ → List ℕ → ℕ → Walk → Run Flow
visit_field pkt present_words field_index s = do
  w ← index present_words (field_index / 32)
  if not (has_flag w (2 ^ (field_index % 32)))
      then done (next s)
      else if leb 4 s.ant_idx
      then done (stop s)
      else visit_present pkt (field_index % 2 ^ 32) s

-- `for field_index in 0..max_field_bit`, with the rounds that are left.
unfoldable pub walk_fields : List ℕ → List ℕ → ℕ → ℕ → Walk → Run (Option Walk)
walk_fields pkt present_words zero field_index s = done (some s)
walk_fields pkt present_words (suc rounds) field_index s = do
  flow ← visit_field pkt present_words field_index s
  elim flow [
    | next s' ↦ walk_fields pkt present_words rounds (field_index + 1) s'
    | stop s' ↦ done (some s')
    | bail ↦ done none
  ]

unfoldable pub meta_of : ℕ → Walk → RadiotapMeta
meta_of radiotap_len s = record {
  rt_flags = s.rt_flags;
  self_injected = s.self_injected;
  freq = s.freq;
  antenna = s.antenna;
  rssi = s.rssi;
  noise = s.noise;
  ant_count = s.ant_idx % 2 ^ 8;
  mcs_index = s.mcs_index;
  bandwidth = s.bandwidth;
  radiotap_len = radiotap_len;
}

-- What follows the present words.
unfoldable pub read_args : List ℕ → ℕ → List ℕ → Run (Option RadiotapMeta)
read_args pkt radiotap_len present_words =
    let args_offset = 8 + 4 * (length present_words - 1) in
    if ltb (length pkt) args_offset then done none else do
      walked ← walk_fields pkt present_words (length present_words * 32) 0 (start_walk args_offset)
      done (Option.map (meta_of radiotap_len) walked)

abbrev pub or_none :
    Option (List ℕ) → (List ℕ → Run (Option RadiotapMeta)) → Run (Option RadiotapMeta)
or_none none f = done none
or_none (some words) f = f words

unfoldable pub radiotap_meta_from_packet : List ℕ → Run (Option RadiotapMeta)
radiotap_meta_from_packet pkt = if ltb (length pkt) 8 then done none else do
  version ← index pkt 0
  if not (version == 0) then done none else do
    two ← slice pkt 2 4
    radiotap_len ← le_u16 two
    if ltb (length pkt) radiotap_len then done none else do
      present_words ← read_present_words (length pkt) pkt 4 []
      or_none present_words (read_args pkt radiotap_len)
