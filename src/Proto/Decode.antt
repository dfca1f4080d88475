-- ===== src/Proto/Decode.antt =====
-- What `WfbFrameHeader::decode` returns, field by field.
use meshinator.Prelude.{
  ℕ, ◌≤◌, ◌≡◌, refl, List, length, get_or, take, get_or-take, ltb-false, arith,
}
use meshinator.Run.{done}
use meshinator.Run.Laws.{index-done}
use meshinator.Proto.{WfbFrameHeader, ok, decode, from_be_u32, from_be_u16}

-- The header that stands at the front of `buf`, in network byte order.
abbrev pub header_at : List ℕ → WfbFrameHeader
header_at buf = record {
  version = get_or buf 0 0;
  seq = from_be_u32 (get_or buf 1 0) (get_or buf 2 0) (get_or buf 3 0) (get_or buf 4 0);
  payload_len = from_be_u16 (get_or buf 5 0) (get_or buf 6 0);
  flags = get_or buf 7 0;
}

pub decode_lem : (buf : List ℕ) → 8 ≤ length buf → decode buf ≡ done (ok (header_at buf, 8))
unfolding decode
decode_lem buf h =
    rw
      (
        ltb-false (length buf) 8 h,
        index-done buf 0 0 (omega arith),
        index-done buf 1 0 (omega arith),
        index-done buf 2 0 (omega arith),
        index-done buf 3 0 (omega arith),
        index-done buf 4 0 (omega arith),
        index-done buf 5 0 (omega arith),
        index-done buf 6 0 (omega arith),
        index-done buf 7 0 (omega arith),
      )
      refl

pub header_at-take : (buf : List ℕ) → header_at (take 8 buf) ≡ header_at buf
header_at-take buf = simp (
  get_or-take 8 0 buf 0 (omega arith),
  get_or-take 8 1 buf 0 (omega arith),
  get_or-take 8 2 buf 0 (omega arith),
  get_or-take 8 3 buf 0 (omega arith),
  get_or-take 8 4 buf 0 (omega arith),
  get_or-take 8 5 buf 0 (omega arith),
  get_or-take 8 6 buf 0 (omega arith),
  get_or-take 8 7 buf 0 (omega arith),
)
