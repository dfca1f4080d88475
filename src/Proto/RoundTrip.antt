-- ===== src/Proto/RoundTrip.antt =====
-- `WfbFrameHeader::encode` and `decode` of src/proto.rs, one after the other.
use meshinator.Prelude.{
  ℕ, ◌^◌, ◌≤◌, ◌<◌, ◌≡◌, refl, arith, List, [], ◌∷◌, ◌++◌, length, take, IsBytes, ltb-false, lt→ltb,
}
use meshinator.Run.{done, ◌>>=◌, index, write, copy_range}
use meshinator.Proto.{
  WfbFrameHeader, ok, err, invalid_argument, hdr_too_small, encode, decode, be_bytes_u32,
  be_bytes_u16, from_be_u32, from_be_u16,
}
use meshinator.Proto.Bytes.{from_be_u32_lem, from_be_u16_lem, be_bytes_u32_lem, be_bytes_u16_lem}

-- The fields fit the widths of the struct.
pub record FitsHeader (h : WfbFrameHeader) : Type 0 where
  pub version_fits : h.version < 2 ^ 8
  pub seq_fits : h.seq < 2 ^ 32
  pub payload_len_fits : h.payload_len < 2 ^ 16
  pub flags_fits : h.flags < 2 ^ 8

pub encode_lem :
    (h : WfbFrameHeader)
    → encode h
      ≡ done (h.version ∷ be_bytes_u32 h.seq ++ (be_bytes_u16 h.payload_len ++ (h.flags ∷ [])))
unfolding encode write copy_range
encode_lem h = refl

-- A header whose fields fit their widths, encoded and followed by any bytes, decodes to itself, and
-- eight bytes are consumed.
pub decode-encode :
    (h : WfbFrameHeader) (rest : List ℕ)
    → FitsHeader h
    → (encode h >>= λ bytes. decode (bytes ++ rest)) ≡ done (ok (h, 8))
unfolding encode write copy_range decode index
decode-encode h rest fits = rw (
  ltb-false
      (length (h.version ∷ be_bytes_u32 h.seq ++ (be_bytes_u16 h.payload_len ++ (h.flags ∷ rest))))
      8 (omega arith),
  from_be_u32_lem h.seq fits.seq_fits,
  from_be_u16_lem h.payload_len fits.payload_len_fits,
)

-- Less than eight bytes are refused.
pub decode_short :
    (buf : List ℕ)
    → length buf < 8
    → decode buf ≡ done (err (invalid_argument (hdr_too_small (length buf))))
unfolding decode
decode_short buf h = rw (lt→ltb (length buf) 8 h)

-- Every list of eight or more bytes decodes, consuming eight, and encoding the result gives those
-- eight bytes back.
pub encode-decode :
    (buf : List ℕ)
    → IsBytes buf
    → 8 ≤ length buf
    → (h : WfbFrameHeader) × (decode buf ≡ done (ok (h, 8))) × (encode h ≡ done (take 8 buf))
unfolding decode index encode write copy_range
encode-decode [] bytes h = absurd (omega arith)
encode-decode (a ∷ []) bytes h = absurd (omega arith)
encode-decode (a ∷ b ∷ []) bytes h = absurd (omega arith)
encode-decode (a ∷ b ∷ c ∷ []) bytes h = absurd (omega arith)
encode-decode (a ∷ b ∷ c ∷ d ∷ []) bytes h = absurd (omega arith)
encode-decode (a ∷ b ∷ c ∷ d ∷ e ∷ []) bytes h = absurd (omega arith)
encode-decode (a ∷ b ∷ c ∷ d ∷ e ∷ f ∷ []) bytes h = absurd (omega arith)
encode-decode (a ∷ b ∷ c ∷ d ∷ e ∷ f ∷ g ∷ []) bytes h = absurd (omega arith)
encode-decode (v ∷ b ∷ c ∷ d ∷ e ∷ f ∷ g ∷ w ∷ rest) bytes h = (
  record { version = v; seq = from_be_u32 b c d e; payload_len = from_be_u16 f g; flags = w },
  rw (ltb-false (length (v ∷ b ∷ c ∷ d ∷ e ∷ f ∷ g ∷ w ∷ rest)) 8 h),
  ground (arith, be_bytes_u32_lem b c d e, be_bytes_u16_lem f g),
)
