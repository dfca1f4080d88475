-- ===== src/Proto/Tests.antt =====
-- The unit tests of src/proto.rs, and the theorems on the header at concrete inputs.
use meshinator.Prelude.{ℕ, ◌≡◌, refl, List, ◌∷◌, [], ◌++◌, take, replicate, arith}
use meshinator.Run.{done, ◌>>=◌, write, copy_range}
use meshinator.Proto.{WfbFrameHeader, ok, err, invalid_argument, hdr_too_small, encode, decode}
use meshinator.Proto.RoundTrip.{decode-encode, encode-decode}

abbrev hdr : WfbFrameHeader
hdr = record { version = 0; seq = 0x1234_5678; payload_len = 42; flags = 7 }

frame_hdr_bytes : encode hdr ≡ done (0 ∷ 0x12 ∷ 0x34 ∷ 0x56 ∷ 0x78 ∷ 0 ∷ 42 ∷ 7 ∷ [])
unfolding encode write copy_range
frame_hdr_bytes = refl

frame_hdr_decode_too_small :
    decode (replicate 3 0) ≡ done (err (invalid_argument (hdr_too_small 3)))
unfolding decode
frame_hdr_decode_too_small = refl

decode-encode_example :
    (encode hdr >>= λ bytes. decode (bytes ++ (1 ∷ 2 ∷ []))) ≡ done (ok (hdr, 8))
decode-encode_example = decode-encode hdr (1 ∷ 2 ∷ []) (record {
  version_fits = omega arith;
  seq_fits = omega arith;
  payload_len_fits = omega arith;
  flags_fits = omega arith;
})

abbrev nine_bytes : List ℕ
nine_bytes = 0 ∷ 1 ∷ 2 ∷ 3 ∷ 4 ∷ 5 ∷ 6 ∷ 255 ∷ 8 ∷ []

encode-decode_example :
    (h : WfbFrameHeader) × (decode nine_bytes ≡ done (ok (h, 8)))
    × (encode h ≡ done (take 8 nine_bytes))
encode-decode_example =
    encode-decode nine_bytes
      (
        omega arith,
        (
          omega arith,
          (
            omega arith,
            (
              omega arith,
              (omega arith, (omega arith, (omega arith, (omega arith, (omega arith, tt))))),
            ),
          ),
        ),
      )
      (omega arith)
