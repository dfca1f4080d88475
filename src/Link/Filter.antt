-- ===== src/Link/Filter.antt =====
-- The filter that src/rx.rs installs, on the frames of src/tx.rs.
-- The filter language is the capture library's; of its documented syntax the part is described that the
-- code uses: tests of some bytes of a frame, in network byte order, that all must hold.
use meshinator.Prelude.{
  ℕ, zero, suc, ◌+◌, ◌*◌, ◌/◌, ◌%◌, ◌^◌, ◌≡◌, ◌↔◌, List, [], ◌∷◌, ◌++◌, take, drop,
}
use meshinator.Prelude.Text.{codes, hex_digit}
use meshinator.Kernel.{Kernel}
use meshinator.Proto.{WfbTxConfig}
use meshinator.Rx.Open.{filter_exp}

-- `ether[off:len] == value`
pub record Test : Type 0 where
  pub off : ℕ
  pub len : ℕ
  pub value : ℕ

-- So many hexadecimal digits of a number.
abbrev hex_digits : ℕ → ℕ → List ℕ
hex_digits zero v = []
hex_digits (suc n) v = hex_digit (v / 16 ^ n % 16) ∷ hex_digits n v

-- The text of a test, with what stands on both sides of the comparison: an offset of two digits, and a
-- value of two digits a byte.
abbrev test_text : List ℕ → Test → List ℕ
test_text blank t =
    codes "ether[0x"
    ++ (hex_digits 2 t.off
        ++ (codes ":"
            ++ (hex_digit t.len
                ∷ (codes "]"
                    ++ (blank
                        ++ (codes "=="
                            ++ (blank ++ (codes "0x" ++ hex_digits (2 * t.len) t.value))))))))

-- What an expression means: the tests that a frame must meet. Blanks do not matter.
pub data Means : List ℕ → List Test → Type 0 where
  test_close : (t : Test) → Means (test_text [] t) (t ∷ [])
  test_apart : (t : Test) → Means (test_text (codes " ") t) (t ∷ [])
  conjunction :
      {a b : List ℕ} {ts us : List Test}
      → Means a ts
      → Means b us
      → Means (a ++ (codes " && " ++ b)) (ts ++ us)

-- A number in network byte order behind the digits of `acc`.
abbrev pub be_value : ℕ → List ℕ → ℕ
be_value acc [] = acc
be_value acc (b ∷ bs) = be_value (acc * 256 + b) bs

-- A frame meets the tests, its bytes counted from the 802.11 header on.
abbrev pub AreMet : List Test → List ℕ → Type 0
AreMet [] bytes = Unit {0}
AreMet (t ∷ ts) bytes = (be_value 0 (take t.len (drop t.off bytes)) ≡ t.value) × AreMet ts bytes

abbrev tests : ℕ → List Test
tests stream_id =
    record { off = 0x0a; len = 2; value = 0x5742 }
    ∷ record { off = 0x0c; len = 4; value = stream_id }
    ∷ []

-- A frame that was sent passes the filter of a receiver exactly if the streams are the same.
abbrev pub Filtered : WfbTxConfig → ℕ → List ℕ → Type 0
Filtered cfg stream_id on_air =
    (ts : List Test) × Means (filter_exp stream_id) ts
    × (AreMet ts (drop 13 on_air) ↔ (cfg.stream_id ≡ stream_id))
