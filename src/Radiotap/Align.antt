-- ===== src/Radiotap/Align.antt =====
-- `align_up` at the alignments that `field_layout` gives.
use meshinator.Prelude.{ℕ, ◌+◌, ◌%◌, ◌^◌, ◌≤◌, ◌<◌, ◌≡◌, ◌⊎◌, inl, inr, some, arith}
use meshinator.Prelude.Bits.{bit_and_not_one, bit_and_not_three, bit_and_not_seven}
use meshinator.Radiotap.Layout.{align_up, field_layout}

-- The least multiple of `align` that is at least `v`.
record IsAligned (align v r : ℕ) : Type 0 where
  multiple : r % align ≡ 0
  above : v ≤ r
  least : r < v + align

field_layout-align :
    (field align size : ℕ)
    → field_layout field ≡ some (align, size)
    → (align ≡ 1) ⊎ (align ≡ 2) ⊎ (align ≡ 4) ⊎ (align ≡ 8)
unfolding field_layout
field_layout-align field align size e = ground arith

align_up_one : (v : ℕ) → v < 2 ^ 63 → IsAligned 1 v (align_up v 1)
unfolding align_up
align_up_one v h = omega arith

align_up_two : (v : ℕ) → v < 2 ^ 63 → IsAligned 2 v (align_up v 2)
unfolding align_up
align_up_two v h = omega (arith, bit_and_not_one ((v + 1) % 2 ^ 64) (omega arith))

align_up_four : (v : ℕ) → v < 2 ^ 63 → IsAligned 4 v (align_up v 4)
unfolding align_up
align_up_four v h = omega (arith, bit_and_not_three ((v + 3) % 2 ^ 64) (omega arith))

align_up_eight : (v : ℕ) → v < 2 ^ 63 → IsAligned 8 v (align_up v 8)
unfolding align_up
align_up_eight v h = omega (arith, bit_and_not_seven ((v + 7) % 2 ^ 64) (omega arith))

-- For every field of the table and an offset below 2 ^ 63, `align_up` gives the least multiple of
-- the field's alignment that is not below the offset.
align_up-IsAligned :
    (field align size v : ℕ)
    → field_layout field ≡ some (align, size)
    → v < 2 ^ 63
    → IsAligned align v (align_up v align)
align_up-IsAligned field align size v e h = elim (field_layout-align field align size e) [
  | inl a ↦ rw a (align_up_one v h)
  | inr rest ↦ elim rest [
    | inl a ↦ rw a (align_up_two v h)
    | inr rest' ↦ elim rest' [
      | inl a ↦ rw a (align_up_four v h)
      | inr a ↦ rw a (align_up_eight v h)
    ]
  ]
]
