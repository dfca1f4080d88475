-- ===== src/Radiotap/Reading/Gain/Field.antt =====
-- The `match` on a field of `radiotap_meta_from_packet`, against what the header says.
use native.Mathlib.Decide.{ℕ_discrete}
use meshinator.Prelude.{ℕ, ◌≡◌, Bool, List}
use meshinator.Run.{done}
use meshinator.Radiotap.{read_field}
use meshinator.Radiotap.Reading.{walk_with}
use meshinator.Radiotap.Reading.Gain.{Gains, HasField}
use meshinator.Radiotap.Reading.Gain.Arms.{
  read_rssi-done, read_noise-done, read_antenna-done, read_flags-done, read_tx_flags-done,
  read_channel-done, read_mcs-done, skipped-done,
}

module _ (pkt : List ℕ) (base : ℕ) where
  -- Reading the field `n` is what makes the difference.
  pub read_field-done :
      (n : ℕ) (read read' : ℕ → Bool) (off : ℕ) (bytes : List ℕ)
      → Gains read read' n
      → HasField pkt base n bytes
      → read_field n bytes (walk_with pkt base read off) ≡ done (walk_with pkt base read' off)
  unfolding read_field
  read_field-done n read read' off bytes g h = elim (ℕ_discrete n 11) [
    | yes e ↦ rw e (read_antenna-done pkt base read read' off bytes (rw e at g) (rw e at h))
    | no a ↦ elim (ℕ_discrete n 5) [
      | yes e ↦ rw e (read_rssi-done pkt base read read' off bytes (rw e at g) (rw e at h))
      | no b ↦ elim (ℕ_discrete n 6) [
        | yes e ↦ rw e (read_noise-done pkt base read read' off bytes (rw e at g) (rw e at h))
        | no c ↦ elim (ℕ_discrete n 3) [
          | yes e ↦ rw e (read_channel-done pkt base read read' off bytes (rw e at g) (rw e at h))
          | no d ↦ elim (ℕ_discrete n 1) [
            | yes e ↦ rw e (read_flags-done pkt base read read' off bytes (rw e at g) (rw e at h))
            | no k ↦ elim (ℕ_discrete n 15) [
              | yes e ↦ rw e (read_tx_flags-done pkt base read read' off bytes (rw e at g))
              | no l ↦ elim (ℕ_discrete n 19) [
                | yes e ↦ rw e (read_mcs-done pkt base read read' off bytes (rw e at g) (rw e at h))
                | no m ↦ skipped-done pkt base read read' off bytes n a b c d k l m g
              ]
            ]
          ]
        ]
      ]
    ]
  ]
