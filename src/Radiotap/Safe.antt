-- ===== src/Radiotap/Safe.antt =====
-- `radiotap_meta_from_packet` of src/rx.rs on arbitrary bytes: its indices, ranges and loops.
use meshinator.Prelude.{
  ℕ, ◌%◌, ◌^◌, ◌≤◌, ◌<◌, ◌≡◌, List, length, length-set, get_or, ltb, ◌==◌, ==_iff, arith,
}
use meshinator.Prelude.Int.{as_i8}
use meshinator.Run.{Returns}
use meshinator.Run.Laws.{Returns-if, Returns-bind, index-done, write-done}
use meshinator.Radiotap.{
  Walk, read_antenna, read_rssi, read_noise, read_mcs, read_field, radiotap_meta_from_packet,
}
use meshinator.Radiotap.Walking.{OptionIs, IsLayout, le_u32-Ends, Parsed, radiotap_meta_inv}
use meshinator.Radiotap.Layout.{has_flag, rtap_mcs_have_mcs, rtap_mcs_have_bw}

-- The three arrays keep their four slots.
pub record HasSlots (s : Walk) : Type 0 where
  pub antenna_slots : length s.antenna ≡ 4
  pub rssi_slots : length s.rssi ≡ 4
  pub noise_slots : length s.noise ≡ 4

read_antenna-HasSlots :
    (bytes : List ℕ) (s : Walk)
    → 1 ≤ length bytes
    → HasSlots s
    → Returns HasSlots (read_antenna bytes s)
unfolding read_antenna
read_antenna-HasSlots bytes s h v =
    Returns-if _ (ltb s.ant_idx 4) _ _
      (λ t.
        let room : s.ant_idx < length s.antenna = ground arith in
        rw (index-done bytes 0 0 h) (
          rw (write-done s.antenna s.ant_idx _ room)
            (omega (arith, length-set {0} s.antenna s.ant_idx (get_or bytes 0 0)))))
      (λ f. v)

read_rssi-HasSlots :
    (bytes : List ℕ) (s : Walk)
    → 1 ≤ length bytes
    → HasSlots s
    → Returns HasSlots (read_rssi bytes s)
unfolding read_rssi
read_rssi-HasSlots bytes s h v =
    Returns-if _ (ltb s.ant_idx 4) _ _
      (λ t.
        let room : s.ant_idx < length s.rssi = ground arith in
        rw (index-done bytes 0 0 h) (
          rw (write-done s.rssi s.ant_idx _ room)
            (omega (arith, length-set {0} s.rssi s.ant_idx (as_i8 (get_or bytes 0 0))))))
      (λ f. v)

read_noise-HasSlots :
    (bytes : List ℕ) (s : Walk)
    → 1 ≤ length bytes
    → HasSlots s
    → Returns HasSlots (read_noise bytes s)
unfolding read_noise
read_noise-HasSlots bytes s h v =
    Returns-if _ (ltb s.ant_idx 4) _ _
      (λ t.
        let room : s.ant_idx < length s.noise = ground arith in
        rw (index-done bytes 0 0 h) (
          rw (write-done s.noise s.ant_idx _ room)
            (omega (arith, length-set {0} s.noise s.ant_idx (as_i8 (get_or bytes 0 0))))))
      (λ f. v)

read_mcs-HasSlots :
    (bytes : List ℕ) (s : Walk)
    → 3 ≤ length bytes
    → HasSlots s
    → Returns HasSlots (read_mcs bytes s)
unfolding read_mcs
read_mcs-HasSlots bytes s h v =
    rw
      (
        index-done bytes 0 0 (omega arith),
        index-done bytes 1 0 (omega arith),
        index-done bytes 2 0 (omega arith),
      )
      (Returns-bind (λ _. Unit {0}) HasSlots _ _
        (Returns-if _ (has_flag (get_or bytes 0 0) rtap_mcs_have_mcs) _ _ (λ t. tt) (λ f. tt))
        (λ mcs_index _.
          Returns-bind (λ _. Unit {0}) HasSlots _ _
            (Returns-if _ (has_flag (get_or bytes 0 0) rtap_mcs_have_bw) _ _ (λ t. tt) (λ f. tt))
            (λ wide _. omega arith)))

read_field-HasSlots :
    (field align size : ℕ) (bytes : List ℕ) (s : Walk)
    → IsLayout field align size
    → length bytes ≡ size
    → HasSlots s
    → Returns HasSlots (read_field field bytes s)
unfolding read_field
read_field-HasSlots field align size bytes s layout e v =
    let one : 1 ≤ length bytes = omega arith in
    Returns-if _ (field == 11) _ _ (λ t. read_antenna-HasSlots bytes s one v)
      (λ _.
        Returns-if _ (field == 5) _ _ (λ t. read_rssi-HasSlots bytes s one v)
          (λ _.
            Returns-if _ (field == 6) _ _ (λ t. read_noise-HasSlots bytes s one v)
              (λ _.
                Returns-if _ (field == 3) _ _
                  (λ t.
                    Returns-bind (λ _. Unit {0}) _ _ _
                      (le_u32-Ends bytes (rw e (layout.channel_bytes ((==_iff field 3).0 t))))
                      (λ w _. omega arith))
                  (λ _.
                    Returns-if _ (field == 1) _ _ (λ t. rw (index-done bytes 0 0 one) (omega arith))
                      (λ _.
                        Returns-if _ (field == 15) _ _ (λ t. omega arith)
                          (λ _.
                            Returns-if _ (field == 19) _ _
                              (λ t.
                                read_mcs-HasSlots bytes s
                                  (rw e (layout.mcs_bytes ((==_iff field 19).0 t))) v)
                              (λ _. v)))))))

-- Whatever bytes the capture hands over, the radiotap walk returns: no index and no range of it is
-- out of bounds, and both loops end. A meta that it returns has four slots in each array, and its
-- `radiotap_len` is within the packet.
pub radiotap_meta-Returns :
    (pkt : List ℕ) → Returns (OptionIs (Parsed pkt (λ i. HasSlots))) (radiotap_meta_from_packet pkt)
radiotap_meta-Returns pkt =
    radiotap_meta_inv pkt (λ i. HasSlots) (λ i s v. v) (λ i off s v. omega arith)
      (λ i align size bytes s b layout l v.
        read_field-HasSlots (i % 2 ^ 32) align size bytes s layout l v)
      (λ off. omega arith)
