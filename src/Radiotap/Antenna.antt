-- ===== src/Radiotap/Antenna.antt =====
-- How much of the four antenna slots `radiotap_meta_from_packet` of src/rx.rs fills.
use meshinator.Prelude.{
  ℕ, ◌+◌, ◌%◌, ◌^◌, ◌≤◌, ◌<◌, ◌≡◌, refl, List, [], ◌∷◌, Option, none, some, length, length-set,
  get_or, set, drop, replicate, ltb, ◌==◌, ==_iff, arith,
}
use meshinator.Prelude.Int.{ℤ, as_i8, i8_min, i8_max}
use meshinator.Run.{Returns}
use meshinator.Run.Laws.{Returns-if, Returns-bind, Returns-weaken, index-done, write-done}
use meshinator.Radiotap.{
  RadiotapMeta, Walk, read_antenna, read_rssi, read_noise, read_mcs, read_field, meta_of,
  radiotap_meta_from_packet,
}
use meshinator.Radiotap.Walking.{OptionIs, IsLayout, le_u32-Ends, Parsed, radiotap_meta_inv}
use meshinator.Radiotap.Layout.{has_flag, rtap_mcs_have_mcs, rtap_mcs_have_bw}

drop-set_zero {ℓ} : {A : Type ℓ} (xs : List A) (v : A) → drop 1 (set xs 0 v) ≡ drop 1 xs
drop-set_zero [] v = refl
drop-set_zero (x ∷ xs) v = refl

-- Before round `i`: no antenna is counted up to `RTAP_ANTENNA`, one at most behind it, and the three
-- slots behind the first are as they were at the start.
record OneSlot (i : ℕ) (s : Walk) : Type 0 where
  early : i ≤ 11 → s.ant_idx ≡ 0
  one : s.ant_idx ≤ 1
  antenna_slots : length s.antenna ≡ 4
  rssi_slots : length s.rssi ≡ 4
  noise_slots : length s.noise ≡ 4
  antenna_unused : drop 1 s.antenna ≡ replicate 3 0xff
  rssi_unused : drop 1 s.rssi ≡ replicate 3 i8_min
  noise_unused : drop 1 s.noise ≡ replicate 3 i8_max

module _ (i : ℕ) (bytes : List ℕ) (s : Walk) (v : OneSlot i s) where
  other :
      (t : Walk)
      → t.ant_idx ≡ s.ant_idx
      → t.antenna ≡ s.antenna
      → t.rssi ≡ s.rssi
      → t.noise ≡ s.noise
      → OneSlot (i + 1) t
  other t a b c d = record {
    early = λ h. rw a (v.early (omega arith));
    one = rw a v.one;
    antenna_slots = rw b v.antenna_slots;
    rssi_slots = rw c v.rssi_slots;
    noise_slots = rw d v.noise_slots;
    antenna_unused = rw b v.antenna_unused;
    rssi_unused = rw c v.rssi_unused;
    noise_unused = rw d v.noise_unused;
  }

  read_antenna-OneSlot :
      1 ≤ length bytes → i ≡ 11 → Returns (OneSlot (i + 1)) (read_antenna bytes s)
  unfolding read_antenna
  read_antenna-OneSlot h e =
      let b : ℕ = get_or bytes 0 0 in
      let first : s.ant_idx ≡ 0 = v.early (omega arith) in
      let room : s.ant_idx < length s.antenna = omega (arith, v.antenna_slots) in
      Returns-if _ (ltb s.ant_idx 4) _ _
        (λ t. rw (index-done bytes 0 0 h) (
          rw (write-done s.antenna s.ant_idx b room) (record {
            early = λ k. absurd (omega arith);
            one = omega arith;
            antenna_slots = omega (arith, length-set {0} s.antenna s.ant_idx b, v.antenna_slots);
            rssi_slots = v.rssi_slots;
            noise_slots = v.noise_slots;
            antenna_unused = rw (first, drop-set_zero) v.antenna_unused;
            rssi_unused = v.rssi_unused;
            noise_unused = v.noise_unused;
          })))
        (λ f. absurd (ground arith))

  read_rssi-OneSlot : 1 ≤ length bytes → i ≡ 5 → Returns (OneSlot (i + 1)) (read_rssi bytes s)
  unfolding read_rssi
  read_rssi-OneSlot h e =
      let b : ℤ = as_i8 (get_or bytes 0 0) in
      let first : s.ant_idx ≡ 0 = v.early (omega arith) in
      let room : s.ant_idx < length s.rssi = omega (arith, v.rssi_slots) in
      Returns-if _ (ltb s.ant_idx 4) _ _
        (λ t. rw (index-done bytes 0 0 h) (
          rw (write-done s.rssi s.ant_idx b room) (record {
            early = λ k. first;
            one = v.one;
            antenna_slots = v.antenna_slots;
            rssi_slots = omega (arith, length-set {0} s.rssi s.ant_idx b, v.rssi_slots);
            noise_slots = v.noise_slots;
            antenna_unused = v.antenna_unused;
            rssi_unused = rw (first, drop-set_zero) v.rssi_unused;
            noise_unused = v.noise_unused;
          })))
        (λ f. absurd (ground arith))

  read_noise-OneSlot : 1 ≤ length bytes → i ≡ 6 → Returns (OneSlot (i + 1)) (read_noise bytes s)
  unfolding read_noise
  read_noise-OneSlot h e =
      let b : ℤ = as_i8 (get_or bytes 0 0) in
      let first : s.ant_idx ≡ 0 = v.early (omega arith) in
      let room : s.ant_idx < length s.noise = omega (arith, v.noise_slots) in
      Returns-if _ (ltb s.ant_idx 4) _ _
        (λ t. rw (index-done bytes 0 0 h) (
          rw (write-done s.noise s.ant_idx b room) (record {
            early = λ k. first;
            one = v.one;
            antenna_slots = v.antenna_slots;
            rssi_slots = v.rssi_slots;
            noise_slots = omega (arith, length-set {0} s.noise s.ant_idx b, v.noise_slots);
            antenna_unused = v.antenna_unused;
            rssi_unused = v.rssi_unused;
            noise_unused = rw (first, drop-set_zero) v.noise_unused;
          })))
        (λ f. absurd (ground arith))

  read_mcs-OneSlot : 3 ≤ length bytes → Returns (OneSlot (i + 1)) (read_mcs bytes s)
  unfolding read_mcs
  read_mcs-OneSlot h =
      rw
        (
          index-done bytes 0 0 (omega arith),
          index-done bytes 1 0 (omega arith),
          index-done bytes 2 0 (omega arith),
        )
        (Returns-bind (λ _. Unit {0}) _ _ _
          (Returns-if _ (has_flag (get_or bytes 0 0) rtap_mcs_have_mcs) _ _ (λ t. tt) (λ f. tt))
          (λ mcs_index _.
            Returns-bind (λ _. Unit {0}) _ _ _
              (Returns-if _ (has_flag (get_or bytes 0 0) rtap_mcs_have_bw) _ _ (λ t. tt) (λ f. tt))
              (λ wide _. other _ refl refl refl refl)))

  read_field-OneSlot :
      (align size : ℕ)
      → IsLayout i align size
      → length bytes ≡ size
      → Returns (OneSlot (i + 1)) (read_field i bytes s)
  unfolding read_field
  read_field-OneSlot align size layout e =
      let one_byte : 1 ≤ length bytes = omega (arith, layout.some_byte) in
      Returns-if _ (i == 11) _ _ (λ t. read_antenna-OneSlot one_byte ((==_iff i 11).0 t))
        (λ _.
          Returns-if _ (i == 5) _ _ (λ t. read_rssi-OneSlot one_byte ((==_iff i 5).0 t))
            (λ _.
              Returns-if _ (i == 6) _ _ (λ t. read_noise-OneSlot one_byte ((==_iff i 6).0 t))
                (λ _.
                  Returns-if _ (i == 3) _ _
                    (λ t.
                      Returns-bind (λ _. Unit {0}) _ _ _
                        (le_u32-Ends bytes (rw e (layout.channel_bytes ((==_iff i 3).0 t))))
                        (λ w _. other _ refl refl refl refl))
                    (λ _.
                      Returns-if _ (i == 1) _ _
                        (λ t. rw (index-done bytes 0 0 one_byte) (other _ refl refl refl refl))
                        (λ _.
                          Returns-if _ (i == 15) _ _ (λ t. other _ refl refl refl refl)
                            (λ _.
                              Returns-if _ (i == 19) _ _
                                (λ t.
                                  read_mcs-OneSlot (rw e (layout.mcs_bytes ((==_iff i 19).0 t))))
                                (λ _. other s refl refl refl refl)))))))

-- What a meta says of the antennas.
pub record AtMostOneAntenna (m : RadiotapMeta) : Type 0 where
  pub one : m.ant_count ≤ 1
  pub antenna_unused : drop 1 m.antenna ≡ replicate 3 0xff
  pub rssi_unused : drop 1 m.rssi ≡ replicate 3 i8_min
  pub noise_unused : drop 1 m.noise ≡ replicate 3 i8_max

-- Of a packet up to the capture's 65535 bytes, a meta never counts more than one antenna, and the
-- second to fourth slots of the three arrays always hold their defaults.
pub radiotap_meta-AtMostOneAntenna :
    (pkt : List ℕ)
    → length pkt ≤ 65535
    → Returns (OptionIs AtMostOneAntenna) (radiotap_meta_from_packet pkt)
unfolding meta_of
radiotap_meta-AtMostOneAntenna pkt h =
    Returns-weaken (OptionIs (Parsed pkt OneSlot)) _ _
      (radiotap_meta_inv pkt OneSlot (λ i s v. other i [] s v s refl refl refl refl)
        (λ i off s v. record {
          early = v.early;
          one = v.one;
          antenna_slots = v.antenna_slots;
          rssi_slots = v.rssi_slots;
          noise_slots = v.noise_slots;
          antenna_unused = v.antenna_unused;
          rssi_unused = v.rssi_unused;
          noise_unused = v.noise_unused;
        })
        (λ i align size bytes s b layout l v.
          let e : i % 2 ^ 32 ≡ i = omega arith in
          rw e (read_field-OneSlot i bytes s v align size (rw e at layout) l))
        (λ off. record {
          early = λ _. refl;
          one = omega arith;
          antenna_slots = refl;
          rssi_slots = refl;
          noise_slots = refl;
          antenna_unused = refl;
          rssi_unused = refl;
          noise_unused = refl;
        }))
      result
  where
    result :
        (o : Option RadiotapMeta) → OptionIs (Parsed pkt OneSlot) o → OptionIs AtMostOneAntenna o
    result none q = tt
    result (some m) q = rw q.is_meta (record {
      one = omega (arith, q.holds.one);
      antenna_unused = q.holds.antenna_unused;
      rssi_unused = q.holds.rssi_unused;
      noise_unused = q.holds.noise_unused;
    })
