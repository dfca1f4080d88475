-- ===== src/Rx/Open/Fresh.antt =====
-- The receiver that `WfbRx::open` of src/rx.rs makes, and its filter.
use meshinator.Prelude.{
  sym, ap, ◌∙◌, ℕ, ◌*◌, ◌^◌, ◌≤◌, ◌<◌, ◌≡◌, refl, ◌≢◌, inl, inr, [], length, drop, length-replicate,
  get_or-replicate, ◌==◌, arith, Bool-cases,
}
use meshinator.Prelude.Int.{ℤ}
use meshinator.Prelude.Text.{hex8-injective}
use meshinator.Proto.{WfbRxConfig, Result, ok, err, default_meta, compute_max_payload}
use meshinator.Rx.State.{WfbRx}
use meshinator.Rx.Ring.Valid.{IsValid}
use meshinator.Rx.Ring.Fifo.{contents}
use meshinator.Rx.Open.{PcapLib, ring_size_of, filter_exp, fresh, open_capture, open_rx, ◌>>=◌}

ring_size_of_bounds : (n : ℕ) → (2 ≤ ring_size_of n) × (ring_size_of n ≤ 128)
unfolding ring_size_of
ring_size_of_bounds n = ground arith

fresh-IsValid : (cfg : WfbRxConfig) (fd : ℤ) → IsValid (fresh cfg fd)
unfolding fresh
fresh-IsValid cfg fd =
    let size : ℕ = ring_size_of cfg.ring_size in
    record {
      size_pos = omega (arith, ring_size_of_bounds cfg.ring_size);
      count_le = omega arith;
      head_lt = omega (arith, ring_size_of_bounds cfg.ring_size);
      tail_eq = omega (arith, ring_size_of_bounds cfg.ring_size);
      lens_slots = length-replicate size 0;
      meta_slots = length-replicate size default_meta;
      store_bytes = length-replicate (size * compute_max_payload) 0;
      lens_fit = λ i. rw (get_or-replicate {A = ℕ} size i 0) (omega arith);
    }

-- What a client gets of an open that succeeds.
pub record Opened (cfg : WfbRxConfig) (rx : WfbRx) : Type 0 where
  pub valid : IsValid rx
  pub empty : contents rx ≡ []
  pub slots : (2 ≤ rx.ring_size) × (rx.ring_size ≤ 128)
  pub asked : 2 ≤ cfg.ring_size → cfg.ring_size ≤ 128 → rx.ring_size ≡ cfg.ring_size
  pub at_most : 128 ≤ cfg.ring_size → rx.ring_size ≡ 128
  pub by_default : cfg.ring_size ≡ 0 → rx.ring_size ≡ 16
  pub max_payload : rx.max_payload ≡ 4013
  pub ignore : rx.ignore_self_injected ≡ cfg.ignore_self_injected
  pub named : cfg.iface ≢ []
  pub stream : cfg.stream_id ≢ 0

fresh-Opened :
    (cfg : WfbRxConfig) (fd : ℤ) → cfg.iface ≢ [] → cfg.stream_id ≢ 0 → Opened cfg (fresh cfg fd)
unfolding fresh ring_size_of
fresh-Opened cfg fd n s = record {
  valid = fresh-IsValid cfg fd;
  empty = refl;
  slots = ring_size_of_bounds cfg.ring_size;
  asked = λ a b. ground arith;
  at_most = λ a. ground arith;
  by_default = λ a. ground arith;
  max_payload = refl;
  ignore = refl;
  named = n;
  stream = s;
}

bind-eq-ok :
    {A B : Type 0} (m : Result A) (f : A → Result B) (b : B)
    → (m >>= f) ≡ ok b
    → (a : A) × (m ≡ ok a) × (f a ≡ ok b)
bind-eq-ok (ok a) f b e = (a, refl, e)
bind-eq-ok (err x) f b e = cc

module _ (lib : PcapLib) where
  open lib use {Active, as_raw_fd}

  -- `open` succeeds only with a named interface and a stream other than 0, and then the receiver is
  -- valid, empty and as configured: between 2 and 128 slots, those asked for if they are in that
  -- range, and 16 for 0.
  pub open_rx-Opened :
      (cfg : WfbRxConfig) (rx : WfbRx) (cap : Active)
      → open_rx lib cfg ≡ ok (rx, cap)
      → Opened cfg rx
  unfolding open_rx
  open_rx-Opened cfg rx cap e = elim (Bool-cases (length cfg.iface == 0)) [
    | inl none_given ↦ cc (rw none_given at e)
    | inr given ↦ elim (Bool-cases (cfg.stream_id == 0)) [
      | inl zero_id ↦ cc (rw (given, zero_id) at e)
      | inr other_id ↦
          let opened =
            bind-eq-ok (open_capture lib cfg) (λ c. ok (fresh cfg (as_raw_fd c), c)) (rx, cap)
              (rw (given, other_id) at e) in
          let made : fresh cfg (as_raw_fd opened.0) ≡ rx = cc opened.2 in
          rw (← made) (
            fresh-Opened cfg (as_raw_fd opened.0) (λ p. absurd (ground (arith, ap length p)))
              (λ p. absurd (ground arith)))
    ]
  ]

module _ (lib : PcapLib) where
  open lib use {Active, as_raw_fd}

  -- The receiver keeps the capture's own descriptor.
  pub open_rx-fd :
      (cfg : WfbRxConfig) (rx : WfbRx) (cap : Active)
      → open_rx lib cfg ≡ ok (rx, cap)
      → rx.fd ≡ as_raw_fd cap
  unfolding open_rx fresh
  open_rx-fd cfg rx cap e = elim (Bool-cases (length cfg.iface == 0)) [
    | inl none_given ↦ cc (rw none_given at e)
    | inr given ↦ elim (Bool-cases (cfg.stream_id == 0)) [
      | inl zero_id ↦ cc (rw (given, zero_id) at e)
      | inr other_id ↦
          let opened =
            bind-eq-ok (open_capture lib cfg) (λ c. ok (fresh cfg (as_raw_fd c), c)) (rx, cap)
              (rw (given, other_id) at e) in
          let made : fresh cfg (as_raw_fd opened.0) ≡ rx = cc opened.2 in
          let kept : opened.0 ≡ cap = cc opened.2 in
          sym (ap (λ (r : WfbRx). r.fd) made) ∙ ap as_raw_fd kept
    ]
  ]

-- Receivers of different 32-bit streams install different filters.
filter_exp-injective : (a b : ℕ) → a < 2 ^ 32 → b < 2 ^ 32 → filter_exp a ≡ filter_exp b → a ≡ b
unfolding filter_exp
filter_exp-injective a b ha hb e = hex8-injective a b ha hb (ap (drop 44) e)
