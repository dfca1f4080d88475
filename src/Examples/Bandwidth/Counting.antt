-- ===== src/Examples/Bandwidth/Counting.antt =====
-- The counters of examples/bandwidth.rs: nothing that was counted is lost between the reports.
use native.Mathlib.Decide.{dec_lt}
use meshinator.Prelude.{
  ℕ, ◌+◌, ◌%◌, ◌^◌, ◌≤◌, ◌<◌, ◌≡◌, refl, false, Option, none, some, List, [], ◌∷◌, ◌++◌, leb-false,
  le→leb, ◌==◌, arith,
}
use meshinator.Examples.Bandwidth.{
  Role, Output, rate, totals, slept, Meter, new_meter, count, Tick, report, pace,
}

-- What the reports so far say, summed.
abbrev pub rate_bytes : List Output → ℕ
rate_bytes [] = 0
rate_bytes (rate prefix bytes packets dt ∷ out) = bytes + rate_bytes out
rate_bytes (totals prefix packets bytes ∷ out) = rate_bytes out
rate_bytes (slept us ∷ out) = rate_bytes out

abbrev pub rate_packets : List Output → ℕ
rate_packets [] = 0
rate_packets (rate prefix bytes packets dt ∷ out) = packets + rate_packets out
rate_packets (totals prefix packets bytes ∷ out) = rate_packets out
rate_packets (slept us ∷ out) = rate_packets out

rate_bytes-append : (a b : List Output) → rate_bytes (a ++ b) ≡ rate_bytes a + rate_bytes b
rate_bytes-append [] b = omega arith
rate_bytes-append (rate prefix bytes packets dt ∷ a) b = omega (arith, rate_bytes-append a b)
rate_bytes-append (totals prefix packets bytes ∷ a) b = rate_bytes-append a b
rate_bytes-append (slept us ∷ a) b = rate_bytes-append a b

rate_packets-append : (a b : List Output) → rate_packets (a ++ b) ≡ rate_packets a + rate_packets b
rate_packets-append [] b = omega arith
rate_packets-append (rate prefix bytes packets dt ∷ a) b = omega (arith, rate_packets-append a b)
rate_packets-append (totals prefix packets bytes ∷ a) b = rate_packets-append a b
rate_packets-append (slept us ∷ a) b = rate_packets-append a b

-- The totals are those of so many bytes and packets, and so are the reports with the interval that has
-- not been reported, all in 64 bits.
pub record HasCounted (bytes packets : ℕ) (m : Meter) : Type 0 where
  pub total_bytes : m.bytes_total ≡ bytes % 2 ^ 64
  pub total_packets : m.packets_total ≡ packets % 2 ^ 64
  pub reported_bytes : (rate_bytes m.output + m.bytes_interval) % 2 ^ 64 ≡ bytes % 2 ^ 64
  pub reported_packets : (rate_packets m.output + m.packets_interval) % 2 ^ 64 ≡ packets % 2 ^ 64

pub new_meter-HasCounted : HasCounted 0 0 new_meter
new_meter-HasCounted = record {
  total_bytes = refl;
  total_packets = refl;
  reported_bytes = refl;
  reported_packets = refl;
}

module _ (bytes packets : ℕ) (m : Meter) (c : HasCounted bytes packets m) where
  pub count-HasCounted : (n : ℕ) → HasCounted (bytes + n) (packets + 1) (count n m)
  count-HasCounted n = record {
    total_bytes = omega (arith, c.total_bytes);
    total_packets = omega (arith, c.total_packets);
    reported_bytes = omega (arith, c.reported_bytes);
    reported_packets = omega (arith, c.reported_packets);
  }

  -- A report prints the interval, if any time has passed, and starts a new one.
  pub report-HasCounted :
      (prefix : Role) (every : ℕ) (t : Tick)
      → 0 < every
      → t.elapsed ≤ t.dt
      → HasCounted bytes packets (report prefix every t m)
  unfolding report
  report-HasCounted prefix every t some_time later = elim (dec_lt t.elapsed every) [
    | yes early ↦ rw (leb-false every t.elapsed early) c
    | no due ↦
        let passed : (t.dt == 0) ≡ false = ground arith in
        rw (le→leb every t.elapsed (omega (arith, due)), passed)
          (record {
            total_bytes = c.total_bytes;
            total_packets = c.total_packets;
            reported_bytes =
                omega (arith, c.reported_bytes, rate_bytes-append m.output (lines prefix t));
            reported_packets =
                omega (arith, c.reported_packets, rate_packets-append m.output (lines prefix t));
          })
  ]
    where
      lines : Role → Tick → List Output
      lines prefix t =
          rate prefix m.bytes_interval m.packets_interval t.dt
          ∷ totals prefix m.packets_total m.bytes_total
          ∷ []

  pub pace-HasCounted : (pacing : Option ℕ) → HasCounted bytes packets (pace pacing m)
  pace-HasCounted none = c
  pace-HasCounted (some us) = record {
    total_bytes = c.total_bytes;
    total_packets = c.total_packets;
    reported_bytes = omega (arith, c.reported_bytes, rate_bytes-append m.output (slept us ∷ []));
    reported_packets =
        omega (arith, c.reported_packets, rate_packets-append m.output (slept us ∷ []));
  }
