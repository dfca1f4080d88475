-- ===== src/Rx/Recv/Timeouts.antt =====
-- How long `recv` lets `poll` wait.
use meshinator.Prelude.{ℕ, ◌+◌, ◌-◌, ◌*◌, ◌/◌, ◌^◌, ◌≤◌, ◌<◌, ◌≡◌, ◌⊎◌, arith}
use meshinator.Rx.Recv.{i32_max, remaining_ms}

-- Before the timeout, the wait in milliseconds fits an `i32`, and does not last beyond the timeout, both in nanoseconds.
-- It is also less than a millisecond short of it, unless it is the longest that `poll` can be asked for.
pub remaining_ms_lem :
    (timeout elapsed : ℕ)
    → elapsed ≤ timeout
    → (remaining_ms timeout elapsed < 2 ^ 31)
      × (elapsed + remaining_ms timeout elapsed * 1_000_000 ≤ timeout)
      × ((remaining_ms timeout elapsed ≡ i32_max)
          ⊎ (timeout < elapsed + (remaining_ms timeout elapsed + 1) * 1_000_000))
unfolding remaining_ms
remaining_ms_lem timeout elapsed h =
    let left : ℕ = (timeout - elapsed) / 1_000_000 in (omega arith, omega arith, ground arith)
