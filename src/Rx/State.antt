-- ===== src/Rx/State.antt =====
-- src/rx.rs, `struct WfbRx`. The capture itself is outside: what it delivers is an argument of the
-- operations.
use meshinator.Prelude.{ℕ, Bool, List}
use meshinator.Prelude.Int.{ℤ}
use meshinator.Proto.{WfbRxMeta}

pub record WfbRx : Type 0 where
  pub iface : List ℕ
  pub ignore_self_injected : Bool
  pub max_payload : ℕ
  pub ring_size : ℕ
  pub ring_count : ℕ
  pub ring_head : ℕ
  pub ring_tail : ℕ
  pub ring_payload_store : List ℕ
  pub ring_payload_len : List ℕ
  pub ring_meta : List WfbRxMeta
  pub fd : ℤ
