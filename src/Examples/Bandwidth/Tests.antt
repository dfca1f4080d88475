-- ===== src/Examples/Bandwidth/Tests.antt =====
-- The two roles of examples/bandwidth.rs at concrete inputs.
use meshinator.Prelude.{◌≡◌, refl, arith, inl, inr, List, [], ◌∷◌}
use meshinator.Prelude.Int.{pos}
use meshinator.Run.{Returns}
use meshinator.Proto.{ok}
use meshinator.Rx.Recv.{Round, no_event, ready}
use meshinator.Rx.Open.{open_rx, open_capture, fresh}
use meshinator.Examples.Tests.{kernel, willing, both_packets}
use meshinator.Examples.Lines.{on_air}
use meshinator.Examples.Bandwidth.{Args, Turn, Tick, tx_role, data_frames, rx_cfg, run_tx, run_rx}
use meshinator.Examples.Bandwidth.Sending.Whole.{
  AllCounted, run_tx-AllCounted, refused, run_tx_too_large,
}
use meshinator.Examples.Bandwidth.Receiving.{AreUsable}
use meshinator.Examples.Bandwidth.Receiving.Whole.{Counted, run_rx-Counted}
use meshinator.Kernel.{pure}

abbrev pub args : Args
args = record {
  role = tx_role;
  iface = 119 ∷ [];
  stream_id = 7;
  frame_mode = data_frames;
  payload_size = 3;
  tx_interval_us = 50;
  report_ms = 0;
}

-- The second is late enough for a report.
abbrev pub ticks : List Tick
ticks = record { elapsed = 5; dt = 6 } ∷ record { elapsed = 100_000_000; dt = 100_000_001 } ∷ []

run_tx-AllCounted_example : Returns (AllCounted args [] ticks) (run_tx kernel args ticks [])
run_tx-AllCounted_example =
    run_tx-AllCounted kernel (λ log. refl) args [] (omega arith) (omega arith)
      (λ e. omega (arith, e)) ticks (omega arith) (omega arith, (omega arith, tt))

abbrev large : Args
large = record args { payload_size = 4014 }

run_tx_too_large_example :
    Returns
      (λ out. (out.0 ≡ refused large) × (on_air out.1 ≡ on_air []))
      (run_tx kernel large ticks [])
run_tx_too_large_example =
    run_tx_too_large kernel (λ log. refl) large [] (omega arith) (omega arith)
      (λ e. omega (arith, e)) (record { elapsed = 5; dt = 6 })
      (record { elapsed = 100_000_000; dt = 100_000_001 } ∷ []) (omega arith)

-- The capture becomes readable with two packets; the second is delivered in the next turn.
abbrev pub last_round : Round
last_round = record { elapsed = 200_000_000; poll = λ ms. no_event; packets = [] }

abbrev turns : List Turn
turns =
    record {
      rounds = record { elapsed = 0; poll = λ ms. ready; packets = both_packets } ∷ last_round ∷ [];
      tick = record { elapsed = 5; dt = 6 };
    }
    ∷ record { rounds = last_round ∷ []; tick = record { elapsed = 100_000_000; dt = 100_000_000 } }
    ∷ []

turns-AreUsable : AreUsable turns
turns-AreUsable = (
  (((omega arith, (omega arith, tt)), (tt, tt)), inr (inl (omega arith)), omega arith),
  (((tt, tt), inl (omega arith), omega arith), tt),
)

pub opened : open_rx willing (rx_cfg args) ≡ ok (fresh (rx_cfg args) (pos 5), tt)
unfolding open_rx open_capture
opened = refl

run_rx-Counted_example :
    Returns (λ out. Counted turns out.0) (run_rx kernel willing (λ c. pure tt) args turns [])
run_rx-Counted_example =
    run_rx-Counted kernel willing (λ c. pure tt) (λ c log. tt) args turns []
      (fresh (rx_cfg args) (pos 5)) tt opened turns-AreUsable
