-- ===== src/Examples/Receiver/Spawned.antt =====
-- examples/simple_txrx.rs: the receiving thread with the drop of the receiver, which it owns.
use meshinator.Prelude.{Bool, List, [], Option, none, some, replicate}
use meshinator.Kernel.{Kernel, Sys, ◌>>=◌, pure, lift}
use meshinator.Proto.{WfbError}
use meshinator.Rx.State.{WfbRx}
use meshinator.Rx.Recv.{Round}
use meshinator.Rx.Drop.{drop_rx}
use meshinator.Examples.Receiver.{Thread, receive_loop}

module _ (k : Kernel) {Active : Type 0} (drop_capture : Active → Sys (Unit {0})) where
  -- The receiver is dropped when the loop is left.
  abbrev pub drop_if_ended : Active → Thread → Option WfbError → Sys Thread
  drop_if_ended cap thread none = pure thread
  drop_if_ended cap thread (some e) = do dropped ← drop_rx k drop_capture thread.rx cap; pure thread

  unfoldable pub receive_thread : Bool → List (List Round) → WfbRx → Active → Sys Thread
  receive_thread print_rssi scripts rx cap = do
    thread ← lift (receive_loop print_rssi scripts rx (replicate 4097 0) [])
    drop_if_ended cap thread thread.ended
