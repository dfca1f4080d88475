-- ===== src/Examples/Receiver.antt =====
-- examples/simple_txrx.rs: the receiving thread, which prints the frames that `recv` returns until an
-- error. The scripts of its calls of `recv` are how far the thread is followed. Of a line that is printed
-- the values are kept that it is formatted from.
pub mod Line
pub mod Spawned
pub mod Printing
pub mod Whole
use meshinator.Prelude.{ℕ, Bool, List, [], ◌∷◌, ◌++◌, Option, none, some, if◌then◌else◌}
use meshinator.Prelude.Int.{ℤ}
use meshinator.Run.{Run, done, ◌>>=◌, index, slice}
use meshinator.Proto.{WfbRxMeta, WfbError, Result, ok, err}
use meshinator.Rx.State.{WfbRx}
use meshinator.Rx.Recv.{Round, Received, recv}

-- With and without `--print-rssi`, and the empty line behind each.
pub data RxLine : Type 0 where
  with_rssi :
      (seq n bandwidth mcs_index freq : ℕ)
      → (rssi0 : ℤ) → (truncated : Bool) → (payload : List ℕ) → RxLine
  plain : (seq n : ℕ) → (truncated : Bool) → (payload : List ℕ) → RxLine
  empty_line : RxLine

pub line_of : Bool → List ℕ → ℕ → WfbRxMeta → Run RxLine
line_of print_rssi buf n meta = do
  payload ← slice buf 0 n
  if print_rssi
      then (do
        rssi0 ← index meta.rssi 0
        done (
            with_rssi meta.seq n meta.bandwidth meta.mcs_index meta.freq rssi0 meta.truncated
              payload))
      else done (plain meta.seq n meta.truncated payload)

-- What the thread printed, oldest first, and the error that ended it, or none while it runs.
pub record Thread : Type 0 where
  pub rx : WfbRx
  pub lines : List RxLine
  pub ended : Option WfbError

-- The arms of the `match` on what `recv` returned.
abbrev pub handle :
    Bool
    → (List RxLine → Run Thread)
    → Received
    → List RxLine
    → Result (Option (ℕ × WfbRxMeta))
    → Run Thread
handle print_rssi again r lines (ok none) = again lines
handle print_rssi again r lines (ok (some (n, meta))) = do
  line ← line_of print_rssi r.buf n meta
  again (lines ++ (line ∷ empty_line ∷ []))
handle print_rssi again r lines (err e) = done (record { rx = r.rx; lines = lines; ended = some e })

pub receive_loop : Bool → List (List Round) → WfbRx → List ℕ → List RxLine → Run Thread
receive_loop print_rssi [] rx buf lines = done (record { rx = rx; lines = lines; ended = none })
receive_loop print_rssi (rounds ∷ scripts) rx buf lines = do
  r ← recv rx buf 1_000_000_000 rounds
  handle print_rssi (receive_loop print_rssi scripts r.rx r.buf) r lines r.result
