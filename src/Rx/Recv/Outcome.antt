-- ===== src/Rx/Recv/Outcome.antt =====
-- The outcomes of `recv`, by the script of the capture, the clock and `poll`.
use meshinator.Prelude.{
  get_elem?, ◌<◌, Option, none, some, ℕ, ◌≤◌, ◌≡◌, ◌≢◌, ◌⊎◌, List, [], ◌∷◌, ◌++◌, take,
}
use meshinator.Proto.{Result, WfbRxMeta, ok, err, io}
use meshinator.Rx.Queue.{Frame, delivered_len, delivered, delivered_meta}
use meshinator.Rx.State.{WfbRx}
use meshinator.Rx.Ring.Valid.{IsValid}
use meshinator.Rx.Ring.Fifo.{contents}
use meshinator.Rx.Ring.Refine.{SameSettings}
use meshinator.Rx.Recv.{
  Packet, PollResult, failed, no_event, ready, eintr, Round, Received, remaining_ms,
}
use meshinator.Rx.Recv.Drain.{AreCaptured, heard}

-- The packets that a round drains.
abbrev pub drained_if_ready : List Packet → PollResult → List Packet
drained_if_ready ps (failed errno) = []
drained_if_ready ps no_event = []
drained_if_ready ps ready = ps

-- The packets that the first rounds drain.
abbrev pub drained_by : ℕ → List Round → List Packet
drained_by timeout [] = []
drained_by timeout (r ∷ rounds) =
    drained_if_ready r.packets (r.poll (remaining_ms timeout r.elapsed))
    ++ drained_by timeout rounds

abbrev pub AreCapturedRounds : List Round → Type 0
AreCapturedRounds [] = Unit {0}
AreCapturedRounds (r ∷ rounds) = AreCaptured r.packets × AreCapturedRounds rounds

-- In some round the clock has passed the timeout.
abbrev pub Expires : ℕ → List Round → Type 0
Expires timeout [] = ⊥
Expires timeout (r ∷ rounds) = (timeout ≤ r.elapsed) ⊎ Expires timeout rounds

-- The queue `q` of all frames that came, and an answer: the oldest of them was delivered and the
-- others are still held; or none came, and nothing was written.
abbrev pub DeliveredFirst : List Frame → List ℕ → Received → Type 0
DeliveredFirst q buf r =
    (f : Frame) × (q ≡ f ∷ contents r.rx)
    × (r.buf ≡ delivered f buf)
    × (r.result ≡ ok (some (delivered_len f buf, delivered_meta f buf)))

abbrev pub NothingCame : List Frame → List ℕ → Received → Type 0
NothingCame q buf r =
    (q ≡ [])
    × (contents r.rx ≡ [])
    × (r.buf ≡ buf)
    × ((r.result ≡ ok none) ⊎ ((errno : ℕ) × (errno ≢ eintr) × (r.result ≡ err (io errno))))

-- The clock has not passed the timeout at a round.
abbrev pub IsWaiting : ℕ → Option Round → Type 0
IsWaiting timeout none = ⊥
IsWaiting timeout (some r) = r.elapsed < timeout

-- Why a round ends the call without a frame: the timeout has passed, `poll` waited for it, or `poll`
-- failed and was not interrupted.
abbrev pub EndsEmpty : ℕ → Option Round → Result (Option (ℕ × WfbRxMeta)) → Type 0
EndsEmpty timeout none result = ⊥
EndsEmpty timeout (some r) result =
    ((timeout ≤ r.elapsed) × (result ≡ ok none))
    ⊎ ((r.elapsed < timeout)
        × (r.poll (remaining_ms timeout r.elapsed) ≡ no_event)
        × (result ≡ ok none))
    ⊎ ((errno : ℕ) × (r.elapsed < timeout)
        × (r.poll (remaining_ms timeout r.elapsed) ≡ failed errno)
        × (errno ≢ eintr)
        × (result ≡ err (io errno)))

pub record Answered (rx : WfbRx) (timeout : ℕ) (rounds : List Round) (buf : List ℕ) (r : Received)
    : Type 0 where
  pub valid : IsValid r.rx
  pub same : SameSettings rx r.rx
  -- the rounds that the loop went through, each before the timeout and with no frame yet
  pub used : ℕ
  pub waited :
      (i : ℕ)
      → i < used
      → IsWaiting timeout (get_elem? rounds i)
        × (heard rx (drained_by timeout (take i rounds)) ≡ [])
  pub accounts :
      DeliveredFirst (heard rx (drained_by timeout (take used rounds))) buf r
      ⊎ (NothingCame (heard rx (drained_by timeout (take used rounds))) buf r
          × EndsEmpty timeout (get_elem? rounds used) r.result)
