-- ===== src/Rx/Session.antt =====
-- What a client of `WfbRx` gets over many calls of `recv`, from the scripts of the calls alone: a bounded
-- queue in place of the ring, and frames in place of packets.
pub mod Fits
pub mod Order
pub mod Calls
use mathlib.Core.List.{filter_map}
use meshinator.Prelude.{
  ℕ, Bool, List, [], ◌∷◌, ◌++◌, Option, none, some, take, leb, ◌==◌, if◌then◌else◌,
}
use meshinator.Rx.Queue.{Frame}
use meshinator.Rx.Parse.FrameOf.{frame_of}
use meshinator.Rx.Recv.{Packet, PollResult, failed, no_event, ready, eintr, Round, remaining_ms}

abbrev pub frames_of : Bool → ℕ → List Packet → List Frame
frames_of ignore max = filter_map (λ p. frame_of ignore max (take p.caplen p.bytes))

abbrev pub first_of : List Frame → List Frame → List Frame
first_of [] later = later
first_of (f ∷ fs) later = f ∷ fs

-- Over many calls: what was delivered, what the capture was drained of, what is left in the queue, and
-- the error of `poll` that a call ended with, which is the last one.
pub record Session : Type 0 where
  pub handed : List Frame
  pub drained : List Frame
  pub held : List Frame
  pub errno : Option ℕ

module _ (ignore : Bool) (max cap timeout : ℕ) where
  abbrev pub arriving_at : List Frame → List Frame → PollResult → List Frame
  arriving_at frames later (failed errno) = if errno == eintr then later else []
  arriving_at frames later no_event = []
  arriving_at frames later ready = first_of frames later

  -- The frames that one call drains if none is held: those of the first round that has a frame, unless an
  -- earlier one ends the call.
  abbrev pub arriving : List Round → List Frame
  arriving [] = []
  arriving (r ∷ rounds) =
      if leb timeout r.elapsed
      then []
      else arriving_at (frames_of ignore max r.packets) (arriving rounds)
          (r.poll (remaining_ms timeout r.elapsed))

  abbrev pub failing_at : Option ℕ → PollResult → Option ℕ
  failing_at later (failed errno) = if errno == eintr then later else some errno
  failing_at later no_event = none
  failing_at later ready = later

  -- The error that ends a call in which no frame comes, or none for a timeout.
  abbrev pub failing : List Round → Option ℕ
  failing [] = none
  failing (r ∷ rounds) =
      if leb timeout r.elapsed
      then none
      else failing_at (failing rounds) (r.poll (remaining_ms timeout r.elapsed))

  -- A call that finds a frame in the queue drains nothing.
  abbrev pub came_in : List Frame → List Round → List Frame
  came_in [] rounds = arriving rounds
  came_in (f ∷ q) rounds = []

  -- The queue that a call takes its frame from.
  abbrev pub queue_in : List Frame → List Round → List Frame
  queue_in [] rounds = take cap (arriving rounds)
  queue_in (f ∷ q) rounds = f ∷ q

  abbrev pub serve : List Frame → Option ℕ → (List Frame → Session) → Session
  serve (f ∷ q) errno again = record (again q) { handed = f ∷ (again q).handed }
  serve [] (some e) again = record { handed = []; drained = []; held = []; errno = some e }
  serve [] none again = again []

  abbrev pub drained_first : List Frame → Session → Session
  drained_first came s = record s { drained = came ++ s.drained }

  -- From a queue on, one call for every script until one fails.
  abbrev pub session : List (List Round) → List Frame → Session
  session [] q = record { handed = []; drained = []; held = q; errno = none }
  session (rounds ∷ scripts) q =
      drained_first (came_in q rounds)
        (serve (queue_in q rounds) (failing rounds) (λ q'. session scripts q'))
