-- ===== src/Examples/Bandwidth/Receiving/Whole.antt =====
-- `run_rx` of examples/bandwidth.rs, from the open to the counters.
use mathlib.Core.List.{Sublist}
use meshinator.Prelude.{
  ◌+◌, ◌∷◌, ◌≤◌, [], ℕ, ◌≡◌, refl, sym, subst, true, Option, none, some, List, ◌++◌, length,
  length-replicate, replicate, max, arith,
}
use meshinator.Run.{Returns}
use meshinator.Run.Laws.{Returns-weaken}
use meshinator.Kernel.{Syscall, Kernel, Sys, pure}
use meshinator.Kernel.Laws.{Sys-bind}
use meshinator.Proto.{WfbError, ok}
use meshinator.Rx.Queue.{Frame}
use meshinator.Rx.Parse.Sound.{AreSound}
use meshinator.Rx.Session.{Session, session}
use meshinator.Rx.Session.Calls.{ended_by}
use meshinator.Rx.Session.Order.{frames_over, session-in_order, session-AreSound, session-lossless}
use meshinator.Rx.State.{WfbRx}
use meshinator.Rx.Open.{PcapLib, open_rx}
use meshinator.Rx.Open.Fresh.{Opened, open_rx-Opened}
use meshinator.Rx.Drop.{drop_rx}
use meshinator.Rx.Drop.Twice.{drop_rx-Returns}
use native.Mathlib.Nat.{zero-add}
use meshinator.Examples.Bandwidth.{
  new_meter, Ran, Args, rx_cfg, report_every_of, Turn, rx_loop, drop_rx_if_ended, with_rx, run_rx,
}
use meshinator.Examples.Bandwidth.Counting.{HasCounted, new_meter-HasCounted}
use meshinator.Examples.Bandwidth.Receiving.{
  scripts_of, AreUsable, bytes_of, Measured, rx_loop-Measured,
}

abbrev pub payload_bytes : List Frame → ℕ
payload_bytes [] = 0
payload_bytes (f ∷ fs) = length f.0 + payload_bytes fs

-- The buffer has room for every payload.
bytes_of_sound :
    (room : ℕ) (fs : List Frame)
    → 4013 ≤ room
    → AreSound 4013 fs
    → bytes_of room fs ≡ payload_bytes fs
bytes_of_sound room [] h sound = refl
bytes_of_sound room (f ∷ fs) h (first, rest) =
    omega (arith, first.fits, bytes_of_sound room fs h rest)

-- What the calls deliver to a loop that begins with an empty ring of 128 slots.
abbrev pub loop_session : List Turn → Session
loop_session turns = session true 4013 128 200_000_000 (scripts_of turns) []

pub record Counted (turns : List Turn) (ran : Ran) : Type 0 where
  pub counted :
      HasCounted
        (payload_bytes (loop_session turns).handed)
        (length (loop_session turns).handed)
        ran.meter
  pub ended : ran.ended ≡ ended_by (loop_session turns).errno
  pub in_order :
      Sublist
        ((loop_session turns).handed ++ (loop_session turns).held)
        (frames_over true 4013 (scripts_of turns))
  pub lossless :
      length (loop_session turns).drained ≤ 128
      → (loop_session turns).handed ++ (loop_session turns).held ≡ (loop_session turns).drained

module _ (k : Kernel) (lib : PcapLib) (drop_capture : lib.Active → Sys (Unit {0}))
    (drops : (c : lib.Active) (log : List Syscall)
      → Returns (λ _. Unit {0}) (drop_capture c log)) where
  drop_rx_if_ended-same :
      (rx : WfbRx) (cap : lib.Active) (ran : Ran) (ended : Option WfbError) (log : List Syscall)
      → Returns (λ out. out.0 ≡ ran) (drop_rx_if_ended k lib drop_capture rx cap ran ended log)
  drop_rx_if_ended-same rx cap ran none log = refl
  drop_rx_if_ended-same rx cap ran (some e) log =
      Sys-bind (λ _. Unit {0}) (λ out. out.0 ≡ ran) (drop_rx k drop_capture rx cap) (λ _. pure ran)
        log (drop_rx-Returns k drop_capture rx cap log (drops cap)) (λ _ _ _. refl)

  -- On a receiver that opens, with scripts in which the clock passes the timeout of every `recv` and does
  -- not go back, packets that have the bytes that they announce, and a drop of the capture that returns,
  -- the receiving role returns, at the latest when the script ends. The frames that it counts are exactly
  -- those that the session of a bounded queue of 128 frames delivers over the scripts: the totals are
  -- their number and the bytes of their payloads, modulo 2 ^ 64; the reported intervals with the last one
  -- sum up to the same; and the loop was left by nothing but the session's error of `poll`. These frames
  -- and those that the session still holds are a part of the frames that the capture had for the
  -- receiver, in their order and each at most once, and all that were drained if these are no more than
  -- 128.
  pub run_rx-Counted :
      (args : Args) (turns : List Turn) (log : List Syscall) (rx : WfbRx) (cap : lib.Active)
      → open_rx lib (rx_cfg args) ≡ ok (rx, cap)
      → AreUsable turns
      → Returns (λ out. Counted turns out.0) (run_rx k lib drop_capture args turns log)
  unfolding run_rx with_rx
  run_rx-Counted args turns log rx cap opens usable =
      let opened : Opened (rx_cfg args) rx = open_rx-Opened lib (rx_cfg args) rx cap opens in
      let room : ℕ = max args.payload_size 4096 in
      let size : length (replicate {A = ℕ} room 0) ≡ room = length-replicate room 0 in
      let counts : (out : (WfbRx × Ran) × List Syscall)
          → Measured room 0 0 log (loop_session turns) out
          → Counted turns out.0.1 =
        λ out w. record {
          counted =
              rw
                (
                  zero-add,
                  zero-add,
                  bytes_of_sound room (loop_session turns).handed (omega arith)
                      (session-AreSound true 4013 128 200_000_000 (scripts_of turns) [] tt),
                )
                at w.counted;
          ended = w.ended;
          in_order = session-in_order true 4013 128 200_000_000 (scripts_of turns) [];
          lossless = λ few.
              session-lossless true 4013 128 200_000_000 (scripts_of turns) [] (omega (arith, few));
        } in
      rw opens (
        Sys-bind (Measured room 0 0 log (loop_session turns)) (λ out. Counted turns out.0)
          (rx_loop (report_every_of args) turns rx (replicate room 0) new_meter)
          (λ r. drop_rx_if_ended k lib drop_capture r.0 cap r.1 r.1.ended) log
          (rw opened.empty at (
            rx_loop-Measured (report_every_of args) (omega arith) true 4013 128 room (omega arith)
              log turns rx (replicate room 0) 0 0 new_meter opened.valid
              (record {
                ignores = opened.ignore;
                max_payload = opened.max_payload;
                size = opened.at_most (omega arith);
              })
              size usable new_meter-HasCounted))
          (λ r log' w.
            Returns-weaken (λ out. out.0 ≡ r.1) (λ out. Counted turns out.0) _
              (drop_rx_if_ended-same r.0 cap r.1 r.1.ended log')
              (λ out e. subst (Counted turns) (sym e) (counts (r, log') w))))
