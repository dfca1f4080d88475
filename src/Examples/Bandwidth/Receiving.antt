-- ===== src/Examples/Bandwidth/Receiving.antt =====
-- The receiving loop of examples/bandwidth.rs: which frames it counts.
pub mod Whole
use meshinator.Prelude.{
  ℕ, zero, suc, ◌+◌, ◌*◌, ◌≤◌, ◌<◌, ◌≡◌, refl, sym, ap, ap₂, subst, ◌∙◌, ◌⊎◌, inl, inr, Bool,
  Option, none, some, List, [], ◌∷◌, ◌++◌, length, length-append, length-overwrite, append_assoc,
  min, arith,
}
use meshinator.Run
use meshinator.Run.{Returns}
use meshinator.Run.Laws.{Returns-weaken}
use meshinator.Kernel.{Syscall, Sys, ◌>>=◌, lift}
use meshinator.Kernel.Laws.{Sys-bind, lift-Returns}
use meshinator.Proto.{WfbRxMeta, WfbError, Result, ok, err, io}
use meshinator.Rx.Queue.{Frame}
use meshinator.Rx.State.{WfbRx}
use meshinator.Rx.Ring.Valid.{IsValid}
use meshinator.Rx.Ring.Fifo.{contents}
use meshinator.Rx.Recv.{Round, Received, recv}
use meshinator.Rx.Recv.Outcome.{AreCapturedRounds, Expires}
use meshinator.Rx.Session.{Session, failing, queue_in, serve, session}
use meshinator.Rx.Session.Calls.{
  Answers, HasSettings, HasSettings-same, Called, ended_by, recv-Called,
}
use meshinator.Examples.Bandwidth.{
  rx_role, Meter, count, Tick, report, Ran, Turn, after_recv, rx_loop,
}
use meshinator.Examples.Bandwidth.Counting.{HasCounted, count-HasCounted, report-HasCounted}

abbrev pub scripts_of : List Turn → List (List Round)
scripts_of [] = []
scripts_of (t ∷ turns) = t.rounds ∷ scripts_of turns

-- The packets have the bytes that they announce, the clock passes the timeout of every `recv`, and does
-- not go back.
abbrev pub AreUsable : List Turn → Type 0
AreUsable [] = Unit {0}
AreUsable (t ∷ turns) =
    (AreCapturedRounds t.rounds × Expires 200_000_000 t.rounds × (t.tick.elapsed ≤ t.tick.dt))
    × AreUsable turns

-- What of the payloads fits a buffer.
abbrev pub bytes_of : ℕ → List Frame → ℕ
bytes_of room [] = 0
bytes_of room (f ∷ fs) = min (length f.0) room + bytes_of room fs

-- After the frames of a session, of which a buffer of `room` bytes was filled.
pub record Measured (room b p : ℕ) (log : List Syscall) (s : Session)
    (out : (WfbRx × Ran) × List Syscall) : Type 0 where
  pub counted : HasCounted (b + bytes_of room s.handed) (p + length s.handed) out.0.1.meter
  pub holds : contents out.0.0 ≡ s.held
  pub ended : out.0.1.ended ≡ ended_by s.errno
  pub no_call : out.1 ≡ log

-- The counters as they are, before anything more is taken.
still-HasCounted : (b p : ℕ) (m : Meter) → HasCounted b p m → HasCounted (b + 0) (p + 0) m
still-HasCounted b p m c =
    let bytes : b ≡ b + 0 = omega arith in
    let packets : p ≡ p + 0 = omega arith in
    subst (λ n. HasCounted n (p + 0) m) bytes (subst (λ n. HasCounted b n m) packets c)

module _ (every : ℕ) (some_time : 0 < every) (ignore : Bool) (max cap room : ℕ)
    (some_room : 0 < room) (log : List Syscall) where
  abbrev session_of : List Turn → List Frame → Session
  session_of turns = session ignore max cap 200_000_000 (scripts_of turns)

  module _ (t : Turn) (turns : List Turn) (r : Received) where
    -- The loop from the receiver and the buffer of `r` on.
    abbrev Later : Type 0
    Later =
        (b p : ℕ) (m : Meter)
        → HasCounted b p m
        → Returns (Measured room b p log (session_of turns (contents r.rx)))
            (rx_loop every turns r.rx r.buf m log)

    after_recv-Measured :
        (b p : ℕ) (m : Meter) (buf : List ℕ) (q : List Frame) (o : Option ℕ)
        → length buf ≡ room
        → HasCounted b p m
        → Answers q o buf r
        → t.tick.elapsed ≤ t.tick.dt
        → Later
        → Returns
            (Measured room b p log (serve ignore max cap 200_000_000 q o (session_of turns)))
            (after_recv
              (λ m'. rx_loop every turns r.rx r.buf (report rx_role every t.tick m'))
              (λ e l. Run.done ((r.rx, record { meter = m; ended = some e }), l))
              m
              r.result
              log)
    after_recv-Measured b p m buf [] none size c (empty, same_buf, result) in_time later =
        rw result (
          rw empty at
            (later b p _ (report-HasCounted b p m c rx_role every t.tick some_time in_time)))
    after_recv-Measured b p m buf [] (some errno) size c (empty, same_buf, result) in_time later =
        rw result (record {
          counted = still-HasCounted b p m c;
          holds = empty;
          ended = refl;
          no_call = refl;
        })
    after_recv-Measured b p m buf (f ∷ q) o size c (rest, got, result) in_time later =
        let n : ℕ = min (length f.0) (length buf) in
        rw result (
          Returns-weaken (Measured room (b + n) (p + 1) log (session_of turns q)) _ _
            (rw rest at (
              later (b + n) (p + 1) _ (
                report-HasCounted (b + n) (p + 1) (count n m) (count-HasCounted b p m c n) rx_role
                  every t.tick some_time in_time)))
            (λ out w.
              let bytes : b + n + bytes_of room (session_of turns q).handed
                  ≡ b + (min (length f.0) room + bytes_of room (session_of turns q).handed) =
                omega (arith, size) in
              let packets : p + 1 + length (session_of turns q).handed
                  ≡ p + suc (length (session_of turns q).handed) =
                omega arith in
              record {
                counted =
                    subst
                      (λ k.
                        HasCounted k (p + suc (length (session_of turns q).handed)) out.0.1.meter)
                      bytes
                      (subst
                        (λ k.
                          HasCounted (b + n + bytes_of room (session_of turns q).handed) k
                            out.0.1.meter)
                        packets w.counted);
                holds = w.holds;
                ended = w.ended;
                no_call = w.no_call;
              }))

  length-answered :
      (q : List Frame) (o : Option ℕ) (buf : List ℕ) (r : Received)
      → Answers q o buf r
      → length r.buf ≡ length buf
  length-answered [] o buf r a = ap length a.1
  length-answered (f ∷ q) o buf r a = ap length a.1 ∙ length-overwrite buf 0 _

  -- The loop from any state on.
  pub rx_loop-Measured :
      (turns : List Turn) (rx : WfbRx) (buf : List ℕ) (b p : ℕ) (m : Meter)
      → IsValid rx
      → HasSettings ignore max cap rx
      → length buf ≡ room
      → AreUsable turns
      → HasCounted b p m
      → Returns
          (Measured room b p log (session_of turns (contents rx)))
          (rx_loop every turns rx buf m log)
  unfolding rx_loop
  rx_loop-Measured [] rx buf b p m v h size u c = record {
    counted = still-HasCounted b p m c;
    holds = refl;
    ended = refl;
    no_call = refl;
  }
  rx_loop-Measured (t ∷ turns) rx buf b p m v h size ((captured, expires, in_time), u) c =
      let q : List Frame = queue_in ignore max cap 200_000_000 (contents rx) t.rounds in
      let o : Option ℕ = failing ignore max cap 200_000_000 t.rounds in
      Sys-bind (λ out. Called ignore max cap 200_000_000 buf rx t.rounds out.0 × (out.1 ≡ log)) _
        (lift (recv rx buf 200_000_000 t.rounds)) _ log
        (lift-Returns _ _ log (
          recv-Called ignore max cap 200_000_000 buf rx t.rounds v h
            (omega (arith, size, some_room)) captured expires))
        (λ r log' s. rw s.1 (
          Returns-weaken
            (Measured room b p log (serve ignore max cap 200_000_000 q o (session_of turns))) _ _
            (after_recv-Measured t turns r b p m buf q o size c s.0.answer in_time (λ b' p' m' c'.
              rx_loop-Measured turns r.rx r.buf b' p' m' s.0.valid
                (HasSettings-same ignore max cap rx r.rx h s.0.same)
                (length-answered q o buf r s.0.answer ∙ size) u c'))
            (λ out w. record {
              counted = w.counted;
              holds = w.holds;
              ended = w.ended;
              no_call = w.no_call;
            })))
