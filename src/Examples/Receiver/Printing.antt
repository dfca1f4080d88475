-- ===== src/Examples/Receiver/Printing.antt =====
-- What the receiving thread of examples/simple_txrx.rs prints.
use meshinator.Prelude.{
  ℕ, ◌≤◌, ◌≡◌, refl, sym, ap, ◌∙◌, Bool, List, [], ◌∷◌, ◌++◌, append-nil, append_assoc, Option,
  none, some, length, length-overwrite, arith,
}
use meshinator.Run.{done, Returns}
use meshinator.Run.Laws.{Returns-bind, Returns-weaken}
use meshinator.Rx.Queue.{Frame, delivered_len, delivered_meta}
use meshinator.Rx.State.{WfbRx}
use meshinator.Rx.Ring.Valid.{IsValid}
use meshinator.Rx.Ring.Fifo.{contents}
use meshinator.Rx.Parse.Sound.{AreSound}
use meshinator.Rx.Recv.{Round, Received, recv}
use meshinator.Rx.Recv.Outcome.{AreCapturedRounds, Expires}
use meshinator.Rx.Session.{Session, failing, queue_in, serve, session}
use meshinator.Rx.Session.Order.{queue_in-AreSound}
use meshinator.Rx.Session.Calls.{
  Answers, HasSettings, HasSettings-same, Called, ended_by, recv-Called,
}
use meshinator.Examples.Receiver.{RxLine, empty_line, line_of, Thread, handle, receive_loop}
use meshinator.Examples.Receiver.Line.{line_for, line_of-done}

-- The packets have the bytes that they announce, and the clock passes the timeout of every call.
abbrev pub AreScripts : List (List Round) → Type 0
AreScripts [] = Unit {0}
AreScripts (rounds ∷ scripts) =
    (AreCapturedRounds rounds × Expires 1_000_000_000 rounds) × AreScripts scripts

-- A line and an empty one for every frame.
abbrev pub lines_for : Bool → List Frame → List RxLine
lines_for print_rssi [] = []
lines_for print_rssi (f ∷ fs) = line_for print_rssi f ∷ empty_line ∷ lines_for print_rssi fs

module _ (print_rssi ignore : Bool) (cap : ℕ) where
  -- What is held fits the thread's buffer.
  pub record IsReady (rx : WfbRx) (buf : List ℕ) : Type 0 where
    pub valid : IsValid rx
    pub settings : HasSettings ignore 4013 cap rx
    pub held : AreSound 4013 (contents rx)
    pub room : 4013 ≤ length buf

  abbrev queue_of : List Frame → List Round → List Frame
  queue_of = queue_in ignore 4013 cap 1_000_000_000

  abbrev session_of : List (List Round) → List Frame → Session
  session_of = session ignore 4013 cap 1_000_000_000

  -- Behind the lines that were printed before come those of the session's frames.
  pub record Prints (lines : List RxLine) (s : Session) (out : Thread) : Type 0 where
    pub printed : out.lines ≡ lines ++ lines_for print_rssi s.handed
    pub holds : contents out.rx ≡ s.held
    pub ended : out.ended ≡ ended_by s.errno

  module _ (rx : WfbRx) (buf : List ℕ) (rounds : List Round) (scripts : List (List Round))
      (r : Received) (ready : IsReady rx buf)
      (c : Called ignore 4013 cap 1_000_000_000 buf rx rounds r) where
    next_IsReady : length r.buf ≡ length buf → AreSound 4013 (contents r.rx) → IsReady r.rx r.buf
    next_IsReady e sound = record {
      valid = c.valid;
      settings = HasSettings-same ignore 4013 cap rx r.rx ready.settings c.same;
      held = sound;
      room = omega (arith, e, ready.room);
    }

    handle-Prints :
        (q : List Frame) (o : Option ℕ) (lines : List RxLine)
        → AreSound 4013 q
        → Answers q o buf r
        → ((lines' : List RxLine)
            → IsReady r.rx r.buf
            → Returns
                (Prints lines' (session_of scripts (contents r.rx)))
                (receive_loop print_rssi scripts r.rx r.buf lines'))
        → Returns
            (Prints lines (serve ignore 4013 cap 1_000_000_000 q o (session_of scripts)))
            (handle print_rssi (receive_loop print_rssi scripts r.rx r.buf) r lines r.result)
    handle-Prints [] none lines sound (empty, same_buf, result) ih =
        rw result (rw empty at (ih lines (next_IsReady (ap length same_buf) (rw empty tt))))
    handle-Prints [] (some errno) lines sound (empty, same_buf, result) ih =
        rw result (record { printed = sym (append-nil lines); holds = empty; ended = refl })
    handle-Prints (f ∷ q) o lines sound (rest, got, result) ih =
        let line : line_of print_rssi r.buf (delivered_len f buf) (delivered_meta f buf)
            ≡ done (line_for print_rssi f) =
          ap (λ b. line_of print_rssi b (delivered_len f buf) (delivered_meta f buf)) got
          ∙ line_of-done print_rssi f buf sound.0 ready.room in
        let both : List RxLine = line_for print_rssi f ∷ empty_line ∷ [] in
        rw (result, line)
          (Returns-weaken (Prints (lines ++ both) (session_of scripts q)) _ _
            (rw rest at (
              ih (lines ++ both)
                (next_IsReady (ap length got ∙ length-overwrite buf 0 _) (rw rest sound.1))))
            (λ out w. record {
              printed = w.printed ∙ append_assoc lines both _;
              holds = w.holds;
              ended = w.ended;
            }))

  pub receive_loop-Prints :
      (scripts : List (List Round)) (rx : WfbRx) (buf : List ℕ) (lines : List RxLine)
      → AreScripts scripts
      → IsReady rx buf
      → Returns
          (Prints lines (session_of scripts (contents rx)))
          (receive_loop print_rssi scripts rx buf lines)
  unfolding receive_loop
  receive_loop-Prints [] rx buf lines c ready = record {
    printed = sym (append-nil lines);
    holds = refl;
    ended = refl;
  }
  receive_loop-Prints (rounds ∷ scripts) rx buf lines ((captured, expires), c) ready =
      let q : List Frame = queue_of (contents rx) rounds in
      let o : Option ℕ = failing ignore 4013 cap 1_000_000_000 rounds in
      Returns-bind (Called ignore 4013 cap 1_000_000_000 buf rx rounds) _
        (recv rx buf 1_000_000_000 rounds) _
        (recv-Called ignore 4013 cap 1_000_000_000 buf rx rounds ready.valid ready.settings
          (omega (arith, ready.room)) captured expires)
        (λ r called.
          Returns-weaken
            (Prints lines (serve ignore 4013 cap 1_000_000_000 q o (session_of scripts))) _ _
            (handle-Prints rx buf rounds scripts r ready called q o lines
              (queue_in-AreSound ignore 4013 cap 1_000_000_000 (contents rx) rounds ready.held)
              called.answer
              (λ lines' ready'. receive_loop-Prints scripts r.rx r.buf lines' c ready'))
            (λ out w. record { printed = w.printed; holds = w.holds; ended = w.ended }))
