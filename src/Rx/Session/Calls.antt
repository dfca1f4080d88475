-- ===== src/Rx/Session/Calls.antt =====
-- One call of `recv` of src/rx.rs is one step of the session: which frame it delivers, what it leaves in
-- the ring, and what it answers without one.
use meshinator.Prelude.{
  ℕ, subst, ◌<◌, ◌≡◌, refl, sym, ap, ◌∙◌, Bool, false, inl, inr, List, [], ◌∷◌, Option, none, some,
  length, take, ltb, ltb→lt, leb, ◌==◌, arith,
}
use meshinator.Run.{Run, Returns}
use meshinator.Run.Laws.{Returns-bind, Returns-if, Returns-weaken}
use meshinator.Proto.{WfbError, Result, WfbRxMeta, ok, err, io}
use meshinator.Rx.Queue.{Frame, delivered, delivered_len, delivered_meta}
use meshinator.Rx.State.{WfbRx}
use meshinator.Rx.Ring.Valid.{IsValid}
use meshinator.Rx.Ring.Fifo.{contents}
use meshinator.Rx.Ring.Refine.{SameSettings}
use meshinator.Rx.Recv.{
  PollResult, failed, no_event, ready, eintr, Round, Received, remaining_ms, deliver, after_poll,
  recv_loop, recv, drain_pcap_nonblock,
}
use meshinator.Rx.Recv.Drain.{AreCaptured, SameSettings-trans, Drained, drain_refines}
use meshinator.Rx.Recv.Outcome.{AreCapturedRounds, Expires, DeliveredFirst}
use meshinator.Rx.Recv.Answers.{same_settings, deliver-DeliveredFirst, no_frame}
use meshinator.Rx.Session.Fits.{push_packets-take, take-nil, take-cons}
use meshinator.Rx.Session.{
  frames_of, first_of, arriving, failing, queue_in, arriving_at, failing_at,
}

-- What `recv` answers without a frame.
abbrev pub outcome : Option ℕ → Result (Option (ℕ × WfbRxMeta))
outcome none = ok none
outcome (some e) = err (io e)

-- How an error of `poll` ends a loop over the calls.
abbrev pub ended_by : Option ℕ → Option WfbError
ended_by none = none
ended_by (some errno) = some (io errno)

-- A call that takes its frame from the queue, or answers that there is none.
abbrev pub Answers : List Frame → Option ℕ → List ℕ → Received → Type 0
Answers (f ∷ q) errno buf r =
    (contents r.rx ≡ q)
    × (r.buf ≡ delivered f buf)
    × (r.result ≡ ok (some (delivered_len f buf, delivered_meta f buf)))
Answers [] errno buf r = (contents r.rx ≡ []) × (r.buf ≡ buf) × (r.result ≡ outcome errno)

-- The settings of a receiver.
pub record HasSettings (ignore : Bool) (max cap : ℕ) (rx : WfbRx) : Type 0 where
  pub ignores : rx.ignore_self_injected ≡ ignore
  pub max_payload : rx.max_payload ≡ max
  pub size : rx.ring_size ≡ cap

pub HasSettings-same :
    (ignore : Bool) (max cap : ℕ) (rx rx' : WfbRx)
    → HasSettings ignore max cap rx
    → SameSettings rx rx'
    → HasSettings ignore max cap rx'
HasSettings-same ignore max cap rx rx' h s = record {
  ignores = s.same_ignore ∙ h.ignores;
  max_payload = s.same_max ∙ h.max_payload;
  size = s.same_size ∙ h.size;
}

module _ (ignore : Bool) (max cap timeout : ℕ) (buf : List ℕ) where
  abbrev queue_after : List Frame → List Round → List Frame
  queue_after = queue_in ignore max cap timeout

  abbrev error_of : List Round → Option ℕ
  error_of = failing ignore max cap timeout

  pub record Called (rx : WfbRx) (rounds : List Round) (r : Received) : Type 0 where
    pub valid : IsValid r.rx
    pub same : SameSettings rx r.rx
    pub answer : Answers (queue_after (contents rx) rounds) (error_of rounds) buf r

  -- A frame that was drained is delivered by the same call; else the later rounds decide.
  first_queue :
      (fs : List Frame) (rounds : List Round)
      → 0 < cap
      → queue_after (take cap fs) rounds
        ≡ take cap (first_of fs (arriving ignore max cap timeout rounds))
  first_queue [] rounds h = rw (take-nil cap) refl
  first_queue (f ∷ fs) rounds h =
      ap (λ q. queue_after q rounds) (take-cons cap f fs h) ∙ sym (take-cons cap f fs h)

  arriving_step :
      (r : Round) (rounds : List Round) (p : PollResult)
      → leb timeout r.elapsed ≡ false
      → r.poll (remaining_ms timeout r.elapsed) ≡ p
      → queue_after [] (r ∷ rounds)
        ≡ take cap (
            arriving_at ignore max cap timeout
              (frames_of ignore max r.packets)
              (arriving ignore max cap timeout rounds)
              p)
  arriving_step r rounds p early e = rw (early, e) refl

  failing_step :
      (r : Round) (rounds : List Round) (p : PollResult)
      → leb timeout r.elapsed ≡ false
      → r.poll (remaining_ms timeout r.elapsed) ≡ p
      → error_of (r ∷ rounds) ≡ failing_at ignore max cap timeout (error_of rounds) p
  failing_step r rounds p early e = rw (early, e) refl

  held_call :
      (rx : WfbRx) (rounds : List Round)
      → IsValid rx
      → 0 < rx.ring_count
      → Returns (Called rx rounds) (deliver rx buf)
  held_call rx rounds v h =
      Returns-weaken (λ r. IsValid r.rx × SameSettings rx r.rx × DeliveredFirst (contents rx) buf r)
        _ (deliver rx buf) (deliver-DeliveredFirst rx buf v h)
        (λ r d. record { valid = d.0; same = d.1; answer = rw d.2.1 (refl, d.2.2, d.2.3) })

  module _ (rx : WfbRx) (r : Round) (rounds : List Round) (v : IsValid rx)
      (none_held : contents rx ≡ []) where
    ended_call :
        (o : Option ℕ)
        → queue_after [] (r ∷ rounds) ≡ []
        → error_of (r ∷ rounds) ≡ o
        → Called rx (r ∷ rounds) (record { rx = rx; buf = buf; result = outcome o })
    ended_call o queue error = record {
      valid = v;
      same = same_settings rx;
      answer = rw (none_held, queue, error) (none_held, refl, refl);
    }

    later_call :
        (rx' : WfbRx) (a : Received)
        → SameSettings rx rx'
        → queue_after (contents rx') rounds ≡ queue_after [] (r ∷ rounds)
        → error_of rounds ≡ error_of (r ∷ rounds)
        → Called rx' rounds a
        → Called rx (r ∷ rounds) a
    later_call rx' a same queue error w = record {
      valid = w.valid;
      same = SameSettings-trans rx rx' a.rx same w.same;
      answer =
          subst (λ q. Answers q (error_of (r ∷ rounds)) buf a)
            (queue ∙ ap (λ q. queue_after q (r ∷ rounds)) (sym none_held))
            (subst (λ o. Answers (queue_after (contents rx') rounds) o buf a) error w.answer);
    }

    after_poll-Called :
        (again : WfbRx → Run Received) (p : PollResult)
        → HasSettings ignore max cap rx
        → AreCaptured r.packets
        → leb timeout r.elapsed ≡ false
        → r.poll (remaining_ms timeout r.elapsed) ≡ p
        → ((rx' : WfbRx)
            → IsValid rx'
            → HasSettings ignore max cap rx'
            → Returns (Called rx' rounds) (again rx'))
        → Returns (Called rx (r ∷ rounds)) (after_poll rx buf r.packets again p)
    unfolding after_poll
    after_poll-Called again (failed errno) h c early e ih =
        Returns-if _ (errno == eintr) _ _
          (λ interrupted. Returns-weaken (Called rx rounds) _ (again rx) (ih rx v h) (λ a.
            later_call rx a (same_settings rx)
              (ap (λ q. queue_after q rounds) none_held
                ∙ sym (arriving_step r rounds (failed errno) early e ∙ rw interrupted refl))
              (sym (failing_step r rounds (failed errno) early e ∙ rw interrupted refl))))
          (λ other.
            ended_call (some errno)
              (arriving_step r rounds (failed errno) early e ∙ rw other (take-nil cap))
              (failing_step r rounds (failed errno) early e ∙ rw other refl))
    after_poll-Called again no_event h c early e ih =
        ended_call none (arriving_step r rounds no_event early e ∙ take-nil cap)
          (failing_step r rounds no_event early e)
    after_poll-Called again ready h c early e ih =
        Returns-bind (Drained rx r.packets) (Called rx (r ∷ rounds))
          (drain_pcap_nonblock rx r.packets) again (drain_refines r.packets rx v c)
          (λ rx' d.
            let fs : List Frame = frames_of ignore max r.packets in
            let some_room : 0 < cap = omega (arith, v.size_pos, h.size) in
            let drained : contents rx' ≡ take cap fs =
              rw (none_held, h.ignores, h.max_payload, h.size) at d.holds
              ∙ push_packets-take ignore max cap [] r.packets (omega arith) in
            Returns-weaken (Called rx' rounds) _ (again rx')
              (ih rx' d.valid (HasSettings-same ignore max cap rx rx' h d.same))
              (λ a.
                later_call rx' a d.same
                  (ap (λ q. queue_after q rounds) drained
                    ∙ first_queue fs rounds some_room
                    ∙ sym (arriving_step r rounds ready early e))
                  (sym (failing_step r rounds ready early e))))

  recv_loop-Called :
      (rounds : List Round) (rx : WfbRx)
      → IsValid rx
      → HasSettings ignore max cap rx
      → AreCapturedRounds rounds
      → Expires timeout rounds
      → Returns (Called rx rounds) (recv_loop timeout rounds rx buf)
  unfolding recv_loop
  recv_loop-Called [] rx v h c x = absurd x
  recv_loop-Called (r ∷ rounds) rx v h c x =
      Returns-if _ (ltb 0 rx.ring_count) _ _ (λ held. held_call rx (r ∷ rounds) v (ltb→lt _ _ held))
        (λ empty.
          Returns-if _ (leb timeout r.elapsed) _ _
            (λ late.
              ended_call rx r rounds v (no_frame rx empty) none (rw late (take-nil cap))
                (rw late refl))
            (λ early.
              after_poll-Called rx r rounds v (no_frame rx empty)
                (λ rx'. recv_loop timeout rounds rx' buf) _ h c.0 early refl
                (λ rx' v' h'. recv_loop-Called rounds rx' v' h' c.1 (expires early x))))
    where
      expires :
          leb timeout r.elapsed ≡ false → Expires timeout (r ∷ rounds) → Expires timeout rounds
      expires early (inl late) = absurd (ground arith)
      expires early (inr x) = x

  pub recv-Called :
      (rx : WfbRx) (rounds : List Round)
      → IsValid rx
      → HasSettings ignore max cap rx
      → 0 < length buf
      → AreCapturedRounds rounds
      → Expires timeout rounds
      → Returns (Called rx rounds) (recv rx buf timeout rounds)
  unfolding recv
  recv-Called rx rounds v h room c x =
      Returns-if _ (length buf == 0) _ _ (λ none_there. absurd (ground arith))
        (λ _.
          Returns-if _ (ltb 0 rx.ring_count) _ _ (λ held. held_call rx rounds v (ltb→lt _ _ held))
            (λ _. recv_loop-Called rounds rx v h c x))
