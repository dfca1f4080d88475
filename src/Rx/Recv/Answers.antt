-- ===== src/Rx/Recv/Answers.antt =====
-- What `recv` of src/rx.rs returns, by the script of the capture, the clock and `poll`.
use meshinator.Prelude.{
  get_elem?, zero, suc, ◌<◌, Option, none, some, ℕ, ◌≡◌, refl, sym, ap, ◌∙◌, ◌≢◌, ◌⊎◌, inl, inr,
  Bool, false, List, [], ◌∷◌, ◌++◌, length, take, ltb, leb, lt→ltb, ◌==◌, arith, subst, ltb→lt,
}
use meshinator.Run.{Run, Returns}
use meshinator.Run.Laws.{Returns-bind, Returns-if, Returns-weaken}
use meshinator.Proto.{Result, WfbRxMeta, ok, err, default_meta, io}
use meshinator.Rx.Queue.{Frame}
use meshinator.Rx.Parse.FrameOf.{frame_of, push_option}
use meshinator.Rx.State.{WfbRx}
use meshinator.Rx.Ring.{pop_one}
use meshinator.Rx.Ring.Valid.{IsValid, popped}
use meshinator.Rx.Ring.Fifo.{frames_from, contents, slot, contents-popped}
use meshinator.Rx.Ring.Refine.{SameSettings, Delivered, pop_one_refines}
use meshinator.Rx.Recv.{
  Packet, PollResult, failed, no_event, ready, eintr, Round, Received, drain_pcap_nonblock, deliver,
  remaining_ms, after_poll, recv_loop, recv,
}
use meshinator.Rx.Recv.Drain.{
  AreCaptured, heard, push_packets, push_packets_same, SameSettings-trans, Drained, drain_refines,
}
use meshinator.Rx.Recv.Outcome.{
  drained_if_ready, drained_by, AreCapturedRounds, Expires, DeliveredFirst, IsWaiting, EndsEmpty,
  Answered,
}

-- A ring that holds a frame delivers it.
pub deliver-DeliveredFirst :
    (rx : WfbRx) (buf : List ℕ)
    → IsValid rx
    → 0 < rx.ring_count
    → Returns
        (λ r. IsValid r.rx × SameSettings rx r.rx × DeliveredFirst (contents rx) buf r)
        (deliver rx buf)
unfolding deliver
deliver-DeliveredFirst rx buf v h =
    let e : contents rx ≡ slot rx rx.ring_head ∷ contents (popped rx) = contents-popped rx h in
    Returns-bind (Delivered rx (slot rx rx.ring_head) (contents (popped rx)) buf) _
      (pop_one rx buf (some default_meta)) _
      (pop_one_refines rx buf default_meta (slot rx rx.ring_head) (contents (popped rx)) v e)
      (λ p d. (
        d.valid,
        d.same,
        (
          slot rx rx.ring_head,
          e ∙ ap (λ q. slot rx rx.ring_head ∷ q) (sym d.remains),
          d.bytes,
          rw (d.meta, d.length_copied),
        ),
      ))

push_packets-append :
    (ignore : Bool) (max size : ℕ) (q : List Frame) (ps ds : List Packet)
    → push_packets ignore max size q (ps ++ ds)
      ≡ push_packets ignore max size (push_packets ignore max size q ps) ds
push_packets-append ignore max size q [] ds = refl
push_packets-append ignore max size q (p ∷ ps) ds =
    push_packets-append ignore max size
      (push_option size q (frame_of ignore max (take p.caplen p.bytes))) ps ds

heard-Drained :
    (rx rx' : WfbRx) (ps ds : List Packet) → Drained rx ps rx' → heard rx' ds ≡ heard rx (ps ++ ds)
heard-Drained rx rx' ps ds d =
    push_packets_same rx rx' (contents rx') ds d.same
    ∙ ap (λ q. push_packets rx.ignore_self_injected rx.max_payload rx.ring_size q ds) d.holds
    ∙ sym (
        push_packets-append rx.ignore_self_injected rx.max_payload rx.ring_size (contents rx) ps ds)

pub no_frame : (rx : WfbRx) → ltb 0 rx.ring_count ≡ false → contents rx ≡ []
no_frame rx h =
    let none_held : rx.ring_count ≡ 0 = ground arith in
    subst (λ n. frames_from rx rx.ring_head n ≡ []) (sym none_held) refl

pub same_settings : (rx : WfbRx) → SameSettings rx rx
same_settings rx = record { same_ignore = refl; same_max = refl; same_size = refl; same_fd = refl }

module _ (timeout : ℕ) (buf : List ℕ) where
  -- An answer given in this round, before anything was drained.
  nothing_yet :
      (rx : WfbRx) (r : Round) (rounds : List Round) (result : Result (Option (ℕ × WfbRxMeta)))
      → IsValid rx
      → ltb 0 rx.ring_count ≡ false
      → EndsEmpty timeout (some r) result
      → ((result ≡ ok none) ⊎ ((errno : ℕ) × (errno ≢ eintr) × (result ≡ err (io errno))))
      → Answered rx timeout (r ∷ rounds) buf (record { rx = rx; buf = buf; result = result })
  nothing_yet rx r rounds result v h ends o = record {
    valid = v;
    same = same_settings rx;
    used = 0;
    waited = λ i before. absurd (omega (arith, before));
    accounts = inr ((no_frame rx h, no_frame rx h, refl, o), ends);
  }

  held_answer :
      (rx : WfbRx) (rounds : List Round)
      → IsValid rx
      → 0 < rx.ring_count
      → Returns (Answered rx timeout rounds buf) (deliver rx buf)
  held_answer rx rounds v h =
      Returns-weaken (λ r. IsValid r.rx × SameSettings rx r.rx × DeliveredFirst (contents rx) buf r)
        _ (deliver rx buf) (deliver-DeliveredFirst rx buf v h)
        (λ r d. record {
          valid = d.0;
          same = d.1;
          used = 0;
          waited = λ i before. absurd (omega (arith, before));
          accounts = inl d.2;
        })

  -- The answer of the rounds that follow is one of all.
  later_answer :
      (rx rx' : WfbRx) (r : Round) (rounds : List Round) (ps : List Packet) (a : Received)
      → r.elapsed < timeout
      → contents rx ≡ []
      → drained_if_ready r.packets (r.poll (remaining_ms timeout r.elapsed)) ≡ ps
      → Drained rx ps rx'
      → Answered rx' timeout rounds buf a
      → Answered rx timeout (r ∷ rounds) buf a
  later_answer rx rx' r rounds ps a early none_held e d w = record {
    valid = w.valid;
    same = SameSettings-trans rx rx' a.rx d.same w.same;
    used = suc w.used;
    waited = earlier;
    accounts =
        rw (e, ← heard-Drained rx rx' ps (drained_by timeout (take w.used rounds)) d) w.accounts;
  }
    where
      earlier :
          (i : ℕ)
          → i < suc w.used
          → IsWaiting timeout (get_elem? (r ∷ rounds) i)
            × (heard rx (drained_by timeout (take i (r ∷ rounds))) ≡ [])
      earlier zero before = (early, none_held)
      earlier (suc i) before =
          let there = w.waited i (omega (arith, before)) in
          (
            there.0,
            rw (e, ← heard-Drained rx rx' ps (drained_by timeout (take i rounds)) d) there.1,
          )

  after_poll-Answered :
      (rx : WfbRx) (r : Round) (rounds : List Round) (again : WfbRx → Run Received) (p : PollResult)
      → IsValid rx
      → AreCaptured r.packets
      → ltb 0 rx.ring_count ≡ false
      → r.elapsed < timeout
      → r.poll (remaining_ms timeout r.elapsed) ≡ p
      → ((rx' : WfbRx) → IsValid rx' → Returns (Answered rx' timeout rounds buf) (again rx'))
      → Returns (Answered rx timeout (r ∷ rounds) buf) (after_poll rx buf r.packets again p)
  unfolding after_poll
  after_poll-Answered rx r rounds again (failed errno) v c empty early e ih =
      Returns-if _ (errno == eintr) _ _
        (λ _. Returns-weaken (Answered rx timeout rounds buf) _ (again rx) (ih rx v) (λ a w.
          later_answer rx rx r rounds [] a early (no_frame rx empty) (rw e)
            (record { valid = v; same = same_settings rx; holds = refl }) w))
        (λ other.
          let no_interrupt : errno ≢ eintr = ground arith in
          nothing_yet rx r rounds _ v empty (inr (inr (errno, early, e, no_interrupt, refl)))
            (inr (errno, no_interrupt, refl)))
  after_poll-Answered rx r rounds again no_event v c empty early e ih =
      nothing_yet rx r rounds _ v empty (inr (inl (early, e, refl))) (inl refl)
  after_poll-Answered rx r rounds again ready v c empty early e ih =
      Returns-bind (Drained rx r.packets) (Answered rx timeout (r ∷ rounds) buf)
        (drain_pcap_nonblock rx r.packets) again (drain_refines r.packets rx v c)
        (λ rx' d.
          Returns-weaken (Answered rx' timeout rounds buf) _ (again rx') (ih rx' d.valid)
            (λ a w. later_answer rx rx' r rounds r.packets a early (no_frame rx empty) (rw e) d w))

  recv_loop-Answered :
      (rounds : List Round) (rx : WfbRx)
      → IsValid rx
      → AreCapturedRounds rounds
      → Expires timeout rounds
      → Returns (Answered rx timeout rounds buf) (recv_loop timeout rounds rx buf)
  unfolding recv_loop
  recv_loop-Answered [] rx v c x = absurd x
  recv_loop-Answered (r ∷ rounds) rx v c x =
      Returns-if _ (ltb 0 rx.ring_count) _ _
        (λ held. held_answer rx (r ∷ rounds) v (ltb→lt _ _ held))
        (λ empty.
          Returns-if _ (leb timeout r.elapsed) _ _
            (λ late. nothing_yet rx r rounds _ v empty (inl (ground arith, refl)) (inl refl))
            (λ early.
              after_poll-Answered rx r rounds (λ rx'. recv_loop timeout rounds rx' buf) _ v c.0
                empty (ground arith) refl
                (λ rx' v'. recv_loop-Answered rounds rx' v' c.1 (expires early x))))
    where
      expires :
          leb timeout r.elapsed ≡ false → Expires timeout (r ∷ rounds) → Expires timeout rounds
      expires early (inl late) = absurd (ground arith)
      expires early (inr x) = x

-- On every script in which the clock passes the timeout, and whose packets have the bytes that
-- they announce, `recv` of a valid receiver with a buffer that is not empty returns, and keeps the
-- invariant and the settings. It goes through a number of first rounds of the script, each before
-- the timeout. Take the queue of the frames that were held and of those that the rounds drained,
-- where a full ring drops what comes; before each of the rounds it was empty. Either its oldest
-- frame is delivered into the buffer, and the ring holds the others in their order; or it is
-- empty, the buffer is as it was, and the next round of the script ends the call: with none if the
-- timeout has passed or `poll` waited for it, and with the error of `poll` otherwise.
pub recv_accounts :
    (rx : WfbRx) (buf : List ℕ) (timeout : ℕ) (rounds : List Round)
    → IsValid rx
    → 0 < length buf
    → AreCapturedRounds rounds
    → Expires timeout rounds
    → Returns (Answered rx timeout rounds buf) (recv rx buf timeout rounds)
unfolding recv
recv_accounts rx buf timeout rounds v some_room c x =
    Returns-if _ (length buf == 0) _ _ (λ none_there. absurd (ground arith))
      (λ _.
        Returns-if _ (ltb 0 rx.ring_count) _ _
          (λ held. held_answer timeout buf rx rounds v (ltb→lt _ _ held))
          (λ _. recv_loop-Answered timeout buf rounds rx v c x))

-- For a valid receiver that holds a frame and a buffer that is not empty, `recv` returns with the
-- oldest frame delivered and the others still held, and keeps the invariant and the settings,
-- whatever the timeout and the script: neither the capture nor the clock nor `poll` is asked.
pub recv_held :
    (rx : WfbRx) (buf : List ℕ) (timeout : ℕ) (rounds : List Round)
    → IsValid rx
    → 0 < length buf
    → 0 < rx.ring_count
    → Returns
        (λ r. IsValid r.rx × SameSettings rx r.rx × DeliveredFirst (contents rx) buf r)
        (recv rx buf timeout rounds)
unfolding recv
recv_held rx buf timeout rounds v some_room held =
    let nonempty_buf : (length buf == 0) ≡ false = ground arith in
    rw (nonempty_buf, lt→ltb 0 rx.ring_count held) (deliver-DeliveredFirst rx buf v held)
