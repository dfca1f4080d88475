-- ===== src/Ffi/Receive/Answers.antt =====
-- What `wfb_rx_recv` of src/ffi.rs tells its caller.
use meshinator.Prelude.{
  get_elem?, ◌<◌, ℕ, ◌*◌, ◌≤◌, ◌≡◌, ◌≢◌, refl, ◌⊎◌, inl, inr, List, [], ◌∷◌, ◌++◌, Option, none,
  some, length, take, drop, length-take, ◌==◌, arith, false,
}
use meshinator.Run.{Returns}
use meshinator.Run.Laws.{Returns-bind}
use meshinator.Proto.{WfbRxMeta, Result, ok, err}
use meshinator.Rx.Queue.{Frame, delivered, delivered_len, delivered_meta}
use meshinator.Rx.State.{WfbRx}
use meshinator.Rx.Ring.Valid.{IsValid}
use meshinator.Rx.Ring.Fifo.{contents}
use meshinator.Rx.Ring.Refine.{SameSettings}
use meshinator.Rx.Recv.{Round, Received, failed, no_event, eintr, remaining_ms, recv}
use meshinator.Rx.Recv.Drain.{heard}
use meshinator.Rx.Recv.Answers.{recv_accounts}
use meshinator.Rx.Recv.Outcome.{
  IsWaiting, AreCapturedRounds, Expires, DeliveredFirst, NothingCame, EndsEmpty, Answered,
  drained_by,
}
use meshinator.Ffi.{
  wfb_rs_ok, wfb_rs_err_io, wfb_rs_err_timeout, CRxMeta, default_c_meta, to_c_meta, write_to,
}
use meshinator.Ffi.Laws.{Finishes, run_ffi-Finishes}
use meshinator.Ffi.Receive.{CReceived, answer_recv, wfb_rx_recv}

module _ (rx : WfbRx) (memory : List ℕ) (len timeout_ms old_len : ℕ) (meta : Option CRxMeta)
    (rounds : List Round) where
  abbrev buf : List ℕ
  buf = take len memory

  -- The code 0 stands for a frame.
  abbrev pub GotFrame : List Frame → WfbRx → CReceived → Type 0
  GotFrame q rx' r =
      (f : Frame) × (q ≡ f ∷ contents rx')
      × (r.code ≡ wfb_rs_ok)
      × (r.out_buf ≡ some (delivered f buf ++ drop len memory))
      × (r.out_len ≡ some (delivered_len f buf))
      × (r.out_meta ≡ write_to meta (to_c_meta (delivered_meta f buf)))

  abbrev pub GotNone : List Frame → WfbRx → CReceived → Type 0
  GotNone q rx' r = (q ≡ []) × (contents rx' ≡ []) × (r.out_buf ≡ some (buf ++ drop len memory))

  -- Why a round ends the call without a frame, and what the caller is told. A timeout resets the length
  -- and the meta, an error of `poll` nothing.
  abbrev pub CEndsEmpty : Option Round → CReceived → Type 0
  CEndsEmpty none r = ⊥
  CEndsEmpty (some round) r =
      (((timeout_ms * 1_000_000 ≤ round.elapsed)
          ⊎ ((round.elapsed < timeout_ms * 1_000_000)
              × (round.poll (remaining_ms (timeout_ms * 1_000_000) round.elapsed) ≡ no_event)))
        × (r.code ≡ wfb_rs_err_timeout)
        × (r.out_len ≡ some 0)
        × (r.out_meta ≡ write_to meta default_c_meta))
      ⊎ ((errno : ℕ) × (round.elapsed < timeout_ms * 1_000_000)
          × (round.poll (remaining_ms (timeout_ms * 1_000_000) round.elapsed) ≡ failed errno)
          × (errno ≢ eintr)
          × (r.code ≡ wfb_rs_err_io)
          × (r.out_len ≡ some old_len)
          × (r.out_meta ≡ meta))

  pub record CAnswered (r : CReceived) : Type 0 where
    pub rx' : WfbRx
    pub handle : r.handle ≡ some rx'
    pub valid : IsValid rx'
    pub same : SameSettings rx rx'
    pub used : ℕ
    pub waited :
        (i : ℕ)
        → i < used
        → IsWaiting (timeout_ms * 1_000_000) (get_elem? rounds i)
          × (heard rx (drained_by (timeout_ms * 1_000_000) (take i rounds)) ≡ [])
    pub accounts :
        GotFrame (heard rx (drained_by (timeout_ms * 1_000_000) (take used rounds))) rx' r
        ⊎ (GotNone (heard rx (drained_by (timeout_ms * 1_000_000) (take used rounds))) rx' r
            × CEndsEmpty (get_elem? rounds used) r)

  answer_recv-handle :
      (a : Received)
      → (answer_recv (drop len memory) old_len meta a.rx a.buf a.result).handle ≡ some a.rx
  unfolding answer_recv
  answer_recv-handle a = by_result a.result
    where
      by_result :
          (o : Result (Option (ℕ × WfbRxMeta)))
          → (answer_recv (drop len memory) old_len meta a.rx a.buf o).handle ≡ some a.rx
      by_result (ok (some (n, m))) = refl
      by_result (ok none) = refl
      by_result (err e) = refl

  abbrev answered_by : Received → CReceived
  answered_by a = answer_recv (drop len memory) old_len meta a.rx a.buf a.result

  answer_recv-first :
      (q : List Frame) (a : Received) → DeliveredFirst q buf a → GotFrame q a.rx (answered_by a)
  unfolding answer_recv
  answer_recv-first q a (f, first, bytes, res) = rw (res, bytes) (f, first, refl, refl, refl, refl)

  answer_recv-none :
      (q : List Frame) (o : Option Round) (a : Received)
      → NothingCame q buf a
      → EndsEmpty (timeout_ms * 1_000_000) o a.result
      → GotNone q a.rx (answered_by a) × CEndsEmpty o (answered_by a)
  unfolding answer_recv
  answer_recv-none q none a n ends = absurd ends
  answer_recv-none q (some r) a (none_came, empty, same, _) (inl (late, res)) =
      rw (res, same) ((none_came, empty, refl), inl (inl late, refl, refl, refl))
  answer_recv-none q (some r) a (none_came, empty, same, _) (inr (inl (early, silent, res))) =
      rw (res, same) ((none_came, empty, refl), inl (inr (early, silent), refl, refl, refl))
  answer_recv-none q (some r) a (none_came, empty, same, _)
        (inr (inr (errno, early, bad, other, res))) =
      rw (res, same) ((none_came, empty, refl), inr (errno, early, bad, other, refl, refl, refl))

-- With a handle of a valid receiver, a buffer of `len` bytes, not 0, a length pointer, and on
-- every script that passes the timeout and whose packets have the bytes that they announce,
-- `wfb_rx_recv` finishes without a panic and writes no byte behind the buffer. It goes through a
-- number of first rounds, before each of which no frame had come. Its code says what became of the
-- queue of the frames that were held and of those that the rounds drained: 0 for the oldest frame,
-- with its bytes, their number, and its meta if that is asked for; 5 for none, with length 0 and a
-- meta of zeros, if the next round is past the timeout or `poll` waited for it; 3 for none, with the
-- length and the meta as they were, if `poll` failed in the next round and was not interrupted. The
-- others stay held.
pub wfb_rx_recv_accounts :
    (rx : WfbRx) (memory : List ℕ) (len timeout_ms old_len : ℕ) (meta : Option CRxMeta)
    (rounds : List Round)
    → IsValid rx
    → 0 < len
    → len ≤ length memory
    → AreCapturedRounds rounds
    → Expires (timeout_ms * 1_000_000) rounds
    → Returns
        (Finishes (CAnswered rx memory len timeout_ms old_len meta rounds))
        (wfb_rx_recv (some rx) (some memory) len timeout_ms (some old_len) meta rounds)
unfolding wfb_rx_recv
wfb_rx_recv_accounts rx memory len timeout_ms old_len meta rounds v some_room inside c x =
    let asked : (len == 0) ≡ false = ground arith in
    let room : 0 < length (take len memory) = omega (arith, length-take len memory) in
    let timeout : ℕ = timeout_ms * 1_000_000 in
    rw asked (
      run_ffi-Finishes (CAnswered rx memory len timeout_ms old_len meta rounds) _ (
        Returns-bind (Answered rx timeout rounds (take len memory)) _
          (recv rx (take len memory) timeout rounds) _
          (recv_accounts rx (take len memory) timeout rounds v room c x)
          (λ a w. record {
            rx' = a.rx;
            handle = answer_recv-handle rx memory len timeout_ms old_len meta rounds a;
            valid = w.valid;
            same = w.same;
            used = w.used;
            waited = w.waited;
            accounts = elim w.accounts [
              | inl first ↦
                  inl (answer_recv-first rx memory len timeout_ms old_len meta rounds _ a first)
              | inr (n, ends) ↦
                  inr (answer_recv-none rx memory len timeout_ms old_len meta rounds _ _ a n ends)
            ];
          })))
