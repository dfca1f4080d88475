-- ===== src/Rx/Recv/Script.antt =====
-- How much of its script `recv` of src/rx.rs looks at.
use meshinator.Prelude.{
  ℕ, ◌≡◌, refl, true, inl, inr, List, [], ◌∷◌, ◌++◌, leb, le→leb, ◌==◌, Bool-cases,
}
use meshinator.Run.{Run}
use meshinator.Run.Laws.{bind-ext}
use meshinator.Rx.State.{WfbRx}
use meshinator.Rx.Recv.{
  Packet, PollResult, failed, no_event, ready, eintr, Round, Received, remaining_ms,
  drain_pcap_nonblock, after_poll, recv_loop, recv,
}
use meshinator.Rx.Recv.Outcome.{Expires}

after_poll-ext :
    (rx : WfbRx) (buf : List ℕ) (packets : List Packet) (again again' : WfbRx → Run Received)
    (p : PollResult)
    → ((rx' : WfbRx) → again rx' ≡ again' rx')
    → after_poll rx buf packets again p ≡ after_poll rx buf packets again' p
unfolding after_poll
after_poll-ext rx buf packets again again' (failed errno) h = elim (Bool-cases (errno == eintr)) [
  | inl interrupted ↦ rw interrupted (h rx)
  | inr other ↦ rw other refl
]
after_poll-ext rx buf packets again again' no_event h = refl
after_poll-ext rx buf packets again again' ready h =
    bind-ext (drain_pcap_nonblock rx packets) again again' h

module _ (timeout : ℕ) (buf : List ℕ) (more : List Round) where
  recv_loop-Expires :
      (rounds : List Round) (rx : WfbRx)
      → Expires timeout rounds
      → recv_loop timeout (rounds ++ more) rx buf ≡ recv_loop timeout rounds rx buf
  unfolding recv_loop
  recv_loop-Expires [] rx x = absurd x
  recv_loop-Expires (r ∷ rounds) rx (inl late) =
      let over : leb timeout r.elapsed ≡ true = le→leb timeout r.elapsed late in rw over refl
  recv_loop-Expires (r ∷ rounds) rx (inr x) =
      rw
        (after_poll-ext rx buf r.packets (λ rx'. recv_loop timeout (rounds ++ more) rx' buf)
          (λ rx'. recv_loop timeout rounds rx' buf) (r.poll (remaining_ms timeout r.elapsed))
          (λ rx'. recv_loop-Expires rounds rx' x))
        refl

  -- Whatever the receiver, `recv` ends no later than in the first round in which the clock has passed the
  -- timeout: what the script says behind that round has no bearing on the call.
  pub recv-Expires :
      (rounds : List Round) (rx : WfbRx)
      → Expires timeout rounds
      → recv rx buf timeout (rounds ++ more) ≡ recv rx buf timeout rounds
  unfolding recv
  recv-Expires rounds rx x = rw (recv_loop-Expires rounds rx x) refl
