-- ===== src/Examples/Lines.antt =====
-- What the lines of the input become on the air.
use meshinator.Prelude.{
  ℕ, ◌+◌, ◌%◌, ◌^◌, ◌≤◌, ◌≡◌, refl, sym, ap, ap₂, ◌∙◌, true, false, List, [], ◌∷◌, ◌++◌, length,
  append_assoc, append-nil, ◌==◌, if◌then◌else◌, arith,
}
use meshinator.Prelude.Int.{is_negative}
use meshinator.Run.{Returns}
use meshinator.Kernel.{
  Syscall, Kernel, socket, setsockopt_bypass, ioctl_ifindex, bind_to, sendmsg, close_fd,
}
use meshinator.Run.Laws.{Returns-weaken}
use meshinator.Kernel.Laws.{Sys-if, Sys-bind}
use meshinator.Proto.{WfbTxConfig, Result, ok}
use meshinator.Tx.{WfbTx, send}
use meshinator.Tx.Frames.{IsTx, frame, joined, Sent, send-Sent}
use meshinator.Examples.{Line, text, unreadable, Exit, all_sent, send_lines, after_send}

-- What a list of calls, the newest first, put on the air, the oldest first.
abbrev pub on_air : List Syscall → List (List ℕ)
on_air [] = []
on_air (socket ∷ log) = on_air log
on_air (setsockopt_bypass fd ∷ log) = on_air log
on_air (ioctl_ifindex fd name ∷ log) = on_air log
on_air (bind_to fd i ∷ log) = on_air log
on_air (sendmsg fd bufs ∷ log) = on_air log ++ (joined bufs ∷ [])
on_air (close_fd fd ∷ log) = on_air log

-- The lines that are sent.
abbrev pub payloads : List Line → List (List ℕ)
payloads [] = []
payloads (unreadable errno ∷ lines) = []
payloads (text payload ∷ lines) =
    if length payload == 0 then payloads lines else payload ∷ payloads lines

payloads-empty :
    (p : List ℕ) (lines : List Line)
    → (length p == 0) ≡ true
    → payloads (text p ∷ lines) ≡ payloads lines
payloads-empty p lines e = rw e

payloads-there :
    (p : List ℕ) (lines : List Line)
    → (length p == 0) ≡ false
    → payloads (text p ∷ lines) ≡ p ∷ payloads lines
payloads-there p lines e = rw e

-- Every line can be read, and fits a frame.
abbrev pub AreSendable : List Line → Type 0
AreSendable [] = Unit {0}
AreSendable (unreadable errno ∷ lines) = ⊥
AreSendable (text payload ∷ lines) = (length payload ≤ 4013) × AreSendable lines

-- The frames of payloads, from send number `n` and sequence number `seq` on.
abbrev pub frames : (cfg : WfbTxConfig) (bw mcs n seq : ℕ) → List (List ℕ) → List (List ℕ)
frames cfg bw mcs n seq [] = []
frames cfg bw mcs n seq (p ∷ ps) =
    frame cfg n bw mcs seq p ∷ frames cfg bw mcs (n + 1) ((seq + 1) % 2 ^ 32) ps

module _ (k : Kernel) (succeeds : (log : List Syscall) → is_negative (k.ret log) ≡ false)
    (cfg : WfbTxConfig) (bw mcs : ℕ) where
  -- A transmitter of the rate.
  abbrev pub HasRate : (n : ℕ) (tx : WfbTx) → Type 0
  HasRate n tx = (v : IsTx cfg n tx) × (v.bw ≡ bw) × (v.mcs ≡ mcs)

  abbrev pub LinesSent :
      List Syscall → (n seq : ℕ) → List Line → (WfbTx × Exit) × List Syscall → Type 0
  LinesSent log n seq lines ((tx', exit), log') =
      (exit ≡ all_sent) × (on_air log' ≡ on_air log ++ frames cfg bw mcs n seq (payloads lines))

  pub next_rate :
      (n : ℕ) (tx tx' : WfbTx) → HasRate n tx → IsTx cfg (n + 1) tx' → HasRate (n + 1) tx'
  next_rate n tx tx' (v, b, m) w =
      (w, omega (arith, v.bw_asked, w.bw_asked, b), w.mcs_asked ∙ sym v.mcs_asked ∙ m)

  -- A send that went through put its frame on the air.
  module _ (n seq : ℕ) (tx : WfbTx) (log : List Syscall) (payload : List ℕ) (rate : HasRate n tx)
      (r : WfbTx × Result (Unit {0})) (log' : List Syscall)
      (s : Sent k cfg n tx rate.0 seq payload log (r, log')) where
    pub Sent-ok : r.1 ≡ ok tt
    Sent-ok = rw (succeeds log') at s.answer

    pub Sent-on_air : on_air log' ≡ on_air log ++ (frame cfg n bw mcs seq payload ∷ [])
    Sent-on_air =
        ap on_air s.called
        ∙ ap (λ f. on_air log ++ (f ∷ []))
            (s.on_air ∙ ap₂ (λ b m. frame cfg n b m seq payload) rate.1 rate.2)

  -- One frame, and those of the lines that follow.
  one_more :
      (n seq : ℕ) (tx : WfbTx) (log : List Syscall) (payload : List ℕ) (lines : List Line)
      → (length payload == 0) ≡ false
      → (rate : HasRate n tx) (r : WfbTx × Result (Unit {0})) (log' : List Syscall)
      → Sent k cfg n tx rate.0 seq payload log (r, log')
      → Returns
          (LinesSent log' (n + 1) ((seq + 1) % 2 ^ 32) lines)
          (send_lines k r.0 ((seq + 1) % 2 ^ 32) lines log')
      → Returns
          (LinesSent log n seq (text payload ∷ lines))
          (after_send (λ tx'. send_lines k tx' ((seq + 1) % 2 ^ 32) lines) r.0 r.1 log')
  one_more n seq tx log payload lines there rate r log' s rest =
      let fs : List (List ℕ) = frames cfg bw mcs (n + 1) ((seq + 1) % 2 ^ 32) (payloads lines) in
      let heard = Sent-on_air n seq tx log payload rate r log' s in
      rw (Sent-ok n seq tx log payload rate r log' s) (
        Returns-weaken (LinesSent log' (n + 1) ((seq + 1) % 2 ^ 32) lines)
          (LinesSent log n seq (text payload ∷ lines)) _ rest
          (λ out l. (
            l.0,
            l.1
                ∙ ap (λ h. h ++ fs) heard
                ∙ append_assoc (on_air log) (frame cfg n bw mcs seq payload ∷ []) fs
                ∙ ap (λ ps. on_air log ++ frames cfg bw mcs n seq ps)
                    (sym (payloads-there payload lines there)),
          )))

  pub send_lines-LinesSent :
      (lines : List Line) (n seq : ℕ) (tx : WfbTx) (log : List Syscall)
      → AreSendable lines
      → HasRate n tx
      → Returns (LinesSent log n seq lines) (send_lines k tx seq lines log)
  unfolding send_lines
  send_lines-LinesSent [] n seq tx log fit rate = (refl, sym (append-nil (on_air log)))
  send_lines-LinesSent (unreadable errno ∷ lines) n seq tx log fit rate = absurd fit
  send_lines-LinesSent (text payload ∷ lines) n seq tx log fit rate =
      Sys-if (LinesSent log n seq (text payload ∷ lines)) (length payload == 0) _ _ log
        (λ empty.
          Returns-weaken (LinesSent log n seq lines) _ (send_lines k tx seq lines log)
            (send_lines-LinesSent lines n seq tx log fit.1 rate)
            (λ out l. (
              l.0,
              l.1
                  ∙ ap (λ ps. on_air log ++ frames cfg bw mcs n seq ps)
                      (sym (payloads-empty payload lines empty)),
            )))
        (λ there.
          Sys-bind (Sent k cfg n tx rate.0 seq payload log)
            (LinesSent log n seq (text payload ∷ lines)) (send k tx payload seq) _ log
            (send-Sent k cfg n tx rate.0 payload seq log fit.0)
            (λ r log' s. one_more n seq tx log payload lines there rate r log' s (
              send_lines-LinesSent lines (n + 1) ((seq + 1) % 2 ^ 32) r.0 log' fit.1
                (next_rate n tx r.0 rate s.next))))
