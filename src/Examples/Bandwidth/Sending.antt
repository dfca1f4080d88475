-- ===== src/Examples/Bandwidth/Sending.antt =====
-- The sending loop of examples/bandwidth.rs: what it puts on the air, and what it counts.
pub mod Whole
use native.Mathlib.Nat.{suc-mul}
use meshinator.Prelude.{
  ℕ, zero, suc, ◌+◌, ◌*◌, ◌%◌, ◌^◌, ◌≤◌, ◌<◌, ◌≡◌, refl, sym, ap, subst, ◌∙◌, ◌≢◌, ◌⊎◌, inl, inr,
  false, Option, none, some, List, [], ◌∷◌, ◌++◌, length, length-replicate, replicate, append_assoc,
  append-nil, max, arith,
}
use meshinator.Prelude.Int.{is_negative}
use meshinator.Run.{Returns}
use meshinator.Run.Laws.{Returns-weaken}
use meshinator.Kernel.{Syscall, Kernel, Sys, ◌>>=◌, pure}
use meshinator.Kernel.Laws.{Sys-bind, Sys-bind-done}
use meshinator.Proto.{WfbTxConfig, ok}
use meshinator.Tx.{WfbTx, open_tx, send}
use meshinator.Tx.Opened.{IsAccepted, OpenedTx, open_tx-OpenedTx}
use meshinator.Tx.Accepted.{open_log, open_tx-ok}
use meshinator.Tx.Frames.{frame, Sent, send-Sent}
use meshinator.Examples.Lines.{on_air, frames, HasRate, next_rate, Sent-ok, Sent-on_air}
use meshinator.Examples.Bandwidth.{
  FrameMode, data_frames, rts_frames, frame_type, tx_role, Meter, new_meter, count, Tick, report,
  pace, pacing_of, report_every_of, Ran, Args, tx_cfg, after_send, tx_loop, drop_tx_if_ended,
  with_tx, run_tx,
}
use meshinator.Examples.Bandwidth.Counting.{
  HasCounted, new_meter-HasCounted, count-HasCounted, report-HasCounted, pace-HasCounted,
}

-- The clock does not go back between its two readings.
abbrev pub AreOrdered : List Tick → Type 0
AreOrdered [] = Unit {0}
AreOrdered (t ∷ ticks) = (t.elapsed ≤ t.dt) × AreOrdered ticks

module _ (k : Kernel) (succeeds : (log : List Syscall) → is_negative (k.ret log) ≡ false)
    (cfg : WfbTxConfig) (bw mcs : ℕ) (payload : List ℕ) (fits : length payload ≤ 4013) (every : ℕ)
    (some_time : 0 < every) (pacing : Option ℕ) where
  abbrev pub LoopSent :
      List Syscall → (n seq b p : ℕ) → List Tick → (WfbTx × Ran) × List Syscall → Type 0
  LoopSent log n seq b p ticks ((tx', ran), log') =
      (ran.ended ≡ none)
      × (on_air log' ≡ on_air log ++ frames cfg bw mcs n seq (replicate (length ticks) payload))
      × HasCounted (b + length ticks * length payload) (p + length ticks) ran.meter

  one_turn :
      (n seq b p : ℕ) (ticks : List Tick) (log log' : List Syscall)
      (out : (WfbTx × Ran) × List Syscall)
      → on_air log' ≡ on_air log ++ (frame cfg n bw mcs seq payload ∷ [])
      → LoopSent log' (n + 1) ((seq + 1) % 2 ^ 32) (b + length payload) (p + 1) ticks out
      → (t : Tick) → LoopSent log n seq b p (t ∷ ticks) out
  one_turn n seq b p ticks log log' out heard (running, air, counted) t =
      let fs : List (List ℕ) =
        frames cfg bw mcs (n + 1) ((seq + 1) % 2 ^ 32) (replicate (length ticks) payload) in
      let bytes : b + length payload + length ticks * length payload
          ≡ b + suc (length ticks) * length payload =
        omega (arith, suc-mul (length ticks) (length payload)) in
      let packets : p + 1 + length ticks ≡ p + suc (length ticks) = omega arith in
      (
        running,
        air
            ∙ ap (λ h. h ++ fs) heard
            ∙ append_assoc (on_air log) (frame cfg n bw mcs seq payload ∷ []) fs,
        rw (bytes, packets) at counted,
      )

  pub tx_loop-LoopSent :
      (ticks : List Tick) (n seq b p : ℕ) (tx : WfbTx) (m : Meter) (log : List Syscall)
      → AreOrdered ticks
      → HasRate k succeeds cfg bw mcs n tx
      → HasCounted b p m
      → Returns (LoopSent log n seq b p ticks) (tx_loop k payload every pacing ticks tx seq m log)
  unfolding tx_loop
  tx_loop-LoopSent [] n seq b p tx m log o rate c = (
    refl,
    sym (append-nil (on_air log)),
    (let bytes : b ≡ b + 0 * length payload = omega arith in
        let packets : p ≡ p + 0 = omega arith in
        subst (λ i. HasCounted i (p + 0) m) bytes (subst (λ i. HasCounted b i m) packets c)),
  )
  tx_loop-LoopSent (t ∷ ticks) n seq b p tx m log (later, o) rate c =
      Sys-bind (Sent k cfg n tx rate.0 seq payload log) (LoopSent log n seq b p (t ∷ ticks))
        (send k tx payload seq) _ log (send-Sent k cfg n tx rate.0 payload seq log fits)
        (λ r log' s.
          let m₁ : Meter = count (length payload) m in
          let reported =
            report-HasCounted (b + length payload) (p + 1) m₁
              (count-HasCounted b p m c (length payload)) tx_role every t some_time later in
          let heard = Sent-on_air k succeeds cfg bw mcs n seq tx log payload rate r log' s in
          rw (Sent-ok k succeeds cfg bw mcs n seq tx log payload rate r log' s) (
            Returns-weaken
              (LoopSent log' (n + 1) ((seq + 1) % 2 ^ 32) (b + length payload) (p + 1) ticks)
              (LoopSent log n seq b p (t ∷ ticks)) _
              (tx_loop-LoopSent ticks (n + 1) ((seq + 1) % 2 ^ 32) (b + length payload) (p + 1) r.0
                _ log' o (next_rate k succeeds cfg bw mcs n tx r.0 rate s.next)
                (pace-HasCounted (b + length payload) (p + 1) (report tx_role every t m₁) reported
                  pacing))
              (λ out w. one_turn n seq b p ticks log log' out heard w t)))
