-- ===== src/Examples/Bandwidth/Sending/Whole.antt =====
-- `run_tx` of examples/bandwidth.rs, from the open to the frames on the air and the counters.
use native.Mathlib.Nat.{zero-add}
use meshinator.Prelude.{
  ℕ, ◌*◌, ◌≤◌, ◌<◌, ◌≡◌, refl, ap, ◌∙◌, ◌≢◌, ◌⊎◌, inl, inr, false, Option, none, some, List, ◌∷◌,
  ◌++◌, length, length-replicate, replicate, max, arith,
}
use meshinator.Prelude.Int.{is_negative}
use meshinator.Run.{done, Returns}
use meshinator.Run.Laws.{Returns-weaken}
use meshinator.Kernel.{Syscall, Kernel, pure}
use meshinator.Kernel.Laws.{Sys-bind, Sys-bind-done}
use meshinator.Proto.{WfbError, ok, invalid_argument, payload_too_large}
use meshinator.Tx.{WfbTx, open_tx, send, drop_tx}
use meshinator.Tx.Opened.{IsAccepted, OpenedTx, open_tx-OpenedTx}
use meshinator.Tx.Accepted.{open_log, open_tx-ok}
use meshinator.Tx.Frames.{send_too_large}
use meshinator.Examples.Lines.{on_air, frames, HasRate}
use meshinator.Examples.Main.{drop_tx-on_air}
use meshinator.Examples.Bandwidth.{
  FrameMode, data_frames, rts_frames, frame_type, new_meter, Tick, pacing_of, report_every_of, Ran,
  Args, tx_cfg, tx_loop, drop_tx_if_ended, with_tx, run_tx,
}
use meshinator.Examples.Bandwidth.Counting.{HasCounted, new_meter-HasCounted}
use meshinator.Examples.Bandwidth.Sending.{AreOrdered, LoopSent, tx_loop-LoopSent}

abbrev pub payload_of : Args → List ℕ
payload_of args = replicate (max args.payload_size 1) 0x42

-- After as many turns as there are ticks.
abbrev pub AllCounted : Args → List Syscall → List Tick → Ran × List Syscall → Type 0
AllCounted args log ticks (ran, log') =
    (ran.ended ≡ none)
    × (on_air log'
        ≡ on_air log ++ frames (tx_cfg args) 0 7 0 1 (replicate (length ticks) (payload_of args)))
    × HasCounted (length ticks * max args.payload_size 1) (length ticks) ran.meter

abbrev pub refused : Args → Ran
refused args = record {
  meter = new_meter;
  ended = some (invalid_argument (payload_too_large args.payload_size 4013));
}

module _ (k : Kernel) (succeeds : (log : List Syscall) → is_negative (k.ret log) ≡ false)
    (args : Args) (log : List Syscall) (some_name : 1 ≤ length args.iface)
    (name_fits : length args.iface < 16) (stream : args.stream_id ≢ 0) where
  accepted : IsAccepted (tx_cfg args)
  accepted = record {
    named = some_name;
    name_fits = name_fits;
    stream = stream;
    frame_type = by_mode args.frame_mode;
  }
    where
      by_mode : (m : FrameMode) → (frame_type m ≡ 0x08) ⊎ (frame_type m ≡ 0xb4)
      by_mode data_frames = inl refl
      by_mode rts_frames = inr refl

  opened : (tx : WfbTx) × (open_tx k (tx_cfg args) log ≡ done (ok tx, open_log k args.iface log))
  opened = open_tx-ok k succeeds (tx_cfg args) log accepted (omega arith, inr (inl refl))

  opened-HasRate : HasRate k succeeds (tx_cfg args) 0 7 0 opened.0
  opened-HasRate =
      let is_tx : OpenedTx (tx_cfg args) (ok opened.0, open_log k args.iface log) =
        rw opened.1 at (open_tx-OpenedTx k (tx_cfg args) log) in
      (is_tx.1, omega (arith, is_tx.1.bw_asked), is_tx.1.mcs_asked)

  drop_tx_if_ended-same :
      (tx : WfbTx) (ran : Ran) (ended : Option WfbError) (log₁ : List Syscall)
      → Returns
          (λ out. (out.0 ≡ ran) × (on_air out.1 ≡ on_air log₁))
          (drop_tx_if_ended k tx ran ended log₁)
  drop_tx_if_ended-same tx ran none log₁ = (refl, refl)
  drop_tx_if_ended-same tx ran (some e) log₁ =
      Sys-bind (λ out. on_air out.1 ≡ on_air log₁)
        (λ out. (out.0 ≡ ran) × (on_air out.1 ≡ on_air log₁)) (drop_tx k tx) (λ _. pure ran) log₁
        (drop_tx-on_air k succeeds tx log₁) (λ _ log₂ e. (refl, e))

  -- On a system whose calls succeed, with an interface name of 1 to 15 bytes, a stream other than 0, a
  -- payload of at most 4013 bytes, and a clock that does not go back, the sending role is still running
  -- after any number of turns, and has put exactly one frame on the air in each: the payload of 0x42 with
  -- the sequence numbers from 1 on, at 20 MHz with index 7. The totals are the number of the turns and of
  -- the bytes of their payloads, modulo 2 ^ 64, and the reported intervals with the last one sum up to
  -- the same.
  pub run_tx-AllCounted :
      (ticks : List Tick)
      → args.payload_size ≤ 4013
      → AreOrdered ticks
      → Returns (AllCounted args log ticks) (run_tx k args ticks log)
  unfolding run_tx with_tx
  run_tx-AllCounted ticks fits ordered =
      let size : length (payload_of args) ≡ max args.payload_size 1 =
        length-replicate {A = ℕ} (max args.payload_size 1) 0x42 in
      let P =
        LoopSent k succeeds (tx_cfg args) 0 7 (payload_of args) (omega (arith, size))
          (report_every_of args) (omega arith) (pacing_of args) (open_log k args.iface log) 0 1 0 0
          ticks in
      rw
        (Sys-bind-done (open_tx k (tx_cfg args)) (with_tx k args ticks) log (ok opened.0)
          (open_log k args.iface log) opened.1)
        (Sys-bind P (AllCounted args log ticks)
          (tx_loop k (payload_of args) (report_every_of args) (pacing_of args) ticks opened.0 1
            new_meter)
          (λ r. drop_tx_if_ended k r.0 r.1 r.1.ended) (open_log k args.iface log)
          (tx_loop-LoopSent k succeeds (tx_cfg args) 0 7 (payload_of args) (omega (arith, size))
            (report_every_of args) (omega arith) (pacing_of args) ticks 0 1 0 0 opened.0 new_meter
            (open_log k args.iface log) ordered opened-HasRate new_meter-HasCounted)
          (λ r log' w.
            Returns-weaken (λ out. (out.0 ≡ r.1) × (on_air out.1 ≡ on_air log'))
              (AllCounted args log ticks) _ (drop_tx_if_ended-same r.0 r.1 r.1.ended log')
              (λ out e. rw e.0 (w.0, e.1 ∙ w.1, rw (size, zero-add, zero-add) at w.2))))

  tx_loop-refused :
      (t : Tick) (ticks : List Tick) (tx : WfbTx) (log₁ : List Syscall)
      → 4013 < args.payload_size
      → tx_loop k
          (payload_of args)
          (report_every_of args)
          (pacing_of args)
          (t ∷ ticks)
          tx
          1
          new_meter
          log₁
        ≡ done ((tx, refused args), log₁)
  unfolding tx_loop
  tx_loop-refused t ticks tx log₁ large =
      let size : length (payload_of args) ≡ args.payload_size =
        length-replicate {A = ℕ} (max args.payload_size 1) 0x42 ∙ omega arith in
      Sys-bind-done (send k tx (payload_of args) 1) _ log₁ _ log₁
        (send_too_large k tx (payload_of args) 1 log₁ (omega (arith, size)))
      ∙ ap
          (λ n. done (
            (
              tx,
              record {
                meter = new_meter;
                ended = some (invalid_argument (payload_too_large n 4013));
              },
            ),
            log₁,
          ))
          size

  -- With a payload of more than 4013 bytes, on the same conditions, the sending role ends in its first
  -- turn with the error that names the size and the bound; nothing was put on the air, counted or
  -- printed.
  pub run_tx_too_large :
      (t : Tick) (ticks : List Tick)
      → 4013 < args.payload_size
      → Returns
          (λ out. (out.0 ≡ refused args) × (on_air out.1 ≡ on_air log))
          (run_tx k args (t ∷ ticks) log)
  unfolding run_tx with_tx
  run_tx_too_large t ticks large =
      let log₁ : List Syscall = open_log k args.iface log in
      rw
        (
          Sys-bind-done (open_tx k (tx_cfg args)) (with_tx k args (t ∷ ticks)) log (ok opened.0)
              log₁ opened.1,
          Sys-bind-done
              (tx_loop k (payload_of args) (report_every_of args) (pacing_of args) (t ∷ ticks)
                opened.0 1 new_meter)
              (λ r. drop_tx_if_ended k r.0 r.1 r.1.ended) log₁ (opened.0, refused args) log₁
              (tx_loop-refused t ticks opened.0 log₁ large),
        )
        (drop_tx_if_ended-same opened.0 (refused args) (refused args).ended log₁)
