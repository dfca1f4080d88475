-- ===== src/Examples/Main.antt =====
-- The main thread from its arguments to the frames on the air.
use meshinator.Prelude.{
  ◌≤◌, ◌<◌, ◌≡◌, refl, ap, ◌∙◌, ◌≢◌, ◌⊎◌, false, inl, inr, not, List, ◌++◌, length, ◌==◌, arith,
}
use meshinator.Prelude.Int.{is_negative}
use meshinator.Run.{Returns}
use meshinator.Kernel.{Syscall, Kernel}
use meshinator.Kernel.Laws.{Sys-if, Sys-bind, Sys-bind-done}
use meshinator.Proto.{ok}
use meshinator.Tx.{WfbTx, drop_tx, open_tx}
use meshinator.Tx.Opened.{IsAccepted, OpenedTx, open_tx-OpenedTx}
use meshinator.Tx.Accepted.{open_log, open_tx-ok}
use meshinator.Rx.State.{WfbRx}
use meshinator.Rx.Open.{PcapLib, open_rx}
use meshinator.Examples.{
  Mode, data_mode, rts_mode, frame_type_of, Args, tx_cfg, rx_cfg, Line, Exit, all_sent, send_lines,
  send_and_drop, with_receiver, with_transmitter, run_main,
}
use meshinator.Examples.Lines.{
  on_air, payloads, AreSendable, frames, HasRate, LinesSent, send_lines-LinesSent,
}

module _ (k : Kernel) (succeeds : (log : List Syscall) → is_negative (k.ret log) ≡ false) where
  pub drop_tx-on_air :
      (tx : WfbTx) (log : List Syscall)
      → Returns (λ out. on_air out.1 ≡ on_air log) (drop_tx k tx log)
  unfolding drop_tx
  drop_tx-on_air tx log =
      Sys-if (λ out. on_air out.1 ≡ on_air log) (not (is_negative tx.fd)) _ _ log (λ _. refl)
        (λ _. refl)

  accepted :
      (args : Args)
      → 1 ≤ length args.iface
      → length args.iface < 16
      → args.stream_id ≢ 0
      → IsAccepted (tx_cfg args)
  accepted args some_name fits stream = record {
    named = some_name;
    name_fits = fits;
    stream = stream;
    frame_type = by_mode args.mode;
  }
    where
      by_mode : (m : Mode) → (frame_type_of m ≡ 0x08) ⊎ (frame_type_of m ≡ 0xb4)
      by_mode data_mode = inl refl
      by_mode rts_mode = inr refl

  -- The main thread got to the end of its input, and the frames of the lines are all that it put on the air.
  abbrev pub AllSent : Args → List Line → List Syscall → Exit × List Syscall → Type 0
  AllSent args lines log (exit, log') =
      (exit ≡ all_sent)
      × (on_air log' ≡ on_air log ++ frames (tx_cfg args) 1 1 0 1 (payloads lines))

  send_and_drop-AllSent :
      (args : Args) (lines : List Line) (log log₁ : List Syscall) (tx : WfbTx)
      → AreSendable lines
      → HasRate k succeeds (tx_cfg args) 1 1 0 tx
      → on_air log₁ ≡ on_air log
      → Returns (AllSent args lines log) (send_and_drop k tx lines log₁)
  unfolding send_and_drop
  send_and_drop-AllSent args lines log log₁ tx fit rate quiet =
      Sys-bind (LinesSent k succeeds (tx_cfg args) 1 1 log₁ 0 1 lines) (AllSent args lines log)
        (send_lines k tx 1 lines) _ log₁
        (send_lines-LinesSent k succeeds (tx_cfg args) 1 1 lines 0 1 tx log₁ fit rate)
        (λ r log₂ l.
          Sys-bind (λ out. on_air out.1 ≡ on_air log₂) (AllSent args lines log) (drop_tx k r.0) _
            log₂ (drop_tx-on_air r.0 log₂)
            (λ u log₃ same. (
              l.0,
              same ∙ l.1 ∙ ap (λ h. h ++ frames (tx_cfg args) 1 1 0 1 (payloads lines)) quiet,
            )))

  -- On a system whose calls succeed, with an interface name of 1 to 15 bytes, a stream other than 0, a
  -- receiver that opens, and lines that can be read and fit a frame, the main thread sends all of its
  -- input. It puts on the air exactly one frame for every line that is not empty, in their order, at
  -- 40 MHz with index 1, with the 802.11 sequence fields 0, 16, 32 and so on, and the frame sequence
  -- numbers from 1 on.
  pub run_main-AllSent :
      (lib : PcapLib) (args : Args) (lines : List Line) (log : List Syscall) (rx : WfbRx)
      (cap : lib.Active)
      → 1 ≤ length args.iface
      → length args.iface < 16
      → args.stream_id ≢ 0
      → open_rx lib (rx_cfg args) ≡ ok (rx, cap)
      → AreSendable lines
      → Returns (AllSent args lines log) (run_main k lib args lines log)
  unfolding run_main with_transmitter with_receiver
  run_main-AllSent lib args lines log rx cap some_name fits stream opens fit =
      let opened =
        open_tx-ok k succeeds (tx_cfg args) log (accepted args some_name fits stream)
          (omega arith, inr (inr refl)) in
      let is_tx : OpenedTx (tx_cfg args) (ok opened.0, open_log k args.iface log) =
        rw opened.1 at (open_tx-OpenedTx k (tx_cfg args) log) in
      let rate : HasRate k succeeds (tx_cfg args) 1 1 0 opened.0 =
        (is_tx.1, omega (arith, is_tx.1.bw_asked), is_tx.1.mcs_asked) in
      Sys-if (AllSent args lines log) (args.stream_id == 0) _ _ log
        (λ none_given. absurd (stream (ground arith)))
        (λ _.
          rw
            (Sys-bind-done (open_tx k (tx_cfg args)) (with_transmitter k lib args lines) log
              (ok opened.0) (open_log k args.iface log) opened.1)
            (rw opens (
              send_and_drop-AllSent args lines log (open_log k args.iface log) opened.0 fit rate
                refl)))
