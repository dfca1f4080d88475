-- ===== src/Examples/Chat.antt =====
-- Two stations that run examples/simple_txrx.rs: what the main thread of one sends, the receiving thread
-- of the other prints.
mod Tests
use mathlib.Core.List.{Sublist, filter_map, filter_map-append}
use mathlib.Core.List.Sublist
use meshinator.Prelude.{
  ℕ, ◌≤◌, ◌<◌, ◌≡◌, ◌≢◌, refl, sym, ap, ◌∙◌, Bool, true, false, List, [], ◌∷◌, ◌++◌, map, some,
  length, ◌==◌, Bool-cases, inl, inr, arith,
}
use meshinator.Prelude.Int.{is_negative}
use meshinator.Run.{Returns}
use meshinator.Run.Laws.{Returns-weaken}
use meshinator.Kernel.{Syscall, Kernel, Sys}
use meshinator.Proto.{ok}
use meshinator.Rx.Queue.{Frame}
use meshinator.Rx.State.{WfbRx}
use meshinator.Rx.Ring.Fifo.{contents}
use meshinator.Rx.Recv.{Round}
use meshinator.Rx.Session.Order.{frames_over, append-Sublist_left}
use meshinator.Rx.Open.{PcapLib, open_rx}
use meshinator.Examples.{Args, tx_cfg, rx_cfg, Line, text, unreadable, run_main}
use meshinator.Examples.Air.{
  Carries, packets_over, numbered, entry, AreShort, carried-in_order, map-Sublist, frames_over-eq,
}
use meshinator.Examples.Lines.{payloads, AreSendable, frames}
use meshinator.Examples.Main.{AllSent, run_main-AllSent}
use meshinator.Examples.Receiver.{RxLine, with_rssi, plain, empty_line, Thread}
use meshinator.Examples.Receiver.Spawned.{receive_thread}
use meshinator.Examples.Receiver.Printing.{AreScripts, lines_for}
use meshinator.Examples.Receiver.Whole.{PrintsAll, thread_session, receive_thread-PrintsAll}

-- The sequence numbers and the payloads of the printed lines that are not empty.
abbrev pub printed_entries : List RxLine → List (ℕ × List ℕ)
printed_entries [] = []
printed_entries (with_rssi seq n bandwidth mcs_index freq rssi0 truncated payload ∷ lines) =
    (seq, payload) ∷ printed_entries lines
printed_entries (plain seq n truncated payload ∷ lines) = (seq, payload) ∷ printed_entries lines
printed_entries (empty_line ∷ lines) = printed_entries lines

payloads-AreShort : (lines : List Line) → AreSendable lines → AreShort (payloads lines)
payloads-AreShort [] h = tt
payloads-AreShort (unreadable errno ∷ lines) h = absurd h
payloads-AreShort (text p ∷ lines) h = elim (Bool-cases (length p == 0)) [
  | inl none_there ↦ rw none_there (payloads-AreShort lines h.1)
  | inr there ↦ rw there (h.0, payloads-AreShort lines h.1)
]

printed_entries-lines_for :
    (print_rssi : Bool) (fs : List Frame) → printed_entries (lines_for print_rssi fs) ≡ map entry fs
printed_entries-lines_for print_rssi [] = refl
printed_entries-lines_for true (f ∷ fs) = ap (λ l. entry f ∷ l) (printed_entries-lines_for true fs)
printed_entries-lines_for false (f ∷ fs) =
    ap (λ l. entry f ∷ l) (printed_entries-lines_for false fs)

module _ (k : Kernel) (succeeds : (log : List Syscall) → is_negative (k.ret log) ≡ false)
    (lib far_lib : PcapLib) (args far_args : Args) (lines : List Line) (log : List Syscall)
    (rx far_rx : WfbRx) (cap : lib.Active) (far_cap : far_lib.Active) (scripts : List (List Round))
    (far_k : Kernel) (far_log : List Syscall) (drop_capture : far_lib.Active → Sys (Unit {0}))
    (drops : (c : far_lib.Active) (calls : List Syscall)
      → Returns (λ _. Unit {0}) (drop_capture c calls)) where
  -- One station sends its input as in `run_main-AllSent`; the receiver of the other opens, its capture
  -- hands over, with the bytes that it announces, what the air carries of the frames that are sent, and
  -- its clock passes the timeout of every `recv`, and the drop of its capture returns. Then the main
  -- thread of the first sends all its lines, and what the receiving thread of the second prints, its
  -- empty lines aside, is a part of the lines that are not empty, in their order and each at most once,
  -- each with its whole text and its own number.
  pub chat-in_order :
      1 ≤ length args.iface
      → length args.iface < 16
      → args.stream_id ≢ 0
      → open_rx lib (rx_cfg args) ≡ ok (rx, cap)
      → AreSendable lines
      → (print_rssi : Bool) → open_rx far_lib (rx_cfg far_args) ≡ ok (far_rx, far_cap)
      → AreScripts scripts
      → Carries (frames (tx_cfg args) 1 1 0 1 (payloads lines)) (packets_over scripts)
      → Returns (AllSent k succeeds args lines log) (run_main k lib args lines log)
        × Returns
            (λ out. Sublist (printed_entries out.0.lines) (numbered 1 (payloads lines)))
            (receive_thread far_k drop_capture print_rssi scripts far_rx far_cap far_log)
  chat-in_order some_name fits stream opens sendable print_rssi far_opens usable carried =
      let arrived : Sublist (map entry (frames_over true 4013 scripts))
          (numbered 1 (payloads lines)) =
        rw (← frames_over-eq true 4013 scripts) at (
          carried-in_order (tx_cfg args) 1 1 (payloads lines) (packets_over scripts) 0 1 carried
            (payloads-AreShort lines sendable) (omega arith)) in
      (
        run_main-AllSent k succeeds lib args lines log rx cap some_name fits stream opens sendable,
        Returns-weaken (λ out. PrintsAll print_rssi scripts out.0) _ _
            (receive_thread-PrintsAll far_k far_lib drop_capture drops print_rssi far_args far_rx
              far_cap scripts far_log far_opens usable)
            (λ out w.
              let fs : List Frame = (thread_session scripts).handed in
              rw (w.printed, printed_entries-lines_for print_rssi fs)
                (Sublist.trans
                  (map-Sublist entry fs (frames_over true 4013 scripts)
                    (Sublist.trans (append-Sublist_left fs (contents out.0.rx)) w.in_order))
                  arrived)),
      )
