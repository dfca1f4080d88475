-- ===== src/Examples/Receiver/Whole.antt =====
-- The receiving thread of examples/simple_txrx.rs, from the open to its lines.
use mathlib.Core.List.{Sublist}
use meshinator.Prelude.{
  ℕ, ◌≤◌, ◌≡◌, refl, sym, subst, Bool, true, List, [], ◌++◌, Option, none, some, length,
  length-replicate, replicate, arith,
}
use meshinator.Run.{Returns}
use meshinator.Run.Laws.{Returns-weaken}
use meshinator.Proto.{WfbError, ok}
use meshinator.Rx.State.{WfbRx}
use meshinator.Rx.Ring.Fifo.{contents}
use meshinator.Rx.Recv.{Round}
use meshinator.Rx.Session.{Session, session}
use meshinator.Rx.Session.Calls.{ended_by}
use meshinator.Rx.Session.Order.{frames_over, session-in_order, session-drained, session-lossless}
use meshinator.Rx.Open.{PcapLib, open_rx}
use meshinator.Rx.Open.Fresh.{Opened, open_rx-Opened}
use meshinator.Examples.{Args, rx_cfg}
use meshinator.Kernel.{Syscall, Kernel, Sys, pure, lift}
use meshinator.Kernel.Laws.{Sys-bind, lift-Returns}
use meshinator.Rx.Drop.{drop_rx}
use meshinator.Rx.Drop.Twice.{drop_rx-Returns}
use meshinator.Examples.Receiver.Spawned.{drop_if_ended, receive_thread}
use meshinator.Examples.Receiver.{Thread, receive_loop}
use meshinator.Examples.Receiver.Printing.{AreScripts, lines_for, Prints, receive_loop-Prints}

-- What the calls deliver to a thread that begins with an empty ring of 16 slots.
abbrev pub thread_session : List (List Round) → Session
thread_session scripts = session true 4013 16 1_000_000_000 scripts []

pub record PrintsAll (print_rssi : Bool) (scripts : List (List Round)) (out : Thread) : Type 0 where
  pub printed : out.lines ≡ lines_for print_rssi (thread_session scripts).handed
  pub holds : contents out.rx ≡ (thread_session scripts).held
  pub ended : out.ended ≡ ended_by (thread_session scripts).errno
  pub in_order :
      Sublist ((thread_session scripts).handed ++ contents out.rx) (frames_over true 4013 scripts)
  pub drained : Sublist (thread_session scripts).drained (frames_over true 4013 scripts)
  pub lossless :
      length (thread_session scripts).drained ≤ 16
      → (thread_session scripts).handed ++ contents out.rx ≡ (thread_session scripts).drained

module _ (k : Kernel) (lib : PcapLib) (drop_capture : lib.Active → Sys (Unit {0}))
    (drops : (c : lib.Active) (log : List Syscall) → Returns (λ _. Unit {0}) (drop_capture c log))
    (print_rssi : Bool) where
  drop_if_ended-same :
      (cap : lib.Active) (thread : Thread) (ended : Option WfbError) (log : List Syscall)
      → Returns (λ out. out.0 ≡ thread) (drop_if_ended k drop_capture cap thread ended log)
  drop_if_ended-same cap thread none log = refl
  drop_if_ended-same cap thread (some e) log =
      Sys-bind (λ _. Unit {0}) (λ out. out.0 ≡ thread) (drop_rx k drop_capture thread.rx cap)
        (λ _. pure thread) log (drop_rx-Returns k drop_capture thread.rx cap log (drops cap))
        (λ _ _ _. refl)

  -- The thread of a receiver that opened, with packets that have the bytes that they announce, a clock
  -- that passes the timeout of every `recv`, and a drop of the capture that returns, returns, at the
  -- latest when the scripts end, without a panic. It prints exactly what the session of a bounded queue of
  -- 16 frames delivers over the scripts: a line and an empty one for every frame, with the whole payload
  -- and never marked as truncated; the ring holds what the session leaves, and the thread ended with
  -- nothing but the session's error of `poll`. What is printed and what is still held are a part of the
  -- frames that the capture had for the receiver, in their order and each once; the frames that were
  -- drained are such a part too, and if they are no more than 16 in all, they are the printed and the
  -- held ones.
  pub receive_thread-PrintsAll :
      (args : Args) (rx : WfbRx) (cap : lib.Active) (scripts : List (List Round))
      (log : List Syscall)
      → open_rx lib (rx_cfg args) ≡ ok (rx, cap)
      → AreScripts scripts
      → Returns
          (λ out. PrintsAll print_rssi scripts out.0)
          (receive_thread k drop_capture print_rssi scripts rx cap log)
  unfolding receive_thread
  receive_thread-PrintsAll args rx cap scripts log opens c =
      let opened : Opened (rx_cfg args) rx = open_rx-Opened lib (rx_cfg args) rx cap opens in
      let size : length (replicate {A = ℕ} 4097 0) ≡ 4097 = length-replicate {A = ℕ} 4097 0 in
      let size_16 : rx.ring_size ≡ 16 = opened.asked (omega arith) (omega arith) in
      let all : (out : Thread)
          → Prints print_rssi true 16 [] (thread_session scripts) out
          → PrintsAll print_rssi scripts out =
        λ out w. record {
          printed = w.printed;
          holds = w.holds;
          ended = w.ended;
          in_order = rw w.holds (session-in_order true 4013 16 1_000_000_000 scripts []);
          drained = session-drained true 4013 16 1_000_000_000 scripts [];
          lossless = λ few.
              rw w.holds
                (session-lossless true 4013 16 1_000_000_000 scripts [] (omega (arith, few)));
        } in
      Sys-bind (λ out. Prints print_rssi true 16 [] (thread_session scripts) out.0 × (out.1 ≡ log))
        (λ out. PrintsAll print_rssi scripts out.0)
        (lift (receive_loop print_rssi scripts rx (replicate 4097 0) []))
        (λ thread. drop_if_ended k drop_capture cap thread thread.ended) log
        (lift-Returns _ _ log (
          rw opened.empty at (
            receive_loop-Prints print_rssi true 16 scripts rx (replicate 4097 0) [] c (record {
              valid = opened.valid;
              settings = record {
                ignores = opened.ignore;
                max_payload = opened.max_payload;
                size = size_16;
              };
              held = rw opened.empty tt;
              room = omega (arith, size);
            }))))
        (λ thread log' w.
          Returns-weaken (λ out. out.0 ≡ thread) (λ out. PrintsAll print_rssi scripts out.0) _
            (drop_if_ended-same cap thread thread.ended log')
            (λ out e. subst (PrintsAll print_rssi scripts) (sym e) (all thread w.0)))
