-- ===== src/Examples.antt =====
-- examples/simple_txrx.rs: the main thread, which opens both ends and sends the lines of its input.
-- The command line is read by the clap crate and is an argument; the lines are what the standard input
-- yields, each with the bytes of a text or the error that ended the reading. The receiving thread, which
-- shares nothing with it, is in Receiver; that the main thread waits for it in the end is not modelled.
pub mod Air
pub mod Bandwidth
pub mod Chat
pub mod Lines
pub mod ParseU32
pub mod Receiver
pub mod Main
mod Tests
use meshinator.Prelude.{
  ℕ, ◌+◌, ◌%◌, ◌^◌, Bool, true, List, [], ◌∷◌, Option, none, length, ◌==◌, if◌then◌else◌,
}
use meshinator.Run.{Run, done}
use meshinator.Kernel.{Syscall, Kernel, Sys, ◌>>=◌, pure}
use meshinator.Proto.{
  WfbTxConfig, WfbRxConfig, WfbError, Result, ok, err, wfb_frame_type_data, wfb_frame_type_rts,
}
use meshinator.Tx.{WfbTx, open_tx, send, drop_tx}
use meshinator.Rx.State.{WfbRx}
use meshinator.Rx.Open.{PcapLib, open_rx}

pub data Mode : Type 0 where
  data_mode : Mode
  rts_mode : Mode

abbrev pub frame_type_of : Mode → ℕ
frame_type_of data_mode = wfb_frame_type_data
frame_type_of rts_mode = wfb_frame_type_rts

pub record Args : Type 0 where
  pub iface : List ℕ
  pub stream_id : ℕ
  pub mode : Mode
  pub print_rssi : Bool

abbrev pub tx_cfg : Args → WfbTxConfig
tx_cfg args = record {
  iface = args.iface;
  stream_id = args.stream_id;
  frame_type = frame_type_of args.mode;
  mcs_index = 1;
  bandwidth = 40;
}

abbrev pub rx_cfg : Args → WfbRxConfig
rx_cfg args = record {
  iface = args.iface;
  stream_id = args.stream_id;
  rcv_buf_size = none;
  ignore_self_injected = true;
  ring_size = 16;
}

pub data Line : Type 0 where
  text : List ℕ → Line
  unreadable : ℕ → Line

-- `Result<(), Box<dyn Error>>`
pub data Exit : Type 0 where
  all_sent : Exit
  zero_stream : Exit
  wfb_error : WfbError → Exit
  read_error : ℕ → Exit

-- `?` on the result of `send`; `again` is the rest of the loop.
abbrev pub after_send :
    (WfbTx → Sys (WfbTx × Exit)) → WfbTx → Result (Unit {0}) → Sys (WfbTx × Exit)
after_send again tx (ok u) = again tx
after_send again tx (err e) = pure (tx, wfb_error e)

module _ (k : Kernel) where
  -- The loop over the lines, with the sequence number of the next frame.
  pub send_lines : WfbTx → ℕ → List Line → Sys (WfbTx × Exit)
  send_lines tx seq [] = pure (tx, all_sent)
  send_lines tx seq (unreadable errno ∷ lines) = pure (tx, read_error errno)
  send_lines tx seq (text payload ∷ lines) =
      if length payload == 0 then send_lines tx seq lines else do
        r ← send k tx payload seq
        after_send (λ tx'. send_lines tx' ((seq + 1) % 2 ^ 32) lines) r.0 r.1

  -- The transmitter is dropped however the loop ends.
  pub send_and_drop : WfbTx → List Line → Sys Exit
  send_and_drop tx lines = do r ← send_lines tx 1 lines; dropped ← drop_tx k r.0; pure r.1

  pub with_receiver : (lib : PcapLib) → WfbTx → List Line → Result (WfbRx × lib.Active) → Sys Exit
  with_receiver lib tx lines (ok rx) = send_and_drop tx lines
  with_receiver lib tx lines (err e) = do dropped ← drop_tx k tx; pure (wfb_error e)

  pub with_transmitter : PcapLib → Args → List Line → Result WfbTx → Sys Exit
  with_transmitter lib args lines (err e) = pure (wfb_error e)
  with_transmitter lib args lines (ok tx) = with_receiver lib tx lines (open_rx lib (rx_cfg args))

  pub run_main : PcapLib → Args → List Line → Sys Exit
  run_main lib args lines =
      if args.stream_id == 0
      then pure zero_stream
      else do tx ← open_tx k (tx_cfg args); with_transmitter lib args lines tx
