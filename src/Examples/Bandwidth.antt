-- ===== src/Examples/Bandwidth.antt =====
-- examples/bandwidth.rs: the two loops that measure a link, and `main`.
-- The command line is read by the clap crate and is an argument. Both loops run until an error; a list
-- of turns is how far they are followed, and what is returned when it ends is the state at that point.
-- The clock is outside: a turn has its two readings of `last.elapsed()`, in nanoseconds. Of a line that
-- is printed the numbers are kept that it is formatted from.
pub mod Counting
pub mod Link
pub mod Sending
pub mod Receiving
mod Tests
use meshinator.Prelude.{
  ℕ, ◌+◌, ◌*◌, ◌%◌, ◌^◌, max, true, List, [], ◌∷◌, ◌++◌, Option, none, some, length, replicate, ltb,
  leb, ◌==◌, if◌then◌else◌,
}
use meshinator.Kernel.{Kernel, Sys, ◌>>=◌, pure, lift}
use meshinator.Proto.{
  WfbTxConfig, WfbRxConfig, WfbRxMeta, WfbError, Result, ok, err, wfb_frame_type_data,
  wfb_frame_type_rts,
}
use meshinator.Tx.{WfbTx, open_tx, send, drop_tx}
use meshinator.Rx.State.{WfbRx}
use meshinator.Rx.Recv.{Round, Received, recv}
use meshinator.Rx.Open.{PcapLib, open_rx}
use meshinator.Rx.Drop.{drop_rx}

pub data FrameMode : Type 0 where
  data_frames : FrameMode
  rts_frames : FrameMode

abbrev pub frame_type : FrameMode → ℕ
frame_type data_frames = wfb_frame_type_data
frame_type rts_frames = wfb_frame_type_rts

pub data Role : Type 0 where
  tx_role : Role
  rx_role : Role

pub record Args : Type 0 where
  pub role : Role
  pub iface : List ℕ
  pub stream_id : ℕ
  pub frame_mode : FrameMode
  pub payload_size : ℕ
  pub tx_interval_us : ℕ
  pub report_ms : ℕ

-- What the program does besides sending and receiving: a rate of bytes and packets over nanoseconds, the
-- totals of packets and bytes, a sleep of microseconds.
pub data Output : Type 0 where
  rate : Role → ℕ → ℕ → ℕ → Output
  totals : Role → ℕ → ℕ → Output
  slept : ℕ → Output

-- `secs <= 0.0` is a duration of no nanoseconds.
abbrev pub report_line : Role → ℕ → ℕ → ℕ → List Output
report_line prefix bytes packets dt = if dt == 0 then [] else rate prefix bytes packets dt ∷ []

-- The counters of a loop, and its output so far, oldest first.
pub record Meter : Type 0 where
  pub bytes_interval : ℕ
  pub packets_interval : ℕ
  pub bytes_total : ℕ
  pub packets_total : ℕ
  pub output : List Output

abbrev pub new_meter : Meter
new_meter = record {
  bytes_interval = 0;
  packets_interval = 0;
  bytes_total = 0;
  packets_total = 0;
  output = [];
}

-- One packet of `n` bytes; the counters are `u64`.
abbrev pub count : ℕ → Meter → Meter
count n m = record m {
  bytes_interval = (m.bytes_interval + n) % 2 ^ 64;
  packets_interval = (m.packets_interval + 1) % 2 ^ 64;
  bytes_total = (m.bytes_total + n) % 2 ^ 64;
  packets_total = (m.packets_total + 1) % 2 ^ 64;
}

-- The two readings of the clock: for the test, and for the report.
pub record Tick : Type 0 where
  pub elapsed : ℕ
  pub dt : ℕ

pub report : Role → ℕ → Tick → Meter → Meter
report prefix report_every t m =
    if leb report_every t.elapsed
    then record m {
      output =
          m.output
          ++ (report_line prefix m.bytes_interval m.packets_interval t.dt
              ++ (totals prefix m.packets_total m.bytes_total ∷ []));
      bytes_interval = 0;
      packets_interval = 0;
    }
    else m

abbrev pub pace : Option ℕ → Meter → Meter
pace none m = m
pace (some us) m = record m { output = m.output ++ (slept us ∷ []) }

abbrev pub pacing_of : Args → Option ℕ
pacing_of args = if ltb 0 args.tx_interval_us then some args.tx_interval_us else none

-- In nanoseconds.
abbrev pub report_every_of : Args → ℕ
report_every_of args = max args.report_ms 100 * 1_000_000

-- How far a loop came: the error that ended it, or none while it runs.
pub record Ran : Type 0 where
  pub meter : Meter
  pub ended : Option WfbError

abbrev pub tx_cfg : Args → WfbTxConfig
tx_cfg args = record {
  iface = args.iface;
  stream_id = args.stream_id;
  frame_type = frame_type args.frame_mode;
  mcs_index = 7;
  bandwidth = 20;
}

module _ (k : Kernel) where
  -- `?` on the result of `send`; `again` is the rest of the loop.
  abbrev pub after_send :
      (WfbTx → Sys (WfbTx × Ran)) → Meter → WfbTx → Result (Unit {0}) → Sys (WfbTx × Ran)
  after_send again m tx (ok u) = again tx
  after_send again m tx (err e) = pure (tx, record { meter = m; ended = some e })

  pub tx_loop : List ℕ → ℕ → Option ℕ → List Tick → WfbTx → ℕ → Meter → Sys (WfbTx × Ran)
  tx_loop payload report_every pacing [] tx seq m = pure (tx, record { meter = m; ended = none })
  tx_loop payload report_every pacing (t ∷ ticks) tx seq m = do
    r ← send k tx payload seq
    after_send
        (λ tx'.
          tx_loop payload report_every pacing ticks tx' ((seq + 1) % 2 ^ 32)
            (pace pacing (report tx_role report_every t (count (length payload) m))))
        m r.0 r.1

  -- The transmitter is dropped when the loop is left.
  abbrev pub drop_tx_if_ended : WfbTx → Ran → Option WfbError → Sys Ran
  drop_tx_if_ended tx ran none = pure ran
  drop_tx_if_ended tx ran (some e) = do dropped ← drop_tx k tx; pure ran

  pub with_tx : Args → List Tick → Result WfbTx → Sys Ran
  with_tx args ticks (err e) = pure (record { meter = new_meter; ended = some e })
  with_tx args ticks (ok tx) = do
    r ←
        tx_loop (replicate (max args.payload_size 1) 0x42) (report_every_of args) (pacing_of args)
          ticks tx 1 new_meter
    drop_tx_if_ended r.0 r.1 r.1.ended

  pub run_tx : Args → List Tick → Sys Ran
  run_tx args ticks = do tx ← open_tx k (tx_cfg args); with_tx args ticks tx

abbrev pub rx_cfg : Args → WfbRxConfig
rx_cfg args = record {
  iface = args.iface;
  stream_id = args.stream_id;
  rcv_buf_size = none;
  ignore_self_injected = true;
  ring_size = 256;
}

-- A turn of the receiving loop: the script of `recv`, and the clock after it.
pub record Turn : Type 0 where
  pub rounds : List Round
  pub tick : Tick

-- What `recv` answered: an error leaves the loop with `?`.
abbrev pub after_recv {ℓ} :
    {A : Type ℓ} → (Meter → A) → (WfbError → A) → Meter → Result (Option (ℕ × WfbRxMeta)) → A
after_recv again leave m (err e) = leave e
after_recv again leave m (ok none) = again m
after_recv again leave m (ok (some (n, meta))) = again (count n m)

pub rx_loop : ℕ → List Turn → WfbRx → List ℕ → Meter → Sys (WfbRx × Ran)
rx_loop report_every [] rx buf m = pure (rx, record { meter = m; ended = none })
rx_loop report_every (t ∷ turns) rx buf m = do
  r ← lift (recv rx buf 200_000_000 t.rounds)
  after_recv (λ m'. rx_loop report_every turns r.rx r.buf (report rx_role report_every t.tick m'))
      (λ e. pure (r.rx, record { meter = m; ended = some e })) m r.result

module _ (k : Kernel) (lib : PcapLib) (drop_capture : lib.Active → Sys (Unit {0})) where
  -- The receiver is dropped when the loop is left.
  abbrev pub drop_rx_if_ended : WfbRx → lib.Active → Ran → Option WfbError → Sys Ran
  drop_rx_if_ended rx cap ran none = pure ran
  drop_rx_if_ended rx cap ran (some e) = do dropped ← drop_rx k drop_capture rx cap; pure ran

  pub with_rx : Args → List Turn → Result (WfbRx × lib.Active) → Sys Ran
  with_rx args turns (err e) = pure (record { meter = new_meter; ended = some e })
  with_rx args turns (ok (rx, cap)) = do
    r ← rx_loop (report_every_of args) turns rx (replicate (max args.payload_size 4096) 0) new_meter
    drop_rx_if_ended r.0 cap r.1 r.1.ended

  pub run_rx : Args → List Turn → Sys Ran
  run_rx args turns = with_rx args turns (open_rx lib (rx_cfg args))

  -- `none` is the refusal of the stream 0.
  pub run_main : Args → List Tick → List Turn → Sys (Option Ran)
  run_main args ticks turns = if args.stream_id == 0 then pure none else elim args.role [
    | tx_role ↦ do ran ← run_tx k args ticks; pure (some ran)
    | rx_role ↦ do ran ← run_rx args turns; pure (some ran)
  ]
