-- ===== src/Examples/Tests.antt =====
-- The main thread of examples/simple_txrx.rs on three lines, of which one is empty, and its receiving
-- thread on two packets.
use meshinator.Rx.Recv.{Packet, Round, ready, no_event}
use meshinator.Examples.Receiver.Spawned.{receive_thread}
use meshinator.Examples.Receiver.Printing.{AreScripts}
use meshinator.Examples.Receiver.Whole.{PrintsAll, receive_thread-PrintsAll}
use meshinator.Prelude.{ℕ, true, inl, inr, ◌++◌, replicate, ◌≡◌, refl, false, List, [], ◌∷◌, arith}
use meshinator.Prelude.Int.{pos, i8_min, i8_max}
use meshinator.Run.{Returns, done}
use meshinator.Radiotap.{RadiotapMeta}
use meshinator.Kernel.{Kernel, Sys, close_fd}
use meshinator.Proto.{ok}
use meshinator.Rx.Open.{PcapLib, success, open_rx, open_capture, fresh}
use meshinator.Examples.{Args, data_mode, rx_cfg, Line, text, run_main}
use meshinator.Examples.Main.{AllSent, run_main-AllSent}

abbrev pub kernel : Kernel
kernel = record { ret = λ log. pos 3; errno = λ log. 0; ifindex = λ log. pos 1 }

-- A capture library whose calls all succeed.
abbrev pub willing : PcapLib
willing = record {
  Inactive = Unit {0};
  Active = Unit {0};
  from_device = λ iface. success tt;
  promisc = λ b c. c;
  immediate_mode = λ b c. c;
  snaplen = λ n c. c;
  timeout = λ ms c. c;
  activate = λ c. success tt;
  setnonblock = λ c. success tt;
  filter = λ expression optimize c. success tt;
  as_raw_fd = λ c. pos 5;
}

-- A capture that closes its descriptor.
abbrev pub drop_willing : Unit {0} → Sys (Unit {0})
drop_willing c log = done (tt, close_fd (pos 5) ∷ log)

abbrev pub args : Args
args = record { iface = 119 ∷ []; stream_id = 7; mode = data_mode; print_rssi = false }

abbrev pub input : List Line
input = text (104 ∷ 105 ∷ []) ∷ text [] ∷ text (33 ∷ []) ∷ []

-- A radiotap header of eight bytes, and what it says.
abbrev pub own_header : List ℕ
own_header = 0 ∷ 0 ∷ 8 ∷ 0 ∷ 0 ∷ 0 ∷ 0 ∷ 0 ∷ []

abbrev pub heard_meta : RadiotapMeta
heard_meta = record {
  rt_flags = 0;
  self_injected = false;
  freq = 0;
  antenna = replicate 4 255;
  rssi = replicate 4 i8_min;
  noise = replicate 4 i8_max;
  ant_count = 0;
  mcs_index = 0;
  bandwidth = 20;
  radiotap_len = 8;
}

pub opened : open_rx willing (rx_cfg args) ≡ ok (fresh (rx_cfg args) (pos 5), tt)
unfolding open_rx open_capture
opened = refl

run_main-AllSent_example :
    Returns (AllSent kernel (λ log. refl) args input []) (run_main kernel willing args input [])
run_main-AllSent_example =
    run_main-AllSent kernel (λ log. refl) willing args input [] (fresh (rx_cfg args) (pos 5)) tt
      (omega arith) (omega arith) (λ e. omega (arith, e)) opened
      (omega arith, (omega arith, (omega arith, tt)))

-- A radiotap header of eight bytes, an 802.11 header, and a frame with payload 9 9; captured twice.
abbrev packet : List ℕ
packet =
    (0 ∷ 0 ∷ 8 ∷ 0 ∷ 0 ∷ 0 ∷ 0 ∷ 0 ∷ 8 ∷ 1 ∷ 0 ∷ 0 ∷ [])
    ++ (replicate 6 255
        ++ (0x57 ∷ 0x42 ∷ 0 ∷ 0 ∷ 0 ∷ 7 ∷ 0x57 ∷ 0x42 ∷ 0 ∷ 0 ∷ 0 ∷ 7 ∷ 0 ∷ 0 ∷ 0 ∷ 0 ∷ 0 ∷ 0 ∷ 1
            ∷ 0 ∷ 2 ∷ 0 ∷ 9 ∷ 9 ∷ []))

abbrev pub both_packets : List Packet
both_packets = record { caplen = 42; bytes = packet } ∷ record { caplen = 42; bytes = packet } ∷ []

-- The second call finds the second frame in the ring, and the third waits for nothing.
abbrev scripts : List (List Round)
scripts =
    (record { elapsed = 0; poll = λ ms. ready; packets = both_packets }
      ∷ record { elapsed = 1_000_000_000; poll = λ ms. no_event; packets = [] }
      ∷ [])
    ∷ (record { elapsed = 1_000_000_000; poll = λ ms. no_event; packets = [] } ∷ [])
    ∷ (record { elapsed = 1_000_000_000; poll = λ ms. no_event; packets = [] } ∷ [])
    ∷ []

scripts-AreScripts : AreScripts scripts
scripts-AreScripts = (
  (((omega arith, (omega arith, tt)), (tt, tt)), inr (inl (omega arith))),
  (((tt, tt), inl (omega arith)), (((tt, tt), inl (omega arith)), tt)),
)

receive_thread-PrintsAll_example :
    Returns
      (λ out. PrintsAll true scripts out.0)
      (receive_thread kernel drop_willing true scripts (fresh (rx_cfg args) (pos 5)) tt [])
receive_thread-PrintsAll_example =
    receive_thread-PrintsAll kernel willing drop_willing (λ c log. tt) true args
      (fresh (rx_cfg args) (pos 5)) tt scripts [] opened scripts-AreScripts
