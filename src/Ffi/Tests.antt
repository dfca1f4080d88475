-- ===== src/Ffi/Tests.antt =====
-- The functions of src/ffi.rs at concrete inputs.
use meshinator.Prelude.{
  ℕ, zero, suc, ◌≤◌, ◌≡◌, refl, inl, false, List, [], ◌∷◌, ◌++◌, none, some, replicate, get_or,
  arith,
}
use meshinator.Prelude.Int.{pos}
use meshinator.Run.{done, Returns}
use meshinator.Kernel.{Syscall, Kernel, socket, setsockopt_bypass, ioctl_ifindex, bind_to}
use meshinator.Proto.{WfbTxConfig, default_meta}
use meshinator.Tx.{
  WfbTx, open_tx, open_pfpacket_tx_socket, with_socket, finish_open, build_radiotap_ht,
  patch_radiotap, patched_tx, mcs_bw,
}
use meshinator.Tx.Frames.{IsTx, ieee_header, radiotap_header}
use meshinator.Tx.Descriptors.{closes}
use meshinator.Rx.State.{WfbRx}
use meshinator.Rx.Ring.Valid.{IsValid}
use meshinator.Rx.Recv.{Round, no_event}
use meshinator.Rx.Open.{PcapLib, success}
use meshinator.Ffi.{CTxConfig, CRxConfig, default_c_meta, finished, c_iface}
use meshinator.Ffi.Utf8.{is_text, following}
use meshinator.Ffi.Laws.{Finishes}
use meshinator.Ffi.Transmit.{tx_open_with, wfb_tx_open, wfb_tx_close, wfb_tx_send}
use meshinator.Ffi.Transmit.Opening.{OutAccounts, wfb_tx_open-OutAccounts, wfb_tx_close-wfb_tx_open}
use meshinator.Ffi.Transmit.Sending.{CSent, wfb_tx_send-CSent}
use meshinator.Ffi.Handles.{wfb_rx_open}
use meshinator.Ffi.Handles.Opening.{OutStored, wfb_rx_open-Stored}
use meshinator.Ffi.Receive.{wfb_rx_recv}
use meshinator.Ffi.Receive.Answers.{CAnswered, wfb_rx_recv_accounts}

abbrev kernel : Kernel
kernel = record { ret = λ log. pos 3; errno = λ log. 0; ifindex = λ log. pos 1 }

-- The interface w.
abbrev config : CTxConfig
config = record {
  iface = some (119 ∷ []);
  stream_id = 7;
  frame_type = 8;
  mcs_index = 3;
  bandwidth = 40;
}

abbrev opened_tx : WfbTx
opened_tx = record {
  fd = pos 3;
  stream_id = 7;
  frame_type = 8;
  ieee80211_seq = 0;
  ieee_hdr = ieee_header 8 7 0 0;
  radiotap_ht = radiotap_header 1 3;
}

abbrev open_log : List Syscall
open_log =
    bind_to (pos 3) (pos 1)
    ∷ ioctl_ifindex (pos 3) (119 ∷ replicate 15 0)
    ∷ setsockopt_bypass (pos 3)
    ∷ socket
    ∷ []

opens :
    wfb_tx_open kernel (some config) (some none) []
    ≡ done (finished ((0, some (some opened_tx)), open_log))
unfolding wfb_tx_open tx_open_with c_iface is_text following open_tx open_pfpacket_tx_socket
    with_socket finish_open build_radiotap_ht patch_radiotap patched_tx mcs_bw
opens = refl

wfb_tx_open-OutAccounts_example :
    Returns
      (Finishes (OutAccounts kernel [] (some none)))
      (wfb_tx_open kernel (some config) (some none) [])
wfb_tx_open-OutAccounts_example = wfb_tx_open-OutAccounts kernel [] (some config) (some none)

wfb_tx_close-wfb_tx_open_example :
    (calls : List Syscall) × (wfb_tx_close kernel (some opened_tx) open_log
      ≡ done (finished (0, calls ++ (socket ∷ []))))
    × (closes calls ≡ pos 3 ∷ [])
wfb_tx_close-wfb_tx_open_example =
    wfb_tx_close-wfb_tx_open kernel [] (some config) none opened_tx open_log opens

abbrev tx_config : WfbTxConfig
tx_config = record {
  iface = 119 ∷ [];
  stream_id = 7;
  frame_type = 8;
  mcs_index = 3;
  bandwidth = 40;
}

abbrev opened_tx-IsTx : IsTx tx_config 0 opened_tx
opened_tx-IsTx = record {
  sequence = refl;
  lo = 0;
  hi = 0;
  ieee = refl;
  bw = 1;
  mcs = 3;
  radiotap = refl;
  bw_range = omega arith;
  bw_asked = refl;
  mcs_range = omega arith;
  mcs_asked = refl;
}

-- Two of the three bytes at the pointer.
wfb_tx_send-CSent_example :
    (wfb_tx_send kernel none (some (9 ∷ 8 ∷ 7 ∷ [])) 2 5 [] ≡ done (finished ((1, none), [])))
    × Returns
        (Finishes
          (CSent kernel tx_config 0 opened_tx opened_tx-IsTx (some (9 ∷ 8 ∷ 7 ∷ [])) 2 5 []))
        (wfb_tx_send kernel (some opened_tx) (some (9 ∷ 8 ∷ 7 ∷ [])) 2 5 [])
wfb_tx_send-CSent_example =
    wfb_tx_send-CSent kernel tx_config 0 opened_tx opened_tx-IsTx (some (9 ∷ 8 ∷ 7 ∷ [])) 2 5 []
      (omega arith)

-- A capture library whose calls all succeed.
abbrev willing : PcapLib
willing = record {
  Inactive = Unit {0};
  Active = Unit {0};
  from_device = λ iface. success tt;
  promisc = λ b c. c;
  immediate_mode = λ b c. c;
  snaplen = λ n c. c;
  timeout = λ ms c. c;
  activate = λ c. success tt;
  setnonblock = λ c. success tt;
  filter = λ text optimize c. success tt;
  as_raw_fd = λ c. pos 5;
}

abbrev rx_side : CRxConfig
rx_side = record { iface = some (119 ∷ []); stream_id = 7; ignore_self_injected = 1; ring_size = 4 }

-- The interface w is opened.
wfb_rx_open-Stored_example :
    (wfb_rx_open willing none (some none) ≡ done (finished (1, some none)))
    × (wfb_rx_open willing (some rx_side) none ≡ done (finished (1, none)))
    × Returns
        (Finishes (OutStored willing rx_side none))
        (wfb_rx_open willing (some rx_side) (some none))
wfb_rx_open-Stored_example = wfb_rx_open-Stored willing rx_side none

-- One frame of two bytes is held.
abbrev rx : WfbRx
rx = record {
  iface = [];
  ignore_self_injected = false;
  max_payload = 2;
  ring_size = 2;
  ring_count = 1;
  ring_head = 0;
  ring_tail = 1;
  ring_payload_store = 5 ∷ 6 ∷ 0 ∷ 0 ∷ [];
  ring_payload_len = 2 ∷ 0 ∷ [];
  ring_meta = default_meta ∷ default_meta ∷ [];
  fd = pos 3;
}

lens : (i : ℕ) → get_or (2 ∷ 0 ∷ []) i 0 ≤ 2
lens zero = omega arith
lens (suc zero) = omega arith
lens (suc (suc i)) = omega arith

rx-IsValid : IsValid rx
rx-IsValid = record {
  size_pos = omega arith;
  count_le = omega arith;
  head_lt = omega arith;
  tail_eq = refl;
  lens_slots = refl;
  meta_slots = refl;
  store_bytes = refl;
  lens_fit = lens;
}

abbrev script : List Round
script = record { elapsed = 2_000_000; poll = λ ms. no_event; packets = [] } ∷ []

wfb_rx_recv_accounts_example :
    Returns
      (Finishes (CAnswered rx (0 ∷ 0 ∷ 0 ∷ []) 1 2 9 (some default_c_meta) script))
      (wfb_rx_recv (some rx) (some (0 ∷ 0 ∷ 0 ∷ [])) 1 2 (some 9) (some default_c_meta) script)
wfb_rx_recv_accounts_example =
    wfb_rx_recv_accounts rx (0 ∷ 0 ∷ 0 ∷ []) 1 2 9 (some default_c_meta) script rx-IsValid
      (omega arith) (omega arith) (tt, tt) (inl (omega arith))
