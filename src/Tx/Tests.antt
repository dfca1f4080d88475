-- ===== src/Tx/Tests.antt =====
-- The transmitter of src/tx.rs at concrete inputs, on a system whose calls all succeed.
use meshinator.Prelude.{inl, inr, ℕ, ◌≡◌, refl, List, [], ◌∷◌, replicate, arith}
use meshinator.Prelude.Int.{pos, negsuc}
use meshinator.Run.{Returns, done}
use meshinator.Kernel.{Syscall, Kernel, socket, setsockopt_bypass, ioctl_ifindex, bind_to}
use meshinator.Proto.{WfbTxConfig, ok}
use meshinator.Tx.{
  WfbTx, open_tx, open_pfpacket_tx_socket, with_socket, finish_open, build_radiotap_ht,
  patch_radiotap, patched_tx, mcs_bw, drop_tx, close_tx, send,
}
use meshinator.Tx.Frames.{IsTx, ieee_header, radiotap_header, Sent, send-Sent}
use meshinator.Tx.Descriptors.{OpenAccounts, EndsWith, open_tx-OpenAccounts, open_tx-close_tx}
use meshinator.Tx.Refused.{OpenOutcome, open_tx-OpenOutcome}
use meshinator.Tx.Accepted
use meshinator.Tx.Accepted.{open_tx-ok}
use meshinator.Tx.Opened.{OpenedTx, open_tx-OpenedTx}

abbrev kernel : Kernel
kernel = record { ret = λ log. pos 3; errno = λ log. 0; ifindex = λ log. pos 1 }

abbrev config : WfbTxConfig
config = record { iface = 119 ∷ []; stream_id = 7; frame_type = 8; mcs_index = 3; bandwidth = 40 }

abbrev opened_tx : WfbTx
opened_tx = record {
  fd = pos 3;
  stream_id = 7;
  frame_type = 8;
  ieee80211_seq = 0;
  ieee_hdr = ieee_header 8 7 0 0;
  radiotap_ht = radiotap_header 1 3;
}

abbrev opened_tx-IsTx : IsTx config 0 opened_tx
opened_tx-IsTx = record {
  sequence = refl;
  lo = 0;
  hi = 0;
  ieee = refl;
  bw = 1;
  mcs = 3;
  radiotap = refl;
  bw_range = omega arith;
  bw_asked = refl;
  mcs_range = omega arith;
  mcs_asked = refl;
}

send-Sent_example :
    Returns
      (Sent kernel config 0 opened_tx opened_tx-IsTx 5 (9 ∷ 8 ∷ []) [])
      (send kernel opened_tx (9 ∷ 8 ∷ []) 5 [])
send-Sent_example =
    send-Sent kernel config 0 opened_tx opened_tx-IsTx (9 ∷ 8 ∷ []) 5 [] (omega arith)

open_tx-OpenAccounts_example : Returns (OpenAccounts kernel []) (open_tx kernel config [])
open_tx-OpenAccounts_example = open_tx-OpenAccounts kernel config []

open_tx-OpenedTx_example : Returns (OpenedTx config) (open_tx kernel config [])
open_tx-OpenedTx_example = open_tx-OpenedTx kernel config []

-- Every call fails; without the right to open a packet socket, `errno` is 1.
abbrev unprivileged : Kernel
unprivileged = record { ret = λ log. negsuc 0; errno = λ log. 1; ifindex = λ log. pos 0 }

open_tx-OpenOutcome_example :
    Returns (OpenOutcome unprivileged config []) (open_tx unprivileged config [])
open_tx-OpenOutcome_example = open_tx-OpenOutcome unprivileged config []

open_tx-ok_example :
    (tx : WfbTx) × (open_tx kernel config []
      ≡ done (ok tx, Accepted.open_log kernel config.iface []))
open_tx-ok_example =
    open_tx-ok kernel (λ log. refl) config []
      (record {
        named = omega arith;
        name_fits = omega arith;
        stream = λ e. omega (arith, e);
        frame_type = inl refl;
      })
      (omega arith, inr (inr refl))

abbrev name : List ℕ
name = 119 ∷ replicate 15 0

abbrev open_log : List Syscall
open_log =
    bind_to (pos 3) (pos 1) ∷ ioctl_ifindex (pos 3) name ∷ setsockopt_bypass (pos 3) ∷ socket ∷ []

opens : open_tx kernel config [] ≡ done (ok opened_tx, open_log)
unfolding open_tx open_pfpacket_tx_socket with_socket finish_open build_radiotap_ht patch_radiotap
    patched_tx mcs_bw
opens = refl

open_tx-close_tx_example :
    EndsWith kernel [] (pos 3 ∷ []) (drop_tx kernel opened_tx open_log)
    × EndsWith kernel [] (pos 3 ∷ pos 3 ∷ []) (close_tx kernel opened_tx open_log)
open_tx-close_tx_example = open_tx-close_tx kernel config [] opened_tx open_log opens
