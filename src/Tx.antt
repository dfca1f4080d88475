-- ===== src/Tx.antt =====
-- src/tx.rs: `WfbTx`, its headers, `open`, `close`, `send` and `drop`.
-- The arrays have fixed sizes and every index into them is a constant in range, so that `set` and
-- `overwrite` are the writes of the code.
pub mod Descriptors
pub mod Frames
pub mod Opened
pub mod Accepted
pub mod Refused
mod Tests
use meshinator.Prelude.{
  ℕ, ◌+◌, ◌/◌, ◌%◌, ◌^◌, bit_and, Bool, not, ◌&&◌, ◌||◌, List, [], ◌∷◌, length, set, overwrite,
  replicate, ltb, leb, ◌==◌, if◌then◌else◌,
}
use meshinator.Prelude.Int.{ℤ, is_negative}
use meshinator.Kernel.{
  Kernel, Sys, ◌>>=◌, pure, call, last_os_error, read_ifindex, lift, socket, setsockopt_bypass,
  ioctl_ifindex, bind_to, sendmsg, close_fd,
}
use meshinator.Proto.{
  WfbTxConfig, Result, ok, err, invalid_argument, io, iface_empty, stream_id_zero,
  frame_type_unknown, iface_too_long, mcs_index_too_large, bandwidth_unknown, payload_too_large,
  wfb_frame_type_data, wfb_frame_type_rts, wfb_proto_version, compute_max_payload, be_bytes_u32,
  encode, WfbFrameHeader,
}

abbrev pub radiotap_ht_template : List ℕ
radiotap_ht_template =
    0x00 ∷ 0x00 ∷ 0x0d ∷ 0x00 ∷ 0x00 ∷ 0x80 ∷ 0x08 ∷ 0x00 ∷ 0x08 ∷ 0x00 ∷ 0x37 ∷ 0x00 ∷ 0x00 ∷ []

abbrev pub mcs_flags_off : ℕ
mcs_flags_off = 11

abbrev pub mcs_idx_off : ℕ
mcs_idx_off = 12

abbrev pub mcs_bw_20 : ℕ
mcs_bw_20 = 0

abbrev pub mcs_bw_40 : ℕ
mcs_bw_40 = 1

abbrev pub ieee80211_header_template : List ℕ
ieee80211_header_template =
    0x08 ∷ 0x01 ∷ 0x00 ∷ 0x00 ∷ 0xff ∷ 0xff ∷ 0xff ∷ 0xff ∷ 0xff ∷ 0xff ∷ 0x57 ∷ 0x42 ∷ 0xaa ∷ 0xbb
    ∷ 0xcc ∷ 0xdd ∷ 0x57 ∷ 0x42 ∷ 0xaa ∷ 0xbb ∷ 0xcc ∷ 0xdd ∷ 0x00 ∷ 0x00 ∷ []

abbrev pub src_mac_third_byte : ℕ
src_mac_third_byte = 12

abbrev pub dst_mac_third_byte : ℕ
dst_mac_third_byte = 18

abbrev pub frame_seq_lb : ℕ
frame_seq_lb = 22

abbrev pub frame_seq_hb : ℕ
frame_seq_hb = 23

pub record WfbTx : Type 0 where
  pub fd : ℤ
  pub stream_id : ℕ
  pub frame_type : ℕ
  pub ieee80211_seq : ℕ
  pub ieee_hdr : List ℕ
  pub radiotap_ht : List ℕ

-- `libc::IFNAMSIZ`
abbrev pub ifnamsiz : ℕ
ifnamsiz = 16

unfoldable pub open_pfpacket_tx_socket : Kernel → List ℕ → Sys (Result ℤ)
open_pfpacket_tx_socket k iface = do
  fd ← call k socket
  if is_negative fd then (do e ← last_os_error k; pure (err (io e))) else do
    bypass ← call k (setsockopt_bypass fd)
    if length iface == 0 || leb ifnamsiz (length iface)
        then (do rc ← call k (close_fd fd); pure (err (invalid_argument (iface_too_long iface))))
        else do
          rc ← call k (ioctl_ifindex fd (overwrite (replicate ifnamsiz 0) 0 iface))
          if is_negative rc
              then (do e ← last_os_error k; rc ← call k (close_fd fd); pure (err (io e)))
              else do
                ifindex ← read_ifindex k
                rc ← call k (bind_to fd ifindex)
                if is_negative rc
                    then (do e ← last_os_error k; rc ← call k (close_fd fd); pure (err (io e)))
                    else pure (ok fd)

-- `match bandwidth`
unfoldable pub mcs_bw : ℕ → Result ℕ
mcs_bw bandwidth =
    if bandwidth == 20
    then ok mcs_bw_20
    else if bandwidth == 40
    then ok mcs_bw_40
    else err (invalid_argument (bandwidth_unknown bandwidth))

unfoldable pub patch_radiotap : WfbTx → ℕ → Result ℕ → Result WfbTx
patch_radiotap tx mcs_index (err e) = err e
patch_radiotap tx mcs_index (ok bw) = ok (record tx {
  radiotap_ht = set (set radiotap_ht_template mcs_flags_off bw) mcs_idx_off mcs_index;
})

unfoldable pub build_radiotap_ht : WfbTx → ℕ → ℕ → Result WfbTx
build_radiotap_ht tx mcs_index bandwidth =
    if ltb 0x0f mcs_index
    then err (invalid_argument (mcs_index_too_large mcs_index))
    else patch_radiotap tx mcs_index (mcs_bw bandwidth)

-- `impl Drop for WfbTx`
unfoldable pub drop_tx : Kernel → WfbTx → Sys (Unit {0})
drop_tx k tx =
    if not (is_negative tx.fd) then (do rc ← call k (close_fd tx.fd); pure tt) else pure tt

-- The transmitter once the socket is there, with the frame control and the stream patched in.
unfoldable pub patched_tx : WfbTxConfig → ℤ → WfbTx
patched_tx cfg fd =
    let stream_id_be = be_bytes_u32 cfg.stream_id in
    let hdr = set ieee80211_header_template 0 cfg.frame_type in
    record {
      fd = fd;
      stream_id = cfg.stream_id;
      frame_type = cfg.frame_type;
      ieee80211_seq = 0;
      ieee_hdr =
          overwrite (overwrite hdr src_mac_third_byte stream_id_be) dst_mac_third_byte stream_id_be;
      radiotap_ht = radiotap_ht_template;
    }

-- `tx.build_radiotap_ht(…)?; Ok(tx)`: on the error the transmitter is dropped.
unfoldable pub finish_open : Kernel → WfbTx → Result WfbTx → Sys (Result WfbTx)
finish_open k tx (ok tx') = pure (ok tx')
finish_open k tx (err e) = do dropped ← drop_tx k tx; pure (err e)

-- `Self::open_pfpacket_tx_socket(…)?` and what follows.
unfoldable pub with_socket : Kernel → WfbTxConfig → ℕ → ℕ → Result ℤ → Sys (Result WfbTx)
with_socket k cfg mcs_index bandwidth (err e) = pure (err e)
with_socket k cfg mcs_index bandwidth (ok fd) =
    let tx = patched_tx cfg fd in finish_open k tx (build_radiotap_ht tx mcs_index bandwidth)

abbrev pub mcs_index_or_one : ℕ → ℕ
mcs_index_or_one n = if n == 0 then 1 else n

abbrev pub bandwidth_or_20 : ℕ → ℕ
bandwidth_or_20 n = if n == 0 then 20 else n

unfoldable pub open_tx : Kernel → WfbTxConfig → Sys (Result WfbTx)
open_tx k cfg =
    if length cfg.iface == 0
    then pure (err (invalid_argument iface_empty))
    else if cfg.stream_id == 0
    then pure (err (invalid_argument stream_id_zero))
    else if not (cfg.frame_type == wfb_frame_type_data)
        && not (cfg.frame_type == wfb_frame_type_rts)
    then pure (err (invalid_argument frame_type_unknown))
    else do
      fd ← open_pfpacket_tx_socket k cfg.iface
      with_socket k cfg (mcs_index_or_one cfg.mcs_index) (bandwidth_or_20 cfg.bandwidth) fd

-- `close` takes the transmitter by value, so that it is dropped at the end.
pub close_tx : Kernel → WfbTx → Sys (Unit {0})
close_tx k tx = do rc ← call k (close_fd tx.fd); drop_tx k tx

-- The header's sequence number, and the next one.
pub next_sequence : WfbTx → WfbTx
next_sequence tx =
    let seq16 = tx.ieee80211_seq in
    record tx {
      ieee_hdr =
          set (set tx.ieee_hdr frame_seq_lb (bit_and seq16 0xff % 2 ^ 8)) frame_seq_hb
            (bit_and (seq16 / 2 ^ 8) 0xff % 2 ^ 8);
      ieee80211_seq = (tx.ieee80211_seq + 16) % 2 ^ 16;
    }

pub send : Kernel → WfbTx → List ℕ → ℕ → Sys (WfbTx × Result (Unit {0}))
send k tx payload seq =
    if ltb compute_max_payload (length payload)
    then pure (tx, err (invalid_argument (payload_too_large (length payload) compute_max_payload)))
    else do
      hdr_bytes ← lift (
          encode (record {
            version = wfb_proto_version;
            seq = seq;
            payload_len = length payload % 2 ^ 16;
            flags = 0;
          }))
      let tx' = next_sequence tx
      rc ← call k (sendmsg tx'.fd (tx'.radiotap_ht ∷ tx'.ieee_hdr ∷ hdr_bytes ∷ payload ∷ []))
      if is_negative rc then (do e ← last_os_error k; pure (tx', err (io e))) else pure (tx', ok tt)
