-- ===== src/Rx/Parse.antt =====
-- src/rx.rs, `parse_and_enqueue_one_packet`, which returns `Ok(())` on every path: the model keeps the
-- receiver only.
pub mod FrameOf
pub mod Refine
pub mod Sound
use meshinator.Prelude.{
  ℕ, ◌+◌, ◌-◌, Bool, false, not, ◌&&◌, List, Option, none, some, length, ltb, leb, ◌==◌,
  if◌then◌else◌,
}
use meshinator.Run.{Run, done, ◌>>=◌, slice}
use meshinator.Proto.{
  WfbRxMeta, WfbFrameHeader, Result, ok, err, default_meta, decode, ieee80211_header_len,
  wfb_proto_version,
}
use meshinator.Radiotap.{RadiotapMeta, radiotap_meta_from_packet}
use meshinator.Radiotap.Layout.{has_flag, rtap_f_fcs, rtap_f_badfcs}
use meshinator.Rx.State.{WfbRx}
use meshinator.Rx.Ring.{enqueue_decoded}

-- The meta that is built for a frame.
unfoldable pub rx_meta : WfbFrameHeader → RadiotapMeta → WfbRxMeta
rx_meta sh radiotap = record default_meta {
  seq = sh.seq;
  flags = sh.flags;
  freq = radiotap.freq;
  mcs_index = radiotap.mcs_index;
  bandwidth = radiotap.bandwidth;
  antenna = radiotap.antenna;
  rssi = radiotap.rssi;
  noise = radiotap.noise;
  antenna_count = radiotap.ant_count;
  truncated = false;
}

-- From the `match` on the decoded header on; `sh_start` and the header's eight bytes are within
-- `effective_len`.
pub take_payload : WfbRx → List ℕ → RadiotapMeta → ℕ → ℕ → Result (WfbFrameHeader × ℕ) → Run WfbRx
take_payload rx pkt radiotap effective_len sh_start (err e) = done rx
take_payload rx pkt radiotap effective_len sh_start (ok (sh, n)) =
    if not (sh.version == wfb_proto_version)
    then done rx
    else let payload_start = sh_start + 8 in
      if ltb effective_len payload_start
      then done rx
      else if ltb (effective_len - payload_start) sh.payload_len
      then done rx
      else if ltb rx.max_payload sh.payload_len
      then done rx
      else do
        payload ← slice pkt payload_start (payload_start + sh.payload_len)
        enqueue_decoded rx payload (rx_meta sh radiotap)

-- The length without the frame check sequence.
pub effective_len_of : RadiotapMeta → List ℕ → ℕ
effective_len_of radiotap pkt =
    if has_flag radiotap.rt_flags rtap_f_fcs
    then (if leb 4 (length pkt) then length pkt - 4 else length pkt)
    else length pkt

pub parse_with : WfbRx → List ℕ → Option RadiotapMeta → Run WfbRx
parse_with rx pkt none = done rx
parse_with rx pkt (some radiotap) =
    if radiotap.self_injected && rx.ignore_self_injected
    then done rx
    else let effective_len = effective_len_of radiotap pkt in
      if has_flag radiotap.rt_flags rtap_f_badfcs
      then done rx
      else if leb effective_len (radiotap.radiotap_len + ieee80211_header_len)
      then done rx
      else let after_rt_len = effective_len - radiotap.radiotap_len in
        let after_ieee_len = after_rt_len - ieee80211_header_len in
        if ltb after_ieee_len 8
        then done rx
        else let ieee_start = radiotap.radiotap_len in
          let sh_start = ieee_start + ieee80211_header_len in
          let plaintext_hdr_len : ℕ = 8 in
          if ltb effective_len (sh_start + plaintext_hdr_len) then done rx else do
            hdr ← slice pkt sh_start (sh_start + plaintext_hdr_len)
            decoded ← decode hdr
            take_payload rx pkt radiotap effective_len sh_start decoded

pub parse_and_enqueue_one_packet : WfbRx → List ℕ → Run WfbRx
parse_and_enqueue_one_packet rx pkt = do
  radiotap ← radiotap_meta_from_packet pkt
  parse_with rx pkt radiotap
