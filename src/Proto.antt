-- ===== src/Proto.antt =====
-- src/proto.rs: the constants, the errors, the configurations, the receive meta and the frame header.
-- A byte or a word is the number that it holds. `[u8; 4]` is a list, and a message of an error is a
-- constructor with what the text is formatted from.
pub mod Bytes
pub mod RoundTrip
pub mod Decode
mod Tests
use meshinator.Prelude.{
  ℕ, ◌+◌, ◌-◌, ◌*◌, ◌/◌, ◌%◌, ◌^◌, Bool, false, List, [], ◌∷◌, Option, length, replicate, ltb,
  if◌then◌else◌,
}
use meshinator.Prelude.Int.{ℤ, pos}
use meshinator.Run.{Run, done, ◌>>=◌, index, write, copy_range}

abbrev pub wfb_proto_version : ℕ
wfb_proto_version = 0

abbrev pub wfb_frame_type_data : ℕ
wfb_frame_type_data = 0x08

abbrev pub wfb_frame_type_rts : ℕ
wfb_frame_type_rts = 0xb4

abbrev pub wfb_plaintext_hdr_len : ℕ
wfb_plaintext_hdr_len = 1 + 4 + 2 + 1

abbrev pub ieee80211_header_len : ℕ
ieee80211_header_len = 24

abbrev pub wifi_mtu : ℕ
wifi_mtu = 4045

abbrev pub compute_max_payload : ℕ
compute_max_payload = wifi_mtu - ieee80211_header_len - wfb_plaintext_hdr_len

-- The texts of `InvalidArgument`.
pub data Message : Type 0 where
  hdr_too_small : ℕ → Message
  iface_empty stream_id_zero frame_type_unknown max_payload_too_small recv_buffer_empty : Message
  iface_too_long : List ℕ → Message
  mcs_index_too_large bandwidth_unknown : ℕ → Message
  payload_too_large : ℕ → ℕ → Message

-- `io` carries the number of the operating system's error, `pcap` the text of the library's.
pub data WfbError : Type 0 where
  invalid_argument : Message → WfbError
  io : ℕ → WfbError
  pcap : List ℕ → WfbError

pub data Result {ℓ} (A : Type ℓ) : Type ℓ where
  ok : A → Result A
  err : WfbError → Result A

pub record WfbTxConfig : Type 0 where
  pub iface : List ℕ
  pub stream_id : ℕ
  pub frame_type : ℕ
  pub mcs_index : ℕ
  pub bandwidth : ℕ

pub record WfbRxConfig : Type 0 where
  pub iface : List ℕ
  pub stream_id : ℕ
  pub rcv_buf_size : Option ℤ
  pub ignore_self_injected : Bool
  pub ring_size : ℕ

pub record WfbRxMeta : Type 0 where
  pub seq : ℕ
  pub flags : ℕ
  pub freq : ℕ
  pub mcs_index : ℕ
  pub bandwidth : ℕ
  pub antenna : List ℕ
  pub rssi : List ℤ
  pub noise : List ℤ
  pub antenna_count : ℕ
  pub truncated : Bool

-- `WfbRxMeta::default()`
abbrev pub default_meta : WfbRxMeta
default_meta = record {
  seq = 0;
  flags = 0;
  freq = 0;
  mcs_index = 0;
  bandwidth = 0;
  antenna = replicate 4 0;
  rssi = replicate 4 (pos 0);
  noise = replicate 4 (pos 0);
  antenna_count = 0;
  truncated = false;
}

pub record WfbFrameHeader : Type 0 where
  pub version : ℕ
  pub seq : ℕ
  pub payload_len : ℕ
  pub flags : ℕ

-- `u32::to_be_bytes` and `u16::to_be_bytes`
abbrev pub be_bytes_u32 : ℕ → List ℕ
be_bytes_u32 n = (n / 2 ^ 24 % 256) ∷ (n / 2 ^ 16 % 256) ∷ (n / 2 ^ 8 % 256) ∷ (n % 256) ∷ []

abbrev pub be_bytes_u16 : ℕ → List ℕ
be_bytes_u16 n = (n / 2 ^ 8 % 256) ∷ (n % 256) ∷ []

-- `u32::from_be_bytes` and `u16::from_be_bytes`
abbrev pub from_be_u32 : ℕ → ℕ → ℕ → ℕ → ℕ
from_be_u32 a b c d = a * 2 ^ 24 + b * 2 ^ 16 + c * 2 ^ 8 + d

abbrev pub from_be_u16 : ℕ → ℕ → ℕ
from_be_u16 a b = a * 2 ^ 8 + b

pub encode : WfbFrameHeader → Run (List ℕ)
encode h = do
  out ← write (replicate wfb_plaintext_hdr_len 0) 0 h.version
  out ← copy_range out 1 5 (be_bytes_u32 h.seq)
  out ← copy_range out 5 7 (be_bytes_u16 h.payload_len)
  write out 7 h.flags

pub decode : List ℕ → Run (Result (WfbFrameHeader × ℕ))
decode buf =
    if ltb (length buf) wfb_plaintext_hdr_len
    then done (err (invalid_argument (hdr_too_small (length buf))))
    else do
      version ← index buf 0
      b1 ← index buf 1
      b2 ← index buf 2
      b3 ← index buf 3
      b4 ← index buf 4
      b5 ← index buf 5
      b6 ← index buf 6
      flags ← index buf 7
      done (
          ok (
            record {
              version = version;
              seq = from_be_u32 b1 b2 b3 b4;
              payload_len = from_be_u16 b5 b6;
              flags = flags;
            },
            wfb_plaintext_hdr_len,
          ))
