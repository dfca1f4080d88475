-- ===== src/Tx/Frames.antt =====
-- What `WfbTx` puts on the air: the headers after `open`, and the frame of every `send`.
use meshinator.Prelude.{
  lt→ltb, ◌<◌, ℕ, ◌+◌, ◌*◌, ◌/◌, ◌%◌, ◌^◌, ◌≤◌, ◌≡◌, refl, ap, ap₂, append-nil, ◌∙◌, List, [], ◌∷◌,
  ◌++◌, length, set, ltb-false, if◌then◌else◌, arith, bit_and,
}
use meshinator.Prelude.Bits.{bit_and_low_byte}
use meshinator.Prelude.Int.{is_negative}
use meshinator.Run.{Returns, done}
use meshinator.Kernel.{Syscall, Kernel, sendmsg}
use meshinator.Proto.{
  WfbTxConfig, invalid_argument, payload_too_large, Result, ok, err, io, be_bytes_u32, be_bytes_u16,
}
use meshinator.Proto.RoundTrip.{encode_lem}
use meshinator.Tx.{WfbTx, mcs_index_or_one, bandwidth_or_20, next_sequence, send}
use meshinator.Kernel.Laws.{Sys-if}

-- The synthetic IEEE 802.11 header of a stream, with the two bytes of its sequence field.
abbrev pub ieee_header : ℕ → ℕ → ℕ → ℕ → List ℕ
ieee_header frame_type stream_id lo hi =
    frame_type
      ∷ 0x01
      ∷ 0x00
      ∷ 0x00
      ∷ 0xff
      ∷ 0xff
      ∷ 0xff
      ∷ 0xff
      ∷ 0xff
      ∷ 0xff
      ∷ 0x57
      ∷ 0x42
      ∷ be_bytes_u32 stream_id
    ++ (0x57 ∷ 0x42 ∷ be_bytes_u32 stream_id ++ (lo ∷ hi ∷ []))

-- The radiotap header that asks for a rate.
abbrev pub radiotap_header : ℕ → ℕ → List ℕ
radiotap_header bw mcs_index =
    0x00 ∷ 0x00 ∷ 0x0d ∷ 0x00 ∷ 0x00 ∷ 0x80 ∷ 0x08 ∷ 0x00 ∷ 0x08 ∷ 0x00 ∷ 0x37 ∷ bw ∷ mcs_index ∷ []

-- A header of the frame protocol, version 0 and no flags.
abbrev pub frame_header : ℕ → ℕ → List ℕ
frame_header seq payload_len = 0 ∷ be_bytes_u32 seq ++ (be_bytes_u16 payload_len ++ (0 ∷ []))

-- A transmitter of the configuration after `n` sends that reached the kernel.
pub record IsTx (cfg : WfbTxConfig) (n : ℕ) (tx : WfbTx) : Type 0 where
  pub sequence : tx.ieee80211_seq ≡ 16 * n % 65536
  pub lo : ℕ
  pub hi : ℕ
  pub ieee : tx.ieee_hdr ≡ ieee_header cfg.frame_type cfg.stream_id lo hi
  pub bw : ℕ
  pub mcs : ℕ
  pub radiotap : tx.radiotap_ht ≡ radiotap_header bw mcs
  pub bw_range : bw ≤ 1
  pub bw_asked : bandwidth_or_20 cfg.bandwidth ≡ 20 + 20 * bw
  pub mcs_range : mcs ≤ 15
  pub mcs_asked : mcs ≡ mcs_index_or_one cfg.mcs_index

-- What `send` hands to the kernel, joined.
abbrev pub joined : List (List ℕ) → List ℕ
joined [] = []
joined (b ∷ bufs) = b ++ joined bufs

-- The send number `n` behind its radiotap header: the 802.11 sequence field is 16 * n mod 2 ^ 16, low
-- byte first.
abbrev pub mac_frame : WfbTxConfig → ℕ → ℕ → List ℕ → List ℕ
mac_frame cfg n seq payload =
    ieee_header cfg.frame_type cfg.stream_id (16 * n % 256) (16 * n % 65536 / 256)
    ++ (frame_header seq (length payload) ++ payload)

abbrev pub frame : (cfg : WfbTxConfig) (n bw mcs seq : ℕ) → List ℕ → List ℕ
frame cfg n bw mcs seq payload = radiotap_header bw mcs ++ mac_frame cfg n seq payload

pub record Sent (k : Kernel) (cfg : WfbTxConfig) (n : ℕ) (tx : WfbTx) (v : IsTx cfg n tx) (seq : ℕ)
    (payload : List ℕ) (log : List Syscall) (out : (WfbTx × Result (Unit {0})) × List Syscall)
    : Type 0 where
  pub bufs : List (List ℕ)
  pub called : out.1 ≡ sendmsg tx.fd bufs ∷ log
  pub on_air : joined bufs ≡ frame cfg n v.bw v.mcs seq payload
  pub next : IsTx cfg (n + 1) out.0.0
  pub same_fd : out.0.0.fd ≡ tx.fd
  pub answer : out.0.1 ≡ (if is_negative (k.ret out.1) then err (io (k.errno out.1)) else ok tt)

module _ (k : Kernel) (cfg : WfbTxConfig) (n : ℕ) (tx : WfbTx) (v : IsTx cfg n tx) where
  abbrev updated : WfbTx
  updated = record tx {
    ieee_hdr = ieee_header cfg.frame_type cfg.stream_id (16 * n % 256) (16 * n % 65536 / 256);
    ieee80211_seq = 16 * (n + 1) % 65536;
  }

  next_sequence-updated : next_sequence tx ≡ updated
  unfolding next_sequence
  next_sequence-updated =
      let seq16 : ℕ = tx.ieee80211_seq in
      let lo : ℕ = bit_and seq16 0xff % 2 ^ 8 in
      let hi : ℕ = bit_and (seq16 / 2 ^ 8) 0xff % 2 ^ 8 in
      let low : lo ≡ 16 * n % 256 = omega (arith, bit_and_low_byte seq16, v.sequence) in
      let high : hi ≡ 16 * n % 65536 / 256 =
        omega (arith, bit_and_low_byte (seq16 / 2 ^ 8), v.sequence) in
      ap₂ (λ h s. record tx { ieee_hdr = h; ieee80211_seq = s })
        (ap (λ h. set (set h 22 lo) 23 hi) v.ieee
          ∙ ap₂ (ieee_header cfg.frame_type cfg.stream_id) low high)
        (omega (arith, v.sequence))

  updated-IsTx : IsTx cfg (n + 1) updated
  updated-IsTx = record {
    sequence = refl;
    lo = 16 * n % 256;
    hi = 16 * n % 65536 / 256;
    ieee = refl;
    bw = v.bw;
    mcs = v.mcs;
    radiotap = v.radiotap;
    bw_range = v.bw_range;
    bw_asked = v.bw_asked;
    mcs_range = v.mcs_range;
    mcs_asked = v.mcs_asked;
  }

  on_air_lem :
      (seq : ℕ) (payload : List ℕ)
      → joined
          (tx.radiotap_ht ∷ updated.ieee_hdr ∷ frame_header seq (length payload) ∷ payload ∷ [])
        ≡ frame cfg n v.bw v.mcs seq payload
  on_air_lem seq payload = rw (v.radiotap, append-nil)

  -- A transmitter after `n` sends sends a payload of at most 4013 bytes by one call of `sendmsg`
  -- on its socket. The buffers, joined, are the radiotap header that `open` chose, the 802.11
  -- header with the sequence field 16 * n mod 2 ^ 16, the frame header with `seq` and the
  -- payload's length, and the payload. The transmitter is then one after `n + 1` sends, also if
  -- the call fails, and the answer is `Ok` or the system's error, as the call ends.
  pub send-Sent :
      (payload : List ℕ) (seq : ℕ) (log : List Syscall)
      → length payload ≤ 4013
      → Returns (Sent k cfg n tx v seq payload log) (send k tx payload seq log)
  unfolding send
  send-Sent payload seq log fits =
      let short : length payload % 2 ^ 16 ≡ length payload = omega arith in
      let bufs : List (List ℕ) =
        updated.radiotap_ht ∷ updated.ieee_hdr ∷ frame_header seq (length payload) ∷ payload ∷ [] in
      let log' : List Syscall = sendmsg tx.fd bufs ∷ log in
      rw (ltb-false 4013 (length payload) fits, short)
        (rw
          (encode_lem (record { version = 0; seq = seq; payload_len = length payload; flags = 0 }))
          (rw next_sequence-updated (
            Sys-if (Sent k cfg n tx v seq payload log) (is_negative (k.ret log')) _ _ log'
              (λ failed. record {
                bufs = bufs;
                called = refl;
                on_air = on_air_lem seq payload;
                next = updated-IsTx;
                same_fd = refl;
                answer = rw failed;
              })
              (λ passed. record {
                bufs = bufs;
                called = refl;
                on_air = on_air_lem seq payload;
                next = updated-IsTx;
                same_fd = refl;
                answer = rw passed;
              }))))

pub send_too_large :
    (k : Kernel) (tx : WfbTx) (payload : List ℕ) (seq : ℕ) (log : List Syscall)
    → 4013 < length payload
    → send k tx payload seq log
      ≡ done ((tx, err (invalid_argument (payload_too_large (length payload) 4013))), log)
unfolding send
send_too_large k tx payload seq log h = rw (lt→ltb 4013 (length payload) h)
