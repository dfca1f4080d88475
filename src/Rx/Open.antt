-- ===== src/Rx/Open.antt =====
-- src/rx.rs, `WfbRx::open`. The capture library is a parameter: each call that the code makes of it,
-- with the texts of its errors. The receiver is returned beside the capture that it owns.
pub mod Fresh
pub mod Outcome
use meshinator.Prelude.{
  ℕ, ◌+◌, ◌*◌, Bool, true, List, [], ◌∷◌, ◌++◌, length, replicate, ltb, ◌==◌, if◌then◌else◌,
}
use meshinator.Prelude.Int.{ℤ}
use meshinator.Prelude.Text.{codes, hex8}
use meshinator.Proto.{
  WfbRxConfig, Result, ok, err, invalid_argument, iface_empty, stream_id_zero,
  max_payload_too_small, pcap, default_meta, compute_max_payload,
}
use meshinator.Rx.State.{WfbRx}

-- What a call of the capture library returns: a value, or an error with its text.
pub data Attempt (A : Type 0) : Type 0 where
  success : A → Attempt A
  refused : List ℕ → Attempt A

pub record PcapLib : Type 1 where
  pub Inactive : Type 0
  pub Active : Type 0
  pub from_device : List ℕ → Attempt Inactive
  pub promisc : Bool → Inactive → Inactive
  pub immediate_mode : Bool → Inactive → Inactive
  pub snaplen : ℕ → Inactive → Inactive
  pub timeout : ℕ → Inactive → Inactive
  pub activate : Inactive → Attempt Active
  pub setnonblock : Active → Attempt Active
  pub filter : List ℕ → Bool → Active → Attempt Active
  pub as_raw_fd : Active → ℤ

infixl 5 ◌>>=◌
abbrev pub ◌>>=◌ : {A B : Type 0} → Result A → (A → Result B) → Result B
ok a >>= f = f a
err e >>= f = err e

-- `.map_err(|e| WfbError::Pcap(e.to_string()))`
abbrev pub or_pcap_error : {A : Type 0} → Attempt A → Result A
or_pcap_error (success a) = ok a
or_pcap_error (refused text) = err (pcap text)

abbrev pub max_pcap_packet_size : ℕ
max_pcap_packet_size = 65535

-- `clamp(2, 128)` of the size that is asked for, 16 by default.
pub ring_size_of : ℕ → ℕ
ring_size_of asked =
    let ring_size = if asked == 0 then 16 else asked in
    if ltb ring_size 2 then 2 else if ltb 128 ring_size then 128 else ring_size

unfoldable pub filter_exp : ℕ → List ℕ
filter_exp stream_id = codes "ether[0x0a:2]==0x5742 && ether[0x0c:4] == 0x" ++ hex8 stream_id

pub fresh : WfbRxConfig → ℤ → WfbRx
fresh cfg fd =
    let size = ring_size_of cfg.ring_size in
    record {
      iface = cfg.iface;
      ignore_self_injected = cfg.ignore_self_injected;
      max_payload = compute_max_payload;
      ring_size = size;
      ring_count = 0;
      ring_head = 0;
      ring_tail = 0;
      ring_payload_store = replicate (size * compute_max_payload) 0;
      ring_payload_len = replicate size 0;
      ring_meta = replicate size default_meta;
      fd = fd;
    }

module _ (lib : PcapLib) where
  open lib use {
    Active, from_device, promisc, immediate_mode, snaplen, timeout, activate, setnonblock, filter,
    as_raw_fd,
  }

  unfoldable pub open_capture : WfbRxConfig → Result Active
  open_capture cfg = do
    device ← or_pcap_error (from_device cfg.iface)
    cap ← or_pcap_error (
        activate
          (timeout 0 (snaplen max_pcap_packet_size (immediate_mode true (promisc true device)))))
    cap ← or_pcap_error (setnonblock cap)
    or_pcap_error (filter (filter_exp cfg.stream_id) true cap)

  unfoldable pub open_rx : WfbRxConfig → Result (WfbRx × Active)
  open_rx cfg =
      if length cfg.iface == 0
      then err (invalid_argument iface_empty)
      else if cfg.stream_id == 0
      then err (invalid_argument stream_id_zero)
      else if ltb compute_max_payload 1
      then err (invalid_argument max_payload_too_small)
      else open_capture cfg >>= λ cap. ok (fresh cfg (as_raw_fd cap), cap)
