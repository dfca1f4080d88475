-- ===== src/Rx/Open/Outcome.antt =====
-- What `WfbRx::open` returns, in every case.
use meshinator.Prelude.{
  ℕ, ◌≡◌, refl, ap, ◌∙◌, ◌≢◌, ◌⊎◌, inl, inr, true, false, Bool-cases, List, [], ◌∷◌, length, ◌==◌,
  arith,
}
use meshinator.Proto.{
  WfbRxConfig, Result, ok, err, invalid_argument, iface_empty, stream_id_zero, pcap,
}
use meshinator.Rx.State.{WfbRx}
use meshinator.Rx.Open.{
  Attempt, success, refused, PcapLib, or_pcap_error, filter_exp, fresh, open_capture, open_rx,
  ◌>>=◌,
}
use meshinator.Rx.Open.Fresh.{Opened, open_rx-Opened}

module _ (lib : PcapLib) (cfg : WfbRxConfig) where
  open lib use {
    Inactive, Active, from_device, promisc, immediate_mode, snaplen, timeout, activate, setnonblock,
    filter,
  }

  -- Promiscuous, immediate, 65535 bytes of a packet, no read timeout.
  abbrev pub set_up : Inactive → Inactive
  set_up device = timeout 0 (snaplen 65535 (immediate_mode true (promisc true device)))

  -- The calls up to one that is refused with the text, in their order.
  abbrev pub IsRefusal : List ℕ → Type 0
  IsRefusal text =
      (from_device cfg.iface ≡ refused text)
      ⊎ ((device : Inactive) × (from_device cfg.iface ≡ success device)
          × ((activate (set_up device) ≡ refused text)
              ⊎ ((active : Active) × (activate (set_up device) ≡ success active)
                  × ((setnonblock active ≡ refused text)
                      ⊎ ((cap : Active) × (setnonblock active ≡ success cap)
                          × (filter (filter_exp cfg.stream_id) true cap ≡ refused text))))))

  -- The calls, all of which succeed.
  abbrev pub IsGranted : Active → Type 0
  IsGranted opened =
      (device : Inactive) × (active : Active) × (cap : Active) × (from_device cfg.iface
        ≡ success device)
      × (activate (set_up device) ≡ success active)
      × (setnonblock active ≡ success cap)
      × (filter (filter_exp cfg.stream_id) true cap ≡ success opened)

  abbrev CaptureOutcome : Result Active → Type 0
  CaptureOutcome (ok cap) = IsGranted cap
  CaptureOutcome (err e) = (text : List ℕ) × (e ≡ pcap text) × IsRefusal text

  open_capture-Outcome : CaptureOutcome (open_capture lib cfg)
  unfolding open_capture
  open_capture-Outcome = at_device (from_device cfg.iface) refl
    where
      at_filter :
          (device : Inactive) (active cap : Active) (r : Attempt Active)
          → from_device cfg.iface ≡ success device
          → activate (set_up device) ≡ success active
          → setnonblock active ≡ success cap
          → filter (filter_exp cfg.stream_id) true cap ≡ r
          → CaptureOutcome (or_pcap_error r)
      at_filter device active cap (success opened) a b c d = (device, active, cap, a, b, c, d)
      at_filter device active cap (refused text) a b c d =
          (text, refl, inr (device, a, inr (active, b, inr (cap, c, d))))

      at_nonblock :
          (device : Inactive) (active : Active) (r : Attempt Active)
          → from_device cfg.iface ≡ success device
          → activate (set_up device) ≡ success active
          → setnonblock active ≡ r
          → CaptureOutcome (
              or_pcap_error r >>= λ cap. or_pcap_error (filter (filter_exp cfg.stream_id) true cap))
      at_nonblock device active (success cap) a b c = at_filter device active cap _ a b c refl
      at_nonblock device active (refused text) a b c =
          (text, refl, inr (device, a, inr (active, b, inl c)))

      at_activate :
          (device : Inactive) (r : Attempt Active)
          → from_device cfg.iface ≡ success device
          → activate (set_up device) ≡ r
          → CaptureOutcome (
              or_pcap_error r >>= λ active. or_pcap_error (setnonblock active) >>= λ cap.
              or_pcap_error (filter (filter_exp cfg.stream_id) true cap))
      at_activate device (success active) a b = at_nonblock device active _ a b refl
      at_activate device (refused text) a b = (text, refl, inr (device, a, inl b))

      at_device :
          (r : Attempt Inactive)
          → from_device cfg.iface ≡ r
          → CaptureOutcome (
              or_pcap_error r >>= λ device. or_pcap_error (activate (set_up device)) >>= λ active.
              or_pcap_error (setnonblock active) >>= λ cap.
              or_pcap_error (filter (filter_exp cfg.stream_id) true cap))
      at_device (success device) a = at_activate device _ a refl
      at_device (refused text) a = (text, refl, inl a)

  open_rx-capture :
      cfg.iface ≢ []
      → cfg.stream_id ≢ 0
      → open_rx lib cfg ≡ (open_capture lib cfg >>= λ cap. ok (fresh cfg (lib.as_raw_fd cap), cap))
  unfolding open_rx
  open_rx-capture named stream =
      let other_id : (cfg.stream_id == 0) ≡ false = ground arith in
      rw (some_bytes cfg.iface named, other_id)
    where
      some_bytes : (bytes : List ℕ) → bytes ≢ [] → (length bytes == 0) ≡ false
      some_bytes [] h = absurd (h refl)
      some_bytes (b ∷ bytes) h = ground arith

  abbrev pub OpenOutcome : Result (WfbRx × Active) → Type 0
  OpenOutcome (ok (rx, cap)) = Opened cfg rx × IsGranted cap
  OpenOutcome (err e) =
      ((cfg.iface ≡ []) × (e ≡ invalid_argument iface_empty))
      ⊎ ((cfg.iface ≢ []) × (cfg.stream_id ≡ 0) × (e ≡ invalid_argument stream_id_zero))
      ⊎ ((cfg.iface ≢ [])
          × (cfg.stream_id ≢ 0)
          × ((text : List ℕ) × (e ≡ pcap text) × IsRefusal text))

  -- `open` succeeds only if the interface is named, the stream is not 0, and every call of the capture
  -- library succeeds, the filter being the one for the stream; the receiver is then valid, empty and
  -- as configured: between 2 and 128 slots, those asked for if they are in that range, and 16 for 0.
  -- Otherwise its error is, in this order, that of an empty name, of the stream 0, or the text of the
  -- first call that was refused.
  pub open_rx-Outcome : OpenOutcome (open_rx lib cfg)
  open_rx-Outcome = elim (Bool-cases (length cfg.iface == 0)) [
    | inl unnamed ↦ no_name (no_bytes cfg.iface unnamed)
    | inr named ↦ elim (Bool-cases (cfg.stream_id == 0)) [
      | inl zero_id ↦
          unfold open_rx in
          rw (named, zero_id)
            (inr (inl ((λ e. absurd (ground (arith, ap length e))), ground arith, refl)))
      | inr other_id ↦
          with_capture (open_capture lib cfg) refl open_capture-Outcome
            (λ e. absurd (ground (arith, ap length e))) (λ e. absurd (ground arith))
    ]
  ]
    where
      no_bytes : (bytes : List ℕ) → (length bytes == 0) ≡ true → bytes ≡ []
      no_bytes [] h = refl
      no_bytes (b ∷ bytes) h = absurd (ground arith)

      no_name : cfg.iface ≡ [] → OpenOutcome (open_rx lib cfg)
      no_name e = unfold open_rx in rw (ap length e) (inl (e, refl))

      with_capture :
          (r : Result Active)
          → open_capture lib cfg ≡ r
          → CaptureOutcome r
          → cfg.iface ≢ []
          → cfg.stream_id ≢ 0
          → OpenOutcome (open_rx lib cfg)
      with_capture (err e) opens refusal named stream =
          rw (open_rx-capture named stream, opens) (inr (inr (named, stream, refusal)))
      with_capture (ok cap) opens granted named stream =
          let e =
            open_rx-capture named stream
            ∙ ap (λ c. c >>= λ a. ok (fresh cfg (lib.as_raw_fd a), a)) opens in
          rw e (open_rx-Opened lib cfg (fresh cfg (lib.as_raw_fd cap)) cap e, granted)
