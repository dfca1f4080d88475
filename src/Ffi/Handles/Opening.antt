-- ===== src/Ffi/Handles/Opening.antt =====
-- What `wfb_rx_open` of src/ffi.rs stores, and which code it returns.
use meshinator.Prelude.{
  ℕ, ◌≡◌, ◌≢◌, refl, ap, ◌⊎◌, inl, inr, Bool-cases, true, false, not, List, [], ◌∷◌, Option, none,
  some, length, ◌==◌, arith,
}
use meshinator.Run.{done, Returns}
use meshinator.Proto.{WfbRxConfig, Result, ok, err}
use meshinator.Rx.State.{WfbRx}
use meshinator.Rx.Open.{PcapLib, open_rx}
use meshinator.Rx.Open.Fresh.{Opened}
use meshinator.Rx.Open.Outcome.{IsRefusal, IsGranted, OpenOutcome, open_rx-Outcome}
use meshinator.Ffi.{
  wfb_rs_ok, wfb_rs_err_null_ptr, wfb_rs_err_invalid_argument, wfb_rs_err_pcap, CRxConfig, OrCode,
  value, failed_with, c_iface, store_handle, finished,
}
use meshinator.Ffi.Utf8.{is_text}
use meshinator.Ffi.Laws.{Finishes}
use meshinator.Ffi.Handles.{rx_open_with, wfb_rx_open}

-- The configuration with its interface read.
abbrev pub rx_config : CRxConfig → List ℕ → WfbRxConfig
rx_config cfg iface = record {
  iface = iface;
  stream_id = cfg.stream_id;
  rcv_buf_size = none;
  ignore_self_injected = not (cfg.ignore_self_injected == 0);
  ring_size = cfg.ring_size;
}

module _ (lib : PcapLib) (cfg : CRxConfig) (old : Option (WfbRx × lib.Active)) where
  -- The interface is a text that is not empty, the stream is not 0 and every call of the capture library
  -- succeeds: what is stored then.
  abbrev pub IsStored : List ℕ → ℕ → Option (WfbRx × lib.Active) → Type 0
  IsStored iface c handle =
      (rx : WfbRx) × (cap : lib.Active) × (c ≡ wfb_rs_ok)
      × (handle ≡ some (rx, cap))
      × Opened (rx_config cfg iface) rx
      × IsGranted lib (rx_config cfg iface) cap

  -- Why the interface cannot be used.
  abbrev pub IsUnusable : Option (List ℕ) → ℕ → Type 0
  IsUnusable none c = c ≡ wfb_rs_err_null_ptr
  IsUnusable (some iface) c =
      ((is_text [] iface ≡ false) ⊎ (iface ≡ [])) × (c ≡ wfb_rs_err_invalid_argument)

  abbrev pub IsUsable : Option (List ℕ) → List ℕ → Type 0
  IsUsable asked iface = (asked ≡ some iface) × (is_text [] iface ≡ true) × (iface ≢ [])

  abbrev pub Stored : ℕ × Option (WfbRx × lib.Active) → Type 0
  Stored (c, handle) =
      (IsUnusable cfg.iface c × (handle ≡ old))
      ⊎ ((iface : List ℕ) × IsUsable cfg.iface iface
          × (((cfg.stream_id ≡ 0) × (c ≡ wfb_rs_err_invalid_argument) × (handle ≡ old))
              ⊎ ((cfg.stream_id ≢ 0)
                  × ((text : List ℕ) × IsRefusal lib (rx_config cfg iface) text)
                  × (c ≡ wfb_rs_err_pcap)
                  × (handle ≡ old))
              ⊎ ((cfg.stream_id ≢ 0) × IsStored iface c handle)))

  -- Of an `out_handle` that is not null.
  abbrev pub OutStored : ℕ × Option (Option (WfbRx × lib.Active)) → Type 0
  OutStored (c, none) = ⊥
  OutStored (c, some handle) = Stored (c, handle)

  abbrev ReadAs : Option (List ℕ) → OrCode (List ℕ) → Type 0
  ReadAs asked (failed_with c) = IsUnusable asked c
  ReadAs asked (value iface) = IsUsable asked iface

  no_bytes : (bytes : List ℕ) → (length bytes == 0) ≡ true → bytes ≡ []
  no_bytes [] h = refl
  no_bytes (b ∷ bytes) h = absurd (ground arith)

  c_iface-ReadAs : (asked : Option (List ℕ)) → ReadAs asked (c_iface asked)
  unfolding c_iface
  c_iface-ReadAs none = refl
  c_iface-ReadAs (some iface) = elim (Bool-cases (is_text [] iface)) [
    | inr other ↦ rw other (inl other, refl)
    | inl text ↦ elim (Bool-cases (length iface == 0)) [
      | inl none_there ↦ rw (text, none_there) (inr (no_bytes iface none_there), refl)
      | inr there ↦
          rw (text, there) (refl, text, (λ e. absurd (ground (arith, ap length e, there))))
    ]
  ]

  opened-Stored :
      (iface : List ℕ)
      → IsUsable cfg.iface iface
      → (r : Result (WfbRx × lib.Active)) → OpenOutcome lib (rx_config cfg iface) r
      → Stored (store_handle old r)
  opened-Stored iface usable (ok (rx, cap)) (opened, granted) =
      inr (iface, usable, inr (inr (opened.stream, (rx, cap, refl, refl, opened, granted))))
  opened-Stored iface usable (err e) (inl (unnamed, why)) = absurd (usable.2 unnamed)
  opened-Stored iface usable (err e) (inr (inl (named, zero_id, why))) =
      rw why (inr (iface, usable, inl (zero_id, refl, refl)))
  opened-Stored iface usable (err e) (inr (inr (named, stream, (text, why, refusal)))) =
      rw why (inr (iface, usable, inr (inl (stream, (text, refusal), refl, refl))))

  rx_open_with-Stored :
      (o : OrCode (List ℕ)) → ReadAs cfg.iface o → Stored (rx_open_with lib cfg old o)
  unfolding rx_open_with
  rx_open_with-Stored (failed_with c) h = inl (h, refl)
  rx_open_with-Stored (value iface) h =
      opened-Stored iface h (open_rx lib (rx_config cfg iface))
        (open_rx-Outcome lib (rx_config cfg iface))

  -- `wfb_rx_open` has the code 1 for a null configuration, `out_handle` or interface, 2 for an interface
  -- that is empty or no text or for the stream 0, and 4 if a call of the capture library is refused; then
  -- what `out_handle` points to is as it was. In all other cases it has the code 0, every call of the
  -- library has succeeded, with the filter of the stream, and a receiver is stored, valid, empty and as
  -- the configuration asks for, with any `ignore_self_injected` but 0 as true.
  pub wfb_rx_open-Stored :
      (wfb_rx_open lib none (some old) ≡ done (finished (wfb_rs_err_null_ptr, some old)))
      × (wfb_rx_open lib (some cfg) none ≡ done (finished (wfb_rs_err_null_ptr, none)))
      × Returns (Finishes OutStored) (wfb_rx_open lib (some cfg) (some old))
  unfolding wfb_rx_open
  wfb_rx_open-Stored =
      (refl, refl, rx_open_with-Stored (c_iface cfg.iface) (c_iface-ReadAs cfg.iface))
