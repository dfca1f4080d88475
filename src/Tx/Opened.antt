-- ===== src/Tx/Opened.antt =====
-- Which configurations `WfbTx::open` accepts, and the headers of the transmitter that it returns.
use meshinator.Prelude.{
  ℕ, ◌+◌, ◌*◌, ◌≤◌, ◌<◌, ◌≡◌, refl, ◌≢◌, Bool-cases, ◌⊎◌, inl, inr, not, ◌&&◌, ◌||◌, List, ◌∷◌,
  length, leb, ltb, overwrite, replicate, ◌==◌, arith,
}
use meshinator.Prelude.Int.{ℤ, is_negative}
use meshinator.Run.{Returns}
use meshinator.Kernel.{Syscall, Kernel, socket, setsockopt_bypass, ioctl_ifindex, bind_to}
use meshinator.Proto.{WfbTxConfig, Result, ok, err, wfb_frame_type_data, wfb_frame_type_rts}
use meshinator.Tx.{
  WfbTx, ifnamsiz, open_pfpacket_tx_socket, mcs_bw, patch_radiotap, build_radiotap_ht, drop_tx,
  patched_tx, finish_open, with_socket, mcs_index_or_one, bandwidth_or_20, open_tx,
}
use meshinator.Kernel.Laws.{Sys-if, Sys-bind}
use meshinator.Tx.Frames.{IsTx, radiotap_header}

-- A configuration that can be transmitted with.
pub record IsAccepted (cfg : WfbTxConfig) : Type 0 where
  pub named : 1 ≤ length cfg.iface
  pub name_fits : length cfg.iface < 16
  pub stream : cfg.stream_id ≢ 0
  pub frame_type : (cfg.frame_type ≡ 0x08) ⊎ (cfg.frame_type ≡ 0xb4)

abbrev pub OpenedTx : WfbTxConfig → Result WfbTx × List Syscall → Type 0
OpenedTx cfg (ok tx, log) = IsAccepted cfg × IsTx cfg 0 tx
OpenedTx cfg (err e, log) = Unit {0}

mcs_bw-range : (b bw : ℕ) → mcs_bw b ≡ ok bw → (bw ≤ 1) × (b ≡ 20 + 20 * bw)
unfolding mcs_bw
mcs_bw-range b bw e = ground arith

module _ (k : Kernel) where
  abbrev NameFits : List ℕ → Result ℤ × List Syscall → Type 0
  NameFits iface (ok fd, log) = length iface < 16
  NameFits iface (err e, log) = Unit {0}

  open_socket-NameFits :
      (iface : List ℕ) (log : List Syscall)
      → Returns (NameFits iface) (open_pfpacket_tx_socket k iface log)
  unfolding open_pfpacket_tx_socket
  open_socket-NameFits iface log =
      let fd : ℤ = k.ret (socket ∷ log) in
      let log₂ : List Syscall = setsockopt_bypass fd ∷ socket ∷ log in
      let log₃ : List Syscall =
        ioctl_ifindex fd (overwrite (replicate ifnamsiz 0) 0 iface) ∷ log₂ in
      let log₄ : List Syscall = bind_to fd (k.ifindex log₃) ∷ log₃ in
      Sys-if (NameFits iface) (is_negative fd) _ _ (socket ∷ log) (λ _. tt)
        (λ _.
          Sys-if (NameFits iface) (length iface == 0 || leb ifnamsiz (length iface)) _ _ log₂
            (λ _. tt)
            (λ fits.
              Sys-if (NameFits iface) (is_negative (k.ret log₃)) _ _ log₃ (λ _. tt)
                (λ _.
                  Sys-if (NameFits iface) (is_negative (k.ret log₄)) _ _ log₄ (λ _. tt)
                    (λ _. ground arith))))

  drop_tx-Ends : (tx : WfbTx) (log : List Syscall) → Returns (λ _. Unit {0}) (drop_tx k tx log)
  unfolding drop_tx
  drop_tx-Ends tx log = Sys-if (λ _. Unit {0}) (not (is_negative tx.fd)) _ _ log (λ _. tt) (λ _. tt)

  module _ (cfg : WfbTxConfig) where
    abbrev mcs : ℕ
    mcs = mcs_index_or_one cfg.mcs_index

    abbrev asked : ℕ
    asked = bandwidth_or_20 cfg.bandwidth

    patched-IsTx :
        (fd : ℤ) (tx : WfbTx) (o : Result ℕ)
        → mcs_bw asked ≡ o
        → mcs ≤ 15
        → patch_radiotap (patched_tx cfg fd) mcs o ≡ ok tx
        → IsTx cfg 0 tx
    unfolding patch_radiotap patched_tx
    patched-IsTx fd tx (err x) b m e = cc
    patched-IsTx fd tx (ok bw) b m e =
        let made : record (patched_tx cfg fd) { radiotap_ht = radiotap_header bw mcs } ≡ tx =
          cc e in
        let range : (bw ≤ 1) × (asked ≡ 20 + 20 * bw) = mcs_bw-range asked bw b in
        rw (← made) (record {
          sequence = refl;
          lo = 0;
          hi = 0;
          ieee = refl;
          bw = bw;
          mcs = mcs;
          radiotap = refl;
          bw_range = range.0;
          bw_asked = range.1;
          mcs_range = m;
          mcs_asked = refl;
        })

    build-IsTx :
        (fd : ℤ) (tx : WfbTx)
        → build_radiotap_ht (patched_tx cfg fd) mcs asked ≡ ok tx
        → IsTx cfg 0 tx
    unfolding build_radiotap_ht
    build-IsTx fd tx e = elim (Bool-cases (ltb 0x0f mcs)) [
      | inl large ↦ cc (rw large at e)
      | inr small ↦ patched-IsTx fd tx (mcs_bw asked) refl (ground arith) (rw small at e)
    ]

    with_socket-OpenedTx :
        (r : Result ℤ) (log : List Syscall)
        → (length cfg.iface < 16 → IsAccepted cfg)
        → NameFits cfg.iface (r, log)
        → Returns (OpenedTx cfg) (with_socket k cfg mcs asked r log)
    unfolding with_socket
    with_socket-OpenedTx (err e) log a n = tt
    with_socket-OpenedTx (ok fd) log a n =
        built (build_radiotap_ht (patched_tx cfg fd) mcs asked) refl
      where
        built :
            (o : Result WfbTx)
            → build_radiotap_ht (patched_tx cfg fd) mcs asked ≡ o
            → Returns (OpenedTx cfg) (finish_open k (patched_tx cfg fd) o log)
        built (ok tx) e = unfold finish_open in (a n, build-IsTx fd tx e)
        built (err x) e =
            unfold finish_open in
            Sys-bind (λ _. Unit {0}) (OpenedTx cfg) (drop_tx k (patched_tx cfg fd)) _ log
              (drop_tx-Ends (patched_tx cfg fd) log) (λ _ log' _. tt)

    -- `open` returns, whatever the system answers. If it returns a transmitter, the configuration
    -- has a name that fits, a stream other than 0 and a known frame type, and the headers carry
    -- the frame type, the stream in both addresses, and the rate: the index asked for, at most 15,
    -- with 1 for 0, and 20 or 40 MHz as asked for, with 20 for 0.
    pub open_tx-OpenedTx : (log : List Syscall) → Returns (OpenedTx cfg) (open_tx k cfg log)
    unfolding open_tx
    open_tx-OpenedTx log =
        Sys-if (OpenedTx cfg) (length cfg.iface == 0) _ _ log (λ _. tt)
          (λ named.
            Sys-if (OpenedTx cfg) (cfg.stream_id == 0) _ _ log (λ _. tt)
              (λ stream.
                Sys-if (OpenedTx cfg)
                  (not (cfg.frame_type == wfb_frame_type_data)
                    && not (cfg.frame_type == wfb_frame_type_rts))
                  _ _ log (λ _. tt)
                  (λ known.
                    Sys-bind (NameFits cfg.iface) (OpenedTx cfg)
                      (open_pfpacket_tx_socket k cfg.iface) (with_socket k cfg mcs asked) log
                      (open_socket-NameFits cfg.iface log)
                      (λ r log'. with_socket-OpenedTx r log' (λ fits. record {
                        named = ground arith;
                        name_fits = fits;
                        stream = ground arith;
                        frame_type = ground arith;
                      })))))
