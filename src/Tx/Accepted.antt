-- ===== src/Tx/Accepted.antt =====
-- `WfbTx::open` on a system whose calls succeed.
use meshinator.Prelude.{
  ℕ, ◌≤◌, ◌<◌, ◌≡◌, refl, ◌∙◌, ◌⊎◌, inl, inr, false, not, ◌&&◌, List, ◌∷◌, length, leb, ltb-false,
  leb-false, overwrite, replicate, ◌==◌, arith,
}
use meshinator.Prelude.Int.{ℤ, is_negative}
use meshinator.Run.{done}
use meshinator.Kernel.{Syscall, Kernel, socket, setsockopt_bypass, ioctl_ifindex, bind_to}
use meshinator.Proto.{WfbTxConfig, Result, ok}
use meshinator.Tx.{
  WfbTx, ifnamsiz, open_pfpacket_tx_socket, mcs_bw, patch_radiotap, build_radiotap_ht, patched_tx,
  finish_open, with_socket, mcs_index_or_one, bandwidth_or_20, open_tx,
}
use meshinator.Kernel.Laws.{Sys-bind-done}
use meshinator.Tx.Frames.{radiotap_header}
use meshinator.Tx.Opened.{IsAccepted}

-- A rate that can be asked for: 0 stands for the defaults.
abbrev pub IsRate : WfbTxConfig → Type 0
IsRate cfg =
    (cfg.mcs_index ≤ 15) × ((cfg.bandwidth ≡ 0) ⊎ (cfg.bandwidth ≡ 20) ⊎ (cfg.bandwidth ≡ 40))

abbrev IsOk : Result ℕ → Type 0
IsOk r = (bw : ℕ) × (r ≡ ok bw)

mcs_bw-IsOk : (n : ℕ) → (n ≡ 0) ⊎ (n ≡ 20) ⊎ (n ≡ 40) → IsOk (mcs_bw (bandwidth_or_20 n))
unfolding mcs_bw
mcs_bw-IsOk n (inl e) = rw e (0, refl)
mcs_bw-IsOk n (inr (inl e)) = rw e (0, refl)
mcs_bw-IsOk n (inr (inr e)) = rw e (1, refl)

-- The calls of an `open` that succeeds, the newest first: the socket, the best-effort option, the index
-- of the interface, whose name is padded with zeros to 16 bytes, and the bind to the index.
abbrev pub open_log : Kernel → List ℕ → List Syscall → List Syscall
open_log k iface log =
    let fd : ℤ = k.ret (socket ∷ log) in
    let asked : List Syscall =
      ioctl_ifindex fd (overwrite (replicate 16 0) 0 iface) ∷ setsockopt_bypass fd ∷ socket ∷ log in
    bind_to fd (k.ifindex asked) ∷ asked

module _ (k : Kernel) (succeeds : (log : List Syscall) → is_negative (k.ret log) ≡ false) where
  open_socket-ok :
      (iface : List ℕ) (log : List Syscall)
      → 1 ≤ length iface
      → length iface < 16
      → open_pfpacket_tx_socket k iface log ≡ done (ok (k.ret (socket ∷ log)), open_log k iface log)
  unfolding open_pfpacket_tx_socket
  open_socket-ok iface log some_name fits =
      let fd : ℤ = k.ret (socket ∷ log) in
      let log₂ : List Syscall = setsockopt_bypass fd ∷ socket ∷ log in
      let log₃ : List Syscall =
        ioctl_ifindex fd (overwrite (replicate ifnamsiz 0) 0 iface) ∷ log₂ in
      let log₄ : List Syscall = bind_to fd (k.ifindex log₃) ∷ log₃ in
      let named : (length iface == 0) ≡ false = ground arith in
      let short : leb 16 (length iface) ≡ false = leb-false 16 (length iface) fits in
      rw (succeeds (socket ∷ log), named, short, succeeds log₃, succeeds log₄)

  with_socket-ok :
      (cfg : WfbTxConfig) (fd : ℤ) (log : List Syscall)
      → IsRate cfg
      → (tx : WfbTx) × (with_socket k cfg
            (mcs_index_or_one cfg.mcs_index)
            (bandwidth_or_20 cfg.bandwidth)
            (ok fd)
            log
          ≡ done (ok tx, log))
  unfolding with_socket finish_open build_radiotap_ht patch_radiotap
  with_socket-ok cfg fd log rate =
      let small : mcs_index_or_one cfg.mcs_index ≤ 15 = ground (arith, rate.0) in
      let asked : IsOk (mcs_bw (bandwidth_or_20 cfg.bandwidth)) =
        mcs_bw-IsOk cfg.bandwidth rate.1 in
      (
        record (patched_tx cfg fd) {
          radiotap_ht = radiotap_header asked.0 (mcs_index_or_one cfg.mcs_index);
        },
        rw (ltb-false 15 (mcs_index_or_one cfg.mcs_index) small, asked.1) refl,
      )

  -- On a system whose calls all succeed, `open` makes the four calls of `open_log` and returns a
  -- transmitter, for every configuration that can
  -- be transmitted with: a name that fits, a stream other than 0, a known frame type, an index of at
  -- most 15, and a bandwidth of 20, 40 or, for the default, 0.
  pub open_tx-ok :
      (cfg : WfbTxConfig) (log : List Syscall)
      → IsAccepted cfg
      → IsRate cfg
      → (tx : WfbTx) × (open_tx k cfg log ≡ done (ok tx, open_log k cfg.iface log))
  unfolding open_tx
  open_tx-ok cfg log a rate =
      let named : (length cfg.iface == 0) ≡ false = ground (arith, a.named) in
      let stream : (cfg.stream_id == 0) ≡ false = ground (arith, a.stream) in
      let known : not (cfg.frame_type == 8) && not (cfg.frame_type == 0xb4) ≡ false =
        ground (arith, a.frame_type) in
      let made = open_socket-ok cfg.iface log a.named a.name_fits in
      let built = with_socket-ok cfg (k.ret (socket ∷ log)) (open_log k cfg.iface log) rate in
      (
        built.0,
        rw (named, stream, known)
            (Sys-bind-done (open_pfpacket_tx_socket k cfg.iface)
                (with_socket k cfg (mcs_index_or_one cfg.mcs_index) (bandwidth_or_20 cfg.bandwidth))
                log (ok (k.ret (socket ∷ log))) (open_log k cfg.iface log) made
              ∙ built.1),
      )
