-- ===== src/Tx/Refused.antt =====
-- `WfbTx::open` of src/tx.rs on any system: which error it returns, and after which calls.
use meshinator.Prelude.{
  ℕ, ◌≤◌, ◌<◌, ◌≡◌, refl, ◌≢◌, ◌⊎◌, inl, inr, true, false, not, ◌&&◌, ◌||◌, List, ◌∷◌, length, leb,
  ltb, overwrite, replicate, ◌==◌, Bool-cases, arith,
}
use meshinator.Prelude.Int.{ℤ, is_negative}
use meshinator.Run.{Returns}
use meshinator.Kernel.{Syscall, Kernel, socket, setsockopt_bypass, ioctl_ifindex}
use meshinator.Kernel.Laws.{Sys-if, Sys-bind}
use meshinator.Proto.{
  WfbTxConfig, WfbError, Result, ok, err, invalid_argument, io, iface_empty, stream_id_zero,
  frame_type_unknown, iface_too_long, mcs_index_too_large, bandwidth_unknown,
}
use meshinator.Tx.{
  WfbTx, ifnamsiz, open_pfpacket_tx_socket, mcs_bw, patch_radiotap, build_radiotap_ht, drop_tx,
  patched_tx, finish_open, with_socket, mcs_index_or_one, bandwidth_or_20, open_tx,
}
use meshinator.Tx.Accepted.{open_log}

-- The calls up to the look-up of the interface's index, the newest first.
abbrev pub index_log : Kernel → List ℕ → List Syscall → List Syscall
index_log k iface log =
    let fd : ℤ = k.ret (socket ∷ log) in
    ioctl_ifindex fd (overwrite (replicate 16 0) 0 iface) ∷ setsockopt_bypass fd ∷ socket ∷ log

-- Why there is no socket: the first step that fails, and the error that tells of it.
pub data SocketRefusal (k : Kernel) (iface : List ℕ) (log : List Syscall) : WfbError → Type 0 where
  no_socket :
      is_negative (k.ret (socket ∷ log)) ≡ true
      → SocketRefusal k iface log (io (k.errno (socket ∷ log)))
  long_name :
      is_negative (k.ret (socket ∷ log)) ≡ false
      → 16 ≤ length iface
      → SocketRefusal k iface log (invalid_argument (iface_too_long iface))
  no_index :
      is_negative (k.ret (socket ∷ log)) ≡ false
      → length iface < 16
      → is_negative (k.ret (index_log k iface log)) ≡ true
      → SocketRefusal k iface log (io (k.errno (index_log k iface log)))
  not_bound :
      is_negative (k.ret (socket ∷ log)) ≡ false
      → length iface < 16
      → is_negative (k.ret (index_log k iface log)) ≡ false
      → is_negative (k.ret (open_log k iface log)) ≡ true
      → SocketRefusal k iface log (io (k.errno (open_log k iface log)))

-- The configuration gets as far as the socket.
abbrev pub IsAsked : WfbTxConfig → Type 0
IsAsked cfg =
    (1 ≤ length cfg.iface)
    × (cfg.stream_id ≢ 0)
    × ((cfg.frame_type ≡ 0x08) ⊎ (cfg.frame_type ≡ 0xb4))

-- The calls that make the socket all succeed.
abbrev pub IsSocket : Kernel → List ℕ → List Syscall → Type 0
IsSocket k iface log =
    (is_negative (k.ret (socket ∷ log)) ≡ false)
    × (length iface < 16)
    × (is_negative (k.ret (index_log k iface log)) ≡ false)
    × (is_negative (k.ret (open_log k iface log)) ≡ false)

-- Why `open` fails, with the error.
pub data Refusal (k : Kernel) (cfg : WfbTxConfig) (log : List Syscall) : WfbError → Type 0 where
  unnamed : length cfg.iface ≡ 0 → Refusal k cfg log (invalid_argument iface_empty)
  no_stream :
      1 ≤ length cfg.iface → cfg.stream_id ≡ 0 → Refusal k cfg log (invalid_argument stream_id_zero)
  unknown_type :
      1 ≤ length cfg.iface
      → cfg.stream_id ≢ 0
      → cfg.frame_type ≢ 0x08
      → cfg.frame_type ≢ 0xb4
      → Refusal k cfg log (invalid_argument frame_type_unknown)
  at_socket : {e : WfbError} → IsAsked cfg → SocketRefusal k cfg.iface log e → Refusal k cfg log e
  large_index :
      IsAsked cfg
      → IsSocket k cfg.iface log
      → 15 < cfg.mcs_index
      → Refusal k cfg log (invalid_argument (mcs_index_too_large cfg.mcs_index))
  other_bandwidth :
      IsAsked cfg
      → IsSocket k cfg.iface log
      → cfg.mcs_index ≤ 15
      → cfg.bandwidth ≢ 0
      → cfg.bandwidth ≢ 20
      → cfg.bandwidth ≢ 40
      → Refusal k cfg log (invalid_argument (bandwidth_unknown cfg.bandwidth))

module _ (k : Kernel) where
  abbrev SocketOutcome : List ℕ → List Syscall → Result ℤ × List Syscall → Type 0
  SocketOutcome iface log (ok fd, log') = IsSocket k iface log × (log' ≡ open_log k iface log)
  SocketOutcome iface log (err e, log') = SocketRefusal k iface log e

  open_socket-SocketOutcome :
      (iface : List ℕ) (log : List Syscall)
      → 1 ≤ length iface
      → Returns (SocketOutcome iface log) (open_pfpacket_tx_socket k iface log)
  unfolding open_pfpacket_tx_socket
  open_socket-SocketOutcome iface log named =
      let fd : ℤ = k.ret (socket ∷ log) in
      let log₂ : List Syscall = setsockopt_bypass fd ∷ socket ∷ log in
      Sys-if (SocketOutcome iface log) (is_negative fd) _ _ (socket ∷ log)
        (λ failed. no_socket failed)
        (λ made.
          Sys-if (SocketOutcome iface log) (length iface == 0 || leb ifnamsiz (length iface)) _ _
            log₂ (λ unfit. long_name made (ground (arith, unfit, named)))
            (λ fits.
              let short : length iface < 16 = ground (arith, fits) in
              Sys-if (SocketOutcome iface log) (is_negative (k.ret (index_log k iface log))) _ _
                (index_log k iface log) (λ failed. no_index made short failed)
                (λ found.
                  Sys-if (SocketOutcome iface log) (is_negative (k.ret (open_log k iface log))) _ _
                    (open_log k iface log) (λ failed. not_bound made short found failed)
                    (λ bound. ((made, short, found, bound), refl)))))

  abbrev pub OpenOutcome : WfbTxConfig → List Syscall → Result WfbTx × List Syscall → Type 0
  OpenOutcome cfg log (ok tx, log') =
      IsAsked cfg
      × IsSocket k cfg.iface log
      × (cfg.mcs_index ≤ 15)
      × ((cfg.bandwidth ≡ 0) ⊎ (cfg.bandwidth ≡ 20) ⊎ (cfg.bandwidth ≡ 40))
      × (log' ≡ open_log k cfg.iface log)
  OpenOutcome cfg log (err e, log') = Refusal k cfg log e

  drop_tx-Returns : (tx : WfbTx) (log : List Syscall) → Returns (λ _. Unit {0}) (drop_tx k tx log)
  unfolding drop_tx
  drop_tx-Returns tx log =
      Sys-if (λ _. Unit {0}) (not (is_negative tx.fd)) _ _ log (λ _. tt) (λ _. tt)

  module _ (cfg : WfbTxConfig) (log : List Syscall) (asked : IsAsked cfg)
      (made : IsSocket k cfg.iface log) where
    refused :
        (tx : WfbTx) (e : WfbError) (log' : List Syscall)
        → Refusal k cfg log e
        → Returns (OpenOutcome cfg log) (finish_open k tx (err e) log')
    unfolding finish_open
    refused tx e log' r =
        Sys-bind (λ _. Unit {0}) (OpenOutcome cfg log) (drop_tx k tx) _ log'
          (drop_tx-Returns tx log') (λ _ _ _. r)

    with_socket-OpenOutcome :
        (fd : ℤ) (log' : List Syscall)
        → log' ≡ open_log k cfg.iface log
        → Returns (OpenOutcome cfg log) (
            with_socket k cfg
              (mcs_index_or_one cfg.mcs_index)
              (bandwidth_or_20 cfg.bandwidth)
              (ok fd)
              log')
    unfolding with_socket finish_open build_radiotap_ht patch_radiotap mcs_bw
    with_socket-OpenOutcome fd log' same =
        let tx : WfbTx = patched_tx cfg fd in
        let mcs : ℕ = mcs_index_or_one cfg.mcs_index in
        let bandwidth : ℕ = bandwidth_or_20 cfg.bandwidth in
        elim (Bool-cases (ltb 15 mcs)) [
          | inl large ↦
              let as_given : mcs ≡ cfg.mcs_index = ground (arith, large) in
              rw (large, as_given)
                (refused tx (invalid_argument (mcs_index_too_large cfg.mcs_index)) log'
                  (large_index asked made (ground (arith, large))))
          | inr fits ↦
              let small : cfg.mcs_index ≤ 15 = ground (arith, fits) in
              elim (Bool-cases (bandwidth == 20)) [
                | inl twenty ↦ rw (fits, twenty) (asked, made, small, ground (arith, twenty), same)
                | inr other ↦ elim (Bool-cases (bandwidth == 40)) [
                  | inl forty ↦
                      rw (fits, other, forty) (asked, made, small, ground (arith, forty), same)
                  | inr neither ↦
                      let as_given : bandwidth ≡ cfg.bandwidth = ground (arith, other, neither) in
                      rw (fits, other, neither, as_given)
                        (refused tx (invalid_argument (bandwidth_unknown cfg.bandwidth)) log' (
                          other_bandwidth asked made small (ground (arith, other, neither))
                            (ground (arith, other, neither)) (ground (arith, other, neither))))
                ]
              ]
        ]

  -- On any system and for any configuration, `open` returns. If it returns a transmitter, everything
  -- asked for was in order, its four calls are those of `open_log` and none of those that are checked
  -- failed. If it returns an error, that is the error of the first thing that was not in order: an empty
  -- name, the stream 0, an unknown frame type, the socket, a name of 16 bytes or more, the interface's
  -- index, the bind, an index of more than 15, or another bandwidth than 20 and 40; a call of the system
  -- is told by the number that it left in `errno`.
  pub open_tx-OpenOutcome :
      (cfg : WfbTxConfig) (log : List Syscall) → Returns (OpenOutcome cfg log) (open_tx k cfg log)
  unfolding open_tx with_socket
  open_tx-OpenOutcome cfg log =
      Sys-if (OpenOutcome cfg log) (length cfg.iface == 0) _ _ log
        (λ none_given. unnamed (ground (arith, none_given)))
        (λ given.
          let named : 1 ≤ length cfg.iface = ground (arith, given) in
          Sys-if (OpenOutcome cfg log) (cfg.stream_id == 0) _ _ log
            (λ zero_id. no_stream named (ground (arith, zero_id)))
            (λ other_id.
              let stream : cfg.stream_id ≢ 0 = ground (arith, other_id) in
              Sys-if (OpenOutcome cfg log)
                (not (cfg.frame_type == 0x08) && not (cfg.frame_type == 0xb4)) _ _ log
                (λ unknown.
                  unknown_type named stream (ground (arith, unknown)) (ground (arith, unknown)))
                (λ known.
                  let asked : IsAsked cfg = (named, stream, ground (arith, known)) in
                  Sys-bind (SocketOutcome cfg.iface log) (OpenOutcome cfg log)
                    (open_pfpacket_tx_socket k cfg.iface)
                    (with_socket k cfg (mcs_index_or_one cfg.mcs_index)
                      (bandwidth_or_20 cfg.bandwidth))
                    log (open_socket-SocketOutcome cfg.iface log named) (after_socket asked))))
    where
      after_socket :
          IsAsked cfg
          → (r : Result ℤ) (log' : List Syscall) → SocketOutcome cfg.iface log (r, log')
          → Returns (OpenOutcome cfg log) (
              with_socket k cfg
                (mcs_index_or_one cfg.mcs_index)
                (bandwidth_or_20 cfg.bandwidth)
                r
                log')
      after_socket asked (err e) log' r = at_socket asked r
      after_socket asked (ok fd) log' (made, same) =
          with_socket-OpenOutcome cfg log asked made fd log' same
