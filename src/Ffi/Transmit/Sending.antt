-- ===== src/Ffi/Transmit/Sending.antt =====
-- What `wfb_tx_send` of src/ffi.rs sends, and its codes.
use native.Mathlib.Decide.{dec_lt}
use meshinator.Prelude.{
  take, ℕ, ◌+◌, ◌-◌, ◌==◌, ==_iff, Bool-cases, [], sym, ◌≤◌, ◌<◌, ◌≡◌, refl, ap, ◌∙◌, ◌⊎◌, inl, inr,
  Bool, true, false, ◌&&◌, List, ◌∷◌, Option, none, some, length, length-take, ltb, if◌then◌else◌,
  arith,
}
use meshinator.Prelude.Int.{is_negative}
use meshinator.Run.{done, Returns}
use meshinator.Run.Laws.{Returns-if, slice-done}
use meshinator.Kernel.{Syscall, Kernel, Sys, ◌>>=◌, pure, sendmsg}
use meshinator.Kernel.Laws.{Sys-bind}
use meshinator.Proto.{WfbTxConfig, io, ok, err}
use meshinator.Tx.{WfbTx, send}
use meshinator.Tx.Frames.{IsTx, frame, Sent, joined, send-Sent, send_too_large}
use meshinator.Ffi.{
  wfb_rs_ok, wfb_rs_err_null_ptr, wfb_rs_err_invalid_argument, wfb_rs_err_io, finished,
}
use meshinator.Ffi.Laws.{Finishes, run_ffi-Finishes}
use meshinator.Ffi.Transmit.{code_of_send, bytes_at, memory_at, is_null, wfb_tx_send}

-- There are so many bytes at a pointer that is not null.
abbrev pub HasBytes : Option (List ℕ) → ℕ → Type 0
HasBytes none len = Unit {0}
HasBytes (some memory) len = len ≤ length memory

-- A null pointer stands for no bytes.
abbrev pub NullIsEmpty : Option (List ℕ) → ℕ → Type 0
NullIsEmpty none len = len ≡ 0
NullIsEmpty (some memory) len = Unit {0}

abbrev pub payload_at : Option (List ℕ) → ℕ → List ℕ
payload_at none len = []
payload_at (some memory) len = take len memory

module _ (k : Kernel) (cfg : WfbTxConfig) (n : ℕ) (tx : WfbTx) (v : IsTx cfg n tx) where
  module _ (payload : Option (List ℕ)) (len seq : ℕ) (log : List Syscall) where
    -- Nothing was sent or changed.
    abbrev pub Refused : (ℕ × Option WfbTx) × List Syscall → Type 0
    Refused ((c, handle), log') =
        (handle ≡ some tx)
        × (log' ≡ log)
        × (((c ≡ wfb_rs_err_null_ptr) × (payload ≡ none) × (0 < len))
            ⊎ ((c ≡ wfb_rs_err_invalid_argument) × (4013 < len)))

    -- One call of `sendmsg` with the frame of send number `n`, and its outcome.
    abbrev pub OneSent : (ℕ × Option WfbTx) × List Syscall → Type 0
    OneSent ((c, handle), log') =
        (tx' : WfbTx) × (bufs : List (List ℕ)) × (len ≤ 4013)
        × NullIsEmpty payload len
        × (handle ≡ some tx')
        × (log' ≡ sendmsg tx.fd bufs ∷ log)
        × (joined bufs ≡ frame cfg n v.bw v.mcs seq (payload_at payload len))
        × IsTx cfg (n + 1) tx'
        × (c ≡ (if is_negative (k.ret log') then wfb_rs_err_io else wfb_rs_ok))

    abbrev pub CSent : (ℕ × Option WfbTx) × List Syscall → Type 0
    CSent out = Refused out ⊎ OneSent out

    code_of_outcome :
        (b : Bool) (e : ℕ)
        → code_of_send k (if b then err (io e) else ok tt)
          ≡ (if b then wfb_rs_err_io else wfb_rs_ok)
    code_of_outcome true e = refl
    code_of_outcome false e = refl

    sent : Sys (ℕ × Option WfbTx)
    sent = send k tx (payload_at payload len) seq >>= λ r. pure (code_of_send k r.1, some r.0)

    sent-CSent :
        length (payload_at payload len) ≡ len → NullIsEmpty payload len → Returns CSent (sent log)
    unfolding sent
    sent-CSent size there = elim (dec_lt 4013 len) [
      | yes large ↦
          Sys-bind
            (λ out.
              (out.0.0 ≡ tx)
              × (code_of_send k out.0.1 ≡ wfb_rs_err_invalid_argument)
              × (out.1 ≡ log))
            CSent (send k tx (payload_at payload len) seq) _ log
            (rw (send_too_large k tx (payload_at payload len) seq log (omega (arith, size, large)))
              (refl, refl, refl))
            (λ r log' e. inl (ap some e.0, e.2, inr (e.1, large)))
      | no fits ↦
          Sys-bind (Sent k cfg n tx v seq (payload_at payload len) log) CSent
            (send k tx (payload_at payload len) seq) _ log
            (send-Sent k cfg n tx v (payload_at payload len) seq log (omega (arith, size, fits)))
            (λ r log' s. inr (
              r.0,
              s.bufs,
              omega (arith, fits),
              there,
              refl,
              s.called,
              s.on_air,
              s.next,
              ap (code_of_send k) s.answer
                  ∙ code_of_outcome (is_negative (k.ret log')) (k.errno log'),
            ))
    ]

  given :
      (p : Option (List ℕ)) (len : ℕ)
      → HasBytes p len
      → ltb 0 len && is_null k p ≡ false
      → (bytes_at k p len ≡ done (payload_at p len))
        × (length (payload_at p len) ≡ len)
        × NullIsEmpty p len
  unfolding bytes_at memory_at
  given none len h b =
      let empty : len ≡ 0 = ground arith in
      let asked : (len == 0) ≡ true = ground arith in (rw asked refl, sym empty, empty)
  given (some memory) len h b =
      let size : length (take len memory) ≡ len = omega (arith, length-take len memory, h) in
      let none_cut : len - 0 ≡ len = omega arith in
      (
        elim (Bool-cases (len == 0)) [
          | inl zero_len ↦ rw (zero_len, (==_iff len 0).0 zero_len) refl
          | inr asked ↦ rw (asked, slice-done memory 0 len (omega arith) h, none_cut) refl
        ],
        size,
        tt,
      )

  -- A null handle has the code 1, and nothing is sent. On the handle of a transmitter after `n` sends, and
  -- with as many bytes at the payload, if it is not null, as its length says, `wfb_tx_send` finishes
  -- without a panic, and there are two outcomes. The code is 1 for a null payload that is to have bytes
  -- or 2 for more than 4013 bytes; then nothing is sent and the transmitter is as it was. Or the bytes at
  -- the payload, at most 4013 and none at a null pointer, are sent as one frame, with the next sequence
  -- field, and the code is 0 or, if the system's call fails, 3.
  pub wfb_tx_send-CSent :
      (payload : Option (List ℕ)) (len seq : ℕ) (log : List Syscall)
      → HasBytes payload len
      → (wfb_tx_send k none payload len seq log
          ≡ done (finished ((wfb_rs_err_null_ptr, none), log)))
        × Returns
            (Finishes (CSent payload len seq log))
            (wfb_tx_send k (some tx) payload len seq log)
  unfolding wfb_tx_send
  wfb_tx_send-CSent payload len seq log there = (
    refl,
    Returns-if (Finishes (CSent payload len seq log)) (ltb 0 len && is_null k payload) _ _
        (λ null. inl (refl, refl, inl (refl, null_of payload null, ground arith)))
        (λ asked.
          let (read, size, empty) = given payload len there asked in
          rw read (
            unfold sent in
            run_ffi-Finishes (CSent payload len seq log) _
              (sent-CSent payload len seq log size empty))),
  )
    where
      null_of : (p : Option (List ℕ)) → ltb 0 len && is_null k p ≡ true → p ≡ none
      null_of none h = refl
      null_of (some m) h = absurd (ground arith)
