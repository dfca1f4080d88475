-- ===== src/Examples/Bandwidth/Link.antt =====
-- Two stations that run examples/bandwidth.rs, the one in the sending and the other in the receiving
-- role, with the air of Examples/Air between them.
mod Tests
use mathlib.Core.List.{Sublist, Sublistᴰ, filter_map, filter_map-append}
use mathlib.Core.List.Sublist
use mathlib.Core.Logic.{∥∥₁_elim}
use native.Mathlib.Bridge.{le_prop}
use meshinator.Prelude.{
  ℕ, zero, suc, ◌+◌, ◌*◌, ◌≤◌, ◌<◌, ◌≡◌, ◌≢◌, refl, sym, ap, subst, ◌∙◌, ◌⊎◌, Bool, true, false,
  Option, none, some, inl, inr, List, [], ◌∷◌, ◌++◌, map, length, length-replicate, replicate, max,
  arith,
}
use meshinator.Prelude.Int.{is_negative}
use meshinator.Run.{Returns}
use meshinator.Run.Laws.{Returns-weaken}
use meshinator.Kernel.{Syscall, Kernel, Sys}
use meshinator.Proto.{ok, io}
use meshinator.Rx.Queue.{Frame}
use meshinator.Rx.State.{WfbRx}
use meshinator.Rx.Recv.{Packet}
use meshinator.Rx.Session.Order.{frames_over, append-Sublist_left}
use meshinator.Rx.Open.{PcapLib, open_rx}
use meshinator.Rx.Session.Calls.{ended_by}
use meshinator.Examples.Air.{
  Carries, packets_over, numbered, entry, AreShort, carried-in_order, map-Sublist, frames_over-eq,
}
use meshinator.Examples.Lines.{frames}
use meshinator.Examples.Bandwidth.{Args, Tick, Turn, Ran, tx_cfg, rx_cfg, run_tx, run_rx}
use meshinator.Examples.Bandwidth.Counting.{HasCounted}
use meshinator.Examples.Bandwidth.Sending.{AreOrdered}
use meshinator.Examples.Bandwidth.Sending.Whole.{payload_of, AllCounted, run_tx-AllCounted}
use meshinator.Examples.Bandwidth.Receiving.{scripts_of, AreUsable}
use meshinator.Examples.Bandwidth.Receiving.Whole.{
  payload_bytes, loop_session, Counted, run_rx-Counted,
}

abbrev entry_bytes : List (ℕ × List ℕ) → ℕ
entry_bytes [] = 0
entry_bytes (e ∷ es) = length e.1 + entry_bytes es

entry_bytes-map : (fs : List Frame) → entry_bytes (map entry fs) ≡ payload_bytes fs
entry_bytes-map [] = refl
entry_bytes-map (f ∷ fs) = ap (λ n. length f.0 + n) (entry_bytes-map fs)

length-map-entry : (fs : List Frame) → length (map entry fs) ≡ length fs
length-map-entry [] = refl
length-map-entry (f ∷ fs) = ap (λ n. suc n) (length-map-entry fs)

short_copies : (n : ℕ) (p : List ℕ) → length p ≤ 4013 → AreShort (replicate n p)
short_copies zero p h = tt
short_copies (suc n) p h = (h, short_copies n p h)

-- What arrives of copies of one payload.
copies :
    (n seq : ℕ) (p : List ℕ) (l : List (ℕ × List ℕ))
    → Sublistᴰ l (numbered seq (replicate n p))
    → (length l ≤ n) × (entry_bytes l ≡ length l * length p)
copies zero seq p [] Sublistᴰ.slnil = (omega arith, omega arith)
copies zero seq p (e ∷ l) there = elim there [ ]
copies (suc n) seq p l (Sublistᴰ.cons s) =
    let rest = copies n _ p l s in (omega (arith, rest.0), rest.1)
copies (suc n) seq p (e ∷ l) (Sublistᴰ.cons-cons same s) =
    let rest = copies n _ p l s in
    let size : length e.1 ≡ length p = ap (λ a. length a.1) same in
    (omega (arith, rest.0), omega (arith, rest.1, size))

copies_taken :
    (n seq : ℕ) (p : List ℕ) (fs : List Frame)
    → Sublist (map entry fs) (numbered seq (replicate n p))
    → (length fs ≤ n) × (payload_bytes fs ≡ length fs * length p)
copies_taken n seq p fs s =
    let l : List (ℕ × List ℕ) = map entry fs in
    let known : (length l ≤ n) × (entry_bytes l ≡ length l * length p) =
      ∥∥₁_elim s (hlevel le_prop) (copies n seq p l) in
    rw (length-map-entry fs, entry_bytes-map fs) at known

-- Of `sent` frames with payloads of `size` bytes some number was heard.
pub record HasMeasured (sent size : ℕ) (ran : Ran) : Type 0 where
  pub heard : ℕ
  pub at_most : heard ≤ sent
  pub counted : HasCounted (heard * size) heard ran.meter
  pub ended : (ran.ended ≡ none) ⊎ ((errno : ℕ) × (ran.ended ≡ some (io errno)))

ended_by-cases :
    (o : Option ℕ) → (ended_by o ≡ none) ⊎ ((errno : ℕ) × (ended_by o ≡ some (io errno)))
ended_by-cases none = inl refl
ended_by-cases (some errno) = inr (errno, refl)

Counted-HasMeasured :
    (n seq : ℕ) (p : List ℕ) (turns : List Turn) (ran : Ran)
    → Sublist (map entry (frames_over true 4013 (scripts_of turns))) (numbered seq (replicate n p))
    → Counted turns ran
    → HasMeasured n (length p) ran
Counted-HasMeasured n seq p turns ran arrived c =
    let known : (length (loop_session turns).handed ≤ n)
        × (payload_bytes (loop_session turns).handed
            ≡ length (loop_session turns).handed * length p) =
      copies_taken n seq p (loop_session turns).handed (
        Sublist.trans
          (map-Sublist entry (loop_session turns).handed (frames_over true 4013 (scripts_of turns))
            (Sublist.trans
              (append-Sublist_left (loop_session turns).handed (loop_session turns).held)
              c.in_order))
          arrived) in
    record {
      heard = length (loop_session turns).handed;
      at_most = known.0;
      counted = rw known.1 at c.counted;
      ended = rw c.ended (ended_by-cases (loop_session turns).errno);
    }

module _ (k : Kernel) (succeeds : (log : List Syscall) → is_negative (k.ret log) ≡ false)
    (far_k : Kernel) (far_lib : PcapLib) (drop_capture : far_lib.Active → Sys (Unit {0}))
    (drops : (c : far_lib.Active) (log : List Syscall)
      → Returns (λ _. Unit {0}) (drop_capture c log)) where
  -- One station runs the sending role as in `run_tx-AllCounted`, another the receiving role as in
  -- `run_rx-Counted`, and what its capture hands over is what the air carries of the frames that are
  -- sent. Then the sender counts one payload a turn, and the receiver some number of frames that is not
  -- above the number of the sender's turns, and for each of them exactly the bytes of the sender's
  -- payload; its totals and the sum of its reports say the same, modulo 2 ^ 64.
  pub run_rx-run_tx :
      (args far_args : Args) (ticks : List Tick) (turns : List Turn) (log far_log : List Syscall)
      (far_rx : WfbRx) (far_cap : far_lib.Active)
      → 1 ≤ length args.iface
      → length args.iface < 16
      → args.stream_id ≢ 0
      → args.payload_size ≤ 4013
      → AreOrdered ticks
      → open_rx far_lib (rx_cfg far_args) ≡ ok (far_rx, far_cap)
      → AreUsable turns
      → Carries
          (frames (tx_cfg args) 0 7 0 1 (replicate (length ticks) (payload_of args)))
          (packets_over (scripts_of turns))
      → Returns (AllCounted args log ticks) (run_tx k args ticks log)
        × Returns
            (λ out. HasMeasured (length ticks) (max args.payload_size 1) out.0)
            (run_rx far_k far_lib drop_capture far_args turns far_log)
  run_rx-run_tx args far_args ticks turns log far_log far_rx far_cap some_name fits stream small
        ordered opens usable carried =
      let n : ℕ = length ticks in
      let size : length (payload_of args) ≡ max args.payload_size 1 =
        length-replicate {A = ℕ} (max args.payload_size 1) 0x42 in
      let arrived : Sublist (map entry (frames_over true 4013 (scripts_of turns)))
          (numbered 1 (replicate n (payload_of args))) =
        rw (← frames_over-eq true 4013 (scripts_of turns)) at (
          carried-in_order (tx_cfg args) 0 7 (replicate n (payload_of args))
            (packets_over (scripts_of turns)) 0 1 carried
            (short_copies n (payload_of args) (omega (arith, size, small))) (omega arith)) in
      (
        run_tx-AllCounted k succeeds args log some_name fits stream ticks small ordered,
        Returns-weaken (λ out. Counted turns out.0) _ _
            (run_rx-Counted far_k far_lib drop_capture drops far_args turns far_log far_rx far_cap
              opens usable)
            (λ out c.
              subst (λ b. HasMeasured n b out.0) size
                (Counted-HasMeasured n 1 (payload_of args) turns out.0 arrived c)),
      )
