-- ===== src/Rx/Ring/Fifo.antt =====
-- The ring as a queue of frames: what it holds, oldest first, and how the two operations act on it.
use native.Mathlib.Nat.{mod-add-mod, mod-eq_of_lt, mod-eq-sub-mod, add-zero}
use native.Mathlib.Decide.{dec_lt}
use meshinator.Prelude.{
  ℕ, zero, suc, ◌+◌, ◌-◌, ◌*◌, ◌%◌, ◌≤◌, ◌<◌, ◌≡◌, refl, ap, ap₂, ◌∙◌, ◌≢◌, List, [], ◌∷◌, ◌++◌,
  length, get_or, take, drop, overwrite, get_or-set_self, get_or-set_ne, arith,
}
use meshinator.Prelude.Slices.{range-overwrite_self, range-overwrite_before, drop-overwrite}
use meshinator.Proto.{WfbRxMeta, default_meta}
use meshinator.Rx.Queue.{Frame}
use meshinator.Rx.State.{WfbRx}
use meshinator.Rx.Ring.Valid.{IsValid, tail_lt, slot_fits, enqueued, popped}

abbrev pub slot : WfbRx → ℕ → Frame
slot rx i = (
  take (get_or rx.ring_payload_len i 0) (drop (i * rx.max_payload) rx.ring_payload_store),
  get_or rx.ring_meta i default_meta,
)

-- The `n` frames from slot `i` on, going round at `ring_size`.
abbrev pub frames_from : WfbRx → ℕ → ℕ → List Frame
frames_from rx i zero = []
frames_from rx i (suc n) = slot rx i ∷ frames_from rx ((i + 1) % rx.ring_size) n

abbrev pub contents : WfbRx → List Frame
contents rx = frames_from rx rx.ring_head rx.ring_count

pub length-frames_from : (rx : WfbRx) (i n : ℕ) → length (frames_from rx i n) ≡ n
length-frames_from rx i zero = refl
length-frames_from rx i (suc n) = ap suc (length-frames_from rx ((i + 1) % rx.ring_size) n)

-- Fewer steps than there are slots do not lead back to where they started.
round_ne : (size i k : ℕ) → i < size → suc k < size → (i + suc k) % size ≢ i
round_ne size i k h b = elim (dec_lt (i + suc k) size) [
  | yes p ↦ omega (arith, mod-eq_of_lt p)
  | no p ↦ omega (
    arith,
    mod-eq-sub-mod {n = i + suc k} {m = size} (omega arith),
    mod-eq_of_lt {n = i + suc k - size} {m = size} (omega arith),
  )
]

apart : (i j m n : ℕ) → i < j → n ≤ m → i * m + n ≤ j * m
apart i j m n h k = grind arith

module _ (rx : WfbRx) (payload : List ℕ) (meta : WfbRxMeta) (v : IsValid rx)
    (fits : length payload ≤ rx.max_payload) where
  pub slot-enqueued_self : slot (enqueued rx payload meta) rx.ring_tail ≡ (payload, meta)
  slot-enqueued_self =
      let t : rx.ring_tail < rx.ring_size = tail_lt rx v in
      ap₂ (λ a b. (a, b))
        (rw
          (get_or-set_self rx.ring_payload_len rx.ring_tail (length payload) 0 (rw v.lens_slots t))
          (range-overwrite_self rx.ring_payload_store (rx.ring_tail * rx.max_payload) payload (
            rw v.store_bytes
              (slot_fits rx.ring_tail (length payload) rx.max_payload rx.ring_size t fits))))
        (get_or-set_self rx.ring_meta rx.ring_tail meta default_meta (rw v.meta_slots t))

  slot-enqueued_other : (i : ℕ) → rx.ring_tail ≢ i → slot (enqueued rx payload meta) i ≡ slot rx i
  slot-enqueued_other i ne =
      ap₂ (λ a b. (a, b))
        (rw (get_or-set_ne rx.ring_payload_len rx.ring_tail i (length payload) 0 ne) bytes)
        (get_or-set_ne rx.ring_meta rx.ring_tail i meta default_meta ne)
    where
      n : ℕ
      n = get_or rx.ring_payload_len i 0

      off : ℕ
      off = rx.ring_tail * rx.max_payload

      bytes :
          take n (drop (i * rx.max_payload) (overwrite rx.ring_payload_store off payload))
          ≡ take n (drop (i * rx.max_payload) rx.ring_payload_store)
      bytes = elim (dec_lt i rx.ring_tail) [
        | yes p ↦
            range-overwrite_before rx.ring_payload_store off payload (i * rx.max_payload) n
              (apart i rx.ring_tail rx.max_payload n p (v.lens_fit i))
        | no p ↦ ap (take n) (
            drop-overwrite rx.ring_payload_store off payload (i * rx.max_payload)
              (apart rx.ring_tail i rx.max_payload (length payload) (omega arith) fits))
      ]

  -- A window that ends before the tail grows by the new frame.
  pub frames_from-enqueued :
      (n i : ℕ)
      → i < rx.ring_size
      → n < rx.ring_size
      → rx.ring_tail ≡ (i + n) % rx.ring_size
      → frames_from (enqueued rx payload meta) i (suc n)
        ≡ frames_from rx i n ++ ((payload, meta) ∷ [])
  frames_from-enqueued zero i h b e =
      let here : rx.ring_tail ≡ i = rw e (rw (add-zero, mod-eq_of_lt h)) in
      rw (← here) (ap (λ s. s ∷ []) slot-enqueued_self)
  frames_from-enqueued (suc n) i h b e =
      ap₂ ◌∷◌ (slot-enqueued_other i (rw e (round_ne rx.ring_size i n h b))) (
        frames_from-enqueued n ((i + 1) % rx.ring_size) (omega (arith, v.size_pos)) (omega arith)
          (e ∙ shift))
    where
      shift : (i + suc n) % rx.ring_size ≡ ((i + 1) % rx.ring_size + n) % rx.ring_size
      shift = rw mod-add-mod (ap (λ k. k % rx.ring_size) (omega arith))

-- The oldest frame is the head of the contents, and the rest stays.
pub contents-popped :
    (rx : WfbRx) → 0 < rx.ring_count → contents rx ≡ slot rx rx.ring_head ∷ contents (popped rx)
contents-popped rx h = split rx.ring_count h
  where
    split :
        (n : ℕ)
        → 0 < n
        → frames_from rx rx.ring_head n
          ≡ slot rx rx.ring_head
            ∷ frames_from (popped rx) ((rx.ring_head + 1) % rx.ring_size) (n - 1)
    split zero h = absurd (omega arith)
    split (suc n) h =
        ap (λ l. slot rx rx.ring_head ∷ l)
          (same n ((rx.ring_head + 1) % rx.ring_size)
            ∙ ap (frames_from (popped rx) ((rx.ring_head + 1) % rx.ring_size)) (omega arith))
      where
        same : (n i : ℕ) → frames_from rx i n ≡ frames_from (popped rx) i n
        same zero i = refl
        same (suc n) i = ap (λ l. slot rx i ∷ l) (same n ((i + 1) % rx.ring_size))
