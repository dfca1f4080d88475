-- ===== src/Rx/Ring/Valid.antt =====
-- The representation invariant of the ring of src/rx.rs, and the results of its two operations.
use meshinator.Prelude.{
  ℕ, ◌+◌, ◌-◌, ◌*◌, ◌%◌, ◌≤◌, ◌<◌, ◌≡◌, refl, min, not, Bool, none, some, List, Option, length,
  get_or, set, take, drop, overwrite, length-set, length-overwrite, length-take, length-drop,
  get_or-set_self, get_or-set_ne, leb-false, le→leb, ◌==◌, arith, ap, ◌∙◌,
}
use native.Mathlib.Nat.{mod-add-mod}
use native.Mathlib.Decide.{ℕ_discrete, dec_lt}
use mathlib.Core.Option
use meshinator.Run.{done, Returns}
use meshinator.Run.Laws.{
  index-done, slice-done, write-done, copy_range-done, rem-done, checked_sub-done,
}
use meshinator.Proto.{WfbRxMeta, default_meta}
use meshinator.Rx.State.{WfbRx}
use meshinator.Rx.Ring.{meta_out, enqueue_decoded, pop_one, Popped}

pub record IsValid (rx : WfbRx) : Type 0 where
  pub size_pos : 0 < rx.ring_size
  pub count_le : rx.ring_count ≤ rx.ring_size
  pub head_lt : rx.ring_head < rx.ring_size
  pub tail_eq : rx.ring_tail ≡ (rx.ring_head + rx.ring_count) % rx.ring_size
  pub lens_slots : length rx.ring_payload_len ≡ rx.ring_size
  pub meta_slots : length rx.ring_meta ≡ rx.ring_size
  pub store_bytes : length rx.ring_payload_store ≡ rx.ring_size * rx.max_payload
  pub lens_fit : (i : ℕ) → get_or rx.ring_payload_len i 0 ≤ rx.max_payload

pub tail_lt : (rx : WfbRx) → IsValid rx → rx.ring_tail < rx.ring_size
tail_lt rx v = omega (arith, v.size_pos, v.tail_eq)

-- A slot lies inside the store.
pub slot_fits : (i n m size : ℕ) → i < size → n ≤ m → i * m + n ≤ size * m
slot_fits i n m size h k = grind arith

-- What `enqueue_decoded` leaves when the ring has room.
abbrev pub enqueued : WfbRx → List ℕ → WfbRxMeta → WfbRx
enqueued rx payload meta = record rx {
  ring_payload_len = set rx.ring_payload_len rx.ring_tail (length payload);
  ring_meta = set rx.ring_meta rx.ring_tail meta;
  ring_payload_store = overwrite rx.ring_payload_store (rx.ring_tail * rx.max_payload) payload;
  ring_tail = (rx.ring_tail + 1) % rx.ring_size;
  ring_count = rx.ring_count + 1;
}

pub enqueue_decoded-full :
    (rx : WfbRx) (payload : List ℕ) (meta : WfbRxMeta)
    → rx.ring_size ≤ rx.ring_count
    → enqueue_decoded rx payload meta ≡ done rx
unfolding enqueue_decoded
enqueue_decoded-full rx payload meta h = rw (le→leb rx.ring_size rx.ring_count h)

pub enqueue_decoded-done :
    (rx : WfbRx) (payload : List ℕ) (meta : WfbRxMeta)
    → IsValid rx
    → length payload ≤ rx.max_payload
    → rx.ring_count < rx.ring_size
    → enqueue_decoded rx payload meta ≡ done (enqueued rx payload meta)
unfolding enqueue_decoded
enqueue_decoded-done rx payload meta v fits room =
    let t : rx.ring_tail < rx.ring_size = tail_lt rx v in
    rw
      (
        leb-false rx.ring_size rx.ring_count room,
        write-done rx.ring_payload_len rx.ring_tail (length payload) (rw v.lens_slots t),
        write-done rx.ring_meta rx.ring_tail meta (rw v.meta_slots t),
        copy_range-done rx.ring_payload_store (rx.ring_tail * rx.max_payload)
            (rx.ring_tail * rx.max_payload + length payload) payload refl
            (rw v.store_bytes
              (slot_fits rx.ring_tail (length payload) rx.max_payload rx.ring_size t fits)),
        rem-done (rx.ring_tail + 1) rx.ring_size v.size_pos,
      )
      refl

lens_fit-set :
    (xs : List ℕ) (i n m : ℕ)
    → i < length xs
    → n ≤ m
    → ((j : ℕ) → get_or xs j 0 ≤ m)
    → (j : ℕ) → get_or (set xs i n) j 0 ≤ m
lens_fit-set xs i n m h k fit j = elim (ℕ_discrete i j) [
  | yes e ↦ rw (← e, get_or-set_self xs i n 0 h) k
  | no ne ↦ rw (get_or-set_ne xs i j n 0 ne) (fit j)
]

pub enqueued-IsValid :
    (rx : WfbRx) (payload : List ℕ) (meta : WfbRxMeta)
    → IsValid rx
    → length payload ≤ rx.max_payload
    → rx.ring_count < rx.ring_size
    → IsValid (enqueued rx payload meta)
enqueued-IsValid rx payload meta v fits room = record {
  size_pos = v.size_pos;
  count_le = omega arith;
  head_lt = v.head_lt;
  tail_eq = rw (v.tail_eq, mod-add-mod) (ap (λ k. k % rx.ring_size) (omega arith));
  lens_slots =
      omega (arith, length-set {0} rx.ring_payload_len rx.ring_tail (length payload), v.lens_slots);
  meta_slots = omega (arith, length-set {0} rx.ring_meta rx.ring_tail meta, v.meta_slots);
  store_bytes = omega (
    arith,
    length-overwrite {0} rx.ring_payload_store (rx.ring_tail * rx.max_payload) payload,
    v.store_bytes,
  );
  lens_fit =
      lens_fit-set rx.ring_payload_len rx.ring_tail (length payload) rx.max_payload
        (rw v.lens_slots (tail_lt rx v)) fits v.lens_fit;
}

-- The length of the oldest frame, its bytes in the store, and what of them fits a buffer.
abbrev pub head_len : WfbRx → ℕ
head_len rx = get_or rx.ring_payload_len rx.ring_head 0

abbrev pub head_bytes : WfbRx → ℕ → List ℕ
head_bytes rx n = take n (drop (rx.ring_head * rx.max_payload) rx.ring_payload_store)

abbrev pub popped : WfbRx → WfbRx
popped rx = record rx {
  ring_head = (rx.ring_head + 1) % rx.ring_size;
  ring_count = rx.ring_count - 1;
}

abbrev pub pop_result : WfbRx → List ℕ → Option WfbRxMeta → Popped
pop_result rx buf out_meta =
    let n = min (head_len rx) (length buf) in
    let meta = get_or rx.ring_meta rx.ring_head default_meta in
    record {
      rx = popped rx;
      buf = overwrite buf 0 (head_bytes rx n);
      out_meta = Option.map (λ _. record meta { truncated = not (n == head_len rx) }) out_meta;
      copied = n;
    }

pub length-head_bytes :
    (rx : WfbRx) (n : ℕ) → IsValid rx → n ≤ head_len rx → length (head_bytes rx n) ≡ n
length-head_bytes rx n v h =
    let fits : rx.ring_head * rx.max_payload + n ≤ rx.ring_size * rx.max_payload =
      slot_fits rx.ring_head n rx.max_payload rx.ring_size v.head_lt
        (omega (arith, v.lens_fit rx.ring_head)) in
    omega (
      arith,
      length-take {0} n (drop (rx.ring_head * rx.max_payload) rx.ring_payload_store),
      length-drop {0} (rx.ring_head * rx.max_payload) rx.ring_payload_store,
      v.store_bytes,
    )

meta_out-done :
    (metas : List WfbRxMeta) (idx : ℕ) (truncated : Bool) (out_meta : Option WfbRxMeta)
    → idx < length metas
    → meta_out metas idx truncated out_meta
      ≡ done (
          Option.map
            (λ _. record (get_or metas idx default_meta) { truncated = truncated })
            out_meta)
unfolding meta_out
meta_out-done metas idx truncated none h = refl
meta_out-done metas idx truncated (some old) h = rw (index-done metas idx default_meta h) refl

pub pop_one-done :
    (rx : WfbRx) (buf : List ℕ) (out_meta : Option WfbRxMeta)
    → IsValid rx
    → 0 < rx.ring_count
    → pop_one rx buf out_meta ≡ done (pop_result rx buf out_meta)
unfolding pop_one
pop_one-done rx buf out_meta v some_frame =
    let n : ℕ = min (head_len rx) (length buf) in
    let src_off : ℕ = rx.ring_head * rx.max_payload in
    let whole : length (head_bytes rx n) ≡ n = length-head_bytes rx n v (omega arith) in
    let fits : src_off + n ≤ length rx.ring_payload_store = rw v.store_bytes (
      slot_fits rx.ring_head n rx.max_payload rx.ring_size v.head_lt
        (omega (arith, v.lens_fit rx.ring_head))) in
    let cut : src_off + n - src_off ≡ n = omega arith in
    rw
      (
        index-done rx.ring_payload_len rx.ring_head 0 (rw v.lens_slots v.head_lt),
        slice-done rx.ring_payload_store src_off (src_off + n) (omega arith) fits,
        cut,
        copy_range-done buf 0 n (head_bytes rx n) (omega (arith, whole)) (omega arith),
        meta_out-done rx.ring_meta rx.ring_head (not (n == head_len rx)) out_meta
            (rw v.meta_slots v.head_lt),
        rem-done (rx.ring_head + 1) rx.ring_size v.size_pos,
        checked_sub-done rx.ring_count 1 some_frame,
      )
      refl

pub popped-IsValid : (rx : WfbRx) → IsValid rx → 0 < rx.ring_count → IsValid (popped rx)
popped-IsValid rx v some_frame = record {
  size_pos = v.size_pos;
  count_le = omega (arith, v.count_le);
  head_lt = omega (arith, v.size_pos);
  tail_eq = v.tail_eq ∙ rw mod-add-mod (ap (λ k. k % rx.ring_size) (omega arith));
  lens_slots = v.lens_slots;
  meta_slots = v.meta_slots;
  store_bytes = v.store_bytes;
  lens_fit = v.lens_fit;
}

-- `enqueue_decoded` returns and keeps the invariant, for a payload that fits a slot.
pub enqueue_decoded-IsValid :
    (rx : WfbRx) (payload : List ℕ) (meta : WfbRxMeta)
    → IsValid rx
    → length payload ≤ rx.max_payload
    → Returns IsValid (enqueue_decoded rx payload meta)
enqueue_decoded-IsValid rx payload meta v fits = elim (dec_lt rx.ring_count rx.ring_size) [
  | yes room ↦
      rw (enqueue_decoded-done rx payload meta v fits room)
        (enqueued-IsValid rx payload meta v fits room)
  | no full ↦ rw (enqueue_decoded-full rx payload meta (omega arith)) v
]
