-- ===== src/Rx/Ring/Refine.antt =====
-- `enqueue_decoded` and `pop_one` of src/rx.rs against the bounded queue.
use native.Mathlib.Decide.{dec_lt}
use meshinator.Prelude.{
  ℕ, suc, ◌+◌, ◌*◌, ◌≤◌, ◌<◌, ◌≡◌, refl, sym, ap, ◌∙◌, min, List, [], ◌∷◌, ◌++◌, some, length, drop,
  overwrite, take-take, lt→ltb, ltb-false, arith,
}
use meshinator.Run.{Returns}
use meshinator.Proto.{WfbRxMeta}
use meshinator.Rx.Queue
use meshinator.Rx.Queue.{Frame, delivered_len, delivered, delivered_meta}
use meshinator.Rx.State.{WfbRx}
use meshinator.Rx.Ring.{enqueue_decoded, pop_one, Popped}
use meshinator.Rx.Ring.Valid.{
  IsValid, enqueued, enqueued-IsValid, enqueue_decoded-full, enqueue_decoded-done, head_len,
  length-head_bytes, popped, popped-IsValid, pop_one-done,
}
use meshinator.Rx.Ring.Fifo.{
  slot, contents, length-frames_from, frames_from-enqueued, contents-popped,
}

-- The operations leave the settings alone.
pub record SameSettings (rx rx' : WfbRx) : Type 0 where
  pub same_ignore : rx'.ignore_self_injected ≡ rx.ignore_self_injected
  pub same_max : rx'.max_payload ≡ rx.max_payload
  pub same_size : rx'.ring_size ≡ rx.ring_size
  pub same_fd : rx'.fd ≡ rx.fd

pub record Enqueued (rx : WfbRx) (f : Frame) (rx' : WfbRx) : Type 0 where
  pub valid : IsValid rx'
  pub same : SameSettings rx rx'
  pub holds : contents rx' ≡ Queue.push rx.ring_size (contents rx) f

-- `enqueue_decoded` on a valid ring, of a payload that fits a slot, returns, keeps the invariant
-- and the settings, and acts on the frames that the ring holds as `push` of the bounded queue: the
-- frame comes last, or the queue is as it was if it is full.
pub enqueue_decoded_refines :
    (rx : WfbRx) (payload : List ℕ) (meta : WfbRxMeta)
    → IsValid rx
    → length payload ≤ rx.max_payload
    → Returns (Enqueued rx (payload, meta)) (enqueue_decoded rx payload meta)
unfolding Queue.push
enqueue_decoded_refines rx payload meta v fits = elim (dec_lt rx.ring_count rx.ring_size) [
  | yes room ↦ rw (enqueue_decoded-done rx payload meta v fits room) (record {
    valid = enqueued-IsValid rx payload meta v fits room;
    same = record { same_ignore = refl; same_max = refl; same_size = refl; same_fd = refl };
    holds =
        rw
          (length-frames_from rx rx.ring_head rx.ring_count, lt→ltb rx.ring_count rx.ring_size room)
          (grown room);
  })
  | no full ↦ rw (enqueue_decoded-full rx payload meta (omega arith)) (record {
    valid = v;
    same = record { same_ignore = refl; same_max = refl; same_size = refl; same_fd = refl };
    holds = rw (
      length-frames_from rx rx.ring_head rx.ring_count,
      ltb-false rx.ring_count rx.ring_size (omega arith),
    );
  })
]
  where
    grown :
        rx.ring_count < rx.ring_size
        → contents (enqueued rx payload meta) ≡ contents rx ++ ((payload, meta) ∷ [])
    grown room =
        let e : rx.ring_count + 1 ≡ suc rx.ring_count = omega arith in
        rw e (
          frames_from-enqueued rx payload meta v fits rx.ring_count rx.ring_head v.head_lt room
            v.tail_eq)

pub record Delivered (rx : WfbRx) (f : Frame) (q : List Frame) (buf : List ℕ) (p : Popped)
    : Type 0 where
  pub valid : IsValid p.rx
  pub same : SameSettings rx p.rx
  pub remains : contents p.rx ≡ q
  pub length_copied : p.copied ≡ delivered_len f buf
  pub bytes : p.buf ≡ delivered f buf
  pub meta : p.out_meta ≡ some (delivered_meta f buf)

slot_len : (rx : WfbRx) → IsValid rx → length (slot rx rx.ring_head).0 ≡ head_len rx
slot_len rx v = length-head_bytes rx (head_len rx) v (omega arith)

pop_one-slot :
    (rx : WfbRx) (buf : List ℕ) (old : WfbRxMeta)
    → IsValid rx
    → 0 < rx.ring_count
    → Returns
        (Delivered rx (slot rx rx.ring_head) (contents (popped rx)) buf)
        (pop_one rx buf (some old))
pop_one-slot rx buf old v some_frame =
    let n : ℕ = min (head_len rx) (length buf) in
    let len : length (slot rx rx.ring_head).0 ≡ head_len rx = slot_len rx v in
    rw (pop_one-done rx buf (some old) v some_frame) (record {
      valid = popped-IsValid rx v some_frame;
      same = record { same_ignore = refl; same_max = refl; same_size = refl; same_fd = refl };
      remains = refl;
      length_copied = rw len;
      bytes = rw len (
          ap (overwrite buf 0) (
            sym (
              take-take n (head_len rx) (drop (rx.ring_head * rx.max_payload) rx.ring_payload_store)
                (omega arith))));
      meta = rw len;
    })

pub nonempty : (rx : WfbRx) (f : Frame) (q : List Frame) → contents rx ≡ f ∷ q → 0 < rx.ring_count
nonempty rx f q e = omega (arith, ap length e, length-frames_from rx rx.ring_head rx.ring_count)

-- `pop_one` on a valid ring that holds a frame, asked for its meta, returns, keeps the invariant
-- and the settings, removes the oldest frame, and delivers it: its bytes as far as the buffer
-- goes, their number, and its meta with `truncated` set exactly when bytes were cut off.
pub pop_one_refines :
    (rx : WfbRx) (buf : List ℕ) (old : WfbRxMeta) (f : Frame) (q : List Frame)
    → IsValid rx
    → contents rx ≡ f ∷ q
    → Returns (Delivered rx f q buf) (pop_one rx buf (some old))
pop_one_refines rx buf old f q v e =
    let some_frame : 0 < rx.ring_count = nonempty rx f q e in
    let both : slot rx rx.ring_head ∷ contents (popped rx) ≡ f ∷ q =
      sym (contents-popped rx some_frame) ∙ e in
    let first : slot rx rx.ring_head ≡ f = cc both in
    let rest : contents (popped rx) ≡ q = cc both in
    rw (← first, ← rest) (pop_one-slot rx buf old v some_frame)
