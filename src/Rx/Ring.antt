-- ===== src/Rx/Ring.antt =====
-- src/rx.rs, the bounded ring buffer of `WfbRx`: `enqueue_decoded` and `pop_one`.
-- A `usize` sum is exact: every one here is at most the size of a buffer in memory.
pub mod Valid
pub mod Fifo
pub mod Refine
use meshinator.Prelude.{
  ℕ, ◌+◌, ◌-◌, ◌*◌, min, Bool, not, List, Option, none, some, length, leb, ◌==◌, if◌then◌else◌,
}
use mathlib.Core.Option
use meshinator.Run.{Run, done, ◌>>=◌, index, slice, write, copy_range, rem, checked_sub}
use meshinator.Proto.{WfbRxMeta}
use meshinator.Rx.State.{WfbRx}

pub enqueue_decoded : WfbRx → List ℕ → WfbRxMeta → Run WfbRx
enqueue_decoded rx payload meta = if leb rx.ring_size rx.ring_count then done rx else do
  let idx = rx.ring_tail
  lens ← write rx.ring_payload_len idx (length payload)
  metas ← write rx.ring_meta idx meta
  let dst_off = idx * rx.max_payload
  store ← copy_range rx.ring_payload_store dst_off (dst_off + length payload) payload
  tail ← rem (rx.ring_tail + 1) rx.ring_size
  done (record rx {
    ring_payload_len = lens;
    ring_meta = metas;
    ring_payload_store = store;
    ring_tail = tail;
    ring_count = rx.ring_count + 1;
  })

-- What `pop_one` changes and returns: the receiver, the caller's buffer, what `out_meta` points to,
-- and the number of bytes copied.
pub record Popped : Type 0 where
  pub rx : WfbRx
  pub buf : List ℕ
  pub out_meta : Option WfbRxMeta
  pub copied : ℕ

-- What is written to `out_meta`, if that is there: the slot's meta with the mark of a cut payload.
pub meta_out : List WfbRxMeta → ℕ → Bool → Option WfbRxMeta → Run (Option WfbRxMeta)
meta_out metas idx truncated none = done none
meta_out metas idx truncated (some old) = do
  meta ← index metas idx
  done (some (record meta { truncated = truncated }))

pub pop_one : WfbRx → List ℕ → Option WfbRxMeta → Run Popped
pop_one rx buf out_meta = do
  let idx = rx.ring_head
  payload_len ← index rx.ring_payload_len idx
  let to_copy = min payload_len (length buf)
  let src_off = idx * rx.max_payload
  src ← slice rx.ring_payload_store src_off (src_off + to_copy)
  buf ← copy_range buf 0 to_copy src
  out_meta ← meta_out rx.ring_meta idx (not (to_copy == payload_len)) out_meta
  head ← rem (rx.ring_head + 1) rx.ring_size
  count ← checked_sub rx.ring_count 1
  done (record {
    rx = record rx { ring_head = head; ring_count = count };
    buf = buf;
    out_meta = out_meta;
    copied = to_copy;
  })
