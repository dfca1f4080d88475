-- ===== src/Rx/Queue.antt =====
-- What a client of `WfbRx` may rely on: a queue of at most `cap` frames, oldest first, that drops new
-- frames when it is full; and what a buffer holds after a frame was delivered into it.
use meshinator.Prelude.{
  ℕ, min, not, List, [], ◌∷◌, ◌++◌, length, take, overwrite, ltb, ◌==◌, if◌then◌else◌,
}
use meshinator.Proto.{WfbRxMeta}

-- A frame: its payload and its meta.
abbrev pub Frame : Type 0
Frame = List ℕ × WfbRxMeta

unfoldable pub push : ℕ → List Frame → Frame → List Frame
push cap q f = if ltb (length q) cap then q ++ (f ∷ []) else q

-- As many bytes of the payload as fit stand at the front of the buffer, the rest of it is as it was.
abbrev pub delivered_len : Frame → List ℕ → ℕ
delivered_len f buf = min (length f.0) (length buf)

abbrev pub delivered : Frame → List ℕ → List ℕ
delivered f buf = overwrite buf 0 (take (delivered_len f buf) f.0)

-- The meta says whether bytes were cut off.
abbrev pub delivered_meta : Frame → List ℕ → WfbRxMeta
delivered_meta f buf = record (f.1) { truncated = not (delivered_len f buf == length f.0) }
