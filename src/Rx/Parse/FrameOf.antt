-- ===== src/Rx/Parse/FrameOf.antt =====
-- Which frame a captured packet carries, in one table of conditions.
use meshinator.Prelude.{
  ◌≡◌, ℕ, ◌+◌, ◌-◌, Bool, not, ◌&&◌, List, Option, none, some, length, take, drop, leb, ◌==◌,
  if◌then◌else◌,
}
use meshinator.Run.{Run, done, panic, out_of_fuel}
use meshinator.Proto.{WfbFrameHeader}
use meshinator.Proto.Decode.{header_at}
use meshinator.Radiotap.{RadiotapMeta, radiotap_meta_from_packet}
use meshinator.Radiotap.Layout.{has_flag, rtap_f_fcs, rtap_f_badfcs}
use meshinator.Rx.Queue
use meshinator.Rx.Queue.{Frame}
use meshinator.Rx.Parse.{rx_meta}

-- The bytes that count: four less if the radiotap header says that a frame check sequence follows.
abbrev pub end_of : RadiotapMeta → List ℕ → ℕ
end_of m pkt =
    if has_flag m.rt_flags rtap_f_fcs && leb 4 (length pkt) then length pkt - 4 else length pkt

-- The radiotap header, 24 bytes of IEEE 802.11 header, 8 bytes of frame header.
abbrev pub payload_start : RadiotapMeta → ℕ
payload_start m = m.radiotap_len + 24 + 8

abbrev pub header_of : RadiotapMeta → List ℕ → WfbFrameHeader
header_of m pkt = header_at (drop (m.radiotap_len + 24) pkt)

-- The frame is wanted: no echo of an own one, and no bad check sequence.
abbrev pub is_wanted : Bool → RadiotapMeta → Bool
is_wanted ignore m = not (m.self_injected && ignore) && not (has_flag m.rt_flags rtap_f_badfcs)

-- The headers are there, the version is known, and the payload is complete and fits a slot.
abbrev pub is_whole : ℕ → RadiotapMeta → List ℕ → Bool
is_whole max m pkt =
    leb (payload_start m) (end_of m pkt)
    && ((header_of m pkt).version == 0)
    && leb (payload_start m + (header_of m pkt).payload_len) (end_of m pkt)
    && leb (header_of m pkt).payload_len max

abbrev pub frame_with : Bool → ℕ → List ℕ → Option RadiotapMeta → Option Frame
frame_with ignore max pkt none = none
frame_with ignore max pkt (some m) =
    if is_wanted ignore m && is_whole max m pkt
    then some (
      take (header_of m pkt).payload_len (drop (payload_start m) pkt),
      rx_meta (header_of m pkt) m,
    )
    else none

abbrev value_of : Run (Option RadiotapMeta) → Option RadiotapMeta
value_of (done o) = o
value_of panic = none
value_of out_of_fuel = none

pub frame_of : Bool → ℕ → List ℕ → Option Frame
frame_of ignore max pkt = frame_with ignore max pkt (value_of (radiotap_meta_from_packet pkt))

pub frame_of_lem :
    (ignore : Bool) (max : ℕ) (pkt : List ℕ) (o : Option RadiotapMeta)
    → radiotap_meta_from_packet pkt ≡ done o
    → frame_of ignore max pkt ≡ frame_with ignore max pkt o
unfolding frame_of
frame_of_lem ignore max pkt o e = rw e

-- The bounded queue after a packet that may carry a frame.
abbrev pub push_option : ℕ → List Frame → Option Frame → List Frame
push_option cap q none = q
push_option cap q (some f) = Queue.push cap q f
