-- ===== src/Examples/Air.antt =====
-- What stands between a station that sends and one that receives: the sender's driver, which takes the
-- radiotap header off, the air, which may lose frames, and the receiver's driver, which puts a radiotap
-- header of its own before a frame and may leave its check sequence behind it.
use mathlib.Core.List.{Sublist, nil-sublist, filter_map, filter_map-eq-map, filter_map-append}
use mathlib.Core.List.Sublist
use meshinator.Prelude.{
  ℕ, ◌+◌, ◌*◌, ◌/◌, ◌%◌, ◌^◌, ◌≤◌, ◌<◌, ◌≡◌, refl, ap, sym, ◌∙◌, Bool, true, List, [], ◌∷◌, ◌++◌,
  map, some, length, take, take-length, drop, arith,
}
use meshinator.Run.{done}
use meshinator.Proto.{WfbTxConfig}
use meshinator.Radiotap.{RadiotapMeta, radiotap_meta_from_packet}
use meshinator.Tx.Frames.{ieee_header, frame}
use meshinator.Rx.Queue.{Frame}
use meshinator.Rx.Parse.{rx_meta}
use meshinator.Rx.Parse.FrameOf.{frame_of, is_wanted}
use meshinator.Rx.Recv.{Packet, Round}
use meshinator.Rx.Session.{frames_of}
use meshinator.Rx.Session.Order.{all_packets, frames_over}
use meshinator.Link.Carried.{header_for, fcs_len, frame_of-captured}
use meshinator.Examples.Lines.{frames}

-- A packet of the receiver's capture that holds a frame that was put on the air behind a radiotap header
-- of 13 bytes. The receiver's own radiotap header can be read, and marks the frame neither as an echo
-- nor as damaged.
pub record IsCaptureOf (f : List ℕ) (p : Packet) : Type 0 where
  pub rt : List ℕ
  pub fcs : List ℕ
  pub meta : RadiotapMeta
  pub bytes : p.bytes ≡ rt ++ (drop 13 f ++ fcs)
  pub whole : p.caplen ≡ length p.bytes
  pub parsed : radiotap_meta_from_packet p.bytes ≡ done (some meta)
  pub own_length : meta.radiotap_len ≡ length rt
  pub wanted : is_wanted true meta ≡ true
  pub check : length fcs ≡ fcs_len meta

-- What becomes of the frames on the air: each is lost or captured.
pub data Carries : List (List ℕ) → List Packet → Type 0 where
  silence : Carries [] []
  lost : (f : List ℕ) {fs : List (List ℕ)} {ps : List Packet} → Carries fs ps → Carries (f ∷ fs) ps
  arrives :
      (f : List ℕ) (p : Packet) {fs : List (List ℕ)} {ps : List Packet}
      → IsCaptureOf f p
      → Carries fs ps
      → Carries (f ∷ fs) (p ∷ ps)

abbrev pub packets_over : List (List Round) → List Packet
packets_over [] = []
packets_over (rounds ∷ scripts) = all_packets rounds ++ packets_over scripts

-- The payloads with their sequence numbers.
abbrev pub numbered : ℕ → List (List ℕ) → List (ℕ × List ℕ)
numbered seq [] = []
numbered seq (p ∷ ps) = (seq, p) ∷ numbered ((seq + 1) % 2 ^ 32) ps

abbrev pub entry : Frame → ℕ × List ℕ
entry f = (f.1.seq, f.0)

abbrev pub AreShort : List (List ℕ) → Type 0
AreShort [] = Unit {0}
AreShort (p ∷ ps) = (length p ≤ 4013) × AreShort ps

module _ (cfg : WfbTxConfig) (bw mcs : ℕ) where
  captured-frame :
      (n seq : ℕ) (payload : List ℕ) (p : Packet)
      (c : IsCaptureOf (frame cfg n bw mcs seq payload) p)
      → length payload ≤ 4013
      → seq < 2 ^ 32
      → frame_of true 4013 (take p.caplen p.bytes)
        ≡ some (payload, rx_meta (header_for seq payload) c.meta)
  captured-frame n seq payload p c short small =
      let ieee : List ℕ =
        ieee_header cfg.frame_type cfg.stream_id (16 * n % 256) (16 * n % 65536 / 256) in
      let all : take p.caplen p.bytes ≡ p.bytes =
        ap (λ k. take k p.bytes) c.whole ∙ take-length p.bytes in
      ap (frame_of true 4013) (all ∙ c.bytes)
      ∙ frame_of-captured c.meta c.rt ieee seq payload c.fcs c.own_length refl c.check small
          (omega (arith, short)) true 4013 (rw c.bytes at c.parsed) c.wanted short

  pub carried-in_order :
      (ps : List (List ℕ)) (packets : List Packet) (n seq : ℕ)
      → Carries (frames cfg bw mcs n seq ps) packets
      → AreShort ps
      → seq < 2 ^ 32
      → Sublist (map entry (frames_of true 4013 packets)) (numbered seq ps)
  unfolding filter_map rx_meta
  carried-in_order [] packets n seq silence h small = nil-sublist []
  carried-in_order (p ∷ ps) packets n seq (lost f c) h small =
      Sublist.cons (seq, p)
        (carried-in_order ps packets (n + 1) ((seq + 1) % 2 ^ 32) c h.1 (omega arith))
  carried-in_order (p ∷ ps) packets n seq (arrives f q i c) h small =
      rw (captured-frame n seq p q i h.0 small) (
        Sublist.cons-cons (seq, p)
          (carried-in_order ps _ (n + 1) ((seq + 1) % 2 ^ 32) c h.1 (omega arith)))

pub map-Sublist :
    {A B : Type 0} (f : A → B) (l m : List A) → Sublist l m → Sublist (map f l) (map f m)
map-Sublist f l m s =
    rw (filter_map-eq-map f l, filter_map-eq-map f m) at (Sublist.filter_map (λ a. some (f a)) s)

pub frames_over-eq :
    (ignore : Bool) (max : ℕ) (scripts : List (List Round))
    → frames_over ignore max scripts ≡ frames_of ignore max (packets_over scripts)
unfolding filter_map
frames_over-eq ignore max [] = refl
frames_over-eq ignore max (rounds ∷ scripts) =
    ap (λ l. frames_of ignore max (all_packets rounds) ++ l) (frames_over-eq ignore max scripts)
    ∙ sym (filter_map-append _ (all_packets rounds) (packets_over scripts))
