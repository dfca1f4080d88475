-- ===== src/Rx/Parse/Sound.antt =====
-- What every frame that `parse_and_enqueue_one_packet` of src/rx.rs takes in has in common.
use meshinator.Prelude.{
  ℕ, ◌≤◌, ◌≡◌, sym, ap, ◌∙◌, Bool, ◌&&◌, List, [], ◌∷◌, Option, none, some, Option-cases,
  Bool-cases, inl, inr, length, length-take, take, drop, arith,
}
use mathlib.Core.List.{filter_map, filter_map-cons-none, filter_map-cons-some}
use meshinator.Run.Laws.{Returns-done}
use meshinator.Radiotap.{RadiotapMeta, meta_of, radiotap_meta_from_packet}
use meshinator.Radiotap.Walking.{OptionIs, Parsed}
use meshinator.Radiotap.Safe.{HasSlots, radiotap_meta-Returns}
use meshinator.Rx.Queue.{Frame}
use meshinator.Rx.Parse.{rx_meta}
use meshinator.Rx.Parse.FrameOf.{
  frame_of, frame_of_lem, frame_with, header_of, payload_start, is_wanted, is_whole,
}

-- The payload fits a slot, and there are four signal strengths.
pub record IsSound (max : ℕ) (f : Frame) : Type 0 where
  pub fits : length f.0 ≤ max
  pub slots : length f.1.rssi ≡ 4

abbrev pub AreSound : ℕ → List Frame → Type 0
AreSound max [] = Unit {0}
AreSound max (f ∷ fs) = IsSound max f × AreSound max fs

module _ (ignore : Bool) (max : ℕ) where
  frame_with-IsSound :
      (pkt : List ℕ) (o : Option RadiotapMeta) (f : Frame)
      → OptionIs (Parsed pkt (λ i. HasSlots)) o
      → frame_with ignore max pkt o ≡ some f
      → IsSound max f
  unfolding rx_meta meta_of
  frame_with-IsSound pkt none f v e = cc
  frame_with-IsSound pkt (some m) f v e =
      elim (Bool-cases (is_wanted ignore m && is_whole max m pkt)) [
        | inr not_taken ↦ cc (rw not_taken at e)
        | inl taken_in ↦
            let n : ℕ = (header_of m pkt).payload_len in
            let made : (take n (drop (payload_start m) pkt), rx_meta (header_of m pkt) m) ≡ f =
              cc (rw taken_in at e) in
            let small : n ≤ max = ground (arith, taken_in) in
            rw (← made) (record {
              fits = omega (arith, small, length-take n (drop (payload_start m) pkt));
              slots = ap (λ (r : RadiotapMeta). length r.rssi) v.is_meta ∙ v.holds.rssi_slots;
            })
      ]

  frame_of-IsSound : (pkt : List ℕ) (f : Frame) → frame_of ignore max pkt ≡ some f → IsSound max f
  frame_of-IsSound pkt f e =
      let (o, walked, v) =
        Returns-done _ (radiotap_meta_from_packet pkt) (radiotap_meta-Returns pkt) in
      frame_with-IsSound pkt o f v (sym (frame_of_lem ignore max pkt o walked) ∙ e)

  pub frames-AreSound :
      {A : Type 0} (bytes : A → List ℕ) (ps : List A)
      → AreSound max (filter_map (λ p. frame_of ignore max (bytes p)) ps)
  unfolding filter_map
  frames-AreSound bytes [] = tt
  frames-AreSound bytes (p ∷ ps) = elim (Option-cases (frame_of ignore max (bytes p))) [
    | inl e ↦ rw (filter_map-cons-none _ p ps e) (frames-AreSound bytes ps)
    | inr (f, e) ↦
        rw (filter_map-cons-some _ p ps e)
          (frame_of-IsSound (bytes p) f e, frames-AreSound bytes ps)
  ]
