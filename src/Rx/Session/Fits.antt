-- ===== src/Rx/Session/Fits.antt =====
-- The bounded queue takes the first frames that fit.
use mathlib.Core.List.{filter_map, filter_map-cons-none, filter_map-cons-some}
use native.Mathlib.Decide.{dec_lt}
use meshinator.Prelude.{
  ℕ, zero, suc, ◌-◌, ◌≤◌, ◌<◌, ◌≡◌, refl, sym, ap, ◌∙◌, Bool, inl, inr, List, [], ◌∷◌, ◌++◌,
  Option-cases, length, length-append, append-nil, append_assoc, take, take-append_self, lt→ltb,
  ltb-false, arith,
}
use meshinator.Rx.Queue.{Frame, push}
use meshinator.Rx.Parse.FrameOf.{frame_of}
use meshinator.Rx.Recv.{Packet}
use meshinator.Rx.Recv.Drain.{push_packets}
use meshinator.Rx.Session.{frames_of}

pub take-all : {A : Type 0} (n : ℕ) (l : List A) → length l ≤ n → take n l ≡ l
take-all zero [] h = refl
take-all zero (a ∷ l) h = absurd (omega (arith, h))
take-all (suc n) [] h = refl
take-all (suc n) (a ∷ l) h = ap (λ m. a ∷ m) (take-all n l (omega (arith, h)))

-- A queue that is not overfull takes what fits.
pub push_packets-take :
    (ignore : Bool) (max cap : ℕ) (q : List Frame) (ps : List Packet)
    → length q ≤ cap
    → push_packets ignore max cap q ps ≡ take cap (q ++ frames_of ignore max ps)
unfolding filter_map push
push_packets-take ignore max cap q [] h = rw append-nil (sym (take-all cap q h))
push_packets-take ignore max cap q (p ∷ ps) h =
    elim (Option-cases (frame_of ignore max (take p.caplen p.bytes))) [
      | inl e ↦ rw (filter_map-cons-none _ p ps e, e) (push_packets-take ignore max cap q ps h)
      | inr (f, e) ↦
          rw (filter_map-cons-some _ p ps e, e)
            (elim (dec_lt (length q) cap) [
              | yes room ↦ rw (lt→ltb (length q) cap room) (
                  push_packets-take ignore max cap (q ++ (f ∷ [])) ps
                    (omega (arith, length-append q (f ∷ []), room))
                  ∙ ap (take cap) (append_assoc q (f ∷ []) (frames_of ignore max ps)))
              | no full ↦
                  let exact : length q ≡ cap = omega (arith, full, h) in
                  rw (ltb-false (length q) cap (omega (arith, full))) (
                    push_packets-take ignore max cap q ps h
                    ∙ rw (← exact) (
                        take-append_self q (frames_of ignore max ps)
                        ∙ sym (take-append_self q (f ∷ frames_of ignore max ps))))
            ])
    ]

pub take-nil : (n : ℕ) → take {A = Frame} n [] ≡ []
take-nil zero = refl
take-nil (suc n) = refl

pub take-cons : (n : ℕ) (f : Frame) (l : List Frame) → 0 < n → take n (f ∷ l) ≡ f ∷ take (n - 1) l
take-cons zero f l h = absurd (omega (arith, h))
take-cons (suc n) f l h = let one_less : suc n - 1 ≡ n = omega arith in rw one_less refl
