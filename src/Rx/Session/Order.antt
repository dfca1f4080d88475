-- ===== src/Rx/Session/Order.antt =====
-- What is delivered over many calls of `recv`: in order, nothing twice, and nothing lost while it fits.
use mathlib.Core.List.{Sublist, nil-sublist, filter_map-append}
use mathlib.Core.List.Sublist
use meshinator.Prelude.{
  ℕ, zero, suc, ◌+◌, ◌≤◌, ◌≡◌, refl, sym, ap, subst, Bool, Bool-cases, inl, inr, List, [], ◌∷◌,
  ◌++◌, Option, none, some, length, length-append, append-nil, append_assoc, take, leb, ◌==◌, arith,
}
use meshinator.Rx.Queue.{Frame}
use meshinator.Rx.Parse.Sound.{AreSound, frames-AreSound}
use meshinator.Rx.Recv.{Packet, PollResult, failed, no_event, ready, eintr, Round, remaining_ms}
use meshinator.Rx.Session.Fits.{take-all}
use meshinator.Rx.Session.{
  frames_of, first_of, Session, arriving_at, arriving, failing, came_in, queue_in, serve, session,
}

abbrev pub all_packets : List Round → List Packet
all_packets [] = []
all_packets (r ∷ rounds) = r.packets ++ all_packets rounds

-- The frames that the capture has over the calls.
abbrev pub frames_over : Bool → ℕ → List (List Round) → List Frame
frames_over ignore max [] = []
frames_over ignore max (rounds ∷ scripts) =
    frames_of ignore max (all_packets rounds) ++ frames_over ignore max scripts

pub append-Sublist_left : {A : Type 0} (l m : List A) → Sublist l (l ++ m)
append-Sublist_left l m = rw append-nil at (Sublist.append (Sublist.refl l) (nil-sublist m))

take-Sublist : {A : Type 0} (n : ℕ) (l : List A) → Sublist (take n l) l
take-Sublist zero l = nil-sublist l
take-Sublist (suc n) [] = Sublist.refl []
take-Sublist (suc n) (a ∷ l) = Sublist.cons-cons a (take-Sublist n l)

take-AreSound : (max n : ℕ) (l : List Frame) → AreSound max l → AreSound max (take n l)
take-AreSound max zero l h = tt
take-AreSound max (suc n) [] h = tt
take-AreSound max (suc n) (f ∷ l) h = (h.0, take-AreSound max n l h.1)

first_of-Sublist :
    (frames later all : List Frame)
    → Sublist later all
    → Sublist (first_of frames later) (frames ++ all)
first_of-Sublist [] later all s = s
first_of-Sublist (f ∷ fs) later all s = append-Sublist_left (f ∷ fs) all

behind-Sublist : (frames l all : List Frame) → Sublist l all → Sublist l (frames ++ all)
behind-Sublist frames l all s = Sublist.append (nil-sublist frames) s

module _ (ignore : Bool) (max cap timeout : ℕ) where
  arriving_at-Sublist :
      (frames later all : List Frame) (p : PollResult)
      → Sublist later all
      → Sublist (arriving_at ignore max cap timeout frames later p) (frames ++ all)
  arriving_at-Sublist frames later all (failed errno) s = elim (Bool-cases (errno == eintr)) [
    | inl again ↦ rw again (behind-Sublist frames later all s)
    | inr over ↦ rw over (nil-sublist (frames ++ all))
  ]
  arriving_at-Sublist frames later all no_event s = nil-sublist (frames ++ all)
  arriving_at-Sublist frames later all ready s = first_of-Sublist frames later all s

  arriving-Sublist :
      (rounds : List Round)
      → Sublist (arriving ignore max cap timeout rounds) (frames_of ignore max (all_packets rounds))
  arriving-Sublist [] = nil-sublist _
  arriving-Sublist (r ∷ rounds) = elim (Bool-cases (leb timeout r.elapsed)) [
    | inl late ↦ rw late (nil-sublist _)
    | inr early ↦
        rw (early, filter_map-append _ r.packets (all_packets rounds))
          (arriving_at-Sublist (frames_of ignore max r.packets) _ _
            (r.poll (remaining_ms timeout r.elapsed)) (arriving-Sublist rounds))
  ]

  arriving_at-AreSound :
      (frames later : List Frame) (p : PollResult)
      → AreSound max frames
      → AreSound max later
      → AreSound max (arriving_at ignore max cap timeout frames later p)
  arriving_at-AreSound frames later (failed errno) h k = elim (Bool-cases (errno == eintr)) [
    | inl again ↦ rw again k
    | inr over ↦ rw over tt
  ]
  arriving_at-AreSound frames later no_event h k = tt
  arriving_at-AreSound [] later ready h k = k
  arriving_at-AreSound (f ∷ fs) later ready h k = h

  arriving-AreSound : (rounds : List Round) → AreSound max (arriving ignore max cap timeout rounds)
  arriving-AreSound [] = tt
  arriving-AreSound (r ∷ rounds) = elim (Bool-cases (leb timeout r.elapsed)) [
    | inl late ↦ rw late tt
    | inr early ↦ rw early (
        arriving_at-AreSound (frames_of ignore max r.packets) _
          (r.poll (remaining_ms timeout r.elapsed)) (frames-AreSound ignore max _ r.packets)
          (arriving-AreSound rounds))
  ]

  queue_in-Sublist :
      (q : List Frame) (rounds : List Round)
      → Sublist
          (queue_in ignore max cap timeout q rounds)
          (q ++ frames_of ignore max (all_packets rounds))
  queue_in-Sublist [] rounds = Sublist.trans (take-Sublist cap _) (arriving-Sublist rounds)
  queue_in-Sublist (f ∷ q) rounds = append-Sublist_left (f ∷ q) _

  pub queue_in-AreSound :
      (q : List Frame) (rounds : List Round)
      → AreSound max q
      → AreSound max (queue_in ignore max cap timeout q rounds)
  queue_in-AreSound [] rounds h = take-AreSound max cap _ (arriving-AreSound rounds)
  queue_in-AreSound (f ∷ q) rounds h = h

  came_in-Sublist :
      (q : List Frame) (rounds : List Round)
      → Sublist
          (came_in ignore max cap timeout q rounds)
          (frames_of ignore max (all_packets rounds))
  came_in-Sublist [] rounds = arriving-Sublist rounds
  came_in-Sublist (f ∷ q) rounds = nil-sublist _

  module _ (scripts : List (List Round)) where
    abbrev again : List Frame → Session
    again q = session ignore max cap timeout scripts q

    abbrev served : List Frame → Option ℕ → Session
    served q e = serve ignore max cap timeout q e again

    serve-Sublist :
        (q : List Frame) (e : Option ℕ) (all : List Frame)
        → ((q' : List Frame) → Sublist ((again q').handed ++ (again q').held) (q' ++ all))
        → Sublist ((served q e).handed ++ (served q e).held) (q ++ all)
    serve-Sublist (f ∷ q) e all ih = Sublist.cons-cons f (ih q)
    serve-Sublist [] (some e) all ih = nil-sublist all
    serve-Sublist [] none all ih = ih []

    serve-drained :
        (q : List Frame) (e : Option ℕ) (all : List Frame)
        → ((q' : List Frame) → Sublist (again q').drained all)
        → Sublist (served q e).drained all
    serve-drained (f ∷ q) e all ih = ih q
    serve-drained [] (some e) all ih = nil-sublist all
    serve-drained [] none all ih = ih []

    serve-AreSound :
        (q : List Frame) (e : Option ℕ)
        → AreSound max q
        → ((q' : List Frame) → AreSound max q' → AreSound max (again q').handed)
        → AreSound max (served q e).handed
    serve-AreSound (f ∷ q) e h ih = (h.0, ih q h.1)
    serve-AreSound [] (some e) h ih = tt
    serve-AreSound [] none h ih = ih [] tt

    serve-lossless :
        (came : List Frame) (e : Option ℕ)
        → length came + length (served came e).drained ≤ cap
        → ((q : List Frame)
            → length q + length (again q).drained ≤ cap
            → (again q).handed ++ (again q).held ≡ q ++ (again q).drained)
        → (served came e).handed ++ (served came e).held ≡ came ++ (served came e).drained
    serve-lossless (f ∷ q) e h ih = ap (λ l. f ∷ l) (ih q (omega (arith, h)))
    serve-lossless [] (some e) h ih = refl
    serve-lossless [] none h ih = ih [] h

  pub session-in_order :
      (scripts : List (List Round)) (q : List Frame)
      → Sublist
          ((session ignore max cap timeout scripts q).handed
            ++ (session ignore max cap timeout scripts q).held)
          (q ++ frames_over ignore max scripts)
  session-in_order [] q = append-Sublist_left q []
  session-in_order (rounds ∷ scripts) q =
      Sublist.trans
        (serve-Sublist scripts (queue_in ignore max cap timeout q rounds) _ _
          (session-in_order scripts))
        (rw (append_assoc q (frames_of ignore max (all_packets rounds)) _) at (
          Sublist.append (queue_in-Sublist q rounds)
            (Sublist.refl (frames_over ignore max scripts))))

  pub session-drained :
      (scripts : List (List Round)) (q : List Frame)
      → Sublist (session ignore max cap timeout scripts q).drained (frames_over ignore max scripts)
  session-drained [] q = nil-sublist []
  session-drained (rounds ∷ scripts) q = Sublist.append (came_in-Sublist q rounds) (
      serve-drained scripts (queue_in ignore max cap timeout q rounds) _ _
        (session-drained scripts))

  pub session-AreSound :
      (scripts : List (List Round)) (q : List Frame)
      → AreSound max q
      → AreSound max (session ignore max cap timeout scripts q).handed
  session-AreSound [] q h = tt
  session-AreSound (rounds ∷ scripts) q h =
      serve-AreSound scripts (queue_in ignore max cap timeout q rounds) _
        (queue_in-AreSound q rounds h) (session-AreSound scripts)

  -- As long as all that was drained fits the queue.
  pub session-lossless :
      (scripts : List (List Round)) (q : List Frame)
      → length q + length (session ignore max cap timeout scripts q).drained ≤ cap
      → (session ignore max cap timeout scripts q).handed
          ++ (session ignore max cap timeout scripts q).held
        ≡ q ++ (session ignore max cap timeout scripts q).drained
  session-lossless [] q h = sym (append-nil q)
  session-lossless (rounds ∷ scripts) (f ∷ q) h =
      serve-lossless scripts (f ∷ q) (failing ignore max cap timeout rounds) h
        (session-lossless scripts)
  session-lossless (rounds ∷ scripts) [] h =
      let came : List Frame = arriving ignore max cap timeout rounds in
      let e : Option ℕ = failing ignore max cap timeout rounds in
      let size = length-append came (served scripts (take cap came) e).drained in
      let all : take cap came ≡ came = take-all cap came (omega (arith, h, size)) in
      let few : length came + length (served scripts came e).drained ≤ cap =
        subst (λ c. length came + length (served scripts c e).drained ≤ cap) all
          (omega (arith, h, size)) in
      subst
        (λ c.
          (served scripts c e).handed ++ (served scripts c e).held
          ≡ came ++ (served scripts c e).drained)
        (sym all) (serve-lossless scripts came e few (session-lossless scripts))
