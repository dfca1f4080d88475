-- ===== src/Examples/Receiver/Line.antt =====
-- The line that examples/simple_txrx.rs prints for a frame.
use meshinator.Prelude.{
  ℕ, ◌-◌, ◌≤◌, ◌≡◌, refl, inl, inr, Bool, true, false, List, length, length-overwrite, take,
  take-length, overwrite, get_or, ◌==◌, Bool-cases, if◌then◌else◌, arith,
}
use meshinator.Prelude.Int.{pos}
use meshinator.Prelude.Slices.{range-overwrite_self}
use meshinator.Run.{done}
use meshinator.Run.Laws.{index-done, slice-done}
use meshinator.Rx.Queue.{Frame, delivered_len, delivered, delivered_meta}
use meshinator.Rx.Parse.Sound.{IsSound}
use meshinator.Examples.Receiver.{RxLine, with_rssi, plain, line_of}

-- The line for a frame: the whole payload, not truncated.
abbrev pub line_for : Bool → Frame → RxLine
line_for print_rssi (payload, meta) =
    if print_rssi
    then with_rssi meta.seq (length payload) meta.bandwidth meta.mcs_index meta.freq
        (get_or meta.rssi 0 (pos 0)) false payload
    else plain meta.seq (length payload) false payload

-- A sound frame that was delivered into a buffer with room for it.
pub line_of-done :
    (print_rssi : Bool) (f : Frame) (buf : List ℕ)
    → IsSound 4013 f
    → 4013 ≤ length buf
    → line_of print_rssi (delivered f buf) (delivered_len f buf) (delivered_meta f buf)
      ≡ done (line_for print_rssi f)
unfolding line_of
line_of-done print_rssi f buf sound room =
    let n : ℕ = length f.0 in
    let whole : delivered_len f buf ≡ n = omega (arith, sound.fits) in
    let all : take n (overwrite buf 0 f.0) ≡ f.0 =
      range-overwrite_self buf 0 f.0 (omega (arith, sound.fits)) in
    let size : length (overwrite buf 0 f.0) ≡ length buf = length-overwrite buf 0 f.0 in
    let exact : (n == n) ≡ true = ground arith in
    let none_cut : n - 0 ≡ n = omega arith in
    rw
      (
        whole,
        take-length f.0,
        exact,
        slice-done (overwrite buf 0 f.0) 0 n (omega arith) (omega (arith, size, sound.fits)),
        none_cut,
        all,
        index-done f.1.rssi 0 (pos 0) (omega (arith, sound.slots)),
      )
      (elim (Bool-cases print_rssi) [ inl y ↦ rw y refl | inr y ↦ rw y refl ])
