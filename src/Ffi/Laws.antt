-- ===== src/Ffi/Laws.antt =====
-- How a property goes through `run_ffi`, and which codes an error or an interface gives.
use meshinator.Prelude.{
  ℕ, ◌≢◌, inl, inr, List, [], Option, none, some, length, ◌==◌, Bool-cases, arith,
}
use meshinator.Proto.{WfbError, invalid_argument, io, pcap}
use meshinator.Ffi.Utf8.{is_text}
use meshinator.Run.{Run, done, panic, out_of_fuel, Returns}
use meshinator.Ffi.{
  Caught, finished, internal, run_ffi, map_err, OrCode, value, failed_with, c_iface,
}

-- The function finished without a panic, and as `P` says.
abbrev pub Finishes : {A : Type 0} → (A → Type 0) → Caught A → Type 0
Finishes P (finished a) = P a
Finishes P internal = ⊥

pub run_ffi-Finishes :
    {A : Type 0} (P : A → Type 0) (m : Run A) → Returns P m → Returns (Finishes P) (run_ffi m)
run_ffi-Finishes P (done a) h = h
run_ffi-Finishes P panic h = absurd h
run_ffi-Finishes P out_of_fuel h = absurd h

pub map_err-nonzero : (e : WfbError) → map_err e ≢ 0
map_err-nonzero (invalid_argument m) h = omega (arith, h)
map_err-nonzero (io n) h = omega (arith, h)
map_err-nonzero (pcap t) h = omega (arith, h)

-- The code of an interface that cannot be used.
abbrev pub IsRefused : OrCode (List ℕ) → Type 0
IsRefused (value iface) = Unit {0}
IsRefused (failed_with c) = c ≢ 0

pub c_iface-IsRefused : (iface : Option (List ℕ)) → IsRefused (c_iface iface)
unfolding c_iface
c_iface-IsRefused none = λ h. omega (arith, h)
c_iface-IsRefused (some bytes) = elim (Bool-cases (is_text [] bytes)) [
  | inl text ↦ elim (Bool-cases (length bytes == 0)) [
    | inl no_bytes ↦ rw (text, no_bytes) (λ h. omega (arith, h))
    | inr some_bytes ↦ rw (text, some_bytes) tt
  ]
  | inr other ↦ rw other (λ h. omega (arith, h))
]
