-- ===== src/Kernel/Laws.antt =====
-- How a property of the result goes through code that calls the system.
use meshinator.Prelude.{◌≡◌, refl, ap, Bool, true, false, List, if◌then◌else◌}
use meshinator.Run.{Run, done, panic, out_of_fuel, Returns}
use meshinator.Kernel.{Syscall, Sys, ◌>>=◌, lift}

pub Sys-if :
    {A : Type 0} (P : A × List Syscall → Type 0) (b : Bool) (m n : Sys A) (log : List Syscall)
    → (b ≡ true → Returns P (m log))
    → (b ≡ false → Returns P (n log))
    → Returns P ((if b then m else n) log)
Sys-if P true m n log h k = h refl
Sys-if P false m n log h k = k refl

pub Sys-bind :
    {A B : Type 0} (P : A × List Syscall → Type 0) (Q : B × List Syscall → Type 0) (m : Sys A)
    (f : A → Sys B) (log : List Syscall)
    → Returns P (m log)
    → ((a : A) (log' : List Syscall) → P (a, log') → Returns Q (f a log'))
    → Returns Q ((m >>= f) log)
Sys-bind {A} {B} P Q m f log h k = through (m log) h
  where
    through :
        (r : Run (A × List Syscall))
        → Returns P r
        → Returns Q (((λ (l : List Syscall). r) >>= f) log)
    through (done (a, log')) h = k a log' h
    through panic h = absurd h
    through out_of_fuel h = absurd h

pub Sys-bind-done :
    {A B : Type 0} (m : Sys A) (f : A → Sys B) (log : List Syscall) (a : A) (log' : List Syscall)
    → m log ≡ done (a, log')
    → (m >>= f) log ≡ f a log'
Sys-bind-done {A} {B} m f log a log' e =
    ap (λ (r : Run (A × List Syscall)). ((λ (l : List Syscall). r) >>= f) log) e

pub lift-Returns :
    {A : Type 0} (P : A → Type 0) (m : Run A) (log : List Syscall)
    → Returns P m
    → Returns (λ out. P out.0 × (out.1 ≡ log)) (lift m log)
lift-Returns P (done a) log h = (h, refl)
lift-Returns P panic log h = absurd h
lift-Returns P out_of_fuel log h = absurd h
