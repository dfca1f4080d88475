-- ===== src/Kernel.antt =====
-- The calls of the operating system that src/tx.rs makes, as a log. The kernel is a parameter: what it
-- returns may depend on every call so far.
pub mod Laws
use meshinator.Prelude.{ℕ, List, [], ◌∷◌}
use meshinator.Prelude.Int.{ℤ}
use meshinator.Run.{Run, done, panic, out_of_fuel}

pub data Syscall : Type 0 where
  socket : Syscall
  setsockopt_bypass : ℤ → Syscall
  -- SIOCGIFINDEX, with the name in its sixteen bytes
  ioctl_ifindex : ℤ → List ℕ → Syscall
  -- to an interface index
  bind_to : ℤ → ℤ → Syscall
  -- with the buffers of the message
  sendmsg : ℤ → List (List ℕ) → Syscall
  close_fd : ℤ → Syscall

-- What the newest call of a log returns, leaves in `errno`, and writes back as the index.
pub record Kernel : Type 0 where
  pub ret : List Syscall → ℤ
  pub errno : List Syscall → ℕ
  pub ifindex : List Syscall → ℤ

-- Code that may call the system; the newest call is the head of the log.
abbrev pub Sys : Type 0 → Type 0
Sys A = List Syscall → Run (A × List Syscall)

infixl 5 ◌>>=◌
abbrev pub ◌>>=◌ : {A B : Type 0} → Sys A → (A → Sys B) → Sys B
◌>>=◌ m f log = elim (m log) [
  | done (a, log') ↦ f a log'
  | panic ↦ panic
  | out_of_fuel ↦ out_of_fuel
]

abbrev pub pure : {A : Type 0} → A → Sys A
pure a log = done (a, log)

abbrev pub call : Kernel → Syscall → Sys ℤ
call k s log = done (k.ret (s ∷ log), s ∷ log)

-- `io::Error::last_os_error()`, right after the call that failed.
abbrev pub last_os_error : Kernel → Sys ℕ
last_os_error k log = done (k.errno log, log)

abbrev pub read_ifindex : Kernel → Sys ℤ
read_ifindex k log = done (k.ifindex log, log)

-- Code that may panic and makes no call.
abbrev pub lift : {A : Type 0} → Run A → Sys A
lift (done a) log = done (a, log)
lift panic log = panic
lift out_of_fuel log = out_of_fuel
