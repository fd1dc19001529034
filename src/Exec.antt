-- ===== src/Exec.antt =====
-- The state of the emulated kernel (the structs `Kernel` of kernel/kernel.go and `Syscall` of
-- kernel/syscall.go, field by field) beside the outside state, and the monad in which the handlers
-- are written. `fail e` is the source's `ctx.SetErrno(e)` with the return of the failure value
-- that follows it; `stall` marks a call that has not returned.

pub mod Contract
use microdbg_linux.Base.{ℕ, List, Option, none, some, Bool, true, false}
use microdbg_linux.Base.Assoc.{Assoc}
use microdbg_linux.Machine.{Machine}
use microdbg_linux.Errno.{Errno, code}

-- sigaction of kernel/signal.go
pub record Sigaction : Type 0 where
  pub sa_handler : ℕ
  pub sa_flags : ℕ
  pub sa_mask : ℕ
  pub sa_restorer : ℕ

-- futexAwait and futexBitAwait of kernel/futex.go: a channel, by its number, and the references.
pub record Await : Type 0 where
  pub ch : ℕ
  pub ref : ℕ

-- What a `select` of kernel/futex.go meets next, in the order in which it happens: the timer, a
-- value or the close of the channel of the address, a signal on the channel of the bits, a send
-- that finds a receiver or none; and a change of the memory by other tasks in between.
pub data Event (M : Machine) : Type 0 where
  timeout closed signalled sent refused : Event M
  received : ℕ → Event M
  stored : M.Memory → Event M

pub record State (M : Machine) : Type 0 where
  pub files : M.Files
  pub memory : M.Memory
  pub host : M.Host
  pub cpu : M.Cpu
  -- Kernel.err
  pub errno : ℕ
  -- fcntl.flags, signal.set and signal.table
  pub flags : Assoc ℕ
  pub sigset : ℕ
  pub sigtable : Assoc Sigaction
  -- futex.awaits and futex.bitAwaits, and the number of channels made so far
  pub awaits : Assoc Await
  pub bit_awaits : Assoc Await
  pub channels : ℕ
  -- sched.tasks
  pub tasks : Assoc M.Task
  -- what the selects of this call will meet
  pub events : List (Event M)

pub data Outcome (A : Type 0) : Type 0 where
  done : A → Outcome A
  failed : Outcome A
  panicked : Outcome A
  stalled : Outcome A

abbrev pub Exec : Machine → Type 0 → Type 0
Exec M A = State M → Outcome A × State M

module _ {M : Machine} where
  module _ {A : Type 0} where
    unfoldable pub pure : A → Exec M A
    pure a s = (done a, s)

    unfoldable pub fail : Errno → Exec M A
    fail e s = (failed, record s { errno = code e })

    unfoldable pub panic : Exec M A
    panic s = (panicked, s)

    unfoldable pub stall : Exec M A
    stall s = (stalled, s)

    unfoldable pub or_fail : Errno → Option A → Exec M A
    unfolding pure fail
    or_fail e none = fail e
    or_fail e (some a) = pure a

    unfoldable pub gets : (State M → A) → Exec M A
    gets f s = (done (f s), s)

    -- Actions on parts of the outside state.
    unfoldable pub on_files : (M.Files → A × M.Files) → Exec M A
    on_files f s = let (a, x) = f s.files in (done a, record s { files = x })

    unfoldable pub on_memory : (M.Memory → A × M.Memory) → Exec M A
    on_memory f s = let (a, x) = f s.memory in (done a, record s { memory = x })

    unfoldable pub on_host : (M.Host → A × M.Host) → Exec M A
    on_host f s = let (a, x) = f s.host in (done a, record s { host = x })

    unfoldable pub on_cpu : (M.Cpu → A × M.Cpu) → Exec M A
    on_cpu f s = let (a, x) = f s.cpu in (done a, record s { cpu = x })

    unfoldable pub on_files_host : (M.Files → M.Host → A × M.Files × M.Host) → Exec M A
    on_files_host f s =
        let (a, x, y) = f s.files s.host in (done a, record s { files = x; host = y })

    unfoldable pub on_host_memory : (M.Host → M.Memory → A × M.Host × M.Memory) → Exec M A
    on_host_memory f s =
        let (a, x, y) = f s.host s.memory in (done a, record s { host = x; memory = y })

  unfoldable pub guard : Bool → Errno → Exec M (Unit {0})
  unfolding pure fail
  guard true e = pure tt
  guard false e = fail e

  -- Updates of the kernel's own fields.
  unfoldable pub set_flags : (Assoc ℕ → Assoc ℕ) → Exec M (Unit {0})
  set_flags f s = (done tt, record s { flags = f s.flags })

  unfoldable pub set_sigset : (ℕ → ℕ) → Exec M (Unit {0})
  set_sigset f s = (done tt, record s { sigset = f s.sigset })

  unfoldable pub set_sigtable : (Assoc Sigaction → Assoc Sigaction) → Exec M (Unit {0})
  set_sigtable f s = (done tt, record s { sigtable = f s.sigtable })

  unfoldable pub set_awaits : (Assoc Await → Assoc Await) → Exec M (Unit {0})
  set_awaits f s = (done tt, record s { awaits = f s.awaits })

  unfoldable pub set_bit_awaits : (Assoc Await → Assoc Await) → Exec M (Unit {0})
  set_bit_awaits f s = (done tt, record s { bit_awaits = f s.bit_awaits })

  unfoldable pub set_channels : ℕ → Exec M (Unit {0})
  set_channels n s = (done tt, record s { channels = n })

  unfoldable pub set_tasks : (Assoc M.Task → Assoc M.Task) → Exec M (Unit {0})
  set_tasks f s = (done tt, record s { tasks = f s.tasks })

  unfoldable pub set_events : List (Event M) → Exec M (Unit {0})
  set_events es s = (done tt, record s { events = es })

  module _ {A B : Type 0} where
    abbrev pub continue : Outcome A → (A → Exec M B) → Exec M B
    continue (done a) f s = f a s
    continue failed f s = (failed, s)
    continue panicked f s = (panicked, s)
    continue stalled f s = (stalled, s)

    infixl 5 ◌>>=◌ ◌>>◌
    -- Opening this opens the actions above too.
    unfoldable pub ◌>>=◌ : Exec M A → (A → Exec M B) → Exec M B
    unfolding pure fail panic stall or_fail gets on_files on_memory on_host on_cpu on_files_host
        on_host_memory guard set_flags set_sigset set_sigtable set_awaits set_bit_awaits
        set_channels set_tasks set_events
    ◌>>=◌ m f s = let (r, s') = m s in continue r f s'

    abbrev pub ◌>>◌ : Exec M A → Exec M B → Exec M B
    m >> k = m >>= λ _. k
