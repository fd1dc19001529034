-- ===== src/Kernel/Life.antt =====
-- kernel/kernel.go and kernel/syscall.go: how a kernel begins and ends. A map behind `Close` is
-- nil, which reads as an empty one; a channel that `Close` closes is the event `closed` of the waits
-- that receive from it, which find both maps empty then.
use microdbg_linux.Base.{
  ℕ, ◌==◌, ◌≡◌, refl, Option, none, some, Bool, if◌then◌else◌, List, [], ◌∷◌, Bool-cases, inl, inr,
  arith,
}
use microdbg_linux.Machine.{Machine, Arch}
use microdbg_linux.Base.Assoc.{Assoc, lookup}
use microdbg_linux.Exec.{Await, State, Exec, done, gets, pure}
use microdbg_linux.Exec.{set_flags, set_awaits, set_bit_awaits, set_sigtable, ◌>>=◌, ◌>>◌}
use microdbg_linux.Fcntl.Tracked.{IsFileTable, IsTracked}
use microdbg_linux.Kernel.Tracked.{Round, run_all, run_all-IsTracked}
use mathlib.Core.List.{Memᴰ}
use mathlib.Core.Path.{subst}
use microdbg_linux.Futex.Tracks.{Holders, Entry}
use microdbg_linux.Futex.Woken.{Entry-channel}
use microdbg_linux.Futex.System.{Waiter, addresses, bits, Reached, begin, Reached-InStep}
use microdbg_linux.Kernel.{Convention, arm_convention, arm64_convention}

-- The handler that `NewKernel` chooses, by its convention.
unfoldable pub handler_of : Arch → Option Convention
handler_of Arch.arm = some arm_convention
handler_of Arch.arm64 = some arm64_convention
handler_of _ = none

abbrev pub channels_of : Assoc Await → List ℕ
channels_of [] = []
channels_of ((key, await) ∷ rest) = await.ch ∷ channels_of rest

channels_of-lookup :
    (key : ℕ) (m : Assoc Await) (a : Await) → lookup key m ≡ some a → Memᴰ a.ch (channels_of m)
unfolding lookup
channels_of-lookup key [] a e = ground arith
channels_of-lookup key ((k, b) ∷ m) a e = elim (Bool-cases (k == key)) [
  | inl same ↦ Memᴰ.head (ground arith)
  | inr other ↦ Memᴰ.tail (channels_of-lookup key m a (ground arith))
]

-- The channel of each holder is among the channels.
abbrev pub AllIn : List ℕ → Holders → Type 0
AllIn channels [] = Unit
AllIn channels ((key, ch) ∷ hs) = Memᴰ ch channels × AllIn channels hs

all-AllIn :
    (m : Assoc Await) (hs all : Holders)
    → ((key : ℕ) → Entry key all (lookup key m))
    → ((x : ℕ × ℕ) → Memᴰ x hs → Memᴰ x all)
    → AllIn (channels_of m) hs
all-AllIn m [] all h within = tt
all-AllIn m ((key, ch) ∷ hs) all h within =
    let (a, found, same) =
      Entry-channel key ch all (lookup key m) (h key) (within (key, ch) (Memᴰ.head refl)) in
    (
      subst (λ c. Memᴰ c (channels_of m)) same (channels_of-lookup key m a found),
      all-AllIn m hs all h (λ x t. within x (Memᴰ.tail t)),
    )

module _ {M : Machine} where
  -- The three `ctor`, and the one of `Syscall`, which calls them.
  unfoldable pub fcntl_ctor : Exec M (Unit {0})
  fcntl_ctor = set_flags (λ _. [])

  unfoldable pub futex_ctor : Exec M (Unit {0})
  futex_ctor = do set_awaits (λ _. []); set_bit_awaits (λ _. [])

  unfoldable pub signal_ctor : Exec M (Unit {0})
  signal_ctor = set_sigtable (λ _. [])

  unfoldable pub ctor : Exec M (Unit {0})
  unfolding fcntl_ctor futex_ctor signal_ctor
  ctor = do fcntl_ctor; futex_ctor; signal_ctor

  -- The three `dtor`, and `Close` of `Syscall`, which calls them. The result is what `close` is
  -- called on.
  unfoldable pub signal_dtor : Exec M (Unit {0})
  signal_dtor = set_sigtable (λ _. [])

  unfoldable pub futex_dtor : Exec M (List ℕ × List ℕ)
  futex_dtor = do
    of_addresses ← gets (λ s. channels_of s.awaits)
    of_bits ← gets (λ s. channels_of s.bit_awaits)
    set_awaits (λ _. [])
    set_bit_awaits (λ _. [])
    pure (of_addresses, of_bits)

  unfoldable pub fcntl_dtor : Exec M (Unit {0})
  fcntl_dtor = set_flags (λ _. [])

  unfoldable pub dtor : Exec M (List ℕ × List ℕ)
  unfolding signal_dtor futex_dtor fcntl_dtor
  dtor = do signal_dtor; closing ← futex_dtor; fcntl_dtor; pure closing

  -- `new(Kernel)`: the fields without a constructor are zero.
  abbrev pub zeroed : State M → State M
  zeroed s = record s { errno = 0; sigset = 0; channels = 0; tasks = [] }

  abbrev pub made_for :
      (Convention → Bool) → Option Convention → State M → Option Convention × State M
  made_for add_hook none s = (none, s)
  made_for add_hook (some c) s = if add_hook c then (some c, (ctor (zeroed s)).1) else (none, s)

  -- `NewKernel`, with the handler that it leaves in the debugger; `add_hook` is whether `AddHook`
  -- takes it.
  unfoldable pub new_kernel : (Convention → Bool) → State M → Option Convention × State M
  unfolding ctor handler_of
  new_kernel add_hook s = made_for add_hook (handler_of M.arch) s

  ctor-Reached : (s : State M) → Reached (ctor s).1 [] × IsTracked (ctor s).1
  unfolding ctor ◌>>=◌ lookup
  ctor-Reached s = (begin _ refl refl, record { at = λ fd p. absurd (p refl) })

  made_for-Reached :
      (add_hook : Convention → Bool) (o : Option Convention) (c : Convention) (s : State M)
      → (made_for add_hook o s).0 ≡ some c
      → Reached (made_for add_hook o s).1 [] × IsTracked (made_for add_hook o s).1
  made_for-Reached add_hook none c s e = ground arith
  made_for-Reached add_hook (some d) c s e = elim (Bool-cases (add_hook d)) [
    | inl taken ↦ rw taken (ctor-Reached (zeroed s))
    | inr refused ↦ ground arith
  ]

  -- A new kernel, whatever was there before, has no call that waits, and behind any sequence of
  -- interrupts, whatever the program does to its registers and memory in between, every descriptor
  -- that has flags is open, on a debugger whose descriptor table is one.
  pub new_kernel-IsTracked :
      IsFileTable M
      → (add_hook : Convention → Bool) (c : Convention) (xs : List (Round M)) (s : State M)
      → (new_kernel add_hook s).0 ≡ some c
      → let x = (new_kernel add_hook s).1 in Reached x [] × IsTracked (run_all c xs x)
  unfolding new_kernel
  new_kernel-IsTracked law add_hook c xs s e =
      let (a, b) = made_for-Reached add_hook (handler_of M.arch) c s e in
      (a, run_all-IsTracked law c xs _ b)

  -- `Close`, in a state that can be reached by waits that enter and leave, closes the channels of all
  -- calls that wait, both those of the addresses and those of the bit sets.
  pub dtor-AllIn :
      (s : State M) (ws : List Waiter)
      → Reached s ws
      → (x : List ℕ) × (y : List ℕ) × ((dtor s).0 ≡ done (x, y))
        × AllIn x (addresses ws)
        × AllIn y (bits ws)
  unfolding dtor ◌>>=◌
  dtor-AllIn s ws r =
      let (a, b) = Reached-InStep s ws r in
      (
        channels_of s.awaits,
        channels_of s.bit_awaits,
        refl,
        all-AllIn s.awaits (addresses ws) (addresses ws) a.entry (λ x t. t),
        all-AllIn s.bit_awaits (bits ws) (bits ws) b.entry (λ x t. t),
      )
