-- ===== src/Signal.antt =====
-- kernel/signal.go: the table of signal actions and the set of blocked signals. The set is shared
-- by all tasks, as in the source.
pub mod Masks
pub mod Actions
use microdbg_linux.Base.{ℕ, ◌+◌, ◌^◌, Option, none, some, List, [], ◌∷◌, bit_or, ◌==◌}
use microdbg_linux.Base.{ltb, if◌then◌else◌}
use microdbg_linux.Base.Word.{to_32, minus_one, minus_one_32, and_not}
use microdbg_linux.Base.Assoc.{lookup, insert}
use microdbg_linux.Machine.{Machine, Kind}
use microdbg_linux.Errno.{efault, einval}
use microdbg_linux.Exec.{Sigaction, Exec, pure, fail, panic, or_fail, guard, gets}
use microdbg_linux.Exec.{on_memory, set_sigset, set_sigtable, ◌>>=◌, ◌>>◌}

-- `1 << uint(sig-1)` of 64 bits: a shift by 64 or more gives 0, so that of a `sig` below 1 too.
unfoldable pub sigmask : ℕ → ℕ
sigmask sig = let n = to_32 (sig + minus_one_32) in if ltb n 64 then 2 ^ n else 0

-- The methods of `sigset_t`.
unfoldable pub sigemptyset : ℕ → ℕ
sigemptyset set = 0

unfoldable pub sigfillset : ℕ → ℕ
sigfillset set = minus_one

unfoldable pub sigaddset : ℕ → ℕ → ℕ
unfolding sigmask
sigaddset sig set = bit_or set (sigmask sig)

unfoldable pub sigdelset : ℕ → ℕ → ℕ
unfolding sigmask
sigdelset sig set = and_not set (sigmask sig)

-- The values of `how`.
abbrev pub sig_block : ℕ
sig_block = 1

abbrev pub sig_unblock : ℕ
sig_unblock = 2

abbrev pub sig_setmask : ℕ
sig_setmask = 3

abbrev pub sigaction_kinds : List Kind
sigaction_kinds = Kind.uintptr ∷ Kind.int32 ∷ Kind.int ∷ Kind.uintptr ∷ []

abbrev pub sigaction_fields : Sigaction → List (Kind × ℕ)
sigaction_fields a =
    (Kind.uintptr, a.sa_handler)
    ∷ (Kind.int32, a.sa_flags)
    ∷ (Kind.int, a.sa_mask)
    ∷ (Kind.uintptr, a.sa_restorer)
    ∷ []

abbrev pub to_sigaction : List ℕ → Option Sigaction
to_sigaction (handler ∷ flags ∷ mask ∷ restorer ∷ []) =
    some (record { sa_handler = handler; sa_flags = flags; sa_mask = mask; sa_restorer = restorer })
to_sigaction _ = none

abbrev pub to_one : List ℕ → Option ℕ
to_one (value ∷ []) = some value
to_one _ = none

abbrev pub and_then : {A B : Type 0} → Option A → (A → Option B) → Option B
and_then none f = none
and_then (some a) f = f a

-- siginfo_t: three numbers and 29 words of padding, each an `int32`.
abbrev pub siginfo_kinds : List Kind
siginfo_kinds = Kind.int32 ∷ Kind.int32 ∷ Kind.int32 ∷ Kind.bytes 116 ∷ []

module _ {M : Machine} where
  -- `MemWrite(oldact, *old)` where there is an old action and a place for it.
  unfoldable pub put_old : ℕ → Option Sigaction → Exec M ℕ
  put_old oldact none = pure 0
  put_old oldact (some old) =
      if oldact == 0
      then pure 0
      else do on_memory (λ memory. M.write memory oldact (sigaction_fields old)); pure 0

  unfoldable pub rt_sigaction : ℕ → ℕ → ℕ → ℕ → Exec M ℕ
  unfolding put_old
  rt_sigaction signal act oldact size = do
    read ← gets (λ s. and_then (M.extract s.memory act sigaction_kinds) to_sigaction)
    action ← or_fail efault read
    old ← gets (λ s. lookup signal s.sigtable)
    set_sigtable (insert signal action)
    put_old oldact old

  unfoldable pub put_oldset : ℕ → Exec M (Unit {0})
  put_oldset oldset = if oldset == 0 then pure tt else do
    set ← gets (λ s. s.sigset)
    ok ← on_memory (λ memory. M.write memory oldset ((Kind.int, set) ∷ []))
    guard ok efault

  -- The switch on `how`.
  unfoldable pub change_mask : ℕ → ℕ → Exec M ℕ
  change_mask how value =
      if how == sig_block
      then set_sigset (λ set. bit_or set value) >> pure 0
      else if how == sig_unblock
      then set_sigset (λ set. and_not set value) >> pure 0
      else if how == sig_setmask
      then set_sigset (λ set. value) >> pure 0
      else fail einval

  unfoldable pub rt_sigprocmask : ℕ → ℕ → ℕ → ℕ → Exec M ℕ
  unfolding put_oldset change_mask
  rt_sigprocmask how set oldset size = do
    put_oldset oldset
    read ← gets (λ s. and_then (M.extract s.memory set (Kind.int ∷ [])) to_one)
    value ← or_fail efault read
    change_mask how value

  unfoldable pub rt_tgsigqueueinfo : ℕ → ℕ → ℕ → ℕ → Exec M ℕ
  rt_tgsigqueueinfo tgid tid sig info = do
    read ← gets (λ s. M.extract s.memory info siginfo_kinds)
    or_fail efault read
    panic
