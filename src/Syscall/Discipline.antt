-- ===== src/Syscall/Discipline.antt =====
-- What the handlers that leave the descriptors alone have in common, whatever is said of a state
-- before and of the outcome and the state behind: a rule for each way to build such a handler.
use microdbg_linux.Base.{ℕ, List, ◌≡◌, refl, Bool, true, false, Option, none, some, if◌then◌else◌}
use microdbg_linux.Base.Assoc.{Assoc}
use microdbg_linux.Machine.{Machine}
use microdbg_linux.Errno.{Errno, code}
use microdbg_linux.Exec.{
  State, Outcome, done, failed, panicked, stalled, Exec, Sigaction, Await, Event, continue,
}
use microdbg_linux.Exec.{
  pure, fail, panic, stall, or_fail, gets, on_memory, on_host, on_cpu, on_host_memory, guard,
}
use microdbg_linux.Exec.{
  set_sigset, set_sigtable, set_awaits, set_bit_awaits, set_channels, set_tasks, set_events, ◌>>=◌,
}
use microdbg_linux.Futex.{deferred, settle_after}

-- The error number, the descriptors and their flags are the same.
abbrev pub Silent : {M : Machine} → State M → State M → Type 0
Silent s x = (x.errno ≡ s.errno) × (x.files ≡ s.files) × (x.flags ≡ s.flags)

-- An outcome that is no failure; whether a call may end without a return is up to the first
-- argument.
abbrev pub IsNoFailure : Type 0 → {A : Type 0} → Outcome A → Type 0
IsNoFailure MayStall failed = ⊥
IsNoFailure MayStall stalled = MayStall
IsNoFailure MayStall _ = Unit

pub record Discipline (M : Machine) : Type 1 where
  pub MayStall : Type 0
  pub Holds : {A : Type 0} → State M → Outcome A → State M → Type 0
  pub silent :
      {A : Type 0} (s x : State M) (o : Outcome A)
      → Silent s x
      → IsNoFailure MayStall o
      → Holds s o x
  pub fails :
      {A : Type 0} (s : State M) (e : Errno) → Holds {A = A} s failed (record s { errno = code e })
  pub chain :
      {A B : Type 0} (s x y : State M) (a : A) (o : Outcome B)
      → Holds s (done a) x
      → Holds x o y
      → Holds s o y
  pub failure : {A B : Type 0} (s x : State M) → Holds {A = A} s failed x → Holds {A = B} s failed x
  pub panics :
      {A B : Type 0} (s x : State M) → Holds {A = A} s panicked x → Holds {A = B} s panicked x
  pub stalls :
      {A B : Type 0} (s x : State M) → Holds {A = A} s stalled x → Holds {A = B} s stalled x
  pub later :
      {A : Type 0} (s x y : State M) (o : Outcome A) → Holds s o x → Silent x y → Holds s o y

pub record Obeys {M : Machine} (D : Discipline M) {A : Type 0} (m : Exec M A) : Type 0 where
  pub at : (s : State M) → D.Holds s (m s).0 (m s).1

module _ {M : Machine} (D : Discipline M) where
  module _ {A : Type 0} where
    pub Obeys-pure : (a : A) → Obeys D (pure a)
    unfolding pure
    Obeys-pure a = record { at = λ s. D.silent s s (done a) (refl, refl, refl) tt }

    pub Obeys-fail : (e : Errno) → Obeys D (fail {A = A} e)
    unfolding fail
    Obeys-fail e = record { at = λ s. D.fails s e }

    pub Obeys-panic : Obeys D (panic {A = A})
    unfolding panic
    Obeys-panic = record { at = λ s. D.silent s s panicked (refl, refl, refl) tt }

    pub Obeys-stall : D.MayStall → Obeys D (stall {A = A})
    unfolding stall
    Obeys-stall waits = record { at = λ s. D.silent s s stalled (refl, refl, refl) waits }

    pub Obeys-or_fail : (e : Errno) (o : Option A) → Obeys D (or_fail e o)
    unfolding or_fail
    Obeys-or_fail e none = Obeys-fail e
    Obeys-or_fail e (some a) = Obeys-pure a

    pub Obeys-gets : (f : State M → A) → Obeys D (gets f)
    unfolding gets
    Obeys-gets f = record { at = λ s. D.silent s s (done (f s)) (refl, refl, refl) tt }

    pub Obeys-on_memory : (f : M.Memory → A × M.Memory) → Obeys D (on_memory f)
    unfolding on_memory
    Obeys-on_memory f = record { at = λ s. D.silent s _ (done _) (refl, refl, refl) tt }

    pub Obeys-on_host : (f : M.Host → A × M.Host) → Obeys D (on_host f)
    unfolding on_host
    Obeys-on_host f = record { at = λ s. D.silent s _ (done _) (refl, refl, refl) tt }

    pub Obeys-on_cpu : (f : M.Cpu → A × M.Cpu) → Obeys D (on_cpu f)
    unfolding on_cpu
    Obeys-on_cpu f = record { at = λ s. D.silent s _ (done _) (refl, refl, refl) tt }

    pub Obeys-on_host_memory :
        (f : M.Host → M.Memory → A × M.Host × M.Memory) → Obeys D (on_host_memory f)
    unfolding on_host_memory
    Obeys-on_host_memory f = record { at = λ s. D.silent s _ (done _) (refl, refl, refl) tt }

    pub Obeys-if :
        (b : Bool) (m n : Exec M A) → Obeys D m → Obeys D n → Obeys D (if b then m else n)
    Obeys-if true m n hm hn = hm
    Obeys-if false m n hm hn = hn

  pub Obeys-guard : (b : Bool) (e : Errno) → Obeys D (guard b e)
  unfolding guard
  Obeys-guard true e = Obeys-pure tt
  Obeys-guard false e = Obeys-fail e

  pub Obeys-set_sigset : (f : ℕ → ℕ) → Obeys D (set_sigset f)
  unfolding set_sigset
  Obeys-set_sigset f = record { at = λ s. D.silent s _ (done _) (refl, refl, refl) tt }

  pub Obeys-set_sigtable : (f : Assoc Sigaction → Assoc Sigaction) → Obeys D (set_sigtable f)
  unfolding set_sigtable
  Obeys-set_sigtable f = record { at = λ s. D.silent s _ (done _) (refl, refl, refl) tt }

  pub Obeys-set_awaits : (f : Assoc Await → Assoc Await) → Obeys D (set_awaits f)
  unfolding set_awaits
  Obeys-set_awaits f = record { at = λ s. D.silent s _ (done _) (refl, refl, refl) tt }

  pub Obeys-set_bit_awaits : (f : Assoc Await → Assoc Await) → Obeys D (set_bit_awaits f)
  unfolding set_bit_awaits
  Obeys-set_bit_awaits f = record { at = λ s. D.silent s _ (done _) (refl, refl, refl) tt }

  pub Obeys-set_channels : (n : ℕ) → Obeys D (set_channels n)
  unfolding set_channels
  Obeys-set_channels n = record { at = λ s. D.silent s _ (done _) (refl, refl, refl) tt }

  pub Obeys-set_tasks : (f : Assoc M.Task → Assoc M.Task) → Obeys D (set_tasks f)
  unfolding set_tasks
  Obeys-set_tasks f = record { at = λ s. D.silent s _ (done _) (refl, refl, refl) tt }

  pub Obeys-set_events : (es : List (Event M)) → Obeys D (set_events es)
  unfolding set_events
  Obeys-set_events es = record { at = λ s. D.silent s _ (done _) (refl, refl, refl) tt }

  continue-Holds :
      {A B : Type 0} (f : A → Exec M B)
      → ((a : A) → Obeys D (f a))
      → (s x : State M) (o : Outcome A) → D.Holds s o x
      → D.Holds s (continue o f x).0 (continue o f x).1
  continue-Holds f hf s x (done a) h = D.chain s x _ a _ h ((hf a).at x)
  continue-Holds f hf s x failed h = D.failure s x h
  continue-Holds f hf s x panicked h = D.panics s x h
  continue-Holds f hf s x stalled h = D.stalls s x h

  pub Obeys-bind :
      {A B : Type 0} (m : Exec M A) (f : A → Exec M B)
      → Obeys D m
      → ((a : A) → Obeys D (f a))
      → Obeys D (m >>= f)
  unfolding ◌>>=◌
  Obeys-bind m f hm hf = record { at = λ s. continue-Holds f hf s (m s).1 (m s).0 (hm.at s) }

  settle_after-Holds :
      {A : Type 0} (last : Exec M (Unit {0}))
      → ((s : State M) → Silent s (last s).1)
      → (s x : State M) (o : Outcome A) → D.Holds s o x
      → D.Holds s (settle_after last o x).0 (settle_after last o x).1
  settle_after-Holds last keeps s x (done a) h = D.later s x _ _ h (keeps x)
  settle_after-Holds last keeps s x failed h = D.later s x _ _ h (keeps x)
  settle_after-Holds last keeps s x panicked h = D.later s x _ _ h (keeps x)
  settle_after-Holds last keeps s x stalled h = h

  pub Obeys-deferred :
      {A : Type 0} (last : Exec M (Unit {0})) (m : Exec M A)
      → ((s : State M) → Silent s (last s).1)
      → Obeys D m
      → Obeys D (deferred last m)
  unfolding deferred
  Obeys-deferred last m keeps hm = record {
    at = λ s. settle_after-Holds last keeps s (m s).1 (m s).0 (hm.at s);
  }

pub ruleset obey_rules = (
  Obeys-pure, Obeys-fail, Obeys-panic, Obeys-stall, Obeys-or_fail, Obeys-gets, Obeys-on_memory,
  Obeys-on_host, Obeys-on_cpu, Obeys-on_host_memory, Obeys-if, Obeys-guard, Obeys-set_sigset,
  Obeys-set_sigtable, Obeys-set_awaits, Obeys-set_bit_awaits, Obeys-set_channels, Obeys-set_tasks,
  Obeys-set_events, Obeys-bind,
)
