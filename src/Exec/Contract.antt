-- ===== src/Exec/Contract.antt =====
-- How a handler reports: one that fails has set `errno` to a number other than 0, and any other
-- end leaves `errno` alone. A rule for each way to build a handler that changes the descriptors.
use microdbg_linux.Base.{ℕ, ◌<◌, ◌≡◌, refl, Bool, true, false, Option, none, some, if◌then◌else◌}
use microdbg_linux.Base.Assoc.{Assoc}
use microdbg_linux.Machine.{Machine}
use microdbg_linux.Errno.{Errno, code_pos}
use microdbg_linux.Exec.{State, Outcome, done, failed, panicked, stalled, Exec}
use microdbg_linux.Exec.{pure, fail, panic, stall, or_fail, gets, on_files, on_memory, on_host}
use microdbg_linux.Exec.{on_files_host, guard, set_flags}
use microdbg_linux.Exec.{continue, ◌>>=◌}

abbrev pub Reported : {A : Type 0} → ℕ → Outcome A → ℕ → Type 0
Reported before failed after = 0 < after
Reported before _ after = after ≡ before

pub record Reports {M : Machine} {A : Type 0} (m : Exec M A) : Type 0 where
  pub at : (s : State M) → Reported s.errno (m s).0 (m s).1.errno

module _ {M : Machine} where
  module _ {A : Type 0} where
    pub Reports-pure : (a : A) → Reports (pure {M = M} a)
    unfolding pure
    Reports-pure a = record { at = λ s. refl }

    pub Reports-fail : (e : Errno) → Reports (fail {M = M} {A = A} e)
    unfolding fail
    Reports-fail e = record { at = λ s. code_pos e }

    pub Reports-panic : Reports (panic {M = M} {A = A})
    unfolding panic
    Reports-panic = record { at = λ s. refl }

    pub Reports-stall : Reports (stall {M = M} {A = A})
    unfolding stall
    Reports-stall = record { at = λ s. refl }

    pub Reports-or_fail : (e : Errno) (o : Option A) → Reports (or_fail {M = M} e o)
    unfolding or_fail
    Reports-or_fail e none = Reports-fail e
    Reports-or_fail e (some a) = Reports-pure a

    pub Reports-gets : (f : State M → A) → Reports (gets f)
    unfolding gets
    Reports-gets f = record { at = λ s. refl }

    pub Reports-on_files : (f : M.Files → A × M.Files) → Reports (on_files {M = M} f)
    unfolding on_files
    Reports-on_files f = record { at = λ s. refl }

    pub Reports-on_memory : (f : M.Memory → A × M.Memory) → Reports (on_memory {M = M} f)
    unfolding on_memory
    Reports-on_memory f = record { at = λ s. refl }

    pub Reports-on_host : (f : M.Host → A × M.Host) → Reports (on_host {M = M} f)
    unfolding on_host
    Reports-on_host f = record { at = λ s. refl }

    pub Reports-on_files_host :
        (f : M.Files → M.Host → A × M.Files × M.Host) → Reports (on_files_host {M = M} f)
    unfolding on_files_host
    Reports-on_files_host f = record { at = λ s. refl }

    pub Reports-if :
        (b : Bool) (m n : Exec M A) → Reports m → Reports n → Reports (if b then m else n)
    Reports-if true m n hm hn = hm
    Reports-if false m n hm hn = hn

  pub Reports-guard : (b : Bool) (e : Errno) → Reports (guard {M = M} b e)
  unfolding guard
  Reports-guard true e = Reports-pure tt
  Reports-guard false e = Reports-fail e

  pub Reports-set_flags : (f : Assoc ℕ → Assoc ℕ) → Reports (set_flags {M = M} f)
  unfolding set_flags
  Reports-set_flags f = record { at = λ s. refl }

  continue-Reported :
      {A B : Type 0} (f : A → Exec M B)
      → ((a : A) → Reports (f a))
      → (before : ℕ) (o : Outcome A) (s : State M) → Reported before o s.errno
      → Reported before (continue o f s).0 (continue o f s).1.errno
  continue-Reported f hf before (done a) s h = rw (← h) ((hf a).at s)
  continue-Reported f hf before failed s h = h
  continue-Reported f hf before panicked s h = h
  continue-Reported f hf before stalled s h = h

  pub Reports-bind :
      {A B : Type 0} (m : Exec M A) (f : A → Exec M B)
      → Reports m
      → ((a : A) → Reports (f a))
      → Reports (m >>= f)
  unfolding ◌>>=◌
  Reports-bind m f hm hf = record {
    at = λ s. let (o, s') = m s in continue-Reported f hf s.errno o s' (hm.at s);
  }

pub ruleset report_rules = (
  Reports-pure, Reports-fail, Reports-panic, Reports-stall, Reports-or_fail, Reports-gets,
  Reports-on_files, Reports-on_memory, Reports-on_host, Reports-on_files_host, Reports-if,
  Reports-guard, Reports-set_flags, Reports-bind,
)
