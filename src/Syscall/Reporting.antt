-- ===== src/Syscall/Reporting.antt =====
-- The error convention of `Contract`, as a discipline of the handlers that leave the descriptors
-- alone.
use microdbg_linux.Base.{◌≡◌, ◌∙◌}
use microdbg_linux.Machine.{Machine}
use microdbg_linux.Errno.{code_pos}
use microdbg_linux.Exec.{State, Outcome, done, failed, panicked, stalled, Exec}
use microdbg_linux.Exec.Contract.{Reported, Reports}
use microdbg_linux.Syscall.Discipline.{Discipline, Obeys, IsNoFailure}

module _ {M : Machine} where
  pub silent-Reported :
      {A : Type 0} (s x : State M) (o : Outcome A)
      → x.errno ≡ s.errno
      → IsNoFailure Unit o
      → Reported s.errno o x.errno
  silent-Reported s x (done a) e good = e
  silent-Reported s x failed e good = elim good [ ]
  silent-Reported s x panicked e good = e
  silent-Reported s x stalled e good = e

  pub later-Reported :
      {A : Type 0} (s x y : State M) (o : Outcome A)
      → Reported s.errno o x.errno
      → y.errno ≡ x.errno
      → Reported s.errno o y.errno
  later-Reported s x y (done a) h e = e ∙ h
  later-Reported s x y failed h e = rw e h
  later-Reported s x y panicked h e = e ∙ h
  later-Reported s x y stalled h e = e ∙ h

  abbrev pub reporting : Discipline M
  reporting = record {
    MayStall = Unit;
    Holds = λ s o x. Reported s.errno o x.errno;
    silent = λ s x o same good. silent-Reported s x o same.0 good;
    fails = λ s e. code_pos e;
    chain = λ s x y a o h k. rw (← h) k;
    failure = λ s x h. h;
    panics = λ s x h. h;
    stalls = λ s x h. h;
    later = λ s x y o h same. later-Reported s x y o h same.0;
  }

  pub obeyed : {A : Type 0} {m : Exec M A} → Obeys reporting m → Reports m
  obeyed h = record { at = h.at }
