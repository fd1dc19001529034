-- ===== src/Syscall/Refines.antt =====
-- The descriptors of the program are those of an abstract table: every syscall edits it as its
-- promise says, and the calls that have no part in it leave it alone.
use mathlib.Core.Path.{subst}
use microdbg_linux.Base.{ℕ, sym, ◌≡◌, refl, List, [], ◌∙◌}
use microdbg_linux.Base.Word.{to_32, extend, minus_one, minus_one_32}
use microdbg_linux.Machine.{Machine, Arch}
use microdbg_linux.Exec.{State, Outcome, done, failed, panicked, stalled, Exec, panic, pure}
use microdbg_linux.Fcntl.Tracked.{IsFileTable, IsTracked}
use microdbg_linux.Fcntl.View.{
  view, Edit, edits, answer, Opens, Copies, Drops, Pairs, Commands, Sockets,
}
use microdbg_linux.Fcntl.Edits.{IsAllocator, Promise, Refines}
use microdbg_linux.Fcntl.Refines.{
  dup3-Copies, close-Drops, open_path-Opens, openat-Opens, pipe2-Pairs, socket-Opens,
}
use microdbg_linux.Fcntl.Commands.{fcntl-Commands}
use microdbg_linux.Syscall.Discipline.{Discipline, Obeys, Obeys-fail}
use microdbg_linux.Fcntl.Obeys.{
  faccessat-Obeys, fstat3264-Obeys, fstat64-Obeys, fstatat3264-Obeys, fstatat64-Obeys, lseek-Obeys,
  read-Obeys, readlinkat-Obeys, write-Obeys, writev-Obeys,
}
use microdbg_linux.Services.Obeys.{
  clock_gettime-Obeys, execve-Obeys, getpid-Obeys, getrandom-Obeys, getrlimit-Obeys, gettid-Obeys,
  gettimeofday-Obeys, ioctl-Obeys, mmap-Obeys, mmap2-Obeys, mprotect-Obeys, munmap-Obeys,
  prctl-Obeys, setrlimit-Obeys, sysinfo-Obeys,
}
use microdbg_linux.Syscall.Waits.{
  clone-Obeys, futex-Obeys, rt_sigaction-Obeys, rt_sigprocmask-Obeys, rt_tgsigqueueinfo-Obeys,
}
use microdbg_linux.Syscall.{
  reject, ignore, emulate_dup3, emulate_fcntl, emulate_ioctl, emulate_faccessat, emulate_open,
  emulate_openat, emulate_close, emulate_pipe2, emulate_lseek, emulate_read, emulate_write,
  emulate_writev, emulate_readlinkat, emulate_fstatat64, emulate_fstat64, emulate_exit,
  emulate_futex, emulate_clock_gettime, emulate_rt_sigaction, emulate_rt_sigprocmask,
  emulate_getrlimit, emulate_setrlimit, emulate_prctl, emulate_gettimeofday, emulate_getpid,
  emulate_gettid, emulate_sysinfo, emulate_socket, emulate_munmap, emulate_clone, emulate_execve,
  emulate_mmap, emulate_mmap2, emulate_mprotect, emulate_rt_tgsigqueueinfo, emulate_getrandom,
}
use microdbg_linux.Syscall.{Args, Call, settle, narrow, wide, by_width, call}

-- What each call promises of the descriptors, by its arguments.
abbrev pub Promised : (M : Machine) → Call → Args → Promise M
Promised M emulate_dup3 r = Copies (to_32 r.a0) (to_32 r.a1) (to_32 r.a2)
Promised M emulate_fcntl r = Commands (to_32 r.a0) (to_32 r.a1) r.a2
Promised M emulate_open r = Opens (to_32 r.a1)
Promised M emulate_openat r = Opens (to_32 r.a2)
Promised M emulate_close r = Drops (to_32 r.a0)
Promised M emulate_pipe2 r = Pairs (to_32 r.a1)
Promised M emulate_socket r = Sockets (to_32 r.a0)
Promised M _ r = λ v es o. es ≡ []

module _ {M : Machine} where
  -- The handlers that leave the descriptors alone.
  viewing : Discipline M
  viewing = record {
    MayStall = Unit;
    Holds = λ s o x. (x.files ≡ s.files) × (x.flags ≡ s.flags);
    silent = λ s x o (e, files, flags) good. (files, flags);
    fails = λ s e. (refl, refl);
    chain = λ s x y a o (f, g) (f', g'). (f' ∙ f, g' ∙ g);
    failure = λ s x f. f;
    panics = λ s x f. f;
    stalls = λ s x f. f;
    later = λ s x y o (f, g) (e, f', g'). (f' ∙ f, g' ∙ g);
  }

  record Leaves (m : Exec M ℕ) : Type 0 where
    left : (s : State M) → ((m s).1.files ≡ s.files) × ((m s).1.flags ≡ s.flags)

  leaves : {m : Exec M ℕ} → Obeys viewing m → Leaves m
  unfolding viewing
  leaves h = record { left = h.at }

  settle-same :
      (widen : ℕ → ℕ) (failure : ℕ) (x : Outcome ℕ × State M) → (settle widen failure x).1 ≡ x.1
  settle-same widen failure (done v, s) = refl
  settle-same widen failure (failed, s) = refl
  settle-same widen failure (panicked, s) = refl
  settle-same widen failure (stalled, s) = refl

  settle-answer : (x : Outcome ℕ × State M) → (settle extend minus_one_32 x).0 ≡ answer x.0
  settle-answer (done v, s) = refl
  settle-answer (failed, s) = refl
  settle-answer (panicked, s) = refl
  settle-answer (stalled, s) = refl

  -- A call on the descriptors does what it promises.
  narrow-Refines :
      {P : Promise M} {m : Exec M ℕ}
      → Refines M P m
      → (s : State M) → IsTracked s
      → (es : List (Edit M.File)) × P (view s) es (narrow m s).0
        × ((j : ℕ) → view (narrow m s).1 j ≡ edits es (view s) j)
  unfolding narrow
  narrow-Refines {P} {m} k s h =
      let (es, kept, after) = k.at s h in
      (
        es,
        subst (P (view s) es) (sym (settle-answer (m s))) kept,
        λ j. rw (settle-same extend minus_one_32 (m s)) (after j),
      )

  -- A call that has no part in the descriptors leaves them alone.
  abbrev Stays : Exec M ℕ → Type 0
  Stays m =
      (s : State M)
      → (es : List (Edit M.File)) × (es ≡ []) × ((j : ℕ) → view (m s).1 j ≡ edits es (view s) j)

  Leaves-Stays : {m : Exec M ℕ} → Leaves m → Stays m
  Leaves-Stays {m} k s = let (files, flags) = k.left s in ([], refl, λ j. rw (files, flags) refl)

  narrow-Stays : {m : Exec M ℕ} → Obeys viewing m → Stays (narrow m)
  unfolding narrow
  narrow-Stays {m} h s =
      let (files, flags) = (leaves h).left s in
      ([], refl, λ j. rw (settle-same extend minus_one_32 (m s), files, flags) refl)

  wide-Stays : {m : Exec M ℕ} → Obeys viewing m → Stays (wide m)
  unfolding wide
  wide-Stays {m} h s =
      let (files, flags) = (leaves h).left s in
      ([], refl, λ j. rw (settle-same (λ r. r) minus_one (m s), files, flags) refl)

  by_width-Leaves :
      (a : Arch) {m n : Exec M ℕ}
      → Obeys viewing m
      → Obeys viewing n
      → Obeys viewing (by_width a m n)
  unfolding by_width
  by_width-Leaves Arch.arm k l = k
  by_width-Leaves Arch.x86 k l = k
  by_width-Leaves Arch.arm64 k l = l
  by_width-Leaves Arch.x86_64 k l = l
  by_width-Leaves Arch.other_arch k l = Obeys-fail viewing _

  -- Where every descriptor with flags is open, each syscall, whatever its arguments and however it
  -- ends, changes the descriptors by edits that it promises, each descriptor being its file and its
  -- flags, and none the numbers that are not open: dup3 copies a descriptor to the number and with
  -- the flags it is given, open, openat, pipe2 and socket put files under numbers that were not in
  -- use, close takes one away, fcntl copies a descriptor with its flags or sets its flags, a failure
  -- of these edits nothing and gives -1, and all other calls edit nothing. The debugger's table is
  -- one, and its new numbers are not in use.
  pub call-Promised :
      IsFileTable M
      → IsAllocator M
      → (c : Call) (r : Args) (s : State M) → IsTracked s
      → (es : List (Edit M.File)) × Promised M c r (view s) es (call c r s).0
        × ((j : ℕ) → view (call c r s).1 j ≡ edits es (view s) j)
  unfolding call pure panic viewing
  call-Promised law fresh reject r s h = wide-Stays (Obeys-fail viewing _) s
  call-Promised law fresh ignore r s h = ([], refl, λ j. refl)
  call-Promised law fresh emulate_dup3 r s h = narrow-Refines (dup3-Copies law fresh _ _ _) s h
  call-Promised law fresh emulate_fcntl r s h = narrow-Refines (fcntl-Commands law fresh _ _ _) s h
  call-Promised law fresh emulate_ioctl r s h = narrow-Stays (ioctl-Obeys viewing _ _ _) s
  call-Promised law fresh emulate_faccessat r s h = narrow-Stays (faccessat-Obeys viewing _ _ _) s
  call-Promised law fresh emulate_open r s h = narrow-Refines (open_path-Opens law fresh _ _ _) s h
  call-Promised law fresh emulate_openat r s h = narrow-Refines (openat-Opens law fresh _ _ _ _) s h
  call-Promised law fresh emulate_close r s h = narrow-Refines (close-Drops law fresh _) s h
  call-Promised law fresh emulate_pipe2 r s h = narrow-Refines (pipe2-Pairs law fresh _ _) s h
  call-Promised law fresh emulate_lseek r s h = wide-Stays (lseek-Obeys viewing _ _ _) s
  call-Promised law fresh emulate_read r s h = wide-Stays (read-Obeys viewing tt _ _ _) s
  call-Promised law fresh emulate_write r s h = wide-Stays (write-Obeys viewing tt _ _ _) s
  call-Promised law fresh emulate_writev r s h = wide-Stays (writev-Obeys viewing tt _ _ _) s
  call-Promised law fresh emulate_readlinkat r s h = wide-Stays (readlinkat-Obeys viewing _ _ _ _) s
  call-Promised law fresh emulate_fstatat64 r s h =
      narrow-Stays
        (by_width-Leaves M.arch (fstatat3264-Obeys viewing _ _ _ _)
          (fstatat64-Obeys viewing _ _ _ _))
        s
  call-Promised law fresh emulate_fstat64 r s h =
      narrow-Stays
        (by_width-Leaves M.arch (fstat3264-Obeys viewing _ _) (fstat64-Obeys viewing _ _)) s
  call-Promised law fresh emulate_exit r s h = ([], refl, λ j. refl)
  call-Promised law fresh emulate_futex r s h = narrow-Stays (futex-Obeys viewing tt _ _ _ _ _ _) s
  call-Promised law fresh emulate_clock_gettime r s h =
      narrow-Stays (clock_gettime-Obeys viewing _ _) s
  call-Promised law fresh emulate_rt_sigaction r s h =
      narrow-Stays (rt_sigaction-Obeys viewing _ _ _ _) s
  call-Promised law fresh emulate_rt_sigprocmask r s h =
      narrow-Stays (rt_sigprocmask-Obeys viewing _ _ _ _) s
  call-Promised law fresh emulate_getrlimit r s h = narrow-Stays (getrlimit-Obeys viewing _ _) s
  call-Promised law fresh emulate_setrlimit r s h = narrow-Stays (setrlimit-Obeys viewing _ _) s
  call-Promised law fresh emulate_prctl r s h = narrow-Stays (prctl-Obeys viewing _ _ _ _ _) s
  call-Promised law fresh emulate_gettimeofday r s h =
      narrow-Stays (gettimeofday-Obeys viewing _ _) s
  call-Promised law fresh emulate_getpid r s h = narrow-Stays (getpid-Obeys viewing) s
  call-Promised law fresh emulate_gettid r s h = narrow-Stays (gettid-Obeys viewing) s
  call-Promised law fresh emulate_sysinfo r s h = narrow-Stays (sysinfo-Obeys viewing _) s
  call-Promised law fresh emulate_socket r s h = narrow-Refines (socket-Opens law fresh _ _ _) s h
  call-Promised law fresh emulate_munmap r s h = narrow-Stays (munmap-Obeys viewing _ _) s
  call-Promised law fresh emulate_clone r s h =
      narrow-Stays (clone-Obeys viewing _ _ _ _ _ (λ _. tt)) s
  call-Promised law fresh emulate_execve r s h = narrow-Stays (execve-Obeys viewing _ _ _) s
  call-Promised law fresh emulate_mmap r s h = wide-Stays (mmap-Obeys viewing tt _ _ _ _ _ _) s
  call-Promised law fresh emulate_mmap2 r s h = wide-Stays (mmap2-Obeys viewing tt _ _ _ _ _ _) s
  call-Promised law fresh emulate_mprotect r s h = narrow-Stays (mprotect-Obeys viewing _ _ _) s
  call-Promised law fresh emulate_rt_tgsigqueueinfo r s h =
      narrow-Stays (rt_tgsigqueueinfo-Obeys viewing _ _ _ _) s
  call-Promised law fresh emulate_getrandom r s h = wide-Stays (getrandom-Obeys viewing tt _ _ _) s
