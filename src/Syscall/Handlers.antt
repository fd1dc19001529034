-- ===== src/Syscall/Handlers.antt =====
-- Which handler answers which syscall of kernel/syscall.go, on which arguments, and what the program
-- is told of its result.
use microdbg_linux.Base.{ℕ, ◌≡◌, refl, ap}
use microdbg_linux.Base.Word.{to_32, extend, minus_one, minus_one_32}
use microdbg_linux.Machine.{Machine, Arch}
use microdbg_linux.Errno.{enosys, code}
use microdbg_linux.Exec.{
  State, Outcome, done, failed, panicked, stalled, Exec, panic, pure, fail, gets,
}
use microdbg_linux.Fcntl.View.{answer}
use microdbg_linux.Fcntl.Table.{dup3, fcntl, close, pipe2}
use microdbg_linux.Fcntl.Paths.{faccessat, open_path, openat, readlinkat}
use microdbg_linux.Fcntl.Transfer.{lseek, read, write, writev}
use microdbg_linux.Fcntl.Status.{fstatat3264, fstatat64, fstat3264, fstat64}
use microdbg_linux.Signal.{rt_sigaction, rt_sigprocmask, rt_tgsigqueueinfo}
use microdbg_linux.Services.Mman.{mmap, mmap2, munmap, mprotect}
use microdbg_linux.Services.Socket.{socket}
use microdbg_linux.Services.Ioctl.{ioctl}
use microdbg_linux.Services.Clock.{clock_gettime, gettimeofday}
use microdbg_linux.Services.Random.{getrandom}
use microdbg_linux.Services.Sysinfo.{sysinfo}
use microdbg_linux.Services.Process.{prctl, getpid, gettid, getrlimit, setrlimit, execve}
use microdbg_linux.Sched.{clone}
use microdbg_linux.Futex.{futex}
use microdbg_linux.Syscall.{
  reject, ignore, emulate_dup3, emulate_fcntl, emulate_ioctl, emulate_faccessat, emulate_open,
  emulate_openat, emulate_close, emulate_pipe2, emulate_lseek, emulate_read, emulate_write,
  emulate_writev, emulate_readlinkat, emulate_fstatat64, emulate_fstat64, emulate_exit,
  emulate_futex, emulate_clock_gettime, emulate_rt_sigaction, emulate_rt_sigprocmask,
  emulate_getrlimit, emulate_setrlimit, emulate_prctl, emulate_gettimeofday, emulate_getpid,
  emulate_gettid, emulate_sysinfo, emulate_socket, emulate_munmap, emulate_clone, emulate_execve,
  emulate_mmap, emulate_mmap2, emulate_mprotect, emulate_rt_tgsigqueueinfo, emulate_getrandom,
}
use microdbg_linux.Syscall.{Args, Call, settle, narrow, wide, by_width, call}

-- A state before a call, the outcome of the call and the state behind it.
abbrev Answers : Machine → Type 1
Answers M = State M → Outcome ℕ → State M → Type 0

-- What the program is told by a handler of 64 bits: the result as it is, or -1.
abbrev answer_long : Outcome ℕ → Outcome ℕ
answer_long (done v) = done v
answer_long failed = done minus_one
answer_long panicked = panicked
answer_long stalled = stalled

module _ {M : Machine} where
  -- A handler that returns an `int32`, and one that returns 64 bits.
  abbrev Int : Exec M ℕ → Answers M
  Int m s o x = (o ≡ answer (m s).0) × (x ≡ (m s).1)

  abbrev Long : Exec M ℕ → Answers M
  Long m s o x = (o ≡ answer_long (m s).0) × (x ≡ (m s).1)

  -- ENOSYS.
  abbrev Fails : Answers M
  Fails s o x = (o ≡ done minus_one) × (x ≡ record s { errno = code enosys })

  -- A handler for 32 bits, another for 64, and none for other processors.
  abbrev Widths : Arch → Answers M → Answers M → Answers M
  Widths Arch.arm short long = short
  Widths Arch.x86 short long = short
  Widths Arch.arm64 short long = long
  Widths Arch.x86_64 short long = long
  Widths Arch.other_arch short long = Fails

-- What each call does with its arguments.
abbrev pub Handled : (M : Machine) → Call → Args → Answers M
Handled M reject r = Fails
Handled M ignore r = λ s o x. (o ≡ done 0) × (x ≡ s)
Handled M emulate_dup3 r = Int (dup3 (to_32 r.a0) (to_32 r.a1) (to_32 r.a2))
Handled M emulate_fcntl r = Int (fcntl (to_32 r.a0) (to_32 r.a1) r.a2)
Handled M emulate_ioctl r = Int (ioctl (to_32 r.a0) (to_32 r.a1) r.a2)
Handled M emulate_faccessat r = Int (faccessat (to_32 r.a0) r.a1 (to_32 r.a2))
Handled M emulate_open r = Int (open_path r.a0 (to_32 r.a1) (to_32 r.a2))
Handled M emulate_openat r = Int (openat (to_32 r.a0) r.a1 (to_32 r.a2) (to_32 r.a3))
Handled M emulate_close r = Int (close (to_32 r.a0))
Handled M emulate_pipe2 r = Int (pipe2 r.a0 (to_32 r.a1))
Handled M emulate_lseek r = Long (lseek (to_32 r.a0) r.a1 (extend (to_32 r.a2)))
Handled M emulate_read r = Long (read (to_32 r.a0) r.a1 r.a2)
Handled M emulate_write r = Long (write (to_32 r.a0) r.a1 r.a2)
Handled M emulate_writev r = Long (writev (to_32 r.a0) r.a1 (to_32 r.a2))
Handled M emulate_readlinkat r = Long (readlinkat (to_32 r.a0) r.a1 r.a2 r.a3)
Handled M emulate_fstatat64 r =
    Widths M.arch (Int (fstatat3264 (to_32 r.a0) r.a1 r.a2 (to_32 r.a3)))
      (Int (fstatat64 (to_32 r.a0) r.a1 r.a2 (to_32 r.a3)))
Handled M emulate_fstat64 r =
    Widths M.arch (Int (fstat3264 (to_32 r.a0) r.a1)) (Int (fstat64 (to_32 r.a0) r.a1))
Handled M emulate_exit r = λ s o x. (o ≡ panicked) × (x ≡ s)
Handled M emulate_futex r = Int (futex r.a0 (to_32 r.a1) (to_32 r.a2) r.a3 r.a4 (to_32 r.a5))
Handled M emulate_clock_gettime r = Int (clock_gettime (to_32 r.a0) r.a1)
Handled M emulate_rt_sigaction r = Int (rt_sigaction (to_32 r.a0) r.a1 r.a2 r.a3)
Handled M emulate_rt_sigprocmask r = Int (rt_sigprocmask (to_32 r.a0) r.a1 r.a2 r.a3)
Handled M emulate_getrlimit r = Int (getrlimit (to_32 r.a0) r.a1)
Handled M emulate_setrlimit r = Int (setrlimit (to_32 r.a0) r.a1)
Handled M emulate_prctl r = Int (prctl (to_32 r.a0) r.a1 r.a2 r.a3 r.a4)
Handled M emulate_gettimeofday r = Int (gettimeofday r.a0 r.a1)
Handled M emulate_getpid r = λ s o x. (o ≡ done (extend (to_32 M.pid))) × (x ≡ s)
Handled M emulate_gettid r = λ s o x. (o ≡ done (extend (to_32 (M.task_id s.cpu)))) × (x ≡ s)
Handled M emulate_sysinfo r = Int (sysinfo r.a0)
Handled M emulate_socket r = Int (socket (to_32 r.a0) (to_32 r.a1) (to_32 r.a2))
Handled M emulate_munmap r = Int (munmap r.a0 r.a1)
Handled M emulate_clone r = Int (clone (to_32 r.a0) r.a1 r.a2 r.a3 r.a4)
Handled M emulate_execve r = Int (execve r.a0 r.a1 r.a2)
Handled M emulate_mmap r = Long (mmap r.a0 r.a1 r.a2 (to_32 r.a3) (to_32 r.a4) r.a5)
Handled M emulate_mmap2 r = Long (mmap2 r.a0 r.a1 r.a2 (to_32 r.a3) (to_32 r.a4) r.a5)
Handled M emulate_mprotect r = Int (mprotect r.a0 r.a1 r.a2)
Handled M emulate_rt_tgsigqueueinfo r =
    Int (rt_tgsigqueueinfo (to_32 r.a0) (to_32 r.a1) (to_32 r.a2) r.a3)
Handled M emulate_getrandom r = Long (getrandom r.a0 r.a1 (to_32 r.a2))

module _ {M : Machine} where
  settle-Int : (o : Outcome ℕ) (s : State M) → settle extend minus_one_32 (o, s) ≡ (answer o, s)
  settle-Int (done v) s = refl
  settle-Int failed s = refl
  settle-Int panicked s = refl
  settle-Int stalled s = refl

  settle-Long :
      (o : Outcome ℕ) (s : State M) → settle (λ r. r) minus_one (o, s) ≡ (answer_long o, s)
  settle-Long (done v) s = refl
  settle-Long failed s = refl
  settle-Long panicked s = refl
  settle-Long stalled s = refl

  narrow-Int : (m : Exec M ℕ) (s : State M) → Int m s (narrow m s).0 (narrow m s).1
  unfolding narrow
  narrow-Int m s = let e = settle-Int (m s).0 (m s).1 in (ap (λ r. r.0) e, ap (λ r. r.1) e)

  wide-Long : (m : Exec M ℕ) (s : State M) → Long m s (wide m s).0 (wide m s).1
  unfolding wide
  wide-Long m s = let e = settle-Long (m s).0 (m s).1 in (ap (λ r. r.0) e, ap (λ r. r.1) e)

  by_width-Widths :
      (a : Arch) (m n : Exec M ℕ) (s : State M)
      → let r = narrow (by_width a m n) s in Widths a (Int m) (Int n) s r.0 r.1
  unfolding by_width narrow fail
  by_width-Widths Arch.arm m n s = narrow-Int m s
  by_width-Widths Arch.x86 m n s = narrow-Int m s
  by_width-Widths Arch.arm64 m n s = narrow-Int n s
  by_width-Widths Arch.x86_64 m n s = narrow-Int n s
  by_width-Widths Arch.other_arch m n s = (refl, refl)

  -- Each call tells the program what its handler answers, with the handler's state.
  pub call-Handled :
      (k : Call) (r : Args) (s : State M) → Handled M k r s (call k r s).0 (call k r s).1
  unfolding call narrow wide pure panic fail getpid gettid gets
  call-Handled reject r s = (refl, refl)
  call-Handled ignore r s = (refl, refl)
  call-Handled emulate_dup3 r s = narrow-Int (dup3 (to_32 r.a0) (to_32 r.a1) (to_32 r.a2)) s
  call-Handled emulate_fcntl r s = narrow-Int (fcntl (to_32 r.a0) (to_32 r.a1) r.a2) s
  call-Handled emulate_ioctl r s = narrow-Int (ioctl (to_32 r.a0) (to_32 r.a1) r.a2) s
  call-Handled emulate_faccessat r s = narrow-Int (faccessat (to_32 r.a0) r.a1 (to_32 r.a2)) s
  call-Handled emulate_open r s = narrow-Int (open_path r.a0 (to_32 r.a1) (to_32 r.a2)) s
  call-Handled emulate_openat r s =
      narrow-Int (openat (to_32 r.a0) r.a1 (to_32 r.a2) (to_32 r.a3)) s
  call-Handled emulate_close r s = narrow-Int (close (to_32 r.a0)) s
  call-Handled emulate_pipe2 r s = narrow-Int (pipe2 r.a0 (to_32 r.a1)) s
  call-Handled emulate_lseek r s = wide-Long (lseek (to_32 r.a0) r.a1 (extend (to_32 r.a2))) s
  call-Handled emulate_read r s = wide-Long (read (to_32 r.a0) r.a1 r.a2) s
  call-Handled emulate_write r s = wide-Long (write (to_32 r.a0) r.a1 r.a2) s
  call-Handled emulate_writev r s = wide-Long (writev (to_32 r.a0) r.a1 (to_32 r.a2)) s
  call-Handled emulate_readlinkat r s = wide-Long (readlinkat (to_32 r.a0) r.a1 r.a2 r.a3) s
  call-Handled emulate_fstatat64 r s =
      by_width-Widths M.arch (fstatat3264 (to_32 r.a0) r.a1 r.a2 (to_32 r.a3))
        (fstatat64 (to_32 r.a0) r.a1 r.a2 (to_32 r.a3)) s
  call-Handled emulate_fstat64 r s =
      by_width-Widths M.arch (fstat3264 (to_32 r.a0) r.a1) (fstat64 (to_32 r.a0) r.a1) s
  call-Handled emulate_exit r s = (refl, refl)
  call-Handled emulate_futex r s =
      narrow-Int (futex r.a0 (to_32 r.a1) (to_32 r.a2) r.a3 r.a4 (to_32 r.a5)) s
  call-Handled emulate_clock_gettime r s = narrow-Int (clock_gettime (to_32 r.a0) r.a1) s
  call-Handled emulate_rt_sigaction r s = narrow-Int (rt_sigaction (to_32 r.a0) r.a1 r.a2 r.a3) s
  call-Handled emulate_rt_sigprocmask r s =
      narrow-Int (rt_sigprocmask (to_32 r.a0) r.a1 r.a2 r.a3) s
  call-Handled emulate_getrlimit r s = narrow-Int (getrlimit (to_32 r.a0) r.a1) s
  call-Handled emulate_setrlimit r s = narrow-Int (setrlimit (to_32 r.a0) r.a1) s
  call-Handled emulate_prctl r s = narrow-Int (prctl (to_32 r.a0) r.a1 r.a2 r.a3 r.a4) s
  call-Handled emulate_gettimeofday r s = narrow-Int (gettimeofday r.a0 r.a1) s
  call-Handled emulate_getpid r s = (refl, refl)
  call-Handled emulate_gettid r s = (refl, refl)
  call-Handled emulate_sysinfo r s = narrow-Int (sysinfo r.a0) s
  call-Handled emulate_socket r s = narrow-Int (socket (to_32 r.a0) (to_32 r.a1) (to_32 r.a2)) s
  call-Handled emulate_munmap r s = narrow-Int (munmap r.a0 r.a1) s
  call-Handled emulate_clone r s = narrow-Int (clone (to_32 r.a0) r.a1 r.a2 r.a3 r.a4) s
  call-Handled emulate_execve r s = narrow-Int (execve r.a0 r.a1 r.a2) s
  call-Handled emulate_mmap r s = wide-Long (mmap r.a0 r.a1 r.a2 (to_32 r.a3) (to_32 r.a4) r.a5) s
  call-Handled emulate_mmap2 r s = wide-Long (mmap2 r.a0 r.a1 r.a2 (to_32 r.a3) (to_32 r.a4) r.a5) s
  call-Handled emulate_mprotect r s = narrow-Int (mprotect r.a0 r.a1 r.a2) s
  call-Handled emulate_rt_tgsigqueueinfo r s =
      narrow-Int (rt_tgsigqueueinfo (to_32 r.a0) (to_32 r.a1) (to_32 r.a2) r.a3) s
  call-Handled emulate_getrandom r s = wide-Long (getrandom r.a0 r.a1 (to_32 r.a2)) s
