-- ===== src/Syscall/Methods.antt =====
-- kernel/syscall.go: the methods `Emulate_...`, `Reject` and `Ignore`, which narrow the arguments and
-- widen the results. An argument that is missing is a panic, as an index out of range is in Go.
use microdbg_linux.Base.{ℕ}
use microdbg_linux.Base.Word.{to_32, extend, minus_one, minus_one_32}
use microdbg_linux.Machine.{Machine, Arch}
use microdbg_linux.Errno.{enosys}
use microdbg_linux.Exec.{State, Outcome, done, failed, panicked, stalled}
use microdbg_linux.Exec.{Exec, pure, fail, panic}
use microdbg_linux.Fcntl.Table.{dup3, fcntl, close, pipe2}
use microdbg_linux.Fcntl.Paths.{faccessat, open_path, openat, readlinkat}
use microdbg_linux.Fcntl.Transfer.{lseek, read, write, writev}
use microdbg_linux.Fcntl.Status.{fstatat3264, fstatat64, fstat3264, fstat64}
use microdbg_linux.Signal.{rt_sigaction, rt_sigprocmask, rt_tgsigqueueinfo}
use microdbg_linux.Services.Mman.{mmap, mmap2, munmap, mprotect}
use microdbg_linux.Services.Socket.{socket}
use microdbg_linux.Services.Ioctl.{ioctl}
use microdbg_linux.Services.Clock.{clock_gettime, gettimeofday}
use microdbg_linux.Services.Random.{getrandom}
use microdbg_linux.Services.Sysinfo.{sysinfo}
use microdbg_linux.Services.Process.{prctl, getpid, gettid, getrlimit, setrlimit, execve}
use microdbg_linux.Sched.{clone}
use microdbg_linux.Futex.{futex}

-- `args`: the interrupt handlers pass the values of six registers.
pub record Args : Type 0 where
  pub a0 : ℕ
  pub a1 : ℕ
  pub a2 : ℕ
  pub a3 : ℕ
  pub a4 : ℕ
  pub a5 : ℕ

module _ {M : Machine} where
  -- The failure value of a handler, and `uint64(r)` of what it returns.
  abbrev pub settle : (ℕ → ℕ) → ℕ → Outcome ℕ × State M → Outcome ℕ × State M
  settle widen failure (done r, s) = (done (widen r), s)
  settle widen failure (failed, s) = (done (widen failure), s)
  settle widen failure (panicked, s) = (panicked, s)
  settle widen failure (stalled, s) = (stalled, s)

  -- Handlers that return an `int32`, and those that return 64 bits.
  unfoldable pub narrow : Exec M ℕ → Exec M ℕ
  narrow m s = settle extend minus_one_32 (m s)

  unfoldable pub wide : Exec M ℕ → Exec M ℕ
  wide m s = settle (λ r. r) minus_one (m s)

  -- The switches on the architecture of `Emulate_fstatat64` and `Emulate_fstat64`.
  unfoldable pub by_width : Arch → Exec M ℕ → Exec M ℕ → Exec M ℕ
  by_width Arch.arm m32 m64 = m32
  by_width Arch.x86 m32 m64 = m32
  by_width Arch.arm64 m32 m64 = m64
  by_width Arch.x86_64 m32 m64 = m64
  by_width Arch.other_arch m32 m64 = fail enosys

  abbrev pub reject : Args → Exec M ℕ
  reject r = wide (fail enosys)

  abbrev pub ignore : Args → Exec M ℕ
  ignore r = pure 0

  abbrev pub emulate_dup3 : Args → Exec M ℕ
  emulate_dup3 r = narrow (dup3 (to_32 r.a0) (to_32 r.a1) (to_32 r.a2))

  abbrev pub emulate_fcntl : Args → Exec M ℕ
  emulate_fcntl r = narrow (fcntl (to_32 r.a0) (to_32 r.a1) r.a2)

  abbrev pub emulate_ioctl : Args → Exec M ℕ
  emulate_ioctl r = narrow (ioctl (to_32 r.a0) (to_32 r.a1) r.a2)

  abbrev pub emulate_faccessat : Args → Exec M ℕ
  emulate_faccessat r = narrow (faccessat (to_32 r.a0) r.a1 (to_32 r.a2))

  abbrev pub emulate_open : Args → Exec M ℕ
  emulate_open r = narrow (open_path r.a0 (to_32 r.a1) (to_32 r.a2))

  abbrev pub emulate_openat : Args → Exec M ℕ
  emulate_openat r = narrow (openat (to_32 r.a0) r.a1 (to_32 r.a2) (to_32 r.a3))

  abbrev pub emulate_close : Args → Exec M ℕ
  emulate_close r = narrow (close (to_32 r.a0))

  abbrev pub emulate_pipe2 : Args → Exec M ℕ
  emulate_pipe2 r = narrow (pipe2 r.a0 (to_32 r.a1))

  abbrev pub emulate_lseek : Args → Exec M ℕ
  emulate_lseek r = wide (lseek (to_32 r.a0) r.a1 (extend (to_32 r.a2)))

  abbrev pub emulate_read : Args → Exec M ℕ
  emulate_read r = wide (read (to_32 r.a0) r.a1 r.a2)

  abbrev pub emulate_write : Args → Exec M ℕ
  emulate_write r = wide (write (to_32 r.a0) r.a1 r.a2)

  abbrev pub emulate_writev : Args → Exec M ℕ
  emulate_writev r = wide (writev (to_32 r.a0) r.a1 (to_32 r.a2))

  abbrev pub emulate_readlinkat : Args → Exec M ℕ
  emulate_readlinkat r = wide (readlinkat (to_32 r.a0) r.a1 r.a2 r.a3)

  abbrev pub emulate_fstatat64 : Args → Exec M ℕ
  emulate_fstatat64 r = narrow (
      by_width M.arch (fstatat3264 (to_32 r.a0) r.a1 r.a2 (to_32 r.a3))
        (fstatat64 (to_32 r.a0) r.a1 r.a2 (to_32 r.a3)))

  abbrev pub emulate_fstat64 : Args → Exec M ℕ
  emulate_fstat64 r =
      narrow (by_width M.arch (fstat3264 (to_32 r.a0) r.a1) (fstat64 (to_32 r.a0) r.a1))

  abbrev pub emulate_exit : Args → Exec M ℕ
  emulate_exit r = panic

  abbrev pub emulate_futex : Args → Exec M ℕ
  emulate_futex r = narrow (futex r.a0 (to_32 r.a1) (to_32 r.a2) r.a3 r.a4 (to_32 r.a5))

  abbrev pub emulate_clock_gettime : Args → Exec M ℕ
  emulate_clock_gettime r = narrow (clock_gettime (to_32 r.a0) r.a1)

  abbrev pub emulate_rt_sigaction : Args → Exec M ℕ
  emulate_rt_sigaction r = narrow (rt_sigaction (to_32 r.a0) r.a1 r.a2 r.a3)

  abbrev pub emulate_rt_sigprocmask : Args → Exec M ℕ
  emulate_rt_sigprocmask r = narrow (rt_sigprocmask (to_32 r.a0) r.a1 r.a2 r.a3)

  abbrev pub emulate_getrlimit : Args → Exec M ℕ
  emulate_getrlimit r = narrow (getrlimit (to_32 r.a0) r.a1)

  abbrev pub emulate_setrlimit : Args → Exec M ℕ
  emulate_setrlimit r = narrow (setrlimit (to_32 r.a0) r.a1)

  abbrev pub emulate_prctl : Args → Exec M ℕ
  emulate_prctl r = narrow (prctl (to_32 r.a0) r.a1 r.a2 r.a3 r.a4)

  abbrev pub emulate_gettimeofday : Args → Exec M ℕ
  emulate_gettimeofday r = narrow (gettimeofday r.a0 r.a1)

  abbrev pub emulate_getpid : Args → Exec M ℕ
  emulate_getpid r = narrow getpid

  abbrev pub emulate_gettid : Args → Exec M ℕ
  emulate_gettid r = narrow gettid

  abbrev pub emulate_sysinfo : Args → Exec M ℕ
  emulate_sysinfo r = narrow (sysinfo r.a0)

  abbrev pub emulate_socket : Args → Exec M ℕ
  emulate_socket r = narrow (socket (to_32 r.a0) (to_32 r.a1) (to_32 r.a2))

  abbrev pub emulate_munmap : Args → Exec M ℕ
  emulate_munmap r = narrow (munmap r.a0 r.a1)

  abbrev pub emulate_clone : Args → Exec M ℕ
  emulate_clone r = narrow (clone (to_32 r.a0) r.a1 r.a2 r.a3 r.a4)

  abbrev pub emulate_execve : Args → Exec M ℕ
  emulate_execve r = narrow (execve r.a0 r.a1 r.a2)

  abbrev pub emulate_mmap : Args → Exec M ℕ
  emulate_mmap r = wide (mmap r.a0 r.a1 r.a2 (to_32 r.a3) (to_32 r.a4) r.a5)

  abbrev pub emulate_mmap2 : Args → Exec M ℕ
  emulate_mmap2 r = wide (mmap2 r.a0 r.a1 r.a2 (to_32 r.a3) (to_32 r.a4) r.a5)

  abbrev pub emulate_mprotect : Args → Exec M ℕ
  emulate_mprotect r = narrow (mprotect r.a0 r.a1 r.a2)

  abbrev pub emulate_rt_tgsigqueueinfo : Args → Exec M ℕ
  emulate_rt_tgsigqueueinfo r =
      narrow (rt_tgsigqueueinfo (to_32 r.a0) (to_32 r.a1) (to_32 r.a2) r.a3)

  abbrev pub emulate_getrandom : Args → Exec M ℕ
  emulate_getrandom r = wide (getrandom r.a0 r.a1 (to_32 r.a2))
