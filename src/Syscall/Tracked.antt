-- ===== src/Syscall/Tracked.antt =====
-- Every syscall keeps the descriptors that have flags open.
use microdbg_linux.Base.{ℕ}
use microdbg_linux.Base.Word.{minus_one, minus_one_32}
use microdbg_linux.Machine.{Machine, Arch}
use microdbg_linux.Exec.{State, Outcome, done, failed, panicked, stalled, Exec, panic, pure}
use microdbg_linux.Fcntl.Tracked.{
  IsFileTable, IsTracked, dup3-IsTracked, fcntl-IsTracked, open_path-IsTracked, openat-IsTracked,
  close-IsTracked, pipe2-IsTracked, socket-IsTracked,
}
use microdbg_linux.Fcntl.Table.{dup3, fcntl, close, pipe2}
use microdbg_linux.Fcntl.Paths.{open_path, openat}
use microdbg_linux.Services.Socket.{socket}
use microdbg_linux.Syscall.Discipline.{Discipline, Obeys, Obeys-fail, Silent}
use microdbg_linux.Fcntl.Obeys.{
  faccessat-Obeys, fstat3264-Obeys, fstat64-Obeys, fstatat3264-Obeys, fstatat64-Obeys, lseek-Obeys,
  read-Obeys, readlinkat-Obeys, write-Obeys, writev-Obeys,
}
use microdbg_linux.Services.Obeys.{
  clock_gettime-Obeys, execve-Obeys, getpid-Obeys, getrandom-Obeys, getrlimit-Obeys, gettid-Obeys,
  gettimeofday-Obeys, ioctl-Obeys, mmap-Obeys, mmap2-Obeys, mprotect-Obeys, munmap-Obeys,
  prctl-Obeys, setrlimit-Obeys, sysinfo-Obeys,
}
use microdbg_linux.Syscall.Waits.{
  clone-Obeys, futex-Obeys, rt_sigaction-Obeys, rt_sigprocmask-Obeys, rt_tgsigqueueinfo-Obeys,
}
use microdbg_linux.Syscall.{
  reject, ignore, emulate_dup3, emulate_fcntl, emulate_ioctl, emulate_faccessat, emulate_open,
  emulate_openat, emulate_close, emulate_pipe2, emulate_lseek, emulate_read, emulate_write,
  emulate_writev, emulate_readlinkat, emulate_fstatat64, emulate_fstat64, emulate_exit,
  emulate_futex, emulate_clock_gettime, emulate_rt_sigaction, emulate_rt_sigprocmask,
  emulate_getrlimit, emulate_setrlimit, emulate_prctl, emulate_gettimeofday, emulate_getpid,
  emulate_gettid, emulate_sysinfo, emulate_socket, emulate_munmap, emulate_clone, emulate_execve,
  emulate_mmap, emulate_mmap2, emulate_mprotect, emulate_rt_tgsigqueueinfo, emulate_getrandom,
}
use microdbg_linux.Syscall.{Args, Call, settle, narrow, wide, by_width, call}

module _ {M : Machine} where
  Silent-IsTracked : (s x : State M) → Silent s x → IsTracked s → IsTracked x
  Silent-IsTracked s x (e, files, flags) h = record { at = λ fd. rw (files, flags) (h.at fd) }

  -- This invariant, as a discipline of the handlers that leave the descriptors alone.
  tracking : Discipline M
  tracking = record {
    MayStall = Unit;
    Holds = λ s o x. IsTracked s → IsTracked x;
    silent = λ s x o same good. Silent-IsTracked s x same;
    fails = λ s e h. record { at = h.at };
    chain = λ s x y a o f g h. g (f h);
    failure = λ s x f. f;
    panics = λ s x f. f;
    stalls = λ s x f. f;
    later = λ s x y o f same h. Silent-IsTracked x y same (f h);
  }

  record Keeps (m : Exec M ℕ) : Type 0 where
    tracked : (s : State M) → IsTracked s → IsTracked (m s).1

  tracks : {m : Exec M ℕ} → Obeys tracking m → Keeps m
  unfolding tracking
  tracks h = record { tracked = h.at }

  settle-IsTracked :
      (widen : ℕ → ℕ) (failure : ℕ) (o : Outcome ℕ) (s : State M)
      → IsTracked s
      → IsTracked (settle widen failure (o, s)).1
  settle-IsTracked widen failure (done v) s h = h
  settle-IsTracked widen failure failed s h = h
  settle-IsTracked widen failure panicked s h = h
  settle-IsTracked widen failure stalled s h = h

  narrow-IsTracked :
      {m : Exec M ℕ} → Keeps m → (s : State M) → IsTracked s → IsTracked (narrow m s).1
  unfolding narrow
  narrow-IsTracked {m} k s h = settle-IsTracked _ minus_one_32 (m s).0 (m s).1 (k.tracked s h)

  wide-IsTracked : {m : Exec M ℕ} → Keeps m → (s : State M) → IsTracked s → IsTracked (wide m s).1
  unfolding wide
  wide-IsTracked {m} k s h = settle-IsTracked _ minus_one (m s).0 (m s).1 (k.tracked s h)

  by_width-IsTracked : (a : Arch) {m n : Exec M ℕ} → Keeps m → Keeps n → Keeps (by_width a m n)
  unfolding by_width
  by_width-IsTracked Arch.arm k l = k
  by_width-IsTracked Arch.x86 k l = k
  by_width-IsTracked Arch.arm64 k l = l
  by_width-IsTracked Arch.x86_64 k l = l
  by_width-IsTracked Arch.other_arch k l = tracks (Obeys-fail tracking _)

  module _ (law : IsFileTable M) where
    dup3-Keeps : (oldfd newfd flags : ℕ) → Keeps (dup3 {M = M} oldfd newfd flags)
    dup3-Keeps oldfd newfd flags = record { tracked = dup3-IsTracked law oldfd newfd flags }

    fcntl-Keeps : (fd cmd arg : ℕ) → Keeps (fcntl {M = M} fd cmd arg)
    fcntl-Keeps fd cmd arg = record { tracked = fcntl-IsTracked law fd cmd arg }

    open_path-Keeps : (filename flags mode : ℕ) → Keeps (open_path {M = M} filename flags mode)
    open_path-Keeps filename flags mode = record {
      tracked = open_path-IsTracked law filename flags mode;
    }

    openat-Keeps : (dfd filename flags mode : ℕ) → Keeps (openat {M = M} dfd filename flags mode)
    openat-Keeps dfd filename flags mode = record {
      tracked = openat-IsTracked law dfd filename flags mode;
    }

    close-Keeps : (fd : ℕ) → Keeps (close {M = M} fd)
    close-Keeps fd = record { tracked = close-IsTracked law fd }

    pipe2-Keeps : (fildes flags : ℕ) → Keeps (pipe2 {M = M} fildes flags)
    pipe2-Keeps fildes flags = record { tracked = pipe2-IsTracked law fildes flags }

    socket-Keeps : (domain typ protocol : ℕ) → Keeps (socket {M = M} domain typ protocol)
    socket-Keeps domain typ protocol = record { tracked = socket-IsTracked law domain typ protocol }

  -- Every syscall, whatever its arguments and however it ends, keeps every descriptor that has flags
  -- open, on a debugger whose descriptor table is one.
  pub call-IsTracked :
      IsFileTable M → (c : Call) (r : Args) (s : State M) → IsTracked s → IsTracked (call c r s).1
  unfolding call pure panic tracking
  call-IsTracked law reject r s h = wide-IsTracked (tracks (Obeys-fail tracking _)) s h
  call-IsTracked law ignore r s h = h
  call-IsTracked law emulate_dup3 r s h = narrow-IsTracked (dup3-Keeps law _ _ _) s h
  call-IsTracked law emulate_fcntl r s h = narrow-IsTracked (fcntl-Keeps law _ _ _) s h
  call-IsTracked law emulate_ioctl r s h =
      narrow-IsTracked (tracks (ioctl-Obeys tracking _ _ _)) s h
  call-IsTracked law emulate_faccessat r s h =
      narrow-IsTracked (tracks (faccessat-Obeys tracking _ _ _)) s h
  call-IsTracked law emulate_open r s h = narrow-IsTracked (open_path-Keeps law _ _ _) s h
  call-IsTracked law emulate_openat r s h = narrow-IsTracked (openat-Keeps law _ _ _ _) s h
  call-IsTracked law emulate_close r s h = narrow-IsTracked (close-Keeps law _) s h
  call-IsTracked law emulate_pipe2 r s h = narrow-IsTracked (pipe2-Keeps law _ _) s h
  call-IsTracked law emulate_lseek r s h = wide-IsTracked (tracks (lseek-Obeys tracking _ _ _)) s h
  call-IsTracked law emulate_read r s h = wide-IsTracked (tracks (read-Obeys tracking tt _ _ _)) s h
  call-IsTracked law emulate_write r s h =
      wide-IsTracked (tracks (write-Obeys tracking tt _ _ _)) s h
  call-IsTracked law emulate_writev r s h =
      wide-IsTracked (tracks (writev-Obeys tracking tt _ _ _)) s h
  call-IsTracked law emulate_readlinkat r s h =
      wide-IsTracked (tracks (readlinkat-Obeys tracking _ _ _ _)) s h
  call-IsTracked law emulate_fstatat64 r s h =
      narrow-IsTracked
        (by_width-IsTracked M.arch (tracks (fstatat3264-Obeys tracking _ _ _ _))
          (tracks (fstatat64-Obeys tracking _ _ _ _)))
        s h
  call-IsTracked law emulate_fstat64 r s h =
      narrow-IsTracked
        (by_width-IsTracked M.arch (tracks (fstat3264-Obeys tracking _ _))
          (tracks (fstat64-Obeys tracking _ _)))
        s h
  call-IsTracked law emulate_exit r s h = h
  call-IsTracked law emulate_futex r s h =
      narrow-IsTracked (tracks (futex-Obeys tracking tt _ _ _ _ _ _)) s h
  call-IsTracked law emulate_clock_gettime r s h =
      narrow-IsTracked (tracks (clock_gettime-Obeys tracking _ _)) s h
  call-IsTracked law emulate_rt_sigaction r s h =
      narrow-IsTracked (tracks (rt_sigaction-Obeys tracking _ _ _ _)) s h
  call-IsTracked law emulate_rt_sigprocmask r s h =
      narrow-IsTracked (tracks (rt_sigprocmask-Obeys tracking _ _ _ _)) s h
  call-IsTracked law emulate_getrlimit r s h =
      narrow-IsTracked (tracks (getrlimit-Obeys tracking _ _)) s h
  call-IsTracked law emulate_setrlimit r s h =
      narrow-IsTracked (tracks (setrlimit-Obeys tracking _ _)) s h
  call-IsTracked law emulate_prctl r s h =
      narrow-IsTracked (tracks (prctl-Obeys tracking _ _ _ _ _)) s h
  call-IsTracked law emulate_gettimeofday r s h =
      narrow-IsTracked (tracks (gettimeofday-Obeys tracking _ _)) s h
  call-IsTracked law emulate_getpid r s h = narrow-IsTracked (tracks (getpid-Obeys tracking)) s h
  call-IsTracked law emulate_gettid r s h = narrow-IsTracked (tracks (gettid-Obeys tracking)) s h
  call-IsTracked law emulate_sysinfo r s h =
      narrow-IsTracked (tracks (sysinfo-Obeys tracking _)) s h
  call-IsTracked law emulate_socket r s h = narrow-IsTracked (socket-Keeps law _ _ _) s h
  call-IsTracked law emulate_munmap r s h =
      narrow-IsTracked (tracks (munmap-Obeys tracking _ _)) s h
  call-IsTracked law emulate_clone r s h =
      narrow-IsTracked (tracks (clone-Obeys tracking _ _ _ _ _ (λ _. tt))) s h
  call-IsTracked law emulate_execve r s h =
      narrow-IsTracked (tracks (execve-Obeys tracking _ _ _)) s h
  call-IsTracked law emulate_mmap r s h =
      wide-IsTracked (tracks (mmap-Obeys tracking tt _ _ _ _ _ _)) s h
  call-IsTracked law emulate_mmap2 r s h =
      wide-IsTracked (tracks (mmap2-Obeys tracking tt _ _ _ _ _ _)) s h
  call-IsTracked law emulate_mprotect r s h =
      narrow-IsTracked (tracks (mprotect-Obeys tracking _ _ _)) s h
  call-IsTracked law emulate_rt_tgsigqueueinfo r s h =
      narrow-IsTracked (tracks (rt_tgsigqueueinfo-Obeys tracking _ _ _ _)) s h
  call-IsTracked law emulate_getrandom r s h =
      wide-IsTracked (tracks (getrandom-Obeys tracking tt _ _ _)) s h
