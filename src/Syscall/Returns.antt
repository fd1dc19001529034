-- ===== src/Syscall/Returns.antt =====
-- Which syscalls come back, from the theorems on the handlers.
use microdbg_linux.Base.{ℕ, ◌≡◌, Bool, true, false}
use microdbg_linux.Base.Word.{minus_one, minus_one_32, has_bits, to_32}
use microdbg_linux.Machine.{Machine, Arch, Opened, opened, exists, failed}
use microdbg_linux.Errno.{enosys}
use microdbg_linux.Exec.{State, Outcome, done, panicked, stalled, Exec, panic, pure}
use microdbg_linux.Sched.{clone_vfork}
use microdbg_linux.Fcntl.Table.{dup3, fcntl, close, pipe2}
use microdbg_linux.Fcntl.Paths.{open_path, openat, or_open_error, install}
use microdbg_linux.Services.Socket.{socket}
use microdbg_linux.Syscall.Discipline.{Obeys, Obeys-fail, obey_rules}
use microdbg_linux.Syscall.Ending.{
  IsProgressing, IsEnd, ending, on_files-Obeys, on_files_host-Obeys, set_flags-Obeys,
}
use microdbg_linux.Syscall.Copying.{
  read-Ends, write-Ends, writev-Ends, getrandom-Ends, mmap-Ends, mmap2-Ends,
}
use microdbg_linux.Fcntl.Obeys.{path_at-Obeys, directory-Obeys}
use microdbg_linux.Fcntl.Obeys.{
  faccessat-Obeys, fstat3264-Obeys, fstat64-Obeys, fstatat3264-Obeys, fstatat64-Obeys, lseek-Obeys,
  readlinkat-Obeys,
}
use microdbg_linux.Services.Obeys.{
  clock_gettime-Obeys, execve-Obeys, getpid-Obeys, getrlimit-Obeys, gettid-Obeys,
  gettimeofday-Obeys, ioctl-Obeys, mprotect-Obeys, munmap-Obeys, prctl-Obeys, setrlimit-Obeys,
  sysinfo-Obeys,
}
use microdbg_linux.Syscall.Waits.{
  clone-Obeys, rt_sigaction-Obeys, rt_sigprocmask-Obeys, rt_tgsigqueueinfo-Obeys,
}
use microdbg_linux.Syscall.{
  reject, ignore, emulate_dup3, emulate_fcntl, emulate_ioctl, emulate_faccessat, emulate_open,
  emulate_openat, emulate_close, emulate_pipe2, emulate_lseek, emulate_read, emulate_write,
  emulate_writev, emulate_readlinkat, emulate_fstatat64, emulate_fstat64, emulate_exit,
  emulate_futex, emulate_clock_gettime, emulate_rt_sigaction, emulate_rt_sigprocmask,
  emulate_getrlimit, emulate_setrlimit, emulate_prctl, emulate_gettimeofday, emulate_getpid,
  emulate_gettid, emulate_sysinfo, emulate_socket, emulate_munmap, emulate_clone, emulate_execve,
  emulate_mmap, emulate_mmap2, emulate_mprotect, emulate_rt_tgsigqueueinfo, emulate_getrandom,
}
use microdbg_linux.Syscall.{Args, Call, settle, narrow, wide, by_width, call}

-- Whether a call can wait for other tasks: the futex calls, and a clone that waits for the child.
abbrev pub may_wait : Call → Args → Bool
may_wait emulate_futex r = true
may_wait emulate_clone r = has_bits (to_32 r.a0) clone_vfork
may_wait _ r = false

abbrev pub IsReturn : Outcome ℕ → Type 0
IsReturn (done v) = Unit
IsReturn panicked = Unit
IsReturn _ = ⊥

ruleset table_rules = (on_files-Obeys, on_files_host-Obeys, set_flags-Obeys, obey_rules)

module _ {M : Machine} where
  dup3-Ends : (oldfd newfd flags : ℕ) → Obeys ending (dup3 {M = M} oldfd newfd flags)
  unfolding dup3
  dup3-Ends oldfd newfd flags = search table_rules depth 14

  fcntl-Ends : (fd cmd arg : ℕ) → Obeys ending (fcntl {M = M} fd cmd arg)
  unfolding fcntl
  fcntl-Ends fd cmd arg = search table_rules depth 14

  close-Ends : (fd : ℕ) → Obeys ending (close {M = M} fd)
  unfolding close
  close-Ends fd = search table_rules depth 14

  pipe2-Ends : (fildes flags : ℕ) → Obeys ending (pipe2 {M = M} fildes flags)
  unfolding pipe2
  pipe2-Ends fildes flags = search table_rules depth 14

  socket-Ends : (domain typ protocol : ℕ) → Obeys ending (socket {M = M} domain typ protocol)
  unfolding socket
  socket-Ends domain typ protocol = search table_rules depth 14

  or_open_error-Ends : (r : Opened M.File) → Obeys ending (or_open_error {M = M} r)
  unfolding or_open_error
  or_open_error-Ends (opened file) = search obey_rules
  or_open_error-Ends exists = search obey_rules
  or_open_error-Ends failed = search obey_rules

  install-Ends : (file : M.File) (flags : ℕ) → Obeys ending (install {M = M} file flags)
  unfolding install
  install-Ends file flags = search table_rules depth 14

  open_path-Ends : (filename flags mode : ℕ) → Obeys ending (open_path {M = M} filename flags mode)
  unfolding open_path
  open_path-Ends filename flags mode =
      search (obey_rules, path_at-Obeys, or_open_error-Ends, install-Ends) depth 14

  openat-Ends :
      (dfd filename flags mode : ℕ) → Obeys ending (openat {M = M} dfd filename flags mode)
  unfolding openat
  openat-Ends dfd filename flags mode =
      search (obey_rules, path_at-Obeys, directory-Obeys, or_open_error-Ends, install-Ends) depth 14

  settle-IsReturn :
      (widen : ℕ → ℕ) (failure : ℕ) (o : Outcome ℕ) (s : State M)
      → IsEnd o
      → IsReturn (settle widen failure (o, s)).0
  settle-IsReturn widen failure (done v) s h = tt
  settle-IsReturn widen failure Outcome.failed s h = tt
  settle-IsReturn widen failure panicked s h = tt
  settle-IsReturn widen failure stalled s h = h

  narrow-IsReturn : {m : Exec M ℕ} → Obeys ending m → (s : State M) → IsReturn (narrow m s).0
  unfolding narrow
  narrow-IsReturn {m} h s = settle-IsReturn _ minus_one_32 (m s).0 (m s).1 (h.at s)

  wide-IsReturn : {m : Exec M ℕ} → Obeys ending m → (s : State M) → IsReturn (wide m s).0
  unfolding wide
  wide-IsReturn {m} h s = settle-IsReturn _ minus_one (m s).0 (m s).1 (h.at s)

  by_width-Ends :
      (a : Arch) {m n : Exec M ℕ} → Obeys ending m → Obeys ending n → Obeys ending (by_width a m n)
  unfolding by_width
  by_width-Ends Arch.arm hm hn = hm
  by_width-Ends Arch.x86 hm hn = hm
  by_width-Ends Arch.arm64 hm hn = hn
  by_width-Ends Arch.x86_64 hm hn = hn
  by_width-Ends Arch.other_arch hm hn = Obeys-fail ending enosys

  -- Where every operation of the debugger, of the host and of a file comes back, so that none blocks
  -- for ever, as a write to a full pipe can, and the files, the random source and the memory answer
  -- each read of a byte or more with a byte or more, with the end or with an error, every syscall but
  -- futex, and clone with CLONE_VFORK, returns or panics, whatever its arguments and the state.
  pub call-IsReturn :
      IsProgressing M
      → (c : Call) (r : Args) (s : State M) → may_wait c r ≡ false
      → IsReturn (call c r s).0
  unfolding call pure panic
  call-IsReturn law reject r s h = wide-IsReturn (Obeys-fail ending enosys) s
  call-IsReturn law ignore r s h = tt
  call-IsReturn law emulate_dup3 r s h = narrow-IsReturn (dup3-Ends _ _ _) s
  call-IsReturn law emulate_fcntl r s h = narrow-IsReturn (fcntl-Ends _ _ _) s
  call-IsReturn law emulate_ioctl r s h = narrow-IsReturn (ioctl-Obeys ending _ _ _) s
  call-IsReturn law emulate_faccessat r s h = narrow-IsReturn (faccessat-Obeys ending _ _ _) s
  call-IsReturn law emulate_open r s h = narrow-IsReturn (open_path-Ends _ _ _) s
  call-IsReturn law emulate_openat r s h = narrow-IsReturn (openat-Ends _ _ _ _) s
  call-IsReturn law emulate_close r s h = narrow-IsReturn (close-Ends _) s
  call-IsReturn law emulate_pipe2 r s h = narrow-IsReturn (pipe2-Ends _ _) s
  call-IsReturn law emulate_lseek r s h = wide-IsReturn (lseek-Obeys ending _ _ _) s
  call-IsReturn law emulate_read r s h = wide-IsReturn (read-Ends law _ _ _) s
  call-IsReturn law emulate_write r s h = wide-IsReturn (write-Ends law _ _ _) s
  call-IsReturn law emulate_writev r s h = wide-IsReturn (writev-Ends law _ _ _) s
  call-IsReturn law emulate_readlinkat r s h = wide-IsReturn (readlinkat-Obeys ending _ _ _ _) s
  call-IsReturn law emulate_fstatat64 r s h =
      narrow-IsReturn
        (by_width-Ends M.arch (fstatat3264-Obeys ending _ _ _ _) (fstatat64-Obeys ending _ _ _ _)) s
  call-IsReturn law emulate_fstat64 r s h =
      narrow-IsReturn (by_width-Ends M.arch (fstat3264-Obeys ending _ _) (fstat64-Obeys ending _ _))
        s
  call-IsReturn law emulate_exit r s h = tt
  call-IsReturn law emulate_futex r s h = cc
  call-IsReturn law emulate_clock_gettime r s h = narrow-IsReturn (clock_gettime-Obeys ending _ _) s
  call-IsReturn law emulate_rt_sigaction r s h =
      narrow-IsReturn (rt_sigaction-Obeys ending _ _ _ _) s
  call-IsReturn law emulate_rt_sigprocmask r s h =
      narrow-IsReturn (rt_sigprocmask-Obeys ending _ _ _ _) s
  call-IsReturn law emulate_getrlimit r s h = narrow-IsReturn (getrlimit-Obeys ending _ _) s
  call-IsReturn law emulate_setrlimit r s h = narrow-IsReturn (setrlimit-Obeys ending _ _) s
  call-IsReturn law emulate_prctl r s h = narrow-IsReturn (prctl-Obeys ending _ _ _ _ _) s
  call-IsReturn law emulate_gettimeofday r s h = narrow-IsReturn (gettimeofday-Obeys ending _ _) s
  call-IsReturn law emulate_getpid r s h = narrow-IsReturn (getpid-Obeys ending) s
  call-IsReturn law emulate_gettid r s h = narrow-IsReturn (gettid-Obeys ending) s
  call-IsReturn law emulate_sysinfo r s h = narrow-IsReturn (sysinfo-Obeys ending _) s
  call-IsReturn law emulate_socket r s h = narrow-IsReturn (socket-Ends _ _ _) s
  call-IsReturn law emulate_munmap r s h = narrow-IsReturn (munmap-Obeys ending _ _) s
  call-IsReturn law emulate_clone r s h =
      narrow-IsReturn (clone-Obeys ending _ _ _ _ _ (λ vfork. cc)) s
  call-IsReturn law emulate_execve r s h = narrow-IsReturn (execve-Obeys ending _ _ _) s
  call-IsReturn law emulate_mmap r s h = wide-IsReturn (mmap-Ends law _ _ _ _ _ _) s
  call-IsReturn law emulate_mmap2 r s h = wide-IsReturn (mmap2-Ends law _ _ _ _ _ _) s
  call-IsReturn law emulate_mprotect r s h = narrow-IsReturn (mprotect-Obeys ending _ _ _) s
  call-IsReturn law emulate_rt_tgsigqueueinfo r s h =
      narrow-IsReturn (rt_tgsigqueueinfo-Obeys ending _ _ _ _) s
  call-IsReturn law emulate_getrandom r s h = wide-IsReturn (getrandom-Ends law _ _ _) s
