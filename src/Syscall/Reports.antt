-- ===== src/Syscall/Reports.antt =====
-- What every syscall leaves in the error number, from the theorems on the handlers.
use microdbg_linux.Base.{ℕ, ◌<◌, ◌≡◌, refl, ◌⊎◌, inl, inr}
use microdbg_linux.Base.Word.{minus_one, minus_one_32}
use microdbg_linux.Machine.{Machine, Arch}
use microdbg_linux.Exec.{State, Outcome, done, failed, panicked, stalled, Exec, panic, pure}
use microdbg_linux.Exec.Contract.{Reported, Reports, Reports-fail}
use microdbg_linux.Fcntl.Reports.{
  close-Reports, dup3-Reports, fcntl-Reports, open_path-Reports, openat-Reports, pipe2-Reports,
  socket-Reports,
}
use microdbg_linux.Syscall.Reporting.{reporting, obeyed}
use microdbg_linux.Fcntl.Obeys.{
  faccessat-Obeys, fstat3264-Obeys, fstat64-Obeys, fstatat3264-Obeys, fstatat64-Obeys, lseek-Obeys,
  read-Obeys, readlinkat-Obeys, write-Obeys, writev-Obeys,
}
use microdbg_linux.Services.Obeys.{
  clock_gettime-Obeys, execve-Obeys, getpid-Obeys, getrandom-Obeys, getrlimit-Obeys, gettid-Obeys,
  gettimeofday-Obeys, ioctl-Obeys, mmap-Obeys, mmap2-Obeys, mprotect-Obeys, munmap-Obeys,
  prctl-Obeys, setrlimit-Obeys, sysinfo-Obeys,
}
use microdbg_linux.Syscall.Waits.{
  clone-Obeys, futex-Obeys, rt_sigaction-Obeys, rt_sigprocmask-Obeys, rt_tgsigqueueinfo-Obeys,
}
use microdbg_linux.Syscall.{
  reject, ignore, emulate_dup3, emulate_fcntl, emulate_ioctl, emulate_faccessat, emulate_open,
  emulate_openat, emulate_close, emulate_pipe2, emulate_lseek, emulate_read, emulate_write,
  emulate_writev, emulate_readlinkat, emulate_fstatat64, emulate_fstat64, emulate_exit,
  emulate_futex, emulate_clock_gettime, emulate_rt_sigaction, emulate_rt_sigprocmask,
  emulate_getrlimit, emulate_setrlimit, emulate_prctl, emulate_gettimeofday, emulate_getpid,
  emulate_gettid, emulate_sysinfo, emulate_socket, emulate_munmap, emulate_clone, emulate_execve,
  emulate_mmap, emulate_mmap2, emulate_mprotect, emulate_rt_tgsigqueueinfo, emulate_getrandom,
}
use microdbg_linux.Syscall.{Args, Call, settle, narrow, wide, by_width, call}

-- A result, the error number before the call and that after it: the error number is as before, or
-- the call returns -1 and the error number is set. A call never ends as a failed handler does.
abbrev pub Settled : ℕ → Outcome ℕ → ℕ → Type 0
Settled before (done v) after = (after ≡ before) ⊎ ((v ≡ minus_one) × (0 < after))
Settled before failed after = ⊥
Settled before panicked after = after ≡ before
Settled before stalled after = after ≡ before

module _ {M : Machine} where
  settle-Settled :
      (widen : ℕ → ℕ) (failure before : ℕ) (o : Outcome ℕ) (s : State M)
      → widen failure ≡ minus_one
      → Reported before o s.errno
      → let r = settle widen failure (o, s) in Settled before r.0 r.1.errno
  settle-Settled widen failure before (done v) s e h = inl h
  settle-Settled widen failure before failed s e h = inr (e, h)
  settle-Settled widen failure before panicked s e h = h
  settle-Settled widen failure before stalled s e h = h

  abbrev IsSettled : Exec M ℕ → Type 0
  IsSettled m = (s : State M) → Settled s.errno (m s).0 (m s).1.errno

  narrow-Settled : {m : Exec M ℕ} → Reports m → IsSettled (narrow m)
  unfolding narrow
  narrow-Settled {m} h s = settle-Settled _ minus_one_32 s.errno (m s).0 (m s).1 refl (h.at s)

  wide-Settled : {m : Exec M ℕ} → Reports m → IsSettled (wide m)
  unfolding wide
  wide-Settled {m} h s = settle-Settled _ minus_one s.errno (m s).0 (m s).1 refl (h.at s)

  by_width-Reports : (a : Arch) (m n : Exec M ℕ) → Reports m → Reports n → Reports (by_width a m n)
  unfolding by_width
  by_width-Reports Arch.arm m n hm hn = hm
  by_width-Reports Arch.x86 m n hm hn = hm
  by_width-Reports Arch.arm64 m n hm hn = hn
  by_width-Reports Arch.x86_64 m n hm hn = hn
  by_width-Reports Arch.other_arch m n hm hn = Reports-fail _

  -- Whatever the syscall and its arguments, a call that returns has left the error number alone, or
  -- returns -1 with the error number set; one that panics or does not return has left it alone.
  pub call-Settled :
      (c : Call) (r : Args) (s : State M) → Settled s.errno (call c r s).0 (call c r s).1.errno
  unfolding call pure panic
  call-Settled reject r s = wide-Settled (Reports-fail _) s
  call-Settled ignore r s = inl refl
  call-Settled emulate_dup3 r s = narrow-Settled (dup3-Reports _ _ _) s
  call-Settled emulate_fcntl r s = narrow-Settled (fcntl-Reports _ _ _) s
  call-Settled emulate_ioctl r s = narrow-Settled (obeyed (ioctl-Obeys reporting _ _ _)) s
  call-Settled emulate_faccessat r s = narrow-Settled (obeyed (faccessat-Obeys reporting _ _ _)) s
  call-Settled emulate_open r s = narrow-Settled (open_path-Reports _ _ _) s
  call-Settled emulate_openat r s = narrow-Settled (openat-Reports _ _ _ _) s
  call-Settled emulate_close r s = narrow-Settled (close-Reports _) s
  call-Settled emulate_pipe2 r s = narrow-Settled (pipe2-Reports _ _) s
  call-Settled emulate_lseek r s = wide-Settled (obeyed (lseek-Obeys reporting _ _ _)) s
  call-Settled emulate_read r s = wide-Settled (obeyed (read-Obeys reporting tt _ _ _)) s
  call-Settled emulate_write r s = wide-Settled (obeyed (write-Obeys reporting tt _ _ _)) s
  call-Settled emulate_writev r s = wide-Settled (obeyed (writev-Obeys reporting tt _ _ _)) s
  call-Settled emulate_readlinkat r s = wide-Settled (obeyed (readlinkat-Obeys reporting _ _ _ _)) s
  call-Settled emulate_fstatat64 r s =
      narrow-Settled
        (by_width-Reports M.arch _ _ (obeyed (fstatat3264-Obeys reporting _ _ _ _))
          (obeyed (fstatat64-Obeys reporting _ _ _ _)))
        s
  call-Settled emulate_fstat64 r s =
      narrow-Settled
        (by_width-Reports M.arch _ _ (obeyed (fstat3264-Obeys reporting _ _))
          (obeyed (fstat64-Obeys reporting _ _)))
        s
  call-Settled emulate_exit r s = refl
  call-Settled emulate_futex r s = narrow-Settled (obeyed (futex-Obeys reporting tt _ _ _ _ _ _)) s
  call-Settled emulate_clock_gettime r s =
      narrow-Settled (obeyed (clock_gettime-Obeys reporting _ _)) s
  call-Settled emulate_rt_sigaction r s =
      narrow-Settled (obeyed (rt_sigaction-Obeys reporting _ _ _ _)) s
  call-Settled emulate_rt_sigprocmask r s =
      narrow-Settled (obeyed (rt_sigprocmask-Obeys reporting _ _ _ _)) s
  call-Settled emulate_getrlimit r s = narrow-Settled (obeyed (getrlimit-Obeys reporting _ _)) s
  call-Settled emulate_setrlimit r s = narrow-Settled (obeyed (setrlimit-Obeys reporting _ _)) s
  call-Settled emulate_prctl r s = narrow-Settled (obeyed (prctl-Obeys reporting _ _ _ _ _)) s
  call-Settled emulate_gettimeofday r s =
      narrow-Settled (obeyed (gettimeofday-Obeys reporting _ _)) s
  call-Settled emulate_getpid r s = narrow-Settled (obeyed (getpid-Obeys reporting)) s
  call-Settled emulate_gettid r s = narrow-Settled (obeyed (gettid-Obeys reporting)) s
  call-Settled emulate_sysinfo r s = narrow-Settled (obeyed (sysinfo-Obeys reporting _)) s
  call-Settled emulate_socket r s = narrow-Settled (socket-Reports _ _ _) s
  call-Settled emulate_munmap r s = narrow-Settled (obeyed (munmap-Obeys reporting _ _)) s
  call-Settled emulate_clone r s =
      narrow-Settled (obeyed (clone-Obeys reporting _ _ _ _ _ (λ _. tt))) s
  call-Settled emulate_execve r s = narrow-Settled (obeyed (execve-Obeys reporting _ _ _)) s
  call-Settled emulate_mmap r s = wide-Settled (obeyed (mmap-Obeys reporting tt _ _ _ _ _ _)) s
  call-Settled emulate_mmap2 r s = wide-Settled (obeyed (mmap2-Obeys reporting tt _ _ _ _ _ _)) s
  call-Settled emulate_mprotect r s = narrow-Settled (obeyed (mprotect-Obeys reporting _ _ _)) s
  call-Settled emulate_rt_tgsigqueueinfo r s =
      narrow-Settled (obeyed (rt_tgsigqueueinfo-Obeys reporting _ _ _ _)) s
  call-Settled emulate_getrandom r s = wide-Settled (obeyed (getrandom-Obeys reporting tt _ _ _)) s
