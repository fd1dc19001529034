-- ===== src/Syscall.antt =====
-- kernel/syscall.go: the table of syscalls, and the call of the method that it gives.
pub mod Numbers
pub mod Methods
pub mod Waits
pub mod Ending
pub mod Copying
pub mod Returns
pub mod Discipline
pub mod Reporting
pub mod Reports
pub mod Tracked
pub mod Refines
pub mod Handlers
use microdbg_linux.Base.{ℕ, Option, none, some, List, [], ◌∷◌, ◌==◌, ◌||◌, if◌then◌else◌}
use microdbg_linux.Base.Word.{to_32, extend, minus_one, minus_one_32}
use microdbg_linux.Machine.{Machine, Arch}
use microdbg_linux.Errno.{enosys}
use microdbg_linux.Exec.{State, Outcome, done, failed, panicked, stalled}
use microdbg_linux.Exec.{Exec, pure, fail, panic, ◌>>=◌}
use microdbg_linux.Fcntl.Table.{dup3, fcntl, close, pipe2}
use microdbg_linux.Fcntl.Paths.{faccessat, open_path, openat, readlinkat}
use microdbg_linux.Fcntl.Transfer.{lseek, read, write, writev}
use microdbg_linux.Fcntl.Status.{fstatat3264, fstatat64, fstat3264, fstat64}
use microdbg_linux.Signal.{rt_sigaction, rt_sigprocmask, rt_tgsigqueueinfo}
use microdbg_linux.Services.Mman.{mmap, mmap2, munmap, mprotect}
use microdbg_linux.Services.Socket.{socket}
use microdbg_linux.Services.Ioctl.{ioctl}
use microdbg_linux.Services.Clock.{clock_gettime, gettimeofday}
use microdbg_linux.Services.Random.{getrandom}
use microdbg_linux.Services.Sysinfo.{sysinfo}
use microdbg_linux.Services.Process.{prctl, getpid, gettid, getrlimit, setrlimit, execve}
use microdbg_linux.Sched.{clone}
use microdbg_linux.Futex.{futex}
use Numbers.{Nr, number}
pub use Methods.{Args, settle}
unfoldable pub use Methods.{narrow, wide, by_width}
use Methods

-- The method values that `Get` returns.
pub data Call : Type 0 where
  reject ignore emulate_dup3 emulate_fcntl emulate_ioctl emulate_faccessat emulate_open : Call
  emulate_openat emulate_close emulate_pipe2 emulate_lseek emulate_read emulate_write : Call
  emulate_writev emulate_readlinkat emulate_fstatat64 emulate_fstat64 emulate_exit : Call
  emulate_futex emulate_clock_gettime emulate_rt_sigaction emulate_rt_sigprocmask : Call
  emulate_getrlimit emulate_setrlimit emulate_prctl emulate_gettimeofday emulate_getpid : Call
  emulate_gettid emulate_sysinfo emulate_socket emulate_munmap emulate_clone emulate_execve : Call
  emulate_mmap emulate_mmap2 emulate_mprotect emulate_rt_tgsigqueueinfo emulate_getrandom : Call

-- The cases of the switch, in its order.
abbrev pub cases : List (Nr × Call)
cases =
    (Nr.nr_reject, reject)
    ∷ (Nr.nr_ignore, ignore)
    ∷ (Nr.nr_dup3, emulate_dup3)
    ∷ (Nr.nr_fcntl, emulate_fcntl)
    ∷ (Nr.nr_ioctl, emulate_ioctl)
    ∷ (Nr.nr_faccessat, emulate_faccessat)
    ∷ (Nr.nr_open, emulate_open)
    ∷ (Nr.nr_openat, emulate_openat)
    ∷ (Nr.nr_close, emulate_close)
    ∷ (Nr.nr_pipe2, emulate_pipe2)
    ∷ (Nr.nr_lseek, emulate_lseek)
    ∷ (Nr.nr_read, emulate_read)
    ∷ (Nr.nr_write, emulate_write)
    ∷ (Nr.nr_writev, emulate_writev)
    ∷ (Nr.nr_readlinkat, emulate_readlinkat)
    ∷ (Nr.nr_fstatat64, emulate_fstatat64)
    ∷ (Nr.nr_fstat64, emulate_fstat64)
    ∷ (Nr.nr_exit, emulate_exit)
    ∷ (Nr.nr_exit_group, emulate_exit)
    ∷ (Nr.nr_futex, emulate_futex)
    ∷ (Nr.nr_clock_gettime, emulate_clock_gettime)
    ∷ (Nr.nr_sigaltstack, ignore)
    ∷ (Nr.nr_rt_sigaction, emulate_rt_sigaction)
    ∷ (Nr.nr_rt_sigprocmask, emulate_rt_sigprocmask)
    ∷ (Nr.nr_getrlimit, emulate_getrlimit)
    ∷ (Nr.nr_setrlimit, emulate_setrlimit)
    ∷ (Nr.nr_prctl, emulate_prctl)
    ∷ (Nr.nr_gettimeofday, emulate_gettimeofday)
    ∷ (Nr.nr_getpid, emulate_getpid)
    ∷ (Nr.nr_getuid, ignore)
    ∷ (Nr.nr_geteuid, ignore)
    ∷ (Nr.nr_gettid, emulate_gettid)
    ∷ (Nr.nr_sysinfo, emulate_sysinfo)
    ∷ (Nr.nr_socket, emulate_socket)
    ∷ (Nr.nr_munmap, emulate_munmap)
    ∷ (Nr.nr_clone, emulate_clone)
    ∷ (Nr.nr_execve, emulate_execve)
    ∷ (Nr.nr_mmap, emulate_mmap)
    ∷ (Nr.nr_mmap2, emulate_mmap2)
    ∷ (Nr.nr_mprotect, emulate_mprotect)
    ∷ (Nr.nr_madvise, reject)
    ∷ (Nr.nr_rt_tgsigqueueinfo, emulate_rt_tgsigqueueinfo)
    ∷ (Nr.nr_getrandom, emulate_getrandom)
    ∷ []

unfoldable pub find : ℕ → List (Nr × Call) → Option Call
find nr [] = none
find nr ((n, call) ∷ rest) = if nr == number n then some call else find nr rest

-- `Get`
unfoldable pub get : ℕ → Option Call
unfolding find number
get nr = find nr cases

module _ {M : Machine} where
  -- The method that `Get` gives, on its arguments.
  unfoldable pub call : Call → Args → Exec M ℕ
  call reject r = Methods.reject r
  call ignore r = Methods.ignore r
  call emulate_dup3 r = Methods.emulate_dup3 r
  call emulate_fcntl r = Methods.emulate_fcntl r
  call emulate_ioctl r = Methods.emulate_ioctl r
  call emulate_faccessat r = Methods.emulate_faccessat r
  call emulate_open r = Methods.emulate_open r
  call emulate_openat r = Methods.emulate_openat r
  call emulate_close r = Methods.emulate_close r
  call emulate_pipe2 r = Methods.emulate_pipe2 r
  call emulate_lseek r = Methods.emulate_lseek r
  call emulate_read r = Methods.emulate_read r
  call emulate_write r = Methods.emulate_write r
  call emulate_writev r = Methods.emulate_writev r
  call emulate_readlinkat r = Methods.emulate_readlinkat r
  call emulate_fstatat64 r = Methods.emulate_fstatat64 r
  call emulate_fstat64 r = Methods.emulate_fstat64 r
  call emulate_exit r = Methods.emulate_exit r
  call emulate_futex r = Methods.emulate_futex r
  call emulate_clock_gettime r = Methods.emulate_clock_gettime r
  call emulate_rt_sigaction r = Methods.emulate_rt_sigaction r
  call emulate_rt_sigprocmask r = Methods.emulate_rt_sigprocmask r
  call emulate_getrlimit r = Methods.emulate_getrlimit r
  call emulate_setrlimit r = Methods.emulate_setrlimit r
  call emulate_prctl r = Methods.emulate_prctl r
  call emulate_gettimeofday r = Methods.emulate_gettimeofday r
  call emulate_getpid r = Methods.emulate_getpid r
  call emulate_gettid r = Methods.emulate_gettid r
  call emulate_sysinfo r = Methods.emulate_sysinfo r
  call emulate_socket r = Methods.emulate_socket r
  call emulate_munmap r = Methods.emulate_munmap r
  call emulate_clone r = Methods.emulate_clone r
  call emulate_execve r = Methods.emulate_execve r
  call emulate_mmap r = Methods.emulate_mmap r
  call emulate_mmap2 r = Methods.emulate_mmap2 r
  call emulate_mprotect r = Methods.emulate_mprotect r
  call emulate_rt_tgsigqueueinfo r = Methods.emulate_rt_tgsigqueueinfo r
  call emulate_getrandom r = Methods.emulate_getrandom r
