-- ===== src/Services/Obeys.antt =====
-- The handlers of the files modelled in `Services`, but for `socket`, obey every discipline.
use microdbg_linux.Base.{ℕ, Option, none, some}
use microdbg_linux.Machine.{Machine}
use microdbg_linux.Syscall.Discipline.{Discipline, Obeys, obey_rules, Obeys-pure, Obeys-stall}
use microdbg_linux.Io.{Moved, moved, error, endless}
use microdbg_linux.Fcntl.Obeys.{or_moved-Obeys}
use microdbg_linux.Services.Mman.{
  skip_to, source_of, region, or_unmap, load, mmap, mmap2, munmap, mprotect,
}
use microdbg_linux.Services.Ioctl.{ioctl}
use microdbg_linux.Services.Clock.{clock_gettime, gettimeofday}
use microdbg_linux.Services.Random.{getrandom}
use microdbg_linux.Services.Sysinfo.{sysinfo}
use microdbg_linux.Services.Process.{prctl, getpid, gettid, getrlimit, setrlimit, execve}

module _ {M : Machine} (D : Discipline M) where
  pub region-Obeys : (addr len prot flags : ℕ) → Obeys D (region addr len prot flags)
  unfolding region
  region-Obeys addr len prot flags = search obey_rules depth 14

  pub munmap-Obeys : (addr len : ℕ) → Obeys D (munmap addr len)
  unfolding munmap
  munmap-Obeys addr len = search obey_rules depth 14

  pub mprotect-Obeys : (start len prot : ℕ) → Obeys D (mprotect start len prot)
  unfolding mprotect
  mprotect-Obeys start len prot = search obey_rules depth 14

  pub ioctl-Obeys : (fd cmd arg : ℕ) → Obeys D (ioctl fd cmd arg)
  unfolding ioctl
  ioctl-Obeys fd cmd arg = search obey_rules depth 14

  pub clock_gettime-Obeys : (clock ts : ℕ) → Obeys D (clock_gettime clock ts)
  unfolding clock_gettime
  clock_gettime-Obeys clock ts = search obey_rules depth 14

  pub gettimeofday-Obeys : (tv tz : ℕ) → Obeys D (gettimeofday tv tz)
  unfolding gettimeofday
  gettimeofday-Obeys tv tz = search obey_rules depth 14

  pub sysinfo-Obeys : (info : ℕ) → Obeys D (sysinfo info)
  unfolding sysinfo
  sysinfo-Obeys info = search obey_rules depth 14

  pub prctl-Obeys : (option arg1 arg2 arg3 arg4 : ℕ) → Obeys D (prctl option arg1 arg2 arg3 arg4)
  unfolding prctl
  prctl-Obeys option arg1 arg2 arg3 arg4 = search obey_rules depth 14

  pub getpid-Obeys : Obeys D (getpid)
  unfolding getpid
  getpid-Obeys = search obey_rules depth 14

  pub gettid-Obeys : Obeys D (gettid)
  unfolding gettid
  gettid-Obeys = search obey_rules depth 14

  pub getrlimit-Obeys : (resource rlim : ℕ) → Obeys D (getrlimit resource rlim)
  unfolding getrlimit
  getrlimit-Obeys resource rlim = search obey_rules depth 14

  pub setrlimit-Obeys : (resource rlim : ℕ) → Obeys D (setrlimit resource rlim)
  unfolding setrlimit
  setrlimit-Obeys resource rlim = search obey_rules depth 14

  pub execve-Obeys : (filename argv envp : ℕ) → Obeys D (execve filename argv envp)
  unfolding execve
  execve-Obeys filename argv envp = search obey_rules depth 14

-- Those that copy, where a copy may go on without end.
module _ {M : Machine} (D : Discipline M) (waits : D.MayStall) where
  skip_to-Obeys : (file : M.File) (offset : ℕ) → Obeys D (skip_to file offset)
  unfolding skip_to
  skip_to-Obeys file offset = search (obey_rules, or_moved-Obeys) depth 14

  pub source_of-Obeys : (flags fd offset : ℕ) → Obeys D (source_of flags fd offset)
  unfolding source_of
  source_of-Obeys flags fd offset = search (obey_rules, skip_to-Obeys) depth 14

  or_unmap-Obeys : (addr len : ℕ) (r : Moved) → Obeys D (or_unmap addr len r)
  unfolding or_unmap
  or_unmap-Obeys addr len (moved n) = Obeys-pure D addr
  or_unmap-Obeys addr len error = search obey_rules depth 14
  or_unmap-Obeys addr len endless = Obeys-stall D waits

  load-Obeys : (addr len : ℕ) (source : Option M.File) → Obeys D (load {M = M} addr len source)
  unfolding load
  load-Obeys addr len none = Obeys-pure D addr
  load-Obeys addr len (some file) = search (obey_rules, or_unmap-Obeys) depth 14

  pub mmap-Obeys :
      (addr len prot flags fd offset : ℕ) → Obeys D (mmap addr len prot flags fd offset)
  unfolding mmap
  mmap-Obeys addr len prot flags fd offset =
      search (obey_rules, source_of-Obeys, region-Obeys, load-Obeys) depth 14

  pub mmap2-Obeys :
      (addr len prot flags fd count : ℕ) → Obeys D (mmap2 addr len prot flags fd count)
  unfolding mmap2
  mmap2-Obeys addr len prot flags fd count = mmap-Obeys addr len prot flags fd _

  pub getrandom-Obeys : (buf count flags : ℕ) → Obeys D (getrandom buf count flags)
  unfolding getrandom
  getrandom-Obeys buf count flags = search (obey_rules, or_moved-Obeys) depth 14
