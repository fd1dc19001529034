-- ===== src/Fcntl/Obeys.antt =====
-- The handlers of kernel/fcntl.go that leave the descriptors alone obey every discipline.
use microdbg_linux.Base.{ℕ, Option, List, [], ◌∷◌}
use microdbg_linux.Machine.{Machine, Kind, Opened, opened, exists, failed}
use microdbg_linux.Errno.{Errno}
use microdbg_linux.Syscall.Discipline.{
  Discipline, Obeys, obey_rules, Obeys-pure, Obeys-fail, Obeys-stall,
}
use microdbg_linux.Io.{Moved, moved, error, endless}
use microdbg_linux.Fcntl.Paths.{path_at, directory, or_no_entry}
use microdbg_linux.Fcntl.Paths.{faccessat, link_directory, readlinkat}
use microdbg_linux.Fcntl.Transfer.{Iovec, or_moved, lseek, read, write, write_all, writev}
use microdbg_linux.Fcntl.Status.{info_at, info_of, put_stat}
use microdbg_linux.Fcntl.Status.{fstatat3264, fstatat64, fstat3264, fstat64}

module _ {M : Machine} (D : Discipline M) where
  pub path_at-Obeys : (filename : ℕ) → Obeys D (path_at filename)
  unfolding path_at
  path_at-Obeys filename = search obey_rules depth 14

  pub directory-Obeys : (cast : M.File → Option M.Fs) (dfd : ℕ) → Obeys D (directory cast dfd)
  unfolding directory
  directory-Obeys cast dfd = search obey_rules depth 14

  or_no_entry-Obeys : (r : Opened M.File) → Obeys D (or_no_entry r)
  unfolding or_no_entry
  or_no_entry-Obeys (opened file) = search obey_rules depth 14
  or_no_entry-Obeys exists = search obey_rules depth 14
  or_no_entry-Obeys failed = search obey_rules depth 14

ruleset path_rules = (obey_rules, path_at-Obeys, directory-Obeys, or_no_entry-Obeys)

module _ {M : Machine} (D : Discipline M) where
  pub faccessat-Obeys : (dfd filename mode : ℕ) → Obeys D (faccessat dfd filename mode)
  unfolding faccessat
  faccessat-Obeys dfd filename mode = search path_rules depth 14

  pub link_directory-Obeys : (dfd : ℕ) → Obeys D (link_directory dfd)
  unfolding link_directory
  link_directory-Obeys dfd = search path_rules depth 14

  pub readlinkat-Obeys :
      (dfd filename buf bufsiz : ℕ) → Obeys D (readlinkat dfd filename buf bufsiz)
  unfolding readlinkat
  readlinkat-Obeys dfd filename buf bufsiz = search (path_rules, link_directory-Obeys) depth 14

  pub lseek-Obeys : (fd offset whence : ℕ) → Obeys D (lseek fd offset whence)
  unfolding lseek
  lseek-Obeys fd offset whence = search path_rules depth 14

  pub info_at-Obeys : (dfd filename : ℕ) → Obeys D (info_at dfd filename)
  unfolding info_at
  info_at-Obeys dfd filename = search path_rules depth 14

  pub info_of-Obeys : (fd : ℕ) → Obeys D (info_of fd)
  unfolding info_of
  info_of-Obeys fd = search path_rules depth 14

  put_stat-Obeys : (statbuf : ℕ) (fields : List (Kind × ℕ)) → Obeys D (put_stat statbuf fields)
  unfolding put_stat
  put_stat-Obeys statbuf fields = search obey_rules depth 14

  pub fstatat3264-Obeys :
      (dfd filename statbuf flag : ℕ) → Obeys D (fstatat3264 dfd filename statbuf flag)
  unfolding fstatat3264
  fstatat3264-Obeys dfd filename statbuf flag =
      search (obey_rules, info_at-Obeys, put_stat-Obeys) depth 14

  pub fstatat64-Obeys :
      (dfd filename statbuf flag : ℕ) → Obeys D (fstatat64 dfd filename statbuf flag)
  unfolding fstatat64
  fstatat64-Obeys dfd filename statbuf flag =
      search (obey_rules, info_at-Obeys, put_stat-Obeys) depth 14

  pub fstat3264-Obeys : (fd statbuf : ℕ) → Obeys D (fstat3264 fd statbuf)
  unfolding fstat3264
  fstat3264-Obeys fd statbuf = search (obey_rules, info_of-Obeys, put_stat-Obeys) depth 14

  pub fstat64-Obeys : (fd statbuf : ℕ) → Obeys D (fstat64 fd statbuf)
  unfolding fstat64
  fstat64-Obeys fd statbuf = search (obey_rules, info_of-Obeys, put_stat-Obeys) depth 14

-- Those that copy, where a copy may go on without end.
module _ {M : Machine} (D : Discipline M) (waits : D.MayStall) where
  pub or_moved-Obeys : (e : Errno) (r : Moved) → Obeys D (or_moved e r)
  unfolding or_moved
  or_moved-Obeys e (moved n) = Obeys-pure D n
  or_moved-Obeys e error = Obeys-fail D e
  or_moved-Obeys e endless = Obeys-stall D waits

  pub read-Obeys : (fd buf count : ℕ) → Obeys D (read fd buf count)
  unfolding read
  read-Obeys fd buf count = search (path_rules, or_moved-Obeys) depth 14

  pub write-Obeys : (fd buf count : ℕ) → Obeys D (write fd buf count)
  unfolding write
  write-Obeys fd buf count = search (path_rules, or_moved-Obeys) depth 14

  write_all-Obeys :
      (file : M.File) (vs : List Iovec) (n : ℕ) → Obeys D (write_all {M = M} file vs n)
  unfolding write_all
  write_all-Obeys file [] n = Obeys-pure D n
  write_all-Obeys file (v ∷ vs) n =
      search (obey_rules, or_moved-Obeys, write_all-Obeys file vs) depth 14

  pub writev-Obeys : (fd iov iovcnt : ℕ) → Obeys D (writev fd iov iovcnt)
  unfolding writev
  writev-Obeys fd iov iovcnt = search (obey_rules, write_all-Obeys) depth 14
