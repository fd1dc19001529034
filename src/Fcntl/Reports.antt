-- ===== src/Fcntl/Reports.antt =====
-- The handlers that change the descriptors follow the error convention of `Contract`.
use microdbg_linux.Base.{ℕ, Option}
use microdbg_linux.Machine.{Machine, Opened, opened, exists, failed}
use microdbg_linux.Syscall.Reporting.{reporting, obeyed}
use microdbg_linux.Fcntl.Obeys.{path_at-Obeys, directory-Obeys}
use microdbg_linux.Services.Socket.{socket}
use microdbg_linux.Exec.Contract.{Reports, report_rules}
use microdbg_linux.Fcntl.Table.{dup3, fcntl, close, pipe2}
use microdbg_linux.Fcntl.Paths.{path_at, directory, or_open_error, install}
use microdbg_linux.Fcntl.Paths.{open_path, openat}

module _ {M : Machine} where
  pub dup3-Reports : (oldfd newfd flags : ℕ) → Reports (dup3 {M = M} oldfd newfd flags)
  unfolding dup3
  dup3-Reports oldfd newfd flags = search report_rules depth 14

  pub fcntl-Reports : (fd cmd arg : ℕ) → Reports (fcntl {M = M} fd cmd arg)
  unfolding fcntl
  fcntl-Reports fd cmd arg = search report_rules depth 14

  pub close-Reports : (fd : ℕ) → Reports (close {M = M} fd)
  unfolding close
  close-Reports fd = search report_rules depth 14

  pub pipe2-Reports : (fildes flags : ℕ) → Reports (pipe2 {M = M} fildes flags)
  unfolding pipe2
  pipe2-Reports fildes flags = search report_rules depth 14

  or_open_error-Reports : (r : Opened M.File) → Reports (or_open_error {M = M} r)
  unfolding or_open_error
  or_open_error-Reports (opened file) = search report_rules depth 14
  or_open_error-Reports exists = search report_rules depth 14
  or_open_error-Reports failed = search report_rules depth 14

  pub install-Reports : (file : M.File) (flags : ℕ) → Reports (install {M = M} file flags)
  unfolding install
  install-Reports file flags = search report_rules depth 14

  path_at-Reports : (filename : ℕ) → Reports (path_at {M = M} filename)
  path_at-Reports filename = obeyed (path_at-Obeys reporting filename)

  directory-Reports : (cast : M.File → Option M.Fs) (dfd : ℕ) → Reports (directory {M = M} cast dfd)
  directory-Reports cast dfd = obeyed (directory-Obeys reporting cast dfd)

  pub open_path-Reports :
      (filename flags mode : ℕ) → Reports (open_path {M = M} filename flags mode)
  unfolding open_path
  open_path-Reports filename flags mode =
      search (report_rules, path_at-Reports, or_open_error-Reports, install-Reports) depth 14

  pub openat-Reports :
      (dfd filename flags mode : ℕ) → Reports (openat {M = M} dfd filename flags mode)
  unfolding openat
  openat-Reports dfd filename flags mode =
      search
        (report_rules, path_at-Reports, directory-Reports, or_open_error-Reports, install-Reports)
        depth 14

  pub socket-Reports : (domain typ protocol : ℕ) → Reports (socket {M = M} domain typ protocol)
  unfolding socket
  socket-Reports domain typ protocol = search report_rules depth 14
