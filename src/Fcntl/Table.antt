-- ===== src/Fcntl/Table.antt =====
-- kernel/fcntl.go: the calls on the descriptor table and on the map `flags` of descriptor flags,
-- `dup3`, `fcntl`, `close` and `pipe2`. The map is behind a lock in the source; here each access
-- is one action.
use microdbg_linux.Base.{ℕ, Option, none, some, [], ◌∷◌, bit_or, ◌||◌, ◌==◌, if◌then◌else◌}
use microdbg_linux.Base.Word.{to_32, has_bits}
use microdbg_linux.Base.Assoc.{Assoc, lookup, insert, erase}
use microdbg_linux.Machine.{Machine, Kind}
use microdbg_linux.Errno.{ebadf, emfile}
use microdbg_linux.Exec.{Exec, pure, panic, or_fail, guard, gets, set_flags}
use microdbg_linux.Exec.{on_files, on_memory, on_host, on_files_host, ◌>>=◌, ◌>>◌}

abbrev pub o_cloexec : ℕ
o_cloexec = 0x80000

-- The commands of `fcntl`.
abbrev pub f_dupfd : ℕ
f_dupfd = 0

abbrev pub f_getfd : ℕ
f_getfd = 1

abbrev pub f_setfd : ℕ
f_setfd = 2

abbrev pub f_getfl : ℕ
f_getfl = 3

abbrev pub f_setfl : ℕ
f_setfl = 4

abbrev pub f_getlk : ℕ
f_getlk = 5

abbrev pub f_setlk : ℕ
f_setlk = 6

abbrev pub f_setlkw : ℕ
f_setlkw = 7

abbrev pub f_getlk64 : ℕ
f_getlk64 = 12

abbrev pub f_setlk64 : ℕ
f_setlk64 = 13

abbrev pub f_setlkw64 : ℕ
f_setlkw64 = 14

-- `flags[fd]`, which is 0 for a descriptor with no entry.
abbrev pub or_zero : Option ℕ → ℕ
or_zero none = 0
or_zero (some v) = v

unfoldable pub flags_of : ℕ → Assoc ℕ → ℕ
unfolding lookup
flags_of fd m = or_zero (lookup fd m)

module _ {M : Machine} where
  unfoldable pub dup3 : ℕ → ℕ → ℕ → Exec M ℕ
  dup3 oldfd newfd flags = do
    ok ← on_files_host (λ files host. M.dup2_file files host oldfd newfd)
    guard ok ebadf
    set_flags (insert newfd flags)
    pure newfd

  -- The branches of the switch on `cmd`.
  unfoldable pub dupfd : ℕ → Exec M ℕ
  dupfd fd = do
    dup ← on_files (λ files. M.dup_file files fd)
    newfd ← or_fail ebadf dup
    set_flags (λ flags. insert newfd (flags_of fd flags) flags)
    pure (to_32 newfd)

  unfoldable pub getfd : ℕ → Exec M ℕ
  getfd fd = do
    has_exec ← gets (λ s. has_bits (flags_of fd s.flags) o_cloexec)
    pure (if has_exec then 1 else 0)

  unfoldable pub setfd : ℕ → Exec M ℕ
  setfd fd = do set_flags (λ flags. insert fd (bit_or (flags_of fd flags) o_cloexec) flags); pure 0

  unfoldable pub getfl : ℕ → Exec M ℕ
  getfl fd = gets (λ s. flags_of fd s.flags)

  unfoldable pub setfl : ℕ → ℕ → Exec M ℕ
  setfl fd arg = do set_flags (insert fd (to_32 arg)); pure 0

  unfoldable pub command : ℕ → ℕ → ℕ → Exec M ℕ
  unfolding dupfd getfd setfd getfl setfl
  command fd cmd arg =
      if cmd == f_dupfd
      then dupfd fd
      else if cmd == f_getfd
      then getfd fd
      else if cmd == f_setfd
      then setfd fd
      else if cmd == f_getfl
      then getfl fd
      else if cmd == f_setfl
      then setfl fd arg
      else if cmd == f_getlk || cmd == f_getlk64
      then pure 0
      else if cmd == f_setlk || cmd == f_setlkw || cmd == f_setlk64 || cmd == f_setlkw64
      then pure 0
      else panic

  unfoldable pub fcntl : ℕ → ℕ → ℕ → Exec M ℕ
  unfolding command
  fcntl fd cmd arg = do
    found ← gets (λ s. M.get_file s.files fd)
    or_fail ebadf found
    command fd cmd arg

  unfoldable pub close : ℕ → Exec M ℕ
  close fd = do
    closed ← on_files (λ files. M.close_fd files fd)
    file ← or_fail ebadf closed
    on_host (λ host. (tt, M.file_close host file))
    set_flags (erase fd)
    pure 0

  -- The result of the write to memory is not looked at.
  unfoldable pub pipe2 : ℕ → ℕ → Exec M ℕ
  pipe2 fildes flags = do
    made ← on_host M.pipe
    (r, w) ← or_fail emfile made
    rfd ← on_files (λ files. M.create_fd files r)
    wfd ← on_files (λ files. M.create_fd files w)
    set_flags (λ m. insert wfd flags (insert rfd flags m))
    on_memory
        (λ memory. M.write memory fildes ((Kind.int32, to_32 rfd) ∷ (Kind.int32, to_32 wfd) ∷ []))
    pure 0
