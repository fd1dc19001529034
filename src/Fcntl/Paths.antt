-- ===== src/Fcntl/Paths.antt =====
-- kernel/fcntl.go: the calls that resolve a path, `faccessat`, `open`, `openat` and `readlinkat`,
-- and the translation of open flags.
use microdbg_linux.Base.{ℕ, Option, List, min, bit_or, ◌==◌, if◌then◌else◌}
use microdbg_linux.Base.Lists.{length, take}
use microdbg_linux.Base.Word.{to_32, extend, has_bits}
use microdbg_linux.Base.Assoc.{insert}
use microdbg_linux.Machine.{Machine, FileFlags, Opened, opened, exists, failed}
use microdbg_linux.Errno.{ebadf, eexist, einval, enoent, enotdir}
use microdbg_linux.Exec.{Exec, pure, fail, panic, or_fail, gets, set_flags}
use microdbg_linux.Exec.{on_files, on_memory, on_host, ◌>>=◌, ◌>>◌}

-- -100 as an `int32`.
abbrev pub at_fdcwd : ℕ
at_fdcwd = 4294967196

-- The access mode, and the option bits of `toFileFlag`, in the order of the source.
abbrev set_bit : ℕ → ℕ → ℕ → ℕ → ℕ
set_bit flags mask bit ff = if has_bits flags mask then bit_or ff bit else ff

unfoldable pub access_flag : FileFlags → ℕ → ℕ
access_flag c flags =
    if has_bits flags 2 then c.o_rdwr else if has_bits flags 1 then c.o_wronly else c.o_rdonly

unfoldable pub to_file_flag : FileFlags → ℕ → ℕ
unfolding access_flag
to_file_flag c flags = set_bit flags 0x200 c.o_trunc (
    set_bit flags 0x101000 c.o_sync (
      set_bit flags 0x80 c.o_excl
        (set_bit flags 0x40 c.o_create (set_bit flags 0x400 c.o_append (access_flag c flags)))))

module _ {M : Machine} where
  -- `ctx.ToPointer(filename).MemReadString()` and its error.
  unfoldable pub path_at : ℕ → Exec M (List ℕ)
  path_at filename = do read ← gets (λ s. M.read_string s.memory filename); or_fail enoent read

  -- The directory that `dfd` names, `cast` being the type assertion on the file.
  unfoldable pub directory : (M.File → Option M.Fs) → ℕ → Exec M M.Fs
  directory cast dfd = if dfd == at_fdcwd then gets (λ s. M.get_fs s.host) else do
    found ← gets (λ s. M.get_file s.files (extend dfd))
    file ← or_fail ebadf found
    or_fail enotdir (cast file)

  -- The error branches behind the two calls of `OpenFile`.
  unfoldable pub or_open_error : Opened M.File → Exec M M.File
  or_open_error (opened file) = pure file
  or_open_error exists = fail eexist
  or_open_error failed = fail enoent

  unfoldable pub or_no_entry : Opened M.File → Exec M M.File
  or_no_entry (opened file) = pure file
  or_no_entry exists = fail enoent
  or_no_entry failed = fail enoent

  -- `CreateFileDescriptor`, the entry in `flags`, and the result.
  unfoldable pub install : M.File → ℕ → Exec M ℕ
  install file flags = do
    fd ← on_files (λ files. M.create_fd files file)
    set_flags (insert fd flags)
    pure (to_32 fd)

  unfoldable pub faccessat : ℕ → ℕ → ℕ → Exec M ℕ
  unfolding path_at directory or_no_entry
  faccessat dfd filename mode = do
    path ← path_at filename
    dir ← directory M.as_fs dfd
    result ← on_host (λ host. M.fs_open_file host dir path M.file_flags.o_rdonly mode)
    file ← or_no_entry result
    on_host (λ host. (tt, M.file_close host file))
    pure 0

  unfoldable pub open_path : ℕ → ℕ → ℕ → Exec M ℕ
  unfolding path_at or_open_error install to_file_flag
  open_path filename flags mode = do
    path ← path_at filename
    result ← on_host (λ host. M.open_file host path (to_file_flag M.file_flags flags) mode)
    file ← or_open_error result
    install file flags

  unfoldable pub openat : ℕ → ℕ → ℕ → ℕ → Exec M ℕ
  unfolding path_at directory or_open_error install to_file_flag
  openat dfd filename flags mode = do
    path ← path_at filename
    dir ← directory M.as_fs dfd
    result ← on_host (λ host. M.fs_open_file host dir path (to_file_flag M.file_flags flags) mode)
    file ← or_open_error result
    install file flags

  -- `dbg.GetFS().(filesystem.ReadlinkFS)` panics where the file system is none.
  own_directory : Exec M M.Fs
  own_directory = do
    dir ← gets (λ s. M.get_fs s.host)
    if M.fs_has_readlink dir then pure dir else panic

  unfoldable pub link_directory : ℕ → Exec M M.Fs
  unfolding directory own_directory
  link_directory dfd = if dfd == at_fdcwd then own_directory else directory M.as_readlink_fs dfd

  -- The result of the write to memory is not looked at.
  unfoldable pub readlinkat : ℕ → ℕ → ℕ → ℕ → Exec M ℕ
  unfolding path_at link_directory
  readlinkat dfd filename buf bufsiz = do
    path ← path_at filename
    dir ← link_directory dfd
    result ← on_host (λ host. M.readlink host dir path)
    link ← or_fail einval result
    let size = min (length link) bufsiz
    on_memory (λ memory. M.write_ptr memory buf (take size link))
    pure size
