-- ===== src/Services/Mman.antt =====
-- kernel/mman.go: `mmap`, `mmap2`, `munmap` and `mprotect`.
use microdbg_linux.Base.{
  ℕ, zero, suc, ◌-◌, not, ◌&&◌, ◌||◌, Option, none, some, ltb, ◌==◌, if◌then◌else◌,
}
use microdbg_linux.Base.Lists.{length}
use microdbg_linux.Base.Word.{extend, has_bits, is_negative, mul64}
use microdbg_linux.Machine.{Machine, End, more, at_eof, broken}
use microdbg_linux.Io.{Moved, moved, error, endless, copy_n}
use microdbg_linux.Errno.{ebadf, einval, enodev}
use microdbg_linux.Exec.{Exec, pure, fail, panic, stall, or_fail, guard, gets}
use microdbg_linux.Exec.{on_memory, on_host, ◌>>=◌, ◌>>◌}
use microdbg_linux.Fcntl.Transfer.{file_source, memory_sink, or_moved, on_sides}

abbrev pub page_size : ℕ
page_size = 4096

abbrev pub map_fixed : ℕ
map_fixed = 0x10

abbrev pub map_anonymous : ℕ
map_anonymous = 0x20

module _ (M : Machine) where
  -- `io.ReadFull` of `left` bytes, which are thrown away. A round reads a byte or more, unless the
  -- file gives none and reports no error.
  abbrev pub after_read : ℕ → End → M.Host → Moved × M.Host → Moved × M.Host
  after_read zero e host rest = (moved 0, host)
  after_read (suc left) more host rest = rest
  after_read (suc left) at_eof host rest = (error, host)
  after_read (suc left) broken host rest = (error, host)

  unfoldable pub read_full : ℕ → M.File → ℕ → M.Host → Moved × M.Host
  read_full zero file left host = (endless, host)
  read_full (suc fuel) file zero host = (moved 0, host)
  read_full (suc fuel) file (suc left) host =
      let ((bs, e), host') = M.read_file host file (suc left) in
      let rest = read_full fuel file (suc left - length bs) host' in
      after_read (suc left - length bs) e host' rest

module _ {M : Machine} where
  -- The move to `offset`: by `Seek` from the start, or by reading. `make` panics on a length
  -- that is negative or too large.
  unfoldable pub skip_to : M.File → ℕ → Exec M (Unit {0})
  unfolding read_full or_moved
  skip_to file offset =
      if offset == 0
      then pure tt
      else if M.is_seeker file
      then (do result ← on_host (λ host. M.seek host file offset 0); or_fail enodev result; pure tt)
      else if is_negative offset || not (M.makes offset)
      then panic
      else do
        result ← on_host (read_full M (suc offset) file offset)
        or_moved enodev result
        pure tt

  -- The file to map, or `nil`.
  unfoldable pub source_of : ℕ → ℕ → ℕ → Exec M (Option M.File)
  unfolding skip_to
  source_of flags fd offset =
      if not (has_bits flags map_anonymous) && ltb fd 2147483648
      then (do
        found ← gets (λ s. M.get_file s.files (extend fd))
        file ← or_fail ebadf found
        guard (M.is_read_file file) enodev
        skip_to file offset
        pure (some file))
      else pure none

  -- The address of the new region. The result of `MemUnmap` is not looked at.
  unfoldable pub region : ℕ → ℕ → ℕ → ℕ → Exec M ℕ
  region addr len prot flags =
      if has_bits flags map_fixed
      then (do
        on_memory (λ memory. M.mem_unmap memory addr len)
        mapped ← on_memory (λ memory. M.mem_map memory addr len prot)
        or_fail einval mapped)
      else do mapped ← on_memory (λ memory. M.map_alloc memory len prot); or_fail einval mapped

  -- The branches behind `io.CopyN`.
  unfoldable pub or_unmap : ℕ → ℕ → Moved → Exec M ℕ
  or_unmap addr len (moved n) = pure addr
  or_unmap addr len error = do on_memory (λ memory. M.map_free memory addr len); fail enodev
  or_unmap addr len endless = stall

  unfoldable pub load : ℕ → ℕ → Option M.File → Exec M ℕ
  unfolding or_unmap copy_n
  load addr len none = pure addr
  load addr len (some file) = do
    result ← on_sides (copy_n (file_source M file) (memory_sink M addr) len)
    or_unmap addr len result

  unfoldable pub mmap : ℕ → ℕ → ℕ → ℕ → ℕ → ℕ → Exec M ℕ
  unfolding source_of region load
  mmap addr len prot flags fd offset = do
    source ← source_of flags fd offset
    base ← region addr len prot flags
    load base len source

  unfoldable pub mmap2 : ℕ → ℕ → ℕ → ℕ → ℕ → ℕ → Exec M ℕ
  unfolding mmap
  mmap2 addr len prot flags fd count = mmap addr len prot flags fd (mul64 count page_size)

  unfoldable pub munmap : ℕ → ℕ → Exec M ℕ
  munmap addr len = do
    ok ← on_memory (λ memory. M.map_free memory addr len)
    guard ok einval
    pure 0

  unfoldable pub mprotect : ℕ → ℕ → ℕ → Exec M ℕ
  mprotect start len prot = do
    ok ← on_memory (λ memory. M.mem_protect memory start len prot)
    guard ok einval
    pure 0
