-- ===== src/Fcntl/Transfer.antt =====
-- kernel/fcntl.go: the calls that move bytes, `lseek`, `read`, `write` and `writev`.
use microdbg_linux.Base.{ℕ, zero, suc, Bool, List, [], ◌∷◌, ltb, if◌then◌else◌}
use microdbg_linux.Base.Word.{add64}
use microdbg_linux.Machine.{Machine, Kind, End}
use microdbg_linux.Io.{Moved, moved, error, endless, copy, copy_n}
use microdbg_linux.Errno.{Errno, ebadf, eintr, einval, eio}
use microdbg_linux.Exec.{Exec, pure, fail, panic, stall, or_fail, guard, gets}
use microdbg_linux.Exec.{on_host, on_host_memory, ◌>>=◌, ◌>>◌}

-- The memory and the files, which a copy changes.
abbrev pub Sides : Machine → Type 0
Sides M = M.Host × M.Memory

-- `iovec`
pub record Iovec : Type 0 where
  pub iov_base : ℕ
  pub iov_len : ℕ

abbrev pub zero_iovec : Iovec
zero_iovec = record { iov_base = 0; iov_len = 0 }

abbrev pub iovec_kinds : ℕ → List Kind
iovec_kinds zero = []
iovec_kinds (suc n) = Kind.uintptr ∷ Kind.int ∷ iovec_kinds n

-- The array of `make`, in which `MemExtract` has stored these fields; what it has not reached is zero.
abbrev pub filled : ℕ → List ℕ → List Iovec
filled zero values = []
filled (suc n) (base ∷ len ∷ rest) = record { iov_base = base; iov_len = len } ∷ filled n rest
filled (suc n) (base ∷ []) = record { iov_base = base; iov_len = 0 } ∷ filled n []
filled (suc n) [] = zero_iovec ∷ filled n []

module _ (M : Machine) where
  -- A file, and a pointer into the emulated memory, as the source and the sink of a copy.
  abbrev pub file_source : M.File → ℕ → ℕ → Sides M → (List ℕ × End) × Sides M
  file_source file off n (host, memory) =
      let (r, host') = M.read_file host file n in (r, (host', memory))

  abbrev pub file_sink : M.File → ℕ → List ℕ → Sides M → (ℕ × Bool) × Sides M
  file_sink file off bs (host, memory) =
      let (r, host') = M.write_file host file bs in (r, (host', memory))

  abbrev pub memory_source : ℕ → ℕ → ℕ → Sides M → (List ℕ × End) × Sides M
  memory_source ptr off n (host, memory) = (M.read_at memory (add64 ptr off) n, (host, memory))

  abbrev pub memory_sink : ℕ → ℕ → List ℕ → Sides M → (ℕ × Bool) × Sides M
  memory_sink ptr off bs (host, memory) =
      let (r, memory') = M.write_at memory (add64 ptr off) bs in (r, (host, memory'))

module _ {M : Machine} where
  -- The result of a copy: the count, or the error number that the caller reports.
  unfoldable pub or_moved : Errno → Moved → Exec M ℕ
  or_moved e (moved n) = pure n
  or_moved e error = fail e
  or_moved e endless = stall

  abbrev pub on_sides : (Sides M → Moved × Sides M) → Exec M Moved
  on_sides f = on_host_memory (λ host memory. let (r, (h, m)) = f (host, memory) in (r, h, m))

  unfoldable pub lseek : ℕ → ℕ → ℕ → Exec M ℕ
  lseek fd offset whence = do
    found ← gets (λ s. M.get_file s.files fd)
    file ← or_fail ebadf found
    guard (M.is_seeker file) einval
    result ← on_host (λ host. M.seek host file offset whence)
    or_fail einval result

  unfoldable pub read : ℕ → ℕ → ℕ → Exec M ℕ
  unfolding or_moved copy_n
  read fd buf count = do
    found ← gets (λ s. M.get_file s.files fd)
    file ← or_fail ebadf found
    guard (M.is_reader file) eintr
    result ← on_sides (copy_n (file_source M file) (memory_sink M buf) count)
    or_moved eio result

  unfoldable pub write : ℕ → ℕ → ℕ → Exec M ℕ
  unfolding or_moved copy
  write fd buf count = do
    found ← gets (λ s. M.get_file s.files fd)
    file ← or_fail ebadf found
    guard (M.is_writer file) eintr
    result ← on_sides (copy (memory_source M buf) (file_sink M file) count)
    or_moved eio result

  -- The loop over the array; `n` is the sum so far.
  unfoldable pub write_all : M.File → List Iovec → ℕ → Exec M ℕ
  unfolding or_moved copy
  write_all file [] n = pure n
  write_all file (v ∷ rest) n = do
    result ← on_sides (copy (memory_source M v.iov_base) (file_sink M file) v.iov_len)
    m ← or_moved eio result
    write_all file rest (add64 n m)

  -- `make` panics on a negative length.
  unfoldable pub writev : ℕ → ℕ → ℕ → Exec M ℕ
  unfolding write_all
  writev fd iov iovcnt = do
    found ← gets (λ s. M.get_file s.files fd)
    file ← or_fail ebadf found
    guard (M.is_writer file) eintr
    if ltb iovcnt 2147483648 then pure tt else panic
    values ← gets (λ s. M.extract_into s.memory iov (iovec_kinds iovcnt))
    write_all file (filled iovcnt values) 0
