-- ===== src/Syscall/Copying.antt =====
-- The handlers of kernel/fcntl.go, kernel/mman.go and kernel/random.go that copy come back, when each
-- read that reports no end gives a byte or more.
use microdbg_linux.Base.{ℕ, zero, suc, ◌-◌, ◌<◌, arith, List, [], ◌∷◌, Option, none, some}
use microdbg_linux.Base.Lists.{length}
use microdbg_linux.Machine.{Machine, End, more, at_eof, broken}
use microdbg_linux.Errno.{Errno}
use microdbg_linux.Base.Word.{add64}
use microdbg_linux.Exec.{Exec, on_host, ◌>>=◌}
use microdbg_linux.Syscall.Discipline.{Obeys, obey_rules, Obeys-pure, Obeys-fail}
use microdbg_linux.Io.{Moved, moved, error, copy, copy_n}
use microdbg_linux.Io.Ends.{Advances, IsMoved, copy_n-IsMoved, copy-IsMoved}
use microdbg_linux.Fcntl.Transfer.{
  Iovec, file_source, file_sink, memory_source, memory_sink, or_moved, on_sides, read, write,
  write_all, writev,
}
use microdbg_linux.Services.Mman.{
  after_read, read_full, skip_to, source_of, or_unmap, load, mmap, mmap2,
}
use microdbg_linux.Services.Random.{random_source, getrandom}
use microdbg_linux.Services.Obeys.{region-Obeys}
use microdbg_linux.Syscall.Ending.{IsProgressing, ending, copied-Obeys, host_copied-Obeys}

module _ {M : Machine} (law : IsProgressing M) where
  or_moved-Ends : (e : Errno) (n : ℕ) → Obeys ending (or_moved {M = M} e (moved n))
  unfolding or_moved
  or_moved-Ends e n = Obeys-pure ending n

  error-Ends : (e : Errno) → Obeys ending (or_moved {M = M} e error)
  unfolding or_moved
  error-Ends e = Obeys-fail ending e

  into_memory-Ends :
      {A : Type 0} (file : M.File) (buf count : ℕ) (k : Moved → Exec M A)
      → ((n : ℕ) → Obeys ending (k (moved n)))
      → Obeys ending (k error)
      → Obeys ending (on_sides (copy_n (file_source M file) (memory_sink M buf) count) >>= k)
  into_memory-Ends file buf count k hm he =
      copied-Obeys (copy_n (file_source M file) (memory_sink M buf) count) k
        (copy_n-IsMoved (file_source M file) (memory_sink M buf)
          (λ off n x. law.file_reads x.0 file n) count)
        hm he

  into_file-Ends :
      {A : Type 0} (file : M.File) (buf count : ℕ) (k : Moved → Exec M A)
      → ((n : ℕ) → Obeys ending (k (moved n)))
      → Obeys ending (k error)
      → Obeys ending (on_sides (copy (memory_source M buf) (file_sink M file) count) >>= k)
  into_file-Ends file buf count k hm he =
      copied-Obeys (copy (memory_source M buf) (file_sink M file) count) k
        (copy-IsMoved (memory_source M buf) (file_sink M file)
          (λ off n x. law.memory_reads x.1 (add64 buf off) n) count)
        hm he

  random_to_memory-Ends :
      {A : Type 0} (buf count : ℕ) (k : Moved → Exec M A)
      → ((n : ℕ) → Obeys ending (k (moved n)))
      → Obeys ending (k error)
      → Obeys ending (on_sides (copy_n (random_source M) (memory_sink M buf) count) >>= k)
  random_to_memory-Ends buf count k hm he =
      copied-Obeys (copy_n (random_source M) (memory_sink M buf) count) k
        (copy_n-IsMoved (random_source M) (memory_sink M buf) (λ off n x. law.random_reads x.0 n)
          count)
        hm he

  after_read-IsMoved :
      (left : ℕ) (bs : List ℕ) (e : End) (host : M.Host) (rest : Moved × M.Host)
      → Advances (bs, e)
      → (0 < length bs → IsMoved rest.0)
      → IsMoved (after_read M left e host rest).0
  after_read-IsMoved zero bs e host rest h ih = tt
  after_read-IsMoved (suc left) bs more host rest h ih = ih h
  after_read-IsMoved (suc left) bs at_eof host rest h ih = tt
  after_read-IsMoved (suc left) bs broken host rest h ih = tt

  read_full-IsMoved :
      (fuel : ℕ) (file : M.File) (left : ℕ) (host : M.Host)
      → left < fuel
      → IsMoved (read_full M fuel file left host).0
  unfolding read_full
  read_full-IsMoved zero file left host h = absurd (omega arith)
  read_full-IsMoved (suc fuel) file zero host h = tt
  read_full-IsMoved (suc fuel) file (suc left) host h =
      let r : (List ℕ × End) × M.Host = M.read_file host file (suc left) in
      after_read-IsMoved (suc left - length r.0.0) r.0.0 r.0.1 r.1 _
        (law.file_reads host file (suc left) (omega arith))
        λ some_bytes. read_full-IsMoved fuel file (suc left - length r.0.0) r.1 (omega arith)

  read_past-Ends :
      {A : Type 0} (file : M.File) (offset : ℕ) (k : Moved → Exec M A)
      → ((n : ℕ) → Obeys ending (k (moved n)))
      → Obeys ending (k error)
      → Obeys ending (on_host (read_full M (suc offset) file offset) >>= k)
  read_past-Ends file offset k hm he =
      host_copied-Obeys (read_full M (suc offset) file offset) k
        (λ host. read_full-IsMoved (suc offset) file offset host (omega arith)) hm he

ruleset end_rules = (
  into_memory-Ends, into_file-Ends, random_to_memory-Ends, read_past-Ends, or_moved-Ends,
  error-Ends, obey_rules,
)

module _ {M : Machine} (law : IsProgressing M) where
  pub read-Ends : (fd buf count : ℕ) → Obeys ending (read {M = M} fd buf count)
  unfolding read
  read-Ends fd buf count = search end_rules depth 14

  pub write-Ends : (fd buf count : ℕ) → Obeys ending (write {M = M} fd buf count)
  unfolding write
  write-Ends fd buf count = search end_rules depth 14

  write_all-Ends :
      (file : M.File) (vs : List Iovec) (n : ℕ) → Obeys ending (write_all {M = M} file vs n)
  unfolding write_all
  write_all-Ends file [] n = Obeys-pure ending n
  write_all-Ends file (v ∷ vs) n = search (end_rules, write_all-Ends file vs) depth 14

  pub writev-Ends : (fd iov iovcnt : ℕ) → Obeys ending (writev {M = M} fd iov iovcnt)
  unfolding writev
  writev-Ends fd iov iovcnt = search (obey_rules, write_all-Ends) depth 14

  pub getrandom-Ends : (buf count flags : ℕ) → Obeys ending (getrandom {M = M} buf count flags)
  unfolding getrandom
  getrandom-Ends buf count flags = search end_rules depth 14

  skip_to-Ends : (file : M.File) (offset : ℕ) → Obeys ending (skip_to {M = M} file offset)
  unfolding skip_to
  skip_to-Ends file offset = search end_rules depth 14

  pub source_of-Ends : (flags fd offset : ℕ) → Obeys ending (source_of {M = M} flags fd offset)
  unfolding source_of
  source_of-Ends flags fd offset = search (obey_rules, skip_to-Ends) depth 14

  short-Ends : (addr len : ℕ) → Obeys ending (or_unmap {M = M} addr len error)
  unfolding or_unmap
  short-Ends addr len = search obey_rules depth 14

  load-Ends : (addr len : ℕ) (source : Option M.File) → Obeys ending (load {M = M} addr len source)
  unfolding load
  load-Ends addr len none = Obeys-pure ending addr
  load-Ends addr len (some file) = search (end_rules, short-Ends) depth 14

  pub mmap-Ends :
      (addr len prot flags fd offset : ℕ)
      → Obeys ending (mmap {M = M} addr len prot flags fd offset)
  unfolding mmap
  mmap-Ends addr len prot flags fd offset =
      search (obey_rules, source_of-Ends, region-Obeys, load-Ends) depth 14

  pub mmap2-Ends :
      (addr len prot flags fd count : ℕ) → Obeys ending (mmap2 {M = M} addr len prot flags fd count)
  unfolding mmap2
  mmap2-Ends addr len prot flags fd count = mmap-Ends addr len prot flags fd _
