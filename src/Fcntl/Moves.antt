-- ===== src/Fcntl/Moves.antt =====
-- What `read` and `write` of kernel/fcntl.go move between a file and the emulated memory.
use microdbg_linux.Base.{ℕ, ◌<◌, ◌≡◌, refl, true, some, leb, min, arith}
use microdbg_linux.Base.{if◌then◌else◌, Bool-cases, inl, inr}
use microdbg_linux.Base.Lists.{length, take}
use microdbg_linux.Machine.{Machine}
use microdbg_linux.Errno.{eio, code}
use microdbg_linux.Exec.{State, done, failed, ◌>>=◌}
use microdbg_linux.Io.{section_limit, copy, copy_n}
use microdbg_linux.Io.Total.{IsPipe}
use microdbg_linux.Io.Moves.{copy_n-moves, copy-moves}
use microdbg_linux.Fcntl.Transfer.{
  file_source, memory_sink, memory_source, file_sink, read, write, or_moved, Sides,
}

module _ {M : Machine} where
  abbrev pub sides : State M → Sides M
  sides s = (s.host, s.memory)

  read-moved :
      (fd buf count : ℕ) (file : M.File) (s : State M)
      → M.get_file s.files fd ≡ some file
      → M.is_reader file ≡ true
      → let r = copy_n (file_source M file) (memory_sink M buf) count (sides s) in
        read fd buf count s ≡ or_moved eio r.0 (record s { host = r.1.0; memory = r.1.1 })
  unfolding read ◌>>=◌
  read-moved fd buf count file s found reader = ground arith

  pub write-moved :
      (fd buf count : ℕ) (file : M.File) (s : State M)
      → M.get_file s.files fd ≡ some file
      → M.is_writer file ≡ true
      → let r = copy (memory_source M buf) (file_sink M file) count (sides s) in
        write fd buf count s ≡ or_moved eio r.0 (record s { host = r.1.0; memory = r.1.1 })
  unfolding write ◌>>=◌
  write-moved fd buf count file s found writer = ground arith

  module _ (fd buf count : ℕ) (file : M.File) (s : State M) where
    -- Between a file open for reading and a region of memory that report no error on the first `count`
    -- bytes, `read` of a positive `int64` returns, and at the buffer stand then the first `count` bytes
    -- of the file, however the file cuts them; it returns the count where the file has that many, and
    -- else fails with EIO though all that the file has is stored.
    pub read-stores :
        (pipe : IsPipe (file_source M file) (memory_sink M buf) count)
        → M.get_file s.files fd ≡ some file
        → M.is_reader file ≡ true
        → count < 9223372036854775808
        → pipe.Ready (sides s)
        → let bs = pipe.pending 0 (sides s) in
          let r = read fd buf count s in
          (pipe.stored (min count (length bs)) (sides r.1) ≡ take count bs)
          × (r.0 ≡ (if leb count (length bs) then done count else failed))
          × (r.1.errno ≡ (if leb count (length bs) then s.errno else code eio))
    unfolding or_moved ◌>>=◌
    read-stores pipe found reader small ready =
        let (result, kept) =
          copy_n-moves _ _ count pipe count (sides s) small ready (omega arith) in
        elim (Bool-cases (leb count (length (pipe.pending 0 (sides s))))) [
          | inl e ↦ rw (read-moved fd buf count file s found reader, result, e) (kept, refl, refl)
          | inr e ↦ rw (read-moved fd buf count file s found reader, result, e) (kept, refl, refl)
        ]

    -- Between a region of memory and a file open for writing that report no error on the bytes asked
    -- for, `write` returns how many of these the memory has, they are what the file has taken, and the
    -- error number is as before; `count` bytes are asked for, and all where `count` is negative.
    pub write-stores :
        (pipe : IsPipe (memory_source M buf) (file_sink M file) (section_limit count))
        → M.get_file s.files fd ≡ some file
        → M.is_writer file ≡ true
        → pipe.Ready (sides s)
        → let bs = pipe.pending 0 (sides s) in
          let n = section_limit count in
          let r = write fd buf count s in
          (pipe.stored (min n (length bs)) (sides r.1) ≡ take n bs)
          × (r.0 ≡ done (min n (length bs)))
          × (r.1.errno ≡ s.errno)
    unfolding or_moved ◌>>=◌
    write-stores pipe found writer ready =
        let limit : ℕ = section_limit count in
        let (result, kept) = copy-moves _ _ limit pipe count (sides s) ready (omega arith) in
        rw (write-moved fd buf count file s found writer, result) (kept, refl, refl)
