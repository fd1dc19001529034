-- ===== src/Fcntl/Vector.antt =====
-- `writev` of kernel/fcntl.go against `write`.
use microdbg_linux.Base.{ℕ, ◌≡◌, refl, true, some, List, [], ◌∷◌, ltb}
use microdbg_linux.Base.Word.{add64}
use microdbg_linux.Machine.{Machine}
use microdbg_linux.Errno.{eio}
use microdbg_linux.Exec.{State, Exec, pure, ◌>>=◌, continue}
use microdbg_linux.Io.{Moved, moved, error, endless, copy}
use microdbg_linux.Fcntl.Transfer.{
  Iovec, filled, iovec_kinds, memory_source, file_sink, or_moved, write, write_all, writev,
}
use microdbg_linux.Fcntl.Moves.{sides, write-moved}

module _ {M : Machine} (fd : ℕ) where
  -- One `write` for each buffer, up to the first that does not return; `n` is the sum so far.
  unfoldable pub in_turn : List Iovec → ℕ → Exec M ℕ
  in_turn [] n = pure n
  in_turn (v ∷ rest) n = do m ← write fd v.iov_base v.iov_len; in_turn rest (add64 n m)

module _ {M : Machine} (fd : ℕ) (file : M.File) (writer : M.is_writer file ≡ true) where
  -- What follows the copy of one buffer.
  rest-in_turn :
      (f g : ℕ → Exec M ℕ) (r : Moved) (s : State M)
      → ((m : ℕ) → f m s ≡ g m s)
      → continue (or_moved eio r s).0 f (or_moved eio r s).1
        ≡ continue (or_moved eio r s).0 g (or_moved eio r s).1
  unfolding or_moved ◌>>=◌
  rest-in_turn f g (moved m) s same = same m
  rest-in_turn f g error s same = refl
  rest-in_turn f g endless s same = refl

  write_all-in_turn :
      (vs : List Iovec) (n : ℕ) (s : State M)
      → M.get_file s.files fd ≡ some file
      → write_all file vs n s ≡ in_turn fd vs n s
  unfolding write_all in_turn ◌>>=◌
  write_all-in_turn [] n s found = refl
  write_all-in_turn (v ∷ rest) n s found =
      let r = copy (memory_source M v.iov_base) (file_sink M file) v.iov_len (sides s) in
      let x : State M = record s { host = r.1.0; memory = r.1.1 } in
      rw (write-moved fd v.iov_base v.iov_len file s found writer) (
        rest-in_turn (λ m. write_all file rest (add64 n m)) (λ m. in_turn fd rest (add64 n m)) r.0 x
          (λ m. write_all-in_turn rest (add64 n m) x found))

  -- A `writev` on a descriptor of a file open for writing, of a count that is not negative, is one
  -- `write` for each buffer of the array in its order, up to the first that fails or does not
  -- return: the same outcome, with the sum of their counts, and the same state behind it. The array
  -- has as many buffers as the count says, a word for the base and an `int` for the length of each,
  -- and those that could not be read are empty.
  pub writev-in_turn :
      (iov iovcnt : ℕ) (s : State M)
      → M.get_file s.files fd ≡ some file
      → ltb iovcnt 2147483648 ≡ true
      → let values = M.extract_into s.memory iov (iovec_kinds iovcnt) in
        writev fd iov iovcnt s ≡ in_turn fd (filled iovcnt values) 0 s
  unfolding writev ◌>>=◌
  writev-in_turn iov iovcnt s found small =
      rw (found, writer, small) (write_all-in_turn (filled iovcnt _) 0 s found)
