-- ===== src/Io/Moves.antt =====
-- `io.Copy` and `io.CopyN` between a source and a sink that report no error.
use microdbg_linux.Base.{ℕ, suc, ◌<◌, ◌≤◌, ◌≡◌, refl, ap, ◌∙◌, min, arith, List, ◌++◌, leb}
use microdbg_linux.Base.{Bool, if◌then◌else◌}
use microdbg_linux.Base.Lists.{length, take}
use microdbg_linux.Machine.{End}
use microdbg_linux.Io.{moved, error, finished, copy_n_result}
use microdbg_linux.Io.{section_limit, reader_limit, copy_loop, copy, copy_n}
use microdbg_linux.Io.Total.{IsPipe, copy_loop-Done}

copy_n_result-finished :
    (n len : ℕ)
    → n < 9223372036854775808
    → copy_n_result n (min n len) finished ≡ (if leb n len then moved n else error)
copy_n_result-finished n len small = ground arith

reader_limit-small : (n : ℕ) → n < 9223372036854775808 → reader_limit n ≡ n
reader_limit-small n small = ground arith

module _ {S : Type 0} (rd : ℕ → ℕ → S → (List ℕ × End) × S) (wr : ℕ → List ℕ → S → (ℕ × Bool) × S)
    (room : ℕ) (pipe : IsPipe rd wr room) where
  open pipe use {Ready, pending, stored, starts}

  whole :
      (n : ℕ) (s : S)
      → Ready s
      → n ≤ room
      → let c = copy_loop rd wr (suc n) n 0 s in
        (c.status ≡ finished)
        × (c.written ≡ min n (length (pending 0 s)))
        × (stored (min n (length (pending 0 s))) c.after ≡ take n (pending 0 s))
  whole n s ready fits =
      let (f, c, t) =
        copy_loop-Done rd wr room pipe (suc n) n 0 s ready (omega arith) (omega arith) in
      let last = copy_loop rd wr (suc n) n 0 s in
      let c' : last.written ≡ min n (length (pending 0 s)) = omega (arith, c) in
      (f, c', rw (← c') (t ∙ ap (λ zs. zs ++ take n (pending 0 s)) (starts s)))

  -- `io.CopyN` of a positive `int64` within the room moves the first `n` bytes, and reports an error exactly when
  -- the source has fewer: then all that it has is in the sink nevertheless.
  pub copy_n-moves :
      (n : ℕ) (s : S)
      → n < 9223372036854775808
      → Ready s
      → n ≤ room
      → let r = copy_n rd wr n s in
        (r.0 ≡ (if leb n (length (pending 0 s)) then moved n else error))
        × (stored (min n (length (pending 0 s))) r.1 ≡ take n (pending 0 s))
  unfolding copy_n
  copy_n-moves n s small ready fits =
      let (f, c, t) = whole n s ready fits in
      rw (reader_limit-small n small, f, c, t)
        (copy_n_result-finished n (length (pending 0 s)) small, refl)

  -- `io.Copy` of a section within the room moves what the section and the source have, and reports how much.
  pub copy-moves :
      (n : ℕ) (s : S)
      → Ready s
      → section_limit n ≤ room
      → let m = section_limit n in
        let r = copy rd wr n s in
        (r.0 ≡ moved (min m (length (pending 0 s))))
        × (stored (min m (length (pending 0 s))) r.1 ≡ take m (pending 0 s))
  unfolding copy
  copy-moves n s ready fits =
      let (f, c, t) = whole (section_limit n) s ready fits in rw (f, c, t) (refl, refl)
