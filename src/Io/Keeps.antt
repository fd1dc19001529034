-- ===== src/Io/Keeps.antt =====
-- What neither side of a copy changes, the copy does not change.
use microdbg_linux.Base.{ℕ, zero, suc, Bool, true, false, List, [], ◌∷◌, ◌==◌, if◌then◌else◌}
use microdbg_linux.Machine.{End, more, at_eof, broken}
use microdbg_linux.Io.{Copied, after_write, wrote, round, copy_loop, reader_limit, copy_n}

module _ {S : Type 0} (rd : ℕ → ℕ → S → (List ℕ × End) × S) (wr : ℕ → List ℕ → S → (ℕ × Bool) × S)
    (Holds : S → Type 0) (read : (off n : ℕ) (s : S) → Holds s → Holds (rd off n s).1)
    (write : (off : ℕ) (bs : List ℕ) (s : S) → Holds s → Holds (wr off bs s).1) where
  if-Holds :
      (b : Bool) (x y : Copied S) → Holds x.after → Holds y.after → Holds (if b then x else y).after
  if-Holds true x y hx hy = hx
  if-Holds false x y hx hy = hy

  after_write-Holds :
      (n w : ℕ) (ok : Bool) (e : End) (off : ℕ) (s : S) (rest : Copied S)
      → Holds s
      → Holds rest.after
      → Holds (after_write rd wr n w ok e off s rest).after
  after_write-Holds n w false e off s rest h hr = h
  after_write-Holds n w true more off s rest h hr = if-Holds (w == n) _ _ hr h
  after_write-Holds n w true at_eof off s rest h hr = if-Holds (w == n) _ _ h h
  after_write-Holds n w true broken off s rest h hr = h

  wrote-Holds :
      (left off n : ℕ) (e : End) (go : ℕ → ℕ → S → Copied S) (r : (ℕ × Bool) × S)
      → Holds r.1
      → ((l o : ℕ) (s : S) → Holds s → Holds (go l o s).after)
      → Holds (wrote rd wr left off n e go r).after
  wrote-Holds left off n e go ((w, ok), s) h ih = after_write-Holds n w ok e _ s _ h (ih _ _ s h)

  round-Holds :
      (left off : ℕ) (go : ℕ → ℕ → S → Copied S) (r : (List ℕ × End) × S)
      → Holds r.1
      → ((l o : ℕ) (s : S) → Holds s → Holds (go l o s).after)
      → Holds (round rd wr left off go r).after
  round-Holds left off go (([], more), s) h ih = ih left off s h
  round-Holds left off go (([], at_eof), s) h ih = h
  round-Holds left off go (([], broken), s) h ih = h
  round-Holds left off go ((b ∷ bs, e), s) h ih =
      wrote-Holds left off _ e go (wr off (b ∷ bs) s) (write off (b ∷ bs) s h) ih

  copy_loop-Holds :
      (fuel left off : ℕ) (s : S) → Holds s → Holds (copy_loop rd wr fuel left off s).after
  unfolding copy_loop
  copy_loop-Holds zero left off s h = h
  copy_loop-Holds (suc fuel) zero off s h = h
  copy_loop-Holds (suc fuel) (suc left) off s h =
      round-Holds (suc left) off (copy_loop rd wr fuel) _ (read off _ s h) (copy_loop-Holds fuel)

  pub copy_n-Holds : (n : ℕ) (s : S) → Holds s → Holds (copy_n rd wr n s).1
  unfolding copy_n
  copy_n-Holds n s h = copy_loop-Holds _ (reader_limit n) 0 s h
