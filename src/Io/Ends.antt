-- ===== src/Io/Ends.antt =====
-- Copies end, whatever errors they meet, when each read that reports no end gives a byte or more.
use microdbg_linux.Base.{ℕ, zero, suc, ◌<◌, arith, Bool, true, false, List, [], ◌∷◌}
use microdbg_linux.Base.{◌==◌, if◌then◌else◌}
use microdbg_linux.Base.Lists.{length}
use microdbg_linux.Base.Word.{is_negative}
use microdbg_linux.Machine.{End, more, at_eof, broken}
use microdbg_linux.Io.{Status, finished, broke, unfinished, Copied, Moved, moved, error, endless}
use microdbg_linux.Io.{after_write, round, copy_loop, section_limit, reader_limit}
use microdbg_linux.Io.{copy_result, copy_n_result, copy, copy_n}

-- `io.Reader`: a read of a byte or more gives one, the end or an error.
abbrev pub Advances : List ℕ × End → Type 0
Advances (bs, more) = 0 < length bs
Advances (bs, at_eof) = Unit
Advances (bs, broken) = Unit

abbrev pub IsEnding : Status → Type 0
IsEnding unfinished = ⊥
IsEnding _ = Unit

abbrev pub IsMoved : Moved → Type 0
IsMoved endless = ⊥
IsMoved _ = Unit

IsMoved-if : (b : Bool) (x y : Moved) → IsMoved x → IsMoved y → IsMoved (if b then x else y)
IsMoved-if true x y hx hy = hx
IsMoved-if false x y hx hy = hy

copy_result-IsMoved : (n : ℕ) (st : Status) → IsEnding st → IsMoved (copy_result n st)
copy_result-IsMoved n finished h = tt
copy_result-IsMoved n broke h = tt
copy_result-IsMoved n unfinished h = h

copy_n_result-IsMoved : (n w : ℕ) (st : Status) → IsEnding st → IsMoved (copy_n_result n w st)
copy_n_result-IsMoved n w finished h =
    IsMoved-if (w == n) (moved n) (if is_negative n then moved w else error) tt
      (IsMoved-if (is_negative n) (moved w) error tt tt)
copy_n_result-IsMoved n w broke h = IsMoved-if (w == n) (moved n) error tt tt
copy_n_result-IsMoved n w unfinished h = h

module _ {S : Type 0} (rd : ℕ → ℕ → S → (List ℕ × End) × S) (wr : ℕ → List ℕ → S → (ℕ × Bool) × S)
    (advances : (off n : ℕ) (s : S) → 0 < n → Advances (rd off n s).0) where
  written-IsEnding :
      (b : Bool) (off : ℕ) (s : S) (good : Copied S)
      → IsEnding good.status
      → IsEnding (if b then good else record { written = off; status = broke; after = s }).status
  written-IsEnding true off s good h = h
  written-IsEnding false off s good h = tt

  after_write-IsEnding :
      (n w : ℕ) (ok : Bool) (e : End) (off : ℕ) (s : S) (rest : Copied S)
      → IsEnding rest.status
      → IsEnding (after_write rd wr n w ok e off s rest).status
  after_write-IsEnding n w false e off s rest h = tt
  after_write-IsEnding n w true more off s rest h = written-IsEnding (w == n) off s rest h
  after_write-IsEnding n w true at_eof off s rest h = written-IsEnding (w == n) off s _ tt
  after_write-IsEnding n w true broken off s rest h = tt

  round-IsEnding :
      (left off : ℕ) (go : ℕ → ℕ → S → Copied S) (r : (List ℕ × End) × S)
      → Advances r.0
      → ((l o : ℕ) (s : S) → l < left → IsEnding (go l o s).status)
      → 0 < left
      → IsEnding (round rd wr left off go r).status
  round-IsEnding left off go (([], more), s) h ih some_left = absurd (omega arith)
  round-IsEnding left off go (([], at_eof), s) h ih some_left = tt
  round-IsEnding left off go (([], broken), s) h ih some_left = tt
  round-IsEnding left off go ((b ∷ bs, e), s) h ih some_left =
      after_write-IsEnding _ _ _ e _ _ _ (ih _ _ _ (omega arith))

  copy_loop-IsEnding :
      (fuel left off : ℕ) (s : S) → left < fuel → IsEnding (copy_loop rd wr fuel left off s).status
  unfolding copy_loop
  copy_loop-IsEnding zero left off s h = absurd (omega arith)
  copy_loop-IsEnding (suc fuel) zero off s h = tt
  copy_loop-IsEnding (suc fuel) (suc left) off s h =
      round-IsEnding (suc left) off (copy_loop rd wr fuel) _ (advances off _ s (omega arith))
        (λ l o s' lt. copy_loop-IsEnding fuel l o s' (omega arith)) (omega arith)

  pub copy_n-IsMoved : (n : ℕ) (s : S) → IsMoved (copy_n rd wr n s).0
  unfolding copy_n
  copy_n-IsMoved n s =
      copy_n_result-IsMoved n _ _ (copy_loop-IsEnding _ (reader_limit n) 0 s (omega arith))

  pub copy-IsMoved : (n : ℕ) (s : S) → IsMoved (copy rd wr n s).0
  unfolding copy
  copy-IsMoved n s =
      copy_result-IsMoved _ _ (copy_loop-IsEnding _ (section_limit n) 0 s (omega arith))
