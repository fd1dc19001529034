-- ===== src/Io.antt =====
-- `io.Copy` and `io.CopyN` of Go's standard library, as kernel/fcntl.go, kernel/mman.go and
-- kernel/random.go use them: a copy between a file value and a section of the emulated memory.
-- The loop is the library's `copyBuffer`; `left` counts what the `io.LimitedReader` or the
-- `io.SectionReader` in front of the source still lets through, and `off` the bytes written.
pub mod Total
pub mod Ends
pub mod Keeps
pub mod Moves
use microdbg_linux.Base.Word.{is_negative}
use microdbg_linux.Base.{
  ℕ, zero, suc, ◌+◌, ◌-◌, Bool, true, false, List, [], ◌∷◌, min, ltb, ◌==◌, if◌then◌else◌,
}
use microdbg_linux.Base.Lists.{length}
use microdbg_linux.Machine.{End, more, at_eof, broken}

-- 32 * 1024, the size of the buffer.
abbrev pub buffer_size : ℕ
buffer_size = 32768

-- How a copy ends: at the end of the source, by an error of either side, or not at all within the
-- fuel.
pub data Status : Type 0 where
  finished broke unfinished : Status

pub record Copied (S : Type 0) : Type 0 where
  pub written : ℕ
  pub status : Status
  pub after : S

-- A source is read at an offset, a sink is written at an offset; a file has its own position and
-- looks at none.
module _ {S : Type 0} (rd : ℕ → ℕ → S → (List ℕ × End) × S)
    (wr : ℕ → List ℕ → S → (ℕ × Bool) × S) where
  abbrev pub stop : ℕ → Status → S → Copied S
  stop written status s = record { written = written; status = status; after = s }

  -- What follows a `Write` of `n` bytes: `w` of them written, by a sink that reports success or
  -- not; `e` is how the read before it ended, and `rest` goes on.
  abbrev pub after_write : ℕ → ℕ → Bool → End → ℕ → S → Copied S → Copied S
  after_write n w false e off s rest = stop off broke s
  after_write n w true more off s rest = if w == n then rest else stop off broke s
  after_write n w true at_eof off s rest = if w == n then stop off finished s else stop off broke s
  after_write n w true broken off s rest = stop off broke s

  abbrev pub after_empty : End → ℕ → S → Copied S → Copied S
  after_empty more off s rest = rest
  after_empty at_eof off s rest = stop off finished s
  after_empty broken off s rest = stop off broke s

  -- The round behind a `Read`, and the part of it behind the `Write`; `go` makes the next rounds.
  abbrev pub wrote : ℕ → ℕ → ℕ → End → (ℕ → ℕ → S → Copied S) → (ℕ × Bool) × S → Copied S
  wrote left off n e go ((w, ok), s) =
      let off' = off + (if ltb n w then 0 else w) in
      after_write n w ok e off' s (go (left - n) off' s)

  abbrev pub round : ℕ → ℕ → (ℕ → ℕ → S → Copied S) → (List ℕ × End) × S → Copied S
  round left off go (([], e), s) = after_empty e off s (go left off s)
  round left off go ((b ∷ bs, e), s) = wrote left off (suc (length bs)) e go (wr off (b ∷ bs) s)

  unfoldable pub copy_loop : ℕ → ℕ → ℕ → S → Copied S
  copy_loop zero left off s = stop off unfinished s
  copy_loop (suc fuel) zero off s = stop off finished s
  copy_loop (suc fuel) (suc left) off s =
      round (suc left) off (copy_loop fuel) (rd off (min buffer_size (suc left)) s)

-- `io.Copy` of a section of `n` bytes, and `io.CopyN` of `n` bytes; `n` is an `int64`. Each
-- round moves a byte or more, unless the source gives none and reports no error, so the limit
-- and one more is fuel enough.
abbrev pub section_limit : ℕ → ℕ
section_limit n = if is_negative n then 9223372036854775807 else n

abbrev pub reader_limit : ℕ → ℕ
reader_limit n = if is_negative n then 0 else n

-- What the two report.
pub data Moved : Type 0 where
  moved : ℕ → Moved
  error endless : Moved

abbrev pub copy_result : ℕ → Status → Moved
copy_result written finished = moved written
copy_result written broke = error
copy_result written unfinished = endless

abbrev pub copy_n_result : ℕ → ℕ → Status → Moved
copy_n_result n written finished =
    if written == n then moved n else if is_negative n then moved written else error
copy_n_result n written broke = if written == n then moved n else error
copy_n_result n written unfinished = endless

module _ {S : Type 0} (rd : ℕ → ℕ → S → (List ℕ × End) × S)
    (wr : ℕ → List ℕ → S → (ℕ × Bool) × S) where
  unfoldable pub copy : ℕ → S → Moved × S
  copy n s =
      let limit = section_limit n in
      let c = copy_loop rd wr (suc limit) limit 0 s in (copy_result c.written c.status, c.after)

  unfoldable pub copy_n : ℕ → S → Moved × S
  copy_n n s =
      let limit = reader_limit n in
      let c = copy_loop rd wr (suc limit) limit 0 s in (copy_n_result n c.written c.status, c.after)
