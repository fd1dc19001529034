-- ===== src/Io/Total.antt =====
-- A copy ends, and it moves what the limit allows, however the source cuts its bytes into reads.
use mathlib.Core.List.{append-nil, append_assoc}
use microdbg_linux.Base.{ℕ, zero, suc, ◌+◌, ◌-◌, ◌≤◌, ◌<◌, ◌≡◌, refl, sym, ap, ◌∙◌, min, arith}
use microdbg_linux.Base.{Bool, true, List, [], ◌∷◌, ◌++◌}
use microdbg_linux.Base.Lists.{length, take, length-append, take-append, take_all, take-nil}
use microdbg_linux.Machine.{End, more, at_eof, broken}
use microdbg_linux.Io.{Copied, finished, buffer_size, round, wrote, copy_loop}

-- What the end of a read says of its bytes and of those that are left.
abbrev pub EndsWell : End → List ℕ → List ℕ → Type 0
EndsWell more bs rest = 0 < length bs
EndsWell at_eof bs rest = rest ≡ []
EndsWell broken bs rest = ⊥

-- A source and a sink that report no error on the first `room` bytes of a copy, in the states that
-- are ready (the descriptors open, the region mapped), which reads and writes keep: `pending` is what
-- the source has left at an offset, `stored` what the sink holds of as many bytes as the copy has
-- moved. A read gives some bytes of the front, at most as many as asked for, or the end; a write takes
-- all, behind those that the sink holds.
pub record IsPipe {S : Type 0} (rd : ℕ → ℕ → S → (List ℕ × End) × S)
    (wr : ℕ → List ℕ → S → (ℕ × Bool) × S) (room : ℕ) : Type 1 where
  pub Ready : S → Type 0
  pub pending : ℕ → S → List ℕ
  pub stored : ℕ → S → List ℕ
  pub starts : (s : S) → stored 0 s ≡ []
  pub reads :
      (off n : ℕ) (s : S)
      → Ready s
      → 0 < n
      → off + n ≤ room
      → let r = rd off n s in
        (r.0.0 ++ pending (off + length r.0.0) r.1 ≡ pending off s)
        × (length r.0.0 ≤ n)
        × ((k : ℕ) → stored k r.1 ≡ stored k s)
        × Ready r.1
        × EndsWell r.0.1 r.0.0 (pending (off + length r.0.0) r.1)
  pub writes :
      (off : ℕ) (bs : List ℕ) (s : S)
      → Ready s
      → off + length bs ≤ room
      → let r = wr off bs s in
        (r.0 ≡ (length bs, true))
        × (stored (off + length bs) r.1 ≡ stored off s ++ bs)
        × ((k : ℕ) → pending k r.1 ≡ pending k s)
        × Ready r.1

module _ {S : Type 0} (rd : ℕ → ℕ → S → (List ℕ × End) × S) (wr : ℕ → List ℕ → S → (ℕ × Bool) × S)
    (room : ℕ) (pipe : IsPipe rd wr room) where
  open pipe use {Ready, pending, stored, reads, writes}

  -- The copy of at most `left` bytes of `bs`, from a sink with `old` in it at `off`.
  abbrev pub Done : ℕ → ℕ → List ℕ → List ℕ → Copied S → Type 0
  Done left off bs old c =
      (c.status ≡ finished)
      × (c.written ≡ off + min left (length bs))
      × (stored c.written c.after ≡ old ++ take left bs)

  wrote-more :
      (left off n : ℕ) (go : ℕ → ℕ → S → Copied S) (r : (ℕ × Bool) × S)
      → r.0 ≡ (n, true)
      → wrote rd wr left off n more go r ≡ go (left - n) (off + n) r.1
  wrote-more left off n go ((w, ok), s) e = ground arith

  wrote-at_eof :
      (left off n : ℕ) (go : ℕ → ℕ → S → Copied S) (r : (ℕ × Bool) × S)
      → r.0 ≡ (n, true)
      → wrote rd wr left off n at_eof go r
        ≡ record { written = off + n; status = finished; after = r.1 }
  wrote-at_eof left off n go ((w, ok), s) e = ground arith

  take_front :
      (left : ℕ) (bs rest old new : List ℕ)
      → length bs ≤ left
      → new ≡ (old ++ bs) ++ take (left - length bs) rest
      → new ≡ old ++ take left (bs ++ rest)
  take_front left bs rest old new fits e =
      e
      ∙ append_assoc old bs (take (left - length bs) rest)
      ∙ ap (λ zs. old ++ zs) (sym (take-append left bs rest fits))

  wrote-Done :
      (left off : ℕ) (bs : List ℕ) (e : End) (go : ℕ → ℕ → S → Copied S) (s : S)
      → 0 < length bs
      → length bs ≤ left
      → Ready s
      → off + left ≤ room
      → EndsWell e bs (pending (off + length bs) s)
      → ((l o : ℕ) (s' : S)
          → Ready s'
          → o + l ≤ room
          → l < left
          → Done l o (pending o s') (stored o s') (go l o s'))
      → Done left off
          (bs ++ pending (off + length bs) s)
          (stored off s)
          (wrote rd wr left off (length bs) e go (wr off bs s))
  wrote-Done left off bs more go s some_bytes fits ready within well ih =
      let w : (ℕ × Bool) × S = wr off bs s in
      let n : ℕ = length bs in
      let rest : List ℕ = pending (off + n) s in
      let (took, kept, same, ready') = writes off bs s ready (omega arith) in
      let (f, c, t) = ih (left - n) (off + n) w.1 ready' (omega arith) (omega arith) in
      let x = go (left - n) (off + n) w.1 in
      let t' : stored x.written x.after ≡ (stored off s ++ bs) ++ take (left - n) rest =
        rw (← kept, ← same (off + n)) t in
      let c' : (go (left - n) (off + n) w.1).written ≡ off + n + min (left - n) (length rest) =
        rw (← same (off + n)) c in
      rw (wrote-more left off n go w took) (
        f,
        omega (arith, c', length-append {0} bs rest),
        take_front left bs rest (stored off s) _ fits t',
      )
  wrote-Done left off bs at_eof go s some_bytes fits ready within well ih =
      let w : (ℕ × Bool) × S = wr off bs s in
      let n : ℕ = length bs in
      let (took, kept, same, ready') = writes off bs s ready (omega arith) in
      rw (wrote-at_eof left off n go w took, well, append-nil)
        (refl, omega arith, kept ∙ ap (λ zs. stored off s ++ zs) (sym (take_all left bs fits)))
  wrote-Done left off bs broken go s some_bytes fits ready within well ih = absurd well

  round-Done :
      (left off : ℕ) (go : ℕ → ℕ → S → Copied S) (r : (List ℕ × End) × S) (s : S)
      → r.0.0 ++ pending (off + length r.0.0) r.1 ≡ pending off s
      → length r.0.0 ≤ left
      → ((k : ℕ) → stored k r.1 ≡ stored k s)
      → Ready r.1
      → EndsWell r.0.1 r.0.0 (pending (off + length r.0.0) r.1)
      → off + left ≤ room
      → ((l o : ℕ) (s' : S)
          → Ready s'
          → o + l ≤ room
          → l < left
          → Done l o (pending o s') (stored o s') (go l o s'))
      → Done left off (pending off s) (stored off s) (round rd wr left off go r)
  round-Done left off go (([], more), s1) s parts fits same ready well within ih =
      absurd (omega arith)
  round-Done left off go (([], at_eof), s1) s parts fits same ready well within ih =
      let empty : pending off s ≡ [] = sym parts ∙ well in
      rw (empty, take-nil, append-nil) (refl, omega arith, same off)
  round-Done left off go (([], broken), s1) s parts fits same ready well within ih = absurd well
  round-Done left off go ((b ∷ bs, e), s1) s parts fits same ready well within ih =
      rw (← parts, ← same off)
        (wrote-Done left off (b ∷ bs) e go s1 (omega arith) fits ready within well ih)

  -- Within the room and with fuel above the limit the loop ends at the end of the source or of the limit, and what it
  -- has moved is the front of what was pending, as long as the limit allows.
  pub copy_loop-Done :
      (fuel left off : ℕ) (s : S)
      → Ready s
      → off + left ≤ room
      → left < fuel
      → Done left off (pending off s) (stored off s) (copy_loop rd wr fuel left off s)
  unfolding copy_loop
  copy_loop-Done zero left off s ready within h = absurd (omega arith)
  copy_loop-Done (suc fuel) zero off s ready within h = rw append-nil (refl, omega arith, refl)
  copy_loop-Done (suc fuel) (suc left) off s ready within h =
      let n : ℕ = min buffer_size (suc left) in
      let (parts, fits, same, ready', well) = reads off n s ready (omega arith) (omega arith) in
      round-Done (suc left) off (copy_loop rd wr fuel) (rd off n s) s parts (omega arith) same
        ready' well within
        λ l o s' later within' lt. copy_loop-Done fuel l o s' later within' (omega arith)
