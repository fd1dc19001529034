-- ===== src/Futex/Handover.antt =====
-- A FUTEX_WAKE of kernel/futex.go and the waits that it wakes, as one run: behind its sends, each
-- call that was sent a value goes on with it.
use microdbg_linux.Base.{
  ℕ, suc, ◌+◌, ◌-◌, ◌<◌, ◌≡◌, refl, arith, min, true, false, some, List, [], ◌∷◌, ◌++◌, ◌==◌, inl,
  inr, ap, sym, ◌∙◌,
}
use mathlib.Core.Path.{subst}
use microdbg_linux.Base.Assoc.{lookup}
use microdbg_linux.Base.Word.{mod32, word_of}
use microdbg_linux.Signal.{and_then}
use microdbg_linux.Machine.{Machine}
use microdbg_linux.Exec.{Await, State, done, Event, ◌>>=◌}
use microdbg_linux.Futex.{wake, wake_waiters, word_at, or_stall}
use microdbg_linux.Futex.System.{Waiter, Reached, next, elsewhere}
use microdbg_linux.Futex.Rendezvous.{
  Call, at_select, given, ready, ready-given, Served, Meets, all_sent, none_left, met, sends-Meets,
  after-Meets,
}
use microdbg_linux.Futex.Addressed.{
  waiters, selects, selecting, Agrees, ready-selecting, Reached-Agrees, wake-selecting,
}
use microdbg_linux.Futex.Resume.{givens, Readies, resume, resume-Settles}

givens-given :
    (w : Waiter) (value : ℕ) (front back : List Call)
    → givens (front ++ given w value ∷ back) ≡ suc (givens (front ++ at_select w ∷ back))
givens-given w value [] back = refl
givens-given w value (at_select v ∷ front) back = givens-given w value front back
givens-given w value (given v x ∷ front) back = ap suc (givens-given w value front back)

-- The calls under the address wait for another value than `value`.
abbrev pub Changed : ℕ → ℕ → (ℕ → ℕ) → ℕ → List Call → Type 0
Changed addr value wants i [] = Unit
Changed addr value wants i (c ∷ cs) =
    ((selects addr c ≡ true) → (value == wants i) ≡ false) × Changed addr value wants (suc i) cs

Served-Readies :
    (ch value addr : ℕ) (wants : ℕ → ℕ) (i : ℕ) (cs ds : List Call)
    → Agrees addr ch (waiters cs)
    → givens cs ≡ 0
    → Changed addr value wants i cs
    → Served ch value cs ds
    → Readies value wants i ds
Served-Readies ch value addr wants i [] [] on fresh h served = tt
Served-Readies ch value addr wants i [] (d ∷ ds) on fresh h served = absurd served
Served-Readies ch value addr wants i (c ∷ cs) [] on fresh h served = absurd served
Served-Readies ch value addr wants i (given w x ∷ cs) (d ∷ ds) on fresh h served = ground arith
Served-Readies ch value addr wants i (at_select w ∷ cs) (d ∷ ds) on fresh h (inl same, served) =
    rw same (Served-Readies ch value addr wants (suc i) cs ds on.1 fresh h.1 served)
Served-Readies ch value addr wants i (at_select w ∷ cs) (d ∷ ds) on fresh h
      (inr (met_it, same), served) =
    rw same (
      refl,
      h.0 (sym on.0 ∙ met_it),
      Served-Readies ch value addr wants (suc i) cs ds on.1 fresh h.1 served,
    )

module _ {M : Machine} where
  givens-Meets :
      (ch value : ℕ) {n : ℕ} {cs after : List Call} {es : List (Event M)}
      → Meets ch value n cs es after
      → givens after ≡ givens cs + min n (ready ch cs)
  givens-Meets ch value (all_sent {cs}) = omega arith
  givens-Meets ch value (none_left {n} {cs} none) = omega (arith, none)
  givens-Meets ch value (met {n} {es} {after} w front back on rest) = omega (
    arith,
    givens-Meets ch value rest,
    givens-given w value front back,
    ready-given ch value w front back on,
  )

  wake-leaves :
      (uaddr val w : ℕ) (a : Await) (s : State M) {cs after : List Call}
      → lookup uaddr s.awaits ≡ some a
      → and_then (M.read_ptr s.memory uaddr 4) word_of ≡ some w
      → val < mod32
      → Meets a.ch w val cs s.events after
      → (wake uaddr val s).1 ≡ record s { events = [] }
  unfolding wake wake_waiters word_at or_stall ◌>>=◌
  wake-leaves uaddr val w a s found word small m =
      rw (found, word, sends-Meets a.ch w 0 val (omega arith) small m) refl

  -- In a state that waits reach that enter and leave, each call without a timeout at its `select`: a
  -- FUTEX_WAKE of an address on which some call waits, at a word that can be read and that no call
  -- under the address waits for, hands its word to the calls that its sends meet, whichever these
  -- are; when these go on, exactly as many return 0 as the wake has reported, the smaller of the
  -- number asked for and the number of calls under the address; the maps are then those of the calls
  -- that still wait, all at their `select`, so many fewer under the address and as many as before
  -- under any other.
  pub wake-resume :
      (uaddr val w : ℕ) (a : Await) (wants : ℕ → ℕ) (s : State M) {cs after : List Call}
      → Reached s (waiters cs)
      → givens cs ≡ 0
      → Changed uaddr w wants 0 cs
      → lookup uaddr s.awaits ≡ some a
      → and_then (M.read_ptr s.memory uaddr 4) word_of ≡ some w
      → val < mod32
      → Meets a.ch w val cs s.events after
      → let (n, ds, x) = resume wants 0 after (wake uaddr val s).1 in
        ((wake uaddr val s).0 ≡ done n)
        × (n ≡ min val (selecting uaddr cs))
        × (givens ds ≡ 0)
        × (selecting uaddr ds ≡ selecting uaddr cs - val)
        × ((j : ℕ) → (uaddr == j) ≡ false → selecting j ds ≡ selecting j cs)
        × Reached x (waiters ds)
  wake-resume uaddr val w a wants s {cs} {after} reached fresh changed found word small m =
      let (result, left, others, same) =
        wake-selecting uaddr val w a s reached found word small m in
      let on = Reached-Agrees uaddr a s (waiters cs) reached found in
      let served = (after-Meets a.ch w m).1 in
      let readies = Served-Readies a.ch w uaddr wants 0 cs after on fresh changed served in
      let here = wake-leaves uaddr val w a s found word small m in
      let y : State M = record s { events = [] } in
      let reached' : Reached y (waiters after) =
        subst (Reached y) (sym same) (
          next s y (waiters cs) (waiters cs) reached (elsewhere s y (waiters cs) refl refl refl)) in
      let (count, none_given, kept, maps) = resume-Settles w wants 0 after y [] readies reached' in
      let all : givens after ≡ min val (selecting uaddr cs) =
        omega (arith, givens-Meets a.ch w m, fresh, ready-selecting uaddr a.ch cs on) in
      rw here (
        result ∙ ap done (sym (count ∙ all)),
        count ∙ all,
        none_given,
        kept uaddr ∙ left,
        λ j other. kept j ∙ others j other,
        maps,
      )
