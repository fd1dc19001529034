-- ===== src/Futex/BitHandover.antt =====
-- A FUTEX_WAKE_BITSET of kernel/futex.go and the waits that it wakes, as one run: behind its sends,
-- each call that was told reads the word again.
use mathlib.Core.Path.{subst}
use microdbg_linux.Base.{
  ℕ, suc, ◌+◌, ◌-◌, ◌<◌, ◌≡◌, refl, arith, min, false, some, List, [], ◌∷◌, ◌++◌, ◌==◌,
  if◌then◌else◌, inl, inr, bit_and, ap, sym, ◌∙◌,
}
use microdbg_linux.Base.Word.{mod32, word_of}
use microdbg_linux.Machine.{Machine}
use microdbg_linux.Signal.{and_then}
use microdbg_linux.Exec.{State, Outcome, done, stalled, Event, signalled, ◌>>=◌}
use microdbg_linux.Futex.{deferred, del_bit_await, wait_bits_loop, word_at, wake_bitset}
use microdbg_linux.Futex.System.{Waiter, on_address, on_bits, Reached, next, elsewhere, leave_bits}
use microdbg_linux.Futex.Resume.{rest_of, rest_of-stalled, ++-shift}
use microdbg_linux.Futex.BitRendezvous.{
  BitCall, at_select, told, bit_waiter_of, bit_waiters, at_selects, meeting, Woken, BitMeets,
}
use microdbg_linux.Futex.BitAddressed.{wake_bitset-meeting, wake_bitset-leaves}

-- How many calls have been told.
abbrev pub tolds : List BitCall → ℕ
tolds [] = 0
tolds (at_select w ∷ cs) = tolds cs
tolds (told w ∷ cs) = suc (tolds cs)

-- The word at the address can be read, and is another than `want`.
abbrev pub ReadsOther : (M : Machine) → M.Memory → ℕ → ℕ → Type 0
ReadsOther M memory addr want =
    (x : ℕ) × (and_then (M.read_ptr memory addr 4) word_of ≡ some x) × ((x == want) ≡ false)

-- All calls are at their `select`, and each whose bits meet `val3` waits at a word that has changed;
-- `wants` is what the call at each place of the list waits for.
abbrev pub Changes : (M : Machine) → M.Memory → ℕ → (ℕ → ℕ) → ℕ → List BitCall → Type 0
Changes M memory val3 wants i [] = Unit
Changes M memory val3 wants i (told w ∷ cs) = ⊥
Changes M memory val3 wants i (at_select (on_address addr ch) ∷ cs) =
    Changes M memory val3 wants (suc i) cs
Changes M memory val3 wants i (at_select (on_bits addr bit ch1 ch2) ∷ cs) =
    ((bit_and bit val3 == 0) ≡ false → ReadsOther M memory addr (wants i))
    × Changes M memory val3 wants (suc i) cs

-- The calls that have been told wait at words that have changed.
abbrev ToldChanged : (M : Machine) → M.Memory → (ℕ → ℕ) → ℕ → List BitCall → Type 0
ToldChanged M memory wants i [] = Unit
ToldChanged M memory wants i (at_select w ∷ cs) = ToldChanged M memory wants (suc i) cs
ToldChanged M memory wants i (told (on_address addr ch) ∷ cs) = ⊥
ToldChanged M memory wants i (told (on_bits addr bit ch1 ch2) ∷ cs) =
    ReadsOther M memory addr (wants i) × ToldChanged M memory wants (suc i) cs

module _ (M : Machine) (memory : M.Memory) (val3 : ℕ) (wants : ℕ → ℕ) where
  Woken-ToldChanged :
      (i : ℕ) (cs ds : List BitCall)
      → Changes M memory val3 wants i cs
      → Woken val3 cs ds
      → ToldChanged M memory wants i ds
  Woken-ToldChanged i [] [] h woken = tt
  Woken-ToldChanged i [] (d ∷ ds) h woken = absurd woken
  Woken-ToldChanged i (c ∷ cs) [] h woken = absurd woken
  Woken-ToldChanged i (told w ∷ cs) (d ∷ ds) h woken = absurd h
  Woken-ToldChanged i (at_select (on_address addr ch) ∷ cs) (d ∷ ds) h (inl same, woken) =
      rw same (Woken-ToldChanged (suc i) cs ds h woken)
  Woken-ToldChanged i (at_select (on_address addr ch) ∷ cs) (d ∷ ds) h (inr (e, same), woken) = cc
  Woken-ToldChanged i (at_select (on_bits addr bit ch1 ch2) ∷ cs) (d ∷ ds) h (inl same, woken) =
      rw same (Woken-ToldChanged (suc i) cs ds h.1 woken)
  Woken-ToldChanged i (at_select (on_bits addr bit ch1 ch2) ∷ cs) (d ∷ ds) h
        (inr (e, same), woken) =
      rw same (h.0 (ground (arith, e)), Woken-ToldChanged (suc i) cs ds h.1 woken)

one_call :
    (c : BitCall) (cs : List BitCall)
    → tolds (c ∷ cs) + at_selects (c ∷ cs) ≡ suc (tolds cs + at_selects cs)
one_call (at_select w) cs = omega arith
one_call (told w) cs = omega arith

Woken-count :
    (val3 : ℕ) (cs ds : List BitCall)
    → Woken val3 cs ds
    → tolds ds + at_selects ds ≡ tolds cs + at_selects cs
Woken-count val3 [] [] h = refl
Woken-count val3 [] (d ∷ ds) h = absurd h
Woken-count val3 (c ∷ cs) [] h = absurd h
Woken-count val3 (c ∷ cs) (d ∷ ds) h =
    one_call d ds ∙ ap suc (Woken-count val3 cs ds h.1) ∙ sym (one_call c cs)

Changes-tolds :
    (M : Machine) (memory : M.Memory) (val3 : ℕ) (wants : ℕ → ℕ) (i : ℕ) (cs : List BitCall)
    → Changes M memory val3 wants i cs
    → tolds cs ≡ 0
Changes-tolds M memory val3 wants i [] h = refl
Changes-tolds M memory val3 wants i (told w ∷ cs) h = absurd h
Changes-tolds M memory val3 wants i (at_select (on_address addr ch) ∷ cs) h =
    Changes-tolds M memory val3 wants (suc i) cs h
Changes-tolds M memory val3 wants i (at_select (on_bits addr bit ch1 ch2) ∷ cs) h =
    Changes-tolds M memory val3 wants (suc i) cs h.1

module _ {M : Machine} where
  abbrev pub signal_of : BitCall → List (Event M)
  signal_of (at_select w) = []
  signal_of (told w) = signalled ∷ []

  -- Behind the rest of one call: it has returned 0, and is counted, or has ended in another way, or is
  -- back at its `select`.
  abbrev pub bit_settled :
      Waiter → Outcome ℕ → ℕ × List BitCall × State M → ℕ × List BitCall × State M
  bit_settled w (done r) (n, cs, x) = (if r == 0 then suc n else n, cs, x)
  bit_settled w stalled (n, cs, x) = (n, at_select w ∷ cs, x)
  bit_settled w _ (n, cs, x) = (n, cs, x)

  -- The rest of every call, one behind the other: how many return 0, and which still wait.
  abbrev pub bit_resume : (ℕ → ℕ) → ℕ → List BitCall → State M → ℕ × List BitCall × State M
  bit_resume wants i [] s = (0, [], s)
  bit_resume wants i (c ∷ cs) s =
      let r = rest_of (bit_waiter_of c) (wants i) (signal_of c) s in
      bit_settled (bit_waiter_of c) r.0 (bit_resume wants (suc i) cs r.1)

  -- A call that has been told, at a word that has changed, returns 0 and leaves.
  rest_of-told :
      (addr bit ch1 ch2 want : ℕ) (s : State M)
      → ReadsOther M s.memory addr want
      → rest_of (on_bits addr bit ch1 ch2) want (signalled ∷ []) s
        ≡ (done 0, (del_bit_await addr bit (record s { events = [] })).1)
  unfolding deferred wait_bits_loop word_at ◌>>=◌
  rest_of-told addr bit ch1 ch2 want s (x, read, other) = rw (read, other) refl

  del_bit_await-memory :
      (addr bit : ℕ) (s : State M) → (del_bit_await addr bit s).1.memory ≡ s.memory
  unfolding del_bit_await ◌>>=◌
  del_bit_await-memory addr bit s = refl

  -- Every call that was told has returned 0, the others wait as before, and the maps are those of the
  -- calls that still wait.
  abbrev Settles : List Waiter → List BitCall → ℕ × List BitCall × State M → Type 0
  Settles front cs (n, ds, x) =
      (n ≡ tolds cs)
      × (tolds ds ≡ 0)
      × ((bits : ℕ) → meeting bits ds ≡ meeting bits cs)
      × Reached x (front ++ bit_waiters ds)

  told-Settles :
      (front : List Waiter) (w : Waiter) (cs : List BitCall) (r : ℕ × List BitCall × State M)
      → Settles front cs r
      → Settles front (told w ∷ cs) (bit_settled w (done 0) r)
  told-Settles front w cs (n, ds, x) (a, b, c, d) = (ap suc a, b, λ j. omega (arith, c j), d)

  select-Settles :
      (front : List Waiter) (w : Waiter) (cs : List BitCall) (r : ℕ × List BitCall × State M)
      → Settles (front ++ w ∷ []) cs r
      → Settles front (at_select w ∷ cs) (bit_settled w stalled r)
  select-Settles front w cs (n, ds, x) (a, b, c, d) =
      (a, b, λ j. rw (c j) refl, subst (Reached x) (++-shift front (bit_waiters ds) w) d)

  bit_resume-Settles :
      (wants : ℕ → ℕ) (i : ℕ) (cs : List BitCall) (s : State M) (front : List Waiter)
      → ToldChanged M s.memory wants i cs
      → Reached s (front ++ bit_waiters cs)
      → Settles front cs (bit_resume wants i cs s)
  bit_resume-Settles wants i [] s front h r = (refl, refl, λ j. refl, r)
  bit_resume-Settles wants i (at_select w ∷ cs) s front h r = rw (rest_of-stalled w (wants i) s) (
      select-Settles front w cs (bit_resume wants (suc i) cs s) (
        bit_resume-Settles wants (suc i) cs s (front ++ w ∷ []) h
          (subst (Reached s) (sym (++-shift front (bit_waiters cs) w)) r)))
  bit_resume-Settles wants i (told (on_address addr ch) ∷ cs) s front h r = absurd h
  bit_resume-Settles wants i (told (on_bits addr bit ch1 ch2) ∷ cs) s front (here, later) r =
      let w = on_bits addr bit ch1 ch2 in
      let y : State M = record s { events = [] } in
      let z = (del_bit_await addr bit y).1 in
      let ws : List Waiter = front ++ w ∷ bit_waiters cs in
      let left : Reached z (front ++ bit_waiters cs) =
        next y z ws (front ++ bit_waiters cs) (next s y ws ws r (elsewhere s y ws refl refl refl))
          (leave_bits addr bit ch1 ch2 y front (bit_waiters cs)) in
      let same : s.memory ≡ z.memory = sym (del_bit_await-memory addr bit y) in
      rw (rest_of-told addr bit ch1 ch2 (wants i) s here) (
        told-Settles front w cs (bit_resume wants (suc i) cs z) (
          bit_resume-Settles wants (suc i) cs z front
            (subst (λ m. ToldChanged M m wants (suc i) cs) same later) left))

  -- In a state that waits reach that enter and leave, each call without a timeout at its `select`: a
  -- FUTEX_WAKE_BITSET tells the calls that its sends meet, whichever these are. Where those whose bit
  -- set meets its own wait at words that can be read and that have changed, exactly as many return 0
  -- when they go on as the wake has reported, the smaller of the number asked for and the number of
  -- calls whose bit set meets its own; the maps are then those of the calls that still wait, all at
  -- their `select`.
  pub wake_bitset-resume :
      (val val3 : ℕ) (wants : ℕ → ℕ) (s : State M) {cs after : List BitCall}
      → Reached s (bit_waiters cs)
      → Changes M s.memory val3 wants 0 cs
      → val < mod32
      → BitMeets val3 val s.bit_awaits cs s.events after
      → let (n, ds, x) = bit_resume wants 0 after (wake_bitset val val3 s).1 in
        ((wake_bitset val val3 s).0 ≡ done n)
        × (n ≡ min val (meeting val3 cs))
        × (tolds ds ≡ 0)
        × (meeting val3 ds ≡ meeting val3 cs - val)
        × Reached x (bit_waiters ds)
  wake_bitset-resume val val3 wants s {cs} {after} reached changes small m =
      let (result, left, fewer, same, woken) = wake_bitset-meeting val val3 s reached small m in
      let y : State M = record s { events = [] } in
      let told_changed = Woken-ToldChanged M s.memory val3 wants 0 cs after changes woken in
      let reached' : Reached y (bit_waiters after) = subst (Reached y) (sym same) (
        next s y (bit_waiters cs) (bit_waiters cs) reached
          (elsewhere s y (bit_waiters cs) refl refl refl)) in
      let (count, none_told, kept, maps) =
        bit_resume-Settles wants 0 after y [] told_changed reached' in
      let all : tolds after ≡ min val (meeting val3 cs) = omega (
        arith,
        fewer,
        Woken-count val3 cs after woken,
        Changes-tolds M s.memory val3 wants 0 cs changes,
      ) in
      rw (wake_bitset-leaves val val3 s reached small m)
        (result ∙ ap done (sym (count ∙ all)), count ∙ all, none_told, kept val3 ∙ left, maps)
