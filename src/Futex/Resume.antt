-- ===== src/Futex/Resume.antt =====
-- The calls of kernel/futex.go that wait, when they go on from their `select` with what they were
-- sent.
use microdbg_linux.Base.{
  ℕ, suc, ◌≡◌, refl, arith, false, List, [], ◌∷◌, ◌++◌, ◌==◌, if◌then◌else◌, ap, sym,
}
use mathlib.Core.Path.{subst}
use microdbg_linux.Machine.{Machine}
use microdbg_linux.Exec.{State, Outcome, done, stalled, Exec, Event, received, ◌>>=◌}
use microdbg_linux.Futex.{
  deferred, del_await, del_bit_await, wait_loop, wait_bits_loop, waiting, wait_bitset, enter_wait,
  add_await, add_bit_await,
}
use microdbg_linux.Futex.System.{
  Waiter, on_address, on_bits, Reached, next, elsewhere, leave, leave_bits,
}
use microdbg_linux.Futex.Rendezvous.{Call, at_select, given}
use microdbg_linux.Futex.Addressed.{waiter_of, waiters, selecting}

-- How many calls have a value that they have not looked at.
abbrev pub givens : List Call → ℕ
givens [] = 0
givens (at_select w ∷ cs) = givens cs
givens (given w value ∷ cs) = suc (givens cs)

-- The calls that have a value have this one, and it is not the one that they wait for; `wants` is
-- what the call at each place of the list waits for.
abbrev pub Readies : ℕ → (ℕ → ℕ) → ℕ → List Call → Type 0
Readies value wants i [] = Unit
Readies value wants i (at_select w ∷ cs) = Readies value wants (suc i) cs
Readies value wants i (given w x ∷ cs) =
    (x ≡ value) × ((value == wants i) ≡ false) × Readies value wants (suc i) cs

pub ++-shift :
    (front back : List Waiter) (w : Waiter) → (front ++ w ∷ []) ++ back ≡ front ++ w ∷ back
++-shift [] back w = refl
++-shift (v ∷ front) back w = ap (λ ws. v ∷ ws) (++-shift front back w)

module _ {M : Machine} where
  abbrev pub value_of : Call → List (Event M)
  value_of (at_select w) = []
  value_of (given w value) = received value ∷ []

  -- What is left of a call without a timeout that waits for `val`.
  abbrev pub rest_of : Waiter → ℕ → List (Event M) → Exec M ℕ
  rest_of (on_address addr ch) val es = deferred (del_await addr) (wait_loop false val es)
  rest_of (on_bits addr bit ch1 ch2) val es =
      deferred (del_bit_await addr bit) (wait_bits_loop addr false val es)

  -- It is what the body of FUTEX_WAIT, and that of FUTEX_WAIT_BITSET, does behind its entry.
  waiting-rest_of :
      (addr ch val : ℕ) (s : State M)
      → waiting addr val false s ≡ rest_of (on_address addr ch) val s.events (add_await addr s).1
  unfolding waiting ◌>>=◌
  waiting-rest_of addr ch val s = refl

  wait_bitset-rest_of :
      (addr bit ch1 ch2 val : ℕ) (s : State M)
      → enter_wait addr val 0 s ≡ (done false, s)
      → wait_bitset addr val 0 bit s
        ≡ rest_of (on_bits addr bit ch1 ch2) val s.events (add_bit_await addr bit s).1
  unfolding wait_bitset ◌>>=◌
  wait_bitset-rest_of addr bit ch1 ch2 val s entered = rw entered refl

  -- Behind the rest of one call: it has returned 0, and is counted, or has ended in another way, or is
  -- back at its `select`.
  abbrev pub settled : Waiter → Outcome ℕ → ℕ × List Call × State M → ℕ × List Call × State M
  settled w (done r) (n, cs, x) = (if r == 0 then suc n else n, cs, x)
  settled w stalled (n, cs, x) = (n, at_select w ∷ cs, x)
  settled w _ (n, cs, x) = (n, cs, x)

  -- The rest of every call, one behind the other: how many return 0, and which still wait.
  abbrev pub resume : (ℕ → ℕ) → ℕ → List Call → State M → ℕ × List Call × State M
  resume wants i [] s = (0, [], s)
  resume wants i (c ∷ cs) s =
      let r = rest_of (waiter_of c) (wants i) (value_of c) s in
      settled (waiter_of c) r.0 (resume wants (suc i) cs r.1)

  -- A call that has a value other than the one it waits for returns 0.
  rest_of-done :
      (w : Waiter) (val x : ℕ) (s : State M)
      → (x == val) ≡ false
      → (rest_of w val (received x ∷ []) s).0 ≡ done 0
  unfolding deferred wait_loop wait_bits_loop ◌>>=◌
  rest_of-done (on_address addr ch) val x s other = rw other refl
  rest_of-done (on_bits addr bit ch1 ch2) val x s other = rw other refl

  rest_of-Reached :
      (w : Waiter) (val x : ℕ) (s : State M) (front back : List Waiter)
      → (x == val) ≡ false
      → Reached s (front ++ w ∷ back)
      → Reached (rest_of w val (received x ∷ []) s).1 (front ++ back)
  unfolding deferred wait_loop wait_bits_loop ◌>>=◌
  rest_of-Reached (on_address addr ch) val x s front back other r =
      let y : State M = record s { events = [] } in
      let ws : List Waiter = front ++ on_address addr ch ∷ back in
      rw other (
        next y _ ws (front ++ back) (next s y ws ws r (elsewhere s y ws refl refl refl))
          (leave addr ch y front back))
  rest_of-Reached (on_bits addr bit ch1 ch2) val x s front back other r =
      let y : State M = record s { events = [] } in
      let ws : List Waiter = front ++ on_bits addr bit ch1 ch2 ∷ back in
      rw other (
        next y _ ws (front ++ back) (next s y ws ws r (elsewhere s y ws refl refl refl))
          (leave_bits addr bit ch1 ch2 y front back))

  pub rest_of-stalled : (w : Waiter) (val : ℕ) (s : State M) → rest_of w val [] s ≡ (stalled, s)
  unfolding deferred wait_loop wait_bits_loop ◌>>=◌
  rest_of-stalled (on_address addr ch) val s = refl
  rest_of-stalled (on_bits addr bit ch1 ch2) val s = refl

  -- Every call with a value has returned 0, the others wait as before, and the maps are those of the
  -- calls that still wait.
  abbrev Settles : List Waiter → List Call → ℕ × List Call × State M → Type 0
  Settles front cs (n, ds, x) =
      (n ≡ givens cs)
      × (givens ds ≡ 0)
      × ((j : ℕ) → selecting j ds ≡ selecting j cs)
      × Reached x (front ++ waiters ds)

  given-Settles :
      (front : List Waiter) (w : Waiter) (value : ℕ) (cs : List Call) (r : ℕ × List Call × State M)
      → Settles front cs r
      → Settles front (given w value ∷ cs) (settled w (done 0) r)
  given-Settles front w value cs (n, ds, x) (a, b, c, d) = (ap suc a, b, λ j. omega (arith, c j), d)

  select-Settles :
      (front : List Waiter) (w : Waiter) (cs : List Call) (r : ℕ × List Call × State M)
      → Settles (front ++ w ∷ []) cs r
      → Settles front (at_select w ∷ cs) (settled w stalled r)
  select-Settles front w cs (n, ds, x) (a, b, c, d) =
      (a, b, λ j. rw (c j) refl, subst (Reached x) (++-shift front (waiters ds) w) d)

  pub resume-Settles :
      (value : ℕ) (wants : ℕ → ℕ) (i : ℕ) (cs : List Call) (s : State M) (front : List Waiter)
      → Readies value wants i cs
      → Reached s (front ++ waiters cs)
      → Settles front cs (resume wants i cs s)
  resume-Settles value wants i [] s front h r = (refl, refl, λ j. refl, r)
  resume-Settles value wants i (at_select w ∷ cs) s front h r = rw (rest_of-stalled w (wants i) s) (
      select-Settles front w cs (resume wants (suc i) cs s) (
        resume-Settles value wants (suc i) cs s (front ++ w ∷ []) h
          (subst (Reached s) (sym (++-shift front (waiters cs) w)) r)))
  resume-Settles value wants i (given w x ∷ cs) s front (same, other, more) r =
      let apart : (x == wants i) ≡ false = rw same other in
      let y = (rest_of w (wants i) (received x ∷ []) s).1 in
      rw (rest_of-done w (wants i) x s apart) (
        given-Settles front w x cs (resume wants (suc i) cs y) (
          resume-Settles value wants (suc i) cs y front more
            (rest_of-Reached w (wants i) x s front (waiters cs) apart r)))
