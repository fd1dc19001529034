-- ===== src/Futex/System.antt =====
-- The tasks that wait in kernel/futex.go side by side: each is between `addAwait` and `delAwait`, or
-- between `addBitAwait` and `delBitAwait`, of its call.
use microdbg_linux.Base.{ℕ, ◌≡◌, refl, List, [], ◌∷◌, ◌++◌, ap}
use mathlib.Core.Path.{subst}
use microdbg_linux.Base.Assoc.{lookup}
use microdbg_linux.Machine.{Machine}
use microdbg_linux.Exec.{State, Outcome, done, set_awaits, set_bit_awaits, ◌>>=◌}
use microdbg_linux.Futex.{add_to, add_ref, made, add_await, del_await, add_bit_await, del_bit_await}
use microdbg_linux.Futex.Tracks.{
  Holders, Tracks, add-Tracks, del-Tracks, more-Tracks, made-le, none-Tracks,
}

-- A call that waits, with what it entered under and the channels that it was given.
pub data Waiter : Type 0 where
  on_address : ℕ → ℕ → Waiter
  on_bits : ℕ → ℕ → ℕ → ℕ → Waiter

abbrev pub addresses : List Waiter → Holders
addresses [] = []
addresses (on_address addr ch ∷ ws) = (addr, ch) ∷ addresses ws
addresses (on_bits addr bit ch1 ch2 ∷ ws) = (addr, ch1) ∷ addresses ws

abbrev pub bits : List Waiter → Holders
bits [] = []
bits (on_address addr ch ∷ ws) = bits ws
bits (on_bits addr bit ch1 ch2 ∷ ws) = (bit, ch2) ∷ bits ws

pub addresses-++ :
    (front back : List Waiter) → addresses (front ++ back) ≡ addresses front ++ addresses back
addresses-++ [] back = refl
addresses-++ (on_address addr ch ∷ ws) back = ap (λ x. (addr, ch) ∷ x) (addresses-++ ws back)
addresses-++ (on_bits addr bit ch1 ch2 ∷ ws) back = ap (λ x. (addr, ch1) ∷ x) (addresses-++ ws back)

bits-++ : (front back : List Waiter) → bits (front ++ back) ≡ bits front ++ bits back
bits-++ [] back = refl
bits-++ (on_address addr ch ∷ ws) back = bits-++ ws back
bits-++ (on_bits addr bit ch1 ch2 ∷ ws) back = ap (λ x. (bit, ch2) ∷ x) (bits-++ ws back)

module _ {M : Machine} where
  -- One step of the tasks: a wait enters or leaves, or a task does something that leaves the maps.
  pub data Step : State M → List Waiter → State M → List Waiter → Type 0 where
    enter :
        (addr ch : ℕ) (s s' : State M) (ws : List Waiter)
        → add_await addr s ≡ (done ch, s')
        → Step s ws s' (on_address addr ch ∷ ws)
    enter_bits :
        (addr bit ch1 ch2 : ℕ) (s s' : State M) (ws : List Waiter)
        → add_bit_await addr bit s ≡ (done (ch1, ch2), s')
        → Step s ws s' (on_bits addr bit ch1 ch2 ∷ ws)
    leave :
        (addr ch : ℕ) (s : State M) (front back : List Waiter)
        → Step s (front ++ on_address addr ch ∷ back) (del_await addr s).1 (front ++ back)
    leave_bits :
        (addr bit ch1 ch2 : ℕ) (s : State M) (front back : List Waiter)
        → Step s
            (front ++ on_bits addr bit ch1 ch2 ∷ back)
            (del_bit_await addr bit s).1
            (front ++ back)
    elsewhere :
        (s s' : State M) (ws : List Waiter)
        → s'.awaits ≡ s.awaits
        → s'.bit_awaits ≡ s.bit_awaits
        → s'.channels ≡ s.channels
        → Step s ws s' ws

  pub data Reached : State M → List Waiter → Type 0 where
    begin : (s : State M) → s.awaits ≡ [] → s.bit_awaits ≡ [] → Reached s []
    next :
        (s s' : State M) (ws ws' : List Waiter) → Reached s ws → Step s ws s' ws' → Reached s' ws'

  abbrev pub InStep : State M → List Waiter → Type 0
  InStep s ws = Tracks s.channels s.awaits (addresses ws) × Tracks s.channels s.bit_awaits (bits ws)

  abbrev Given : (ℕ → Waiter) → List Waiter → Outcome ℕ × State M → Type 0
  Given new ws (done ch, s') = InStep s' (new ch ∷ ws)
  Given new ws (o, s') = Unit

  abbrev GivenTwo : (ℕ → ℕ → Waiter) → List Waiter → Outcome (ℕ × ℕ) × State M → Type 0
  GivenTwo new ws (done (ch1, ch2), s') = InStep s' (new ch1 ch2 ∷ ws)
  GivenTwo new ws (o, s') = Unit

  add_await-Given :
      (addr : ℕ) (s : State M) (ws : List Waiter)
      → InStep s ws
      → Given (on_address addr) ws (add_await addr s)
  unfolding add_await ◌>>=◌
  add_await-Given addr s ws h = (
    add-Tracks s.channels addr s.awaits (addresses ws) h.0,
    more-Tracks s.channels (made s.channels (lookup addr s.awaits)) s.bit_awaits (bits ws)
        (made-le s.channels (lookup addr s.awaits)) h.1,
  )

  add_bit_await-Given :
      (addr bit : ℕ) (s : State M) (ws : List Waiter)
      → InStep s ws
      → GivenTwo (on_bits addr bit) ws (add_bit_await addr bit s)
  unfolding add_bit_await add_await ◌>>=◌
  add_bit_await-Given addr bit s ws h =
      let n : ℕ = made s.channels (lookup addr s.awaits) in
      (
        more-Tracks n (made n (lookup bit s.bit_awaits)) (add_ref s.channels addr s.awaits)
            ((addr, (add_to s.channels (lookup addr s.awaits)).ch) ∷ addresses ws)
            (made-le n (lookup bit s.bit_awaits))
            (add-Tracks s.channels addr s.awaits (addresses ws) h.0),
        add-Tracks n bit s.bit_awaits (bits ws) (
            more-Tracks s.channels n s.bit_awaits (bits ws)
              (made-le s.channels (lookup addr s.awaits)) h.1),
      )

  leave-InStep :
      (addr ch : ℕ) (s : State M) (front back : List Waiter)
      → InStep s (front ++ on_address addr ch ∷ back)
      → InStep (del_await addr s).1 (front ++ back)
  unfolding del_await set_awaits
  leave-InStep addr ch s front back h =
      rw (addresses-++ front back, bits-++ front back)
        (
          del-Tracks s.channels addr ch s.awaits (addresses front) (addresses back) (
              subst (Tracks s.channels s.awaits) (addresses-++ front (on_address addr ch ∷ back))
                h.0),
          subst (Tracks s.channels s.bit_awaits) (bits-++ front (on_address addr ch ∷ back)) h.1,
        )

  leave_bits-InStep :
      (addr bit ch1 ch2 : ℕ) (s : State M) (front back : List Waiter)
      → InStep s (front ++ on_bits addr bit ch1 ch2 ∷ back)
      → InStep (del_bit_await addr bit s).1 (front ++ back)
  unfolding del_bit_await set_awaits set_bit_awaits ◌>>=◌
  leave_bits-InStep addr bit ch1 ch2 s front back h =
      rw (addresses-++ front back, bits-++ front back)
        (
          del-Tracks s.channels addr ch1 s.awaits (addresses front) (addresses back) (
              subst (Tracks s.channels s.awaits)
                (addresses-++ front (on_bits addr bit ch1 ch2 ∷ back)) h.0),
          del-Tracks s.channels bit ch2 s.bit_awaits (bits front) (bits back) (
              subst (Tracks s.channels s.bit_awaits)
                (bits-++ front (on_bits addr bit ch1 ch2 ∷ back)) h.1),
        )

  Step-InStep :
      (s s' : State M) (ws ws' : List Waiter) → Step s ws s' ws' → InStep s ws → InStep s' ws'
  Step-InStep s s' ws ws' (enter addr ch _ _ _ e) h =
      subst (Given (on_address addr) ws) e (add_await-Given addr s ws h)
  Step-InStep s s' ws ws' (enter_bits addr bit ch1 ch2 _ _ _ e) h =
      subst (GivenTwo (on_bits addr bit) ws) e (add_bit_await-Given addr bit s ws h)
  Step-InStep s s' ws ws' (leave addr ch _ front back) h = leave-InStep addr ch s front back h
  Step-InStep s s' ws ws' (leave_bits addr bit ch1 ch2 _ front back) h =
      leave_bits-InStep addr bit ch1 ch2 s front back h
  Step-InStep s s' ws ws' (elsewhere _ _ _ a b c) h = rw (a, b, c) h

  -- In every state that can be reached from empty maps by waits that enter and leave, each address
  -- has an entry with as many references as calls wait on it, at least one, and no entry if none
  -- waits; all calls that wait on one address wait on the channel of its entry, and two addresses
  -- have two channels. The same holds for the bit sets.
  pub Reached-InStep : (s : State M) (ws : List Waiter) → Reached s ws → InStep s ws
  Reached-InStep s ws (begin _ a b) = rw (a, b) (none-Tracks s.channels, none-Tracks s.channels)
  Reached-InStep s ws (next s0 _ ws0 _ r t) = Step-InStep s0 s ws0 ws t (Reached-InStep s0 ws0 r)
