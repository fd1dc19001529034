-- ===== src/Futex/BitRendezvous.antt =====
-- The sends of a FUTEX_WAKE_BITSET of kernel/futex.go over the calls that wait on bit sets: each
-- entry's channel in turn, to calls at their `select` that receive from it, whichever these are,
-- until one finds none.
use mathlib.Core.List.{Memᴰ}
use microdbg_linux.Base.{
  ℕ, zero, suc, ◌+◌, ◌≤◌, ◌≡◌, refl, arith, Bool, true, false, not, List, [], ◌∷◌, ◌++◌, ◌==◌,
  if◌then◌else◌, ◌⊎◌, inl, inr, bit_and, ap,
}
use microdbg_linux.Base.Assoc.{Assoc}
use microdbg_linux.Machine.{Machine}
use microdbg_linux.Exec.{Await, Event, sent, refused}
use microdbg_linux.Futex.System.{Waiter, on_bits}

-- A call that waits: at its `select`, or with a signal that it has received from the channel of its
-- bits and not looked at.
pub data BitCall : Type 0 where
  at_select : Waiter → BitCall
  told : Waiter → BitCall

abbrev pub bit_waiter_of : BitCall → Waiter
bit_waiter_of (at_select w) = w
bit_waiter_of (told w) = w

abbrev pub bit_waiters : List BitCall → List Waiter
bit_waiters [] = []
bit_waiters (c ∷ cs) = bit_waiter_of c ∷ bit_waiters cs

abbrev hears : ℕ → BitCall → Bool
hears ch (at_select (on_bits addr bit ch1 ch2)) = ch2 == ch
hears ch _ = false

-- How many calls a send on the channel can meet.
abbrev pub bit_ready : ℕ → List BitCall → ℕ
bit_ready ch [] = 0
bit_ready ch (c ∷ cs) = (if hears ch c then 1 else 0) + bit_ready ch cs

-- How many calls are at their `select`, whatever they wait on.
abbrev pub at_selects : List BitCall → ℕ
at_selects [] = 0
at_selects (at_select w ∷ cs) = suc (at_selects cs)
at_selects (told w ∷ cs) = at_selects cs

abbrev pub meets_bits : ℕ → BitCall → Bool
meets_bits val3 (at_select (on_bits addr bit ch1 ch2)) = not (bit_and bit val3 == 0)
meets_bits val3 _ = false

-- How many calls are at their `select` whose bit set meets `val3`.
abbrev pub meeting : ℕ → List BitCall → ℕ
meeting val3 [] = 0
meeting val3 (c ∷ cs) = (if meets_bits val3 c then 1 else 0) + meeting val3 cs

pub bit_ready-told :
    (ch : ℕ) (w : Waiter) (front back : List BitCall)
    → bit_ready ch (front ++ told w ∷ back) ≤ bit_ready ch (front ++ at_select w ∷ back)
bit_ready-told ch w [] back = omega arith
bit_ready-told ch w (c ∷ front) back = omega (arith, bit_ready-told ch w front back)

pub at_selects-told :
    (w : Waiter) (front back : List BitCall)
    → at_selects (front ++ at_select w ∷ back) ≡ suc (at_selects (front ++ told w ∷ back))
at_selects-told w [] back = refl
at_selects-told w (at_select v ∷ front) back = ap suc (at_selects-told w front back)
at_selects-told w (told v ∷ front) back = at_selects-told w front back

pub bit_waiters-told :
    (w : Waiter) (front back : List BitCall)
    → bit_waiters (front ++ told w ∷ back) ≡ bit_waiters (front ++ at_select w ∷ back)
bit_waiters-told w [] back = refl
bit_waiters-told w (c ∷ front) back =
    ap (λ ws. bit_waiter_of c ∷ ws) (bit_waiters-told w front back)

pub Mem-select :
    (w : Waiter) (front back : List BitCall) → Memᴰ w (bit_waiters (front ++ at_select w ∷ back))
Mem-select w [] back = Memᴰ.head refl
Mem-select w (c ∷ front) back = Memᴰ.tail (Mem-select w front back)

pub meeting-told :
    (val3 addr key ch1 ch2 : ℕ) (front back : List BitCall)
    → (bit_and key val3 == 0) ≡ false
    → let w = on_bits addr key ch1 ch2 in
      meeting val3 (front ++ at_select w ∷ back) ≡ suc (meeting val3 (front ++ told w ∷ back))
meeting-told val3 addr key ch1 ch2 [] back e = rw e (omega arith)
meeting-told val3 addr key ch1 ch2 (c ∷ front) back e =
    omega (arith, meeting-told val3 addr key ch1 ch2 front back e)

-- Behind a visit of all entries, none that meets `val3` has a call at its `select`.
abbrev pub AllRefused : ℕ → Assoc Await → List BitCall → Type 0
AllRefused val3 [] cs = Unit
AllRefused val3 ((bit, a) ∷ m) cs =
    ((bit_and bit val3 == 0) ≡ false → bit_ready a.ch cs ≡ 0) × AllRefused val3 m cs

-- Who waits on the channel of an entry waits on its bits.
abbrev pub OnBits : Assoc Await → List Waiter → Type 0
OnBits m ws =
    (bit : ℕ) (a : Await)
    → Memᴰ (bit, a) m
    → (addr key ch1 : ℕ) → Memᴰ (on_bits addr key ch1 a.ch) ws
    → key ≡ bit

-- Call by call: as before, or told by a send on the channel of a bit set that meets `val3`.
abbrev pub Woken : ℕ → List BitCall → List BitCall → Type 0
Woken val3 [] [] = Unit
Woken val3 (c ∷ cs) (d ∷ ds) =
    ((d ≡ c) ⊎ ((meets_bits val3 c ≡ true) × (d ≡ told (bit_waiter_of c)))) × Woken val3 cs ds
Woken val3 _ _ = ⊥

pub Woken-refl : (val3 : ℕ) (cs : List BitCall) → Woken val3 cs cs
Woken-refl val3 [] = tt
Woken-refl val3 (c ∷ cs) = (inl refl, Woken-refl val3 cs)

woken-select :
    (val3 : ℕ) (w : Waiter) (d : BitCall)
    → meets_bits val3 (at_select w) ≡ true
    → (d ≡ told w) ⊎ ((meets_bits val3 (told w) ≡ true) × (d ≡ told w))
    → (d ≡ at_select w) ⊎ ((meets_bits val3 (at_select w) ≡ true) × (d ≡ told w))
woken-select val3 w d e (inl same) = inr (e, same)
woken-select val3 w d e (inr (no_call, same)) = inr (e, same)

pub Woken-select :
    (val3 : ℕ) (w : Waiter) (front back after : List BitCall)
    → meets_bits val3 (at_select w) ≡ true
    → Woken val3 (front ++ told w ∷ back) after
    → Woken val3 (front ++ at_select w ∷ back) after
Woken-select val3 w [] back [] e h = h
Woken-select val3 w [] back (d ∷ ds) e h = (woken-select val3 w d e h.0, h.1)
Woken-select val3 w (c ∷ front) back [] e h = h
Woken-select val3 w (c ∷ front) back (d ∷ ds) e h = (h.0, Woken-select val3 w front back ds e h.1)

module _ {M : Machine} where
  -- What the visit of the entries meets, with at most so many sends to make, and the calls behind it.
  pub data BitMeets (val3 : ℕ)
      : ℕ → Assoc Await → List BitCall → List (Event M) → List BitCall → Type 0 where
    visited : {n : ℕ} {cs : List BitCall} → BitMeets val3 n [] cs [] cs
    full : {m : Assoc Await} {cs : List BitCall} → BitMeets val3 zero m cs [] cs
    passed :
        {n : ℕ} {m : Assoc Await} {cs after : List BitCall} {es : List (Event M)} (bit : ℕ)
        (a : Await)
        → (bit_and bit val3 == 0) ≡ true
        → BitMeets val3 n m cs es after
        → BitMeets val3 n ((bit, a) ∷ m) cs es after
    none_left :
        {n : ℕ} {m : Assoc Await} {cs after : List BitCall} {es : List (Event M)} (bit : ℕ)
        (a : Await)
        → (bit_and bit val3 == 0) ≡ false
        → bit_ready a.ch cs ≡ 0
        → BitMeets val3 (suc n) m cs es after
        → BitMeets val3 (suc n) ((bit, a) ∷ m) cs (refused ∷ es) after
    met :
        {n : ℕ} {m : Assoc Await} {after : List BitCall} {es : List (Event M)} (bit : ℕ) (a : Await)
        (addr key ch1 : ℕ) (front back : List BitCall)
        → (bit_and bit val3 == 0) ≡ false
        → BitMeets val3 n ((bit, a) ∷ m) (front ++ told (on_bits addr key ch1 a.ch) ∷ back) es after
        → BitMeets val3
            (suc n)
            ((bit, a) ∷ m)
            (front ++ at_select (on_bits addr key ch1 a.ch) ∷ back)
            (sent ∷ es)
            after
