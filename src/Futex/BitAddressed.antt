-- ===== src/Futex/BitAddressed.antt =====
-- A FUTEX_WAKE_BITSET of kernel/futex.go among all calls that wait: it meets those whose bit set meets
-- its own, and no other.
use mathlib.Core.List.{Memᴰ}
use mathlib.Core.List.Memᴰ
use mathlib.Core.Path.{subst}
use microdbg_linux.Base.{
  ℕ, ◌+◌, ◌-◌, ◌<◌, ◌≡◌, refl, arith, min, false, none, some, Option, List, [], ◌∷◌, ◌==◌, inl, inr,
  ==-self, eq_of_==, bit_and, ap, sym, Bool-cases, leb,
}
use microdbg_linux.Base.Assoc.{Assoc, lookup, insert, erase, lookup-insert, lookup-erase}
use microdbg_linux.Base.Word.{mod32}
use microdbg_linux.Machine.{Machine}
use microdbg_linux.Exec.{Await, State, Outcome, done, ◌>>=◌}
use microdbg_linux.Futex.{
  wake_bitset, or_stall, add_to, add_ref, del_ref, drop_from, add_await, add_bit_await, del_await,
  del_bit_await,
}
use microdbg_linux.Futex.Tracks.{Tracks}
use microdbg_linux.Futex.Woken.{Entry-channel}
use microdbg_linux.Futex.System.{
  Waiter, on_address, on_bits, bits, Reached, begin, next, Step, enter, enter_bits, leave,
  leave_bits, elsewhere, Reached-InStep,
}
use microdbg_linux.Futex.BitVisits.{BitMeets-waiters, Visits, wake_bits-Visits}
use microdbg_linux.Futex.BitRendezvous.{
  Woken, BitCall, at_select, told, bit_waiters, bit_ready, at_selects, meeting, BitMeets,
  AllRefused, OnBits,
}

-- No key has two entries.
abbrev Unique : Assoc Await → Type 0
Unique [] = Unit
Unique ((key, a) ∷ m) = (lookup key m ≡ none) × Unique m

Unique-insert : (key : ℕ) (a : Await) (m : Assoc Await) → Unique m → Unique (insert key a m)
unfolding insert lookup
Unique-insert key a [] h = (refl, tt)
Unique-insert key a ((k, b) ∷ m) h = elim (Bool-cases (k == key)) [
  | inl same ↦ rw same h
  | inr other ↦
      rw other (ground (arith, lookup-insert key k a m, h.0, other), Unique-insert key a m h.1)
]

Unique-erase : (key : ℕ) (m : Assoc Await) → Unique m → Unique (erase key m)
unfolding erase lookup
Unique-erase key [] h = tt
Unique-erase key ((k, b) ∷ m) h = elim (Bool-cases (k == key)) [
  | inl same ↦ rw same (Unique-erase key m h.1)
  | inr other ↦ rw other (ground (arith, lookup-erase key k m, h.0), Unique-erase key m h.1)
]

Unique-drop_from :
    (key : ℕ) (m : Assoc Await) (o : Option Await) → Unique m → Unique (drop_from key m o)
Unique-drop_from key m none h = h
Unique-drop_from key m (some a) h = elim (Bool-cases (leb a.ref 1)) [
  | inl last ↦ rw last (Unique-erase key m h)
  | inr more ↦ rw more (Unique-insert key (record a { ref = a.ref - 1 }) m h)
]

lookup-Mem : (key : ℕ) (a : Await) (m : Assoc Await) → lookup key m ≡ some a → Memᴰ (key, a) m
unfolding lookup
lookup-Mem key a [] e = cc
lookup-Mem key a ((k, b) ∷ m) e = elim (Bool-cases (k == key)) [
  | inl same ↦
      let here = eq_of_== k key same in let found : some b ≡ some a = rw same at e in Memᴰ.head cc
  | inr other ↦ Memᴰ.tail (lookup-Mem key a m (ground arith))
]

Mem-lookup :
    (key : ℕ) (a : Await) (m : Assoc Await) → Unique m → Memᴰ (key, a) m → lookup key m ≡ some a
unfolding lookup
Mem-lookup key a [] h t = absurd (Memᴰ.not-nil t)
Mem-lookup key a ((k, b) ∷ m) h (Memᴰ.head e) =
    rw (sym (ap (λ p. p.0) e), ==-self key) (ap some (sym (ap (λ p. p.1) e)))
Mem-lookup key a ((k, b) ∷ m) h (Memᴰ.tail t) =
    let later : lookup key m ≡ some a = Mem-lookup key a m h.1 t in
    elim (Bool-cases (k == key)) [
      | inl same ↦ cc (eq_of_== k key same, h.0, later)
      | inr other ↦ rw other later
    ]

AllRefused-Mem :
    (val3 bit : ℕ) (a : Await) (m : Assoc Await) (cs : List BitCall)
    → AllRefused val3 m cs
    → Memᴰ (bit, a) m
    → (bit_and bit val3 == 0) ≡ false
    → bit_ready a.ch cs ≡ 0
AllRefused-Mem val3 bit a [] cs h t meets = absurd (Memᴰ.not-nil t)
AllRefused-Mem val3 bit a ((k, b) ∷ m) cs h (Memᴰ.head e) meets =
    let key : k ≡ bit = sym (ap (λ p. p.0) e) in
    let entry : b ≡ a = sym (ap (λ p. p.1) e) in
    subst (λ x. bit_ready x.ch cs ≡ 0) entry (h.0 (rw key meets))
AllRefused-Mem val3 bit a ((k, b) ∷ m) cs h (Memᴰ.tail t) meets =
    AllRefused-Mem val3 bit a m cs h.1 t meets

bits-Mem :
    (addr key ch1 ch2 : ℕ) (ws : List Waiter)
    → Memᴰ (on_bits addr key ch1 ch2) ws
    → Memᴰ (key, ch2) (bits ws)
bits-Mem addr key ch1 ch2 [] t = absurd (Memᴰ.not-nil t)
bits-Mem addr key ch1 ch2 (on_address j c ∷ ws) (Memᴰ.head e) = cc
bits-Mem addr key ch1 ch2 (on_address j c ∷ ws) (Memᴰ.tail t) = bits-Mem addr key ch1 ch2 ws t
bits-Mem addr key ch1 ch2 (on_bits j k c d ∷ ws) (Memᴰ.head e) = Memᴰ.head cc
bits-Mem addr key ch1 ch2 (on_bits j k c d ∷ ws) (Memᴰ.tail t) =
    Memᴰ.tail (bits-Mem addr key ch1 ch2 ws t)

Tracks-OnBits :
    (n : ℕ) (m : Assoc Await) (ws : List Waiter) → Tracks n m (bits ws) → Unique m → OnBits m ws
Tracks-OnBits n m ws tracks unique bit a inside addr key ch1 waits =
    let (b, there, on) =
      Entry-channel key a.ch (bits ws) (lookup key m) (tracks.entry key)
        (bits-Mem addr key ch1 a.ch ws waits) in
    tracks.apart key bit b a there (Mem-lookup bit a m unique inside) on

-- Where no call receives from the channel of a bit set that meets `val3`, none meets it.
meeting-none :
    (val3 : ℕ) (cs : List BitCall)
    → ((addr key ch1 ch2 : ℕ)
        → Memᴰ (on_bits addr key ch1 ch2) (bit_waiters cs)
        → (bit_and key val3 == 0) ≡ false
        → bit_ready ch2 cs ≡ 0)
    → meeting val3 cs ≡ 0
meeting-none val3 [] h = refl
meeting-none val3 (told w ∷ cs) h =
    omega (arith, meeting-none val3 cs (λ a k c d t e. omega (arith, h a k c d (Memᴰ.tail t) e)))
meeting-none val3 (at_select (on_address j c) ∷ cs) h =
    omega (arith, meeting-none val3 cs (λ a k c d t e. omega (arith, h a k c d (Memᴰ.tail t) e)))
meeting-none val3 (at_select (on_bits j k c d) ∷ cs) h =
    let rest = meeting-none val3 cs (λ a k c d t e. omega (arith, h a k c d (Memᴰ.tail t) e)) in
    elim (Bool-cases (bit_and k val3 == 0)) [
      | inl passes ↦ rw passes (omega (arith, rest))
      | inr meets ↦ absurd (ground (arith, h j k c d (Memᴰ.head refl) meets, ==-self d))
    ]

module _ {M : Machine} where
  Step-Unique :
      (s s' : State M) (ws ws' : List Waiter)
      → Step s ws s' ws'
      → Unique s.bit_awaits
      → Unique s'.bit_awaits
  unfolding add_await add_bit_await add_ref del_await del_bit_await del_ref ◌>>=◌
  Step-Unique s s' ws ws' (enter addr ch _ _ _ e) h =
      subst (λ (r : Outcome ℕ × State M). Unique r.1.bit_awaits) e h
  Step-Unique s s' ws ws' (enter_bits addr bit ch1 ch2 _ _ _ e) h =
      subst (λ (r : Outcome (ℕ × ℕ) × State M). Unique r.1.bit_awaits) e
        (Unique-insert bit (add_to (add_await addr s).1.channels (lookup bit s.bit_awaits))
          s.bit_awaits h)
  Step-Unique s s' ws ws' (leave addr ch _ front back) h = h
  Step-Unique s s' ws ws' (leave_bits addr bit ch1 ch2 _ front back) h =
      Unique-drop_from bit s.bit_awaits (lookup bit s.bit_awaits) h
  Step-Unique s s' ws ws' (elsewhere _ _ _ a b c) h = rw b h

  Reached-Unique : (s : State M) (ws : List Waiter) → Reached s ws → Unique s.bit_awaits
  Reached-Unique s ws (begin _ a b) = rw b tt
  Reached-Unique s ws (next s0 _ ws0 _ r t) = Step-Unique s0 s ws0 ws t (Reached-Unique s0 ws0 r)

  visit :
      (val val3 : ℕ) (s : State M) {cs after : List BitCall}
      → Reached s (bit_waiters cs)
      → val < mod32
      → BitMeets val3 val s.bit_awaits cs s.events after
      → Visits val val3 0 val s.bit_awaits cs s.events after
  visit val val3 s {cs} reached small m =
      let tracks = (Reached-InStep s (bit_waiters cs) reached).1 in
      let unique = Reached-Unique s (bit_waiters cs) reached in
      wake_bits-Visits val val3 0 (omega arith) small
        (Tracks-OnBits s.channels s.bit_awaits (bit_waiters cs) tracks unique) m

  pub wake_bitset-leaves :
      (val val3 : ℕ) (s : State M) {cs after : List BitCall}
      → Reached s (bit_waiters cs)
      → val < mod32
      → BitMeets val3 val s.bit_awaits cs s.events after
      → (wake_bitset val val3 s).1 ≡ record s { events = [] }
  unfolding wake_bitset or_stall ◌>>=◌
  wake_bitset-leaves val val3 s reached small m =
      let (k, le, result, left, fewer, woken, ends) = visit val val3 s reached small m in
      rw result refl

  -- Among all calls that wait, in any state that waits reach that enter and leave, a FUTEX_WAKE_BITSET
  -- while whose sends last no call that has been told goes back to its `select`: whichever calls the
  -- sends meet on the channel of each entry, it returns the smaller of the
  -- number asked for and the number of calls at their `select` whose bit set meets its own; so many
  -- fewer of these are left at their `select`, each has been told or is as before, every other call
  -- is as before, and none comes or goes.
  pub wake_bitset-meeting :
      (val val3 : ℕ) (s : State M) {cs after : List BitCall}
      → Reached s (bit_waiters cs)
      → val < mod32
      → BitMeets val3 val s.bit_awaits cs s.events after
      → ((wake_bitset val val3 s).0 ≡ done (min val (meeting val3 cs)))
        × (meeting val3 after ≡ meeting val3 cs - val)
        × (at_selects after + min val (meeting val3 cs) ≡ at_selects cs)
        × (bit_waiters after ≡ bit_waiters cs)
        × Woken val3 cs after
  unfolding wake_bitset or_stall ◌>>=◌
  wake_bitset-meeting val val3 s {cs} {after} reached small m =
      let tracks = (Reached-InStep s (bit_waiters cs) reached).1 in
      let same = BitMeets-waiters m in
      let (k, le, result, left, fewer, woken, ends) = visit val val3 s reached small m in
      let least : k ≡ min val (meeting val3 cs) = elim ends [
        | inl all ↦ omega (arith, left, all)
        | inr gone ↦
            let none_meets : meeting val3 after ≡ 0 =
              meeting-none val3 after (λ addr key ch1 ch2 t meets.
                let (b, there, to) =
                  Entry-channel key ch2 (bits (bit_waiters cs)) (lookup key s.bit_awaits)
                    (tracks.entry key)
                    (bits-Mem addr key ch1 ch2 (bit_waiters cs)
                      (subst (Memᴰ (on_bits addr key ch1 ch2)) same t)) in
                subst (λ ch. bit_ready ch after ≡ 0) to
                  (AllRefused-Mem val3 key b s.bit_awaits after gone
                    (lookup-Mem key b s.bit_awaits there) meets)) in
            omega (arith, left, le, none_meets)
      ] in
      (
        rw result (ap done (omega (arith, least))),
        omega (arith, left, least),
        omega (arith, fewer, least),
        same,
        woken,
      )
