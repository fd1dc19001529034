-- ===== src/Futex/Addressed.antt =====
-- A FUTEX_WAKE of kernel/futex.go among all calls that wait: it meets those that wait on its address,
-- and no other.
use mathlib.Core.List.{Memᴰ}
use mathlib.Core.Path.{subst}
use microdbg_linux.Base.{
  ℕ, ◌+◌, ◌-◌, ◌<◌, ◌≡◌, refl, sym, ap, ◌∙◌, arith, min, Bool, true, false, some, List, [], ◌∷◌,
  ◌==◌, if◌then◌else◌, inl, inr, Bool-cases, eq_of_==, ==-self,
}
use microdbg_linux.Base.Assoc.{Assoc, lookup}
use microdbg_linux.Base.Word.{mod32, word_of}
use microdbg_linux.Machine.{Machine}
use microdbg_linux.Signal.{and_then}
use microdbg_linux.Exec.{Await, State, done}
use microdbg_linux.Futex.{wake}
use microdbg_linux.Futex.Tracks.{Tracks}
use microdbg_linux.Futex.System.{Waiter, on_address, on_bits, addresses, Reached, Reached-InStep}
use microdbg_linux.Futex.Woken.{Reached-channel}
use microdbg_linux.Futex.Rendezvous.{
  Call, at_select, given, channel_of, receives, ready, give, Served, Meets, wake-Meets,
}

abbrev pub address_of : Waiter → ℕ
address_of (on_address addr ch) = addr
address_of (on_bits addr bit ch1 ch2) = addr

abbrev pub waiter_of : Call → Waiter
waiter_of (at_select w) = w
waiter_of (given w value) = w

abbrev pub waiters : List Call → List Waiter
waiters [] = []
waiters (c ∷ cs) = waiter_of c ∷ waiters cs

abbrev pub selects : ℕ → Call → Bool
selects addr (at_select w) = address_of w == addr
selects addr (given w value) = false

-- How many calls are at their `select` that entered under the address.
abbrev pub selecting : ℕ → List Call → ℕ
selecting addr [] = 0
selecting addr (c ∷ cs) = (if selects addr c then 1 else 0) + selecting addr cs

-- The channel belongs to the address: the calls on the one are those on the other.
abbrev pub Agrees : ℕ → ℕ → List Waiter → Type 0
Agrees addr ch [] = Unit
Agrees addr ch (w ∷ ws) = ((channel_of w == ch) ≡ (address_of w == addr)) × Agrees addr ch ws

agree :
    (n addr j c : ℕ) (m : Assoc Await) {hs : List (ℕ × ℕ)} (a b : Await)
    → Tracks n m hs
    → lookup addr m ≡ some a
    → lookup j m ≡ some b
    → b.ch ≡ c
    → (c == a.ch) ≡ (j == addr)
agree n addr j c m a b tracks here there on = elim (Bool-cases (j == addr)) [
  | inl e ↦
      let one : lookup j m ≡ lookup addr m = ap (λ k. lookup k m) (eq_of_== j addr e) in
      let same : c ≡ a.ch = cc in rw (e, same, ==-self a.ch) refl
  | inr e ↦ elim (Bool-cases (c == a.ch)) [
    | inl f ↦
        let same : j ≡ addr = tracks.apart j addr b a there here (on ∙ eq_of_== c a.ch f) in
        absurd (ground (arith, e, same))
    | inr f ↦ f ∙ sym e
  ]
]

module _ (n addr : ℕ) (m : Assoc Await) {hs : List (ℕ × ℕ)} (a : Await) (tracks : Tracks n m hs)
    (here : lookup addr m ≡ some a) where
  Tracks-Agrees :
      (ws : List Waiter)
      → ((j c : ℕ) → Memᴰ (j, c) (addresses ws) → (b : Await) × (lookup j m ≡ some b) × (b.ch ≡ c))
      → Agrees addr a.ch ws
  Tracks-Agrees [] entries = tt
  Tracks-Agrees (on_address j c ∷ ws) entries =
      let (b, there, on) = entries j c (Memᴰ.head refl) in
      (
        agree n addr j c m a b tracks here there on,
        Tracks-Agrees ws (λ k d t. entries k d (Memᴰ.tail t)),
      )
  Tracks-Agrees (on_bits j bit c ch2 ∷ ws) entries =
      let (b, there, on) = entries j c (Memᴰ.head refl) in
      (
        agree n addr j c m a b tracks here there on,
        Tracks-Agrees ws (λ k d t. entries k d (Memᴰ.tail t)),
      )

pub ready-selecting :
    (addr ch : ℕ) (cs : List Call) → Agrees addr ch (waiters cs) → ready ch cs ≡ selecting addr cs
ready-selecting addr ch [] h = refl
ready-selecting addr ch (at_select w ∷ cs) h = rw (h.0, ready-selecting addr ch cs h.1) refl
ready-selecting addr ch (given w value ∷ cs) h = omega (arith, ready-selecting addr ch cs h.1)

give-waiter_of : (value : ℕ) (c : Call) → waiter_of (give value c) ≡ waiter_of c
give-waiter_of value (at_select w) = refl
give-waiter_of value (given w old) = refl

give-selects :
    (addr ch j value : ℕ) (c : Call)
    → (channel_of (waiter_of c) == ch) ≡ (address_of (waiter_of c) == addr)
    → (addr == j) ≡ false
    → receives ch c ≡ true
    → selects j (give value c) ≡ selects j c
give-selects addr ch j value (at_select w) on other met =
    let here : address_of w ≡ addr = eq_of_== (address_of w) addr (sym on ∙ met) in
    rw here (sym other)
give-selects addr ch j value (given w old) on other met = cc

Served-waiters :
    (ch value : ℕ) (cs ds : List Call) → Served ch value cs ds → waiters ds ≡ waiters cs
Served-waiters ch value [] [] h = refl
Served-waiters ch value [] (d ∷ ds) h = absurd h
Served-waiters ch value (c ∷ cs) [] h = absurd h
Served-waiters ch value (c ∷ cs) (d ∷ ds) (inl e, h) = rw (e, Served-waiters ch value cs ds h) refl
Served-waiters ch value (c ∷ cs) (d ∷ ds) (inr (met, e), h) =
    rw (e, give-waiter_of value c, Served-waiters ch value cs ds h) refl

Served-selecting :
    (addr ch j value : ℕ) (cs ds : List Call)
    → Agrees addr ch (waiters cs)
    → (addr == j) ≡ false
    → Served ch value cs ds
    → selecting j ds ≡ selecting j cs
Served-selecting addr ch j value [] [] on other h = refl
Served-selecting addr ch j value [] (d ∷ ds) on other h = absurd h
Served-selecting addr ch j value (c ∷ cs) [] on other h = absurd h
Served-selecting addr ch j value (c ∷ cs) (d ∷ ds) on other (inl e, h) =
    rw (e, Served-selecting addr ch j value cs ds on.1 other h) refl
Served-selecting addr ch j value (c ∷ cs) (d ∷ ds) on other (inr (met, e), h) =
    rw
      (
        e,
        give-selects addr ch j value c on.0 other met,
        Served-selecting addr ch j value cs ds on.1 other h,
      )
      refl

module _ {M : Machine} where
  pub Reached-Agrees :
      (addr : ℕ) (a : Await) (s : State M) (ws : List Waiter)
      → Reached s ws
      → lookup addr s.awaits ≡ some a
      → Agrees addr a.ch ws
  Reached-Agrees addr a s ws reached found =
      Tracks-Agrees s.channels addr s.awaits a (Reached-InStep s ws reached).0 found ws
        (λ j c t. Reached-channel j c s ws reached t)

  -- Among all calls that wait, in any state that waits reach that enter and leave, a FUTEX_WAKE of an
  -- address on which some call waits, whose word can be read, and while whose sends last no call that
  -- has been given a value goes back to its `select`: whichever calls the sends meet, it returns the smaller of the number asked for and the number of calls at their `select` that
  -- entered under the address; so many fewer of these are left, the calls under any other address are
  -- left alone, and no call comes or goes.
  pub wake-selecting :
      (uaddr val w : ℕ) (a : Await) (s : State M) {cs after : List Call}
      → Reached s (waiters cs)
      → lookup uaddr s.awaits ≡ some a
      → and_then (M.read_ptr s.memory uaddr 4) word_of ≡ some w
      → val < mod32
      → Meets a.ch w val cs s.events after
      → ((wake uaddr val s).0 ≡ done (min val (selecting uaddr cs)))
        × (selecting uaddr after ≡ selecting uaddr cs - val)
        × ((j : ℕ) → (uaddr == j) ≡ false → selecting j after ≡ selecting j cs)
        × (waiters after ≡ waiters cs)
  wake-selecting uaddr val w a s {cs} {after} reached found word small m =
      let (result, left, served) = wake-Meets uaddr val w a s found word small m in
      let on = Reached-Agrees uaddr a s (waiters cs) reached found in
      let same : waiters after ≡ waiters cs = Served-waiters a.ch w cs after served in
      let before_wake : ready a.ch cs ≡ selecting uaddr cs = ready-selecting uaddr a.ch cs on in
      let behind_wake : ready a.ch after ≡ selecting uaddr after =
        ready-selecting uaddr a.ch after (subst (Agrees uaddr a.ch) (sym same) on) in
      (
        result ∙ ap (λ k. done (min val k)) before_wake,
        omega (arith, left, before_wake, behind_wake),
        (λ j other. Served-selecting uaddr a.ch j w cs after on other served),
        same,
      )
