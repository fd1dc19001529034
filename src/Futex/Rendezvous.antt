-- ===== src/Futex/Rendezvous.antt =====
-- The sends of a FUTEX_WAKE of kernel/futex.go over the calls that wait: a send meets a call that
-- is at its `select` and receives from the channel, whichever it is, and finds none only if there
-- is none.
use microdbg_linux.Base.{
  ℕ, zero, suc, ◌+◌, ◌-◌, ◌<◌, ◌≡◌, refl, arith, min, Bool, true, false, some, List, [], ◌∷◌, ◌++◌,
  ◌==◌, if◌then◌else◌, ◌⊎◌, inl, inr, ==-self, ap,
}
use microdbg_linux.Base.Assoc.{lookup}
use microdbg_linux.Base.Word.{mod32, to_32, word_of}
use microdbg_linux.Machine.{Machine}
use microdbg_linux.Signal.{and_then}
use microdbg_linux.Exec.{Await, State, done, Event, sent, refused, ◌>>=◌}
use microdbg_linux.Futex.{sends, or_stall, word_at, wake, wake_waiters}
use microdbg_linux.Futex.System.{Waiter, on_address, on_bits}

-- A call that waits: at its `select`, or with a value that it was sent and has not looked at.
pub data Call : Type 0 where
  at_select : Waiter → Call
  given : Waiter → ℕ → Call

abbrev pub channel_of : Waiter → ℕ
channel_of (on_address addr ch) = ch
channel_of (on_bits addr bit ch1 ch2) = ch1

abbrev pub receives : ℕ → Call → Bool
receives ch (at_select w) = channel_of w == ch
receives ch (given w value) = false

-- How many calls a send on the channel can meet.
abbrev pub ready : ℕ → List Call → ℕ
ready ch [] = 0
ready ch (c ∷ cs) = (if receives ch c then 1 else 0) + ready ch cs

pub ready-given :
    (ch value : ℕ) (w : Waiter) (front back : List Call)
    → channel_of w ≡ ch
    → ready ch (front ++ at_select w ∷ back) ≡ suc (ready ch (front ++ given w value ∷ back))
ready-given ch value w [] back e = ground arith
ready-given ch value w (c ∷ front) back e = omega (arith, ready-given ch value w front back e)

ready-other :
    (ch j value : ℕ) (w : Waiter) (front back : List Call)
    → channel_of w ≡ ch
    → (ch == j) ≡ false
    → ready j (front ++ at_select w ∷ back) ≡ ready j (front ++ given w value ∷ back)
ready-other ch j value w [] back e ne = ground arith
ready-other ch j value w (c ∷ front) back e ne =
    omega (arith, ready-other ch j value w front back e ne)

abbrev pub give : ℕ → Call → Call
give value (at_select w) = given w value
give value (given w old) = given w old

-- Call by call: as before, or given the value by a send on its channel.
abbrev pub Served : ℕ → ℕ → List Call → List Call → Type 0
Served ch value [] [] = Unit
Served ch value (c ∷ cs) (d ∷ ds) =
    ((d ≡ c) ⊎ ((receives ch c ≡ true) × (d ≡ give value c))) × Served ch value cs ds
Served ch value _ _ = ⊥

Served-refl : (ch value : ℕ) (cs : List Call) → Served ch value cs cs
Served-refl ch value [] = tt
Served-refl ch value (c ∷ cs) = (inl refl, Served-refl ch value cs)

served-select :
    (ch value : ℕ) (w : Waiter) (d : Call)
    → channel_of w ≡ ch
    → (d ≡ given w value) ⊎ ((receives ch (given w value) ≡ true) × (d ≡ given w value))
    → (d ≡ at_select w) ⊎ ((receives ch (at_select w) ≡ true) × (d ≡ given w value))
served-select ch value w d e (inl same) = inr (rw e (==-self ch), same)
served-select ch value w d e (inr (no_call, same)) = inr (rw e (==-self ch), same)

Served-select :
    (ch value : ℕ) (w : Waiter) (front back after : List Call)
    → channel_of w ≡ ch
    → Served ch value (front ++ given w value ∷ back) after
    → Served ch value (front ++ at_select w ∷ back) after
Served-select ch value w [] back [] e h = h
Served-select ch value w [] back (d ∷ ds) e h = (served-select ch value w d e h.0, h.1)
Served-select ch value w (c ∷ front) back [] e h = h
Served-select ch value w (c ∷ front) back (d ∷ ds) e h =
    (h.0, Served-select ch value w front back ds e h.1)

module _ {M : Machine} where
  -- What `n` sends of a value meet, and the calls behind them.
  pub data Meets (ch value : ℕ) : ℕ → List Call → List (Event M) → List Call → Type 0 where
    all_sent : {cs : List Call} → Meets ch value zero cs [] cs
    none_left :
        {n : ℕ} {cs : List Call} → ready ch cs ≡ 0 → Meets ch value (suc n) cs (refused ∷ []) cs
    met :
        {n : ℕ} {es : List (Event M)} {after : List Call} (w : Waiter) (front back : List Call)
        → channel_of w ≡ ch
        → Meets ch value n (front ++ given w value ∷ back) es after
        → Meets ch value (suc n) (front ++ at_select w ∷ back) (sent ∷ es) after

  pub sends-Meets :
      (ch value : ℕ) {n : ℕ} {cs after : List Call} {es : List (Event M)} (i count : ℕ)
      → i + n ≡ count
      → count < mod32
      → Meets ch value n cs es after
      → sends count i es ≡ some (i + min n (ready ch cs), [])
  unfolding sends
  sends-Meets ch value i count e small (all_sent {cs}) =
      let here : i ≡ count = omega arith in
      let least : i + min 0 (ready ch cs) ≡ count = omega arith in
      rw (here, ==-self count) (ap (λ j. some (j, [])) (omega (arith, least)))
  sends-Meets ch value i count e small (none_left {n} {cs} none) =
      let below : (i == count) ≡ false = ground arith in
      let least : i + min (suc n) (ready ch cs) ≡ i = omega (arith, none) in rw (below, least) refl
  sends-Meets ch value i count e small (met {n} {es} w front back on rest) =
      let below : (i == count) ≡ false = ground arith in
      let step : to_32 (i + 1) ≡ i + 1 = omega arith in
      let least : i + 1 + min n (ready ch (front ++ given w value ∷ back))
          ≡ i + min (suc n) (ready ch (front ++ at_select w ∷ back)) =
        omega (arith, ready-given ch value w front back on) in
      rw (below, step, ← least) (sends-Meets ch value (i + 1) count (omega arith) small rest)

  pub after-Meets :
      (ch value : ℕ) {n : ℕ} {cs after : List Call} {es : List (Event M)}
      → Meets ch value n cs es after
      → (ready ch after ≡ ready ch cs - n) × Served ch value cs after
  after-Meets ch value (all_sent {cs}) = (omega arith, Served-refl ch value cs)
  after-Meets ch value (none_left {n} {cs} none) = (omega (arith, none), Served-refl ch value cs)
  after-Meets ch value (met {after} w front back on rest) =
      let (left, served) = after-Meets ch value rest in
      (
        omega (arith, left, ready-given ch value w front back on),
        Served-select ch value w front back after on served,
      )

  -- A FUTEX_WAKE of an address with an entry, whose word can be read, over any calls that wait:
  -- whichever of those that wait on the channel of the entry its sends meet, it returns the smaller
  -- of the number asked for and the number of these calls; each of those that it has met has the
  -- word, and nothing else is changed of the calls; where it has asked for no fewer than there are,
  -- none is left at its `select`.
  pub wake-Meets :
      (uaddr val w : ℕ) (a : Await) (s : State M) {cs after : List Call}
      → lookup uaddr s.awaits ≡ some a
      → and_then (M.read_ptr s.memory uaddr 4) word_of ≡ some w
      → val < mod32
      → Meets a.ch w val cs s.events after
      → ((wake uaddr val s).0 ≡ done (min val (ready a.ch cs)))
        × (ready a.ch after ≡ ready a.ch cs - val)
        × Served a.ch w cs after
  unfolding wake wake_waiters word_at or_stall ◌>>=◌
  wake-Meets uaddr val w a s {cs} {after} found word small m =
      let (left, served) = after-Meets a.ch w m in
      let all : 0 + min val (ready a.ch cs) ≡ min val (ready a.ch cs) = omega arith in
      (rw (found, word, sends-Meets a.ch w 0 val (omega arith) small m) (ap done all), left, served)
