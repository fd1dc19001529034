-- ===== src/Futex/AtMost.antt =====
-- The two wakes of kernel/futex.go wake no more than they are asked for, whatever their sends meet.
use microdbg_linux.Base.{
  ℕ, ◌+◌, ◌≤◌, ◌<◌, ◌≡◌, refl, arith, ◌⊎◌, inl, inr, Bool, true, false, Option, none, some, List,
  [], ◌∷◌, bit_and, ◌==◌, if◌then◌else◌, Bool-cases, Option-cases,
}
use microdbg_linux.Base.Word.{mod32, to_32, word_of}
use microdbg_linux.Base.Assoc.{Assoc, lookup}
use microdbg_linux.Machine.{Machine}
use microdbg_linux.Signal.{and_then}
use microdbg_linux.Exec.{Await, State, Outcome, done}
use microdbg_linux.Exec.{Event, sent, refused, timeout, closed, signalled, received, stored, ◌>>=◌}
use microdbg_linux.Futex.{
  futex_cmd_mask, futex_wake, futex_wake_bitset, word_at, sends, or_stall, channel, wake_waiters,
  wake, wake_bits, wake_bitset, futex,
}

-- The count of a result is at most a number.
abbrev pub AtMost : ℕ → Outcome ℕ → Type 0
AtMost n (done v) = v ≤ n
AtMost n _ = Unit

module _ {M : Machine} where
  abbrev Within : ℕ → Option (ℕ × List (Event M)) → Type 0
  Within n none = Unit
  Within n (some (i, es)) = i ≤ n

  Within-if :
      (n i : ℕ) (es : List (Event M)) (b : Bool) (r : Option (ℕ × List (Event M)))
      → i ≤ n
      → (b ≡ false → Within n r)
      → Within n (if b then some (i, es) else r)
  Within-if n i es true r here there = here
  Within-if n i es false r here there = there refl

  sends-Within :
      (count i : ℕ) (es : List (Event M))
      → count < mod32
      → i ≤ count
      → Within count (sends count i es)
  unfolding sends
  sends-Within count i [] small le = Within-if count i [] (i == count) none le (λ _. tt)
  sends-Within count i (sent ∷ es) small le =
      Within-if count i (sent ∷ es) (i == count) _ le λ more.
        let next : to_32 (i + 1) ≤ count = ground (arith, more) in
        sends-Within count (to_32 (i + 1)) es small next
  sends-Within count i (refused ∷ es) small le =
      Within-if count i (refused ∷ es) (i == count) _ le (λ _. le)
  sends-Within count i (timeout ∷ es) small le = Within-if count i _ (i == count) none le (λ _. tt)
  sends-Within count i (closed ∷ es) small le = Within-if count i _ (i == count) none le (λ _. tt)
  sends-Within count i (signalled ∷ es) small le =
      Within-if count i _ (i == count) none le (λ _. tt)
  sends-Within count i (received raw ∷ es) small le =
      Within-if count i _ (i == count) none le (λ _. tt)
  sends-Within count i (stored m ∷ es) small le = Within-if count i _ (i == count) none le (λ _. tt)

  next_entry-Within :
      (count val3 : ℕ) (rest : Assoc Await) (r : Option (ℕ × List (Event M)))
      → Within count r
      → ((i : ℕ) (es : List (Event M)) → i ≤ count → Within count (wake_bits count val3 i rest es))
      → Within count (elim r [
        | none ↦ none
        | some (i', es') ↦
            let more = wake_bits count val3 i' rest es' in
            if i' == count then some (i', es') else more
      ])
  next_entry-Within count val3 rest none le more = tt
  next_entry-Within count val3 rest (some (i', es')) le more =
      Within-if count i' es' (i' == count) _ le (λ _. more i' es' le)

  wake_bits-Within :
      (count val3 i : ℕ) (m : Assoc Await) (es : List (Event M))
      → count < mod32
      → i ≤ count
      → Within count (wake_bits count val3 i m es)
  unfolding wake_bits
  wake_bits-Within count val3 i [] es small le = le
  wake_bits-Within count val3 i ((bit, await) ∷ rest) es small le =
      elim (Bool-cases (bit_and bit val3 == 0)) [
        | inl none_met ↦ rw none_met (wake_bits-Within count val3 i rest es small le)
        | inr some_met ↦ rw some_met (
            next_entry-Within count val3 rest (sends count i es) (sends-Within count i es small le)
              (λ i' es' le'. wake_bits-Within count val3 i' rest es' small le'))
      ]

  or_stall-AtMost :
      (n : ℕ) (r : Option (ℕ × List (Event M))) (s : State M)
      → Within n r
      → AtMost n (or_stall r s).0
  unfolding or_stall ◌>>=◌
  or_stall-AtMost n none s h = tt
  or_stall-AtMost n (some (i, es)) s h = h

  wake_waiters-AtMost :
      (uaddr val : ℕ) (found : Option ℕ) (s : State M)
      → val < mod32
      → AtMost val (wake_waiters uaddr val found s).0
  unfolding wake_waiters word_at ◌>>=◌
  wake_waiters-AtMost uaddr val none s small = omega arith
  wake_waiters-AtMost uaddr val (some ch) s small =
      elim (Option-cases (and_then (M.read_ptr s.memory uaddr 4) word_of)) [
        | inl e ↦ rw e tt
        | inr (w, e) ↦ rw e (
            or_stall-AtMost val (sends val 0 s.events) s
              (sends-Within val 0 s.events small (omega arith)))
      ]

  wake-AtMost : (uaddr val : ℕ) (s : State M) → val < mod32 → AtMost val (wake uaddr val s).0
  unfolding wake ◌>>=◌
  wake-AtMost uaddr val s small =
      wake_waiters-AtMost uaddr val (channel (lookup uaddr s.awaits)) s small

  wake_bitset-AtMost :
      (val val3 : ℕ) (s : State M) → val < mod32 → AtMost val (wake_bitset val val3 s).0
  unfolding wake_bitset ◌>>=◌
  wake_bitset-AtMost val val3 s small =
      or_stall-AtMost val _ s
        (wake_bits-Within val val3 0 s.bit_awaits s.events small (omega arith))

  -- A futex call with the command FUTEX_WAKE or FUTEX_WAKE_BITSET, with its flags, returns at most the
  -- number that it asks for, whatever its sends meet and in whichever order, or it fails.
  pub futex-AtMost :
      (uaddr op val utime uaddr2 val3 : ℕ) (s : State M)
      → val < mod32
      → (bit_and op futex_cmd_mask ≡ futex_wake) ⊎ (bit_and op futex_cmd_mask ≡ futex_wake_bitset)
      → AtMost val (futex uaddr op val utime uaddr2 val3 s).0
  unfolding futex
  futex-AtMost uaddr op val utime uaddr2 val3 s small (inl e) = rw e (wake-AtMost uaddr val s small)
  futex-AtMost uaddr op val utime uaddr2 val3 s small (inr e) =
      rw e (wake_bitset-AtMost val val3 s small)
