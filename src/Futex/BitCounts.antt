-- ===== src/Futex/BitCounts.antt =====
-- The reference counts of kernel/futex.go over a FUTEX_WAIT_BITSET.
use microdbg_linux.Base.{ℕ, ◌≡◌, arith, Bool, ◌⊎◌}
use microdbg_linux.Base.Assoc.{Assoc, lookup}
use microdbg_linux.Machine.{Machine}
use microdbg_linux.Exec.{Await, Exec, State, Outcome, stalled, gets, ◌>>=◌, ◌>>◌}
use microdbg_linux.Futex.{wait_bits_loop, deferred, word_at, del_bit_await, add_bit_await}
use microdbg_linux.Futex.Counts.{Shut}

-- Both maps of one state are those of the other.
abbrev pub SameMaps : {M : Machine} → State M → State M → Type 0
SameMaps s x = (x.awaits ≡ s.awaits) × (x.bit_awaits ≡ s.bit_awaits)

-- What the loop leaves: both maps as they were, or none.
abbrev Left : {M : Machine} → State M → Outcome ℕ × State M → Type 0
Left s r = SameMaps s r.1 ⊎ Shut r

module _ {M : Machine} where
  word_at-SameMaps : (uaddr : ℕ) (s : State M) → SameMaps s (word_at uaddr s).1
  unfolding word_at ◌>>=◌
  word_at-SameMaps uaddr s = (ground arith, ground arith)

  -- A call has not come back, or has left the references of both maps as they were, or was shut out.
  abbrev pub Restored : Assoc Await → Assoc Await → Outcome ℕ × State M → Type 0
  Restored awaits bits r =
      (r.0 ≡ stalled)
      ⊎ ((j : ℕ)
          → (lookup j r.1.awaits ≡ lookup j awaits) × (lookup j r.1.bit_awaits ≡ lookup j bits))
      ⊎ Shut r

  -- What follows the head of the call.
  abbrev waiting : ℕ → ℕ → ℕ → Bool → Exec M ℕ
  waiting uaddr val val3 timed = do
    add_bit_await uaddr val3
    deferred (del_bit_await uaddr val3)
        (do es ← gets (λ s. s.events); wait_bits_loop uaddr timed val es)
