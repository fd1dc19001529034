-- ===== src/Futex/BitWoken.antt =====
-- The wake of kernel/futex.go over the bit sets.
use microdbg_linux.Base.{
  ℕ, ◌+◌, ◌≤◌, ◌<◌, ◌≡◌, arith, List, [], ◌∷◌, none, some, Option, ap, leb, ◌==◌, if◌then◌else◌,
  inl, inr, Bool-cases, ==-self, min, bit_and, false,
}
use microdbg_linux.Base.Assoc.{Assoc}
use microdbg_linux.Base.Word.{mod32}
use microdbg_linux.Machine.{Machine}
use microdbg_linux.Exec.{Await, State, done, Event, ◌>>=◌}
use microdbg_linux.Futex.{or_stall, wake_bits, wake_bitset}
use microdbg_linux.Futex.Woken.{receivers, sends-receivers}

-- How many receivers the bit sets that meet `val3` have, where `ready` has their number for each.
abbrev pub total : ℕ → (ℕ → ℕ) → Assoc Await → ℕ
total val3 ready [] = 0
total val3 ready ((bit, await) ∷ m) =
    if bit_and bit val3 == 0 then total val3 ready m else ready bit + total val3 ready m

module _ {M : Machine} where
  -- What the sends of a wake meet: for each such set, its receivers and then none.
  abbrev pub offered : ℕ → (ℕ → ℕ) → Assoc Await → List (Event M) → List (Event M)
  offered val3 ready [] rest = rest
  offered val3 ready ((bit, await) ∷ m) rest =
      if bit_and bit val3 == 0
      then offered val3 ready m rest
      else receivers (ready bit) (offered val3 ready m rest)

  abbrev counted : Option (ℕ × List (Event M)) → Option ℕ
  counted none = none
  counted (some (i, es)) = some i

  wake_bits-offered :
      (n val3 i : ℕ) (ready : ℕ → ℕ) (m : Assoc Await) (rest : List (Event M))
      → i ≤ n
      → n < mod32
      → counted (wake_bits n val3 i m (offered val3 ready m rest))
        ≡ some (min n (i + total val3 ready m))
  unfolding wake_bits
  wake_bits-offered n val3 i ready [] rest le small = ground arith
  wake_bits-offered n val3 i ready ((bit, await) ∷ m) rest le small =
      elim (Bool-cases (bit_and bit val3 == 0)) [
        | inl apart ↦ rw apart (wake_bits-offered n val3 i ready m rest le small)
        | inr met ↦
            rw (met, sends-receivers n i (ready bit) (offered val3 ready m rest) le small)
              (elim (Bool-cases (leb n (i + ready bit))) [
                | inl full ↦
                    let enough : n ≤ i + ready bit = ground arith in
                    let all : n ≡ min n (i + (ready bit + total val3 ready m)) =
                      omega (arith, enough) in
                    rw (full, ==-self n) (ap some all)
                | inr more ↦
                    let below : i + ready bit < n = ground arith in
                    let other : (i + ready bit == n) ≡ false = ground (arith, below) in
                    let moved : i + ready bit + total val3 ready m
                        ≡ i + (ready bit + total val3 ready m) =
                      omega arith in
                    rw (more, other, ← moved)
                      (wake_bits-offered n val3 (i + ready bit) ready m rest (omega (arith, below))
                        small)
              ])
      ]

  or_stall-counted :
      (o : Option (ℕ × List (Event M))) (i : ℕ) (s : State M)
      → counted o ≡ some i
      → (or_stall o s).0 ≡ done i
  unfolding or_stall ◌>>=◌
  or_stall-counted none i s e = ground arith
  or_stall-counted (some (j, es)) i s e = ground arith

  -- A FUTEX_WAKE_BITSET that finds, for each bit set that meets its own, a number of receivers and
  -- then none wakes as many as it was asked for, or all of these if they are fewer.
  wake_bitset-offered :
      (val val3 : ℕ) (ready : ℕ → ℕ) (s : State M) (rest : List (Event M))
      → val < mod32
      → s.events ≡ offered val3 ready s.bit_awaits rest
      → (wake_bitset val val3 s).0 ≡ done (min val (total val3 ready s.bit_awaits))
  unfolding wake_bitset ◌>>=◌
  wake_bitset-offered val val3 ready s rest small meets =
      let all : 0 + total val3 ready s.bit_awaits ≡ total val3 ready s.bit_awaits = omega arith in
      rw (meets, ← all)
        (or_stall-counted (wake_bits val val3 0 s.bit_awaits (offered val3 ready s.bit_awaits rest))
          _ _ (wake_bits-offered val val3 0 ready s.bit_awaits rest (omega arith) small))
