-- ===== src/Futex/BitVisits.antt =====
-- What comes of the loops of a FUTEX_WAKE_BITSET of kernel/futex.go over the entries.
use mathlib.Core.List.{Memᴰ}
use mathlib.Core.Path.{subst}
use microdbg_linux.Base.{
  ℕ, suc, ◌+◌, ◌≤◌, ◌<◌, ◌≡◌, refl, arith, true, false, some, List, [], ◌∷◌, ◌++◌, ◌==◌, ◌⊎◌, inl,
  inr, bit_and, ap, sym, ◌∙◌,
}
use microdbg_linux.Base.Assoc.{Assoc}
use microdbg_linux.Base.Word.{mod32, to_32}
use microdbg_linux.Machine.{Machine}
use microdbg_linux.Exec.{Await, Event, sent, refused}
use microdbg_linux.Futex.{sends, wake_bits}
use microdbg_linux.Futex.System.{on_bits}
use microdbg_linux.Futex.BitRendezvous.{
  BitCall, told, bit_waiters, bit_ready, at_selects, meeting, AllRefused, OnBits, Woken, Woken-refl,
  Woken-select, bit_ready-told, bit_waiters-told, Mem-select, meeting-told, at_selects-told,
  BitMeets, visited, full, passed, none_left, met,
}

module _ {M : Machine} where
  wake_bits-full :
      (count val3 : ℕ) (m : Assoc Await)
      → wake_bits {M = M} count val3 count m [] ≡ some (count, [])
  unfolding wake_bits sends
  wake_bits-full count val3 [] = refl
  wake_bits-full count val3 ((bit, a) ∷ m) = ground (arith, wake_bits-full count val3 m)

  wake_bits-passed :
      (count val3 i bit : ℕ) (a : Await) (m : Assoc Await) (es : List (Event M))
      → (bit_and bit val3 == 0) ≡ true
      → wake_bits count val3 i ((bit, a) ∷ m) es ≡ wake_bits count val3 i m es
  unfolding wake_bits
  wake_bits-passed count val3 i bit a m es passes = rw passes refl

  wake_bits-refused :
      (count val3 i bit : ℕ) (a : Await) (m : Assoc Await) (es : List (Event M))
      → (bit_and bit val3 == 0) ≡ false
      → (i == count) ≡ false
      → wake_bits count val3 i ((bit, a) ∷ m) (refused ∷ es) ≡ wake_bits count val3 i m es
  unfolding wake_bits sends
  wake_bits-refused count val3 i bit a m es meets below = rw (meets, below, below) refl

  wake_bits-sent :
      (count val3 i bit : ℕ) (a : Await) (m : Assoc Await) (es : List (Event M))
      → (bit_and bit val3 == 0) ≡ false
      → (i == count) ≡ false
      → to_32 (i + 1) ≡ i + 1
      → wake_bits count val3 i ((bit, a) ∷ m) (sent ∷ es)
        ≡ wake_bits count val3 (i + 1) ((bit, a) ∷ m) es
  unfolding wake_bits sends
  wake_bits-sent count val3 i bit a m es meets below step = rw (meets, below, step) refl

  BitMeets-less :
      {val3 n : ℕ} {m : Assoc Await} {cs after : List BitCall} {es : List (Event M)} (ch : ℕ)
      → BitMeets val3 n m cs es after
      → bit_ready ch after ≤ bit_ready ch cs
  BitMeets-less ch visited = omega arith
  BitMeets-less ch full = omega arith
  BitMeets-less ch (passed bit a e rest) = BitMeets-less ch rest
  BitMeets-less ch (none_left bit a e none rest) = BitMeets-less ch rest
  BitMeets-less ch (met bit a addr key ch1 front back e rest) =
      omega (arith, BitMeets-less ch rest, bit_ready-told ch (on_bits addr key ch1 a.ch) front back)

  pub BitMeets-waiters :
      {val3 n : ℕ} {m : Assoc Await} {cs after : List BitCall} {es : List (Event M)}
      → BitMeets val3 n m cs es after
      → bit_waiters after ≡ bit_waiters cs
  BitMeets-waiters visited = refl
  BitMeets-waiters full = refl
  BitMeets-waiters (passed bit a e rest) = BitMeets-waiters rest
  BitMeets-waiters (none_left bit a e none rest) = BitMeets-waiters rest
  BitMeets-waiters (met bit a addr key ch1 front back e rest) =
      BitMeets-waiters rest ∙ bit_waiters-told (on_bits addr key ch1 a.ch) front back

  -- What comes of a visit that starts with `i` and may send `n` times.
  abbrev pub Visits :
      ℕ → ℕ → ℕ → ℕ → Assoc Await → List BitCall → List (Event M) → List BitCall → Type 0
  Visits count val3 i n m cs es after =
      (k : ℕ) × (k ≤ n)
      × (wake_bits count val3 i m es ≡ some (i + k, []))
      × (meeting val3 after + k ≡ meeting val3 cs)
      × (at_selects after + k ≡ at_selects cs)
      × Woken val3 cs after
      × ((k ≡ n) ⊎ AllRefused val3 m after)

  pub wake_bits-Visits :
      (count val3 i : ℕ) {n : ℕ} {m : Assoc Await} {cs after : List BitCall} {es : List (Event M)}
      → i + n ≡ count
      → count < mod32
      → OnBits m (bit_waiters cs)
      → BitMeets val3 n m cs es after
      → Visits count val3 i n m cs es after
  unfolding wake_bits
  wake_bits-Visits count val3 i e small on (visited {n} {cs}) = (
    0,
    omega arith,
    ap (λ j. some (j, [])) (omega arith),
    omega arith,
    omega arith,
    Woken-refl val3 cs,
    inr tt,
  )
  wake_bits-Visits count val3 i e small on (full {m} {cs}) =
      let here : i ≡ count = omega arith in
      let same : count ≡ i + 0 = omega arith in
      (
        0,
        omega arith,
        ap (λ j. wake_bits count val3 j m []) here
            ∙ wake_bits-full count val3 m
            ∙ ap (λ j. some (j, [])) same,
        omega arith,
        omega arith,
        Woken-refl val3 cs,
        inl refl,
      )
  wake_bits-Visits count val3 i e small on (passed {m} {es} bit a passes rest) =
      let (k, le, result, left, fewer, woken, ends) =
        wake_bits-Visits count val3 i e small (λ b x t. on b x (Memᴰ.tail t)) rest in
      (
        k,
        le,
        wake_bits-passed count val3 i bit a m es passes ∙ result,
        left,
        fewer,
        woken,
        elim ends [ inl all ↦ inl all | inr gone ↦ inr ((λ meets. cc), gone) ],
      )
  wake_bits-Visits count val3 i e small on (none_left {n} {m} {es} bit a meets none rest) =
      let below : (i == count) ≡ false = ground arith in
      let (k, le, result, left, fewer, woken, ends) =
        wake_bits-Visits count val3 i e small (λ b x t. on b x (Memᴰ.tail t)) rest in
      (
        k,
        le,
        wake_bits-refused count val3 i bit a m es meets below ∙ result,
        left,
        fewer,
        woken,
        elim ends [
          | inl all ↦ inl all
          | inr gone ↦ inr ((λ _. omega (arith, BitMeets-less a.ch rest, none)), gone)
        ],
      )
  wake_bits-Visits count val3 i e small on
        (met {n} {m} {after} {es} bit a addr key ch1 front back meets rest) =
      let w = on_bits addr key ch1 a.ch in
      let below : (i == count) ≡ false = ground arith in
      let step : to_32 (i + 1) ≡ i + 1 = omega arith in
      let same : key ≡ bit = on bit a (Memᴰ.head refl) addr key ch1 (Mem-select w front back) in
      let on' : OnBits ((bit, a) ∷ m) (bit_waiters (front ++ told w ∷ back)) =
        subst (OnBits ((bit, a) ∷ m)) (sym (bit_waiters-told w front back)) on in
      let (k, le, result, left, fewer, woken, ends) =
        wake_bits-Visits count val3 (i + 1) (omega arith) small on' rest in
      let moved : i + 1 + k ≡ i + suc k = omega arith in
      (
        suc k,
        omega (arith, le),
        wake_bits-sent count val3 i bit a m es meets below step
            ∙ result
            ∙ ap (λ j. some (j, [])) moved,
        omega (arith, left, meeting-told val3 addr key ch1 a.ch front back (rw same meets)),
        omega (arith, fewer, at_selects-told w front back),
        Woken-select val3 w front back after (rw (same, meets) refl) woken,
        elim ends [ inl all ↦ inl (ap suc all) | inr gone ↦ inr gone ],
      )
