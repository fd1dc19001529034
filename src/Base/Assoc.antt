-- ===== src/Base/Assoc.antt =====
-- Go maps with integer keys, as association lists. A read of a missing key gives `none`; a caller
-- that reads the map without a test takes the zero value, as Go does.
use Prim.Native.Nat.{ℕ}
use mathlib.Core.Path.{◌≡◌, refl}
use mathlib.Core.Option.{Option, none, some}
use mathlib.Core.List.{List, [], ◌∷◌}
use native.Mathlib.Omega.{arith}
use microdbg_linux.Base.Tests.{◌==◌, if◌then◌else◌}

abbrev pub Assoc {ℓ} : Type ℓ → Type ℓ
Assoc V = List (ℕ × V)

module _ {ℓ} {V : Type ℓ} where
  unfoldable pub lookup : ℕ → Assoc V → Option V
  lookup key [] = none
  lookup key ((at, value) ∷ rest) = if at == key then some value else lookup key rest

  -- `delete(m, key)`
  unfoldable pub erase : ℕ → Assoc V → Assoc V
  erase key [] = []
  erase key ((at, value) ∷ rest) =
      let others = erase key rest in if at == key then others else (at, value) ∷ others

  -- `m[key] = new`
  unfoldable pub insert : ℕ → V → Assoc V → Assoc V
  insert key new [] = (key, new) ∷ []
  insert key new ((at, value) ∷ rest) =
      if at == key then (at, new) ∷ rest else (at, value) ∷ insert key new rest

  pub lookup-erase :
      (key j : ℕ) (m : Assoc V) → lookup j (erase key m) ≡ (if key == j then none else lookup j m)
  unfolding lookup erase
  lookup-erase key j [] = ground arith
  lookup-erase key j ((at, value) ∷ rest) = ground (arith, lookup-erase key j rest)

  pub lookup-insert :
      (key j : ℕ) (new : V) (m : Assoc V)
      → lookup j (insert key new m) ≡ (if key == j then some new else lookup j m)
  unfolding lookup insert
  lookup-insert key j new [] = refl
  lookup-insert key j new ((at, value) ∷ rest) = ground (arith, lookup-insert key j new rest)
