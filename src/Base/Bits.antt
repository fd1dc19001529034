-- ===== src/Base/Bits.antt =====
-- The bits of a number, and what `|`, `&` and the complement do to each of them. The native
-- operations are defined by a recursion over binary digits with fuel; from its equation for the
-- lowest digit all else follows by induction.
use Prim.Native.Nat.{ℕ, zero, suc, ◌+◌, ◌-◌, ◌*◌, ◌/◌, ◌%◌, ◌^◌, ◌≤◌, ◌<◌, min, max}
use Prim.Native.Nat.{bit_and, bit_or, digits, bit_and-bitwise, bit_or-bitwise}
use mathlib.Core.Path.{◌≡◌, refl, ap}
use mathlib.Core.Bool.{Bool, not, ◌&&◌, ◌||◌}
use native.Mathlib.Nat.{pow-suc}
use native.Mathlib.Omega.{arith}
use microdbg_linux.Base.Tests.{◌==◌}

-- Bit `i` of `x`.
unfoldable pub test : ℕ → ℕ → Bool
test x zero = x % 2 == 1
test x (suc i) = test (x / 2) i

module _ (z : ℕ → ℕ) (f : ℕ → ℕ → ℕ) where
  enough_fuel : (n m a b : ℕ) → a ≤ n → a ≤ m → digits z f n a b ≡ digits z f m a b
  enough_fuel zero zero a b p q = refl
  enough_fuel (suc n) zero zero b p q = refl
  enough_fuel zero (suc m) zero b p q = refl
  enough_fuel (suc n) (suc m) zero b p q = refl
  enough_fuel zero m (suc a) b p q = absurd (omega arith)
  enough_fuel (suc n) zero (suc a) b p q = absurd (omega arith)
  enough_fuel (suc n) (suc m) (suc a) b p q =
      let half : suc a / 2 ≤ n = omega arith in
      let half' : suc a / 2 ≤ m = omega arith in rw (enough_fuel n m (suc a / 2) (b / 2) half half')

pub bit_or-digit : (a b : ℕ) → bit_or a b ≡ bit_or (a / 2) (b / 2) * 2 + max (a % 2) (b % 2)
bit_or-digit zero b = simp bit_or-bitwise (omega arith)
bit_or-digit (suc a) b = simp bit_or-bitwise (
    omega (
      arith,
      enough_fuel (λ y. y) max a (suc a / 2) (suc a / 2) (b / 2) (omega arith) (omega arith),
    ))

pub bit_and-digit : (a b : ℕ) → bit_and a b ≡ bit_and (a / 2) (b / 2) * 2 + min (a % 2) (b % 2)
bit_and-digit zero b = simp bit_and-bitwise (omega arith)
bit_and-digit (suc a) b = simp bit_and-bitwise (
    omega (
      arith,
      enough_fuel (λ y. 0) min a (suc a / 2) (suc a / 2) (b / 2) (omega arith) (omega arith),
    ))

pub test-bit_or : (a b i : ℕ) → test (bit_or a b) i ≡ (test a i || test b i)
unfolding test
test-bit_or a b zero = ground (arith, bit_or-digit a b)
test-bit_or a b (suc i) =
    let half : bit_or a b / 2 ≡ bit_or (a / 2) (b / 2) = omega (arith, bit_or-digit a b) in
    rw half (test-bit_or (a / 2) (b / 2) i)

pub test-bit_and : (a b i : ℕ) → test (bit_and a b) i ≡ (test a i && test b i)
unfolding test
test-bit_and a b zero = ground (arith, bit_and-digit a b)
test-bit_and a b (suc i) =
    let half : bit_and a b / 2 ≡ bit_and (a / 2) (b / 2) = omega (arith, bit_and-digit a b) in
    rw half (test-bit_and (a / 2) (b / 2) i)

-- The complement within `k` bits.
pub test-complement : (k b i : ℕ) → b < 2 ^ k → i < k → test (2 ^ k - 1 - b) i ≡ not (test b i)
unfolding test
test-complement zero b i h lt = absurd (omega arith)
test-complement (suc k) b zero h lt = ground (arith, pow-suc 2 k)
test-complement (suc k) b (suc i) h lt =
    let half : (2 ^ suc k - 1 - b) / 2 ≡ 2 ^ k - 1 - b / 2 = omega (arith, pow-suc 2 k) in
    rw half (test-complement k (b / 2) i (omega (arith, pow-suc 2 k)) (omega arith))

bit_and-zero_below : (n x : ℕ) → x ≤ n → bit_and x 0 ≡ 0
bit_and-zero_below n zero h = simp bit_and-bitwise
bit_and-zero_below zero (suc x) h = absurd (omega arith)
bit_and-zero_below (suc n) (suc x) h =
    omega (arith, bit_and-digit (suc x) 0, bit_and-zero_below n (suc x / 2) (omega arith))

-- A mask that has been set is found whole.
absorb_below : (n a b : ℕ) → b ≤ n → bit_and (bit_or a b) b ≡ b
absorb_below n a zero h = bit_and-zero_below (bit_or a 0) (bit_or a 0) (omega arith)
absorb_below zero a (suc b) h = absurd (omega arith)
absorb_below (suc n) a (suc b) h =
    let c : ℕ = suc b in
    let half : bit_or a c / 2 ≡ bit_or (a / 2) (c / 2) = omega (arith, bit_or-digit a c) in
    let ih : bit_and (bit_or a c / 2) (c / 2) ≡ c / 2 =
      rw half (absorb_below n (a / 2) (c / 2) (omega arith)) in
    omega (arith, bit_and-digit (bit_or a c) c, bit_or-digit a c, ih)

pub bit_and-bit_or : (a b : ℕ) → bit_and (bit_or a b) b ≡ b
bit_and-bit_or a b = absorb_below b a b (omega arith)

zero-bit_or : (b : ℕ) → bit_or 0 b ≡ b
zero-bit_or b = simp bit_or-bitwise

-- `|` of fields that do not overlap is their sum.
pub bit_or-field : (k a q : ℕ) → a < 2 ^ k → bit_or a (q * 2 ^ k) ≡ a + q * 2 ^ k
bit_or-field k zero q h = omega (arith, zero-bit_or (q * 2 ^ k))
bit_or-field zero (suc a) q h = absurd (omega arith)
bit_or-field (suc k) (suc a) q h =
    let c : ℕ = suc a in
    let shifted : q * 2 ^ suc k ≡ 2 * (q * 2 ^ k) =
      omega (arith, ap (λ (t : ℕ). q * t) (pow-suc 2 k)) in
    let half : q * 2 ^ suc k / 2 ≡ q * 2 ^ k = omega arith in
    let ih : bit_or (c / 2) (q * 2 ^ suc k / 2) ≡ c / 2 + q * 2 ^ k =
      rw half (bit_or-field k (c / 2) q (omega (arith, pow-suc 2 k))) in
    omega (arith, bit_or-digit c (q * 2 ^ suc k), ih)
