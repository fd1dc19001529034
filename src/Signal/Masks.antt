-- ===== src/Signal/Masks.antt =====
-- What the calls of kernel/signal.go do to each bit of the set of blocked signals, and to the
-- table of actions.
use native.Mathlib.Nat.{pow-suc}
use microdbg_linux.Base.{
  ℕ, zero, suc, ◌+◌, ◌-◌, ◌^◌, ◌/◌, ◌%◌, ◌≤◌, ◌<◌, ◌≡◌, refl, ◌∙◌, arith, ◌==◌, if◌then◌else◌,
}
use microdbg_linux.Base.{Bool, false, not, ◌&&◌, ◌||◌, [], ◌∷◌, some}
use microdbg_linux.Base.Bits.{test, test-bit_or, test-bit_and, test-complement}
use microdbg_linux.Base.Word.{mod64, minus_one, and_not}
use microdbg_linux.Machine.{Machine, Kind}
use microdbg_linux.Errno.{einval, code}
use microdbg_linux.Exec.{State, done, failed, ◌>>=◌}
use microdbg_linux.Signal.{sigmask, sigaddset, sigdelset, rt_sigprocmask}

test-zero : (i : ℕ) → test 0 i ≡ false
unfolding test
test-zero zero = refl
test-zero (suc i) = test-zero i

test-pow : (n i : ℕ) → test (2 ^ n) i ≡ (n == i)
unfolding test
test-pow zero zero = refl
test-pow zero (suc i) = test-zero i ∙ ground arith
test-pow (suc n) zero = ground (arith, pow-suc 2 n)
test-pow (suc n) (suc i) =
    let half : 2 ^ suc n / 2 ≡ 2 ^ n = omega (arith, pow-suc 2 n) in
    rw (half, test-pow n i) (ground arith)

pub test-and_not :
    (a b i : ℕ) → b < mod64 → i < 64 → test (and_not a b) i ≡ (test a i && not (test b i))
test-and_not a b i fits small =
    test-bit_and a (minus_one - b) i ∙ rw (test-complement 64 b i fits small) refl

sigmask-pow : (n : ℕ) → n < 64 → sigmask (suc n) ≡ 2 ^ n
unfolding sigmask
sigmask-pow n h = let e : (suc n + 4294967295) % 4294967296 ≡ n = omega arith in rw e (ground arith)

pow-le : (n k : ℕ) → n ≤ k → 2 ^ n ≤ 2 ^ k
pow-le zero zero h = omega arith
pow-le (suc n) zero h = absurd (omega arith)
pow-le zero (suc k) h = omega (arith, pow-suc 2 k, pow-le zero k (omega arith))
pow-le (suc n) (suc k) h = omega (arith, pow-suc 2 n, pow-suc 2 k, pow-le n k (omega arith))

pow-lt : (n : ℕ) → n < 64 → 2 ^ n < mod64
pow-lt n h = omega (arith, pow-le n 63 (omega arith))

-- For a signal from 1 to 64, `sigaddset` sets its bit and `sigdelset` clears it, and each of the
-- other 63 bits is as before.
sigaddset-sigdelset :
    (set n i : ℕ)
    → n < 64
    → i < 64
    → (test (sigaddset (suc n) set) i ≡ (test set i || (n == i)))
      × (test (sigdelset (suc n) set) i ≡ (test set i && not (n == i)))
unfolding sigaddset sigdelset
sigaddset-sigdelset set n i h small = (
  rw (sigmask-pow n h, test-bit_or set (2 ^ n) i, test-pow n i) refl,
  rw (sigmask-pow n h, test-and_not set (2 ^ n) i (pow-lt n h) small, test-pow n i) refl,
)

-- One bit after a change of the mask, from the bit before and that of the given set.
abbrev pub changed : ℕ → Bool → Bool → Bool
changed how old new =
    if how == 1
    then old || new
    else if how == 2
    then old && not new
    else if how == 3
    then new
    else old

module _ {M : Machine} where
  -- `rt_sigprocmask` of a set that can be read, with no place for the old one: each of the 64 bits
  -- is set where `how` is 1 and it is in the set, cleared where `how` is 2 and it is in the set,
  -- taken from the set where `how` is 3, and as before for any other `how`, which fails with
  -- EINVAL; so it does for 0, SIG_BLOCK of Linux.
  pub rt_sigprocmask-test :
      (how set value size i : ℕ) (s : State M)
      → M.extract s.memory set (Kind.int ∷ []) ≡ some (value ∷ [])
      → value < mod64
      → i < 64
      → let r = rt_sigprocmask how set 0 size s in
        (test r.1.sigset i ≡ changed how (test s.sigset i) (test value i))
        × (r.0 ≡ (if (how == 1) || (how == 2) || (how == 3) then done 0 else failed))
        × (r.1.errno ≡ (if (how == 1) || (how == 2) || (how == 3) then s.errno else code einval))
  unfolding rt_sigprocmask ◌>>=◌
  rt_sigprocmask-test how set value size i s read fits small =
      ground (arith, test-bit_or s.sigset value i, test-and_not s.sigset value i fits small)
