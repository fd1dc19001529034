-- ===== src/Base/Word.antt =====
-- Machine integers. Every integer of the source, signed or not, is its two's complement bit
-- pattern: an `int32` is a number below 2 ^ 32, an `int`, an `int64` or a `uint64` a number below
-- 2 ^ 64. Go's `int`, `uint` and `uintptr` have 64 bits on the hosts that are modelled.
use Prim.Native.Nat.{ℕ, ◌+◌, ◌-◌, ◌*◌, ◌/◌, ◌%◌, ◌<◌, bit_and}
use mathlib.Core.Path.{◌≡◌, ap}
use mathlib.Core.Option.{Option, none, some}
use mathlib.Core.List.{List, [], ◌∷◌}
use mathlib.Core.Bool.{Bool, not}
use native.Mathlib.Omega.{arith}
use microdbg_linux.Base.Tests.{ltb, ◌==◌, if◌then◌else◌}

abbrev pub mod32 : ℕ
mod32 = 4294967296

abbrev pub mod64 : ℕ
mod64 = 18446744073709551616

-- `uint32(x)` and `int32(x)` of a 64-bit integer.
abbrev pub to_32 : ℕ → ℕ
to_32 x = x % mod32

-- `int(x)` and `uint64(x)` of an `int32`: the sign is extended.
abbrev pub extend : ℕ → ℕ
extend x = if ltb x 2147483648 then x else x + (mod64 - mod32)

-- -1 as an `int32`, and as an `int64`, which is `math.MaxUint64` too.
abbrev pub minus_one_32 : ℕ
minus_one_32 = 4294967295

abbrev pub minus_one : ℕ
minus_one = 18446744073709551615

-- Sums and products of 64 bits.
abbrev pub add64 : ℕ → ℕ → ℕ
add64 a b = (a + b) % mod64

abbrev pub mul64 : ℕ → ℕ → ℕ
mul64 a b = (a * b) % mod64

-- The number that the sign hides, and `-x`.
abbrev pub is_negative : ℕ → Bool
is_negative x = not (ltb x 9223372036854775808)

abbrev pub neg64 : ℕ → ℕ
neg64 x = (mod64 - x) % mod64

-- Go's `x / k` and `x % k` of an `int64` by a positive constant: both round towards zero.
unfoldable pub div_signed : ℕ → ℕ → ℕ
div_signed x k = if is_negative x then neg64 (neg64 x / k) else x / k

unfoldable pub mod_signed : ℕ → ℕ → ℕ
mod_signed x k = if is_negative x then neg64 (neg64 x % k) else x % k

-- `x & mask != 0`
abbrev pub has_bits : ℕ → ℕ → Bool
has_bits x mask = not (bit_and x mask == 0)

-- `x &^ y` of 64-bit integers.
abbrev pub and_not : ℕ → ℕ → ℕ
and_not x y = bit_and x (minus_one - y)

pub extend-lt : (x : ℕ) → x < mod32 → extend x < mod64
extend-lt x h = ground arith

-- The extension loses nothing.
pub to_32-extend : (x : ℕ) → x < mod32 → to_32 (extend x) ≡ x
to_32-extend x h = ground arith

-- Quotient and remainder of the signed division by 10 ^ 9 give the number back.
pub div_mod_signed :
    (x : ℕ)
    → x < mod64
    → add64 (mul64 (div_signed x 1000000000) 1000000000) (mod_signed x 1000000000) ≡ x
unfolding div_signed mod_signed
div_mod_signed x h = ground arith

-- The four bytes of a 32-bit integer in memory, which is little-endian, and back.
abbrev pub bytes_of_32 : ℕ → List ℕ
bytes_of_32 x = x % 256 ∷ (x / 256) % 256 ∷ (x / 65536) % 256 ∷ (x / 16777216) % 256 ∷ []

abbrev pub word_of : List ℕ → Option ℕ
word_of (a ∷ b ∷ c ∷ d ∷ []) = some (a + b * 256 + c * 65536 + d * 16777216)
word_of _ = none

pub word_of-bytes_of_32 : (x : ℕ) → x < mod32 → word_of (bytes_of_32 x) ≡ some x
word_of-bytes_of_32 x h = ap some (omega arith)
