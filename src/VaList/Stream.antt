-- ===== src/VaList/Stream.antt =====
-- gcc/: what the three kinds of variable argument list share. Their methods are those of
-- `encoding.Stream` and of `debugger.Args`; `extract` is the loop of `Extract`.
use microdbg_linux.Base.{ℕ, ◌+◌, ◌*◌, Option, none, some, List, [], ◌∷◌, ◌++◌}

-- `debugger.ErrArgumentInvalid`, `errors.ErrUnsupported`, `emulator.ErrArchUnsupported`, and an
-- error of the emulator's memory.
pub data VaError : Type 0 where
  argument_invalid unsupported arch_unsupported unreadable : VaError

pub data Result (A : Type 0) : Type 0 where
  ok : A → Result A
  err : VaError → Result A

-- The bytes and the error of `MemReadPtr`.
abbrev pub or_unreadable : {A : Type 0} → Option A → Result A
or_unreadable none = err unreadable
or_unreadable (some a) = ok a

abbrev pub transform : {A B : Type 0} → (A → B) → Result A → Result B
transform f (ok a) = ok (f a)
transform f (err e) = err e

-- The number in little-endian bytes.
abbrev pub value_of : List ℕ → ℕ
value_of [] = 0
value_of (b ∷ bs) = b + 256 * value_of bs

-- `internal.PointerStream`: the stream at an address, with the size of a pointer.
pub record PointerStream : Type 0 where
  pub address : ℕ
  pub pointer_size : ℕ

abbrev pub stream_of : ℕ → List ℕ → PointerStream
stream_of size bs = record { address = value_of bs; pointer_size = size }

-- The second part of a read that is cut in two.
abbrev pub joined : List ℕ → Result (List ℕ) → Result (List ℕ)
joined bs (ok cs) = ok (bs ++ cs)
joined bs (err e) = err e

-- The loop of `Extract` over its arguments: `decode` is `encoding.Decode` into one of them, and
-- `align` the calls of `debugger.Align` behind it.
module _ {A B V : Type 0} (decode : A → V → Result B × V) (align : V → V) where
  abbrev pub extracted : (V → Result (List B) × V) → Result B × V → Result (List B) × V
  extracted more (err e, va) = (err e, va)
  extracted more (ok b, va) = let (r, va') = more (align va) in (transform (λ bs. b ∷ bs) r, va')

  unfoldable pub extract : List A → V → Result (List B) × V
  extract [] va = (ok [], va)
  extract (a ∷ rest) va = extracted (extract rest) (decode a va)
