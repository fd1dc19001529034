-- ===== src/VaList/Places.antt =====
-- Where a calling convention puts variable arguments, independent of gcc/: general slots of 8 bytes
-- and vector slots of 16 bytes, as long as there are any, and then the stack, in slots of `unit`
-- bytes. A list that steps through these places extracts what stands there.
use microdbg_linux.Base.{
  ℕ, ◌+◌, ◌-◌, ◌*◌, ◌/◌, ◌%◌, ◌≤◌, ◌<◌, ◌≡◌, refl, Option, List, [], ◌∷◌, ◌==◌, if◌then◌else◌,
}
use microdbg_linux.Base.Word.{mod64, add64}
use microdbg_linux.VaList.Stream.{Result, ok, err, or_unreadable, transform, extract, extracted}

-- An integer or pointer of some bytes, or a double.
pub data Scalar : Type 0 where
  int : ℕ → Scalar
  double : Scalar

abbrev pub width : Scalar → ℕ
width (int n) = n
width double = 8

abbrev pub IsScalar : Scalar → Type 0
IsScalar (int n) = (1 ≤ n) × (n ≤ 8)
IsScalar double = Unit

abbrev pub AreScalars : List Scalar → Type 0
AreScalars [] = Unit
AreScalars (a ∷ rest) = IsScalar a × AreScalars rest

-- The slots that are left: `general` of them end at `general_end`, `vector` at `vector_end`, and
-- the next one on the stack is at `stack`.
pub record Slots : Type 0 where
  pub general : ℕ
  pub general_end : ℕ
  pub vector : ℕ
  pub vector_end : ℕ
  pub stack : ℕ
  pub unit : ℕ

abbrev pub round_up : ℕ → ℕ → ℕ
round_up unit n = (n + (unit - 1)) / unit * unit

abbrev pub on_stack : ℕ → Slots → ℕ × Slots
on_stack n s = (s.stack, record s { stack = add64 s.stack (round_up s.unit n) })

-- The address of an argument, and the slots left behind it.
abbrev pub place : Scalar → Slots → ℕ × Slots
place (int n) s =
    if s.general == 0
    then on_stack n s
    else ((s.general_end + mod64 - 8 * s.general) % mod64, record s { general = s.general - 1 })
place double s =
    if s.vector == 0
    then on_stack 8 s
    else ((s.vector_end + mod64 - 16 * s.vector) % mod64, record s { vector = s.vector - 1 })

abbrev pub Fetch : Type 0
Fetch = ℕ → ℕ → Option (List ℕ)

-- What stands at the places of the arguments, up to the first that cannot be read.
abbrev pub behind :
    Result (List ℕ) → Result (List (List ℕ)) × Slots → Result (List (List ℕ)) × Slots
behind (err e) (r, s) = (err e, s)
behind (ok bs) (r, s) = (transform (λ rest. bs ∷ rest) r, s)

unfoldable pub read_places : Fetch → List Scalar → Slots → Result (List (List ℕ)) × Slots
read_places fetch [] s = (ok [], s)
read_places fetch (a ∷ rest) s =
    let (address, s') = place a s in
    behind (or_unreadable (fetch address (width a))) (read_places fetch rest s')

-- `debugger.Align` rounds an integer of 2 ^ w = `size` values up to a multiple.
pub record IsAlign (size : ℕ) (align : ℕ → ℕ → ℕ) : Type 0 where
  pub by_four : (x : ℕ) → x < size → align x 4 ≡ round_up 4 x % size
  pub by_eight : (x : ℕ) → x < size → align x 8 ≡ round_up 8 x % size

-- `encoding.Decode` reads a number by `Read` of its bytes and a double by `ReadDouble`.
pub record IsDecoder {V : Type 0} (read : ℕ → V → Result (List ℕ) × V)
    (read_double : V → Result (List ℕ) × V) (decode : Scalar → V → Result (List ℕ) × V)
    : Type 0 where
  pub ints : (n : ℕ) (va : V) → decode (int n) va ≡ read n va
  pub doubles : (va : V) → decode double va ≡ read_double va

-- A list that stands for slots: a read goes to the place of its argument, and what it leaves,
-- aligned, stands for the slots that are left.
pub record StepsThrough {V : Type 0} (fetch : Fetch) (Holds : V → Slots → Type 0)
    (decode : Scalar → V → Result (List ℕ) × V) (align : V → V) : Type 0 where
  pub step :
      (a : Scalar) (va : V) (s : Slots)
      → IsScalar a
      → Holds va s
      → ((decode a va).0 ≡ or_unreadable (fetch (place a s).0 (width a)))
        × Holds (align (decode a va).1) (place a s).1

-- The values are those at the places, and a list that has given them all stands for the slots left
-- behind them.
abbrev pub Extracts :
    {V : Type 0}
    → (V → Slots → Type 0)
    → Result (List (List ℕ)) × V
    → Result (List (List ℕ)) × Slots
    → Type 0
Extracts Holds (ok bs, va) (r, s) = (r ≡ ok bs) × Holds va s
Extracts Holds (err e, va) (r, s) = r ≡ err e

module _ {V : Type 0} (fetch : Fetch) (Holds : V → Slots → Type 0)
    (decode : Scalar → V → Result (List ℕ) × V) (align : V → V)
    (steps : StepsThrough fetch Holds decode align) where
  consed-Extracts :
      (b : List ℕ) (y : Result (List (List ℕ)) × V) (rest : Result (List (List ℕ)) × Slots)
      → Extracts Holds y rest
      → Extracts Holds (transform (λ bs. b ∷ bs) y.0, y.1) (transform (λ bs. b ∷ bs) rest.0, rest.1)
  consed-Extracts b (ok bs, va) (r, s) (e, h) = (rw e refl, h)
  consed-Extracts b (err x, va) (r, s) e = rw e refl

  extracted-Extracts :
      (x : Result (List ℕ) × V) (here : Result (List ℕ)) (more : V → Result (List (List ℕ)) × V)
      → (rest : Result (List (List ℕ)) × Slots) → x.0 ≡ here
      → Extracts Holds (more (align x.1)) rest
      → Extracts Holds (extracted decode align more x) (behind here rest)
  extracted-Extracts (err e, va) here more rest same h = rw (← same) refl
  extracted-Extracts (ok b, va) here more rest same h =
      rw (← same) (consed-Extracts b (more (align va)) rest h)

  pub extract-Extracts :
      (args : List Scalar) (va : V) (s : Slots)
      → AreScalars args
      → Holds va s
      → Extracts Holds (extract decode align args va) (read_places fetch args s)
  unfolding extract read_places
  extract-Extracts [] va s scalars h = (refl, h)
  extract-Extracts (a ∷ rest) va s (scalar, scalars) h =
      let (same, left) = steps.step a va s scalar h in
      extracted-Extracts (decode a va) _ (extract decode align rest) _ same
        (extract-Extracts rest (align (decode a va).1) (place a s).1 scalars left)
