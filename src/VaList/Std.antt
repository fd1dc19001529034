-- ===== src/VaList/Std.antt =====
-- gcc/std.go: the list of an architecture that passes all such arguments on the stack.
use microdbg_linux.Base.{ℕ, Option, ◌||◌, List, ◌==◌, if◌then◌else◌}
use microdbg_linux.Base.Word.{add64}
use microdbg_linux.VaList.Stream.{
  Result, ok, err, argument_invalid, unsupported, or_unreadable, transform, PointerStream,
  stream_of, extract,
}

-- `list`, without the emulator.
pub record StdList : Type 0 where
  pub ptr : ℕ
  pub size : ℕ

-- `NewStdVaList`
unfoldable pub new_std_va_list : ℕ → ℕ → Result StdList
new_std_va_list ptr size =
    if ptr == 0 || size == 0 then err argument_invalid else ok (record { ptr = ptr; size = size })

unfoldable pub block_size : StdList → ℕ
block_size va = va.size

unfoldable pub offset : StdList → ℕ
offset va = 0

unfoldable pub skip : ℕ → StdList → StdList
skip n va = record va { ptr = add64 va.ptr n }

-- `ReadString`, `Write` and the other writes.
unfoldable pub read_string : StdList → Result (List ℕ)
read_string va = err unsupported

unfoldable pub write_bytes : List ℕ → StdList → Result ℕ
write_bytes bs va = err unsupported

-- `fetch` is `MemReadPtr` of the emulator, `demote` the conversion to a `float32`; a float is its
-- bytes.
module _ (fetch : ℕ → ℕ → Option (List ℕ)) where
  unfoldable pub read : ℕ → StdList → Result (List ℕ) × StdList
  read n va = (or_unreadable (fetch va.ptr n), record va { ptr = add64 va.ptr n })

  unfoldable pub read_double : StdList → Result (List ℕ) × StdList
  unfolding read
  read_double va = read 8 va

  unfoldable pub read_float : (List ℕ → List ℕ) → StdList → Result (List ℕ) × StdList
  unfolding read_double
  read_float demote va = let (d, va') = read_double va in (transform demote d, va')

  unfoldable pub read_stream : StdList → Result PointerStream × StdList
  unfolding read
  read_stream va = let (r, va') = read va.size va in (transform (stream_of va.size) r, va')

-- The end of a round of `Extract`; `align64` is `debugger.Align` of a `uint64`.
unfoldable pub align_list : (ℕ → ℕ → ℕ) → StdList → StdList
align_list align64 va = record va { ptr = align64 va.ptr 4 }

unfoldable pub extract_std :
    {A B : Type 0}
    → (A → StdList → Result B × StdList)
    → (ℕ → ℕ → ℕ)
    → List A
    → StdList
    → Result (List B) × StdList
unfolding extract align_list
extract_std decode align64 = extract decode (align_list align64)
