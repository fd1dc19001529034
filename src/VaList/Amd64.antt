-- ===== src/VaList/Amd64.antt =====
-- gcc/x86_64/va.go: the list of the System V convention of x86-64. The save area holds six general
-- registers and behind them eight vector registers of 16 bytes; all else is in the overflow area.
use microdbg_linux.Base.{
  ℕ, ◌+◌, ◌-◌, ◌%◌, Option, none, some, List, [], ◌∷◌, ltb, leb, if◌then◌else◌,
}
use microdbg_linux.Base.Word.{mod32, mod64, add64, to_32}
use microdbg_linux.Machine.{Kind}
use microdbg_linux.VaList.Stream.{
  Result, ok, err, unsupported, unreadable, or_unreadable, transform, PointerStream, stream_of,
  joined, extract,
}

-- `list`, without the emulator: two `uint32` offsets and two addresses.
pub record Amd64List : Type 0 where
  pub gp_offset : ℕ
  pub fp_offset : ℕ
  pub overflow_arg_area : ℕ
  pub reg_save_area : ℕ

abbrev pub general_offset_max : ℕ
general_offset_max = 48

abbrev pub xmm_offset_max : ℕ
xmm_offset_max = 176

abbrev pub amd64_kinds : List Kind
amd64_kinds = Kind.int32 ∷ Kind.int32 ∷ Kind.int64 ∷ Kind.int64 ∷ []

-- `NewVaList`, from what `MemExtract` gives.
unfoldable pub to_amd64_list : Option (List ℕ) → Result Amd64List
to_amd64_list (some (gp ∷ fp ∷ overflow ∷ save ∷ [])) =
    ok (record {
      gp_offset = gp;
      fp_offset = fp;
      overflow_arg_area = overflow;
      reg_save_area = save;
    })
to_amd64_list _ = err unreadable

unfoldable pub amd64_block_size : Amd64List → ℕ
amd64_block_size va = 8

unfoldable pub amd64_offset : Amd64List → ℕ
amd64_offset va = 0

unfoldable pub amd64_skip : ℕ → Amd64List → Amd64List
amd64_skip n va =
    if ltb va.gp_offset general_offset_max
    then record va { gp_offset = to_32 (va.gp_offset + to_32 n) }
    else record va { overflow_arg_area = add64 va.overflow_arg_area n }

unfoldable pub amd64_read_string : Amd64List → Result (List ℕ)
amd64_read_string va = err unsupported

unfoldable pub amd64_write_bytes : List ℕ → Amd64List → Result ℕ
amd64_write_bytes bs va = err unsupported

module _ (fetch : ℕ → ℕ → Option (List ℕ)) where
  -- The last branch of `Read`: what is left of the registers, and `x` bytes behind it.
  abbrev pub read_rest : ℕ → Amd64List → Option (List ℕ) → Result (List ℕ) × Amd64List
  read_rest x va none = (err unreadable, va)
  read_rest x va (some bs) = (
    joined bs (or_unreadable (fetch va.overflow_arg_area x)),
    record va { gp_offset = general_offset_max; overflow_arg_area = add64 va.overflow_arg_area x },
  )

  unfoldable pub amd64_read : ℕ → Amd64List → Result (List ℕ) × Amd64List
  amd64_read n va =
      let saved = add64 va.reg_save_area va.gp_offset in
      let i = (general_offset_max + mod32 - va.gp_offset) % mod32 in
      if leb general_offset_max va.gp_offset
      then (
        or_unreadable (fetch va.overflow_arg_area n),
        record va { overflow_arg_area = add64 va.overflow_arg_area n },
      )
      else if leb (n + va.gp_offset) general_offset_max
      then (or_unreadable (fetch saved n), record va { gp_offset = to_32 (va.gp_offset + to_32 n) })
      else read_rest ((n + mod64 - i) % mod64) va (fetch saved i)

  unfoldable pub amd64_read_double : Amd64List → Result (List ℕ) × Amd64List
  amd64_read_double va =
      if leb xmm_offset_max va.fp_offset
      then (
        or_unreadable (fetch va.overflow_arg_area 8),
        record va { overflow_arg_area = add64 va.overflow_arg_area 8 },
      )
      else (
        or_unreadable (fetch (add64 va.reg_save_area va.fp_offset) 8),
        record va { fp_offset = to_32 (va.fp_offset + 16) },
      )

  unfoldable pub amd64_read_float : (List ℕ → List ℕ) → Amd64List → Result (List ℕ) × Amd64List
  unfolding amd64_read_double
  amd64_read_float demote va = let (d, va') = amd64_read_double va in (transform demote d, va')

  unfoldable pub amd64_read_stream : Amd64List → Result PointerStream × Amd64List
  unfolding amd64_read
  amd64_read_stream va = let (r, va') = amd64_read 8 va in (transform (stream_of 8) r, va')

-- The end of a round of `Extract`; the parameters are `debugger.Align` of a `uint64` and of a
-- `uint32`.
unfoldable pub amd64_align : (ℕ → ℕ → ℕ) → (ℕ → ℕ → ℕ) → Amd64List → Amd64List
amd64_align align64 align32 va = record va {
  gp_offset = align32 va.gp_offset 8;
  overflow_arg_area = align64 va.overflow_arg_area 8;
}

unfoldable pub extract_amd64 :
    {A B : Type 0}
    → (A → Amd64List → Result B × Amd64List)
    → (ℕ → ℕ → ℕ)
    → (ℕ → ℕ → ℕ)
    → List A
    → Amd64List
    → Result (List B) × Amd64List
unfolding extract amd64_align
extract_amd64 decode align64 align32 = extract decode (amd64_align align64 align32)
