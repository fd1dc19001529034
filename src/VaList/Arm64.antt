-- ===== src/VaList/Arm64.antt =====
-- gcc/arm64/va.go: the list of the procedure call standard of ARM64. General registers are saved
-- below `gr_top`, vector registers below `vr_top`; an offset that is not negative says that its
-- area is used up.
use microdbg_linux.Base.{
  ℕ, ◌+◌, ◌-◌, ◌%◌, Bool, Option, none, some, ◌||◌, List, [], ◌∷◌, ltb, ◌==◌, if◌then◌else◌,
}
use microdbg_linux.Base.Word.{mod64, add64, to_32, extend, is_negative}
use microdbg_linux.Machine.{Kind}
use microdbg_linux.VaList.Stream.{
  Result, ok, err, unsupported, unreadable, or_unreadable, transform, PointerStream, stream_of,
  joined, extract,
}

-- `list`, without the emulator: three addresses and two `int32` offsets.
pub record Arm64List : Type 0 where
  pub stack : ℕ
  pub gr_top : ℕ
  pub vr_top : ℕ
  pub gr_offs : ℕ
  pub vr_offs : ℕ

abbrev pub pointer_size : ℕ
pointer_size = 8

abbrev pub arm64_kinds : List Kind
arm64_kinds = Kind.int64 ∷ Kind.int64 ∷ Kind.int64 ∷ Kind.int32 ∷ Kind.int32 ∷ []

-- `NewVaList`, from what `MemExtract` gives.
unfoldable pub to_arm64_list : Option (List ℕ) → Result Arm64List
to_arm64_list (some (stack ∷ gr_top ∷ vr_top ∷ gr_offs ∷ vr_offs ∷ [])) = ok (record {
  stack = stack;
  gr_top = gr_top;
  vr_top = vr_top;
  gr_offs = gr_offs;
  vr_offs = vr_offs;
})
to_arm64_list _ = err unreadable

unfoldable pub arm64_block_size : Arm64List → ℕ
arm64_block_size va = 8

unfoldable pub arm64_offset : Arm64List → ℕ
arm64_offset va = 0

-- `x >= 0` of an `int32`.
abbrev pub is_used_up : ℕ → Bool
is_used_up offs = ltb offs 2147483648

unfoldable pub arm64_skip : ℕ → Arm64List → Arm64List
arm64_skip n va =
    if is_used_up va.gr_offs
    then record va { stack = add64 va.stack n }
    else record va { gr_offs = to_32 (va.gr_offs + to_32 n) }

unfoldable pub arm64_read_string : Arm64List → Result (List ℕ)
arm64_read_string va = err unsupported

unfoldable pub arm64_write_bytes : List ℕ → Arm64List → Result ℕ
arm64_write_bytes bs va = err unsupported

module _ (fetch : ℕ → ℕ → Option (List ℕ)) where
  -- The last branch of `Read`: `i` bytes from the registers, which come first, and `x` from the
  -- stack. An error of the first part leaves the list alone.
  abbrev pub read_parts : ℕ → Arm64List → Option (List ℕ) → Result (List ℕ) × Arm64List
  read_parts x va none = (err unreadable, va)
  read_parts x va (some bs) = (
    joined bs (or_unreadable (fetch va.stack x)),
    record va { gr_offs = 0; stack = add64 va.stack x },
  )

  unfoldable pub arm64_read : ℕ → Arm64List → Result (List ℕ) × Arm64List
  arm64_read n va =
      let x = add64 n (extend va.gr_offs) in
      let saved = add64 va.gr_top (extend va.gr_offs) in
      if is_used_up va.gr_offs
      then (or_unreadable (fetch va.stack n), record va { stack = add64 va.stack n })
      else if is_negative x || (x == 0)
      then (or_unreadable (fetch saved n), record va { gr_offs = to_32 (va.gr_offs + to_32 n) })
      else read_parts x va (fetch saved ((n + mod64 - x) % mod64))

  unfoldable pub arm64_read_double : Arm64List → Result (List ℕ) × Arm64List
  arm64_read_double va =
      if is_used_up va.vr_offs
      then (or_unreadable (fetch va.stack 8), record va { stack = add64 va.stack 8 })
      else (
        or_unreadable (fetch (add64 va.vr_top (extend va.vr_offs)) 8),
        record va { vr_offs = to_32 (va.vr_offs + 16) },
      )

  unfoldable pub arm64_read_float : (List ℕ → List ℕ) → Arm64List → Result (List ℕ) × Arm64List
  unfolding arm64_read_double
  arm64_read_float demote va = let (d, va') = arm64_read_double va in (transform demote d, va')

  unfoldable pub arm64_read_stream : Arm64List → Result PointerStream × Arm64List
  unfolding arm64_read
  arm64_read_stream va =
      let (r, va') = arm64_read 8 va in (transform (stream_of pointer_size) r, va')

-- The end of a round of `Extract`; the parameters are `debugger.Align` of a `uint64` and of an
-- `int32`.
unfoldable pub arm64_align : (ℕ → ℕ → ℕ) → (ℕ → ℕ → ℕ) → Arm64List → Arm64List
arm64_align align64 align32 va = record va {
  stack = align64 va.stack pointer_size;
  gr_offs = align32 va.gr_offs pointer_size;
}

unfoldable pub extract_arm64 :
    {A B : Type 0}
    → (A → Arm64List → Result B × Arm64List)
    → (ℕ → ℕ → ℕ)
    → (ℕ → ℕ → ℕ)
    → List A
    → Arm64List
    → Result (List B) × Arm64List
unfolding extract arm64_align
extract_arm64 decode align64 align32 = extract decode (arm64_align align64 align32)
