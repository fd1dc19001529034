-- ===== src/VaList/Amd64Places.antt =====
-- gcc/x86_64/va.go against the System V convention: which place each argument is read from.
use microdbg_linux.Base.{ℕ, ◌+◌, ◌-◌, ◌*◌, ◌%◌, ◌≤◌, ◌<◌, ◌≡◌, List, arith}
use microdbg_linux.Base.Word.{mod32, mod64, add64, to_32}
use microdbg_linux.VaList.Stream.{Result, or_unreadable}
use microdbg_linux.VaList.Amd64.{
  Amd64List, amd64_read, amd64_read_double, amd64_align, amd64_skip, extract_amd64,
}
use microdbg_linux.VaList.Places.{
  Scalar, int, double, IsScalar, AreScalars, Slots, place, Fetch, read_places, IsAlign, IsDecoder,
  StepsThrough, Extracts, extract-Extracts, width,
}

-- What the fields of a list say of the slots that are left: six general and eight vector registers
-- at most, with the offsets counted from the start of the save area.
pub record HoldsAmd64 (va : Amd64List) (s : Slots) : Type 0 where
  pub same_stack : va.overflow_arg_area ≡ s.stack
  pub in_range : s.stack < mod64
  pub aligned : s.stack % 8 ≡ 0
  pub eights : s.unit ≡ 8
  pub few : s.general ≤ 6
  pub few_vectors : s.vector ≤ 8
  pub general_offset : va.gp_offset ≡ 48 - 8 * s.general
  pub vector_offset : va.fp_offset ≡ 176 - 16 * s.vector
  pub same_end : add64 va.reg_save_area 48 ≡ s.general_end
  pub same_vector_end : add64 va.reg_save_area 176 ≡ s.vector_end

module _ (fetch : Fetch) (align64 align32 : ℕ → ℕ → ℕ) (up64 : IsAlign mod64 align64)
    (up32 : IsAlign mod32 align32) where
  int_place :
      (n : ℕ) (va : Amd64List) (s : Slots)
      → IsScalar (int n)
      → HoldsAmd64 va s
      → (amd64_read fetch n va).0 ≡ or_unreadable (fetch (place (int n) s).0 n)
  unfolding amd64_read
  int_place n va s small h = ground arith

  int_left :
      (n : ℕ) (va : Amd64List) (s : Slots)
      → IsScalar (int n)
      → HoldsAmd64 va s
      → HoldsAmd64 (amd64_align align64 align32 (amd64_read fetch n va).1) (place (int n) s).1
  unfolding amd64_read amd64_align
  int_left n va s small h = ground (
    arith,
    up64.by_eight (add64 va.overflow_arg_area n),
    up64.by_eight va.overflow_arg_area,
    up32.by_eight va.gp_offset,
    up32.by_eight (to_32 (va.gp_offset + to_32 n)),
  )

  double_place :
      (va : Amd64List) (s : Slots)
      → HoldsAmd64 va s
      → (amd64_read_double fetch va).0 ≡ or_unreadable (fetch (place double s).0 8)
  unfolding amd64_read_double
  double_place va s h = ground arith

  double_left :
      (va : Amd64List) (s : Slots)
      → HoldsAmd64 va s
      → HoldsAmd64 (amd64_align align64 align32 (amd64_read_double fetch va).1) (place double s).1
  unfolding amd64_read_double amd64_align
  double_left va s h = ground (
    arith,
    up64.by_eight (add64 va.overflow_arg_area 8),
    up64.by_eight va.overflow_arg_area,
    up32.by_eight va.gp_offset,
  )

  module _ (decode : Scalar → Amd64List → Result (List ℕ) × Amd64List)
      (decodes : IsDecoder (amd64_read fetch) (amd64_read_double fetch) decode) where
    steps_through : StepsThrough fetch HoldsAmd64 decode (amd64_align align64 align32)
    steps_through = record { step = step }
      where
        step :
            (a : Scalar) (va : Amd64List) (s : Slots)
            → IsScalar a
            → HoldsAmd64 va s
            → ((decode a va).0 ≡ or_unreadable (fetch (place a s).0 (width a)))
              × HoldsAmd64 (amd64_align align64 align32 (decode a va).1) (place a s).1
        step (int n) va s small h =
            rw (decodes.ints n va) (int_place n va s small h, int_left n va s small h)
        step double va s small h = rw (decodes.doubles va) (double_place va s h, double_left va s h)

    -- A list whose offsets leave up to six general and eight vector registers, with an aligned
    -- stack, extracts integers of 1 to 8 bytes and doubles from the places that the calling
    -- convention gives them: the rest of the registers of their kind in order, then the stack in
    -- slots of eight bytes that both kinds share. It stops at the first argument that cannot be
    -- read, and else is left standing for the slots that are left. Assumed are `debugger.Align`,
    -- which rounds up, and `encoding.Decode`, which reads by `Read` and `ReadDouble`.
    pub extract_amd64-places :
        (args : List Scalar) (va : Amd64List) (s : Slots)
        → AreScalars args
        → HoldsAmd64 va s
        → Extracts HoldsAmd64
            (extract_amd64 decode align64 align32 args va)
            (read_places fetch args s)
    unfolding extract_amd64
    extract_amd64-places args va s scalars h =
        extract-Extracts fetch HoldsAmd64 decode (amd64_align align64 align32) steps_through args va
          s scalars h

-- `Skip` of `k` slots from within the general registers uses up as many of them as there are, and
-- none of the stack: behind a skip past their end, the next read is at the first slot of the stack.
pub amd64_skip-read :
    (fetch : Fetch) (k n : ℕ) (va : Amd64List) (s : Slots)
    → HoldsAmd64 va s
    → 0 < s.general
    → s.general ≤ k
    → k < 268435456
    → (amd64_read fetch n (amd64_skip (8 * k) va)).0 ≡ or_unreadable (fetch s.stack n)
unfolding amd64_skip amd64_read
amd64_skip-read fetch k n va s h some_left past small = ground arith
