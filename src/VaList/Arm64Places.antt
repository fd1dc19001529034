-- ===== src/VaList/Arm64Places.antt =====
-- gcc/arm64/va.go against the procedure call standard: which place each argument is read from.
use microdbg_linux.Base.{ℕ, ◌+◌, ◌-◌, ◌*◌, ◌%◌, ◌≤◌, ◌<◌, ◌≡◌, List, arith}
use microdbg_linux.Base.Word.{mod32, mod64, add64, to_32}
use microdbg_linux.VaList.Stream.{Result, or_unreadable}
use microdbg_linux.VaList.Arm64.{
  Arm64List, arm64_read, arm64_read_double, arm64_align, arm64_skip, extract_arm64,
}
use microdbg_linux.VaList.Places.{
  Scalar, int, double, IsScalar, AreScalars, Slots, place, Fetch, read_places, IsAlign, IsDecoder,
  StepsThrough, Extracts, extract-Extracts, width,
}

-- What the fields of a list say of the slots that are left: eight general and eight vector
-- registers at most, with the offsets counted from the ends of their areas.
pub record HoldsArm64 (va : Arm64List) (s : Slots) : Type 0 where
  pub same_stack : va.stack ≡ s.stack
  pub in_range : s.stack < mod64
  pub aligned : s.stack % 8 ≡ 0
  pub eights : s.unit ≡ 8
  pub few : s.general ≤ 8
  pub few_vectors : s.vector ≤ 8
  pub general_offset : va.gr_offs ≡ (mod32 - 8 * s.general) % mod32
  pub vector_offset : va.vr_offs ≡ (mod32 - 16 * s.vector) % mod32
  pub same_end : va.gr_top ≡ s.general_end
  pub same_vector_end : va.vr_top ≡ s.vector_end

module _ (fetch : Fetch) (align64 align32 : ℕ → ℕ → ℕ) (up64 : IsAlign mod64 align64)
    (up32 : IsAlign mod32 align32) where
  int_place :
      (n : ℕ) (va : Arm64List) (s : Slots)
      → IsScalar (int n)
      → HoldsArm64 va s
      → (arm64_read fetch n va).0 ≡ or_unreadable (fetch (place (int n) s).0 n)
  unfolding arm64_read
  int_place n va s small h = ground arith

  int_left :
      (n : ℕ) (va : Arm64List) (s : Slots)
      → IsScalar (int n)
      → HoldsArm64 va s
      → HoldsArm64 (arm64_align align64 align32 (arm64_read fetch n va).1) (place (int n) s).1
  unfolding arm64_read arm64_align
  int_left n va s small h = ground (
    arith,
    up64.by_eight (add64 va.stack n),
    up64.by_eight va.stack,
    up32.by_eight va.gr_offs,
    up32.by_eight (to_32 (va.gr_offs + to_32 n)),
  )

  double_place :
      (va : Arm64List) (s : Slots)
      → HoldsArm64 va s
      → (arm64_read_double fetch va).0 ≡ or_unreadable (fetch (place double s).0 8)
  unfolding arm64_read_double
  double_place va s h = ground arith

  double_left :
      (va : Arm64List) (s : Slots)
      → HoldsArm64 va s
      → HoldsArm64 (arm64_align align64 align32 (arm64_read_double fetch va).1) (place double s).1
  unfolding arm64_read_double arm64_align
  double_left va s h =
      ground
        (arith, up64.by_eight (add64 va.stack 8), up64.by_eight va.stack, up32.by_eight va.gr_offs)

  module _ (decode : Scalar → Arm64List → Result (List ℕ) × Arm64List)
      (decodes : IsDecoder (arm64_read fetch) (arm64_read_double fetch) decode) where
    steps_through : StepsThrough fetch HoldsArm64 decode (arm64_align align64 align32)
    steps_through = record { step = step }
      where
        step :
            (a : Scalar) (va : Arm64List) (s : Slots)
            → IsScalar a
            → HoldsArm64 va s
            → ((decode a va).0 ≡ or_unreadable (fetch (place a s).0 (width a)))
              × HoldsArm64 (arm64_align align64 align32 (decode a va).1) (place a s).1
        step (int n) va s small h =
            rw (decodes.ints n va) (int_place n va s small h, int_left n va s small h)
        step double va s small h = rw (decodes.doubles va) (double_place va s h, double_left va s h)

    -- A list whose offsets leave up to eight general and eight vector registers, with an aligned
    -- stack, extracts integers of 1 to 8 bytes and doubles from the places that the calling
    -- convention gives them: the rest of the registers of their kind in order, then the stack in
    -- slots of eight bytes that both kinds share. It stops at the first argument that cannot be
    -- read, and else is left standing for the slots that are left. Assumed are `debugger.Align`,
    -- which rounds up, and `encoding.Decode`, which reads by `Read` and `ReadDouble`.
    pub extract_arm64-places :
        (args : List Scalar) (va : Arm64List) (s : Slots)
        → AreScalars args
        → HoldsArm64 va s
        → Extracts HoldsArm64
            (extract_arm64 decode align64 align32 args va)
            (read_places fetch args s)
    unfolding extract_arm64
    extract_arm64-places args va s scalars h =
        extract-Extracts fetch HoldsArm64 decode (arm64_align align64 align32) steps_through args va
          s scalars h

-- `Skip` of `k` slots from within the general registers uses up as many of them as there are, and
-- none of the stack: behind a skip past their end, the next read is at the first slot of the stack.
pub arm64_skip-read :
    (fetch : Fetch) (k n : ℕ) (va : Arm64List) (s : Slots)
    → HoldsArm64 va s
    → 0 < s.general
    → s.general ≤ k
    → k < 268435456
    → (arm64_read fetch n (arm64_skip (8 * k) va)).0 ≡ or_unreadable (fetch s.stack n)
unfolding arm64_skip arm64_read
arm64_skip-read fetch k n va s h some_left past small = ground arith
