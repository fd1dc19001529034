-- ===== src/VaList/StdPlaces.antt =====
-- gcc/std.go against a convention that uses the stack alone: which place each argument is read from.
use microdbg_linux.Base.{ℕ, ◌%◌, ◌<◌, ◌≡◌, List, arith}
use microdbg_linux.Base.Word.{mod64, add64}
use microdbg_linux.VaList.Stream.{Result, or_unreadable}
use microdbg_linux.VaList.Std.{StdList, read, read_double, align_list, extract_std}
use microdbg_linux.VaList.Places.{
  Scalar, int, double, IsScalar, AreScalars, Slots, place, Fetch, read_places, IsAlign, IsDecoder,
  StepsThrough, Extracts, extract-Extracts, width,
}

-- A list with no registers, over a stack of slots of four bytes.
pub record HoldsStd (va : StdList) (s : Slots) : Type 0 where
  pub same_stack : va.ptr ≡ s.stack
  pub in_range : s.stack < mod64
  pub aligned : s.stack % 4 ≡ 0
  pub fours : s.unit ≡ 4
  pub no_general : s.general ≡ 0
  pub no_vector : s.vector ≡ 0

module _ (fetch : Fetch) (align64 : ℕ → ℕ → ℕ) (up64 : IsAlign mod64 align64) where
  int_place :
      (n : ℕ) (va : StdList) (s : Slots)
      → IsScalar (int n)
      → HoldsStd va s
      → (read fetch n va).0 ≡ or_unreadable (fetch (place (int n) s).0 n)
  unfolding read
  int_place n va s small h = ground arith

  int_left :
      (n : ℕ) (va : StdList) (s : Slots)
      → IsScalar (int n)
      → HoldsStd va s
      → HoldsStd (align_list align64 (read fetch n va).1) (place (int n) s).1
  unfolding read align_list
  int_left n va s small h = ground (arith, up64.by_four (add64 va.ptr n))

  double_place :
      (va : StdList) (s : Slots)
      → HoldsStd va s
      → (read_double fetch va).0 ≡ or_unreadable (fetch (place double s).0 8)
  unfolding read_double
  double_place va s h = ground arith

  double_left :
      (va : StdList) (s : Slots)
      → HoldsStd va s
      → HoldsStd (align_list align64 (read_double fetch va).1) (place double s).1
  unfolding read_double align_list
  double_left va s h = ground (arith, up64.by_four (add64 va.ptr 8))

  module _ (decode : Scalar → StdList → Result (List ℕ) × StdList)
      (decodes : IsDecoder (read fetch) (read_double fetch) decode) where
    steps_through : StepsThrough fetch HoldsStd decode (align_list align64)
    steps_through = record { step = step }
      where
        step :
            (a : Scalar) (va : StdList) (s : Slots)
            → IsScalar a
            → HoldsStd va s
            → ((decode a va).0 ≡ or_unreadable (fetch (place a s).0 (width a)))
              × HoldsStd (align_list align64 (decode a va).1) (place a s).1
        step (int n) va s small h =
            rw (decodes.ints n va) (int_place n va s small h, int_left n va s small h)
        step double va s small h = rw (decodes.doubles va) (double_place va s h, double_left va s h)

    -- A list over an aligned stack extracts integers of 1 to 8 bytes and doubles from the stack
    -- alone, one behind the other in slots of four bytes, of which each takes as many as it needs.
    -- It stops at the first argument that cannot be read, and else is left standing for the rest of
    -- the stack. Assumed are `debugger.Align`, which rounds up, and `encoding.Decode`, which reads
    -- by `Read` and `ReadDouble`.
    pub extract_std-places :
        (args : List Scalar) (va : StdList) (s : Slots)
        → AreScalars args
        → HoldsStd va s
        → Extracts HoldsStd (extract_std decode align64 args va) (read_places fetch args s)
    unfolding extract_std
    extract_std-places args va s scalars h =
        extract-Extracts fetch HoldsStd decode (align_list align64) steps_through args va s scalars
          h
