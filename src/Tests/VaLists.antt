-- ===== src/Tests/VaLists.antt =====
-- Variable arguments on concrete lists.
use microdbg_linux.VaList.Bytes.{tabulate, seen}
use microdbg_linux.VaList.Arm64Bytes.{arm64_bytes, arm64_read-bytes}
use microdbg_linux.VaList.Amd64Bytes.{amd64_bytes, amd64_read-bytes}
use microdbg_linux.Base.{ℕ, ◌+◌, ◌%◌, ◌≡◌, refl, arith, some, List, [], ◌∷◌}
use microdbg_linux.Base.Word.{mod32, mod64}
use microdbg_linux.VaList.Stream.{Result, ok, or_unreadable}
use microdbg_linux.VaList.Std.{StdList, read, read_double, extract_std}
use microdbg_linux.VaList.Arm64.{
  Arm64List, arm64_read, arm64_read_double, arm64_skip, extract_arm64,
}
use microdbg_linux.VaList.Amd64.{
  Amd64List, amd64_read, amd64_read_double, amd64_skip, extract_amd64,
}
use microdbg_linux.VaList.Places.{
  Scalar, int, double, Slots, Fetch, read_places, round_up, IsAlign, IsDecoder, AreScalars,
  Extracts,
}
use microdbg_linux.VaList.Arm64Places.{HoldsArm64, extract_arm64-places, arm64_skip-read}
use microdbg_linux.VaList.Amd64Places.{HoldsAmd64, extract_amd64-places, amd64_skip-read}
use microdbg_linux.VaList.StdPlaces.{HoldsStd, extract_std-places}

-- A memory whose bytes at an address are the address and the size.
abbrev fetch : Fetch
fetch address n = some (address ∷ n ∷ [])

abbrev align64 : ℕ → ℕ → ℕ
align64 x unit = round_up unit x % mod64

abbrev align32 : ℕ → ℕ → ℕ
align32 x unit = round_up unit x % mod32

align64-IsAlign : IsAlign mod64 align64
align64-IsAlign = record { by_four = λ x small. refl; by_eight = λ x small. refl }

align32-IsAlign : IsAlign mod32 align32
align32-IsAlign = record { by_four = λ x small. refl; by_eight = λ x small. refl }

module _ {V : Type 0} (read_int : ℕ → V → Result (List ℕ) × V)
    (read_a_double : V → Result (List ℕ) × V) where
  abbrev decode : Scalar → V → Result (List ℕ) × V
  decode (int n) va = read_int n va
  decode double va = read_a_double va

  decode-IsDecoder : IsDecoder read_int read_a_double decode
  decode-IsDecoder = record { ints = λ n va. refl; doubles = λ va. refl }

abbrev some_args : List Scalar
some_args = int 4 ∷ double ∷ int 8 ∷ int 1 ∷ []

-- Two general registers are left, and no vector register.
abbrev arm64_va : Arm64List
arm64_va = record { stack = 4096; gr_top = 1000; vr_top = 2000; gr_offs = 4294967280; vr_offs = 0 }

abbrev arm64_slots : Slots
arm64_slots = record {
  general = 2;
  general_end = 1000;
  vector = 0;
  vector_end = 2000;
  stack = 4096;
  unit = 8;
}

arm64_va-HoldsArm64 : HoldsArm64 arm64_va arm64_slots
arm64_va-HoldsArm64 = record {
  same_stack = refl;
  in_range = omega arith;
  aligned = refl;
  eights = refl;
  few = omega arith;
  few_vectors = omega arith;
  general_offset = refl;
  vector_offset = refl;
  same_end = refl;
  same_vector_end = refl;
}

some_args-AreScalars : AreScalars some_args
some_args-AreScalars = (
  (omega arith, omega arith),
  (tt, ((omega arith, omega arith), ((omega arith, omega arith), tt))),
)

abbrev arm64_decode : Scalar → Arm64List → Result (List ℕ) × Arm64List
arm64_decode = decode (arm64_read fetch) (arm64_read_double fetch)

-- The arguments are at 984, 4096, 992 and 4104.
extract_arm64-places_example :
    Extracts HoldsArm64
      (extract_arm64 arm64_decode align64 align32 some_args arm64_va)
      (read_places fetch some_args arm64_slots)
extract_arm64-places_example =
    extract_arm64-places fetch align64 align32 align64-IsAlign align32-IsAlign arm64_decode
      (decode-IsDecoder (arm64_read fetch) (arm64_read_double fetch)) some_args arm64_va arm64_slots
      some_args-AreScalars arm64_va-HoldsArm64

arm64_places :
    (extract_arm64 arm64_decode align64 align32 some_args arm64_va).0
    ≡ ok ((984 ∷ 4 ∷ []) ∷ (4096 ∷ 8 ∷ []) ∷ (992 ∷ 8 ∷ []) ∷ (4104 ∷ 1 ∷ []) ∷ [])
unfolding extract_arm64 arm64_read arm64_read_double
arm64_places = refl

arm64_skip-read_example :
    (arm64_read fetch 4 (arm64_skip 24 arm64_va)).0 ≡ or_unreadable (fetch 4096 4)
arm64_skip-read_example =
    arm64_skip-read fetch 3 4 arm64_va arm64_slots arm64_va-HoldsArm64 (omega arith) (omega arith)
      (omega arith)

-- 24 bytes are read, where the registers have 16.
abbrev low_bytes : ℕ → ℕ
low_bytes addr = addr % 256

arm64_read-bytes_example :
    let r = arm64_read (seen low_bytes) 24 arm64_va in
    (r.0 ≡ ok (tabulate 24 (arm64_bytes low_bytes arm64_va)))
    × ((i : ℕ) → arm64_bytes low_bytes r.1 i ≡ arm64_bytes low_bytes arm64_va (24 + i))
arm64_read-bytes_example = arm64_read-bytes low_bytes 24 arm64_va (omega arith) (omega arith)

-- Two general registers and one vector register are left.
abbrev amd64_va : Amd64List
amd64_va = record { gp_offset = 32; fp_offset = 160; overflow_arg_area = 4096; reg_save_area = 512 }

abbrev amd64_slots : Slots
amd64_slots = record {
  general = 2;
  general_end = 560;
  vector = 1;
  vector_end = 688;
  stack = 4096;
  unit = 8;
}

amd64_va-HoldsAmd64 : HoldsAmd64 amd64_va amd64_slots
amd64_va-HoldsAmd64 = record {
  same_stack = refl;
  in_range = omega arith;
  aligned = refl;
  eights = refl;
  few = omega arith;
  few_vectors = omega arith;
  general_offset = refl;
  vector_offset = refl;
  same_end = refl;
  same_vector_end = refl;
}

abbrev amd64_decode : Scalar → Amd64List → Result (List ℕ) × Amd64List
amd64_decode = decode (amd64_read fetch) (amd64_read_double fetch)

extract_amd64-places_example :
    Extracts HoldsAmd64
      (extract_amd64 amd64_decode align64 align32 some_args amd64_va)
      (read_places fetch some_args amd64_slots)
extract_amd64-places_example =
    extract_amd64-places fetch align64 align32 align64-IsAlign align32-IsAlign amd64_decode
      (decode-IsDecoder (amd64_read fetch) (amd64_read_double fetch)) some_args amd64_va amd64_slots
      some_args-AreScalars amd64_va-HoldsAmd64

amd64_places :
    (extract_amd64 amd64_decode align64 align32 some_args amd64_va).0
    ≡ ok ((544 ∷ 4 ∷ []) ∷ (672 ∷ 8 ∷ []) ∷ (552 ∷ 8 ∷ []) ∷ (4096 ∷ 1 ∷ []) ∷ [])
unfolding extract_amd64 amd64_read amd64_read_double
amd64_places = refl

amd64_skip-read_example :
    (amd64_read fetch 4 (amd64_skip 24 amd64_va)).0 ≡ or_unreadable (fetch 4096 4)
amd64_skip-read_example =
    amd64_skip-read fetch 3 4 amd64_va amd64_slots amd64_va-HoldsAmd64 (omega arith) (omega arith)
      (omega arith)

amd64_read-bytes_example :
    let r = amd64_read (seen low_bytes) 24 amd64_va in
    (r.0 ≡ ok (tabulate 24 (amd64_bytes low_bytes amd64_va)))
    × ((i : ℕ) → amd64_bytes low_bytes r.1 i ≡ amd64_bytes low_bytes amd64_va (24 + i))
amd64_read-bytes_example = amd64_read-bytes low_bytes 24 amd64_va (omega arith) (omega arith)

abbrev std_va : StdList
std_va = record { ptr = 4096; size = 4 }

abbrev std_slots : Slots
std_slots = record {
  general = 0;
  general_end = 0;
  vector = 0;
  vector_end = 0;
  stack = 4096;
  unit = 4;
}

std_va-HoldsStd : HoldsStd std_va std_slots
std_va-HoldsStd = record {
  same_stack = refl;
  in_range = omega arith;
  aligned = refl;
  fours = refl;
  no_general = refl;
  no_vector = refl;
}

abbrev std_decode : Scalar → StdList → Result (List ℕ) × StdList
std_decode = decode (read fetch) (read_double fetch)

extract_std-places_example :
    Extracts HoldsStd
      (extract_std std_decode align64 some_args std_va)
      (read_places fetch some_args std_slots)
extract_std-places_example =
    extract_std-places fetch align64 align64-IsAlign std_decode
      (decode-IsDecoder (read fetch) (read_double fetch)) some_args std_va std_slots
      some_args-AreScalars std_va-HoldsStd
