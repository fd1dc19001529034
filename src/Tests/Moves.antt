-- ===== src/Tests/Moves.antt =====
-- Transfers between a file and a memory that is its contents.
use microdbg_linux.Base.{ℕ, zero, suc, ◌+◌, ◌-◌, ◌≤◌, ◌≡◌, refl, ap, ◌∙◌, arith, leb}
use microdbg_linux.Base.{Bool, true, false, if◌then◌else◌, some, List, [], ◌∷◌, ◌++◌}
use microdbg_linux.Base.Lists.{length, take, drop, length-append, length-take, take-nil}
use microdbg_linux.Base.Word.{add64}
use microdbg_linux.Base.Assoc.{lookup}
use microdbg_linux.Machine.{Machine, End}
use microdbg_linux.Exec.{State, done}
use microdbg_linux.Io.Total.{IsPipe}
use microdbg_linux.Fcntl.Transfer.{file_source, file_sink, memory_source, memory_sink, read, write}
use microdbg_linux.Fcntl.Moves.{read-stores, write-stores}
use microdbg_linux.Services.Mman.{load}
use microdbg_linux.Services.Mapped.{load-Loaded}
use microdbg_linux.Tests.Sample.{sample, reads_file}

-- The bytes `bs` from the address `k` on.
abbrev put : ℕ → List ℕ → List ℕ → List ℕ
put zero [] m = m
put zero (b ∷ bs) [] = []
put zero (b ∷ bs) (x ∷ m) = b ∷ put zero bs m
put (suc k) bs [] = []
put (suc k) bs (x ∷ m) = x ∷ put k bs m

length-put : (k : ℕ) (bs m : List ℕ) → length (put k bs m) ≡ length m
length-put zero [] m = refl
length-put zero (b ∷ bs) [] = refl
length-put zero (b ∷ bs) (x ∷ m) = omega (arith, length-put zero bs m)
length-put (suc k) bs [] = refl
length-put (suc k) bs (x ∷ m) = omega (arith, length-put k bs m)

take-put :
    (k n : ℕ) (bs m : List ℕ)
    → n ≡ k + length bs
    → n ≤ length m
    → take n (put k bs m) ≡ take k m ++ bs
take-put zero n [] m e h = ground arith
take-put zero n (b ∷ bs) [] e h = absurd (omega arith)
take-put zero zero (b ∷ bs) (x ∷ m) e h = absurd (omega arith)
take-put zero (suc n) (b ∷ bs) (x ∷ m) e h =
    ap (λ zs. b ∷ zs) (take-put zero n bs m (omega arith) (omega arith))
take-put (suc k) zero bs m e h = absurd (omega arith)
take-put (suc k) (suc n) bs [] e h = absurd (omega arith)
take-put (suc k) (suc n) bs (x ∷ m) e h =
    ap (λ zs. x ∷ zs) (take-put k n bs m (omega arith) (omega arith))

length-drop : (k : ℕ) (m : List ℕ) → length (drop k m) ≡ length m - k
length-drop zero m = omega arith
length-drop (suc k) [] = omega arith
length-drop (suc k) (x ∷ m) = omega (arith, length-drop k m)

drop_all : (m : List ℕ) → drop (length m) m ≡ []
drop_all [] = refl
drop_all (x ∷ m) = drop_all m

drop-append : (k : ℕ) (m bs : List ℕ) → k ≤ length m → drop k (m ++ bs) ≡ drop k m ++ bs
drop-append zero m bs h = refl
drop-append (suc k) [] bs h = absurd (omega arith)
drop-append (suc k) (x ∷ m) bs h = drop-append k m bs (omega arith)

split : (n : ℕ) (m : List ℕ) → take n m ++ drop (length (take n m)) m ≡ m
split zero m = refl
split (suc n) [] = refl
split (suc n) (x ∷ m) = ap (λ zs. x ∷ zs) (split n m)

split_at :
    (k n l : ℕ) (m : List ℕ)
    → l ≡ k + length (take n (drop k m))
    → take n (drop k m) ++ drop l m ≡ drop k m
split_at zero n l m e = let same : l ≡ length (take n m) = omega (arith, e) in rw same (split n m)
split_at (suc k) n zero m e = absurd (omega arith)
split_at (suc k) n (suc l) [] e = rw (take-nil {A = ℕ} n) refl
split_at (suc k) n (suc l) (x ∷ m) e = split_at k n l m (omega arith)

abbrev flat_read : List ℕ → ℕ → ℕ → List ℕ × End
flat_read m addr n =
    (take n (drop addr m), (if leb (addr + n) (length m) then End.more else End.broken))

abbrev flat_write : List ℕ → ℕ → List ℕ → (ℕ × Bool) × List ℕ
flat_write m addr bs =
    if leb (addr + length bs) (length m)
    then ((length bs, true), put addr bs m)
    else ((0, false), m)

-- The sample machine with a memory of bytes from the address 0 on.
abbrev flat : Machine
flat = record sample { read_at = flat_read; write_at = flat_write }

abbrev four_bytes : State flat
four_bytes = record {
  files = (3, 1) ∷ [];
  memory = 10 ∷ 11 ∷ 12 ∷ 13 ∷ [];
  host = (1 ∷ 2 ∷ 3 ∷ 4 ∷ 5 ∷ [], 8 ∷ []);
  cpu = [];
  errno = 0;
  flags = [];
  sigset = 0;
  sigtable = [];
  awaits = [];
  bit_awaits = [];
  channels = 0;
  tasks = [];
  events = [];
}

opened : lookup 3 four_bytes.files ≡ some 1
unfolding lookup
opened = refl

wrote_flat :
    (m : List ℕ) (a off : ℕ) (bs : List ℕ)
    → a ≡ off
    → off + length bs ≤ length m
    → flat_write m a bs ≡ ((length bs, true), put off bs m)
wrote_flat m a off bs e h = rw e (ground arith)

-- The file into the four bytes at the address 0.
abbrev into_memory : IsPipe (file_source flat 1) (memory_sink flat 0) 4
into_memory = record {
  Ready = λ x. 4 ≤ length x.1;
  pending = λ off x. x.0.0;
  stored = λ k x. take k x.1;
  starts = λ x. refl;
  reads = λ off n x ready some_wanted within.
      let (a, b, c) = reads_file x.0 in (a, omega (arith, b), λ k. refl, ready, c);
  writes = λ off bs x ready within.
      let e = wrote_flat x.1 (add64 0 off) off bs (omega arith) (omega arith) in
      rw e (
        refl,
        take-put off (off + length bs) bs x.1 refl (omega arith),
        λ k. refl,
        omega (arith, length-put off bs x.1),
      );
}

-- The four bytes at the address 0 into the file: what it takes stands at its end.
abbrev from_memory : IsPipe (memory_source flat 0) (file_sink flat 1) 4
from_memory = record {
  Ready = λ x. length x.1 ≡ 4;
  pending = λ off x. drop off x.1;
  stored = λ k x. drop (length x.0.1 - k) x.0.1;
  starts = λ x.
      let whole : length x.0.1 - 0 ≡ length x.0.1 = omega arith in
      ap (λ k. drop k x.0.1) whole ∙ drop_all x.0.1;
  reads = λ off n x ready some_wanted within.
      let at : add64 0 off ≡ off = omega arith in
      let fits : leb (off + n) (length x.1) ≡ true = ground arith in
      let size = length-take n (drop off x.1) in
      rw (at, fits)
        (
          split_at off n _ x.1 refl,
          omega (arith, size),
          λ k. refl,
          ready,
          omega (arith, size, length-drop off x.1),
        );
  writes = λ off bs x ready within.
      let k : ℕ = length (x.0.1 ++ bs) - (off + length bs) in
      let same : k ≡ length x.0.1 - off = omega (arith, length-append {0} x.0.1 bs) in
      (
        refl,
        ap (λ j. drop j (x.0.1 ++ bs)) same
            ∙ drop-append (length x.0.1 - off) x.0.1 bs (omega arith),
        λ j. refl,
        ready,
      );
}

-- The file has five bytes: four of them are read.
read-stores_example :
    (take 4 (read 3 0 4 four_bytes).1.memory ≡ 1 ∷ 2 ∷ 3 ∷ 4 ∷ [])
    × ((read 3 0 4 four_bytes).0 ≡ done 4)
    × ((read 3 0 4 four_bytes).1.errno ≡ 0)
read-stores_example =
    read-stores 3 0 4 1 four_bytes into_memory opened refl (omega arith) (omega arith)

abbrev last_four : List ℕ → List ℕ
last_four bs = drop (length bs - 4) bs

write-stores_example :
    (last_four (write 3 0 4 four_bytes).1.host.1 ≡ 10 ∷ 11 ∷ 12 ∷ 13 ∷ [])
    × ((write 3 0 4 four_bytes).0 ≡ done 4)
    × ((write 3 0 4 four_bytes).1.errno ≡ 0)
write-stores_example = write-stores 3 0 4 1 four_bytes from_memory opened refl refl

load-Loaded_example :
    ((load 0 4 (some 1) four_bytes).0 ≡ done 0)
    × (take 4 (load 0 4 (some 1) four_bytes).1.memory ≡ 1 ∷ 2 ∷ 3 ∷ 4 ∷ [])
    × ((load 0 4 (some 1) four_bytes).1.errno ≡ 0)
load-Loaded_example = load-Loaded 0 4 1 four_bytes into_memory (omega arith) (omega arith)
