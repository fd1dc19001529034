-- ===== src/Tests/Mappings.antt =====
-- Mappings of files, on a machine whose memory is a list of changes of the address space: three
-- numbers for each change, of which the first says whether it maps or frees.
use microdbg_linux.Base.{
  ℕ, zero, suc, ◌+◌, ◌*◌, ◌/◌, ◌<◌, ◌≡◌, refl, arith, Bool, true, false, ◌||◌, ◌&&◌, not, some,
  List, [], ◌∷◌, Bool-cases, inl, inr,
}
use microdbg_linux.Base.Lists.{length}
use microdbg_linux.Base.Word.{has_bits}
use microdbg_linux.Machine.{Machine}
use microdbg_linux.Exec.{State}
use microdbg_linux.Syscall.Ending.{IsProgressing}
use microdbg_linux.Services.Mman.{map_fixed, mmap}
use microdbg_linux.Services.Regions.{within, IsAddressSpace, Placed, mmap-Placed}
use microdbg_linux.Tests.Sample.{sample, start}
use microdbg_linux.Tests.Dispatch.{byte-Advances, memory-Advances}

abbrev mapped_in : List ℕ → ℕ → Bool
mapped_in (zero ∷ base ∷ len ∷ rest) a = mapped_in rest a && not (within base len a)
mapped_in (suc t ∷ base ∷ len ∷ rest) a = mapped_in rest a || within base len a
mapped_in _ a = false

-- An address above all that are mapped.
abbrev top_of : List ℕ → ℕ
top_of (t ∷ base ∷ len ∷ rest) = base + len + top_of rest
top_of _ = 0

below_top : (m : List ℕ) (a : ℕ) → mapped_in m a ≡ true → a < top_of m
below_top [] a e = ground arith
below_top (t ∷ []) a e = ground arith
below_top (t ∷ base ∷ []) a e = ground arith
below_top (zero ∷ base ∷ len ∷ rest) a e = ground (arith, below_top rest a)
below_top (suc t ∷ base ∷ len ∷ rest) a e = ground (arith, below_top rest a)

abbrev pages : ℕ → ℕ
pages len = (len + 4095) / 4096 * 4096

abbrev mapping : Machine
mapping = record sample {
  write_at = λ m addr bs. ((length bs, true), m);
  map_alloc = λ m len prot. (some (top_of m), 1 ∷ top_of m ∷ pages len ∷ m);
  map_free = λ m addr len. (true, 0 ∷ addr ∷ pages len ∷ m);
  mem_map = λ m addr len prot. (some addr, 1 ∷ addr ∷ pages len ∷ m);
  mem_unmap = λ m addr len. (true, 0 ∷ addr ∷ pages len ∷ m);
}

mapping-IsAddressSpace : IsAddressSpace mapping
mapping-IsAddressSpace = record {
  mapped = mapped_in;
  extent = pages;
  after_alloc = λ m len prot a. refl;
  alloc_fresh = λ m len prot base a there inside. elim (Bool-cases (mapped_in m a)) [
    | inl e ↦ absurd (ground (arith, below_top m a e))
    | inr e ↦ e
  ];
  after_map = λ m addr len prot a. refl;
  map_at = λ m addr len prot base there. ground arith;
  after_unmap = λ m addr len a. refl;
  after_free = λ m addr len a. refl;
  frees = λ m addr len inside. refl;
  after_write = λ m addr a bs. refl;
}

mapping-IsProgressing : IsProgressing mapping
mapping-IsProgressing = record {
  file_reads = λ host file n some_wanted. byte-Advances host;
  random_reads = λ host n some_wanted. byte-Advances host;
  memory_reads = λ memory addr n some_wanted. memory-Advances addr;
}

-- A page is mapped at 0; the descriptor 3 is a file of five bytes.
abbrev ready : State mapping
ready = record {
  files = start.files;
  memory = 1 ∷ 0 ∷ 4096 ∷ [];
  host = start.host;
  cpu = start.cpu;
  errno = 0;
  flags = start.flags;
  sigset = 0;
  sigtable = [];
  awaits = [];
  bit_awaits = [];
  channels = 0;
  tasks = [];
  events = [];
}

-- A mapping of six bytes of the file: it is too short.
mmap-Placed_example :
    let r = mmap 0 6 1 0 3 0 ready in
    Placed mapping-IsAddressSpace 0 6 (has_bits 0 map_fixed) ready.memory r.0 r.1.memory
mmap-Placed_example = mmap-Placed mapping-IsAddressSpace mapping-IsProgressing 0 6 1 0 3 0 ready
