-- ===== src/Services/Regions.antt =====
-- What `mmap` of kernel/mman.go does to the address space. What is assumed of the debugger's memory
-- is the documented behaviour of its calls.
use microdbg_linux.Base.{
  ℕ, ◌+◌, ◌≡◌, refl, ap, Bool-cases, ◌∙◌, arith, Bool, true, false, ◌||◌, ◌&&◌, not, inl, inr,
  Option, List, none, some, leb, ltb,
}
use microdbg_linux.Base.Word.{has_bits}
use microdbg_linux.Machine.{Machine}
use microdbg_linux.Exec.{
  State, Outcome, done, failed, panicked, stalled, ◌>>=◌, continue, or_fail, fail, pure,
}
use microdbg_linux.Io.{Moved, moved, error, endless}
use microdbg_linux.Io.Keeps.{copy_n-Holds}
use microdbg_linux.Io.Ends.{IsMoved, copy_n-IsMoved}
use microdbg_linux.Fcntl.Transfer.{file_source, memory_sink}
use microdbg_linux.Errno.{einval}
use microdbg_linux.Syscall.Ending.{IsProgressing, IsEnd}
use microdbg_linux.Syscall.Copying.{source_of-Ends}
use microdbg_linux.Services.Mman.{map_fixed, source_of, region, or_unmap, load, mmap}

-- Whether an address lies in the region of a base and a length.
abbrev pub within : ℕ → ℕ → ℕ → Bool
within base len a = leb base a && ltb a (base + len)

-- A set of mapped addresses, and the extent of a region, such as its whole pages, from its length. The
-- set is the same behind a call that fails; an allocation and a mapping add their region, which was
-- free before an allocation; freeing and unmapping take theirs away, and freeing a region that is
-- mapped does not fail; a write maps and frees nothing.
pub record IsAddressSpace (M : Machine) : Type 0 where
  pub mapped : M.Memory → ℕ → Bool
  pub extent : ℕ → ℕ
  pub after_alloc :
      (m : M.Memory) (len prot a : ℕ)
      → mapped (M.map_alloc m len prot).1 a ≡ elim (M.map_alloc m len prot).0 [
        | none ↦ mapped m a
        | some base ↦ mapped m a || within base (extent len) a
      ]
  pub alloc_fresh :
      (m : M.Memory) (len prot base a : ℕ)
      → (M.map_alloc m len prot).0 ≡ some base
      → within base (extent len) a ≡ true
      → mapped m a ≡ false
  pub after_map :
      (m : M.Memory) (addr len prot a : ℕ)
      → mapped (M.mem_map m addr len prot).1 a ≡ elim (M.mem_map m addr len prot).0 [
        | none ↦ mapped m a
        | some base ↦ mapped m a || within addr (extent len) a
      ]
  pub map_at :
      (m : M.Memory) (addr len prot base : ℕ)
      → (M.mem_map m addr len prot).0 ≡ some base
      → base ≡ addr
  pub after_unmap :
      (m : M.Memory) (addr len a : ℕ)
      → mapped (M.mem_unmap m addr len).1 a
        ≡ (mapped m a && not ((M.mem_unmap m addr len).0 && within addr (extent len) a))
  pub after_free :
      (m : M.Memory) (addr len a : ℕ)
      → mapped (M.map_free m addr len).1 a
        ≡ (mapped m a && not ((M.map_free m addr len).0 && within addr (extent len) a))
  pub frees :
      (m : M.Memory) (addr len : ℕ)
      → ((a : ℕ) → within addr (extent len) a ≡ true → mapped m a ≡ true)
      → (M.map_free m addr len).0 ≡ true
  pub after_write :
      (m : M.Memory) (addr a : ℕ) (bs : List ℕ) → mapped (M.write_at m addr bs).1 a ≡ mapped m a

module _ {M : Machine} where
  source_of-memory :
      (flags fd offset : ℕ) (s : State M) → (source_of flags fd offset s).1.memory ≡ s.memory
  unfolding source_of ◌>>=◌
  source_of-memory flags fd offset s = ground arith

module _ {M : Machine} (space : IsAddressSpace M) (addr len : ℕ) (fixed : Bool) where
  open space use {mapped, extent}

  -- A region at the base is mapped beside what was: at the address asked for where it is fixed, and
  -- else where nothing was mapped.
  abbrev pub HasRegion : M.Memory → ℕ → M.Memory → Type 0
  HasRegion before base after =
      (fixed ≡ true → base ≡ addr)
      × ((a : ℕ) → mapped after a ≡ (mapped before a || within base (extent len) a))
      × ((a : ℕ) → fixed ≡ false → within base (extent len) a ≡ true → mapped before a ≡ false)

  -- The memory before, the outcome and the memory behind: the region of the result, or, for a call
  -- that fails, what was mapped, but for the region asked for where that is fixed.
  abbrev pub Placed : M.Memory → Outcome ℕ → M.Memory → Type 0
  Placed before (done base) after = HasRegion before base after
  Placed before failed after =
      (a : ℕ) → (fixed && within addr (extent len) a) ≡ false → mapped after a ≡ mapped before a
  Placed before panicked after = (a : ℕ) → mapped after a ≡ mapped before a
  Placed before stalled after = ⊥

  or_unmap-Placed :
      (before : M.Memory) (base : ℕ) (r : Moved) (s : State M)
      → IsMoved r
      → HasRegion before base s.memory
      → Placed before (or_unmap base len r s).0 (or_unmap base len r s).1.memory
  unfolding or_unmap ◌>>=◌
  or_unmap-Placed before base (moved n) s ends h = h
  or_unmap-Placed before base error s ends (at_addr, covers, fresh) =
      let freed : (M.map_free s.memory base len).0 ≡ true =
        space.frees s.memory base len (λ a inside. ground (arith, covers a)) in
      λ a outside.
        ground (arith, at_addr, covers a, fresh a, freed, space.after_free s.memory base len a)
  or_unmap-Placed before base endless s ends h = absurd ends

  load-Placed :
      (before : M.Memory) (base : ℕ) (source : Option M.File) (s : State M)
      → IsProgressing M
      → HasRegion before base s.memory
      → Placed before (load base len source s).0 (load base len source s).1.memory
  unfolding load ◌>>=◌
  load-Placed before base none s law h = h
  load-Placed before base (some file) s law (at_addr, covers, fresh) =
      let kept =
        copy_n-Holds (file_source M file) (memory_sink M base)
          (λ x. (a : ℕ) → mapped x.1 a ≡ mapped s.memory a) (λ off n x same. same)
          (λ off bs x same a. space.after_write _ _ a bs ∙ same a) len (s.host, s.memory)
          (λ a. refl) in
      or_unmap-Placed before base _ _
        (copy_n-IsMoved (file_source M file) (memory_sink M base)
          (λ off n x. law.file_reads x.0 file n) len (s.host, s.memory))
        (at_addr, (λ a. kept a ∙ covers a), fresh)

  or_fail-Placed :
      (before : M.Memory) (r : Option ℕ) (s : State M)
      → (r ≡ none → Placed before failed s.memory)
      → ((base : ℕ) → r ≡ some base → HasRegion before base s.memory)
      → Placed before (or_fail {M = M} einval r s).0 (or_fail {M = M} einval r s).1.memory
  unfolding or_fail fail pure
  or_fail-Placed before none s no_region region = no_region refl
  or_fail-Placed before (some base) s no_region region = region base refl

  region-Placed :
      (prot flags : ℕ) (s : State M)
      → has_bits flags map_fixed ≡ fixed
      → Placed s.memory (region addr len prot flags s).0 (region addr len prot flags s).1.memory
  unfolding region ◌>>=◌
  region-Placed prot flags s e = elim (Bool-cases fixed) [
    | inl f ↦
        let m : M.Memory = (M.mem_unmap s.memory addr len).1 in
        let mapped_at = M.mem_map m addr len prot in
        rw (e ∙ f) (
          or_fail-Placed s.memory mapped_at.0 _
            (λ none_there a outside. ground (
              arith,
              f,
              none_there,
              space.after_map m addr len prot a,
              space.after_unmap s.memory addr len a,
            ))
            λ base there. (
              (λ _. space.map_at m addr len prot base there),
              (λ a. ground (
                arith,
                there,
                space.map_at m addr len prot base there,
                space.after_map m addr len prot a,
                space.after_unmap s.memory addr len a,
              )),
              λ a no_fixed inside. cc,
            ))
    | inr f ↦
        let allocated = M.map_alloc s.memory len prot in
        rw (e ∙ f) (
          or_fail-Placed s.memory allocated.0 _
            (λ none_there a outside.
              ground (arith, none_there, space.after_alloc s.memory len prot a))
            λ base there. (
              (λ is_fixed. cc),
              (λ a. ground (arith, there, space.after_alloc s.memory len prot a)),
              λ a no_fixed inside. space.alloc_fresh s.memory len prot base a there inside,
            ))
  ]

  then_load-Placed :
      (before : M.Memory) (source : Option M.File) (o : Outcome ℕ) (s : State M)
      → IsProgressing M
      → Placed before o s.memory
      → let r = continue o (λ base. load {M = M} base len source) s in Placed before r.0 r.1.memory
  then_load-Placed before source (done base) s law h = load-Placed before base source s law h
  then_load-Placed before source failed s law h = h
  then_load-Placed before source panicked s law h = h
  then_load-Placed before source stalled s law h = h

  then_region-Placed :
      (prot flags : ℕ) (o : Outcome (Option M.File)) (before : M.Memory) (s : State M)
      → IsProgressing M
      → has_bits flags map_fixed ≡ fixed
      → IsEnd o
      → s.memory ≡ before
      → let r =
          continue o
            (λ source. region {M = M} addr len prot flags >>= λ base. load base len source)
            s in
        Placed before r.0 r.1.memory
  unfolding ◌>>=◌
  then_region-Placed prot flags (done source) before s law e ends same =
      rw (← same) (then_load-Placed s.memory source _ _ law (region-Placed prot flags s e))
  then_region-Placed prot flags failed before s law e ends same =
      λ a outside. ap (λ m. mapped m a) same
  then_region-Placed prot flags panicked before s law e ends same = λ a. ap (λ m. mapped m a) same
  then_region-Placed prot flags stalled before s law e ends same = absurd ends

module _ {M : Machine} (space : IsAddressSpace M) (law : IsProgressing M)
    (addr len prot flags fd offset : ℕ) (s : State M) where
  -- On a memory that keeps a set of mapped addresses, with files that answer each read: a mapping
  -- that succeeds maps its region beside what was mapped, at the address asked for with MAP_FIXED and
  -- else where nothing was mapped; one that fails leaves mapped what was, but for the region asked for
  -- with MAP_FIXED; one that panics leaves all; and the call does not go on for ever.
  pub mmap-Placed :
      let r = mmap addr len prot flags fd offset s in
      Placed space addr len (has_bits flags map_fixed) s.memory r.0 r.1.memory
  unfolding mmap ◌>>=◌
  mmap-Placed =
      then_region-Placed space addr len _ prot flags _ s.memory _ law refl
        ((source_of-Ends law flags fd offset).at s) (source_of-memory flags fd offset s)
