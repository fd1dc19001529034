-- ===== src/Fcntl/Commands.antt =====
-- `fcntl` of kernel/fcntl.go does to the view of the descriptors what it promises.
use microdbg_linux.Base.{ℕ, zero, suc, ◌≡◌, ◌⊎◌, inl, inr, refl, some, List, []}
use microdbg_linux.Base.{◌∷◌, ◌∙◌, ap, arith, bit_or, Option-cases}
use microdbg_linux.Base.Word.{to_32}
use microdbg_linux.Machine.{Machine}
use microdbg_linux.Errno.{code, ebadf}
use microdbg_linux.Exec.{State, ◌>>=◌}
use microdbg_linux.Fcntl.Table.{flags_of, o_cloexec, dupfd, command, fcntl}
use microdbg_linux.Fcntl.Tracked.{IsFileTable}
use microdbg_linux.Fcntl.View.{
  view, Edit, put, edits, answer, Fails, Allocates, adjust, Commanded, Commands,
}
use microdbg_linux.Fcntl.Edits.{IsAllocator, Refines, put-view, keep-view, reflag}

module _ {M : Machine} (law : IsFileTable M) (fresh : IsAllocator M) where
  -- `fcntl` on an open descriptor with the command F_DUPFD.
  dupfd-Allocates :
      (fd : ℕ) (file : M.File) (s : State M)
      → M.get_file s.files fd ≡ some file
      → (es : List (Edit M.File)) × (Fails es (answer (dupfd fd s).0)
          ⊎ Allocates file (flags_of fd s.flags) (view s) es (answer (dupfd fd s).0))
        × ((j : ℕ) → view (dupfd fd s).1 j ≡ edits es (view s) j)
  unfolding dupfd ◌>>=◌
  dupfd-Allocates fd file s there =
      let x = M.dup_file s.files fd in
      elim (Option-cases x.0) [
        | inl unmade ↦ (
          [],
          rw unmade (inl (refl, refl)),
          rw unmade (
              keep-view s x.1 s.host (code ebadf) (λ j. law.get-dup s.files fd j ∙ rw unmade refl)),
        )
        | inr (n, made) ↦ (
          put n file (flags_of fd s.flags) ∷ [],
          rw made (inr (n, rw (fresh.dup-unused s.files fd n made) refl, refl, refl)),
          rw made (
              put-view s x.1 s.host n (flags_of fd s.flags) file
                (λ j. law.get-dup s.files fd j ∙ rw (made, there) refl)),
        )
      ]

  -- The other commands of `fcntl` on an open descriptor.
  command-adjust :
      (fd k arg : ℕ) (file : M.File) (s : State M)
      → M.get_file s.files fd ≡ some file
      → let told = adjust fd (suc k) arg file (flags_of fd s.flags) in
        (answer (command fd (suc k) arg s).0 ≡ told.1)
        × ((j : ℕ) → view (command fd (suc k) arg s).1 j ≡ edits told.0 (view s) j)
  unfolding command ◌>>=◌
  command-adjust fd zero arg file s there = (ground arith, λ j. ground arith)
  command-adjust fd (suc zero) arg file s there =
      (refl, reflag s fd (bit_or (flags_of fd s.flags) o_cloexec) file there)
  command-adjust fd (suc (suc zero)) arg file s there = (refl, λ j. refl)
  command-adjust fd (suc (suc (suc zero))) arg file s there =
      (refl, reflag s fd (to_32 arg) file there)
  command-adjust fd (suc (suc (suc (suc k)))) arg file s there = (ground arith, λ j. ground arith)

  commanded :
      (fd cmd arg : ℕ) (file : M.File) (s : State M)
      → M.get_file s.files fd ≡ some file
      → (es : List (Edit M.File)) × Commanded fd cmd arg
          (some (file, flags_of fd s.flags))
          (view s)
          es
          (answer (command fd cmd arg s).0)
        × ((j : ℕ) → view (command fd cmd arg s).1 j ≡ edits es (view s) j)
  unfolding command dupfd
  commanded fd zero arg file s there = dupfd-Allocates fd file s there
  commanded fd (suc k) arg file s there =
      let told = adjust fd (suc k) arg file (flags_of fd s.flags) in
      let (same, after) = command-adjust fd k arg file s there in
      (told.0, ap (λ o. (told.0, o)) same, after)

  pub fcntl-Commands : (fd cmd arg : ℕ) → Refines M (Commands fd cmd arg) (fcntl fd cmd arg)
  unfolding fcntl ◌>>=◌
  fcntl-Commands fd cmd arg = record {
    at = λ s h. elim (Option-cases (M.get_file s.files fd)) [
      | inl closed ↦ ([], rw closed (refl, refl), λ j. rw closed refl)
      | inr (file, there) ↦ rw there (commanded fd cmd arg file s there)
    ];
  }
