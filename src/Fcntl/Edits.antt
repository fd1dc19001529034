-- ===== src/Fcntl/Edits.antt =====
-- What a change of the debugger's table and of the map `flags` does to the view of the descriptors.
use microdbg_linux.Base.{ℕ, ◌≡◌, inl, inr, refl, none, some, List, []}
use microdbg_linux.Base.{◌∷◌, eq_of_==, sym, ◌==◌, if◌then◌else◌, arith, Bool-cases, Option-cases}
use microdbg_linux.Base.Assoc.{Assoc, lookup, insert, erase, lookup-insert, lookup-erase}
use microdbg_linux.Machine.{Machine}
use microdbg_linux.Exec.{State, Outcome, Exec}
use microdbg_linux.Fcntl.Table.{flags_of}
use microdbg_linux.Fcntl.Tracked.{IsTracked}
use microdbg_linux.Fcntl.View.{View, view, Edit, put, drop, edits, answer}

-- New descriptors get numbers that are not in use.
pub record IsAllocator (M : Machine) : Type 0 where
  pub create-unused : (t : M.Files) (f : M.File) → M.get_file t (M.create_fd t f).0 ≡ none
  pub dup-unused : (t : M.Files) (fd n : ℕ) → (M.dup_file t fd).0 ≡ some n → M.get_file t n ≡ none

abbrev pub Promise : Machine → Type 1
Promise M = View M → List (Edit M.File) → Outcome ℕ → Type 0

-- A call that starts where descriptors with flags are open edits the view as its promise has it.
pub record Refines (M : Machine) (P : Promise M) (m : Exec M ℕ) : Type 0 where
  pub at :
      (s : State M)
      → IsTracked s
      → (es : List (Edit M.File)) × P (view s) es (answer (m s).0)
        × ((j : ℕ) → view (m s).1 j ≡ edits es (view s) j)

pub flags_of-insert :
    (fd j v : ℕ) (m : Assoc ℕ) → flags_of j (insert fd v m) ≡ (if fd == j then v else flags_of j m)
unfolding flags_of
flags_of-insert fd j v m = ground (arith, lookup-insert fd j v m)

pub flags_of-erase :
    (fd j : ℕ) (m : Assoc ℕ) → flags_of j (erase fd m) ≡ (if fd == j then 0 else flags_of j m)
unfolding flags_of
flags_of-erase fd j m = ground (arith, lookup-erase fd j m)

module _ {M : Machine} where
  -- A table that has changed in one place, with the flags of that place set.
  pub put-view :
      (s : State M) (t : M.Files) (h : M.Host) (fd flags : ℕ) (file : M.File)
      → ((j : ℕ) → M.get_file t j ≡ (if fd == j then some file else M.get_file s.files j))
      → (j : ℕ)
      → view (record s { files = t; host = h; flags = insert fd flags s.flags }) j
        ≡ edits (put fd file flags ∷ []) (view s) j
  put-view s t h fd flags file e j = elim (Bool-cases (fd == j)) [
    | inl here ↦ rw (e j, flags_of-insert fd j flags s.flags, here) refl
    | inr there ↦ rw (e j, flags_of-insert fd j flags s.flags, there) refl
  ]

  -- The same where the flags of the place are 0 and stay as they are.
  pub bare-view :
      (s : State M) (t : M.Files) (h : M.Host) (fd : ℕ) (file : M.File)
      → ((j : ℕ) → M.get_file t j ≡ (if fd == j then some file else M.get_file s.files j))
      → flags_of fd s.flags ≡ 0
      → (j : ℕ) → view (record s { files = t; host = h }) j ≡ edits (put fd file 0 ∷ []) (view s) j
  bare-view s t h fd file e bare j = elim (Bool-cases (fd == j)) [
    | inl here ↦ rw (e j, here, sym (eq_of_== fd j here), bare) refl
    | inr there ↦ rw (e j, there) refl
  ]

  pub unflagged :
      (fd : ℕ) (s : State M) → IsTracked s → M.get_file s.files fd ≡ none → flags_of fd s.flags ≡ 0
  unfolding flags_of
  unflagged fd s h unused = elim (Option-cases (lookup fd s.flags)) [
    | inl bare ↦ rw bare refl
    | inr (v, flagged) ↦ absurd (h.at fd (λ e. cc) unused)
  ]

  -- A table that has changed nowhere.
  pub keep-view :
      (s : State M) (t : M.Files) (h : M.Host) (errno : ℕ)
      → ((j : ℕ) → M.get_file t j ≡ M.get_file s.files j)
      → (j : ℕ) → view (record s { files = t; host = h; errno = errno }) j ≡ view s j
  keep-view s t h errno e j = rw (e j) refl

  pub drop-view :
      (s : State M) (t : M.Files) (h : M.Host) (fd : ℕ)
      → ((j : ℕ) → M.get_file t j ≡ (if fd == j then none else M.get_file s.files j))
      → (j : ℕ)
      → view (record s { files = t; host = h; flags = erase fd s.flags }) j
        ≡ edits (drop fd ∷ []) (view s) j
  drop-view s t h fd e j = elim (Bool-cases (fd == j)) [
    | inl here ↦ rw (e j, here) refl
    | inr there ↦ rw (e j, flags_of-erase fd j s.flags, there) refl
  ]

  -- A descriptor that gets other flags.
  pub reflag :
      (s : State M) (fd flags : ℕ) (file : M.File)
      → M.get_file s.files fd ≡ some file
      → (j : ℕ)
      → view (record s { flags = insert fd flags s.flags }) j
        ≡ edits (put fd file flags ∷ []) (view s) j
  reflag s fd flags file there = put-view s s.files s.host fd flags file (λ j.
      elim (Bool-cases (fd == j)) [
        | inl here ↦ rw (here, sym (eq_of_== fd j here), there) refl
        | inr other ↦ rw other refl
      ])
