-- ===== src/Fcntl/View.antt =====
-- What the descriptor calls of kernel/fcntl.go and kernel/socket.go promise: a descriptor table
-- that forgets the debugger's table and the map of flags, and the edits of it that each call makes.
-- A descriptor is a file with flags; a number that is not open is none.
use microdbg_linux.Base.{ℕ, zero, suc, ◌≡◌, ◌≢◌, ◌⊎◌, Option, none, some, List, [], ◌∷◌, ◌==◌, ◌||◌}
use microdbg_linux.Base.{bit_or, if◌then◌else◌}
use microdbg_linux.Base.Word.{to_32, extend, has_bits, minus_one}
use microdbg_linux.Machine.{Machine}
use microdbg_linux.Exec.{State, Outcome, done, failed, panicked, stalled}
use microdbg_linux.Services.Socket.{af_unspec}
use microdbg_linux.Fcntl.Table.{
  flags_of, o_cloexec, f_getfd, f_setfd, f_getfl, f_setfl, f_getlk, f_getlk64, f_setlk, f_setlkw,
  f_setlk64, f_setlkw64,
}

abbrev pub View : Machine → Type 0
View M = ℕ → Option (M.File × ℕ)

abbrev pub descriptor {ℓ} : {F : Type ℓ} → Option F → ℕ → Option (F × ℕ)
descriptor none flags = none
descriptor (some file) flags = some (file, flags)

-- The view of the kernel's state.
abbrev pub view : {M : Machine} → State M → View M
view {M} s fd = descriptor (M.get_file s.files fd) (flags_of fd s.flags)

-- A descriptor is set to a file with flags, or taken away.
pub data Edit (F : Type 0) : Type 0 where
  put : ℕ → F → ℕ → Edit F
  drop : ℕ → Edit F

module _ {F : Type 0} where
  abbrev pub edit : Edit F → (ℕ → Option (F × ℕ)) → ℕ → Option (F × ℕ)
  edit (put fd file flags) v j = if fd == j then some (file, flags) else v j
  edit (drop fd) v j = if fd == j then none else v j

  -- The edits in turn, the first one first.
  abbrev pub edits : List (Edit F) → (ℕ → Option (F × ℕ)) → ℕ → Option (F × ℕ)
  edits [] v j = v j
  edits (e ∷ es) v j = edits es (edit e v) j

-- What the program is told: the result of a call that returns an `int32`, or -1.
abbrev pub answer : Outcome ℕ → Outcome ℕ
answer (done r) = done (extend r)
answer failed = done minus_one
answer panicked = panicked
answer stalled = stalled

module _ {F : Type 0} where
  -- The call fails and no descriptor changes.
  abbrev pub Fails : List (Edit F) → Outcome ℕ → Type 0
  Fails es o = (es ≡ []) × (o ≡ done minus_one)

  -- A number that was not in use gets the file with the flags, and is the result.
  abbrev pub Allocates : F → ℕ → (ℕ → Option (F × ℕ)) → List (Edit F) → Outcome ℕ → Type 0
  Allocates file flags v es o =
      (fd : ℕ) × (v fd ≡ none) × (es ≡ put fd file flags ∷ []) × (o ≡ done (extend (to_32 fd)))

  -- Some file is opened under a new number with the flags, or the call fails.
  abbrev pub Opens : ℕ → (ℕ → Option (F × ℕ)) → List (Edit F) → Outcome ℕ → Type 0
  Opens flags v es o = Fails es o ⊎ ((file : F) × Allocates file flags v es o)

  -- An open descriptor is copied to `newfd`, with new flags, or the call fails.
  abbrev pub Copies : ℕ → ℕ → ℕ → (ℕ → Option (F × ℕ)) → List (Edit F) → Outcome ℕ → Type 0
  Copies oldfd newfd flags v es o =
      Fails es o
      ⊎ ((file : F) × (old : ℕ) × (v oldfd ≡ some (file, old))
          × (es ≡ put newfd file flags ∷ [])
          × (o ≡ done (extend newfd)))

  abbrev pub Drops : ℕ → (ℕ → Option (F × ℕ)) → List (Edit F) → Outcome ℕ → Type 0
  Drops fd v es o = Fails es o ⊎ ((es ≡ drop fd ∷ []) × (o ≡ done 0))

  -- Two new descriptors with the flags, or the call fails.
  abbrev pub Pairs : ℕ → (ℕ → Option (F × ℕ)) → List (Edit F) → Outcome ℕ → Type 0
  Pairs flags v es o =
      Fails es o
      ⊎ ((r : ℕ) × (w : ℕ) × (f : F) × (g : F) × (r ≢ w)
          × (v r ≡ none)
          × (v w ≡ none)
          × (es ≡ put r f flags ∷ put w g flags ∷ [])
          × (o ≡ done 0))

  -- A socket has no flags; AF_UNSPEC is the one family with which the call does not return.
  abbrev pub Sockets : ℕ → (ℕ → Option (F × ℕ)) → List (Edit F) → Outcome ℕ → Type 0
  Sockets domain v es o = ((domain ≡ af_unspec) × (es ≡ []) × (o ≡ panicked)) ⊎ Opens 0 v es o

  -- The commands of `fcntl` on an open descriptor, but for the one that makes a new descriptor.
  abbrev pub adjust : ℕ → ℕ → ℕ → F → ℕ → List (Edit F) × Outcome ℕ
  adjust fd cmd arg file flags =
      if cmd == f_getfd
      then ([], done (if has_bits flags o_cloexec then 1 else 0))
      else if cmd == f_setfd
      then (put fd file (bit_or flags o_cloexec) ∷ [], done 0)
      else if cmd == f_getfl
      then ([], done (extend flags))
      else if cmd == f_setfl
      then (put fd file (to_32 arg) ∷ [], done 0)
      else if cmd == f_getlk
          || cmd == f_getlk64
          || cmd == f_setlk
          || cmd == f_setlkw
          || cmd == f_setlk64
          || cmd == f_setlkw64
      then ([], done 0)
      else ([], panicked)

  -- `fcntl` on what a descriptor is: it fails on none, F_DUPFD copies it to a new number with its
  -- flags, or fails, and the other commands adjust it.
  abbrev pub Commanded :
      ℕ → ℕ → ℕ → Option (F × ℕ) → (ℕ → Option (F × ℕ)) → List (Edit F) → Outcome ℕ → Type 0
  Commanded fd cmd arg none v es o = Fails es o
  Commanded fd zero arg (some (file, flags)) v es o = Fails es o ⊎ Allocates file flags v es o
  Commanded fd (suc k) arg (some (file, flags)) v es o = (es, o) ≡ adjust fd (suc k) arg file flags

  abbrev pub Commands : ℕ → ℕ → ℕ → (ℕ → Option (F × ℕ)) → List (Edit F) → Outcome ℕ → Type 0
  Commands fd cmd arg v es o = Commanded fd cmd arg (v fd) v es o
