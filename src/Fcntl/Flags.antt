-- ===== src/Fcntl/Flags.antt =====
-- What the descriptor flags are after each call of kernel/fcntl.go that sets them.
use microdbg_linux.Base.{
  ℕ, ◌≡◌, ◌≢◌, refl, ◌∙◌, bit_or, true, none, some, arith, ◌==◌, if◌then◌else◌,
}
use microdbg_linux.Base.{List, Option-cases, inl, inr}
use mathlib.Core.Path.{subst}
use microdbg_linux.Base.Bits.{bit_and-bit_or}
use microdbg_linux.Base.Word.{to_32, has_bits}
use microdbg_linux.Base.Assoc.{lookup, insert, lookup-erase}
use microdbg_linux.Machine.{Machine, Opened, opened, exists}
use microdbg_linux.Errno.{ebadf, code}
use microdbg_linux.Exec.{State, done, failed, ◌>>=◌}
use microdbg_linux.Fcntl.Table.{
  flags_of, f_getfd, f_getfl, f_setfl, f_setfd, o_cloexec, fcntl, close,
}
use microdbg_linux.Fcntl.Paths.{or_open_error, install, open_path, to_file_flag}
use microdbg_linux.Fcntl.Tracked.{IsFileTable}
use microdbg_linux.Fcntl.Edits.{flags_of-insert}

-- The two reads of the flags of an open descriptor give `flags` and its close-on-exec bit, and
-- change nothing.
abbrev pub ReadsAs : {M : Machine} → ℕ → ℕ → State M → Type 0
ReadsAs {M} fd flags s =
    (M.get_file s.files fd ≢ none)
    × ((arg : ℕ) → fcntl fd f_getfl arg s ≡ (done flags, s))
    × ((arg : ℕ) → fcntl fd f_getfd arg s ≡ (done (if has_bits flags o_cloexec then 1 else 0), s))

cloexec_found : (flags : ℕ) → has_bits (bit_or flags o_cloexec) o_cloexec ≡ true
cloexec_found flags = rw bit_and-bit_or refl

module _ {M : Machine} where
  reads-as :
      (fd : ℕ) (s : State M) → M.get_file s.files fd ≢ none → ReadsAs fd (flags_of fd s.flags) s
  unfolding fcntl ◌>>=◌
  reads-as fd s found = (found, λ arg. ground arith, λ arg. ground arith)

  reads-inserted :
      (fd v : ℕ) (s : State M)
      → M.get_file s.files fd ≢ none
      → ReadsAs fd v (record s { flags = insert fd v s.flags })
  reads-inserted fd v s found =
      let s' : State M = record s { flags = insert fd v s.flags } in
      let same : flags_of fd s'.flags ≡ v = ground (arith, flags_of-insert fd fd v s.flags) in
      subst (λ f. ReadsAs fd f s') same (reads-as fd s' found)

  fcntl-setfl :
      (fd arg : ℕ) (s : State M)
      → M.get_file s.files fd ≢ none
      → fcntl fd f_setfl arg s ≡ (done 0, record s { flags = insert fd (to_32 arg) s.flags })
  unfolding fcntl ◌>>=◌
  fcntl-setfl fd arg s found = ground arith

  fcntl-setfd :
      (fd arg : ℕ) (s : State M)
      → M.get_file s.files fd ≢ none
      → fcntl fd f_setfd arg s
        ≡ (done 0, record s { flags = insert fd (bit_or (flags_of fd s.flags) o_cloexec) s.flags })
  unfolding fcntl ◌>>=◌
  fcntl-setfd fd arg s found = ground arith

  -- After F_SETFL on an open descriptor, its flags read as the low 32 bits of the argument, the
  -- close-on-exec bit included, and those of every other descriptor are what they were.
  setfl-ReadsAs :
      (fd arg : ℕ) (s : State M)
      → M.get_file s.files fd ≢ none
      → let s' = (fcntl fd f_setfl arg s).1 in
        ReadsAs fd (to_32 arg) s'
        × ((j : ℕ) → flags_of j s'.flags ≡ (if fd == j then to_32 arg else flags_of j s.flags))
  setfl-ReadsAs fd arg s found =
      rw (fcntl-setfl fd arg s found)
        (reads-inserted fd (to_32 arg) s found, λ j. flags_of-insert fd j (to_32 arg) s.flags)

  -- Whatever its argument, F_SETFD on an open descriptor makes F_GETFD give 1, keeps the other
  -- flags of the descriptor, and leaves other descriptors alone: an argument of 0 does not clear
  -- the close-on-exec bit.
  pub setfd-getfd :
      (fd arg other_arg : ℕ) (s : State M)
      → M.get_file s.files fd ≢ none
      → let s' = (fcntl fd f_setfd arg s).1 in
        (fcntl fd f_getfd other_arg s' ≡ (done 1, s'))
        × ((j : ℕ)
            → flags_of j s'.flags
              ≡ (if fd == j then bit_or (flags_of fd s.flags) o_cloexec else flags_of j s.flags))
  setfd-getfd fd arg other_arg s found =
      let v : ℕ = bit_or (flags_of fd s.flags) o_cloexec in
      rw (fcntl-setfd fd arg s found) (
        (reads-inserted fd v s found).2 other_arg ∙ rw (cloexec_found (flags_of fd s.flags)) refl,
        λ j. flags_of-insert fd j v s.flags,
      )

  install-ReadsAs :
      IsFileTable M
      → (file : M.File) (flags : ℕ) (s : State M)
      → (fd : ℕ) × ((install file flags s).0 ≡ done (to_32 fd))
        × ReadsAs fd flags (install file flags s).1
  unfolding install ◌>>=◌
  install-ReadsAs law file flags s =
      let made = M.create_fd s.files file in
      let found : M.get_file made.1 made.0 ≢ none =
        λ e. ground (arith, law.get-create s.files file made.0) in
      (made.0, refl, reads-inserted made.0 flags (record s { files = made.1 }) found)

  opened-ReadsAs :
      IsFileTable M
      → (r : Opened M.File) (flags fd : ℕ) (s : State M)
      → ((or_open_error r >>= λ file. install file flags) s).0 ≡ done fd
      → (d : ℕ) × (fd ≡ to_32 d)
        × ReadsAs d flags ((or_open_error r >>= λ file. install file flags) s).1
  unfolding or_open_error ◌>>=◌
  opened-ReadsAs law (opened file) flags fd s e =
      let (d, made, reads) = install-ReadsAs law file flags s in (d, cc, reads)
  opened-ReadsAs law exists flags fd s e = cc
  opened-ReadsAs law Opened.failed flags fd s e = cc

  open_path-opened :
      (filename flags mode : ℕ) (s : State M) (path : List ℕ)
      → M.read_string s.memory filename ≡ some path
      → let r = M.open_file s.host path (to_file_flag M.file_flags flags) mode in
        open_path filename flags mode s
        ≡ (or_open_error r.0 >>= λ file. install file flags) (record s { host = r.1 })
  unfolding open_path ◌>>=◌
  open_path-opened filename flags mode s path read = ground arith

  open_path-unread :
      (filename flags mode : ℕ) (s : State M)
      → M.read_string s.memory filename ≡ none
      → (open_path filename flags mode s).0 ≡ failed
  unfolding open_path ◌>>=◌
  open_path-unread filename flags mode s unread = ground arith

  -- A successful `open` returns, as an `int32`, a descriptor that is open and whose flags read as
  -- those that were given to it, with F_GETFD giving their close-on-exec bit.
  pub open-ReadsAs :
      IsFileTable M
      → (filename flags mode fd : ℕ) (s : State M) → (open_path filename flags mode s).0 ≡ done fd
      → (d : ℕ) × (fd ≡ to_32 d) × ReadsAs d flags (open_path filename flags mode s).1
  open-ReadsAs law filename flags mode fd s e =
      elim (Option-cases (M.read_string s.memory filename)) [
        | inl unread ↦ cc (open_path-unread filename flags mode s unread)
        | inr (path, read) ↦
            let r = M.open_file s.host path (to_file_flag M.file_flags flags) mode in
            let same = open_path-opened filename flags mode s path read in
            rw same (opened-ReadsAs law r.0 flags fd (record s { host = r.1 }) (rw same at e))
      ]

  fcntl-unopened :
      (fd cmd arg : ℕ) (s : State M)
      → M.get_file s.files fd ≡ none
      → fcntl fd cmd arg s ≡ (failed, record s { errno = code ebadf })
  unfolding fcntl ◌>>=◌
  fcntl-unopened fd cmd arg s gone = ground arith

  close-flags :
      (fd : ℕ) (s : State M) → (close fd s).0 ≡ done 0 → lookup fd (close fd s).1.flags ≡ none
  unfolding close ◌>>=◌
  close-flags fd s e = ground (arith, lookup-erase fd fd s.flags)

  close-files :
      IsFileTable M
      → (fd : ℕ) (s : State M) → (close fd s).0 ≡ done 0
      → M.get_file (close fd s).1.files fd ≡ none
  unfolding close ◌>>=◌
  close-files law fd s e = ground (arith, law.get-close s.files fd fd)

  -- A descriptor that `close` has closed has no flags and is not open: every `fcntl` on it fails
  -- with EBADF and changes nothing else.
  close-fcntl :
      IsFileTable M
      → (fd cmd arg : ℕ) (s : State M) → (close fd s).0 ≡ done 0
      → let s' = (close fd s).1 in
        (lookup fd s'.flags ≡ none)
        × (M.get_file s'.files fd ≡ none)
        × (fcntl fd cmd arg s' ≡ (failed, record s' { errno = code ebadf }))
  close-fcntl law fd cmd arg s e =
      let gone = close-files law fd s e in
      (close-flags fd s e, gone, fcntl-unopened fd cmd arg (close fd s).1 gone)
