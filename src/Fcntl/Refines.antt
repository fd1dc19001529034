-- ===== src/Fcntl/Refines.antt =====
-- The calls of kernel/fcntl.go and kernel/socket.go that make, copy or take away descriptors do to
-- the view what they promise.
use microdbg_linux.Base.{ℕ, ◌≡◌, ◌≢◌, inl, inr, refl, none, some, List, []}
use microdbg_linux.Base.{
  ◌∷◌, ◌∙◌, ==-self, ==-ne, eq_of_==, ap, sym, ◌==◌, bit_and, Bool-cases, Option-cases,
}
use mathlib.Core.Path.{fun_ext}
use microdbg_linux.Base.Word.{extend}
use microdbg_linux.Base.Assoc.{insert}
use microdbg_linux.Machine.{Machine, Opened, opened, exists, failed}
use microdbg_linux.Errno.{code, ebadf}
use microdbg_linux.Exec.{State, on_host, ◌>>=◌}
use microdbg_linux.Fcntl.Paths.{at_fdcwd, or_open_error, install, open_path, openat, to_file_flag}
use microdbg_linux.Services.Socket.{af_unspec, socket, network_of}
use microdbg_linux.Fcntl.Table.{flags_of, dup3, close, pipe2}
use microdbg_linux.Fcntl.Tracked.{IsFileTable}
use microdbg_linux.Fcntl.View.{
  view, Edit, put, drop, edits, answer, Allocates, Opens, Copies, Drops, Pairs, Sockets,
}
use microdbg_linux.Fcntl.Edits.{
  IsAllocator, Refines, put-view, bare-view, unflagged, keep-view, drop-view,
}

module _ {M : Machine} (law : IsFileTable M) (fresh : IsAllocator M) where
  install-Allocates :
      (file : M.File) (flags : ℕ) (s : State M)
      → (es : List (Edit M.File)) × Allocates file flags
          (view s)
          es
          (answer (install file flags s).0)
        × ((j : ℕ) → view (install file flags s).1 j ≡ edits es (view s) j)
  unfolding install ◌>>=◌
  install-Allocates file flags s =
      let made = M.create_fd s.files file in
      (
        put made.0 file flags ∷ [],
        (made.0, rw (fresh.create-unused s.files file) refl, refl, refl),
        put-view s made.1 s.host made.0 flags file (law.get-create s.files file),
      )

  opened-Opens :
      (r : Opened M.File) (flags : ℕ) (s : State M)
      → (es : List (Edit M.File)) × Opens flags
          (view s)
          es
          (answer ((or_open_error r >>= λ file. install file flags) s).0)
        × ((j : ℕ)
            → view ((or_open_error r >>= λ file. install file flags) s).1 j ≡ edits es (view s) j)
  unfolding or_open_error ◌>>=◌
  opened-Opens (opened file) flags s =
      let (es, made, after) = install-Allocates file flags s in (es, inr (file, made), after)
  opened-Opens exists flags s = ([], inl (refl, refl), λ j. refl)
  opened-Opens failed flags s = ([], inl (refl, refl), λ j. refl)

  pub dup3-Copies :
      (oldfd newfd flags : ℕ) → Refines M (Copies oldfd newfd flags) (dup3 oldfd newfd flags)
  unfolding dup3 ◌>>=◌
  dup3-Copies oldfd newfd flags = record {
    at = λ s h.
        let x = M.dup2_file s.files s.host oldfd newfd in
        elim (Bool-cases x.0) [
          | inl ok ↦ elim (Option-cases (M.get_file s.files oldfd)) [
            | inl gone ↦ absurd (law.dup2-open s.files s.host oldfd newfd ok gone)
            | inr (file, there) ↦ (
              put newfd file flags ∷ [],
              rw (ok, there) (inr (file, flags_of oldfd s.flags, refl, refl, refl)),
              rw ok (
                  put-view s x.1 x.2 newfd flags file
                    (λ j. law.get-dup2 s.files s.host oldfd newfd j ∙ rw (ok, there) refl)),
            )
          ]
          | inr unmade ↦ (
            [],
            rw unmade (inl (refl, refl)),
            rw unmade (
                keep-view s x.1 x.2 (code ebadf)
                  (λ j. law.get-dup2 s.files s.host oldfd newfd j ∙ rw unmade refl)),
          )
        ];
  }

  pub close-Drops : (fd : ℕ) → Refines M (Drops fd) (close fd)
  unfolding close ◌>>=◌
  close-Drops fd = record {
    at = λ s h.
        let x = M.close_fd s.files fd in
        elim (Option-cases x.0) [
          | inl none_there ↦ (
            [],
            rw none_there (inl (refl, refl)),
            rw none_there (
                keep-view s x.1 s.host (code ebadf)
                  (λ j. law.get-close s.files fd j ∙ rw none_there refl)),
          )
          | inr (file, there) ↦ (
            drop fd ∷ [],
            rw there (inr (refl, refl)),
            rw there (
                drop-view s x.1 (M.file_close s.host file) fd
                  (λ j. law.get-close s.files fd j ∙ rw there refl)),
          )
        ];
  }

  pub open_path-Opens :
      (filename flags mode : ℕ) → Refines M (Opens flags) (open_path filename flags mode)
  unfolding open_path ◌>>=◌
  open_path-Opens filename flags mode = record {
    at = λ s h. elim (Option-cases (M.read_string s.memory filename)) [
      | inl unread ↦ ([], rw unread (inl (refl, refl)), λ j. rw unread refl)
      | inr (path, read) ↦
          let r = M.open_file s.host path (to_file_flag M.file_flags flags) mode in
          rw read (opened-Opens r.0 flags (record s { host = r.1 }))
    ];
  }

  openat_in-Opens :
      (path : List ℕ) (dir : M.Fs) (flags mode : ℕ) (s : State M)
      → let m =
          on_host (λ host. M.fs_open_file host dir path (to_file_flag M.file_flags flags) mode)
          >>= λ result. or_open_error result >>= λ file. install file flags in
        (es : List (Edit M.File)) × Opens flags (view s) es (answer (m s).0)
        × ((j : ℕ) → view (m s).1 j ≡ edits es (view s) j)
  unfolding on_host ◌>>=◌
  openat_in-Opens path dir flags mode s =
      let r = M.fs_open_file s.host dir path (to_file_flag M.file_flags flags) mode in
      opened-Opens r.0 flags (record s { host = r.1 })

  pub openat-Opens :
      (dfd filename flags mode : ℕ) → Refines M (Opens flags) (openat dfd filename flags mode)
  unfolding openat ◌>>=◌
  openat-Opens dfd filename flags mode = record {
    at = λ s h. elim (Option-cases (M.read_string s.memory filename)) [
      | inl unread ↦ ([], rw unread (inl (refl, refl)), λ j. rw unread refl)
      | inr (path, read) ↦ elim (Bool-cases (dfd == at_fdcwd)) [
        | inl here ↦ rw (read, here) (openat_in-Opens path (M.get_fs s.host) flags mode s)
        | inr there ↦ elim (Option-cases (M.get_file s.files (extend dfd))) [
          | inl closed ↦
              ([], rw (read, there, closed) (inl (refl, refl)), λ j. rw (read, there, closed) refl)
          | inr (file, found) ↦ elim (Option-cases (M.as_fs file)) [
            | inl plain ↦ (
              [],
              rw (read, there, found, plain) (inl (refl, refl)),
              λ j. rw (read, there, found, plain) refl,
            )
            | inr (dir, cast) ↦
                rw (read, there, found, cast) (openat_in-Opens path dir flags mode s)
          ]
        ]
      ]
    ];
  }

  pub pipe2-Pairs : (fildes flags : ℕ) → Refines M (Pairs flags) (pipe2 fildes flags)
  unfolding pipe2 ◌>>=◌
  pipe2-Pairs fildes flags = record {
    at = λ s h. elim (Option-cases (M.pipe s.host).0) [
      | inl unmade ↦ ([], rw unmade (inl (refl, refl)), λ j. rw unmade refl)
      | inr ((f, g), made) ↦
          let one = M.create_fd s.files f in
          let two = M.create_fd one.1 g in
          let x : State M = record s { files = one.1; flags = insert one.0 flags s.flags } in
          let there : M.get_file one.1 one.0 ≡ some f =
            law.get-create s.files f one.0 ∙ rw (==-self one.0) refl in
          let other : one.0 ≢ two.0 = λ same. cc (there, fresh.create-unused one.1 g, same) in
          let before : M.get_file s.files two.0 ≡ none =
            sym (law.get-create s.files f two.0 ∙ rw (==-ne one.0 two.0 other) refl)
            ∙ fresh.create-unused one.1 g in
          (
            put one.0 f flags ∷ put two.0 g flags ∷ [],
            rw made (
                inr (
                  one.0,
                  two.0,
                  f,
                  g,
                  other,
                  rw (fresh.create-unused s.files f) refl,
                  rw before refl,
                  refl,
                  refl,
                )),
            λ j. rw made (
                put-view x two.1 x.host two.0 flags g (law.get-create one.1 g) j
                ∙ ap (λ v. edits (put two.0 g flags ∷ []) v j)
                    (fun_ext (put-view s one.1 s.host one.0 flags f (law.get-create s.files f)))),
          )
    ];
  }

  pub socket-Opens :
      (domain typ protocol : ℕ) → Refines M (Sockets domain) (socket domain typ protocol)
  unfolding socket ◌>>=◌
  socket-Opens domain typ protocol = record {
    at = λ s h. elim (Bool-cases (domain == af_unspec)) [
      | inl unspec ↦ ([], rw unspec (inl (eq_of_== _ _ unspec, refl, refl)), λ j. rw unspec refl)
      | inr family ↦ elim (Option-cases (network_of domain (bit_and typ 0x7ffff))) [
        | inl other ↦
            ([], rw (family, other) (inr (inl (refl, refl))), λ j. rw (family, other) refl)
        | inr (network, known) ↦ elim (Option-cases (M.new_socket s.host network).0) [
          | inl unmade ↦ (
            [],
            rw (family, known, unmade) (inr (inl (refl, refl))),
            λ j. rw (family, known, unmade) refl,
          )
          | inr (file, made) ↦
              let x = M.create_fd s.files file in
              let unused = fresh.create-unused s.files file in
              (
                put x.0 file 0 ∷ [],
                rw (family, known, made) (inr (inr (file, (x.0, rw unused refl, refl, refl)))),
                λ j.
                    rw (family, known, made)
                      (bare-view s x.1 (M.new_socket s.host network).1 x.0 file
                        (law.get-create s.files file) (unflagged x.0 s h unused) j),
              )
        ]
      ]
    ];
  }
