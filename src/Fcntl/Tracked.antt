-- ===== src/Fcntl/Tracked.antt =====
-- The map `flags` of kernel/fcntl.go and the debugger's descriptor table: every descriptor with
-- flags is open. What is assumed of the table is its documented behaviour.
use microdbg_linux.Base.{ℕ, ◌≡◌, ◌≢◌, true, none, some, arith, ◌==◌, inl, inr, Option-cases}
use microdbg_linux.Base.{if◌then◌else◌}
use microdbg_linux.Base.{bit_or, bit_and, List}
use microdbg_linux.Base.Word.{to_32, extend}
use microdbg_linux.Base.Assoc.{lookup, insert, lookup-insert, lookup-erase}
use microdbg_linux.Machine.{Machine, Opened, opened, exists, failed}
use microdbg_linux.Exec.{State, on_host, ◌>>=◌}
use microdbg_linux.Fcntl.Paths.{or_open_error, install, open_path, openat, to_file_flag}
use microdbg_linux.Services.Socket.{socket, network_of}
use microdbg_linux.Fcntl.Table.{flags_of, or_zero, o_cloexec, dup3, fcntl, close, pipe2}

-- A descriptor table: creating, duplicating and closing a descriptor change that descriptor only,
-- and an operation that fails changes none.
pub record IsFileTable (M : Machine) : Type 0 where
  pub get-create :
      (t : M.Files) (f : M.File) (j : ℕ)
      → M.get_file (M.create_fd t f).1 j
        ≡ (if (M.create_fd t f).0 == j then some f else M.get_file t j)
  pub get-dup :
      (t : M.Files) (fd j : ℕ)
      → M.get_file (M.dup_file t fd).1 j ≡ elim (M.dup_file t fd).0 [
        | none ↦ M.get_file t j
        | some n ↦ if n == j then M.get_file t fd else M.get_file t j
      ]
  pub get-dup2 :
      (t : M.Files) (h : M.Host) (old new j : ℕ)
      → M.get_file (M.dup2_file t h old new).1 j ≡ (
          if (M.dup2_file t h old new).0
          then (if new == j then M.get_file t old else M.get_file t j)
          else M.get_file t j)
  pub dup2-open :
      (t : M.Files) (h : M.Host) (old new : ℕ)
      → (M.dup2_file t h old new).0 ≡ true
      → M.get_file t old ≢ none
  pub get-close :
      (t : M.Files) (fd j : ℕ)
      → M.get_file (M.close_fd t fd).1 j ≡ elim (M.close_fd t fd).0 [
        | none ↦ M.get_file t j
        | some f ↦ if fd == j then none else M.get_file t j
      ]

pub record IsTracked {M : Machine} (s : State M) : Type 0 where
  pub at : (fd : ℕ) → lookup fd s.flags ≢ none → M.get_file s.files fd ≢ none

module _ {M : Machine} (law : IsFileTable M) where
  pub dup3-IsTracked :
      (oldfd newfd flags : ℕ) (s : State M) → IsTracked s → IsTracked (dup3 oldfd newfd flags s).1
  unfolding dup3 ◌>>=◌
  dup3-IsTracked oldfd newfd flags s h = record {
    at = λ j p e. ground (
      arith,
      law.get-dup2 s.files s.host oldfd newfd j,
      law.dup2-open s.files s.host oldfd newfd,
      lookup-insert newfd j flags s.flags,
      h.at j,
    );
  }

  pub close-IsTracked : (fd : ℕ) (s : State M) → IsTracked s → IsTracked (close fd s).1
  unfolding close ◌>>=◌
  close-IsTracked fd s h = record {
    at = λ j p e. ground (arith, law.get-close s.files fd j, lookup-erase fd j s.flags, h.at j);
  }

  pub fcntl-IsTracked :
      (fd cmd arg : ℕ) (s : State M) → IsTracked s → IsTracked (fcntl fd cmd arg s).1
  unfolding fcntl ◌>>=◌
  fcntl-IsTracked fd cmd arg s h = record {
    at = λ j p e. ground (
      arith,
      law.get-dup s.files fd j,
      lookup-insert (or_zero (M.dup_file s.files fd).0) j (flags_of fd s.flags) s.flags,
      lookup-insert fd j (bit_or (flags_of fd s.flags) o_cloexec) s.flags,
      lookup-insert fd j (to_32 arg) s.flags,
      h.at j,
    );
  }

  pub pipe2-IsTracked :
      (fildes flags : ℕ) (s : State M) → IsTracked s → IsTracked (pipe2 fildes flags s).1
  unfolding pipe2 ◌>>=◌
  pipe2-IsTracked fildes flags s h = record {
    at = λ j p e. elim (Option-cases (M.pipe s.host).0) [
      | inl unmade ↦ ground (arith, h.at j)
      | inr ((r, w), made) ↦
          let one = M.create_fd s.files r in
          let two = M.create_fd one.1 w in
          ground (
            arith,
            law.get-create s.files r j,
            law.get-create one.1 w j,
            lookup-insert one.0 j flags s.flags,
            lookup-insert two.0 j flags (insert one.0 flags s.flags),
            h.at j,
          )
    ];
  }

  install-IsTracked :
      (file : M.File) (flags : ℕ) (s : State M) → IsTracked s → IsTracked (install file flags s).1
  unfolding install ◌>>=◌
  install-IsTracked file flags s h = record {
    at = λ j p e. ground (
      arith,
      law.get-create s.files file j,
      lookup-insert (M.create_fd s.files file).0 j flags s.flags,
      h.at j,
    );
  }

  opened-IsTracked :
      (r : Opened M.File) (flags : ℕ) (s : State M)
      → IsTracked s
      → IsTracked ((or_open_error r >>= λ file. install file flags) s).1
  unfolding or_open_error ◌>>=◌
  opened-IsTracked (opened file) flags s h = install-IsTracked file flags s h
  opened-IsTracked exists flags s h = record { at = h.at }
  opened-IsTracked failed flags s h = record { at = h.at }

  pub open_path-IsTracked :
      (filename flags mode : ℕ) (s : State M)
      → IsTracked s
      → IsTracked (open_path filename flags mode s).1
  unfolding open_path ◌>>=◌
  open_path-IsTracked filename flags mode s h = record {
    at = λ j p e. elim (Option-cases (M.read_string s.memory filename)) [
      | inl missing ↦ ground (arith, h.at j)
      | inr (path, read) ↦
          let r = M.open_file s.host path (to_file_flag M.file_flags flags) mode in
          let after : IsTracked (record s { host = r.1 }) = record { at = h.at } in
          ground (arith, (opened-IsTracked r.0 flags (record s { host = r.1 }) after).at j)
    ];
  }

  openat_in-IsTracked :
      (path : List ℕ) (dir : M.Fs) (flags mode : ℕ) (s : State M)
      → IsTracked s
      → IsTracked
          ((on_host (λ host. M.fs_open_file host dir path (to_file_flag M.file_flags flags) mode)
              >>= λ result. or_open_error result >>= λ file. install file flags)
            s).1
  unfolding on_host ◌>>=◌
  openat_in-IsTracked path dir flags mode s h =
      let r = M.fs_open_file s.host dir path (to_file_flag M.file_flags flags) mode in
      opened-IsTracked r.0 flags (record s { host = r.1 }) (record { at = h.at })

  pub openat-IsTracked :
      (dfd filename flags mode : ℕ) (s : State M)
      → IsTracked s
      → IsTracked (openat dfd filename flags mode s).1
  unfolding openat ◌>>=◌
  openat-IsTracked dfd filename flags mode s h = record {
    at = λ j p e. elim (Option-cases (M.read_string s.memory filename)) [
      | inl missing ↦ ground (arith, h.at j)
      | inr (path, read) ↦ elim (Option-cases (M.get_file s.files (extend dfd))) [
        | inl closed ↦
            ground (arith, h.at j, (openat_in-IsTracked path (M.get_fs s.host) flags mode s h).at j)
        | inr (file, found) ↦ elim (Option-cases (M.as_fs file)) [
          | inl plain ↦
              ground
                (arith, h.at j, (openat_in-IsTracked path (M.get_fs s.host) flags mode s h).at j)
          | inr (dir, cast) ↦ ground (
            arith,
            (openat_in-IsTracked path (M.get_fs s.host) flags mode s h).at j,
            (openat_in-IsTracked path dir flags mode s h).at j,
          )
        ]
      ]
    ];
  }

module _ {M : Machine} (law : IsFileTable M) where
  pub socket-IsTracked :
      (domain typ protocol : ℕ) (s : State M)
      → IsTracked s
      → IsTracked (socket domain typ protocol s).1
  unfolding socket ◌>>=◌
  socket-IsTracked domain typ protocol s h = record {
    at = λ j p e. elim (Option-cases (network_of domain (bit_and typ 0x7ffff))) [
      | inl other ↦ ground (arith, h.at j)
      | inr (network, known) ↦ elim (Option-cases (M.new_socket s.host network).0) [
        | inl unmade ↦ ground (arith, h.at j)
        | inr (file, made) ↦ ground (arith, law.get-create s.files file j, h.at j)
      ]
    ];
  }
