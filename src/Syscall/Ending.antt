-- ===== src/Syscall/Ending.antt =====
-- Which handlers come back: those that cannot wait obey a discipline in which no call is without
-- its end, and so do those that copy, when each read that reports no end gives a byte or more.
use microdbg_linux.Base.{ℕ, ◌<◌}
use microdbg_linux.Base.Assoc.{Assoc}
use microdbg_linux.Machine.{Machine}
use microdbg_linux.Exec.{
  State, Outcome, done, panicked, stalled, Exec, on_files, on_files_host, on_host, set_flags,
}
use microdbg_linux.Exec.{◌>>=◌}
use microdbg_linux.Syscall.Discipline.{Discipline, Obeys, IsNoFailure}
use microdbg_linux.Io.{Moved, moved, error, endless}
use microdbg_linux.Io.Ends.{Advances, IsMoved}
use microdbg_linux.Fcntl.Transfer.{Sides, on_sides}

-- `io.Reader` of files, of the random source and of the memory.
pub record IsProgressing (M : Machine) : Type 0 where
  pub file_reads :
      (host : M.Host) (file : M.File) (n : ℕ) → 0 < n → Advances (M.read_file host file n).0
  pub random_reads : (host : M.Host) (n : ℕ) → 0 < n → Advances (M.random_read host n).0
  pub memory_reads : (memory : M.Memory) (addr n : ℕ) → 0 < n → Advances (M.read_at memory addr n)

abbrev pub IsEnd : {A : Type 0} → Outcome A → Type 0
IsEnd stalled = ⊥
IsEnd _ = Unit

pub silent-IsEnd : {A : Type 0} (o : Outcome A) → IsNoFailure ⊥ o → IsEnd o
silent-IsEnd (done a) h = tt
silent-IsEnd Outcome.failed h = absurd h
silent-IsEnd panicked h = tt
silent-IsEnd stalled h = h

module _ {M : Machine} where
  abbrev pub ending : Discipline M
  ending = record {
    MayStall = ⊥;
    Holds = λ s o x. IsEnd o;
    silent = λ s x o same good. silent-IsEnd o good;
    fails = λ s e. tt;
    chain = λ s x y a o f g. g;
    failure = λ s x f. f;
    panics = λ s x f. f;
    stalls = λ s x f. absurd f;
    later = λ s x y o f same. f;
  }

  module _ {A : Type 0} where
    pub on_files-Obeys : (f : M.Files → A × M.Files) → Obeys ending (on_files f)
    unfolding on_files
    on_files-Obeys f = record { at = λ s. tt }

    pub on_files_host-Obeys :
        (f : M.Files → M.Host → A × M.Files × M.Host) → Obeys ending (on_files_host f)
    unfolding on_files_host
    on_files_host-Obeys f = record { at = λ s. tt }

    or_moved_case-IsEnd :
        (k : Moved → Exec M A) (r : Moved) (s : State M)
        → IsMoved r
        → ((n : ℕ) → Obeys ending (k (moved n)))
        → Obeys ending (k error)
        → IsEnd (k r s).0
    or_moved_case-IsEnd k (moved n) s h hm he = (hm n).at s
    or_moved_case-IsEnd k error s h hm he = he.at s
    or_moved_case-IsEnd k endless s h hm he = absurd h

    -- A copy that ends, and what follows a copy that ended.
    pub copied-Obeys :
        (f : Sides M → Moved × Sides M) (k : Moved → Exec M A)
        → ((x : Sides M) → IsMoved (f x).0)
        → ((n : ℕ) → Obeys ending (k (moved n)))
        → Obeys ending (k error)
        → Obeys ending (on_sides f >>= k)
    unfolding ◌>>=◌
    copied-Obeys f k ends hm he = record {
      at = λ s. or_moved_case-IsEnd k (f (s.host, s.memory)).0 _ (ends (s.host, s.memory)) hm he;
    }

    pub host_copied-Obeys :
        (f : M.Host → Moved × M.Host) (k : Moved → Exec M A)
        → ((host : M.Host) → IsMoved (f host).0)
        → ((n : ℕ) → Obeys ending (k (moved n)))
        → Obeys ending (k error)
        → Obeys ending (on_host f >>= k)
    unfolding ◌>>=◌
    host_copied-Obeys f k ends hm he = record {
      at = λ s. or_moved_case-IsEnd k (f s.host).0 _ (ends s.host) hm he;
    }

  pub set_flags-Obeys : (f : Assoc ℕ → Assoc ℕ) → Obeys ending (set_flags {M = M} f)
  unfolding set_flags
  set_flags-Obeys f = record { at = λ s. tt }
