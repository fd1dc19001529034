-- ===== src/Services/Process.antt =====
-- kernel/prctl.go and kernel/resource.go, and `execve` of kernel/sched.go
use microdbg_linux.Base.{ℕ, List, [], ◌∷◌, ◌==◌, if◌then◌else◌}
use microdbg_linux.Base.Word.{to_32}
use microdbg_linux.Machine.{Machine, Kind}
use microdbg_linux.Errno.{einval, enosys}
use microdbg_linux.Exec.{Exec, pure, fail, gets, on_memory, ◌>>◌}

abbrev pub pr_set_vma : ℕ
pr_set_vma = 0x53564d41

abbrev pub rlimit_stack : ℕ
rlimit_stack = 3

-- The struct `rlimit`.
abbrev pub rlimit_fields : ℕ → ℕ → List (Kind × ℕ)
rlimit_fields cur max = (Kind.int, cur) ∷ (Kind.int, max) ∷ []

module _ {M : Machine} where
  unfoldable pub prctl : ℕ → ℕ → ℕ → ℕ → ℕ → Exec M ℕ
  prctl option arg1 arg2 arg3 arg4 = if option == pr_set_vma then pure 0 else fail einval

  unfoldable pub getpid : Exec M ℕ
  getpid = pure (to_32 M.pid)

  unfoldable pub gettid : Exec M ℕ
  gettid = gets (λ s. to_32 (M.task_id s.cpu))

  unfoldable pub getrlimit : ℕ → ℕ → Exec M ℕ
  getrlimit resource rlim =
      if resource == rlimit_stack
      then (do
        on_memory (λ memory. M.write memory rlim (rlimit_fields M.stack_size M.stack_size))
        pure 0)
      else pure 0

  unfoldable pub setrlimit : ℕ → ℕ → Exec M ℕ
  setrlimit resource rlim = pure 0

  unfoldable pub execve : ℕ → ℕ → ℕ → Exec M ℕ
  execve filename argv envp = fail enosys
