-- ===== src/Sched.antt =====
-- kernel/sched.go: `clone`. The goroutine that waits for the end of a task is the action `reap`.
pub mod Cloned
pub mod Live
use microdbg_linux.Base.{ℕ, Bool, true, false, Option, none, some, List, [], ◌∷◌, ◌==◌}
use microdbg_linux.Base.{if◌then◌else◌}
use microdbg_linux.Base.Word.{to_32, has_bits, bytes_of_32}
use microdbg_linux.Base.Assoc.{insert, erase}
use microdbg_linux.Machine.{Machine, Arch, Reg, Kind}
use microdbg_linux.Errno.{eagain}
use microdbg_linux.Exec.{Exec, pure, fail, stall, or_fail, gets, on_memory, on_cpu, set_tasks}
use microdbg_linux.Exec.{◌>>=◌, ◌>>◌}

abbrev pub clone_vfork : ℕ
clone_vfork = 0x4000

abbrev pub clone_settls : ℕ
clone_settls = 0x80000

-- `struct{ fn, arg uintptr }`; an error of `MemExtract` leaves it zero.
abbrev pub entry_of : Option (List ℕ) → ℕ × ℕ
entry_of (some (fn ∷ arg ∷ [])) = (fn, arg)
entry_of _ = (0, 0)

-- The register of the thread pointer.
abbrev pub tls_reg : Arch → Option Reg
tls_reg Arch.arm = some Reg.arm_c13_c0_3
tls_reg Arch.arm64 = some Reg.arm64_tpidr_el0
tls_reg Arch.x86 = some Reg.x86_gs
tls_reg Arch.x86_64 = some Reg.x86_fs
tls_reg Arch.other_arch = none

module _ {M : Machine} where
  abbrev pub effect : (M.Cpu → M.Cpu) → Exec M (Unit {0})
  effect f = on_cpu (λ cpu. (tt, f cpu))

  -- `task.Close()`, EAGAIN.
  unfoldable pub abandon : {A : Type 0} → M.Task → Exec M A
  abandon task = do effect (λ cpu. M.task_close cpu task); fail eagain

  unfoldable pub or_abandon : M.Task → Bool → Exec M (Unit {0})
  unfolding abandon
  or_abandon task true = pure tt
  or_abandon task false = abandon task

  -- The child goes on where the parent is, or starts at the function on its new stack.
  unfoldable pub start_at : M.Task → ℕ → Exec M (Unit {0})
  unfolding or_abandon
  start_at task child_stack = if child_stack == 0 then effect (λ cpu. M.ret_write cpu task) else do
    effect (λ cpu. M.sp_write cpu task child_stack)
    (fn, arg) ←
        gets (λ s. entry_of (M.extract s.memory child_stack (Kind.uintptr ∷ Kind.uintptr ∷ [])))
    ok ← on_cpu (λ cpu. M.call_task_of cpu task fn)
    or_abandon task ok
    effect (λ cpu. M.arg_write cpu task arg)

  unfoldable pub write_tls : M.Task → ℕ → Option Reg → Exec M (Unit {0})
  write_tls task tls none = pure tt
  write_tls task tls (some reg) = effect (λ cpu. M.task_reg_write cpu task reg tls)

  unfoldable pub set_tls : M.Task → ℕ → ℕ → Exec M (Unit {0})
  unfolding write_tls
  set_tls task flags tls =
      if has_bits flags clone_settls then write_tls task tls (tls_reg M.arch) else pure tt

  -- The end of a vfork: the parent waits.
  unfoldable pub await_task : M.Task → Exec M (Unit {0})
  await_task task = do
    ended ← on_cpu (λ cpu. M.task_wait cpu task)
    if ended then effect (λ cpu. M.task_close cpu task) else stall

  unfoldable pub put_tid : ℕ → ℕ → Exec M (Unit {0})
  put_tid child_tid pid =
      if child_tid == 0
      then pure tt
      else on_memory (λ memory. (tt, (M.write_ptr memory child_tid (bytes_of_32 pid)).1))

  -- The part of `clone` that has the new task.
  unfoldable pub run_child : ℕ → ℕ → ℕ → ℕ → M.Task → Exec M ℕ
  unfolding start_at set_tls await_task put_tid
  run_child flags child_stack tls child_tid task = do
    start_at task child_stack
    set_tls task flags tls
    ok ← on_cpu (λ cpu. M.task_run cpu task)
    or_abandon task ok
    let pid = to_32 (M.task_number task)
    put_tid child_tid pid
    if has_bits flags clone_vfork then await_task task else set_tasks (insert pid task)
    pure pid

  unfoldable pub clone : ℕ → ℕ → ℕ → ℕ → ℕ → Exec M ℕ
  unfolding run_child
  clone flags child_stack parent_tid tls child_tid = do
    forked ← on_cpu M.task_fork
    task ← or_fail eagain forked
    run_child flags child_stack tls child_tid task

  -- The goroutine behind a clone that does not wait.
  unfoldable pub reap : ℕ → M.Task → Exec M (Unit {0})
  reap pid task = do
    ended ← on_cpu (λ cpu. M.task_wait cpu task)
    if ended then pure tt else stall
    set_tasks (erase pid)
    effect (λ cpu. M.task_close cpu task)
