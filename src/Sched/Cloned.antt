-- ===== src/Sched/Cloned.antt =====
-- What `clone` of kernel/sched.go leaves, on every branch.
use microdbg_linux.Base.{
  ℕ, ◌≡◌, refl, ◌∙◌, Bool, true, false, Option, none, some, ◌⊎◌, inl, inr, if◌then◌else◌,
  Bool-cases, arith,
}
use microdbg_linux.Base.Word.{to_32, has_bits}
use microdbg_linux.Base.Assoc.{insert}
use microdbg_linux.Machine.{Machine, Reg}
use microdbg_linux.Errno.{eagain, code}
use microdbg_linux.Exec.{State, Outcome, done, failed, panicked, stalled, Exec, continue}
use microdbg_linux.Exec.{pure, gets, on_cpu, on_memory, set_tasks, ◌>>=◌, ◌>>◌}
use microdbg_linux.Sched.{
  abandon, or_abandon, start_at, write_tls, set_tls, await_task, put_tid, run_child, clone,
  clone_vfork,
}

module _ {M : Machine} (task : M.Task) where
  -- A part of `clone` that has the new task: the map of tasks is as before, and a failure is EAGAIN
  -- with the task closed as the last thing.
  abbrev pub Prepared : {A : Type 0} → State M → Outcome A → State M → Type 0
  Prepared s (done a) x = x.tasks ≡ s.tasks
  Prepared s failed x =
      (x.tasks ≡ s.tasks)
      × (x.errno ≡ code eagain)
      × ((cpu : M.Cpu) × (x.cpu ≡ M.task_close cpu task))
  Prepared s panicked x = ⊥
  Prepared s stalled x = ⊥

  pub record Prepares {A : Type 0} (m : Exec M A) : Type 0 where
    pub at : (s : State M) → Prepared s (m s).0 (m s).1

  Prepared-trans :
      {A : Type 0} (s x y : State M) (o : Outcome A)
      → x.tasks ≡ s.tasks
      → Prepared x o y
      → Prepared s o y
  Prepared-trans s x y (done a) e h = h ∙ e
  Prepared-trans s x y failed e (same, errno, closed) = (same ∙ e, errno, closed)
  Prepared-trans s x y panicked e h = h
  Prepared-trans s x y stalled e h = h

  continue-Prepared :
      {A B : Type 0} (f : A → Exec M B)
      → ((a : A) → Prepares (f a))
      → (s x : State M) (o : Outcome A) → Prepared s o x
      → Prepared s (continue o f x).0 (continue o f x).1
  continue-Prepared f hf s x (done a) h = Prepared-trans s x _ _ h ((hf a).at x)
  continue-Prepared f hf s x failed h = h
  continue-Prepared f hf s x panicked h = h
  continue-Prepared f hf s x stalled h = h

  Prepares-bind :
      {A B : Type 0} (m : Exec M A) (f : A → Exec M B)
      → Prepares m
      → ((a : A) → Prepares (f a))
      → Prepares (m >>= f)
  unfolding ◌>>=◌
  Prepares-bind m f hm hf = record { at = λ s. continue-Prepared f hf s (m s).1 (m s).0 (hm.at s) }

  Prepares-pure : {A : Type 0} (a : A) → Prepares (pure {M = M} a)
  unfolding pure
  Prepares-pure a = record { at = λ s. refl }

  Prepares-gets : {A : Type 0} (f : State M → A) → Prepares (gets f)
  unfolding gets
  Prepares-gets f = record { at = λ s. refl }

  Prepares-on_cpu : {A : Type 0} (f : M.Cpu → A × M.Cpu) → Prepares (on_cpu {M = M} f)
  unfolding on_cpu
  Prepares-on_cpu f = record { at = λ s. refl }

  Prepares-on_memory : {A : Type 0} (f : M.Memory → A × M.Memory) → Prepares (on_memory {M = M} f)
  unfolding on_memory
  Prepares-on_memory f = record { at = λ s. refl }

  Prepares-if :
      {A : Type 0} (b : Bool) (m n : Exec M A)
      → Prepares m
      → Prepares n
      → Prepares (if b then m else n)
  Prepares-if true m n hm hn = hm
  Prepares-if false m n hm hn = hn

  pub Prepares-or_abandon : (ok : Bool) → Prepares (or_abandon task ok)
  unfolding or_abandon abandon ◌>>=◌
  Prepares-or_abandon true = record { at = λ s. refl }
  Prepares-or_abandon false = record { at = λ s. (refl, refl, (s.cpu, refl)) }

ruleset prepare_rules = (
  Prepares-pure, Prepares-gets, Prepares-on_cpu, Prepares-on_memory, Prepares-if,
  Prepares-or_abandon, Prepares-bind,
)

module _ {M : Machine} (task : M.Task) where
  start_at-Prepares : (child_stack : ℕ) → Prepares {M = M} task (start_at task child_stack)
  unfolding start_at
  start_at-Prepares child_stack = search prepare_rules depth 14

  write_tls-Prepares : (tls : ℕ) (reg : Option Reg) → Prepares {M = M} task (write_tls task tls reg)
  unfolding write_tls
  write_tls-Prepares tls none = search prepare_rules
  write_tls-Prepares tls (some reg) = search prepare_rules

  set_tls-Prepares : (flags tls : ℕ) → Prepares {M = M} task (set_tls task flags tls)
  unfolding set_tls
  set_tls-Prepares flags tls = search (prepare_rules, write_tls-Prepares)

  put_tid-Prepares : (child_tid pid : ℕ) → Prepares {M = M} task (put_tid child_tid pid)
  unfolding put_tid
  put_tid-Prepares child_tid pid = search prepare_rules

-- The task has been waited for and has ended, and was closed as the last thing.
abbrev pub Ended : {M : Machine} → M.Task → State M → Type 0
Ended {M} task x =
    (cpu : M.Cpu) × ((M.task_wait cpu task).0 ≡ true)
    × (x.cpu ≡ M.task_close (M.task_wait cpu task).1 task)

-- The wait for the task goes on.
abbrev pub GoesOn : {M : Machine} → M.Task → State M → Type 0
GoesOn {M} task x =
    (cpu : M.Cpu) × ((M.task_wait cpu task).0 ≡ false) × (x.cpu ≡ (M.task_wait cpu task).1)

module _ {M : Machine} (task : M.Task) (flags pid : ℕ) where
  -- The end of `clone`, which has the new task and its number.
  abbrev Finished : State M → Outcome ℕ → State M → Type 0
  Finished s (done p) x =
      (p ≡ pid)
      × (x.tasks ≡ (if has_bits flags clone_vfork then s.tasks else insert pid task s.tasks))
      × (has_bits flags clone_vfork ≡ true → Ended task x)
  Finished s failed x = Prepared task {A = ℕ} s failed x
  Finished s panicked x = ⊥
  Finished s stalled x = (has_bits flags clone_vfork ≡ true) × (x.tasks ≡ s.tasks) × GoesOn task x

  record Finishes (m : Exec M ℕ) : Type 0 where
    at : (s : State M) → Finished s (m s).0 (m s).1

  Finished-trans :
      (s x y : State M) (o : Outcome ℕ) → x.tasks ≡ s.tasks → Finished x o y → Finished s o y
  Finished-trans s x y (done p) e (same, stored, ended) = (same, rw (← e) stored, ended)
  Finished-trans s x y failed e (same, errno, closed) = (same ∙ e, errno, closed)
  Finished-trans s x y panicked e h = h
  Finished-trans s x y stalled e (vfork, same, waits) = (vfork, same ∙ e, waits)

  continue-Finished :
      {A : Type 0} (f : A → Exec M ℕ)
      → ((a : A) → Finishes (f a))
      → (s x : State M) (o : Outcome A) → Prepared task s o x
      → Finished s (continue o f x).0 (continue o f x).1
  continue-Finished f hf s x (done a) h = Finished-trans s x _ _ h ((hf a).at x)
  continue-Finished f hf s x failed h = h
  continue-Finished f hf s x panicked h = absurd h
  continue-Finished f hf s x stalled h = absurd h

  Finishes-bind :
      {A : Type 0} (m : Exec M A) (f : A → Exec M ℕ)
      → Prepares task m
      → ((a : A) → Finishes (f a))
      → Finishes (m >>= f)
  unfolding ◌>>=◌
  Finishes-bind m f hm hf = record { at = λ s. continue-Finished f hf s (m s).1 (m s).0 (hm.at s) }

  last-Finishes : Finishes (
      (if has_bits flags clone_vfork then await_task task else set_tasks (insert pid task))
      >> pure pid)
  unfolding await_task ◌>>=◌
  last-Finishes = record {
    at = λ s. elim (Bool-cases (has_bits flags clone_vfork)) [
      | inl vfork ↦ elim (Bool-cases (M.task_wait s.cpu task).0) [
        | inl ended ↦ rw (vfork, ended) (refl, rw vfork refl, λ _. (s.cpu, ended, refl))
        | inr waits ↦ rw (vfork, waits) (vfork, refl, (s.cpu, waits, refl))
      ]
      | inr goes_on ↦ rw goes_on (refl, rw goes_on refl, λ vfork. ground (arith, goes_on, vfork))
    ];
  }

-- How a clone ends, by its outcome.
abbrev pub Cloned : {M : Machine} → ℕ → State M → Outcome ℕ → State M → Type 0
Cloned {M} flags s (done pid) x =
    (task : M.Task) × ((M.task_fork s.cpu).0 ≡ some task)
    × (pid ≡ to_32 (M.task_number task))
    × (x.tasks ≡ (if has_bits flags clone_vfork then s.tasks else insert pid task s.tasks))
    × (has_bits flags clone_vfork ≡ true → Ended task x)
Cloned {M} flags s failed x =
    (x.tasks ≡ s.tasks)
    × (x.errno ≡ code eagain)
    × (((M.task_fork s.cpu).0 ≡ none)
        ⊎ ((task : M.Task) × ((M.task_fork s.cpu).0 ≡ some task)
            × ((cpu : M.Cpu) × (x.cpu ≡ M.task_close cpu task))))
Cloned {M} flags s panicked x = ⊥
Cloned {M} flags s stalled x =
    (has_bits flags clone_vfork ≡ true)
    × (x.tasks ≡ s.tasks)
    × ((task : M.Task) × ((M.task_fork s.cpu).0 ≡ some task) × GoesOn task x)

module _ {M : Machine} where
  Finished-Cloned :
      (task : M.Task) (flags : ℕ) (s y x : State M) (o : Outcome ℕ)
      → (M.task_fork s.cpu).0 ≡ some task
      → y.tasks ≡ s.tasks
      → Finished task flags (to_32 (M.task_number task)) y o x
      → Cloned flags s o x
  Finished-Cloned task flags s y x (done p) fork same (number, stored, ended) =
      (task, fork, number, rw (number, ← same) stored, ended)
  Finished-Cloned task flags s y x failed fork same (tasks, errno, closed) =
      (tasks ∙ same, errno, inr (task, fork, closed))
  Finished-Cloned task flags s y x panicked fork same h = h
  Finished-Cloned task flags s y x stalled fork same (vfork, tasks, waits) =
      (vfork, tasks ∙ same, (task, fork, waits))

  run_child-Finishes :
      (flags child_stack tls child_tid : ℕ) (task : M.Task)
      → Finishes {M = M} task flags
          (to_32 (M.task_number task))
          (run_child flags child_stack tls child_tid task)
  unfolding run_child
  run_child-Finishes flags child_stack tls child_tid task =
      search
        (
          Finishes-bind, start_at-Prepares, set_tls-Prepares, put_tid-Prepares, last-Finishes,
          prepare_rules,
        )
        depth 14

  forked-Cloned :
      (flags child_stack parent_tid tls child_tid : ℕ) (s : State M) (forked : Option M.Task)
      → (M.task_fork s.cpu).0 ≡ forked
      → Cloned flags s
          (clone flags child_stack parent_tid tls child_tid s).0
          (clone flags child_stack parent_tid tls child_tid s).1
  unfolding clone ◌>>=◌
  forked-Cloned flags child_stack parent_tid tls child_tid s none e = rw e (refl, refl, inl e)
  forked-Cloned flags child_stack parent_tid tls child_tid s (some task) e =
      let y : State M = record s { cpu = (M.task_fork s.cpu).1 } in
      let finishes = run_child-Finishes flags child_stack tls child_tid task in
      rw e (Finished-Cloned task flags s y _ _ e refl (finishes.at y))

  -- A clone, whatever its arguments and the state, ends in one of three ways. It returns the number of
  -- a task that it has forked, which the map of tasks then holds beside what it held; or, under
  -- CLONE_VFORK, the map is as before, and the task has been waited for, has ended, and was closed as
  -- the last thing. Or it fails with EAGAIN and the map as before, with no task forked or with the
  -- forked task closed as the last thing. Or, under CLONE_VFORK, it goes on waiting for the task, with
  -- the map as before.
  pub clone-Cloned :
      (flags child_stack parent_tid tls child_tid : ℕ) (s : State M)
      → let r = clone flags child_stack parent_tid tls child_tid s in Cloned flags s r.0 r.1
  clone-Cloned flags child_stack parent_tid tls child_tid s =
      forked-Cloned flags child_stack parent_tid tls child_tid s _ refl
