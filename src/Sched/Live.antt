-- ===== src/Sched/Live.antt =====
-- The map of tasks of kernel/sched.go, over clones and the goroutines behind them.
use mathlib.Core.Path.{subst}
use microdbg_linux.Base.{
  ℕ, ◌≡◌, refl, ◌∙◌, arith, false, none, some, [], ◌∷◌, ◌++◌, ◌==◌, if◌then◌else◌, inl, inr,
  Bool-cases,
}
use microdbg_linux.Base.Word.{has_bits}
use microdbg_linux.Base.Assoc.{Assoc, lookup, insert, erase, lookup-insert, lookup-erase}
use microdbg_linux.Machine.{Machine}
use microdbg_linux.Exec.{State, Outcome, done, failed, ◌>>=◌}
use microdbg_linux.Sched.{clone, clone_vfork, reap}
use microdbg_linux.Sched.Cloned.{Cloned, clone-Cloned}

-- No number stands twice.
abbrev pub Distinct : {V : Type 0} → Assoc V → Type 0
Distinct [] = Unit
Distinct ((n, v) ∷ m) = (lookup n m ≡ none) × Distinct m

module _ {V : Type 0} (pid : ℕ) (v : V) where
  lookup-mid : (front back : Assoc V) → ¬ (lookup pid (front ++ (pid, v) ∷ back) ≡ none)
  unfolding lookup
  lookup-mid [] back e = ground (arith, e)
  lookup-mid ((k, w) ∷ front) back e = ground (arith, e, lookup-mid front back)

  apart :
      (k : ℕ) (front back : Assoc V)
      → lookup k (front ++ (pid, v) ∷ back) ≡ none
      → (k == pid) ≡ false
  apart k front back free = elim (Bool-cases (k == pid)) [
    | inl e ↦
        let same : k ≡ pid = ground (arith, e) in
        absurd (
          lookup-mid front back (subst (λ j. lookup j (front ++ (pid, v) ∷ back) ≡ none) same free))
    | inr e ↦ e
  ]

  lookup-front :
      (n : ℕ) (front back : Assoc V)
      → Distinct (front ++ (pid, v) ∷ back)
      → lookup n (front ++ back) ≡ (if pid == n then none else lookup n (front ++ (pid, v) ∷ back))
  unfolding lookup
  lookup-front n [] back d = ground (arith, d)
  lookup-front n ((k, t) ∷ front) back d =
      ground (arith, d.0, lookup-front n front back d.1, apart k front back d.0)

  Distinct-front :
      (front back : Assoc V) → Distinct (front ++ (pid, v) ∷ back) → Distinct (front ++ back)
  Distinct-front [] back d = d.1
  Distinct-front ((k, t) ∷ front) back d =
      (lookup-front k front back d.1 ∙ ground (arith, d.0), Distinct-front front back d.1)

module _ {M : Machine} where
  -- The states that clones reach, with the goroutines that wait for the end of a task, by the number
  -- and the task: a clone that has not waited starts one, on a number that no running one has; the
  -- end of a task ends its goroutine, in any order; all else leaves the map alone.
  pub data Reached : State M → Assoc M.Task → Type 0 where
    begin : (s : State M) → s.tasks ≡ [] → Reached s []
    cloned :
        (flags child_stack parent_tid tls child_tid : ℕ) (s : State M) {x : State M}
        → {live : Assoc M.Task} (pid : ℕ) (task : M.Task) → Reached s live
        → clone flags child_stack parent_tid tls child_tid s ≡ (done pid, x)
        → (M.task_fork s.cpu).0 ≡ some task
        → has_bits flags clone_vfork ≡ false
        → lookup pid live ≡ none
        → Reached x ((pid, task) ∷ live)
    not_cloned :
        (flags child_stack parent_tid tls child_tid : ℕ) (s : State M) {x : State M}
        → {live : Assoc M.Task} → Reached s live
        → clone flags child_stack parent_tid tls child_tid s ≡ (failed, x)
        → Reached x live
    reaped :
        (pid : ℕ) (task : M.Task) (s : State M) {x : State M} (front back : Assoc M.Task)
        → Reached s (front ++ (pid, task) ∷ back)
        → reap pid task s ≡ (done tt, x)
        → Reached x (front ++ back)
    elsewhere :
        (s x : State M) {live : Assoc M.Task} → Reached s live → x.tasks ≡ s.tasks → Reached x live

  -- The numbers of the goroutines differ, and the map holds what they wait for, and nothing else.
  pub record HoldsLive (s : State M) (live : Assoc M.Task) : Type 0 where
    pub distinct : Distinct live
    pub holds : (n : ℕ) → lookup n s.tasks ≡ lookup n live

  Cloned-HoldsLive :
      (flags : ℕ) (s x : State M) (live : Assoc M.Task) (pid : ℕ) (task : M.Task)
      → HoldsLive s live
      → Cloned flags s (done pid) x
      → (M.task_fork s.cpu).0 ≡ some task
      → has_bits flags clone_vfork ≡ false
      → lookup pid live ≡ none
      → HoldsLive x ((pid, task) ∷ live)
  unfolding lookup
  Cloned-HoldsLive flags s x live pid task h (other, fork', number, stored, ended) fork no_vfork
        free =
      let same : other ≡ task = cc in
      let grown : x.tasks ≡ insert pid task s.tasks = stored ∙ rw (no_vfork, same) refl in
      record {
        distinct = (free, h.distinct);
        holds = λ n. rw grown (ground (arith, lookup-insert pid n task s.tasks, h.holds n));
      }

  reap-tasks :
      (pid : ℕ) (task : M.Task) (s x : State M)
      → reap pid task s ≡ (done tt, x)
      → x.tasks ≡ erase pid s.tasks
  unfolding reap ◌>>=◌
  reap-tasks pid task s x e = ground (arith, e)

  -- Where every clone gives its task a number that no running goroutine has, the map of tasks holds, in
  -- every state that clones and the ends of their tasks reach, in any order, the task of each running
  -- goroutine under its number, and nothing else.
  pub Reached-HoldsLive : (s : State M) (live : Assoc M.Task) → Reached s live → HoldsLive s live
  unfolding lookup
  Reached-HoldsLive _ _ (begin s empty) = record { distinct = tt; holds = λ n. rw empty refl }
  Reached-HoldsLive x live
        (cloned flags stack parent tls tid s pid task reached e fork no_vfork free) =
      let r = clone flags stack parent tls tid s in
      Cloned-HoldsLive flags s x _ pid task (Reached-HoldsLive s _ reached)
        (subst (λ (z : Outcome ℕ × State M). Cloned flags s z.0 z.1) e
          (clone-Cloned flags stack parent tls tid s))
        fork no_vfork free
  Reached-HoldsLive x live (not_cloned flags stack parent tls tid s reached e) =
      let h = Reached-HoldsLive s live reached in
      let ended =
        subst (λ (z : Outcome ℕ × State M). Cloned flags s z.0 z.1) e
          (clone-Cloned flags stack parent tls tid s) in
      record { distinct = h.distinct; holds = λ n. rw ended.0 (h.holds n) }
  Reached-HoldsLive x live (reaped pid task s front back reached e) =
      let h = Reached-HoldsLive s _ reached in
      record {
        distinct = Distinct-front pid task front back h.distinct;
        holds = λ n. rw (reap-tasks pid task s x e) (
            ground (
              arith,
              lookup-erase pid n s.tasks,
              h.holds n,
              lookup-front pid task n front back h.distinct,
            ));
      }
  Reached-HoldsLive x live (elsewhere s _ reached same) =
      let h = Reached-HoldsLive s live reached in
      record { distinct = h.distinct; holds = λ n. rw same (h.holds n) }
