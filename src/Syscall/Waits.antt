-- ===== src/Syscall/Waits.antt =====
-- The handlers of kernel/signal.go, kernel/sched.go and kernel/futex.go obey every discipline.
use microdbg_linux.Base.{◌==◌, ℕ, Bool, true, false, Option, none, some, List, ◌∷◌, refl}
use microdbg_linux.Base.{◌≡◌, Bool-cases, inl, inr, if◌then◌else◌}
use microdbg_linux.Base.Word.{has_bits}
use microdbg_linux.Base.Assoc.{insert}
use microdbg_linux.Machine.{Machine, Reg}
use microdbg_linux.Exec.{State}
use microdbg_linux.Syscall.Discipline.{
  Discipline, Silent, Obeys-deferred, Obeys, obey_rules, Obeys-if, Obeys-pure, Obeys-stall,
  Obeys-bind, Obeys-set_tasks,
}
use microdbg_linux.Exec.{Event, Sigaction, timeout, closed, signalled, received, stored}
use microdbg_linux.Signal.{
  put_old, rt_sigaction, put_oldset, change_mask, rt_sigprocmask, rt_tgsigqueueinfo,
}
use microdbg_linux.Sched.{
  or_abandon, start_at, write_tls, set_tls, await_task, put_tid, clone, clone_vfork,
}
use microdbg_linux.Futex.{
  add_await, del_await, add_bit_await, del_bit_await, word_at, timer, enter_wait,
}
use microdbg_linux.Futex.{
  shut, wait_loop, wait, wait_bits_loop, wait_bitset, or_stall, wake_waiters, wake, wake_bitset,
  futex,
}
use microdbg_linux.Exec.{set_awaits, set_tasks, ◌>>=◌}

module _ {M : Machine} (D : Discipline M) where
  put_old-Obeys : (oldact : ℕ) (old : Option Sigaction) → Obeys D (put_old oldact old)
  unfolding put_old
  put_old-Obeys oldact none = search obey_rules depth 14
  put_old-Obeys oldact (some old) = search obey_rules depth 14

  pub rt_sigaction-Obeys :
      (signal act oldact size : ℕ) → Obeys D (rt_sigaction signal act oldact size)
  unfolding rt_sigaction
  rt_sigaction-Obeys signal act oldact size = search (obey_rules, put_old-Obeys) depth 14

  pub put_oldset-Obeys : (oldset : ℕ) → Obeys D (put_oldset oldset)
  unfolding put_oldset
  put_oldset-Obeys oldset = search obey_rules depth 14

  pub change_mask-Obeys : (how value : ℕ) → Obeys D (change_mask how value)
  unfolding change_mask
  change_mask-Obeys how value = search obey_rules depth 14

  pub rt_sigprocmask-Obeys :
      (how set oldset size : ℕ) → Obeys D (rt_sigprocmask how set oldset size)
  unfolding rt_sigprocmask
  rt_sigprocmask-Obeys how set oldset size =
      search (obey_rules, put_oldset-Obeys, change_mask-Obeys) depth 14

  pub rt_tgsigqueueinfo-Obeys :
      (tgid tid sig info : ℕ) → Obeys D (rt_tgsigqueueinfo tgid tid sig info)
  unfolding rt_tgsigqueueinfo
  rt_tgsigqueueinfo-Obeys tgid tid sig info = search obey_rules depth 14

  or_abandon-Obeys : (task : M.Task) (ok : Bool) → Obeys D (or_abandon task ok)
  unfolding or_abandon
  or_abandon-Obeys task true = search obey_rules depth 14
  or_abandon-Obeys task false = search obey_rules depth 14

  start_at-Obeys : (task : M.Task) (child_stack : ℕ) → Obeys D (start_at task child_stack)
  unfolding start_at
  start_at-Obeys task child_stack = search (obey_rules, or_abandon-Obeys) depth 14

  write_tls-Obeys : (task : M.Task) (tls : ℕ) (r : Option Reg) → Obeys D (write_tls task tls r)
  unfolding write_tls
  write_tls-Obeys task tls none = search obey_rules
  write_tls-Obeys task tls (some r) = search obey_rules

  set_tls-Obeys : (task : M.Task) (flags tls : ℕ) → Obeys D (set_tls task flags tls)
  unfolding set_tls
  set_tls-Obeys task flags tls = search (obey_rules, write_tls-Obeys)

  pub put_tid-Obeys : (child_tid pid : ℕ) → Obeys D (put_tid child_tid pid)
  unfolding put_tid
  put_tid-Obeys child_tid pid = search obey_rules depth 14

  await_task-Obeys : D.MayStall → (task : M.Task) → Obeys D (await_task task)
  unfolding await_task
  await_task-Obeys waits task = search obey_rules depth 14

  clone_end-Obeys :
      (flags pid : ℕ) (task : M.Task)
      → (has_bits flags clone_vfork ≡ true → D.MayStall)
      → Obeys D
          (if has_bits flags clone_vfork then await_task task else set_tasks (insert pid task))
  clone_end-Obeys flags pid task waits = elim (Bool-cases (has_bits flags clone_vfork)) [
    | inl e ↦ rw e (await_task-Obeys (waits e) task)
    | inr e ↦ rw e (Obeys-set_tasks D (insert pid task))
  ]

  pub clone-Obeys :
      (flags child_stack parent_tid tls child_tid : ℕ)
      → (has_bits flags clone_vfork ≡ true → D.MayStall)
      → Obeys D (clone flags child_stack parent_tid tls child_tid)
  unfolding clone
  clone-Obeys flags child_stack parent_tid tls child_tid waits =
      search
        (
          obey_rules, or_abandon-Obeys, start_at-Obeys, set_tls-Obeys, clone_end-Obeys,
          put_tid-Obeys,
        )
        depth 14

  pub word_at-Obeys : (uaddr : ℕ) → Obeys D (word_at uaddr)
  unfolding word_at
  word_at-Obeys uaddr = search obey_rules depth 14

  pub timer-Obeys : (utime : ℕ) → Obeys D (timer utime)
  unfolding timer
  timer-Obeys utime = search obey_rules depth 14

  pub enter_wait-Obeys : (uaddr val utime : ℕ) → Obeys D (enter_wait uaddr val utime)
  unfolding enter_wait
  enter_wait-Obeys uaddr val utime = search (obey_rules, word_at-Obeys, timer-Obeys) depth 14

  del_await-Silent : (addr : ℕ) (s : State M) → Silent s (del_await addr s).1
  unfolding del_await set_awaits
  del_await-Silent addr s = (refl, refl, refl)

  del_bit_await-Silent : (addr bit : ℕ) (s : State M) → Silent s (del_bit_await addr bit s).1
  unfolding del_bit_await ◌>>=◌
  del_bit_await-Silent addr bit s = (refl, refl, refl)

  add_await-Obeys : (addr : ℕ) → Obeys D (add_await addr)
  unfolding add_await
  add_await-Obeys addr = search obey_rules depth 14

  pub add_bit_await-Obeys : (addr bit : ℕ) → Obeys D (add_bit_await addr bit)
  unfolding add_bit_await
  add_bit_await-Obeys addr bit = search (obey_rules, add_await-Obeys) depth 14

-- Those that wait.
module _ {M : Machine} (D : Discipline M) (waits : D.MayStall) where
  wait_loop-Obeys :
      (timed : Bool) (val : ℕ) (es : List (Event M)) → Obeys D (wait_loop timed val es)
  unfolding wait_loop shut
  wait_loop-Obeys timed val (timeout ∷ es) = search obey_rules depth 14
  wait_loop-Obeys timed val (closed ∷ es) = search obey_rules depth 14
  wait_loop-Obeys timed val (received raw ∷ es) =
      Obeys-if D (raw == val) _ _ (wait_loop-Obeys timed val es) (search obey_rules depth 14)
  wait_loop-Obeys timed val (stored m ∷ es) =
      Obeys-bind D _ _ (search obey_rules) (λ _. wait_loop-Obeys timed val es)
  wait_loop-Obeys timed val _ = search obey_rules depth 14

  wait_bits_loop-Obeys :
      (uaddr : ℕ) (timed : Bool) (val : ℕ) (es : List (Event M))
      → Obeys D (wait_bits_loop uaddr timed val es)
  unfolding wait_bits_loop shut
  wait_bits_loop-Obeys uaddr timed val (timeout ∷ es) = search obey_rules depth 14
  wait_bits_loop-Obeys uaddr timed val (closed ∷ es) = search obey_rules depth 14
  wait_bits_loop-Obeys uaddr timed val (received raw ∷ es) =
      Obeys-if D (raw == val) _ _ (wait_bits_loop-Obeys uaddr timed val es)
        (search obey_rules depth 14)
  wait_bits_loop-Obeys uaddr timed val (signalled ∷ es) =
      Obeys-bind D _ _ (Obeys-bind D _ _ (search obey_rules) (λ _. word_at-Obeys D uaddr)) λ raw.
        Obeys-if D (raw == val) _ _ (wait_bits_loop-Obeys uaddr timed val es) (Obeys-pure D 0)
  wait_bits_loop-Obeys uaddr timed val (stored m ∷ es) =
      Obeys-bind D _ _ (search obey_rules) (λ _. wait_bits_loop-Obeys uaddr timed val es)
  wait_bits_loop-Obeys uaddr timed val _ = search obey_rules depth 14

  pub wait-Obeys : (uaddr val utime : ℕ) → Obeys D (wait uaddr val utime)
  unfolding wait
  wait-Obeys uaddr val utime =
      search
        (
          obey_rules, Obeys-deferred, del_await-Silent, enter_wait-Obeys, add_await-Obeys,
          wait_loop-Obeys,
        )
        depth 14

  pub wait_bitset-Obeys : (uaddr val utime val3 : ℕ) → Obeys D (wait_bitset uaddr val utime val3)
  unfolding wait_bitset
  wait_bitset-Obeys uaddr val utime val3 =
      search
        (
          obey_rules, Obeys-deferred, del_bit_await-Silent, enter_wait-Obeys, add_bit_await-Obeys,
          wait_bits_loop-Obeys,
        )
        depth 14

  or_stall-Obeys : (r : Option (ℕ × List (Event M))) → Obeys D (or_stall r)
  unfolding or_stall
  or_stall-Obeys none = Obeys-stall D waits
  or_stall-Obeys (some (i, es)) = search obey_rules depth 14

  wake_waiters-Obeys : (uaddr val : ℕ) (r : Option ℕ) → Obeys D (wake_waiters uaddr val r)
  unfolding wake_waiters
  wake_waiters-Obeys uaddr val none = search obey_rules
  wake_waiters-Obeys uaddr val (some ch) =
      search (obey_rules, word_at-Obeys, or_stall-Obeys) depth 14

  pub wake-Obeys : (uaddr val : ℕ) → Obeys D (wake uaddr val)
  unfolding wake
  wake-Obeys uaddr val = search (obey_rules, wake_waiters-Obeys) depth 14

  pub wake_bitset-Obeys : (val val3 : ℕ) → Obeys D (wake_bitset val val3)
  unfolding wake_bitset
  wake_bitset-Obeys val val3 = search (obey_rules, or_stall-Obeys) depth 14

  pub futex-Obeys :
      (uaddr op val utime uaddr2 val3 : ℕ) → Obeys D (futex uaddr op val utime uaddr2 val3)
  unfolding futex
  futex-Obeys uaddr op val utime uaddr2 val3 =
      search (obey_rules, wait-Obeys, wake-Obeys, wait_bitset-Obeys, wake_bitset-Obeys) depth 14
