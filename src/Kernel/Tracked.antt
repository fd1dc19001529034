-- ===== src/Kernel/Tracked.antt =====
-- Every interrupt keeps the descriptors that have flags open.
use microdbg_linux.Base.{ℕ, List, [], ◌∷◌, Option, none, some, Bool-cases, inl, inr, ◌==◌}
use microdbg_linux.Machine.{Machine}
use microdbg_linux.Exec.{State, Event, Outcome, done, failed, panicked, stalled}
use microdbg_linux.Fcntl.Tracked.{IsFileTable, IsTracked}
use microdbg_linux.Syscall.{Args, Call, call, get}
use microdbg_linux.Syscall.Tracked.{call-IsTracked}
use microdbg_linux.Kernel.{
  Convention, set_errno, finish, invoke, with_args, with_number, read_args, handle_intr,
}

module _ {M : Machine} (law : IsFileTable M) where
  finish-IsTracked :
      (c : Convention) (o : Outcome ℕ) (s : State M) → IsTracked s → IsTracked (finish c (o, s)).1
  finish-IsTracked c (done v) s h = record { at = h.at }
  finish-IsTracked c failed s h = h
  finish-IsTracked c panicked s h = h
  finish-IsTracked c stalled s h = h

  invoke-IsTracked :
      (c : Convention) (args : Args) (o : Option Call) (s : State M)
      → IsTracked s
      → IsTracked (invoke c args o s).1
  unfolding invoke set_errno
  invoke-IsTracked c args none s h = h
  invoke-IsTracked c args (some k) s h =
      let x = call k args (set_errno 0 s) in
      finish-IsTracked c x.0 x.1 (call-IsTracked law k args (set_errno 0 s) (record { at = h.at }))

  with_args-IsTracked :
      (c : Convention) (num : ℕ) (args : Option Args) (s : State M)
      → IsTracked s
      → IsTracked (with_args c num args s).1
  with_args-IsTracked c num none s h = h
  with_args-IsTracked c num (some args) s h =
      invoke-IsTracked c args (get (M.syscall_number num)) s h

  with_number-IsTracked :
      (c : Convention) (num : Option ℕ) (s : State M)
      → IsTracked s
      → IsTracked (with_number c num s).1
  with_number-IsTracked c none s h = h
  with_number-IsTracked c (some num) s h = with_args-IsTracked c num (read_args M c s.cpu) s h

  -- An interrupt, whatever the convention, its number and the registers, keeps every descriptor that
  -- has flags open, on a debugger whose descriptor table is one.
  pub handle_intr-IsTracked :
      (c : Convention) (intno : ℕ) (s : State M) → IsTracked s → IsTracked (handle_intr c intno s).1
  unfolding handle_intr
  handle_intr-IsTracked c intno s h = elim (Bool-cases (intno == M.intr_swi)) [
    | inl ours ↦ rw ours (with_number-IsTracked c (M.reg_read s.cpu c.number) s h)
    | inr other ↦ rw other h
  ]

-- An interrupt, with what the program and the host have made of the outside state before it, but for
-- the descriptors.
pub record Round (M : Machine) : Type 0 where
  pub intno : ℕ
  pub memory : M.Memory
  pub host : M.Host
  pub cpu : M.Cpu
  pub events : List (Event M)

abbrev pub arrive : {M : Machine} → Round M → State M → State M
arrive x s = record s { memory = x.memory; host = x.host; cpu = x.cpu; events = x.events }

abbrev pub run_all : {M : Machine} → Convention → List (Round M) → State M → State M
run_all c [] s = s
run_all c (x ∷ xs) s = run_all c xs (handle_intr c x.intno (arrive x s)).1

pub run_all-IsTracked :
    {M : Machine}
    → IsFileTable M
    → (c : Convention) (xs : List (Round M)) (s : State M) → IsTracked s
    → IsTracked (run_all c xs s)
run_all-IsTracked law c [] s h = h
run_all-IsTracked law c (x ∷ xs) s h =
    run_all-IsTracked law c xs _
      (handle_intr-IsTracked law c x.intno (arrive x s) (record { at = h.at }))
