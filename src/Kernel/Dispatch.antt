-- ===== src/Kernel/Dispatch.antt =====
-- What an interrupt does to the registers and the error number, and which interrupts are passed on.
use microdbg_linux.Base.{ℕ, ◌<◌, ◌≡◌, ◌≢◌, ◌⊎◌, inl, inr, Option, none, some, arith}
use microdbg_linux.Base.{Option-cases, Bool-cases, ◌==◌}
use microdbg_linux.Base.Word.{minus_one}
use microdbg_linux.Machine.{Machine, Reg}
use microdbg_linux.Exec.{State, Outcome, done, failed, panicked, stalled}
use microdbg_linux.Syscall.{Args, Call, get}
use microdbg_linux.Syscall.Reports.{Settled, call-Settled}
use microdbg_linux.Kernel.{HookResult, hook_next, hook_done, Convention}
use microdbg_linux.Kernel.{
  set_errno, finish, invoke, with_args, with_number, read_args, handle_intr,
}

-- The program's view of a syscall that came back: its result register, and the error number.
abbrev pub Answered : {M : Machine} → Convention → HookResult × State M → Type 0
Answered {M} c (hook_done, s) =
    (v : ℕ) × (M.reg_read s.cpu c.r0 ≡ some v) × ((s.errno ≡ 0) ⊎ ((v ≡ minus_one) × (0 < s.errno)))
Answered c _ = Unit

-- A register holds what is written to it.
abbrev pub HoldsWrites : Machine → Type 0
HoldsWrites M = (cpu : M.Cpu) (r : Reg) (v : ℕ) → M.reg_read (M.reg_write cpu r v) r ≡ some v

module _ {M : Machine} (law : HoldsWrites M) (c : Convention) where
  finish-Answered :
      (o : Outcome ℕ) (s : State M) → Settled 0 o s.errno → Answered c (finish c (o, s))
  finish-Answered (done v) s h = (v, law s.cpu c.r0 v, h)
  finish-Answered failed s h = absurd h
  finish-Answered panicked s h = tt
  finish-Answered stalled s h = tt

  invoke-Answered : (args : Args) (k : Option Call) (s : State M) → Answered c (invoke c args k s)
  unfolding invoke
  invoke-Answered args none s = tt
  invoke-Answered args (some k) s = finish-Answered _ _ (call-Settled k args (set_errno 0 s))

  with_args-Answered :
      (num : ℕ) (args : Option Args) (s : State M) → Answered c (with_args c num args s)
  with_args-Answered num none s = tt
  with_args-Answered num (some args) s = invoke-Answered args _ s

  with_number-Answered : (num : Option ℕ) (s : State M) → Answered c (with_number c num s)
  with_number-Answered none s = tt
  with_number-Answered (some num) s = with_args-Answered num _ s

  -- On a machine whose registers hold what is written to them, an interrupt that the kernel has
  -- dealt with leaves 0 in the error number, or -1 in the result register and a positive error
  -- number, whatever the convention, the interrupt and the state.
  pub handle_intr-Answered : (intno : ℕ) (s : State M) → Answered c (handle_intr c intno s)
  unfolding handle_intr
  handle_intr-Answered intno s = elim (Bool-cases (intno == M.intr_swi)) [
    | inl e ↦ rw (e, handle_intr) (with_number-Answered (M.reg_read s.cpu c.number) s)
    | inr e ↦ rw (e, handle_intr) tt
  ]

-- Why an interrupt is no call of the kernel's: it is not the software interrupt, a register cannot
-- be read, or the table has no entry for the number.
abbrev pub IsForeign : (M : Machine) → Convention → ℕ → M.Cpu → Type 0
IsForeign M c intno cpu =
    (intno ≢ M.intr_swi)
    ⊎ (M.reg_read cpu c.number ≡ none)
    ⊎ (read_args M c cpu ≡ none)
    ⊎ ((num : ℕ) × (M.reg_read cpu c.number ≡ some num) × (get (M.syscall_number num) ≡ none))

module _ {M : Machine} (c : Convention) where
  finish-ne-next : (o : Outcome ℕ) (s : State M) → (finish c (o, s)).0 ≢ hook_next
  finish-ne-next (done v) s h = cc
  finish-ne-next failed s h = cc
  finish-ne-next panicked s h = cc
  finish-ne-next stalled s h = cc

  -- Every interrupt is either foreign, and then it is passed on to the next hook with nothing
  -- changed, the error number included, or it is not, and then it is not passed on.
  handle_intr_next :
      (intno : ℕ) (s : State M)
      → (IsForeign M c intno s.cpu × (handle_intr c intno s ≡ (hook_next, s)))
        ⊎ ((handle_intr c intno s).0 ≢ hook_next)
  unfolding handle_intr
  handle_intr_next intno s = elim (Bool-cases (intno == M.intr_swi)) [
    | inl e ↦ elim (Option-cases (M.reg_read s.cpu c.number)) [
      | inl unread ↦ inl (inr (inl unread), ground arith)
      | inr (num, read) ↦ elim (Option-cases (read_args M c s.cpu)) [
        | inl missing ↦ inl (inr (inr (inl missing)), ground arith)
        | inr (args, got) ↦ elim (Option-cases (get (M.syscall_number num))) [
          | inl unknown ↦ inl (inr (inr (inr (num, read, unknown))), ground arith)
          | inr (k, known) ↦ inr (rw (e, handle_intr, read, got, known) (finish-ne-next _ _))
        ]
      ]
    ]
    | inr e ↦ inl (inl (λ same. ground arith), ground arith)
  ]
