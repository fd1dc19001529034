-- ===== src/Kernel.antt =====
-- kernel/kernel.go: the interrupt handlers through which the emulated program makes a syscall, and
-- the accessors of the error number. `dbg.NR` is the debugger's method, which can replace the
-- kernel's own (the identity `nr`) by the numbering of an architecture: it is `syscall_number`.

pub mod Dispatch
pub mod Life
pub mod Tracked
pub mod Refines
use microdbg_linux.Base.{ℕ, List, [], ◌∷◌, Option, none, some, ◌==◌, if◌then◌else◌}
use microdbg_linux.Machine.{Machine, Reg}
use microdbg_linux.Exec.{State, Outcome, done, failed, panicked, stalled}
use microdbg_linux.Syscall.{Args, Call, get, call}

-- debugger.HookResult: the next hook is asked, or the interrupt is dealt with. A handler can also
-- end in a panic, or not return.
pub data HookResult : Type 0 where
  hook_next hook_done hook_panic hook_stall : HookResult

-- `NR`
unfoldable pub nr : ℕ → ℕ
nr n = n

-- The registers of a calling convention: the number of the syscall, and its arguments.
pub record Convention : Type 0 where
  pub number : Reg
  pub r0 : Reg
  pub r1 : Reg
  pub r2 : Reg
  pub r3 : Reg
  pub r4 : Reg
  pub r5 : Reg

abbrev pub arm_convention : Convention
arm_convention = record {
  number = Reg.arm_r7;
  r0 = Reg.arm_r0;
  r1 = Reg.arm_r1;
  r2 = Reg.arm_r2;
  r3 = Reg.arm_r3;
  r4 = Reg.arm_r4;
  r5 = Reg.arm_r5;
}

abbrev pub arm64_convention : Convention
arm64_convention = record {
  number = Reg.arm64_x8;
  r0 = Reg.arm64_x0;
  r1 = Reg.arm64_x1;
  r2 = Reg.arm64_x2;
  r3 = Reg.arm64_x3;
  r4 = Reg.arm64_x4;
  r5 = Reg.arm64_x5;
}

-- The values of six registers, as the `args ...uint64` of a call.
abbrev pub to_args : Option (List ℕ) → Option Args
to_args (some (x0 ∷ x1 ∷ x2 ∷ x3 ∷ x4 ∷ x5 ∷ [])) =
    some (record { a0 = x0; a1 = x1; a2 = x2; a3 = x3; a4 = x4; a5 = x5 })
to_args _ = none

abbrev prepend : Option ℕ → Option (List ℕ) → Option (List ℕ)
prepend (some x) (some xs) = some (x ∷ xs)
prepend _ _ = none

-- `RegReadBatch`: every register, or an error.
abbrev pub reg_read_batch : (M : Machine) → M.Cpu → List Reg → Option (List ℕ)
reg_read_batch M cpu [] = some []
reg_read_batch M cpu (r ∷ rs) = prepend (M.reg_read cpu r) (reg_read_batch M cpu rs)

unfoldable pub read_args : (M : Machine) → Convention → M.Cpu → Option Args
read_args M c cpu = to_args (reg_read_batch M cpu (c.r0 ∷ c.r1 ∷ c.r2 ∷ c.r3 ∷ c.r4 ∷ c.r5 ∷ []))

module _ {M : Machine} where
  unfoldable pub set_errno : ℕ → State M → State M
  set_errno e s = record s { errno = e }

  -- What follows the call: its result goes to the first register.
  abbrev pub finish : Convention → Outcome ℕ × State M → HookResult × State M
  finish c (done r, s) = (hook_done, record s { cpu = M.reg_write s.cpu c.r0 r })
  finish c (failed, s) = (hook_panic, s)
  finish c (panicked, s) = (hook_panic, s)
  finish c (stalled, s) = (hook_stall, s)

  -- The part behind the reads: the call, if the table has it.
  unfoldable pub invoke : Convention → Args → Option Call → State M → HookResult × State M
  unfolding set_errno
  invoke c args none s = (hook_next, s)
  invoke c args (some k) s = finish c (call k args (set_errno 0 s))

  abbrev pub with_args : Convention → ℕ → Option Args → State M → HookResult × State M
  with_args c num none s = (hook_next, s)
  with_args c num (some args) s = invoke c args (get (M.syscall_number num)) s

  abbrev pub with_number : Convention → Option ℕ → State M → HookResult × State M
  with_number c none s = (hook_next, s)
  with_number c (some num) s = with_args c num (read_args M c s.cpu) s

  unfoldable pub handle_intr : Convention → ℕ → State M → HookResult × State M
  unfolding invoke
  handle_intr c intno s =
      if intno == M.intr_swi then with_number c (M.reg_read s.cpu c.number) s else (hook_next, s)

  unfoldable pub arm_intr : ℕ → State M → HookResult × State M
  unfolding handle_intr
  arm_intr = handle_intr arm_convention

  unfoldable pub arm64_intr : ℕ → State M → HookResult × State M
  unfolding handle_intr
  arm64_intr = handle_intr arm64_convention
