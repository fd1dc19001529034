-- ===== src/Kernel/Refines.antt =====
-- The interrupts of a kernel are the steps of an abstract machine, whose state is the table of
-- descriptors and whose steps are the edits that the syscalls promise.
use microdbg_linux.Base.{ℕ, ◌≡◌, refl, ◌⊎◌, inl, inr, some, List, [], ◌∷◌, ◌==◌, arith}
use microdbg_linux.Base.{◌∙◌, Option-cases, Bool-cases, eq_of_==, Bool}
use microdbg_linux.Base.Assoc.{lookup}
use microdbg_linux.Fcntl.Table.{flags_of}
use mathlib.Core.Path.{fun_ext, subst, ap}
use microdbg_linux.Machine.{Machine}
use microdbg_linux.Exec.{◌>>=◌, State, Outcome, done, failed, panicked, stalled}
use microdbg_linux.Fcntl.Tracked.{IsFileTable, IsTracked}
use microdbg_linux.Fcntl.View.{View, view, descriptor, Edit, edits}
use microdbg_linux.Fcntl.Edits.{IsAllocator}
use microdbg_linux.Syscall.{Args, Call, call, get}
use microdbg_linux.Syscall.Reports.{Settled, call-Settled}
use microdbg_linux.Syscall.Refines.{Promised, call-Promised}
use microdbg_linux.Syscall.Handlers.{Handled, call-Handled}
use microdbg_linux.Kernel.{
  HookResult, hook_next, hook_done, hook_panic, hook_stall, Convention, set_errno, finish, invoke,
  read_args, handle_intr,
}
use microdbg_linux.Kernel.Dispatch.{HoldsWrites, IsForeign}
use microdbg_linux.Kernel.Life.{handler_of, ctor, new_kernel, new_kernel-IsTracked}
use microdbg_linux.Kernel.Tracked.{Round, arrive, run_all, handle_intr-IsTracked}

-- How the program and the debugger learn of an outcome: a result is in the result register.
abbrev pub Told : {M : Machine} → Convention → Outcome ℕ → HookResult × State M → Type 0
Told {M} c (done v) (h, s) = (h ≡ hook_done) × (M.reg_read s.cpu c.r0 ≡ some v)
Told c failed (h, s) = ⊥
Told c panicked (h, s) = h ≡ hook_panic
Told c stalled (h, s) = h ≡ hook_stall

-- Which call an interrupt asks for, and with which arguments, by the registers.
abbrev pub Asks : (M : Machine) → Convention → ℕ → M.Cpu → Call → Args → Type 0
Asks M c intno cpu k args =
    (intno ≡ M.intr_swi)
    × ((num : ℕ) × (M.reg_read cpu c.number ≡ some num)
        × (read_args M c cpu ≡ some args)
        × (get (M.syscall_number num) ≡ some k))

-- The call `k` with the arguments `args` has been made in the state `s`: its handler has answered from
-- the error number 0 with the outcome and the state that it has, this is the state but for the
-- registers, and the descriptors have the edits that the call promises.
abbrev pub Made : {M : Machine} → Convention → Call → Args → State M → HookResult × State M → Type 0
Made {M} c k args s x =
    (o : Outcome ℕ) × (y : State M) × (es : List (Edit M.File)) × Handled M k args
      (record s { errno = 0 }) o y
    × Promised M k args (view s) es o
    × Told c o x
    × (x.1 ≡ record y { cpu = x.1.cpu })
    × ((j : ℕ) → view x.1 j ≡ edits es (view s) j)

module _ {M : Machine} (law : IsFileTable M) (fresh : IsAllocator M) (holds : HoldsWrites M)
    (c : Convention) where
  finish-Told : (o : Outcome ℕ) (s : State M) → Settled 0 o s.errno → Told c o (finish c (o, s))
  finish-Told (done v) s h = (refl, holds s.cpu c.r0 v)
  finish-Told failed s h = absurd h
  finish-Told panicked s h = refl
  finish-Told stalled s h = refl

  finish-registers :
      (o : Outcome ℕ) (s : State M)
      → (finish c (o, s)).1 ≡ record s { cpu = (finish c (o, s)).1.cpu }
  finish-registers (done v) s = refl
  finish-registers failed s = refl
  finish-registers panicked s = refl
  finish-registers stalled s = refl

  finish-view : (o : Outcome ℕ) (s : State M) (j : ℕ) → view (finish c (o, s)).1 j ≡ view s j
  finish-view (done v) s j = refl
  finish-view failed s j = refl
  finish-view panicked s j = refl
  finish-view stalled s j = refl

  invoke-Made :
      (args : Args) (k : Call) (s : State M)
      → IsTracked s
      → Made c k args s (invoke c args (some k) s)
  unfolding invoke set_errno
  invoke-Made args k s h =
      let x = call k args (set_errno 0 s) in
      let (es, kept, after) =
        call-Promised law fresh k args (set_errno 0 s) (record { at = h.at }) in
      (
        x.0,
        x.1,
        es,
        call-Handled k args (set_errno 0 s),
        kept,
        finish-Told x.0 x.1 (call-Settled k args (set_errno 0 s)),
        finish-registers x.0 x.1,
        λ j. finish-view x.0 x.1 j ∙ after j,
      )

  -- Where every descriptor with flags is open, an interrupt is passed on with nothing changed, for one
  -- of the reasons for which it is none of the kernel's, or it makes the call that the table has for
  -- the number in its register, with the arguments in the six others: the handler of this call answers,
  -- from the error number 0, on the arguments cut to its widths, and its answer, widened, or the -1 of
  -- its failure is in the result register, or is the panic or the wait that the debugger meets; all
  -- else but the registers is as the handler leaves it, and the descriptors change by edits that the
  -- call promises. The debugger's table is one, its new numbers are not in use, and registers hold
  -- what is written.
  pub handle_intr-Made :
      (intno : ℕ) (s : State M)
      → IsTracked s
      → (IsForeign M c intno s.cpu × (handle_intr c intno s ≡ (hook_next, s)))
        ⊎ ((k : Call) × (args : Args) × Asks M c intno s.cpu k args
            × Made c k args s (handle_intr c intno s))
  unfolding handle_intr
  handle_intr-Made intno s h = elim (Bool-cases (intno == M.intr_swi)) [
    | inl e ↦ elim (Option-cases (M.reg_read s.cpu c.number)) [
      | inl unread ↦ inl (inr (inl unread), ground arith)
      | inr (num, read) ↦ elim (Option-cases (read_args M c s.cpu)) [
        | inl missing ↦ inl (inr (inr (inl missing)), ground arith)
        | inr (args, got) ↦ elim (Option-cases (get (M.syscall_number num))) [
          | inl unknown ↦ inl (inr (inr (inr (num, read, unknown))), ground arith)
          | inr (k, known) ↦ inr (
            k,
            args,
            (eq_of_== _ _ e, (num, read, got, known)),
            rw (e, handle_intr, read, got, known) (invoke-Made args k s h),
          )
        ]
      ]
    ]
    | inr e ↦ inl (inl (λ same. ground arith), ground arith)
  ]

-- The files that are open, with no flags.
abbrev pub bare : {M : Machine} → State M → View M
bare {M} s fd = descriptor (M.get_file s.files fd) 0

-- The runs of the abstract machine, whose state is the table of descriptors: with each interrupt
-- it is left alone, or changed by edits that the call which is asked for promises.
pub data Runs (M : Machine) (c : Convention) : View M → List (Round M) → View M → Type 0 where
  rest : {v : View M} → Runs M c v [] v
  passed :
      {v w : View M} {x : Round M} {xs : List (Round M)}
      → IsForeign M c x.intno x.cpu
      → Runs M c v xs w
      → Runs M c v (x ∷ xs) w
  made :
      {v w : View M} {x : Round M} {xs : List (Round M)} (k : Call) (args : Args) (o : Outcome ℕ)
      (es : List (Edit M.File))
      → Asks M c x.intno x.cpu k args
      → Promised M k args v es o
      → Runs M c (edits es v) xs w
      → Runs M c v (x ∷ xs) w

module _ {M : Machine} (law : IsFileTable M) (fresh : IsAllocator M) (holds : HoldsWrites M)
    (c : Convention) where
  run_all-Runs :
      (xs : List (Round M)) (s : State M)
      → IsTracked s
      → Runs M c (view s) xs (view (run_all c xs s))
  run_all-Runs [] s h = rest
  run_all-Runs (x ∷ xs) s h =
      let y = arrive x s in
      let h' : IsTracked y = record { at = h.at } in
      let z = handle_intr c x.intno y in
      let end : View M = view (run_all c xs z.1) in
      let after = run_all-Runs xs z.1 (handle_intr-IsTracked law c x.intno y h') in
      elim (handle_intr-Made law fresh holds c x.intno y h') [
        | inl (foreign, same) ↦
            passed foreign (subst (λ v. Runs M c v xs end) (ap (λ r. view r.1) same) after)
        | inr (k, args, asks, (o, z, es, handled, kept, told, rest_same, edited)) ↦
            made k args o es asks kept (subst (λ v. Runs M c v xs end) (fun_ext edited) after)
      ]

  new_kernel-bare :
      (add_hook : Convention → Bool) (s : State M)
      → (new_kernel add_hook s).0 ≡ some c
      → (j : ℕ) → view (new_kernel add_hook s).1 j ≡ bare s j
  unfolding new_kernel ctor flags_of lookup ◌>>=◌
  new_kernel-bare add_hook s e j = elim (Option-cases (handler_of M.arch)) [
    | inl foreign ↦ cc (foreign, e)
    | inr (d, ours) ↦ elim (Bool-cases (add_hook d)) [
      | inl taken ↦ rw (ours, taken) refl
      | inr refused ↦ ground arith
    ]
  ]

  -- Behind any sequence of interrupts, whatever the program and the host do to registers, memory and
  -- files' contents in between, a new kernel has the descriptors that a run of the abstract machine
  -- reaches from those that were open, without flags: with each interrupt the table is left alone if
  -- the interrupt is none of the kernel's, and else it is changed by edits that the call promises for
  -- which the registers ask. The debugger's table is one, its new numbers are not in use, and
  -- registers hold what is written to them.
  pub new_kernel-Runs :
      (add_hook : Convention → Bool) (xs : List (Round M)) (s : State M)
      → (new_kernel add_hook s).0 ≡ some c
      → Runs M c (bare s) xs (view (run_all c xs (new_kernel add_hook s).1))
  new_kernel-Runs add_hook xs s e =
      let x = (new_kernel add_hook s).1 in
      let (empty, tracked) = new_kernel-IsTracked law add_hook c [] s e in
      subst (λ v. Runs M c v xs (view (run_all c xs x))) (fun_ext (new_kernel-bare add_hook s e))
        (run_all-Runs xs x tracked)
