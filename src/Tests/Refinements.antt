-- ===== src/Tests/Refinements.antt =====
-- The abstract table of descriptors on the sample machine.
use microdbg_linux.Base.{ℕ, ◌≤◌, ◌≡◌, refl, ◌⊎◌, arith, true, none, some, List, [], ◌∷◌}
use microdbg_linux.Base.{Option}
use microdbg_linux.Base.Assoc.{Assoc, lookup}
use microdbg_linux.Fcntl.View.{view, Edit, edits}
use microdbg_linux.Fcntl.Edits.{IsAllocator}
use microdbg_linux.Syscall.{Args, Call, call, emulate_dup3}
use microdbg_linux.Syscall.Refines.{Promised, call-Promised}
use microdbg_linux.Kernel.{arm_convention, arm64_convention, handle_intr, hook_next}
use microdbg_linux.Kernel.Dispatch.{IsForeign}
use microdbg_linux.Kernel.Life.{new_kernel}
use microdbg_linux.Kernel.Tracked.{run_all}
use microdbg_linux.Kernel.Refines.{Asks, Made, handle_intr-Made, Runs, bare, new_kernel-Runs}
use microdbg_linux.Tests.Sample.{
  sample, start, next_fd, dup, sample-IsFileTable, sample-HoldsWrites, start-IsTracked,
}
use microdbg_linux.Tests.Dispatch.{as_four, rounds, taken}

lookup-above : (t : Assoc ℕ) (fd : ℕ) → next_fd t ≤ fd → lookup fd t ≡ none
unfolding lookup
lookup-above [] fd h = refl
lookup-above ((at, file) ∷ t) fd h = ground (arith, lookup-above t fd (omega arith))

dup-above : (t : Assoc ℕ) (o : Option ℕ) (n : ℕ) → (dup t o).0 ≡ some n → lookup n t ≡ none
dup-above t none n e = cc
dup-above t (some f) n e = lookup-above t n (ground arith)

sample-IsAllocator : IsAllocator sample
sample-IsAllocator = record {
  create-unused = λ t f. lookup-above t (next_fd t) (omega arith);
  dup-unused = λ t fd n e. dup-above t (lookup fd t) n e;
}

call-Promised_example :
    (es : List (Edit ℕ)) × Promised sample emulate_dup3 as_four
      (view start)
      es
      (call emulate_dup3 as_four start).0
    × ((j : ℕ) → view (call emulate_dup3 as_four start).1 j ≡ edits es (view start) j)
call-Promised_example =
    call-Promised sample-IsFileTable sample-IsAllocator emulate_dup3 as_four start start-IsTracked

handle_intr-Made_example :
    (IsForeign sample arm_convention 2 start.cpu
      × (handle_intr arm_convention 2 start ≡ (hook_next, start)))
    ⊎ ((k : Call) × (args : Args) × Asks sample arm_convention 2 start.cpu k args
        × Made arm_convention k args start (handle_intr arm_convention 2 start))
handle_intr-Made_example =
    handle_intr-Made sample-IsFileTable sample-IsAllocator sample-HoldsWrites arm_convention 2 start
      start-IsTracked

new_kernel-Runs_example :
    Runs sample arm64_convention
      (bare start)
      rounds
      (view (run_all arm64_convention rounds (new_kernel (λ c. true) start).1))
new_kernel-Runs_example =
    new_kernel-Runs sample-IsFileTable sample-IsAllocator sample-HoldsWrites arm64_convention
      (λ c. true) rounds start taken
