-- ===== src/Tests/Dispatch.antt =====
-- Syscalls and interrupts on the sample machine.
use microdbg_linux.Base.{ℕ, zero, suc, arith, ◌≡◌, some, true, refl, List, [], ◌∷◌}
use microdbg_linux.Syscall.{Args, call, emulate_close, emulate_dup3, emulate_read}
use microdbg_linux.Io.Ends.{Advances}
use microdbg_linux.Syscall.Ending.{IsProgressing}
use microdbg_linux.Syscall.Returns.{IsReturn, call-IsReturn}
use microdbg_linux.Syscall.Reports.{Settled, call-Settled}
use microdbg_linux.Kernel.{handle_intr, arm_convention, arm64_convention}
use microdbg_linux.Kernel.Dispatch.{Answered, handle_intr-Answered}
use microdbg_linux.Kernel.Life.{new_kernel, new_kernel-IsTracked}
use microdbg_linux.Kernel.Tracked.{Round, run_all}
use microdbg_linux.Syscall.Tracked.{call-IsTracked}
use microdbg_linux.Fcntl.Tracked.{IsTracked}
use microdbg_linux.Futex.System.{Reached}
use microdbg_linux.Tests.Sample.{
  Bytes, byte_at, read_byte, start, sample-HoldsWrites, sample-IsFileTable, sample, start-IsTracked,
}

abbrev of_three : Args
of_three = record { a0 = 3; a1 = 0; a2 = 0; a3 = 0; a4 = 0; a5 = 0 }

call-Settled_example :
    Settled 0 (call emulate_close of_three start).0 (call emulate_close of_three start).1.errno
call-Settled_example = call-Settled emulate_close of_three start

handle_intr-Answered_example : Answered arm_convention (handle_intr arm_convention 2 start)
handle_intr-Answered_example = handle_intr-Answered sample-HoldsWrites arm_convention 2 start

-- The descriptor 3 is duplicated as 4.
abbrev pub as_four : Args
as_four = record { a0 = 3; a1 = 4; a2 = 524288; a3 = 0; a4 = 0; a5 = 0 }

call-IsTracked_example : IsTracked (call emulate_dup3 as_four start).1
call-IsTracked_example =
    call-IsTracked sample-IsFileTable emulate_dup3 as_four start start-IsTracked

-- The interrupt of a close of the descriptor 3, twice.
abbrev close_three : Round sample
close_three = record {
  intno = 2;
  memory = [];
  host = ([], []);
  cpu = (18, 57) ∷ (10, 3) ∷ (11, 0) ∷ (12, 0) ∷ (13, 0) ∷ (14, 0) ∷ (15, 0) ∷ [];
  events = [];
}

abbrev pub rounds : List (Round sample)
rounds = close_three ∷ close_three ∷ []

pub taken : (new_kernel (λ c. true) start).0 ≡ some arm64_convention
unfolding new_kernel
taken = refl

new_kernel-IsTracked_example :
    let x = (new_kernel (λ c. true) start).1 in
    Reached x [] × IsTracked (run_all arm64_convention rounds x)
new_kernel-IsTracked_example =
    new_kernel-IsTracked sample-IsFileTable (λ c. true) arm64_convention rounds start taken

-- Five bytes of the descriptor 3 are read to the address 100.
abbrev five_bytes : Args
five_bytes = record { a0 = 3; a1 = 100; a2 = 5; a3 = 0; a4 = 0; a5 = 0 }

pub byte-Advances : (host : Bytes) → Advances (read_byte host).0
byte-Advances ([], out) = tt
byte-Advances (b ∷ bs, out) = omega arith

pub memory-Advances : (addr : ℕ) → Advances (byte_at addr)
memory-Advances zero = omega arith
memory-Advances (suc zero) = omega arith
memory-Advances (suc (suc k)) = tt

sample-IsProgressing : IsProgressing sample
sample-IsProgressing = record {
  file_reads = λ host file n some_wanted. byte-Advances host;
  random_reads = λ host n some_wanted. byte-Advances host;
  memory_reads = λ memory addr n some_wanted. memory-Advances addr;
}

call-IsReturn_example : IsReturn (call emulate_read five_bytes start).0
call-IsReturn_example = call-IsReturn sample-IsProgressing emulate_read five_bytes start refl
