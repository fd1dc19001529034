-- ===== src/Lib.antt =====
-- microdbg-linux is a Linux kernel for programs that run under the debugger microdbg: it catches
-- the interrupts by which an emulated ARM or ARM64 program makes a syscall, and carries the
-- syscall out against the debugger's descriptors, memory, tasks and the host. This library
-- models it.
--
-- Parts and files (paths from the repository's root):
-- - kernel/kernel.go: Kernel. An interrupt of either convention (`armIntr`, `arm64Intr`) reads
--   the number and six arguments from registers, looks the number up, clears the error number,
--   makes the call and writes its result to the first register. Kernel/Dispatch has its
--   theorems; Kernel/Life has `NewKernel` and `Close`.
-- - kernel/syscall.go: Syscall. `get` is `Get`; Syscall/Methods has the methods `Emulate_...`,
--   `Reject` and `Ignore`, and `call` makes the one that `Get` gives. Syscall/Handlers says which
--   handler answers which call, on which arguments. Syscall/Discipline has
--   what all handlers that leave the descriptors alone have in common, and Obeys in Fcntl and
--   Services and Syscall/Waits that they do. Syscall/Ending and Syscall/Copying say which
--   handlers come back, and Syscall/Returns which syscalls. syscall.go: Syscall/Numbers.
--   errno.go: Errno.
-- - kernel/fcntl.go: Fcntl. Table has `dup3`, `fcntl`, `close`, `pipe2` and the map `flags`;
--   Paths `open`, `openat`, `faccessat`, `readlinkat` and `toFileFlag`; Transfer `lseek`,
--   `read`, `write`, `writev`; Status the four calls on file status. The Go function `open` is
--   `open_path`. View is the table of descriptors that the program sees, each a file with flags,
--   and what the calls promise to do to it; Edits, Refines and Commands have the handlers' part
--   of that, and Syscall/Refines and Kernel/Refines the syscalls' and the interrupts'.
-- - kernel/signal.go: Signal. kernel/futex.go: Futex, with System for the tasks that wait side
--   by side, Rendezvous and Addressed for the calls that a wake meets, Resume and Handover for
--   these calls when they go on, and BitRendezvous, BitVisits, BitAddressed and BitHandover for
--   those that wait on bit sets.
--   kernel/sched.go: Sched, with `execve` in Services/Process; Live has the goroutines behind
--   the clones. kernel/mman.go: Services/Mman, with Regions for the address space.
--   kernel/socket.go, ioctl.go, random.go, sysinfo.go, time.go, prctl.go, resource.go: the other
--   files of Services.
-- - gcc/: VaList. Std is gcc/std.go, Arm64 gcc/arm64/va.go, Amd64 gcc/x86_64/va.go; gcc/va.go
--   and the two one-line packages gcc/arm and gcc/x86 are in VaList itself. Places is the
--   calling convention, Bytes the sequence of bytes that a list stands for.
-- - Io writes out `io.Copy` and `io.CopyN` of Go's standard library. Base has words, bits, lists
--   and association lists.
--
-- State. Exec.State holds the kernel's own fields beside the outside state. A handler is a
-- function from a state to an outcome and a state: it is done with a result, has failed (the
-- source sets the error number and returns -1), has panicked, or has not returned. Maps are
-- association lists; a map behind a lock is read or changed in one action; a channel is the
-- number that `make` gave it. Every integer is its two's complement bit pattern, with 64 bits
-- for Go's `int` and `uintptr`.
--
-- Parameters. What is not in the repository, the debugger, the file system, the host's clocks
-- and random bytes and the emulator's memory, is the record Machine; what the theorems need of
-- it is a named hypothesis (IsFileTable, IsAllocator, HoldsWrites, IsPipe, IsProgressing,
-- IsAddressSpace, IsAlign, IsDecoder), and the machines of Tests/Sample, Tests/Mappings and
-- Tests/Moves meet those that the theorems on machines have. Its operations are functions: each
-- comes back. A type assertion on a file is a field of Machine. A destination of `io.Copy` is
-- written by its `Write` alone.
--
-- Bounds and fuel. A copy gets one more round than the bytes it may move, and a skip by reading
-- one more than the bytes it skips: each round moves a byte or more, unless the source gives
-- none and reports no error, and Io/Total and Io/Ends prove that the copies then end. The waits
-- recur on the list of events that they meet. With the event `closed` a wait learns that `Close`
-- has closed its channel, and both maps are empty then.
--
-- Not modelled: an operation of the debugger, the host or a file that blocks for ever, as a write
-- to a full pipe does; a wait that meets its timeout when its channel is closed already; writes
-- to a map after `Close`, which panic; the debugger's own record of hooks;
-- kernel/stddef.go, which only names integer types; internal/stream.go, which links to a
-- function of the debugger; float values, which are their bytes.
pub mod Base
pub mod Machine
pub mod Errno
pub mod Exec
pub mod Io
pub mod Fcntl
pub mod Signal
pub mod Services
pub mod Sched
pub mod Futex
pub mod Syscall
pub mod Kernel
pub mod VaList
pub mod Tests
