-- ===== src/Machine.antt =====
-- What the code uses of `github.com/wnxd/microdbg`, of the host and of the C library. None of it
-- is in the repository, so it is a parameter: an interface of types and operations.
--
-- The outside state has four parts. `Files` is the debugger's descriptor table, `Memory` the
-- emulated memory, `Host` what lies behind file values (the file system, pipes, sockets, clocks,
-- the source of random bytes), `Cpu` the registers and tasks. An operation takes the parts that it
-- reads and returns the parts that it can change.
use microdbg_linux.Base.{ℕ, Bool, Option, List}

-- emulator.Arch
pub data Arch : Type 0 where
  arm arm64 x86 x86_64 other_arch : Arch

-- The registers that the code names.
pub data Reg : Type 0 where
  arm_r0 arm_r1 arm_r2 arm_r3 arm_r4 arm_r5 arm_r7 arm_c13_c0_3 : Reg
  arm64_x0 arm64_x1 arm64_x2 arm64_x3 arm64_x4 arm64_x5 arm64_x8 arm64_tpidr_el0 : Reg
  x86_gs x86_fs : Reg

-- The result of opening a file; `exists` is an error for which `errors.Is(err, fs.ErrExist)`.
pub data Opened {ℓ} (F : Type ℓ) : Type ℓ where
  opened : F → Opened F
  exists : Opened F
  failed : Opened F

-- The end of one `Read`: the source goes on, is at `io.EOF`, or failed.
pub data End : Type 0 where
  more at_eof broken : End

-- The Go type of one field of a value that `MemWrite` stores or `MemExtract` loads. The library
-- lays the fields out for the architecture; the code gives their types and their order.
pub data Kind : Type 0 where
  int16 int32 int64 int uintptr : Kind
  bytes : ℕ → Kind

-- fs.FileMode.Type(), by the constant that it equals: `device_char` is ModeDevice|ModeCharDevice, which
-- is what a character device of package os has, and `char_device` the bit ModeCharDevice alone.
pub data ModeType : Type 0 where
  device_char char_device device dir named_pipe symlink socket other_type : ModeType

-- fs.FileInfo: `Mode().Perm()`, `Mode().Type()`, `Size()` and `ModTime().UnixNano()`.
pub record Info : Type 0 where
  pub perm : ℕ
  pub mode_type : ModeType
  pub size : ℕ
  pub mod_nano : ℕ

-- socket.Network
pub data Network : Type 0 where
  unix unix_gram tcp udp : Network

-- What `gopsutil` reports: the numbers of `mem.VirtualMemory` and `mem.SwapMemory`.
pub record VirtualMemory : Type 0 where
  pub total : ℕ
  pub free : ℕ
  pub shared : ℕ
  pub buffers : ℕ

pub record SwapMemory : Type 0 where
  pub total : ℕ
  pub free : ℕ

-- time.Now(): `Unix()`, `Nanosecond()` and the offset of `Zone()`.
pub record Now : Type 0 where
  pub unix_seconds : ℕ
  pub nanosecond : ℕ
  pub zone_offset : ℕ

-- The constants of `filesystem.FileFlag`.
pub record FileFlags : Type 0 where
  pub o_rdonly : ℕ
  pub o_wronly : ℕ
  pub o_rdwr : ℕ
  pub o_append : ℕ
  pub o_create : ℕ
  pub o_excl : ℕ
  pub o_sync : ℕ
  pub o_trunc : ℕ

pub record Machine : Type 1 where
  pub Files : Type 0
  pub Memory : Type 0
  pub Host : Type 0
  pub Cpu : Type 0
  pub File : Type 0
  pub Fs : Type 0
  pub arch : Arch
  pub file_flags : FileFlags
  -- GetFile, CreateFileDescriptor, DupFile, Dup2File, CloseFileDescriptor of the debugger
  pub get_file : Files → ℕ → Option File
  pub create_fd : Files → File → ℕ × Files
  pub dup_file : Files → ℕ → Option ℕ × Files
  pub dup2_file : Files → Host → ℕ → ℕ → Bool × Files × Host
  pub close_fd : Files → ℕ → Option File × Files
  -- type assertions on a file value
  pub as_fs : File → Option Fs
  pub as_io_fs : File → Option Fs
  pub as_readlink_fs : File → Option Fs
  pub is_seeker : File → Bool
  pub is_reader : File → Bool
  pub is_writer : File → Bool
  pub is_read_file : File → Bool
  pub is_control : File → Bool
  -- the debugger's file system, and whether it is a `filesystem.ReadlinkFS`
  pub get_fs : Host → Fs
  pub fs_has_readlink : Fs → Bool
  -- OpenFile of the debugger and of a file system, Readlink, fs.Stat
  pub open_file : Host → List ℕ → ℕ → ℕ → Opened File × Host
  pub fs_open_file : Host → Fs → List ℕ → ℕ → ℕ → Opened File × Host
  pub readlink : Host → Fs → List ℕ → Option (List ℕ) × Host
  pub fs_stat : Host → Fs → List ℕ → Option Info × Host
  -- methods of a file value
  pub file_close : Host → File → Host
  pub file_stat : Host → File → Option Info × Host
  pub seek : Host → File → ℕ → ℕ → Option ℕ × Host
  pub read_file : Host → File → ℕ → (List ℕ × End) × Host
  pub write_file : Host → File → List ℕ → (ℕ × Bool) × Host
  pub control : Host → Memory → File → ℕ → ℕ → Bool × Host × Memory
  -- os.Pipe and NewSocket
  pub pipe : Host → Option (File × File) × Host
  pub new_socket : Host → Network → Option File × Host
  -- emulated memory: MemReadString, MemReadPtr, MemWritePtr, MemExtract, MemWrite, and the
  -- ReadAt and WriteAt of a pointer
  pub read_string : Memory → ℕ → Option (List ℕ)
  pub read_ptr : Memory → ℕ → ℕ → Option (List ℕ)
  pub write_ptr : Memory → ℕ → List ℕ → Bool × Memory
  pub extract : Memory → ℕ → List Kind → Option (List ℕ)
  -- what a MemExtract whose error is dropped has stored in a value of zeros, field by field from the
  -- first on, whether it reads them all or not
  pub extract_into : Memory → ℕ → List Kind → List ℕ
  pub write : Memory → ℕ → List (Kind × ℕ) → Bool × Memory
  pub read_at : Memory → ℕ → ℕ → List ℕ × End
  pub write_at : Memory → ℕ → List ℕ → (ℕ × Bool) × Memory
  -- MapAlloc, MapFree, MemMap, MemUnmap, MemProtect; the region's address on success
  pub map_alloc : Memory → ℕ → ℕ → Option ℕ × Memory
  pub map_free : Memory → ℕ → ℕ → Bool × Memory
  pub mem_map : Memory → ℕ → ℕ → ℕ → Option ℕ × Memory
  pub mem_unmap : Memory → ℕ → ℕ → Bool × Memory
  pub mem_protect : Memory → ℕ → ℕ → ℕ → Bool × Memory
  pub stack_size : ℕ
  -- registers, the task's number, and the debugger's own translation of syscall numbers
  pub reg_read : Cpu → Reg → Option ℕ
  pub reg_write : Cpu → Reg → ℕ → Cpu
  pub task_id : Cpu → ℕ
  pub syscall_number : ℕ → ℕ
  -- C.clock_gettime (its result, seconds, nanoseconds), time.Now, os.Getpid
  pub clock_gettime : Host → ℕ → (ℕ × ℕ × ℕ) × Host
  pub now : Host → Now × Host
  pub pid : ℕ
  -- gopsutil: host.Uptime, mem.VirtualMemory, mem.SwapMemory, the number of process.Pids
  pub uptime : Host → Option ℕ × Host
  pub virtual_memory : Host → Option VirtualMemory × Host
  pub swap_memory : Host → Option SwapMemory × Host
  pub pids : Host → Option ℕ × Host
  -- crypto/rand: a `Read` of `rand.Reader`, and `rand.Read`
  pub random_read : Host → ℕ → (List ℕ × End) × Host
  pub random_fill : Host → ℕ → Option (List ℕ) × Host
  -- tasks: TaskFork, RetWrite, the stack pointer's register, CallTaskOf, ArgWrite, Run, ID, Close,
  -- and the wait for Done (false where the task never ends)
  pub Task : Type 0
  pub task_fork : Cpu → Option Task × Cpu
  pub ret_write : Cpu → Task → Cpu
  pub sp_write : Cpu → Task → ℕ → Cpu
  pub task_reg_write : Cpu → Task → Reg → ℕ → Cpu
  pub call_task_of : Cpu → Task → ℕ → Bool × Cpu
  pub arg_write : Cpu → Task → ℕ → Cpu
  pub task_run : Cpu → Task → Bool × Cpu
  pub task_number : Task → ℕ
  pub task_close : Cpu → Task → Cpu
  pub task_wait : Cpu → Task → Bool × Cpu
  -- whether Go's `make` gives a slice of so many bytes; else it panics
  pub makes : ℕ → Bool
  -- the interrupt number ARM_INTR_EXCP_SWI
  pub intr_swi : ℕ
