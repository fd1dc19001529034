-- ===== src/Tests/Sample.antt =====
-- The parameters of the models, as concrete functions, and what is assumed of them.
use microdbg_linux.Base.{
  leb, ℕ, zero, suc, ◌+◌, ◌≤◌, ◌≡◌, refl, sym, ap, ◌∙◌, arith, Bool, true, false, Option, none,
  some, List, [], ◌∷◌, ◌++◌, map, ◌==◌, if◌then◌else◌, Option-cases, ==-self, inl, inr,
}
use microdbg_linux.Base.Lists.{length}
use microdbg_linux.Base.Word.{bytes_of_32}
use microdbg_linux.Base.Assoc.{Assoc, lookup, insert, erase, lookup-insert, lookup-erase}
use microdbg_linux.Machine.{
  Machine, Reg, Arch, FileFlags, End, more, at_eof, opened, ModeType, Info,
}
use microdbg_linux.Machine.{
  arm_r0, arm_r1, arm_r2, arm_r3, arm_r4, arm_r5, arm_r7, arm_c13_c0_3, arm64_x0, arm64_x1,
  arm64_x2, arm64_x3, arm64_x4, arm64_x5, arm64_x8, arm64_tpidr_el0, x86_gs, x86_fs,
}
use microdbg_linux.Exec.{State, Event}
use microdbg_linux.Io.Total.{EndsWell}
use microdbg_linux.Fcntl.Tracked.{IsFileTable, IsTracked}
use microdbg_linux.Kernel.Dispatch.{HoldsWrites}

abbrev reg_index : Reg → ℕ
reg_index arm_r0 = 0
reg_index arm_r1 = 1
reg_index arm_r2 = 2
reg_index arm_r3 = 3
reg_index arm_r4 = 4
reg_index arm_r5 = 5
reg_index arm_r7 = 7
reg_index arm_c13_c0_3 = 8
reg_index arm64_x0 = 10
reg_index arm64_x1 = 11
reg_index arm64_x2 = 12
reg_index arm64_x3 = 13
reg_index arm64_x4 = 14
reg_index arm64_x5 = 15
reg_index arm64_x8 = 18
reg_index arm64_tpidr_el0 = 19
reg_index x86_gs = 20
reg_index x86_fs = 21

-- The descriptor table: a number above all that are in use.
abbrev pub next_fd : Assoc ℕ → ℕ
next_fd [] = 3
next_fd ((fd, file) ∷ t) = suc (fd + next_fd t)

abbrev pub dup : Assoc ℕ → Option ℕ → Option ℕ × Assoc ℕ
dup t none = (none, t)
dup t (some f) = (some (next_fd t), insert (next_fd t) f t)

-- What lies behind the files: the bytes to read, and those that were written.
abbrev pub Bytes : Type 0
Bytes = List ℕ × List ℕ

abbrev dup2 : Assoc ℕ → Bytes → ℕ → Option ℕ → Bool × Assoc ℕ × Bytes
dup2 t h new none = (false, t, h)
dup2 t h new (some f) = (true, insert new f t, h)

abbrev shut : Assoc ℕ → ℕ → Option ℕ → Option ℕ × Assoc ℕ
shut t fd none = (none, t)
shut t fd (some f) = (some f, erase fd t)

abbrev pub read_byte : Bytes → (List ℕ × End) × Bytes
read_byte ([], out) = (([], at_eof), ([], out))
read_byte (b ∷ bs, out) = ((b ∷ [], more), (bs, out))

-- Two bytes of memory to read, at the addresses 0 and 1.
abbrev pub byte_at : ℕ → List ℕ × End
byte_at zero = (7 ∷ [], more)
byte_at (suc zero) = (9 ∷ [], more)
byte_at (suc (suc k)) = ([], at_eof)

abbrev flag_numbers : FileFlags
flag_numbers = record {
  o_rdonly = 0;
  o_wronly = 1;
  o_rdwr = 2;
  o_append = 8;
  o_create = 16;
  o_excl = 32;
  o_sync = 64;
  o_trunc = 128;
}

abbrev pub some_info : Info
some_info = record { perm = 420; mode_type = ModeType.other_type; size = 3; mod_nano = 1500000000 }

abbrev pub sample : Machine
sample = record {
  Files = Assoc ℕ;
  Memory = List ℕ;
  Host = Bytes;
  Cpu = Assoc ℕ;
  File = ℕ;
  Fs = Unit {0};
  arch = Arch.arm64;
  file_flags = flag_numbers;
  get_file = λ t fd. lookup fd t;
  create_fd = λ t f. (next_fd t, insert (next_fd t) f t);
  dup_file = λ t fd. dup t (lookup fd t);
  dup2_file = λ t h old new. dup2 t h new (lookup old t);
  close_fd = λ t fd. shut t fd (lookup fd t);
  as_fs = λ f. none;
  as_io_fs = λ f. none;
  as_readlink_fs = λ f. none;
  is_seeker = λ f. false;
  is_reader = λ f. true;
  is_writer = λ f. true;
  is_read_file = λ f. true;
  is_control = λ f. false;
  get_fs = λ h. tt;
  fs_has_readlink = λ fs. false;
  open_file = λ h path flags mode. (opened 1, h);
  fs_open_file = λ h fs path flags mode. (opened 1, h);
  readlink = λ h fs path. (none, h);
  fs_stat = λ h fs path. (some some_info, h);
  file_close = λ h f. h;
  file_stat = λ h f. (some some_info, h);
  seek = λ h f offset whence. (none, h);
  read_file = λ h f n. read_byte h;
  write_file = λ h f bs. ((length bs, true), (h.0, h.1 ++ bs));
  control = λ h m f op arg. (false, h, m);
  pipe = λ h. (some (5, 6), h);
  new_socket = λ h n. (some 7, h);
  read_string = λ m addr. some (addr ∷ []);
  read_ptr = λ m addr n. some (bytes_of_32 addr);
  write_ptr = λ m addr bs. (true, m);
  extract = λ m addr kinds. if addr == 0 then none else some (map (λ k. addr) kinds);
  extract_into = λ m addr kinds. if addr == 0 then [] else map (λ k. addr) kinds;
  write = λ m addr fields. (true, m);
  read_at = λ m addr n. byte_at addr;
  write_at = λ m addr bs. ((length bs, true), m ++ bs);
  map_alloc = λ m len prot. (some 4096, m);
  map_free = λ m addr len. (true, []);
  mem_map = λ m addr len prot. (some addr, m);
  mem_unmap = λ m addr len. (true, m);
  mem_protect = λ m addr len prot. (true, m);
  stack_size = 8192;
  reg_read = λ cpu r. lookup (reg_index r) cpu;
  reg_write = λ cpu r v. insert (reg_index r) v cpu;
  task_id = λ cpu. 1;
  syscall_number = λ n. n;
  clock_gettime = λ h clock. ((0, 5, 6), h);
  now = λ h. (record { unix_seconds = 5; nanosecond = 6000; zone_offset = 3600 }, h);
  pid = 42;
  uptime = λ h. (some 9, h);
  virtual_memory = λ h. (some (record { total = 8; free = 4; shared = 2; buffers = 1 }), h);
  swap_memory = λ h. (some (record { total = 8; free = 4 }), h);
  pids = λ h. (some 3, h);
  random_read = λ h n. read_byte h;
  random_fill = λ h n. (none, h);
  Task = Unit {0};
  task_fork = λ cpu. (some tt, cpu);
  ret_write = λ cpu task. cpu;
  sp_write = λ cpu task v. cpu;
  task_reg_write = λ cpu task r v. cpu;
  call_task_of = λ cpu task addr. (true, cpu);
  arg_write = λ cpu task v. cpu;
  task_run = λ cpu task. (true, cpu);
  task_number = λ task. 2;
  task_close = λ cpu task. cpu;
  task_wait = λ cpu task. (true, cpu);
  makes = λ n. leb n 281474976710656;
  intr_swi = 2;
}

pub sample-HoldsWrites : HoldsWrites sample
sample-HoldsWrites cpu r v =
    lookup-insert (reg_index r) (reg_index r) v cpu ∙ rw (==-self (reg_index r)) refl

pub sample-IsFileTable : IsFileTable sample
sample-IsFileTable = record {
  get-create = λ t f j. lookup-insert (next_fd t) j f t;
  get-dup = λ t fd j. elim (Option-cases (lookup fd t)) [
    | inl e ↦ rw e refl
    | inr (f, e) ↦ rw e (
        lookup-insert (next_fd t) j f t
        ∙ ap (λ (z : Option ℕ). if next_fd t == j then z else lookup j t) (sym e))
  ];
  get-dup2 = λ t h old new j. elim (Option-cases (lookup old t)) [
    | inl e ↦ rw e refl
    | inr (f, e) ↦ rw e (lookup-insert new j f t)
  ];
  dup2-open = λ t h old new e none_there. cc;
  get-close = λ t fd j. elim (Option-cases (lookup fd t)) [
    | inl e ↦ rw e refl
    | inr (f, e) ↦ rw e (lookup-erase fd j t)
  ];
}

pub reads_file :
    (h : Bytes)
    → ((read_byte h).0.0 ++ (read_byte h).1.0 ≡ h.0)
      × (length (read_byte h).0.0 ≤ 1)
      × EndsWell (read_byte h).0.1 (read_byte h).0.0 (read_byte h).1.0
reads_file ([], out) = (refl, omega arith, refl)
reads_file (b ∷ bs, out) = (refl, omega arith, omega arith)

abbrev pub start : State sample
start = record {
  files = (3, 1) ∷ [];
  memory = [];
  host = (1 ∷ 2 ∷ 3 ∷ 4 ∷ 5 ∷ [], []);
  cpu = (7, 57) ∷ (0, 3) ∷ (1, 0) ∷ (2, 0) ∷ (3, 0) ∷ (4, 0) ∷ (5, 0) ∷ [];
  errno = 0;
  flags = (3, 2) ∷ [];
  sigset = 6;
  sigtable = [];
  awaits = (8, record { ch = 0; ref = 1 }) ∷ [];
  bit_awaits = [];
  channels = 1;
  tasks = [];
  events = Event.received 8 ∷ Event.received 9 ∷ [];
}

pub start-IsTracked : IsTracked start
unfolding lookup
start-IsTracked = record { at = λ fd p e. ground arith }
