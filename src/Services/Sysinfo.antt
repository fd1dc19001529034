-- ===== src/Services/Sysinfo.antt =====
-- kernel/sysinfo.go
use microdbg_linux.Base.{ℕ, ◌%◌, List, [], ◌∷◌}
use microdbg_linux.Machine.{Machine, Kind, VirtualMemory, SwapMemory}
use microdbg_linux.Errno.{einval}
use microdbg_linux.Exec.{Exec, pure, or_fail, guard, on_host, on_memory, ◌>>=◌, ◌>>◌}

-- The struct `sysinfo`, with the loads and the padding that stay zero.
abbrev pub sysinfo_fields : ℕ → VirtualMemory → SwapMemory → ℕ → List (Kind × ℕ)
sysinfo_fields uptime vm sm procs =
    (Kind.int, uptime)
    ∷ (Kind.int, 0)
    ∷ (Kind.int, 0)
    ∷ (Kind.int, 0)
    ∷ (Kind.int, vm.total)
    ∷ (Kind.int, vm.free)
    ∷ (Kind.int, vm.shared)
    ∷ (Kind.int, vm.buffers)
    ∷ (Kind.int, sm.total)
    ∷ (Kind.int, sm.free)
    ∷ (Kind.int16, procs % 65536)
    ∷ (Kind.bytes 22, 0)
    ∷ []

module _ {M : Machine} where
  unfoldable pub sysinfo : ℕ → Exec M ℕ
  sysinfo info = do
    up ← on_host M.uptime
    uptime ← or_fail einval up
    virtual ← on_host M.virtual_memory
    vm ← or_fail einval virtual
    swap ← on_host M.swap_memory
    sm ← or_fail einval swap
    listed ← on_host M.pids
    procs ← or_fail einval listed
    ok ← on_memory (λ memory. M.write memory info (sysinfo_fields uptime vm sm procs))
    guard ok einval
    pure 0
