-- ===== src/Services/Ioctl.antt =====
-- kernel/ioctl.go
use microdbg_linux.Base.{ℕ}
use microdbg_linux.Machine.{Machine}
use microdbg_linux.Errno.{ebadf, einval, enotty}
use microdbg_linux.Exec.{Exec, pure, or_fail, guard, gets, on_host_memory, ◌>>=◌, ◌>>◌}

module _ {M : Machine} where
  unfoldable pub ioctl : ℕ → ℕ → ℕ → Exec M ℕ
  ioctl fd cmd arg = do
    found ← gets (λ s. M.get_file s.files fd)
    file ← or_fail ebadf found
    guard (M.is_control file) enotty
    ok ← on_host_memory (λ host memory. M.control host memory file cmd arg)
    guard ok einval
    pure 0
