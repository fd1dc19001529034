-- ===== src/Services/Random.antt =====
-- kernel/random.go
use microdbg_linux.Base.{ℕ, min, List, if◌then◌else◌}
use microdbg_linux.Base.Lists.{length}
use microdbg_linux.Base.Word.{has_bits}
use microdbg_linux.Machine.{Machine, End}
use microdbg_linux.Io.{copy_n}
use microdbg_linux.Errno.{eagain}
use microdbg_linux.Exec.{Exec, pure, or_fail, on_host, on_memory, ◌>>=◌, ◌>>◌}
use microdbg_linux.Fcntl.Transfer.{Sides, memory_sink, or_moved, on_sides}

abbrev pub grnd_random : ℕ
grnd_random = 1

abbrev pub random_source : (M : Machine) → ℕ → ℕ → Sides M → (List ℕ × End) × Sides M
random_source M off n (host, memory) = let (r, host') = M.random_read host n in (r, (host', memory))

module _ {M : Machine} where
  -- The result of the write to memory is not looked at.
  unfoldable pub getrandom : ℕ → ℕ → ℕ → Exec M ℕ
  unfolding or_moved copy_n
  getrandom buf count flags =
      if has_bits flags grnd_random
      then (do
        result ← on_sides (copy_n (random_source M) (memory_sink M buf) count)
        or_moved eagain result)
      else do
        filled ← on_host (λ host. M.random_fill host (min count 256))
        bytes ← or_fail eagain filled
        on_memory (λ memory. M.write_ptr memory buf bytes)
        pure (length bytes)
