-- ===== src/Services/Clock.antt =====
-- kernel/time.go
use microdbg_linux.Base.{ℕ, ◌/◌, List, [], ◌∷◌, ◌==◌, if◌then◌else◌}
use microdbg_linux.Base.Word.{to_32, div_signed}
use microdbg_linux.Machine.{Machine, Kind}
use microdbg_linux.Exec.{Exec, pure, on_host, on_memory, ◌>>=◌, ◌>>◌}
use microdbg_linux.Fcntl.Status.{timespec_fields}

-- `timeval` and `timezone`
pub record Timeval : Type 0 where
  pub tv_sec : ℕ
  pub tv_usec : ℕ

pub record Timezone : Type 0 where
  pub tz_minuteswest : ℕ
  pub tz_dsttime : ℕ

abbrev pub timeval_fields : Timeval → List (Kind × ℕ)
timeval_fields t = (Kind.int, t.tv_sec) ∷ (Kind.int, t.tv_usec) ∷ []

abbrev pub timezone_fields : Timezone → List (Kind × ℕ)
timezone_fields z = (Kind.int32, z.tz_minuteswest) ∷ (Kind.int32, z.tz_dsttime) ∷ []

module _ {M : Machine} where
  -- The result of the C function is handed on, and no error number is set.
  unfoldable pub clock_gettime : ℕ → ℕ → Exec M ℕ
  clock_gettime clock ts = do
    (r, sec, nsec) ← on_host (λ host. M.clock_gettime host clock)
    if r == 0
        then on_memory (λ memory.
          M.write memory ts (timespec_fields (record { tv_sec = sec; tv_nsec = nsec })))
          >> pure r
        else pure r

  unfoldable pub gettimeofday : ℕ → ℕ → Exec M ℕ
  unfolding div_signed
  gettimeofday tv tz = do
    now ← on_host M.now
    on_memory (λ memory.
        M.write memory tv
          (timeval_fields (record { tv_sec = now.unix_seconds; tv_usec = now.nanosecond / 1000 })))
    on_memory (λ memory. M.write memory tz (
        timezone_fields
          (record { tz_minuteswest = to_32 (div_signed now.zone_offset 60); tz_dsttime = 0 })))
    pure 0
