-- ===== src/Services/Mapped.antt =====
-- What a mapping of kernel/mman.go holds of its file.
use microdbg_linux.Base.{
  ℕ, ◌<◌, ◌≡◌, refl, some, List, leb, arith, min, if◌then◌else◌, Bool, true, false,
}
use microdbg_linux.Base.Lists.{length, take}
use microdbg_linux.Machine.{Machine}
use microdbg_linux.Errno.{enodev, code}
use microdbg_linux.Exec.{State, Outcome, done, failed, ◌>>=◌}
use microdbg_linux.Io.{Moved, moved, error, endless}
use microdbg_linux.Io.Total.{IsPipe}
use microdbg_linux.Io.Moves.{copy_n-moves}
use microdbg_linux.Fcntl.Transfer.{Sides, file_source, memory_sink}
use microdbg_linux.Fcntl.Moves.{sides}
use microdbg_linux.Services.Mman.{load, or_unmap}

module _ {M : Machine} (addr len : ℕ) (file : M.File) (s : State M) where
  -- The memory behind the copy of `bs`: with the bytes, and freed where the file was too short.
  abbrev pub Loaded :
      IsPipe (file_source M file) (memory_sink M addr) len
      → List ℕ
      → Bool
      → Outcome ℕ × State M
      → Type 0
  Loaded pipe bs true (o, s') =
      (o ≡ done addr)
      × (pipe.stored (min len (length bs)) (sides s') ≡ take len bs)
      × (s'.errno ≡ s.errno)
  Loaded pipe bs false (o, s') =
      (o ≡ failed)
      × (s'.errno ≡ code enodev)
      × ((memory : M.Memory) × (pipe.stored (min len (length bs)) (s'.host, memory) ≡ take len bs)
          × (s'.memory ≡ (M.map_free memory addr len).1))

  or_unmap-Loaded :
      (pipe : IsPipe (file_source M file) (memory_sink M addr) len)
      → (bs : List ℕ) (fits : Bool) (r : Moved) (x : Sides M)
      → r ≡ (if fits then moved len else error)
      → pipe.stored (min len (length bs)) x ≡ take len bs
      → Loaded pipe bs fits (or_unmap addr len r (record s { host = x.0; memory = x.1 }))
  unfolding or_unmap ◌>>=◌
  or_unmap-Loaded pipe bs true (moved n) x e kept = (refl, kept, refl)
  or_unmap-Loaded pipe bs true error x e kept = cc
  or_unmap-Loaded pipe bs true endless x e kept = cc
  or_unmap-Loaded pipe bs false (moved n) x e kept = cc
  or_unmap-Loaded pipe bs false error x e kept = (refl, refl, (x.1, kept, refl))
  or_unmap-Loaded pipe bs false endless x e kept = cc

  -- Between a file and a region of memory that report no error on the first `len` bytes, a new region
  -- of positive length gets the first `len` bytes of the file and its address is the result, with the
  -- error number as before; where the file has fewer, the call fails with ENODEV and the region is
  -- freed.
  pub load-Loaded :
      (pipe : IsPipe (file_source M file) (memory_sink M addr) len)
      → len < 9223372036854775808
      → pipe.Ready (sides s)
      → let bs = pipe.pending 0 (sides s) in
        Loaded pipe bs (leb len (length bs)) (load addr len (some file) s)
  unfolding load ◌>>=◌
  load-Loaded pipe small ready =
      let (result, kept) = copy_n-moves _ _ len pipe len (sides s) small ready (omega arith) in
      or_unmap-Loaded pipe (pipe.pending 0 (sides s)) _ _ _ result kept
