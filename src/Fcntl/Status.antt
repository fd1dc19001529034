-- ===== src/Fcntl/Status.antt =====
-- kernel/fcntl.go: file status, `fstatat3264`, `fstatat64`, `fstat3264` and `fstat64`.
use microdbg_linux.Base.{ℕ, List, [], ◌∷◌, ◌++◌, bit_or}
use microdbg_linux.Base.Word.{div_signed, mod_signed}
use microdbg_linux.Machine.{Machine, Kind, Info, ModeType}
use microdbg_linux.Machine.{
  device_char, char_device, device, dir, named_pipe, symlink, socket, other_type,
}
use microdbg_linux.Errno.{ebadf, enoent}
use microdbg_linux.Exec.{Exec, pure, or_fail, gets, on_host, on_memory, ◌>>=◌, ◌>>◌}
use microdbg_linux.Fcntl.Paths.{path_at, directory}

abbrev pub s_ififo : ℕ
s_ififo = 0x1000

abbrev pub s_ifchr : ℕ
s_ifchr = 0x2000

abbrev pub s_ifdir : ℕ
s_ifdir = 0x4000

abbrev pub s_ifblk : ℕ
s_ifblk = 0x6000

abbrev pub s_ifreg : ℕ
s_ifreg = 0x8000

abbrev pub s_iflnk : ℕ
s_iflnk = 0xA000

abbrev pub s_ifsock : ℕ
s_ifsock = 0xC000

-- `timespec` of kernel/time.go
pub record Timespec : Type 0 where
  pub tv_sec : ℕ
  pub tv_nsec : ℕ

abbrev pub timespec_fields : Timespec → List (Kind × ℕ)
timespec_fields t = (Kind.int, t.tv_sec) ∷ (Kind.int, t.tv_nsec) ∷ []

-- `stat3264` and `stat64`: the fields that the calls set. All others are zero in the source, and
-- `fields` writes them so, the padding included, in the order of the declarations.
pub record Stat : Type 0 where
  pub st_mode : ℕ
  pub st_size : ℕ
  pub st_atim : Timespec
  pub st_mtim : Timespec
  pub st_ctim : Timespec

abbrev pub times : Stat → List (Kind × ℕ)
times st = timespec_fields st.st_atim ++ timespec_fields st.st_mtim ++ timespec_fields st.st_ctim

abbrev pub stat3264_fields : Stat → List (Kind × ℕ)
stat3264_fields st =
    (Kind.int64, 0)
    ∷ (Kind.int32, 0)
    ∷ (Kind.int, 0)
    ∷ (Kind.int32, st.st_mode)
    ∷ (Kind.int32, 0)
    ∷ (Kind.int32, 0)
    ∷ (Kind.int32, 0)
    ∷ (Kind.int64, 0)
    ∷ (Kind.int32, 0)
    ∷ (Kind.int64, st.st_size)
    ∷ (Kind.int, 0)
    ∷ (Kind.int64, 0)
    ∷ (times st ++ ((Kind.int64, 0) ∷ []))

abbrev pub stat64_fields : Stat → List (Kind × ℕ)
stat64_fields st =
    (Kind.int, 0)
    ∷ (Kind.int, 0)
    ∷ (Kind.int32, st.st_mode)
    ∷ (Kind.int32, 0)
    ∷ (Kind.int32, 0)
    ∷ (Kind.int32, 0)
    ∷ (Kind.int, 0)
    ∷ (Kind.int, 0)
    ∷ (Kind.int, st.st_size)
    ∷ (Kind.int32, 0)
    ∷ (Kind.int32, 0)
    ∷ (Kind.int, 0)
    ∷ (times st ++ ((Kind.int32, 0) ∷ (Kind.int32, 0) ∷ []))

-- The switch on `mode.Type()`.
unfoldable pub type_bits : ModeType → ℕ
type_bits device_char = s_ifreg
type_bits char_device = s_ifchr
type_bits device = s_ifblk
type_bits dir = s_ifdir
type_bits named_pipe = s_ififo
type_bits symlink = s_iflnk
type_bits socket = s_ifsock
type_bits other_type = s_ifreg

unfoldable pub mode_of : Info → ℕ
unfolding type_bits
mode_of info = bit_or info.perm (type_bits info.mode_type)

unfoldable pub timespec_of : ℕ → Timespec
unfolding div_signed mod_signed
timespec_of nano = record {
  tv_sec = div_signed nano 1000000000;
  tv_nsec = mod_signed nano 1000000000;
}

unfoldable pub stat_of : Info → Stat
unfolding mode_of timespec_of
stat_of info =
    let ts = timespec_of info.mod_nano in
    record { st_mode = mode_of info; st_size = info.size; st_atim = ts; st_mtim = ts; st_ctim = ts }

module _ {M : Machine} where
  -- The two ways to the file's information.
  unfoldable pub info_at : ℕ → ℕ → Exec M Info
  unfolding path_at directory
  info_at dfd filename = do
    path ← path_at filename
    fs ← directory M.as_io_fs dfd
    result ← on_host (λ host. M.fs_stat host fs path)
    or_fail enoent result

  unfoldable pub info_of : ℕ → Exec M Info
  info_of fd = do
    found ← gets (λ s. M.get_file s.files fd)
    file ← or_fail ebadf found
    result ← on_host (λ host. M.file_stat host file)
    or_fail enoent result

  -- `dbg.MemWrite(statbuf, stat)`, whose result is not looked at.
  unfoldable pub put_stat : ℕ → List (Kind × ℕ) → Exec M ℕ
  put_stat statbuf fields = do on_memory (λ memory. M.write memory statbuf fields); pure 0

  unfoldable pub fstatat3264 : ℕ → ℕ → ℕ → ℕ → Exec M ℕ
  unfolding info_at put_stat stat_of
  fstatat3264 dfd filename statbuf flag = do
    info ← info_at dfd filename
    put_stat statbuf (stat3264_fields (stat_of info))

  unfoldable pub fstatat64 : ℕ → ℕ → ℕ → ℕ → Exec M ℕ
  unfolding info_at put_stat stat_of
  fstatat64 dfd filename statbuf flag = do
    info ← info_at dfd filename
    put_stat statbuf (stat64_fields (stat_of info))

  unfoldable pub fstat3264 : ℕ → ℕ → Exec M ℕ
  unfolding info_of put_stat stat_of
  fstat3264 fd statbuf = do info ← info_of fd; put_stat statbuf (stat3264_fields (stat_of info))

  unfoldable pub fstat64 : ℕ → ℕ → Exec M ℕ
  unfolding info_of put_stat stat_of
  fstat64 fd statbuf = do info ← info_of fd; put_stat statbuf (stat64_fields (stat_of info))
