-- ===== src/Fcntl/Encoding.antt =====
-- What the record of a file status in kernel/fcntl.go keeps of the file's information.
use microdbg_linux.Base.{ℕ, ◌/◌, ◌%◌, ◌<◌, ◌≡◌, refl, bit_or, arith, ◌==◌, if◌then◌else◌}
use microdbg_linux.Base.Bits.{bit_or-field}
use microdbg_linux.Base.Word.{mod64, add64, mul64, div_mod_signed}
use microdbg_linux.Machine.{Info, ModeType}
use microdbg_linux.Machine.{
  device_char, char_device, device, dir, named_pipe, symlink, socket, other_type,
}
use microdbg_linux.Fcntl.Status.{Timespec, Stat, type_bits, stat_of}

-- The reader's side: what a program makes of the mode, the size and the times of a status.
abbrev pub type_of : ℕ → ModeType
type_of n =
    if n == 1
    then named_pipe
    else if n == 2
    then char_device
    else if n == 4
    then dir
    else if n == 6
    then device
    else if n == 10
    then symlink
    else if n == 12
    then socket
    else other_type

abbrev pub nano_of : Timespec → ℕ
nano_of t = add64 (mul64 t.tv_sec 1000000000) t.tv_nsec

abbrev pub info_in : Stat → Info
info_in st = record {
  perm = st.st_mode % 4096;
  mode_type = type_of (st.st_mode / 4096);
  size = st.st_size;
  mod_nano = nano_of st.st_mtim;
}

-- What the mode of a status says of a type: a character device of package os, whose type has two
-- bits, matches none of the cases, and is a regular file as all other types are.
abbrev pub reported : ModeType → ModeType
reported device_char = other_type
reported char_device = char_device
reported device = device
reported dir = dir
reported named_pipe = named_pipe
reported symlink = symlink
reported socket = socket
reported other_type = other_type

-- A mode whose permissions leave the type's bits free gives both back.
mode_of-parts :
    (p : ℕ) (t : ModeType)
    → p < 4096
    → (bit_or p (type_bits t) % 4096 ≡ p) × (type_of (bit_or p (type_bits t) / 4096) ≡ reported t)
unfolding type_bits
mode_of-parts p device_char h = let e = bit_or-field 12 p 8 h in ground arith
mode_of-parts p char_device h = let e = bit_or-field 12 p 2 h in ground arith
mode_of-parts p device h = let e = bit_or-field 12 p 6 h in ground arith
mode_of-parts p dir h = let e = bit_or-field 12 p 4 h in ground arith
mode_of-parts p named_pipe h = let e = bit_or-field 12 p 1 h in ground arith
mode_of-parts p symlink h = let e = bit_or-field 12 p 10 h in ground arith
mode_of-parts p socket h = let e = bit_or-field 12 p 12 h in ground arith
mode_of-parts p other_type h = let e = bit_or-field 12 p 8 h in ground arith

-- The status of a file whose permissions are below 2 ^ 12 and whose time is an `int64` gives its
-- permissions, size and time back, the time in nanoseconds and of either sign, and its type if this is
-- one of the six constants of the switch; every other type, the ModeDevice|ModeCharDevice of a
-- character device among them, reads back as that of a regular file.
pub info_in-stat_of :
    (info : Info)
    → info.perm < 4096
    → info.mod_nano < mod64
    → info_in (stat_of info) ≡ record info { mode_type = reported info.mode_type }
unfolding stat_of
info_in-stat_of info small fits =
    let (p, t) = mode_of-parts info.perm info.mode_type small in
    rw (p, t, div_mod_signed info.mod_nano fits) refl
