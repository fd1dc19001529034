-- ===== src/Tests/Descriptors.antt =====
-- Descriptors, transfers and file status on the sample machine.
use microdbg_linux.Fcntl.Vector.{in_turn, writev-in_turn}
use microdbg_linux.Base.{ℕ, ◌≡◌, ◌≢◌, refl, arith, none, some, ◌==◌, if◌then◌else◌, bit_or}
use microdbg_linux.Base.Word.{to_32}
use microdbg_linux.Exec.{done, ◌>>=◌}
use microdbg_linux.Base.Assoc.{lookup, insert}
use microdbg_linux.Fcntl.Table.{fcntl, f_setfd, f_getfd, flags_of, o_cloexec}
use microdbg_linux.Fcntl.Paths.{open_path}
use microdbg_linux.Fcntl.Transfer.{writev, filled, iovec_kinds}
use microdbg_linux.Fcntl.Flags.{ReadsAs, setfd-getfd, open-ReadsAs}
use microdbg_linux.Fcntl.Status.{stat_of}
use microdbg_linux.Fcntl.Encoding.{info_in, reported, info_in-stat_of}
use microdbg_linux.Tests.Sample.{sample, start, sample-IsFileTable, some_info}

open_first : lookup 3 start.files ≡ some 1
unfolding lookup
open_first = refl

is_open : lookup 3 start.files ≢ none
unfolding lookup
is_open e = cc

-- The array at 1 has two buffers of one byte at the address 1.
writev-in_turn_example :
    writev 3 1 2 start
    ≡ in_turn 3 (filled 2 (sample.extract_into start.memory 1 (iovec_kinds 2))) 0 start
writev-in_turn_example = writev-in_turn 3 1 refl 1 2 start open_first refl

setfd-getfd_example :
    let s' = (fcntl 3 f_setfd 0 start).1 in
    (fcntl 3 f_getfd 0 s' ≡ (done 1, s'))
    × ((j : ℕ)
        → flags_of j s'.flags
          ≡ (if 3 == j then bit_or (flags_of 3 start.flags) o_cloexec else flags_of j start.flags))
setfd-getfd_example = setfd-getfd 3 0 0 start is_open

opens_at_seven : (open_path 9 66 420 start).0 ≡ done 7
unfolding open_path insert ◌>>=◌
opens_at_seven = refl

open-ReadsAs_example : (d : ℕ) × (7 ≡ to_32 d) × ReadsAs d 66 (open_path 9 66 420 start).1
open-ReadsAs_example = open-ReadsAs sample-IsFileTable 9 66 420 7 start opens_at_seven

info_in-stat_of_example :
    info_in (stat_of some_info) ≡ record some_info { mode_type = reported some_info.mode_type }
info_in-stat_of_example = info_in-stat_of some_info (omega arith) (omega arith)
