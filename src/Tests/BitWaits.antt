-- ===== src/Tests/BitWaits.antt =====
-- Waits on bit sets and signal actions on the sample machine.
use microdbg_linux.Base.{ℕ, ◌+◌, ◌-◌, ◌≡◌, refl, arith, ◌⊎◌, min, none, some, List, [], ◌∷◌}
use microdbg_linux.Base.Assoc.{lookup, insert}
use microdbg_linux.Errno.{code, efault}
use microdbg_linux.Exec.{done, failed, Event, Await, State, Sigaction, ◌>>=◌}
use microdbg_linux.Machine.{Kind}
use microdbg_linux.Signal.{rt_sigaction}
use microdbg_linux.Signal.Actions.{
  described, layout, Stores, rt_sigaction-table, rt_sigaction-reports,
}
use microdbg_linux.Futex.{wake_bitset, add_bit_await, add_ref}
use microdbg_linux.Futex.System.{on_address, on_bits, Reached, next, enter_bits, elsewhere}
use microdbg_linux.Futex.BitRendezvous.{
  BitCall, bit_waiters, at_selects, meeting, Woken, visited, none_left, met,
}
use microdbg_linux.Futex.BitAddressed.{wake_bitset-meeting}
use microdbg_linux.Futex.BitHandover.{Changes, tolds, bit_resume, wake_bitset-resume}
use microdbg_linux.Tests.Sample.{sample, start}
use microdbg_linux.Tests.Waits.{one_waits, start-Reached}

-- Beside the call that waits on the address 8, one that waits there with the bit set 4.
abbrev bits_entered : State sample
bits_entered = record start {
  awaits = (8, record { ch = 0; ref = 2 }) ∷ [];
  bit_awaits = (4, record { ch = 1; ref = 1 }) ∷ [];
  channels = 2;
}

abbrev signalling : State sample
signalling = record bits_entered { events = Event.sent ∷ Event.refused ∷ [] }

abbrev waiting_calls : List BitCall
waiting_calls = BitCall.at_select (on_bits 8 4 0 1) ∷ BitCall.at_select (on_address 8 0) ∷ []

abbrev told_calls : List BitCall
told_calls = BitCall.told (on_bits 8 4 0 1) ∷ BitCall.at_select (on_address 8 0) ∷ []

enters_bits : add_bit_await 8 4 start ≡ (done (0, 1), bits_entered)
unfolding add_bit_await add_ref lookup insert ◌>>=◌
enters_bits = refl

signalling-Reached : Reached signalling (bit_waiters waiting_calls)
signalling-Reached =
    next bits_entered signalling _ _
      (next start bits_entered one_waits _ start-Reached
        (enter_bits 8 4 0 1 start bits_entered one_waits enters_bits))
      (elsewhere bits_entered signalling _ refl refl refl)

abbrev four : Await
four = record { ch = 1; ref = 1 }

-- A wake of five for the bits 2 and 4.
wake_bitset-meeting_example :
    ((wake_bitset 5 6 signalling).0 ≡ done (min 5 (meeting 6 waiting_calls)))
    × (meeting 6 told_calls ≡ meeting 6 waiting_calls - 5)
    × (at_selects told_calls + min 5 (meeting 6 waiting_calls) ≡ at_selects waiting_calls)
    × (bit_waiters told_calls ≡ bit_waiters waiting_calls)
    × Woken 6 waiting_calls told_calls
wake_bitset-meeting_example = wake_bitset-meeting 5 6 signalling signalling-Reached (omega arith) (
    met 4 four 8 4 0 [] (BitCall.at_select (on_address 8 0) ∷ []) refl
      (none_left 4 four refl refl visited))

-- Both calls find 8 at the address 8, and the one with the bit set waits for 5.
word_changed : Changes sample signalling.memory 6 (λ i. 5) 0 waiting_calls
word_changed = ((λ met. (8, refl, refl)), tt)

wake_bitset-resume_example :
    let (n, ds, x) = bit_resume (λ i. 5) 0 told_calls (wake_bitset 5 6 signalling).1 in
    ((wake_bitset 5 6 signalling).0 ≡ done n)
    × (n ≡ min 5 (meeting 6 waiting_calls))
    × (tolds ds ≡ 0)
    × (meeting 6 ds ≡ meeting 6 waiting_calls - 5)
    × Reached x (bit_waiters ds)
wake_bitset-resume_example =
    wake_bitset-resume 5 6 (λ i. 5) signalling signalling-Reached word_changed (omega arith)
      (met 4 four 8 4 0 [] (BitCall.at_select (on_address 8 0) ∷ []) refl
        (none_left 4 four refl refl visited))

abbrev all_of : ℕ → Sigaction
all_of n = record { sa_handler = n; sa_flags = n; sa_mask = n; sa_restorer = n }

rt_sigaction-table_example :
    let r = rt_sigaction 5 16 24 8 start in
    ((described start 16 ≡ none) × (r ≡ (failed, record start { errno = code efault })))
    ⊎ ((a : Sigaction) × (described start 16 ≡ some a) × Stores 5 24 a start r)
rt_sigaction-table_example = rt_sigaction-table 5 16 24 8 start

reads_later :
    sample.extract (rt_sigaction 5 16 0 8 start).1.memory 32 layout ≡ some (32 ∷ 32 ∷ 32 ∷ 32 ∷ [])
unfolding rt_sigaction ◌>>=◌ lookup insert
reads_later = refl

rt_sigaction-reports_example :
    let (o, x) = rt_sigaction 5 16 0 8 start in
    let (o', y) = rt_sigaction 5 32 24 8 x in
    (o ≡ done 0)
    × (o' ≡ done 0)
    × (y.memory
        ≡ (sample.write x.memory 24
            ((Kind.uintptr, 16) ∷ (Kind.int32, 16) ∷ (Kind.int, 16) ∷ (Kind.uintptr, 16) ∷ [])).1)
    × (lookup 5 y.sigtable ≡ some (all_of 32))
rt_sigaction-reports_example =
    rt_sigaction-reports 5 16 0 32 24 8 start 16 16 16 16 32 32 32 32 refl reads_later refl
