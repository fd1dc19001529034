-- ===== src/Tests/Waits.antt =====
-- Signals and futexes on the sample machine.
use microdbg_linux.Base.{ℕ, ◌-◌, false, ◌≡◌, refl, arith, ◌⊎◌, inr, some, min, List, [], ◌∷◌, ◌==◌}
use microdbg_linux.Base.Assoc.{lookup, insert}
use microdbg_linux.Base.Bits.{test}
use microdbg_linux.Exec.{done, Event, stalled, State, ◌>>=◌}
use microdbg_linux.Signal.{rt_sigprocmask}
use microdbg_linux.Signal.Masks.{changed, rt_sigprocmask-test}
use microdbg_linux.Futex.{futex, wait, wake, add_await, add_ref}
use microdbg_linux.Futex.System.{
  Waiter, addresses, bits, on_address, Reached, begin, next, enter, elsewhere, InStep,
  Reached-InStep,
}
use microdbg_linux.Futex.Woken.{receivers, wait-unchanged}
use microdbg_linux.Futex.Counts.{HasRefs, Shut, wait-awaits}
use microdbg_linux.Futex.AtMost.{AtMost, futex-AtMost}
use microdbg_linux.Futex.Rendezvous.{Call, Meets, met, none_left, all_sent}
use microdbg_linux.Futex.Addressed.{waiters, selecting, wake-selecting}
use microdbg_linux.Futex.Resume.{resume, givens}
use microdbg_linux.Futex.Handover.{wake-resume}
use microdbg_linux.Kernel.Life.{dtor, AllIn, dtor-AllIn}
use microdbg_linux.Tests.Sample.{sample, start}

-- The set at 5 is 5: signal 1 and signal 3.
rt_sigprocmask-test_example :
    let r = rt_sigprocmask 1 5 0 8 start in
    (test r.1.sigset 0 ≡ changed 1 (test start.sigset 0) (test 5 0))
    × (r.0 ≡ done 0)
    × (r.1.errno ≡ 0)
rt_sigprocmask-test_example = rt_sigprocmask-test 1 5 5 8 0 start refl (omega arith) (omega arith)

held : HasRefs 8 start.awaits
unfolding lookup
held await e = ground arith

wait-awaits_example :
    let r = wait 8 8 0 start in
    (r.0 ≡ stalled) ⊎ ((j : ℕ) → lookup j r.1.awaits ≡ lookup j start.awaits) ⊎ Shut r
wait-awaits_example = wait-awaits 8 8 0 start held

-- The state in which one call waits on the address 8.
abbrev before : State sample
before = record start { awaits = []; channels = 0 }

abbrev pub one_waits : List Waiter
one_waits = on_address 8 0 ∷ []

entered : add_await 8 before ≡ (done 0, start)
unfolding add_await add_ref lookup insert ◌>>=◌
entered = refl

pub start-Reached : Reached start one_waits
start-Reached =
    next before start [] one_waits (begin before refl refl) (enter 8 0 before start [] entered)

Reached-InStep_example : InStep start one_waits
Reached-InStep_example = Reached-InStep start one_waits start-Reached

-- The events of `start` are the value waited for and then another.
wait-unchanged_example : let r = wait 8 8 0 start in (r.0 ≡ done 0) × (r.1.events ≡ [])
wait-unchanged_example = wait-unchanged 8 8 9 1 start [] refl refl refl

dtor-AllIn_example :
    (x : List ℕ) × (y : List ℕ) × ((dtor start).0 ≡ done (x, y))
    × AllIn x (addresses one_waits)
    × AllIn y (bits one_waits)
dtor-AllIn_example = dtor-AllIn start one_waits start-Reached

-- Two bit sets, of which the second meets 4: two receivers are found, for a wake of five.
abbrev bits_ready : State sample
bits_ready = record start {
  bit_awaits = (2, record { ch = 1; ref = 1 }) ∷ (4, record { ch = 2; ref = 3 }) ∷ [];
  events = receivers 2 [];
}

-- A wake of five, while one call is at its `select` on the channel and another has been given a
-- value before.
abbrev two_entered : State sample
two_entered = record start { awaits = (8, record { ch = 0; ref = 2 }) ∷ [] }

abbrev meeting : State sample
meeting = record two_entered { events = Event.sent ∷ Event.refused ∷ [] }

abbrev two_calls : List Call
two_calls = Call.given (on_address 8 0) 3 ∷ Call.at_select (on_address 8 0) ∷ []

abbrev two_after : List Call
two_after = Call.given (on_address 8 0) 3 ∷ Call.given (on_address 8 0) 8 ∷ []

enters_twice : add_await 8 start ≡ (done 0, two_entered)
unfolding add_await add_ref lookup insert ◌>>=◌
enters_twice = refl

meeting-Reached : Reached meeting (waiters two_calls)
meeting-Reached =
    next two_entered meeting _ _
      (next start two_entered one_waits _ start-Reached
        (enter 8 0 start two_entered one_waits enters_twice))
      (elsewhere two_entered meeting _ refl refl refl)

two-Meets : Meets {M = sample} 0 8 5 two_calls meeting.events two_after
two-Meets = met (on_address 8 0) (Call.given (on_address 8 0) 3 ∷ []) [] refl (none_left refl)

meeting_entry : lookup 8 meeting.awaits ≡ some (record { ch = 0; ref = 2 })
unfolding lookup
meeting_entry = refl

wake-selecting_example :
    ((wake 8 5 meeting).0 ≡ done (min 5 (selecting 8 two_calls)))
    × (selecting 8 two_after ≡ selecting 8 two_calls - 5)
    × ((j : ℕ) → (8 == j) ≡ false → selecting j two_after ≡ selecting j two_calls)
    × (waiters two_after ≡ waiters two_calls)
wake-selecting_example =
    wake-selecting 8 5 8 (record { ch = 0; ref = 2 }) meeting meeting-Reached meeting_entry refl
      (omega arith) two-Meets

-- FUTEX_WAKE_BITSET with FUTEX_PRIVATE_FLAG.
futex-AtMost_example : AtMost 5 (futex 8 138 5 0 0 4 bits_ready).0
futex-AtMost_example = futex-AtMost 8 138 5 0 0 4 bits_ready (omega arith) (inr refl)

-- A wake of one, while one call waits on the address 8, for the value 5: the word there is 8.
abbrev offering : State sample
offering = record start { events = Event.sent ∷ [] }

offering-Reached : Reached offering (waiters (Call.at_select (on_address 8 0) ∷ []))
offering-Reached =
    next start offering one_waits one_waits start-Reached
      (elsewhere start offering one_waits refl refl refl)

offering_entry : lookup 8 offering.awaits ≡ some (record { ch = 0; ref = 1 })
unfolding lookup
offering_entry = refl

wake-resume_example :
    let cs = Call.at_select (on_address 8 0) ∷ [] in
    let after = Call.given (on_address 8 0) 8 ∷ [] in
    let (n, ds, x) = resume (λ i. 5) 0 after (wake 8 1 offering).1 in
    ((wake 8 1 offering).0 ≡ done n)
    × (n ≡ min 1 (selecting 8 cs))
    × (givens ds ≡ 0)
    × (selecting 8 ds ≡ selecting 8 cs - 1)
    × ((j : ℕ) → (8 == j) ≡ false → selecting j ds ≡ selecting j cs)
    × Reached x (waiters ds)
wake-resume_example =
    wake-resume 8 1 8 (record { ch = 0; ref = 1 }) (λ i. 5) offering offering-Reached refl
      ((λ on. refl), tt) offering_entry refl (omega arith)
      (met (on_address 8 0) [] [] refl all_sent)
