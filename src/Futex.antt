-- ===== src/Futex.antt =====
-- kernel/futex.go. The maps `awaits` and `bitAwaits` hold a channel and a reference count for each
-- address and each bit set; `make` gives the next number for a channel, which has no other state,
-- since all sends and receives meet. What the `select` statements of a call meet is the list `events`
-- of the state; a call that needs an event which the list does not have has not returned.

pub mod Counts
pub mod BitCounts
pub mod Tracks
pub mod System
pub mod Woken
pub mod BitWoken
pub mod Rendezvous
pub mod AtMost
pub mod Addressed
pub mod Resume
pub mod Handover
pub mod BitRendezvous
pub mod BitVisits
pub mod BitAddressed
pub mod BitHandover
use microdbg_linux.Base.{ℕ, suc, ◌+◌, ◌-◌, Bool, true, false, Option, none, some, List, [], ◌∷◌}
use microdbg_linux.Base.{bit_and, leb, ◌==◌, if◌then◌else◌}
use microdbg_linux.Base.Word.{to_32, word_of}
use microdbg_linux.Base.Assoc.{Assoc, lookup, insert, erase}
use microdbg_linux.Machine.{Machine, Kind}
use microdbg_linux.Errno.{eagain, efault, enosys, eperm, etimedout}
use microdbg_linux.Exec.{Event, timeout, closed, signalled, sent, refused, received, stored}
use microdbg_linux.Exec.{Await, State, Outcome, done, failed, panicked, stalled, Exec}
use microdbg_linux.Exec.{pure, fail, panic, stall, or_fail, guard, gets, on_memory}
use microdbg_linux.Exec.{set_awaits, set_bit_awaits, set_channels, set_events, ◌>>=◌, ◌>>◌}
use microdbg_linux.Signal.{and_then}

-- The commands, and `FUTEX_CMD_MASK` as an `int32`.
abbrev pub futex_wait : ℕ
futex_wait = 0

abbrev pub futex_wake : ℕ
futex_wake = 1

abbrev pub futex_cmp_requeue : ℕ
futex_cmp_requeue = 4

abbrev pub futex_wait_bitset : ℕ
futex_wait_bitset = 9

abbrev pub futex_wake_bitset : ℕ
futex_wake_bitset = 10

abbrev pub futex_cmd_mask : ℕ
futex_cmd_mask = 4294966911

-- One more, and one less, reference to an entry; a new entry has a new channel, and an entry
-- without references goes.
abbrev pub add_to : ℕ → Option Await → Await
add_to fresh none = record { ch = fresh; ref = 1 }
add_to fresh (some await) = record await { ref = suc await.ref }

unfoldable pub add_ref : ℕ → ℕ → Assoc Await → Assoc Await
add_ref fresh key m = insert key (add_to fresh (lookup key m)) m

abbrev pub channel : Option Await → Option ℕ
channel none = none
channel (some await) = some await.ch

-- The channels made, behind such a call.
abbrev pub made : ℕ → Option Await → ℕ
made fresh none = suc fresh
made fresh (some await) = fresh

abbrev pub drop_from : ℕ → Assoc Await → Option Await → Assoc Await
drop_from key m none = m
drop_from key m (some await) =
    if leb await.ref 1 then erase key m else insert key (record await { ref = await.ref - 1 }) m

unfoldable pub del_ref : ℕ → Assoc Await → Assoc Await
del_ref key m = drop_from key m (lookup key m)

module _ {M : Machine} where
  unfoldable pub add_await : ℕ → Exec M ℕ
  unfolding add_ref
  add_await addr = do
    fresh ← gets (λ s. s.channels)
    found ← gets (λ s. lookup addr s.awaits)
    set_awaits (add_ref fresh addr)
    set_channels (made fresh found)
    pure (add_to fresh found).ch

  unfoldable pub del_await : ℕ → Exec M (Unit {0})
  unfolding del_ref
  del_await addr = set_awaits (del_ref addr)

  unfoldable pub add_bit_await : ℕ → ℕ → Exec M (ℕ × ℕ)
  unfolding add_await add_ref
  add_bit_await addr bit = do
    ch1 ← add_await addr
    fresh ← gets (λ s. s.channels)
    found ← gets (λ s. lookup bit s.bit_awaits)
    set_bit_awaits (add_ref fresh bit)
    set_channels (made fresh found)
    pure (ch1, (add_to fresh found).ch)

  unfoldable pub del_bit_await : ℕ → ℕ → Exec M (Unit {0})
  unfolding del_ref
  del_bit_await addr bit = do set_awaits (del_ref addr); set_bit_awaits (del_ref bit)

  -- `defer`: the last action of a call that returns or panics.
  abbrev pub settle_after :
      {A : Type 0} → Exec M (Unit {0}) → Outcome A → State M → Outcome A × State M
  settle_after last stalled s = (stalled, s)
  settle_after last o s = (o, (last s).1)

  unfoldable pub deferred : {A : Type 0} → Exec M (Unit {0}) → Exec M A → Exec M A
  deferred last m s = let (o, s') = m s in settle_after last o s'

  -- `MemReadPtr(4, …)` at the address.
  unfoldable pub word_at : ℕ → Exec M ℕ
  word_at uaddr = do
    word ← gets (λ s. and_then (M.read_ptr s.memory uaddr 4) word_of)
    or_fail efault word

  -- Whether there is a timer; it is `nil` without a timeout.
  unfoldable pub timer : ℕ → Exec M Bool
  timer utime = if utime == 0 then pure false else do
    ts ← gets (λ s. M.extract s.memory utime (Kind.int ∷ Kind.int ∷ []))
    or_fail efault ts
    pure true

  -- The common head of the two waits.
  unfoldable pub enter_wait : ℕ → ℕ → ℕ → Exec M Bool
  unfolding word_at timer
  enter_wait uaddr val utime = do raw ← word_at uaddr; guard (raw == val) eagain; timer utime

  -- What a call finds that learns of the closing of its channel: `Close` has set both maps to nil.
  unfoldable pub shut : Exec M (Unit {0})
  shut = set_awaits (λ _. []) >> set_bit_awaits (λ _. [])

  -- The loop of FUTEX_WAIT.
  unfoldable pub wait_loop : Bool → ℕ → List (Event M) → Exec M ℕ
  unfolding shut
  wait_loop timed val [] = stall
  wait_loop timed val (timeout ∷ es) = if timed then set_events es >> fail etimedout else stall
  wait_loop timed val (closed ∷ es) = shut >> set_events es >> fail eperm
  wait_loop timed val (received raw ∷ es) =
      let again = wait_loop timed val es in if raw == val then again else set_events es >> pure 0
  wait_loop timed val (stored memory ∷ es) = on_memory (λ _. (tt, memory)) >> wait_loop timed val es
  wait_loop timed val (_ ∷ es) = stall

  -- The part of FUTEX_WAIT behind its head.
  unfoldable pub waiting : ℕ → ℕ → Bool → Exec M ℕ
  unfolding add_await del_await deferred wait_loop
  waiting uaddr val timed = do
    add_await uaddr
    deferred (del_await uaddr) (do es ← gets (λ s. s.events); wait_loop timed val es)

  unfoldable pub wait : ℕ → ℕ → ℕ → Exec M ℕ
  unfolding enter_wait waiting
  wait uaddr val utime = do timed ← enter_wait uaddr val utime; waiting uaddr val timed

  -- The loop of FUTEX_WAIT_BITSET.
  unfoldable pub wait_bits_loop : ℕ → Bool → ℕ → List (Event M) → Exec M ℕ
  unfolding word_at shut
  wait_bits_loop uaddr timed val [] = stall
  wait_bits_loop uaddr timed val (timeout ∷ es) =
      if timed then set_events es >> fail etimedout else stall
  wait_bits_loop uaddr timed val (closed ∷ es) = shut >> set_events es >> fail eperm
  wait_bits_loop uaddr timed val (received raw ∷ es) =
      let again = wait_bits_loop uaddr timed val es in
      if raw == val then again else set_events es >> pure 0
  wait_bits_loop uaddr timed val (signalled ∷ es) =
      let again = wait_bits_loop uaddr timed val es in
      set_events es >> word_at uaddr >>= λ raw. if raw == val then again else pure 0
  wait_bits_loop uaddr timed val (stored memory ∷ es) =
      on_memory (λ _. (tt, memory)) >> wait_bits_loop uaddr timed val es
  wait_bits_loop uaddr timed val (_ ∷ es) = stall

  unfoldable pub wait_bitset : ℕ → ℕ → ℕ → ℕ → Exec M ℕ
  unfolding enter_wait add_bit_await del_bit_await deferred wait_bits_loop
  wait_bitset uaddr val utime val3 = do
    timed ← enter_wait uaddr val utime
    add_bit_await uaddr val3
    deferred (del_bit_await uaddr val3)
        (do es ← gets (λ s. s.events); wait_bits_loop uaddr timed val es)

  -- `for ; i != count; i++` around a send that does not block: the new `i`, and the events left.
  unfoldable pub sends : ℕ → ℕ → List (Event M) → Option (ℕ × List (Event M))
  sends count i [] = if i == count then some (i, []) else none
  sends count i (sent ∷ es) =
      let more = sends count (to_32 (i + 1)) es in if i == count then some (i, sent ∷ es) else more
  sends count i (refused ∷ es) = if i == count then some (i, refused ∷ es) else some (i, es)
  sends count i (e ∷ es) = if i == count then some (i, e ∷ es) else none

  unfoldable pub or_stall : Option (ℕ × List (Event M)) → Exec M ℕ
  or_stall none = stall
  or_stall (some (i, es)) = set_events es >> pure i

  -- `getAwait`: the channel, or nil.
  unfoldable pub get_await : ℕ → Exec M (Option ℕ)
  get_await addr = gets (λ s. channel (lookup addr s.awaits))

  unfoldable pub wake_waiters : ℕ → ℕ → Option ℕ → Exec M ℕ
  unfolding word_at sends or_stall
  wake_waiters uaddr val none = pure 0
  wake_waiters uaddr val (some ch) = do
    word_at uaddr
    result ← gets (λ s. sends val 0 s.events)
    or_stall result

  unfoldable pub wake : ℕ → ℕ → Exec M ℕ
  unfolding get_await wake_waiters
  wake uaddr val = do ch ← get_await uaddr; wake_waiters uaddr val ch

  -- The loop over `bitAwaits`. Go visits the entries in any order; the order of the list stands
  -- for the one that it takes.
  unfoldable pub wake_bits : ℕ → ℕ → ℕ → Assoc Await → List (Event M) → Option (ℕ × List (Event M))
  unfolding sends
  wake_bits count val3 i [] es = some (i, es)
  wake_bits count val3 i ((bit, await) ∷ rest) es =
      if bit_and bit val3 == 0 then wake_bits count val3 i rest es else elim (sends count i es) [
        | none ↦ none
        | some (i', es') ↦
            let more = wake_bits count val3 i' rest es' in
            if i' == count then some (i', es') else more
      ]

  unfoldable pub wake_bitset : ℕ → ℕ → Exec M ℕ
  unfolding wake_bits or_stall
  wake_bitset val val3 = do
    result ← gets (λ s. wake_bits val val3 0 s.bit_awaits s.events)
    or_stall result

  unfoldable pub futex : ℕ → ℕ → ℕ → ℕ → ℕ → ℕ → Exec M ℕ
  unfolding wait wake wait_bitset wake_bitset
  futex uaddr op val utime uaddr2 val3 =
      let cmd = bit_and op futex_cmd_mask in
      if cmd == futex_wait
      then wait uaddr val utime
      else if cmd == futex_wake
      then wake uaddr val
      else if cmd == futex_cmp_requeue
      then panic
      else if cmd == futex_wait_bitset
      then wait_bitset uaddr val utime val3
      else if cmd == futex_wake_bitset
      then wake_bitset val val3
      else fail enosys
