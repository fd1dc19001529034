-- ===== src/Futex/Woken.antt =====
-- The wakes of kernel/futex.go over the tasks that wait.
use microdbg_linux.Base.{
  ℕ, zero, suc, ◌+◌, ◌-◌, ◌≤◌, ◌<◌, ◌≡◌, refl, arith, List, [], ◌∷◌, none, some, Option, ap, leb,
  ◌==◌, if◌then◌else◌, ◌∙◌, sym, inl, inr, Bool, Bool-cases, ==-self, eq_of_==, min, false,
}
use mathlib.Core.List.{Memᴰ}
use mathlib.Core.List.Memᴰ
use mathlib.Core.Path.{subst}
use microdbg_linux.Base.Assoc.{lookup}
use microdbg_linux.Base.Word.{mod32, to_32, word_of}
use microdbg_linux.Machine.{Machine}
use microdbg_linux.Signal.{and_then}
use microdbg_linux.Exec.{Await, State, done, Event, failed, closed, received, sent, refused, ◌>>=◌}
use microdbg_linux.Errno.{code, eperm}
use microdbg_linux.Futex.{
  sends, or_stall, word_at, wake, wake_waiters, wait_loop, wait, enter_wait, timer, add_await,
  deferred, del_await, settle_after, shut,
}
use microdbg_linux.Futex.Counts.{HasRefs}
use microdbg_linux.Futex.Tracks.{Holders, Entry, AllOn, count}
use microdbg_linux.Futex.System.{Waiter, addresses, Reached, Reached-InStep}

on-AllOn : (key ch c : ℕ) (hs : Holders) → AllOn key ch hs → Memᴰ (key, c) hs → c ≡ ch
on-AllOn key ch c [] h t = absurd (Memᴰ.not-nil t)
on-AllOn key ch c ((k, x) ∷ hs) h (Memᴰ.head e) =
    ap (λ p. p.1) e ∙ h.0 (ground (arith, ap (λ p. p.0) e))
on-AllOn key ch c ((k, x) ∷ hs) h (Memᴰ.tail t) = on-AllOn key ch c hs h.1 t

count-Mem : (key c : ℕ) (hs : Holders) → Memᴰ (key, c) hs → 0 < count key hs
count-Mem key c [] t = absurd (Memᴰ.not-nil t)
count-Mem key c ((k, x) ∷ hs) (Memᴰ.head e) = ground (arith, ap (λ p. p.0) e)
count-Mem key c ((k, x) ∷ hs) (Memᴰ.tail t) = ground (arith, count-Mem key c hs t)

pub Entry-channel :
    (key ch : ℕ) (hs : Holders) (o : Option Await)
    → Entry key hs o
    → Memᴰ (key, ch) hs
    → (a : Await) × (o ≡ some a) × (a.ch ≡ ch)
Entry-channel key ch hs none h t = ground (arith, count-Mem key ch hs t)
Entry-channel key ch hs (some a) h t = (a, refl, sym (on-AllOn key a.ch ch hs h.2 t))

Entry-HasRefs :
    (key : ℕ) (hs : Holders) (o : Option Await)
    → Entry key hs o
    → (a : Await) → o ≡ some a
    → 0 < a.ref
Entry-HasRefs key hs none h a e = ground arith
Entry-HasRefs key hs (some b) h a e = ground (arith, h.1)

Entry-idle :
    (key : ℕ) (hs : Holders) (o : Option Await) → Entry key hs o → count key hs ≡ 0 → o ≡ none
Entry-idle key hs none h e = refl
Entry-idle key hs (some b) h e = ground (arith, h.0, h.1)

module _ {M : Machine} where
  -- In a state that can be reached by waits that enter and leave, whoever waits on an address waits
  -- on the channel that a FUTEX_WAKE of the address sends on.
  pub Reached-channel :
      (addr ch : ℕ) (s : State M) (ws : List Waiter)
      → Reached s ws
      → Memᴰ (addr, ch) (addresses ws)
      → (a : Await) × (lookup addr s.awaits ≡ some a) × (a.ch ≡ ch)
  Reached-channel addr ch s ws r t =
      Entry-channel addr ch (addresses ws) (lookup addr s.awaits)
        ((Reached-InStep s ws r).0.entry addr) t

  pub Reached-HasRefs :
      (key : ℕ) (s : State M) (ws : List Waiter) → Reached s ws → HasRefs key s.awaits
  Reached-HasRefs key s ws r =
      Entry-HasRefs key (addresses ws) (lookup key s.awaits) ((Reached-InStep s ws r).0.entry key)

  -- In a state that can be reached by waits that enter and leave, a FUTEX_WAKE of an address on which
  -- no call waits returns 0 and changes nothing.
  wake-idle :
      (uaddr val : ℕ) (s : State M) (ws : List Waiter)
      → Reached s ws
      → count uaddr (addresses ws) ≡ 0
      → wake uaddr val s ≡ (done 0, s)
  unfolding wake wake_waiters ◌>>=◌
  wake-idle uaddr val s ws r none_wait =
      rw
        (Entry-idle uaddr (addresses ws) (lookup uaddr s.awaits)
          ((Reached-InStep s ws r).0.entry uaddr) none_wait)
        refl

  -- `k` sends that find a receiver, and one that does not.
  abbrev pub receivers : ℕ → List (Event M) → List (Event M)
  receivers zero rest = refused ∷ rest
  receivers (suc k) rest = sent ∷ receivers k rest

  pub sends-receivers :
      (n i k : ℕ) (rest : List (Event M))
      → i ≤ n
      → n < mod32
      → sends n i (receivers k rest)
        ≡ (if leb n (i + k) then some (n, receivers (i + k - n) rest) else some (i + k, rest))
  unfolding sends
  sends-receivers n i zero rest le small = elim (Bool-cases (i == n)) [
    | inl same ↦
        let i_eq : i ≡ n = eq_of_== i n same in
        let left : i + 0 - n ≡ 0 = omega (arith, i_eq) in
        ground (arith, i_eq, ap (λ x. receivers x rest) left)
    | inr other ↦ ground arith
  ]
  sends-receivers n i (suc k) rest le small = elim (Bool-cases (i == n)) [
    | inl same ↦
        let i_eq : i ≡ n = eq_of_== i n same in
        let left : i + suc k - n ≡ suc k = omega (arith, i_eq) in
        ground (arith, i_eq, ap (λ x. receivers x rest) left)
    | inr other ↦
        let below : i < n = ground arith in
        let step : to_32 (i + 1) ≡ i + 1 = omega (arith, below, small) in
        rw (other, step)
          (let moved : i + 1 + k ≡ i + suc k = omega arith in
            subst
              (λ x.
                sends n (i + 1) (receivers k rest)
                ≡ (if leb n x then some (n, receivers (x - n) rest) else some (x, rest)))
              moved (sends-receivers n (i + 1) k rest (omega (arith, below)) small))
  ]

  -- A FUTEX_WAKE of an address with an entry, whose word can be read, that finds `k` receivers in a
  -- row and then none wakes as many as it was asked for, or `k` if these are fewer.
  pub wake-receivers :
      (uaddr val k w : ℕ) (a : Await) (s : State M) (rest : List (Event M))
      → lookup uaddr s.awaits ≡ some a
      → and_then (M.read_ptr s.memory uaddr 4) word_of ≡ some w
      → val < mod32
      → s.events ≡ receivers k rest
      → (wake uaddr val s).0 ≡ done (min k val)
  unfolding wake wake_waiters word_at or_stall ◌>>=◌
  wake-receivers uaddr val k w a s rest found word small meets =
      rw (found, word, meets, sends-receivers val 0 k rest (omega arith) small)
        (elim (Bool-cases (leb val k)) [ inl more ↦ ground arith | inr less ↦ ground arith ])

  -- `k` values that are the one waited for.
  abbrev pub unchanged : ℕ → ℕ → List (Event M) → List (Event M)
  unchanged zero val rest = rest
  unchanged (suc k) val rest = received val ∷ unchanged k val rest

  wait_loop-unchanged :
      (timed : Bool) (val raw k : ℕ) (rest : List (Event M)) (s : State M)
      → (raw == val) ≡ false
      → wait_loop timed val (unchanged k val (received raw ∷ rest)) s
        ≡ (done 0, record s { events = rest })
  unfolding wait_loop ◌>>=◌
  wait_loop-unchanged timed val raw zero rest s other = rw other refl
  wait_loop-unchanged timed val raw (suc k) rest s other =
      rw (==-self val) (wait_loop-unchanged timed val raw k rest s other)

  -- A FUTEX_WAIT without a timeout, at a word that has the value, that is sent this value `k` times
  -- and then another value waits through the `k` sends and returns 0 at the other one: of what it
  -- meets, just these `k + 1` sends are gone.
  pub wait-unchanged :
      (uaddr val raw k : ℕ) (s : State M) (rest : List (Event M))
      → and_then (M.read_ptr s.memory uaddr 4) word_of ≡ some val
      → s.events ≡ unchanged k val (received raw ∷ rest)
      → (raw == val) ≡ false
      → let r = wait uaddr val 0 s in (r.0 ≡ done 0) × (r.1.events ≡ rest)
  unfolding wait enter_wait word_at timer add_await deferred del_await ◌>>=◌
  wait-unchanged uaddr val raw k s rest word meets other =
      let es : List (Event M) = unchanged k val (received raw ∷ rest) in
      let x : State M = record (add_await uaddr s).1 { events = es } in
      rw (word, ==-self val, meets)
        (
          ap (λ r. (settle_after (del_await uaddr) r.0 r.1).0)
              (wait_loop-unchanged false val raw k rest x other),
          ap (λ r. (settle_after (del_await uaddr) r.0 r.1).1.events)
              (wait_loop-unchanged false val raw k rest x other),
        )

  wait_loop-closed :
      (timed : Bool) (val k : ℕ) (rest : List (Event M)) (s : State M)
      → wait_loop timed val (unchanged k val (closed ∷ rest)) s
        ≡ (failed, record s { awaits = []; bit_awaits = []; errno = code eperm; events = rest })
  unfolding wait_loop shut ◌>>=◌
  wait_loop-closed timed val zero rest s = refl
  wait_loop-closed timed val (suc k) rest s = rw (==-self val) (wait_loop-closed timed val k rest s)

  -- A FUTEX_WAIT without a timeout, at a word that has the value, that is sent this value `k` times
  -- before its channel is closed fails with EPERM.
  wait-closed :
      (uaddr val k : ℕ) (s : State M) (rest : List (Event M))
      → and_then (M.read_ptr s.memory uaddr 4) word_of ≡ some val
      → s.events ≡ unchanged k val (closed ∷ rest)
      → let r = wait uaddr val 0 s in (r.0 ≡ failed) × (r.1.errno ≡ code eperm)
  unfolding wait enter_wait word_at timer add_await deferred del_await ◌>>=◌
  wait-closed uaddr val k s rest word meets =
      let es : List (Event M) = unchanged k val (closed ∷ rest) in
      let x : State M = record (add_await uaddr s).1 { events = es } in
      let same = wait_loop-closed false val k rest x in
      rw (word, ==-self val, meets)
        (
          ap (λ r. (settle_after (del_await uaddr) r.0 r.1).0) same,
          ap (λ r. (settle_after (del_await uaddr) r.0 r.1).1.errno) same,
        )
