-- ===== src/Futex/Counts.antt =====
-- The reference counts of kernel/futex.go over a wait, and the count that a wake gives.
use microdbg_linux.Base.{
  ℕ, ◌-◌, none, Option, ◌==◌, leb, if◌then◌else◌, ◌<◌, ◌≡◌, refl, ◌∙◌, sym, ap, arith, Bool, true,
  false, some, List, [], ◌∷◌, ◌⊎◌, inl, inr, Option-cases, Bool-cases,
}
use mathlib.Core.Path.{subst}
use microdbg_linux.Base.Assoc.{Assoc, lookup, lookup-insert, lookup-erase}
use microdbg_linux.Errno.{code, eperm}
use microdbg_linux.Machine.{Machine}
use microdbg_linux.Exec.{Event, timeout, closed, signalled, sent, refused, received, stored}
use microdbg_linux.Exec.{
  Await, State, Outcome, done, failed, panicked, stalled, continue, ◌>>=◌, set_awaits,
}
use microdbg_linux.Futex.{
  add_to, add_ref, del_ref, wait, waiting, wait_loop, enter_wait, settle_after, deferred, del_await,
  add_await, shut,
}

-- A call has failed with EPERM, and no entry is left in either map.
abbrev pub Shut : {M : Machine} → Outcome ℕ × State M → Type 0
Shut r = (r.0 ≡ failed) × (r.1.errno ≡ code eperm) × (r.1.awaits ≡ []) × (r.1.bit_awaits ≡ [])

pub done-failed : (v : ℕ) → ¬ (done v ≡ failed)
done-failed v e = ground (arith, e)

pub panicked-failed : let o : Outcome ℕ = panicked in ¬ (o ≡ failed)
panicked-failed e = ground (arith, e)

-- An entry in the map has a reference.
abbrev pub HasRefs : ℕ → Assoc Await → Type 0
HasRefs key m = (await : Await) → lookup key m ≡ some await → 0 < await.ref

pub lookup-add_ref :
    (fresh key j : ℕ) (m : Assoc Await)
    → lookup j (add_ref fresh key m)
      ≡ (if key == j then some (add_to fresh (lookup key m)) else lookup j m)
unfolding add_ref
lookup-add_ref fresh key j m = lookup-insert key j (add_to fresh (lookup key m)) m

-- An entry with one reference less.
abbrev pub less : Option Await → Option Await
less none = none
less (some await) = if leb await.ref 1 then none else some (record await { ref = await.ref - 1 })

pub lookup-del_ref :
    (key j : ℕ) (m : Assoc Await)
    → lookup j (del_ref key m) ≡ (if key == j then less (lookup key m) else lookup j m)
unfolding del_ref
lookup-del_ref key j m = elim (Option-cases (lookup key m)) [
  | inl e ↦ ground arith
  | inr (await, e) ↦
      ground
        (arith, lookup-erase key j m, lookup-insert key j (record await { ref = await.ref - 1 }) m)
]

pub add_ref-del_ref :
    (fresh key j : ℕ) (m : Assoc Await)
    → HasRefs key m
    → lookup j (del_ref key (add_ref fresh key m)) ≡ lookup j m
add_ref-del_ref fresh key j m h = elim (Option-cases (lookup key m)) [
  | inl e ↦ ground (
    arith,
    lookup-del_ref key j (add_ref fresh key m),
    lookup-add_ref fresh key key m,
    lookup-add_ref fresh key j m,
  )
  | inr (await, e) ↦ ground (
    arith,
    h await e,
    lookup-del_ref key j (add_ref fresh key m),
    lookup-add_ref fresh key key m,
    lookup-add_ref fresh key j m,
  )
]

module _ {M : Machine} where
  wait_loop-awaits :
      (timed : Bool) (val : ℕ) (es : List (Event M)) (s : State M)
      → ((wait_loop timed val es s).1.awaits ≡ s.awaits) ⊎ Shut (wait_loop timed val es s)
  unfolding wait_loop shut ◌>>=◌
  wait_loop-awaits timed val [] s = inl refl
  wait_loop-awaits true val (timeout ∷ es) s = inl refl
  wait_loop-awaits false val (timeout ∷ es) s = inl refl
  wait_loop-awaits timed val (closed ∷ es) s = inr (refl, refl, refl, refl)
  wait_loop-awaits timed val (received raw ∷ es) s = elim (Bool-cases (raw == val)) [
    | inl same ↦ rw same (wait_loop-awaits timed val es s)
    | inr other ↦ rw other (inl refl)
  ]
  wait_loop-awaits timed val (stored memory ∷ es) s =
      wait_loop-awaits timed val es (record s { memory = memory })
  wait_loop-awaits timed val (signalled ∷ es) s = inl refl
  wait_loop-awaits timed val (sent ∷ es) s = inl refl
  wait_loop-awaits timed val (refused ∷ es) s = inl refl

  abbrev Restores : ℕ → Assoc Await → Outcome ℕ × State M → Type 0
  Restores uaddr before r =
      (r.0 ≡ stalled) ⊎ ((j : ℕ) → lookup j r.1.awaits ≡ lookup j before) ⊎ Shut r

  settle_after-Restores :
      (fresh uaddr : ℕ) (before : Assoc Await) (o : Outcome ℕ) (s : State M)
      → HasRefs uaddr before
      → (s.awaits ≡ add_ref fresh uaddr before) ⊎ Shut (o, s)
      → Restores uaddr before (settle_after (del_await uaddr) o s)
  unfolding del_await del_ref lookup set_awaits
  settle_after-Restores fresh uaddr before (done v) s h (inl e) =
      inr (inl λ j. rw e (add_ref-del_ref fresh uaddr j before h))
  settle_after-Restores fresh uaddr before (done v) s h (inr e) = absurd (done-failed v e.0)
  settle_after-Restores fresh uaddr before failed s h (inl e) =
      inr (inl λ j. rw e (add_ref-del_ref fresh uaddr j before h))
  settle_after-Restores fresh uaddr before failed s h (inr (same, errno, gone, gone')) =
      inr (inr (same, errno, rw gone refl, gone'))
  settle_after-Restores fresh uaddr before panicked s h (inl e) =
      inr (inl λ j. rw e (add_ref-del_ref fresh uaddr j before h))
  settle_after-Restores fresh uaddr before panicked s h (inr e) = absurd (panicked-failed e.0)
  settle_after-Restores fresh uaddr before stalled s h e = inl refl

  waiting-Restores :
      (uaddr val : ℕ) (timed : Bool) (s : State M)
      → HasRefs uaddr s.awaits
      → Restores uaddr s.awaits (waiting uaddr val timed s)
  unfolding waiting add_await deferred ◌>>=◌
  waiting-Restores uaddr val timed s h =
      let x : State M = (add_await uaddr s).1 in
      settle_after-Restores s.channels uaddr s.awaits (wait_loop timed val s.events x).0
        (wait_loop timed val s.events x).1 h (wait_loop-awaits timed val s.events x)

  entered-Restores :
      (uaddr val : ℕ) (before : Assoc Await) (o : Outcome Bool) (s : State M)
      → HasRefs uaddr before
      → s.awaits ≡ before
      → Restores uaddr before (continue o (waiting uaddr val) s)
  entered-Restores uaddr val before (done timed) s h e =
      subst (λ m. Restores uaddr m (continue (done timed) (waiting uaddr val) s)) e
        (waiting-Restores uaddr val timed s (λ await z. h await (sym (ap (lookup uaddr) e) ∙ z)))
  entered-Restores uaddr val before failed s h e = inr (inl λ j. ap (lookup j) e)
  entered-Restores uaddr val before panicked s h e = inr (inl λ j. ap (lookup j) e)
  entered-Restores uaddr val before stalled s h e = inl refl

  enter_wait-awaits :
      (uaddr val utime : ℕ) (s : State M) → (enter_wait uaddr val utime s).1.awaits ≡ s.awaits
  unfolding enter_wait ◌>>=◌
  enter_wait-awaits uaddr val utime s = ground arith

  -- An entry in the map has a reference. A FUTEX_WAIT that comes back leaves the reference counts of
  -- the addresses as they were before it, or it fails with EPERM, since it learns that its channel
  -- was closed, and then no entry is left in either map.
  pub wait-awaits :
      (uaddr val utime : ℕ) (s : State M)
      → HasRefs uaddr s.awaits
      → let r = wait uaddr val utime s in
        (r.0 ≡ stalled) ⊎ ((j : ℕ) → lookup j r.1.awaits ≡ lookup j s.awaits) ⊎ Shut r
  unfolding wait ◌>>=◌
  wait-awaits uaddr val utime s h =
      let x = enter_wait uaddr val utime s in
      entered-Restores uaddr val s.awaits x.0 x.1 h (enter_wait-awaits uaddr val utime s)
