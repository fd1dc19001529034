-- ===== src/Signal/Actions.antt =====
-- The table of actions of kernel/signal.go over its calls.
use microdbg_linux.Base.{ℕ, ◌≡◌, ◌⊎◌, inl, inr, refl, Option, none, some, Option-cases, Bool-cases}
use microdbg_linux.Base.{List, [], ◌∷◌}
use microdbg_linux.Base.{◌∙◌, false, ==-self}
use microdbg_linux.Base.{◌==◌, if◌then◌else◌}
use microdbg_linux.Base.Assoc.{lookup, lookup-insert}
use microdbg_linux.Machine.{Machine, Kind}
use microdbg_linux.Errno.{code, efault}
use microdbg_linux.Exec.{State, Outcome, done, failed, Sigaction, ◌>>=◌}
use microdbg_linux.Signal.{
  and_then, sigaction_kinds, sigaction_fields, to_sigaction, put_old, rt_sigaction,
}

-- The record of an action in the memory: the handler, an `int32` of flags, the mask as an `int` and
-- the restorer, one behind the other.
abbrev pub layout : List Kind
layout = Kind.uintptr ∷ Kind.int32 ∷ Kind.int ∷ Kind.uintptr ∷ []

module _ {M : Machine} where
  -- The action that a program describes at an address.
  abbrev pub described : State M → ℕ → Option Sigaction
  described s act = and_then (M.extract s.memory act sigaction_kinds) to_sigaction

  -- What a call leaves in the memory: the action that was in the table, if there was one and a place
  -- is given for it.
  abbrev pub reported : State M → ℕ → Option Sigaction → M.Memory
  reported s oldact none = s.memory
  reported s oldact (some old) =
      if oldact == 0 then s.memory else (M.write s.memory oldact (sigaction_fields old)).1

  -- The outcome of a call that has read the action `a`.
  abbrev pub Stores : ℕ → ℕ → Sigaction → State M → Outcome ℕ × State M → Type 0
  Stores signal oldact a s (o, x) =
      (o ≡ done 0)
      × (x.errno ≡ s.errno)
      × (x.memory ≡ reported s oldact (lookup signal s.sigtable))
      × ((j : ℕ) → lookup j x.sigtable ≡ (if signal == j then some a else lookup j s.sigtable))

  rt_sigaction-Stores :
      (signal act oldact size : ℕ) (s : State M) (a : Sigaction)
      → described s act ≡ some a
      → Stores signal oldact a s (rt_sigaction signal act oldact size s)
  unfolding rt_sigaction put_old ◌>>=◌
  rt_sigaction-Stores signal act oldact size s a read =
      let stored = λ (j : ℕ). lookup-insert signal j a s.sigtable in
      elim (Option-cases (lookup signal s.sigtable)) [
        | inl first ↦ rw (read, first) (refl, refl, refl, stored)
        | inr (old, there) ↦ elim (Bool-cases (oldact == 0)) [
          | inl nowhere ↦ rw (read, there, nowhere) (refl, refl, refl, stored)
          | inr place ↦ rw (read, there, place) (refl, refl, refl, stored)
        ]
      ]

  rt_sigaction-unread :
      (signal act oldact size : ℕ) (s : State M)
      → described s act ≡ none
      → rt_sigaction signal act oldact size s ≡ (failed, record s { errno = code efault })
  unfolding rt_sigaction ◌>>=◌
  rt_sigaction-unread signal act oldact size s unread = rw unread refl

  -- rt_sigaction fails with EFAULT, the table and the memory as before, where no action can be read,
  -- or it returns 0 with this action under the signal, the actions of all other signals as before,
  -- the one that was there before written out where a place is given, and the error number left.
  pub rt_sigaction-table :
      (signal act oldact size : ℕ) (s : State M)
      → let r = rt_sigaction signal act oldact size s in
        ((described s act ≡ none) × (r ≡ (failed, record s { errno = code efault })))
        ⊎ ((a : Sigaction) × (described s act ≡ some a) × Stores signal oldact a s r)
  rt_sigaction-table signal act oldact size s = elim (Option-cases (described s act)) [
    | inl unread ↦ inl (unread, rt_sigaction-unread signal act oldact size s unread)
    | inr (a, read) ↦ inr (a, read, rt_sigaction-Stores signal act oldact size s a read)
  ]

  -- Where one rt_sigaction has read a handler, flags, a mask and a restorer, the next on its signal
  -- that reads an action and gets a place for the old one writes these four values there, in the
  -- order and the widths in which they were read, and the table then has under the signal the four
  -- that it has read itself; both return 0.
  pub rt_sigaction-reports :
      (signal act oldact act' oldact' size : ℕ) (s : State M)
      → (handler flags mask restorer handler' flags' mask' restorer' : ℕ)
      → M.extract s.memory act layout ≡ some (handler ∷ flags ∷ mask ∷ restorer ∷ [])
      → M.extract (rt_sigaction signal act oldact size s).1.memory act' layout
        ≡ some (handler' ∷ flags' ∷ mask' ∷ restorer' ∷ [])
      → (oldact' == 0) ≡ false
      → let (o, x) = rt_sigaction signal act oldact size s in
        let (o', y) = rt_sigaction signal act' oldact' size x in
        (o ≡ done 0)
        × (o' ≡ done 0)
        × (y.memory
            ≡ (M.write x.memory oldact' (
                (Kind.uintptr, handler)
                ∷ (Kind.int32, flags)
                ∷ (Kind.int, mask)
                ∷ (Kind.uintptr, restorer)
                ∷ [])).1)
        × (lookup signal y.sigtable
            ≡ some (record {
              sa_handler = handler';
              sa_flags = flags';
              sa_mask = mask';
              sa_restorer = restorer';
            }))
  rt_sigaction-reports signal act oldact act' oldact' size s handler flags mask restorer handler'
        flags' mask' restorer' read read' place =
      let a : Sigaction = record {
        sa_handler = handler;
        sa_flags = flags;
        sa_mask = mask;
        sa_restorer = restorer;
      } in
      let b : Sigaction = record {
        sa_handler = handler';
        sa_flags = flags';
        sa_mask = mask';
        sa_restorer = restorer';
      } in
      let first : described s act ≡ some a = rw read refl in
      let x = (rt_sigaction signal act oldact size s).1 in
      let second : described x act' ≡ some b = rw read' refl in
      let (returned, e, f, stored) = rt_sigaction-Stores signal act oldact size s a first in
      let (returned', e', told, stored') =
        rt_sigaction-Stores signal act' oldact' size x b second in
      let there : lookup signal x.sigtable ≡ some a = stored signal ∙ rw (==-self signal) refl in
      (
        returned,
        returned',
        told ∙ rw (there, place) refl,
        stored' signal ∙ rw (==-self signal) refl,
      )
