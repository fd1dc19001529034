-- ===== src/Futex/Tracks.antt =====
-- The map from keys to channels of kernel/futex.go against the waiters that hold a channel: a
-- waiter is the key under which it entered and the channel that it was given.
use microdbg_linux.Base.{
  ℕ, ◌+◌, ◌<◌, ◌≤◌, ◌≡◌, refl, arith, true, false, Option, none, some, List, [], ◌∷◌, ◌++◌, ◌∙◌,
  sym, ◌==◌, leb, if◌then◌else◌, ◌⊎◌, inl, inr, Option-cases, Bool-cases, eq_of_==,
}
use mathlib.Core.Path.{subst}
use microdbg_linux.Base.Assoc.{Assoc, lookup}
use microdbg_linux.Exec.{Await}
use microdbg_linux.Futex.{add_to, add_ref, made, del_ref}
use microdbg_linux.Futex.Counts.{less, lookup-add_ref, lookup-del_ref}

abbrev pub Holders : Type 0
Holders = List (ℕ × ℕ)

abbrev pub count : ℕ → Holders → ℕ
count key [] = 0
count key ((k, ch) ∷ rest) = (if k == key then 1 else 0) + count key rest

-- All holders of a key have this channel.
abbrev pub AllOn : ℕ → ℕ → Holders → Type 0
AllOn key ch [] = Unit
AllOn key ch ((k, c) ∷ rest) = ((k == key) ≡ true → c ≡ ch) × AllOn key ch rest

-- What the entry of a key says of its holders: as many as its references, all on its channel; a key
-- without an entry has none.
abbrev pub Entry : ℕ → Holders → Option Await → Type 0
Entry key hs none = count key hs ≡ 0
Entry key hs (some a) = (count key hs ≡ a.ref) × (0 < a.ref) × AllOn key a.ch hs

pub record Tracks (made_so_far : ℕ) (m : Assoc Await) (hs : Holders) : Type 0 where
  pub entry : (key : ℕ) → Entry key hs (lookup key m)
  pub below : (key : ℕ) (a : Await) → lookup key m ≡ some a → a.ch < made_so_far
  pub apart :
      (j k : ℕ) (a b : Await) → lookup j m ≡ some a → lookup k m ≡ some b → a.ch ≡ b.ch → j ≡ k

AllOn-none : (key ch : ℕ) (hs : Holders) → count key hs ≡ 0 → AllOn key ch hs
AllOn-none key ch [] h = tt
AllOn-none key ch ((k, c) ∷ rest) h = (λ e. ground arith, AllOn-none key ch rest (ground arith))

pub count-middle :
    (j key ch : ℕ) (front back : Holders)
    → count j (front ++ (key, ch) ∷ back) ≡ (if key == j then 1 else 0) + count j (front ++ back)
count-middle j key ch [] back = refl
count-middle j key ch ((k, c) ∷ front) back = omega (arith, count-middle j key ch front back)

AllOn-middle :
    (j c : ℕ) (x : ℕ × ℕ) (front back : Holders)
    → AllOn j c (front ++ x ∷ back)
    → AllOn j c (front ++ back)
AllOn-middle j c x [] back h = h.1
AllOn-middle j c x (y ∷ front) back h = (h.0, AllOn-middle j c x front back h.1)

Entry-add :
    (fresh key : ℕ) (hs : Holders) (o : Option Await)
    → Entry key hs o
    → Entry key ((key, (add_to fresh o).ch) ∷ hs) (some (add_to fresh o))
Entry-add fresh key hs none h =
    (ground arith, omega arith, ((λ e. refl), AllOn-none key fresh hs h))
Entry-add fresh key hs (some a) h = (ground arith, omega arith, ((λ e. refl), h.2))

Entry-other :
    (key ch j : ℕ) (hs : Holders) (o : Option Await)
    → (key == j) ≡ false
    → Entry j hs o
    → Entry j ((key, ch) ∷ hs) o
Entry-other key ch j hs none ne h = ground arith
Entry-other key ch j hs (some a) ne h = (ground arith, h.1, ((λ e. cc), h.2))

Entry-less :
    (key ch : ℕ) (front back : Holders) (o : Option Await)
    → Entry key (front ++ (key, ch) ∷ back) o
    → Entry key (front ++ back) (less o)
Entry-less key ch front back none h = ground (arith, count-middle key key ch front back)
Entry-less key ch front back (some a) h =
    let counted : count key (front ++ back) + 1 ≡ a.ref =
      ground (arith, count-middle key key ch front back) in
    elim (Bool-cases (leb a.ref 1)) [
      | inl last ↦ rw last (ground arith)
      | inr more ↦
          rw more (ground arith, ground arith, AllOn-middle key a.ch (key, ch) front back h.2)
    ]

Entry-left :
    (key ch j : ℕ) (front back : Holders) (o : Option Await)
    → (key == j) ≡ false
    → Entry j (front ++ (key, ch) ∷ back) o
    → Entry j (front ++ back) o
Entry-left key ch j front back none ne h = ground (arith, count-middle j key ch front back)
Entry-left key ch j front back (some a) ne h = (
  ground (arith, count-middle j key ch front back),
  h.1,
  AllOn-middle j a.ch (key, ch) front back h.2,
)

add-Entry :
    (fresh key j : ℕ) (m : Assoc Await) (hs : Holders)
    → ((k : ℕ) → Entry k hs (lookup k m))
    → Entry j ((key, (add_to fresh (lookup key m)).ch) ∷ hs) (lookup j (add_ref fresh key m))
add-Entry fresh key j m hs h = elim (Bool-cases (key == j)) [
  | inl same ↦
      rw (lookup-add_ref, same)
        (subst
          (λ x.
            Entry x ((key, (add_to fresh (lookup key m)).ch) ∷ hs)
              (some (add_to fresh (lookup key m))))
          (eq_of_== key j same) (Entry-add fresh key hs (lookup key m) (h key)))
  | inr other ↦
      rw (lookup-add_ref, other)
        (Entry-other key (add_to fresh (lookup key m)).ch j hs (lookup j m) other (h j))
]

add-below :
    (n key j : ℕ) (m : Assoc Await) (a : Await)
    → ((k : ℕ) (b : Await) → lookup k m ≡ some b → b.ch < n)
    → lookup j (add_ref n key m) ≡ some a
    → a.ch < made n (lookup key m)
add-below n key j m a h e = elim (Option-cases (lookup key m)) [
  | inl new ↦ ground (arith, lookup-add_ref n key j m, h j a)
  | inr (b, old) ↦ ground (arith, lookup-add_ref n key j m, h j a, h key b old)
]

-- The channel of an entry behind `add_ref`: the one that its key had, or a new one for a new key.
add-ch :
    (n key j : ℕ) (m : Assoc Await) (a : Await)
    → lookup j (add_ref n key m) ≡ some a
    → ((key ≡ j) × (lookup j m ≡ none) × (a.ch ≡ n))
      ⊎ ((b : Await) × (lookup j m ≡ some b) × (b.ch ≡ a.ch))
add-ch n key j m a e = elim (Bool-cases (key == j)) [
  | inl same ↦ elim (Option-cases (lookup key m)) [
    | inl new ↦ inl (
      eq_of_== key j same,
      ground (arith, eq_of_== key j same),
      ground (arith, lookup-add_ref n key j m),
    )
    | inr (b, old) ↦
        inr (b, ground (arith, eq_of_== key j same), ground (arith, lookup-add_ref n key j m))
  ]
  | inr other ↦ inr (a, ground (arith, lookup-add_ref n key j m), refl)
]

-- A waiter that enters by `add_ref` gets the channel of its key.
pub add-Tracks :
    (n key : ℕ) (m : Assoc Await) (hs : Holders)
    → Tracks n m hs
    → Tracks (made n (lookup key m)) (add_ref n key m) ((key, (add_to n (lookup key m)).ch) ∷ hs)
add-Tracks n key m hs h = record {
  entry = λ j. add-Entry n key j m hs h.entry;
  below = λ j a e. add-below n key j m a h.below e;
  apart = λ j k a b ea eb same. elim (add-ch n key j m a ea) [
    | inl (one, p, x) ↦ elim (add-ch n key k m b eb) [
      | inl (two, q, y) ↦ sym one ∙ two
      | inr (b', q, y) ↦ ground (arith, h.below k b' q)
    ]
    | inr (a', p, x) ↦ elim (add-ch n key k m b eb) [
      | inl (two, q, y) ↦ ground (arith, h.below j a' p)
      | inr (b', q, y) ↦ h.apart j k a' b' p q (x ∙ same ∙ sym y)
    ]
  ];
}

del-Entry :
    (key ch j : ℕ) (m : Assoc Await) (front back : Holders)
    → ((k : ℕ) → Entry k (front ++ (key, ch) ∷ back) (lookup k m))
    → Entry j (front ++ back) (lookup j (del_ref key m))
del-Entry key ch j m front back h = elim (Bool-cases (key == j)) [
  | inl same ↦
      rw (lookup-del_ref, same)
        (subst (λ x. Entry x (front ++ back) (less (lookup key m))) (eq_of_== key j same)
          (Entry-less key ch front back (lookup key m) (h key)))
  | inr other ↦ rw (lookup-del_ref, other) (Entry-left key ch j front back (lookup j m) other (h j))
]

del-ch :
    (key j : ℕ) (m : Assoc Await) (a : Await)
    → lookup j (del_ref key m) ≡ some a
    → (b : Await) × (lookup j m ≡ some b) × (b.ch ≡ a.ch)
del-ch key j m a e = elim (Bool-cases (key == j)) [
  | inl same ↦ elim (Option-cases (lookup key m)) [
    | inl gone ↦ ground (arith, lookup-del_ref key j m)
    | inr (b, old) ↦
        (b, ground (arith, eq_of_== key j same), ground (arith, lookup-del_ref key j m))
  ]
  | inr other ↦ (a, ground (arith, lookup-del_ref key j m), refl)
]

-- A waiter that leaves takes its reference with it.
pub del-Tracks :
    (n key ch : ℕ) (m : Assoc Await) (front back : Holders)
    → Tracks n m (front ++ (key, ch) ∷ back)
    → Tracks n (del_ref key m) (front ++ back)
del-Tracks n key ch m front back h = record {
  entry = λ j. del-Entry key ch j m front back h.entry;
  below = λ j a e. let (b, p, x) = del-ch key j m a e in ground (arith, h.below j b p);
  apart = λ j k a b ea eb same.
      let (a', p, x) = del-ch key j m a ea in
      let (b', q, y) = del-ch key k m b eb in h.apart j k a' b' p q (x ∙ same ∙ sym y);
}

-- Channels made for another map do no harm.
pub more-Tracks :
    (n n' : ℕ) (m : Assoc Await) (hs : Holders) → n ≤ n' → Tracks n m hs → Tracks n' m hs
more-Tracks n n' m hs le h = record {
  entry = h.entry;
  below = λ key a e. omega (arith, h.below key a e);
  apart = h.apart;
}

pub made-le : (n : ℕ) (o : Option Await) → n ≤ made n o
made-le n none = omega arith
made-le n (some a) = omega arith

pub none-Tracks : (n : ℕ) → Tracks n [] []
unfolding lookup
none-Tracks n = record {
  entry = λ key. refl;
  below = λ key a e. ground arith;
  apart = λ j k a b ea eb same. ground arith;
}
