-- ===== src/VaList/Bytes.antt =====
-- The arguments of gcc/ as one sequence of bytes: those that the registers have left, and then the
-- stack.
use microdbg_linux.Base.{
  ℕ, zero, suc, ◌+◌, ◌-◌, ◌≤◌, ◌<◌, ◌≡◌, refl, sym, ap, ◌∙◌, arith, Option, some, List, [], ◌∷◌,
  ◌++◌, ltb, if◌then◌else◌,
}
use microdbg_linux.Base.Word.{add64}
use microdbg_linux.VaList.Stream.{ok}

-- `n` elements, from their indices.
abbrev pub tabulate : ℕ → (ℕ → ℕ) → List ℕ
tabulate zero f = []
tabulate (suc n) f = f 0 ∷ tabulate n (λ i. f (suc i))

tabulate_ext : (n : ℕ) (f g : ℕ → ℕ) → ((i : ℕ) → i < n → f i ≡ g i) → tabulate n f ≡ tabulate n g
tabulate_ext zero f g same = refl
tabulate_ext (suc n) f g same =
    rw
      (
        same 0 (omega arith),
        tabulate_ext n (λ i. f (suc i)) (λ i. g (suc i)) (λ i lt. same (suc i) (omega arith)),
      )
      refl

tabulate_append :
    (k n : ℕ) (f : ℕ → ℕ) → tabulate (k + n) f ≡ tabulate k f ++ tabulate n (λ i. f (k + i))
tabulate_append zero n f =
    let e : 0 + n ≡ n = omega arith in
    rw e (tabulate_ext n f (λ i. f (0 + i)) (λ i lt. ap f (omega arith)))
tabulate_append (suc k) n f =
    let e : suc k + n ≡ suc (k + n) = omega arith in
    rw (e, tabulate_append k n (λ i. f (suc i)))
      (ap (λ bs. f 0 ∷ tabulate k (λ i. f (suc i)) ++ bs)
        (tabulate_ext n (λ i. f (suc (k + i))) (λ i. f (suc k + i)) (λ i lt. ap f (omega arith))))

module _ (memory : ℕ → ℕ) where
  -- The memory, from an address on, and a read of it.
  abbrev pub from : ℕ → ℕ → ℕ
  from addr i = memory (add64 addr i)

  abbrev pub seen : ℕ → ℕ → Option (List ℕ)
  seen addr n = some (tabulate n (from addr))

  -- The byte at an index, with `left` bytes at `saved` in front of the stack.
  abbrev pub byte_of : ℕ → ℕ → ℕ → ℕ → ℕ
  byte_of left saved stack i = if ltb i left then from saved i else from stack (i - left)

  all_saved :
      (n left saved stack : ℕ)
      → n ≤ left
      → tabulate n (from saved) ≡ tabulate n (byte_of left saved stack)
  all_saved n left saved stack fits =
      tabulate_ext n (from saved) (byte_of left saved stack) (λ i lt. ground arith)

  saved_then_stack :
      (n left saved stack : ℕ)
      → left ≤ n
      → tabulate left (from saved) ++ tabulate (n - left) (from stack)
        ≡ tabulate n (byte_of left saved stack)
  saved_then_stack n left saved stack past =
      let f : ℕ → ℕ = byte_of left saved stack in
      let e : n ≡ left + (n - left) = omega arith in
      let front = tabulate_ext left (from saved) f (λ i lt. ground arith) in
      let back = tabulate_ext (n - left) (from stack) (λ i. f (left + i)) (λ i lt. ground arith) in
      rw (front, back) refl
      ∙ sym (tabulate_append left (n - left) f)
      ∙ ap (λ k. tabulate k f) (sym e)

  all_stack :
      (n left saved stack : ℕ)
      → left ≡ 0
      → tabulate n (from stack) ≡ tabulate n (byte_of left saved stack)
  all_stack n left saved stack none_left =
      tabulate_ext n (from stack) (byte_of left saved stack)
        λ i lt. let same : i - left ≡ i = omega arith in ground (arith, ap (λ j. from stack j) same)

  -- The sequence behind `k` bytes, where the registers have them and where they do not.
  behind_saved :
      (k left left' saved saved' stack i : ℕ)
      → k ≤ left
      → left' ≡ left - k
      → saved' ≡ add64 saved k
      → byte_of left' saved' stack i ≡ byte_of left saved stack (k + i)
  behind_saved k left left' saved saved' stack i fits fewer further =
      let same : add64 saved' i ≡ add64 saved (k + i) = omega arith in
      let rest : i - left' ≡ k + i - left = omega arith in
      ground (arith, ap memory same, ap (λ j. from stack j) rest)

  behind_stack :
      (k left left' saved saved' stack stack' i : ℕ)
      → left ≤ k
      → left' ≡ 0
      → stack' ≡ add64 stack (k - left)
      → byte_of left' saved' stack' i ≡ byte_of left saved stack (k + i)
  behind_stack k left left' saved saved' stack stack' i past none_left further =
      let same : add64 stack' (i - left') ≡ add64 stack (k + i - left) = omega arith in
      ground (arith, ap memory same)

-- A read of `n` bytes of the sequence, and the registers and the stack behind it.
module _ (memory : ℕ → ℕ) (n left saved stack : ℕ) where
  abbrev pub Reads : List ℕ → ℕ → ℕ → ℕ → Type 0
  Reads bs left' saved' stack' =
      (ok bs ≡ ok (tabulate n (byte_of memory left saved stack)))
      × ((i : ℕ) → byte_of memory left' saved' stack' i ≡ byte_of memory left saved stack (n + i))

  pub stack-Reads :
      (left' saved' : ℕ)
      → left ≡ 0
      → left' ≡ 0
      → Reads (tabulate n (from memory stack)) left' saved' (add64 stack n)
  stack-Reads left' saved' none_left none_left' = (
    ap ok (all_stack memory n left saved stack none_left),
    λ i.
        let further : add64 stack n ≡ add64 stack (n - left) = omega (arith, none_left) in
        behind_stack memory n left left' saved saved' stack _ i (omega (arith, none_left))
          none_left' further,
  )

  pub saved-Reads :
      (left' saved' : ℕ)
      → n ≤ left
      → left' ≡ left - n
      → saved' ≡ add64 saved n
      → Reads (tabulate n (from memory saved)) left' saved' stack
  saved-Reads left' saved' enough fewer further = (
    ap ok (all_saved memory n left saved stack enough),
    λ i. behind_saved memory n left left' saved saved' stack i enough fewer further,
  )

  pub both-Reads :
      (left' saved' : ℕ)
      → left < n
      → left' ≡ 0
      → Reads
          (tabulate left (from memory saved) ++ tabulate (n - left) (from memory stack))
          left'
          saved'
          (add64 stack (n - left))
  both-Reads left' saved' past none_left = (
    ap ok (saved_then_stack memory n left saved stack (omega (arith, past))),
    λ i.
        behind_stack memory n left left' saved saved' stack _ i (omega (arith, past)) none_left
          refl,
  )
