-- ===== src/VaList/Arm64Bytes.antt =====
-- `Read` of gcc/arm64/va.go against the sequence of its bytes.
use microdbg_linux.Base.{
  ℕ, ◌+◌, ◌-◌, ◌≤◌, ◌<◌, ◌≡◌, refl, arith, Bool-cases, leb, inl, inr, true, false, Option, List,
  ◌%◌, ◌||◌, ◌==◌, if◌then◌else◌,
}
use microdbg_linux.Base.Word.{mod32, mod64, add64, extend, to_32, is_negative}
use microdbg_linux.VaList.Stream.{ok, or_unreadable}
use microdbg_linux.VaList.Arm64.{Arm64List, is_used_up, arm64_read, read_parts}
use microdbg_linux.VaList.Bytes.{tabulate, seen, byte_of, stack-Reads, saved-Reads, both-Reads}

abbrev pub arm64_left : Arm64List → ℕ
arm64_left va = if is_used_up va.gr_offs then 0 else mod32 - va.gr_offs

abbrev pub arm64_saved : Arm64List → ℕ
arm64_saved va = add64 va.gr_top (extend va.gr_offs)

abbrev pub arm64_bytes : (ℕ → ℕ) → Arm64List → ℕ → ℕ
arm64_bytes memory va = byte_of memory (arm64_left va) (arm64_saved va) va.stack

module _ (fetch : ℕ → ℕ → Option (List ℕ)) (n : ℕ) (va : Arm64List) where
  read_used :
      is_used_up va.gr_offs ≡ true
      → arm64_read fetch n va
        ≡ (or_unreadable (fetch va.stack n), record va { stack = add64 va.stack n })
  unfolding arm64_read
  read_used used = ground arith

  read_saved :
      is_used_up va.gr_offs ≡ false
      → va.gr_offs < mod32
      → n ≤ arm64_left va
      → arm64_read fetch n va ≡ (
        or_unreadable (fetch (arm64_saved va) n),
        record va { gr_offs = to_32 (va.gr_offs + to_32 n) },
      )
  unfolding arm64_read
  read_saved left offs fits = ground arith

  read_both :
      is_used_up va.gr_offs ≡ false
      → va.gr_offs < mod32
      → n < 2147483648
      → arm64_left va < n
      → arm64_read fetch n va
        ≡ read_parts fetch (n - arm64_left va) va (fetch (arm64_saved va) (arm64_left va))
  unfolding arm64_read
  read_both left offs small past =
      let x : add64 n (extend va.gr_offs) ≡ n - arm64_left va = ground arith in
      let i : (n + mod64 - (n - arm64_left va)) % mod64 ≡ arm64_left va = ground arith in
      let positive : (is_negative (n - arm64_left va) || (n - arm64_left va == 0)) ≡ false =
        ground arith in
      rw (x, positive, i, left) refl

module _ (memory : ℕ → ℕ) (n : ℕ) (va : Arm64List) where
  -- A read of less than 2^31 bytes from a list in its ranges gives that many bytes of the list, and
  -- leaves the list with the bytes behind them, wherever the registers end: from the registers, from
  -- the stack or from both.
  pub arm64_read-bytes :
      n < 2147483648
      → va.gr_offs < mod32
      → let r = arm64_read (seen memory) n va in
        (r.0 ≡ ok (tabulate n (arm64_bytes memory va)))
        × ((i : ℕ) → arm64_bytes memory r.1 i ≡ arm64_bytes memory va (n + i))
  arm64_read-bytes small offs =
      let left : ℕ = arm64_left va in
      let saved : ℕ = arm64_saved va in
      elim (Bool-cases (is_used_up va.gr_offs)) [
        | inl used ↦
            let none_left : left ≡ 0 = ground arith in
            rw (read_used (seen memory) n va used)
              (stack-Reads memory n left saved va.stack left saved none_left none_left)
        | inr some_left ↦ elim (Bool-cases (leb n left)) [
          | inl fits ↦
              let enough : n ≤ left = ground arith in
              let va' : Arm64List = record va { gr_offs = to_32 (va.gr_offs + to_32 n) } in
              rw (read_saved (seen memory) n va some_left offs enough) (
                saved-Reads memory n left saved va.stack (arm64_left va') (arm64_saved va') enough
                  (ground arith) (ground arith))
          | inr past ↦
              let beyond : left < n = ground arith in
              rw (read_both (seen memory) n va some_left offs small beyond)
                (both-Reads memory n left saved va.stack 0 _ beyond refl)
        ]
      ]
