-- ===== src/VaList/Amd64Bytes.antt =====
-- `Read` of gcc/x86_64/va.go against the sequence of its bytes.
use microdbg_linux.Base.{
  ℕ, ◌+◌, ◌-◌, ◌≤◌, ◌<◌, ◌≡◌, refl, arith, Bool-cases, leb, inl, inr, true, false, Option, List,
  ◌%◌, if◌then◌else◌,
}
use microdbg_linux.Base.Word.{mod32, mod64, add64, to_32}
use microdbg_linux.VaList.Stream.{ok, or_unreadable}
use microdbg_linux.VaList.Amd64.{Amd64List, general_offset_max, amd64_read, read_rest}
use microdbg_linux.VaList.Bytes.{tabulate, seen, byte_of, stack-Reads, saved-Reads, both-Reads}

abbrev pub amd64_left : Amd64List → ℕ
amd64_left va = if leb general_offset_max va.gp_offset then 0 else general_offset_max - va.gp_offset

abbrev pub amd64_saved : Amd64List → ℕ
amd64_saved va = add64 va.reg_save_area va.gp_offset

abbrev pub amd64_bytes : (ℕ → ℕ) → Amd64List → ℕ → ℕ
amd64_bytes memory va = byte_of memory (amd64_left va) (amd64_saved va) va.overflow_arg_area

module _ (fetch : ℕ → ℕ → Option (List ℕ)) (n : ℕ) (va : Amd64List) where
  read_used :
      leb general_offset_max va.gp_offset ≡ true
      → amd64_read fetch n va ≡ (
        or_unreadable (fetch va.overflow_arg_area n),
        record va { overflow_arg_area = add64 va.overflow_arg_area n },
      )
  unfolding amd64_read
  read_used used = ground arith

  read_saved :
      leb general_offset_max va.gp_offset ≡ false
      → va.gp_offset < mod32
      → n ≤ amd64_left va
      → amd64_read fetch n va ≡ (
        or_unreadable (fetch (amd64_saved va) n),
        record va { gp_offset = to_32 (va.gp_offset + to_32 n) },
      )
  unfolding amd64_read
  read_saved left offs fits = ground arith

  read_both :
      leb general_offset_max va.gp_offset ≡ false
      → va.gp_offset < mod32
      → n < 2147483648
      → amd64_left va < n
      → amd64_read fetch n va
        ≡ read_rest fetch (n - amd64_left va) va (fetch (amd64_saved va) (amd64_left va))
  unfolding amd64_read
  read_both left offs small past =
      let i : (general_offset_max + mod32 - va.gp_offset) % mod32 ≡ amd64_left va = ground arith in
      let x : (n + mod64 - amd64_left va) % mod64 ≡ n - amd64_left va = ground arith in
      let over : leb (n + va.gp_offset) general_offset_max ≡ false = ground arith in
      rw (i, x, over, left) refl

module _ (memory : ℕ → ℕ) (n : ℕ) (va : Amd64List) where
  -- A read of less than 2^31 bytes from a list in its ranges gives that many bytes of the list, and
  -- leaves the list with the bytes behind them, wherever the registers end: from the registers, from
  -- the stack or from both.
  pub amd64_read-bytes :
      n < 2147483648
      → va.gp_offset < mod32
      → let r = amd64_read (seen memory) n va in
        (r.0 ≡ ok (tabulate n (amd64_bytes memory va)))
        × ((i : ℕ) → amd64_bytes memory r.1 i ≡ amd64_bytes memory va (n + i))
  amd64_read-bytes small offs =
      let left : ℕ = amd64_left va in
      let saved : ℕ = amd64_saved va in
      elim (Bool-cases (leb general_offset_max va.gp_offset)) [
        | inl used ↦
            let none_left : left ≡ 0 = ground arith in
            rw (read_used (seen memory) n va used)
              (stack-Reads memory n left saved va.overflow_arg_area left saved none_left none_left)
        | inr some_left ↦ elim (Bool-cases (leb n left)) [
          | inl fits ↦
              let enough : n ≤ left = ground arith in
              let va' : Amd64List = record va { gp_offset = to_32 (va.gp_offset + to_32 n) } in
              rw (read_saved (seen memory) n va some_left offs enough) (
                saved-Reads memory n left saved va.overflow_arg_area (amd64_left va')
                  (amd64_saved va') enough (ground arith) (ground arith))
          | inr past ↦
              let beyond : left < n = ground arith in
              rw (read_both (seen memory) n va some_left offs small beyond)
                (both-Reads memory n left saved va.overflow_arg_area 0 _ beyond refl)
        ]
      ]
