-- ===== src/Interpreter/Bulk/Outcomes.antt =====
-- memory.copy and table.copy move as memmove does, or throw.
use eos_vm.Prelude.{
  ℕ, ◌+◌, ◌*◌, ◌^◌, ◌≤◌, ◌<◌, ◌≡◌, ◌⊎◌, inl, inr, refl, List, some, leb, leb→le, Bool-cases,
  get_elem?, arith,
}
use eos_vm.Prelude.Result.{err, wasm_memory_exception}
use eos_vm.Types.{TableType}
use eos_vm.Interpreter.Operand.{Operand, to_ui32}
use eos_vm.Interpreter.Memory.{WasmAllocator, page_size, in_pages}
use eos_vm.Interpreter.Bulk.{
  peek_three, with_operands, validate_pointer, memory_copy, Table, get_table_ptr, table_copy,
  until_done,
}
use eos_vm.Interpreter.Bulk.Loop.{Copied, until_done-Copied, until_done-err}
use eos_vm.Interpreter.Bulk.Copies.{
  IsMemory, in_pages-false, lt→leb_false, memory_copy-IsCopy, table_copy-IsCopy,
}

memory_copy_moves :
    (fuel n s d page : ℕ) (os : List Operand) (a : WasmAllocator)
    → n < fuel
    → page ≤ 65536
    → IsMemory page a
    → s + n ≤ page_size * page
    → d + n ≤ page_size * page
    → Copied
        (IsMemory page)
        (λ b. b.raw)
        n
        s
        d
        a
        os
        (until_done fuel memory_copy (with_operands n s d os) a)
memory_copy_moves fuel n s d page os a l p m h k =
    until_done-Copied (memory_copy-IsCopy page) (omega (arith, p)) fuel n s d os a l m h k

-- Either range is behind the bound, or both are below it.
sides :
    (n s d bound : ℕ) → ((bound < s + n) ⊎ (bound < d + n)) ⊎ ((s + n ≤ bound) × (d + n ≤ bound))
sides n s d bound = elim (Bool-cases (leb (s + n) bound)) [
  | inr f ↦ inl (inl (ground (arith, f)))
  | inl f ↦ elim (Bool-cases (leb (d + n) bound)) [
    | inr g ↦ inl (inr (ground (arith, g)))
    | inl g ↦ inr (leb→le _ _ f, leb→le _ _ g)
  ]
]

first_call_throws :
    (n s d page : ℕ) (os : List Operand) (a : WasmAllocator)
    → a.page ≡ some page
    → (page_size * page < s + n) ⊎ (page_size * page < d + n)
    → memory_copy (with_operands n s d os) a ≡ err wasm_memory_exception
unfolding memory_copy peek_three to_ui32 validate_pointer
first_call_throws n s d page os a e o = elim (Bool-cases (in_pages a s n)) [
  | inr f ↦ rw f refl
  | inl f ↦ elim o [
    | inl h ↦ absurd (ground (arith, f, in_pages-false a page s n e h))
    | inr h ↦ rw (f, in_pages-false a page d n e h) refl
  ]
]

-- memory.copy on a memory of at most 65536 pages of bytes, called until it is done with more fuel than
-- bytes: where the source or the destination reaches out of the memory, the first call throws a memory
-- exception, and so do the calls together; else it takes its operands and moves the bytes as memmove does, also where the two ranges
-- overlap: a byte of the destination is the one that stood at its place of the source before, and the
-- other bytes are as they were.
pub memory_copy_outcome :
    (fuel n s d page : ℕ) (os : List Operand) (a : WasmAllocator)
    → n < fuel
    → page ≤ 65536
    → IsMemory page a
    → (((page_size * page < s + n) ⊎ (page_size * page < d + n))
        × (memory_copy (with_operands n s d os) a ≡ err wasm_memory_exception)
        × (until_done fuel memory_copy (with_operands n s d os) a
            ≡ some (err wasm_memory_exception)))
      ⊎ Copied
          (IsMemory page)
          (λ b. b.raw)
          n
          s
          d
          a
          os
          (until_done fuel memory_copy (with_operands n s d os) a)
memory_copy_outcome fuel n s d page os a l p m = elim (sides n s d (page_size * page)) [
  | inl o ↦
      let first = first_call_throws n s d page os a m.pages o in
      inl (
        o,
        first,
        until_done-err fuel memory_copy (with_operands n s d os) a wasm_memory_exception
            (omega (arith, l)) first,
      )
  | inr (h, k) ↦ inr (memory_copy_moves fuel n s d page os a l p m h k)
]

first_table_copy_throws :
    (n s d : ℕ) (tables : List TableType) (t : TableType) (os : List Operand) (table : Table)
    → get_elem? tables 0 ≡ some t
    → (t.limits.initial < s + n) ⊎ (t.limits.initial < d + n)
    → table_copy tables (with_operands n s d os) table ≡ err wasm_memory_exception
unfolding table_copy peek_three to_ui32 get_table_ptr
first_table_copy_throws n s d tables t os table e o =
    elim (Bool-cases (leb (s + n) t.limits.initial)) [
      | inr f ↦ rw (e, f) refl
      | inl f ↦ elim o [
        | inl h ↦ absurd (ground (arith, f, h))
        | inr h ↦ rw (e, f, lt→leb_false (d + n) t.limits.initial h) refl
      ]
    ]

-- table.copy, called until it is done with more fuel than elements: out of the table, at its source or
-- at its destination, it throws a memory exception; else it takes its operands and moves the elements
-- as memmove does.
pub table_copy_outcome :
    (fuel n s d : ℕ) (tables : List TableType) (t : TableType) (os : List Operand) (table : Table)
    → n < fuel
    → get_elem? tables 0 ≡ some t
    → t.limits.initial ≤ 2 ^ 32
    → (((t.limits.initial < s + n) ⊎ (t.limits.initial < d + n))
        × (until_done fuel (table_copy tables) (with_operands n s d os) table
            ≡ some (err wasm_memory_exception)))
      ⊎ Copied
          (λ _. Unit {0})
          (λ b. b)
          n
          s
          d
          table
          os
          (until_done fuel (table_copy tables) (with_operands n s d os) table)
table_copy_outcome fuel n s d tables t os table l e p = elim (sides n s d t.limits.initial) [
  | inl o ↦ inl (
    o,
    until_done-err fuel (table_copy tables) (with_operands n s d os) table wasm_memory_exception
        (omega (arith, l)) (first_table_copy_throws n s d tables t os table e o),
  )
  | inr (h, k) ↦
      inr (until_done-Copied (table_copy-IsCopy tables t e) p fuel n s d os table l tt h k)
]
