-- ===== src/Interpreter/Bulk.antt =====
-- interpret_visitor.hpp: memory.copy, memory.fill and table.copy. Such a handler moves one element and
-- leaves the program counter where it is, until nothing is left to move; the loop that calls handlers
-- then calls it again.
pub mod Cells
pub mod Loop
pub mod Copies
pub mod Outcomes
pub mod Fill
use eos_vm.Prelude.{
  ℕ, zero, suc, ◌+◌, ◌-◌, ◌%◌, ◌^◌, List, [], ◌∷◌, Bool, true, false, Option, none, some, ltb, leb,
  ◌==◌, if◌then◌else◌, get_elem?,
}
use eos_vm.Prelude.Result.{
  Result, ok, err, ◌>>=◌, ◌>>◌, eos_vm_assert, or_throw, undefined, wasm_memory_exception,
}
use eos_vm.Types.{TableEntry, TableType}
use eos_vm.Interpreter.Operand.{Operand, i32_const_t, to_ui32}
use eos_vm.Interpreter.Memory.{WasmAllocator, in_pages, read_unaligned, write_unaligned}

-- The three operands of these instructions, top first, and the operands under them.
pub record Operands : Type 0 where
  pub size : ℕ
  pub src : ℕ
  pub dst : ℕ
  pub under : List Operand

-- peek_operand(0), peek_operand(1) and peek_operand(2), as 32-bit numbers
unfoldable pub peek_three : List Operand → Result Operands
peek_three (a ∷ b ∷ c ∷ os) = do
  size ← to_ui32 a
  src ← to_ui32 b
  dst ← to_ui32 c
  ok (record { size = size; src = src; dst = dst; under = os })
peek_three os = err undefined

abbrev pub with_operands : ℕ → ℕ → ℕ → List Operand → List Operand
with_operands size src dst os = i32_const_t size ∷ i32_const_t src ∷ i32_const_t dst ∷ os

-- validate_pointer<uint8_t>(ptr, len): it reads the last of the bytes, or the byte before the pointer
-- where there are none; the page before the memory can be read.
unfoldable pub validate_pointer : ℕ → ℕ → WasmAllocator → Result (Unit {0})
validate_pointer ptr len a = eos_vm_assert (in_pages a ptr len) wasm_memory_exception

-- The operands and the memory behind a call of a handler, and whether the program counter moved.
abbrev pub Stepped : Type 0 → Type 0
Stepped S = Bool × List Operand × S

-- The handler of memory_copy_t.
unfoldable pub memory_copy : List Operand → WasmAllocator → Result (Stepped WasmAllocator)
memory_copy os a = do
  o ← peek_three os
  validate_pointer o.src o.size a
  validate_pointer o.dst o.size a
  let up = (do
    b ← read_unaligned 1 o.src a
    a' ← write_unaligned 1 o.dst b a
    ok (
      false,
      with_operands (o.size - 1) ((o.src + 1) % 2 ^ 32) ((o.dst + 1) % 2 ^ 32) o.under,
      a',
    ))
  let down = (do
    b ← read_unaligned 1 (o.src + (o.size - 1)) a
    a' ← write_unaligned 1 (o.dst + (o.size - 1)) b a
    ok (false, with_operands (o.size - 1) o.src o.dst o.under, a'))
  if o.size == 0 then ok (true, o.under, a) else if leb o.dst o.src then up else down

-- The handler of memory_fill_t.
unfoldable pub memory_fill : List Operand → WasmAllocator → Result (Stepped WasmAllocator)
memory_fill os a = do
  o ← peek_three os
  validate_pointer o.dst o.size a
  let next = (do
    a' ← write_unaligned 1 o.dst (o.src % 256) a
    ok (false, with_operands (o.size - 1) o.src ((o.dst + 1) % 2 ^ 32) o.under, a'))
  if o.size == 0 then ok (true, o.under, a) else next

-- A table: the limit on its elements, and the element at each place.
abbrev pub Table : Type 0
Table = ℕ → TableEntry

-- get_table_ptr(base, size), as the test that it makes
unfoldable pub get_table_ptr : List TableType → ℕ → ℕ → Result (Unit {0})
get_table_ptr tables base size = do
  t ← or_throw (get_elem? tables 0) undefined
  eos_vm_assert (leb (base + size) t.limits.initial) wasm_memory_exception

-- table[index] = entry
abbrev pub put : {A : Type 0} → ℕ → A → (ℕ → A) → ℕ → A
put index entry cells i = if i == index then entry else cells i

-- The handler of table_copy_t.
unfoldable pub table_copy : List TableType → List Operand → Table → Result (Stepped Table)
table_copy tables os t = do
  o ← peek_three os
  get_table_ptr tables o.src o.size
  get_table_ptr tables o.dst o.size
  let up : Stepped Table = (
    false,
    with_operands (o.size - 1) ((o.src + 1) % 2 ^ 32) ((o.dst + 1) % 2 ^ 32) o.under,
    put o.dst (t o.src) t,
  )
  let last = o.size - 1
  let down : Stepped Table =
      (false, with_operands last o.src o.dst o.under, put (o.dst + last) (t (o.src + last)) t)
  if o.size == 0 then ok (true, o.under, t) else if leb o.dst o.src then ok up else ok down

-- A handler that is called until the program counter moves, on fuel: `none` where the fuel ran out.
unfoldable pub until_done :
    {S : Type 0}
    → ℕ
    → (List Operand → S → Result (Stepped S))
    → List Operand
    → S
    → Option (Result (List Operand × S))
until_done zero handler os s = none
until_done (suc fuel) handler os s = elim (handler os s) [
  | err e ↦ some (err e)
  | ok (true, os', s') ↦ some (ok (os', s'))
  | ok (false, os', s') ↦ until_done fuel handler os' s'
]
