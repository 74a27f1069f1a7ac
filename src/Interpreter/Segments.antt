-- ===== src/Interpreter/Segments.antt =====
-- execution_context.hpp: what reset loads from a module, and the instructions on data and element
-- segments. The places of the pointers to globals and table, in front of the memory, are left out, and
-- so is the capacity of the operand stack.
pub mod Stores
pub mod Entries
pub mod Loaded
pub mod Indirect
pub mod Calls
pub mod Memory
use eos_vm.Prelude.{
  ℕ, zero, suc, ◌+◌, ◌-◌, ◌*◌, ◌%◌, ◌^◌, List, [], ◌∷◌, Bool, true, false, Option, none, some, ltb,
  leb, ◌==◌, if◌then◌else◌, length, get_elem?, set, take, drop, map,
}
use eos_vm.Prelude.Result.{
  Result, ok, err, ◌>>=◌, ◌>>◌, eos_vm_assert, or_throw, undefined, wasm_bad_alloc,
  wasm_memory_exception, wasm_interpreter_exception, out_of_range,
}
use eos_vm.Types.{
  TableEntry, TableType, MemoryType, ElemMode, active, passive, declarative, ElemSegment,
  DataSegment, Module, get_function_type, func_type_equal,
}
use eos_vm.Interpreter.Memory.{WasmAllocator, page_size, reset_pages, reset_none}
use eos_vm.Interpreter.Bulk.{Table, put, validate_pointer}

-- The members of execution_context_base that a module is loaded into. A table is the element at each
-- place, also behind its limit.
pub record Instance : Type 0 where
  pub memory : WasmAllocator
  pub globals : List ℕ
  pub table : Table
  pub dropped_data : List Bool
  pub dropped_elems : List Bool

-- memcpy from a list to cells
unfoldable pub store_list : {A : Type 0} → List A → ℕ → (ℕ → A) → ℕ → A
store_list [] d cells = cells
store_list (x ∷ xs) d cells = store_list xs (d + 1) (put d x cells)

-- An entry of bytes 0xff.
abbrev pub null_entry : TableEntry
null_entry = record { type = 2 ^ 32 - 1; index = 2 ^ 32 - 1 }

-- The loop of reset over the data segments, with the flags of _dropped_data.
unfoldable pub load_data :
    List MemoryType → List DataSegment → WasmAllocator → Result (List Bool × WasmAllocator)
load_data memories [] a = ok ([], a)
load_data memories (seg ∷ segs) a =
    let offset = seg.offset.value % 2 ^ 32 in
    let loaded = (do
      m ← or_throw (get_elem? memories 0) undefined
      eos_vm_assert (leb (offset + length seg.contents) (m.limits.initial * page_size))
          wasm_memory_exception
      ok (record a { raw = store_list seg.contents offset a.raw })) in
    do
      a' ← (if seg.passive then ok a else loaded)
      (dropped, a'') ← load_data memories segs a'
      ok ((if seg.passive then false else true) ∷ dropped, a'')

-- A round of the loop over the element segments, on a table with `initial` elements.
unfoldable pub load_segment : ℕ → ElemMode → ElemSegment → Table → Result (Bool × Table)
load_segment initial passive seg table = ok (false, table)
load_segment initial declarative seg table = ok (true, table)
load_segment initial active seg table =
    let offset = seg.offset.value % 2 ^ 32 in
    do
      eos_vm_assert (leb (offset + length seg.elems) initial) wasm_memory_exception
      ok (true, store_list seg.elems offset table)

-- The loop of reset over the element segments, with the flags of _dropped_elems.
unfoldable pub load_elements : ℕ → List ElemSegment → Table → Result (List Bool × Table)
load_elements initial [] table = ok ([], table)
load_elements initial (seg ∷ segs) table = do
  (flag, table') ← load_segment initial seg.mode seg table
  (dropped, table'') ← load_elements initial segs table'
  ok (flag ∷ dropped, table'')

-- The memory of reset, before the data segments.
unfoldable pub reset_memory : ℕ → List MemoryType → WasmAllocator → Result WasmAllocator
reset_memory max_pages [] a = ok (reset_none a)
reset_memory max_pages (m ∷ ms) a = do
  eos_vm_assert (leb m.limits.initial max_pages) wasm_bad_alloc
  reset_pages m.limits.initial a

-- The table of reset: the flags stay as they are where the module has no table.
unfoldable pub reset_table :
    List TableType → List ElemSegment → List Bool → Table → Result (List Bool × Table)
reset_table [] elements dropped table = ok (dropped, table)
reset_table (t ∷ ts) elements dropped table =
    load_elements t.limits.initial elements
      (λ i. if ltb i t.limits.initial then null_entry else table i)

-- execution_context_base::reset(mod), where the parser set no error
unfoldable pub reset : ℕ → Module → Instance → Result Instance
reset max_pages mod' c = do
  memory ← reset_memory max_pages mod'.memories c.memory
  (dropped_data, memory') ← load_data mod'.memories mod'.datas memory
  (dropped_elems, table) ← reset_table mod'.tables mod'.elements c.dropped_elems c.table
  ok (record {
    memory = memory';
    globals = map (λ g. g.init.value) mod'.globals;
    table = table;
    dropped_data = dropped_data;
    dropped_elems = dropped_elems;
  })

-- init_linear_memory(x, d, s, n)
unfoldable pub init_linear_memory : Module → ℕ → ℕ → ℕ → ℕ → Instance → Result Instance
init_linear_memory mod' x d s n c = do
  seg ← or_throw (get_elem? mod'.datas x) undefined
  dropped ← or_throw (get_elem? c.dropped_data x) undefined
  let data_len = if dropped then 0 else length seg.contents
  eos_vm_assert (leb (s + n) data_len) wasm_memory_exception
  validate_pointer d n c.memory
  let raw = store_list (take n (drop s seg.contents)) d c.memory.raw
  ok (record c { memory = record c.memory { raw = if data_len == 0 then c.memory.raw else raw } })

-- drop_data(x)
unfoldable pub drop_data : Module → ℕ → Instance → Result Instance
drop_data mod' x c = do
  seg ← or_throw (get_elem? mod'.datas x) undefined
  ok (record c { dropped_data = set c.dropped_data x true })

-- init_table(x, d, s, n)
unfoldable pub init_table : Module → ℕ → ℕ → ℕ → ℕ → Instance → Result Instance
init_table mod' x d s n c = do
  seg ← or_throw (get_elem? mod'.elements x) undefined
  dropped ← or_throw (get_elem? c.dropped_elems x) undefined
  let elem_len = if dropped then 0 else length seg.elems
  eos_vm_assert (leb (s + n) elem_len) wasm_memory_exception
  t ← or_throw (get_elem? mod'.tables 0) undefined
  eos_vm_assert (leb (d + n) t.limits.initial) wasm_memory_exception
  let table = store_list (take n (drop s seg.elems)) d c.table
  ok (record c { table = if elem_len == 0 then c.table else table })

-- drop_elem(x)
unfoldable pub drop_elem : Module → ℕ → Instance → Result Instance
drop_elem mod' x c = do
  seg ← or_throw (get_elem? mod'.elements x) undefined
  ok (record c { dropped_elems = set c.dropped_elems x true })

-- table_elem(i)
unfoldable pub table_elem : Module → Instance → ℕ → Result ℕ
table_elem mod' c i = do
  t ← or_throw (get_elem? mod'.tables 0) out_of_range
  eos_vm_assert (ltb i t.limits.initial) wasm_interpreter_exception
  ok (c.table i).index

-- The function that the handler of call_indirect_t calls, for the type of the instruction and the
-- operand that it pops.
unfoldable pub call_indirect : Module → Instance → ℕ → ℕ → Result ℕ
call_indirect mod' c type i = do
  fn ← table_elem mod' c i
  expected_type ← or_throw (get_elem? mod'.types type) out_of_range
  actual_type ← get_function_type mod' fn
  eos_vm_assert (func_type_equal actual_type expected_type) wasm_interpreter_exception
  ok fn
