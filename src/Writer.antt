-- ===== src/Writer.antt =====
-- include/eosio/vm/bitcode_writer.hpp: the writer of the interpreter's instructions. The vector `fb`
-- is the list of the instructions written so far with its capacity. The members `pc` that a branch
-- jumps through are cells of their own, in the order in which they were written, so that the
-- `uint32_t*` of a branch is the number of its cell; a cell holds a target once fix_branch set it.
use eos_vm.Prelude.{
  ℕ, ◌+◌, ◌*◌, ◌/◌, ◌%◌, ◌^◌, List, [], ◌∷◌, ◌++◌, Option, none, some, ltb, leb, ◌==◌, length, set,
  replicate, if◌then◌else◌,
}
use eos_vm.Prelude.Result.{
  Result, ok, err, ◌>>=◌, ◌>>◌, eos_vm_assert, wasm_parse_exception, wasm_vector_oob_exception,
}
use eos_vm.Types.{FuncType, LocalEntry, FunctionBody}
use eos_vm.Types.Ty

-- An instruction with its opcode and immediates, one with a branch (its opcode, `data` and the cell of
-- `pc`), a br_table with its size, or a place under the elements of a br_table.
pub data Opcode : Type 0 where
  plain : ℕ → List ℕ → Opcode
  branch : ℕ → ℕ → ℕ → Opcode
  br_table_op : ℕ → Opcode
  br_table_data : Opcode

-- An element of a br_table: `stack_pop`, and the cell of `pc`.
pub record Elem : Type 0 where
  pub stack_pop : ℕ
  pub pc : ℕ

pub record Writer : Type 0 where
  pub size : ℕ
  pub code : List Opcode
  pub elems : List Elem
  pub cells : List (Option ℕ)
  pub base_offset : ℕ

-- op_index
abbrev pub op_index : Writer → ℕ
op_index w = length w.code

-- fb[op_index++] = instr
unfoldable pub append_instr : Opcode → Writer → Result Writer
append_instr instr w = do
  eos_vm_assert (ltb (op_index w) w.size) wasm_vector_oob_exception
  ok (record w { code = w.code ++ (instr ∷ []) })

-- An instruction with a branch, and the address of its `pc`.
unfoldable pub append_branch : ℕ → ℕ → Writer → Result (ℕ × Writer)
append_branch opcode depth w = do
  w' ← append_instr (branch opcode depth (length w.cells)) w
  ok (length w.cells, record w' { cells = w.cells ++ (none ∷ []) })

-- fix_branch(branch, target)
unfoldable pub fix_branch : ℕ → ℕ → Writer → Writer
fix_branch address target w = record w {
  cells = set w.cells address (some ((w.base_offset + target) % 2 ^ 32));
}

-- encode_depth_change(depth_change, rt)
unfoldable pub encode_depth_change : ℕ → ℕ → Result ℕ
encode_depth_change depth_change rt =
    if leb (2 ^ 31) depth_change
    then err wasm_parse_exception
    else if rt == Ty.pseudo
    then ok depth_change
    else ok (depth_change + 2 ^ 31)

-- emit_if()
abbrev pub emit_if : Writer → Result (ℕ × Writer)
emit_if w = append_branch 0x04 0 w

-- emit_else(if_loc)
unfoldable pub emit_else : ℕ → Writer → Result (ℕ × Writer)
emit_else if_loc w = do
  (address, w') ← append_branch 0x05 0 w
  ok (address, fix_branch if_loc (op_index w') w')

-- emit_br(depth_change, rt), and emit_return
unfoldable pub emit_br : ℕ → ℕ → Writer → Result (ℕ × Writer)
emit_br depth_change rt w = do
  eos_vm_assert (ltb (op_index w) w.size) wasm_vector_oob_exception
  pops ← encode_depth_change depth_change rt
  append_branch 0x0C pops w

-- emit_br_if(depth_change, rt)
unfoldable pub emit_br_if : ℕ → ℕ → Writer → Result (ℕ × Writer)
emit_br_if depth_change rt w = do
  eos_vm_assert (ltb (op_index w) w.size) wasm_vector_oob_exception
  pops ← encode_depth_change depth_change rt
  append_branch 0x0D pops w

-- The opcodes that a br_table of the size skips for its elements, each of 8 bytes, where an opcode has
-- `opcode_bytes` bytes.
abbrev pub table_places : ℕ → ℕ → ℕ
table_places opcode_bytes size = (size * 8) / opcode_bytes + 2

-- emit_br_table(table_size): the constructor of br_table_parser. The place behind the elements must
-- exist, since error_t is written there.
unfoldable pub emit_br_table : ℕ → ℕ → Writer → Result Writer
emit_br_table opcode_bytes table_size w = do
  w' ← append_instr (br_table_op table_size) w
  eos_vm_assert (ltb (op_index w') w'.size) wasm_vector_oob_exception
  let w'' = record w' {
    code = w'.code ++ replicate (table_places opcode_bytes table_size % 2 ^ 32) br_table_data;
  }
  eos_vm_assert (ltb (op_index w'') w''.size) wasm_vector_oob_exception
  ok w''

-- br_table_parser::emit_case(depth_change, rt)
unfoldable pub emit_case : ℕ → ℕ → Writer → Result (ℕ × Writer)
emit_case depth_change rt w = do
  pops ← encode_depth_change depth_change rt
  ok (
    length w.cells,
    record w {
      elems = w.elems ++ (record { stack_pop = pops; pc = length w.cells } ∷ []);
      cells = w.cells ++ (none ∷ []);
    },
  )

-- br_table_parser::emit_default(depth_change, rt): error_t is still behind the elements, of which the
-- last ends `(table_size + 1) * 8` bytes behind the br_table.
unfoldable pub emit_default : ℕ → ℕ → ℕ → ℕ → Writer → Result (ℕ × Writer)
emit_default opcode_bytes table_size depth_change rt w = do
  (address, w') ← emit_case depth_change rt w
  eos_vm_assert (leb ((table_size + 1) * 8) (table_places opcode_bytes table_size * opcode_bytes))
      wasm_parse_exception
  ok (address, w')

-- bitcode_writer(alloc, source_bytes, mod)
abbrev pub bitcode_writer : ℕ → Writer
bitcode_writer source_bytes = record {
  size = source_bytes;
  code = [];
  elems = [];
  cells = [];
  base_offset = 0;
}

-- emit_prologue(ft, locals, idx), where the body of the function has `size` bytes
unfoldable pub emit_prologue : ℕ → Writer → Writer
emit_prologue size w = record w { size = size; code = []; elems = []; cells = [] }

-- The loop of emit_epilogue over the locals, in 32 bits.
unfoldable pub count_locals : ℕ → List LocalEntry → ℕ
count_locals locals_count [] = locals_count
count_locals locals_count (l ∷ ls) = count_locals ((locals_count + l.count) % 2 ^ 32) ls

-- emit_epilogue(ft, locals, idx). The stack usage is the constant 1, since set_stack_usage is called
-- under max_stack_bytes only. The code moves op_index behind the return in finalize.
unfoldable pub emit_epilogue : FuncType → List LocalEntry → Writer → Writer
emit_epilogue ft locals w =
    let leaves = (count_locals 0 locals + length ft.param_types) % 2 ^ 32 in
    record w {
      size = op_index w + 1;
      code = w.code ++ (plain 0x0F (leaves ∷ ft.return_count ∷ 1 ∷ 0 ∷ 0 ∷ []) ∷ []);
    }

-- finalize(body), behind emit_epilogue
unfoldable pub finalize : FunctionBody → Writer → FunctionBody × Writer
finalize body w =
    let size = op_index w % 2 ^ 32 in
    (
      record body { size = size },
      record w { size = op_index w; base_offset = w.base_offset + size },
    )
