-- ===== src/Body/Plain.antt =====
-- parser.hpp, parse_function_body_code: the instructions on operands, locals, globals, calls and memory.
use eos_vm.Prelude.{
  ℕ, List, [], ◌∷◌, false, not, ◌||◌, none, some, ltb, leb, ◌==◌, length, get_elem?, if◌then◌else◌,
}
use mathlib.Core.List.{reverse}
use eos_vm.Prelude.Result.{undefined, out_of_range, or_throw}
use eos_vm.GuardedPtr.{peek, increment}
use eos_vm.Leb128.{parse_varuint32, parse_varint32, parse_varint64}
use eos_vm.Types.{FuncType, get_function_type}
use eos_vm.Types.Ty
use eos_vm.Parser.Primitives.{parse_raw}
use eos_vm.Parser.Locals.{type_at}
use eos_vm.Parser.OperandStack.{any_type, pop_any, top}
use eos_vm.Body.{
  Env, Action, ◌>>=◌, ◌>>◌, pure, read, lift, require, on_stack, stack, emit, pop_all, pushes, pops,
  check_in_bounds,
}
use eos_vm.Body.Tables.{find_row, numeric_rows}

-- The end of a case: `*code == 0`, and the pointer moves.
unfoldable pub zero_byte : Action (Unit {0})
zero_byte = do b ← read peek; require (b == 0); read increment

-- The operands of a function type are popped and its result is pushed.
unfoldable pub apply_type : Env → FuncType → Action (Unit {0})
apply_type env ft = do
  pop_all env.options (reverse ft.param_types)
  require (leb ft.return_count 1)
  if ft.return_count == 0 then pure tt else pushes env.options ft.return_type

unfoldable pub call : Env → Action (Unit {0})
call env = do
  check_in_bounds env
  funcnum ← read parse_varuint32
  ft ← lift (get_function_type env.mod' funcnum)
  apply_type env ft
  emit 0x10 (funcnum ∷ [])

unfoldable pub call_indirect : Env → Action (Unit {0})
call_indirect env = do
  check_in_bounds env
  functypeidx ← read parse_varuint32
  ft ← lift (or_throw (get_elem? env.mod'.types functypeidx) out_of_range)
  require (ltb 0 (length env.mod'.tables))
  pops env.options Ty.i32
  apply_type env ft
  alias ← lift (or_throw (get_elem? env.type_aliases functypeidx) undefined)
  emit 0x11 (alias ∷ [])
  zero_byte

unfoldable pub drop_case : Env → Action (Unit {0})
drop_case env = do check_in_bounds env; t ← on_stack (pop_any env.options); emit 0x1A []

unfoldable pub select_case : Env → Action (Unit {0})
select_case env = do
  check_in_bounds env
  pops env.options Ty.i32
  t0 ← on_stack (pop_any env.options)
  t1 ← on_stack (pop_any env.options)
  require (t0 == t1 || (t0 == any_type || t1 == any_type))
  pushes env.options (if t0 == any_type then t1 else t0)
  emit 0x1B []

unfoldable pub get_local : Env → Action (Unit {0})
get_local env = do
  local_idx ← read parse_varuint32
  t ← lift (type_at env.local_types local_idx)
  pushes env.options t
  emit 0x20 (local_idx ∷ [])

unfoldable pub set_local : Env → Action (Unit {0})
set_local env = do
  check_in_bounds env
  local_idx ← read parse_varuint32
  t ← lift (type_at env.local_types local_idx)
  pops env.options t
  emit 0x21 (local_idx ∷ [])

unfoldable pub tee_local : Env → Action (Unit {0})
tee_local env = do
  check_in_bounds env
  local_idx ← read parse_varuint32
  t ← lift (type_at env.local_types local_idx)
  stack (top env.options t)
  emit 0x22 (local_idx ∷ [])

unfoldable pub get_global : Env → Action (Unit {0})
get_global env = do
  global_idx ← read parse_varuint32
  g ← lift (or_throw (get_elem? env.mod'.globals global_idx) out_of_range)
  pushes env.options g.type.content_type
  emit 0x23 (global_idx ∷ [])

unfoldable pub set_global : Env → Action (Unit {0})
set_global env = do
  check_in_bounds env
  global_idx ← read parse_varuint32
  g ← lift (or_throw (get_elem? env.mod'.globals global_idx) out_of_range)
  require g.type.mutability
  pops env.options g.type.content_type
  emit 0x24 (global_idx ∷ [])

-- The alignment and the offset of an access to memory.
unfoldable pub memory_arguments : Env → ℕ → Action (ℕ × ℕ)
memory_arguments env max_align = do
  alignment ← read parse_varuint32
  offset ← read parse_varuint32
  require (leb alignment max_align)
  require (leb offset env.options.max_memory_offset)
  pure (alignment, offset)

-- LOAD_OP(op_name, max_align, type)
unfoldable pub load_case : Env → (List ℕ → Action (Unit {0})) → ℕ → ℕ → Action (Unit {0})
load_case env emits max_align type = do
  check_in_bounds env
  require (ltb 0 (length env.mod'.memories))
  (alignment, offset) ← memory_arguments env max_align
  pops env.options Ty.i32
  pushes env.options type
  emits (alignment ∷ offset ∷ [])

-- STORE_OP(op_name, max_align, type)
unfoldable pub store_case : Env → (List ℕ → Action (Unit {0})) → ℕ → ℕ → Action (Unit {0})
store_case env emits max_align type = do
  check_in_bounds env
  require (ltb 0 (length env.mod'.memories))
  (alignment, offset) ← memory_arguments env max_align
  pops env.options type
  pops env.options Ty.i32
  emits (alignment ∷ offset ∷ [])

unfoldable pub current_memory : Env → Action (Unit {0})
current_memory env = do
  require (not (length env.mod'.memories == 0))
  pushes env.options Ty.i32
  zero_byte
  emit 0x3F []

unfoldable pub grow_memory : Env → Action (Unit {0})
grow_memory env = do
  check_in_bounds env
  require (not (length env.mod'.memories == 0))
  pops env.options Ty.i32
  pushes env.options Ty.i32
  zero_byte
  emit 0x40 []

unfoldable pub i32_const : Env → Action (Unit {0})
i32_const env = do v ← read parse_varint32; emit 0x41 (v ∷ []); pushes env.options Ty.i32

unfoldable pub i64_const : Env → Action (Unit {0})
i64_const env = do v ← read parse_varint64; emit 0x42 (v ∷ []); pushes env.options Ty.i64

unfoldable pub f32_const : Env → Action (Unit {0})
f32_const env = do v ← read (parse_raw 4); emit 0x43 (v ∷ []); pushes env.options Ty.f32

unfoldable pub f64_const : Env → Action (Unit {0})
f64_const env = do v ← read (parse_raw 8); emit 0x44 (v ∷ []); pushes env.options Ty.f64

-- UNOP, BINOP and CASTOP; any other opcode is illegal.
unfoldable pub numeric : Env → ℕ → Action (Unit {0})
numeric env opcode = elim (find_row numeric_rows opcode) [
  | none ↦ require false
  | some (inputs, output) ↦ do
    check_in_bounds env
    emit opcode []
    pop_all env.options inputs
    pushes env.options output
]

-- EXTENDOP(dst, opname)
unfoldable pub extend_case : Env → ℕ → ℕ → Action (Unit {0})
extend_case env opcode type = do
  check_in_bounds env
  require env.options.enable_sign_ext
  emit opcode []
  pops env.options type
  pushes env.options type
