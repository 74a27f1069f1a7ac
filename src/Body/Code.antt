-- ===== src/Body/Code.antt =====
-- parser.hpp, parse_function_body_code: the loop over the instructions of a function.
use eos_vm.Prelude.{
  ℕ, zero, suc, ◌+◌, List, [], ◌∷◌, true, false, Option, none, some, ltb, leb, ◌==◌, length,
  if◌then◌else◌,
}
use eos_vm.Prelude.Result.{Result, ok, err, wasm_parse_exception}
use eos_vm.GuardedPtr.{GuardedPtr, next, offset}
use eos_vm.Types.{FuncType}
use eos_vm.Types.Ty
use eos_vm.Writer.{Writer}
use eos_vm.Parser.OperandStack.{new_tracker}
use eos_vm.Parser.Locals.{locals_count}
use eos_vm.Body.{
  Env, branches, Body, Action, ◌>>=◌, ◌>>◌, read, require, get, emit, has_none, switch,
}
use eos_vm.Body.Control.{
  unreachable, end_case, block, loop, if_case, else_case, br, br_if, return_case, br_table,
}
use eos_vm.Body.Tables.{loads, stores}
use eos_vm.Body.Plain.{
  call, call_indirect, drop_case, select_case, get_local, set_local, tee_local, get_global,
  set_global, load_case, store_case, current_memory, grow_memory, i32_const, i64_const, f32_const,
  f64_const, numeric, extend_case,
}
use eos_vm.Body.Vector.{by_place, vector_case, ext_case}

-- The cases of the switch, without those that tables give.
abbrev pub cases : Env → ℕ → List (ℕ × Action (Unit {0}))
cases env bounds =
    (0x00, unreachable env)
    ∷ (0x01, emit 0x01 [])
    ∷ (0x02, block env)
    ∷ (0x03, loop env)
    ∷ (0x04, if_case env)
    ∷ (0x05, else_case env)
    ∷ (0x0B, end_case env bounds)
    ∷ (0x0C, br env)
    ∷ (0x0D, br_if env)
    ∷ (0x0E, br_table env)
    ∷ (0x0F, return_case env)
    ∷ (0x10, call env)
    ∷ (0x11, call_indirect env)
    ∷ (0x1A, drop_case env)
    ∷ (0x1B, select_case env)
    ∷ (0x20, get_local env)
    ∷ (0x21, set_local env)
    ∷ (0x22, tee_local env)
    ∷ (0x23, get_global env)
    ∷ (0x24, set_global env)
    ∷ (0x3F, current_memory env)
    ∷ (0x40, grow_memory env)
    ∷ (0x41, i32_const env)
    ∷ (0x42, i64_const env)
    ∷ (0x43, f32_const env)
    ∷ (0x44, f64_const env)
    ∷ (0xC0, extend_case env 0xC0 Ty.i32)
    ∷ (0xC1, extend_case env 0xC1 Ty.i32)
    ∷ (0xC2, extend_case env 0xC2 Ty.i64)
    ∷ (0xC3, extend_case env 0xC3 Ty.i64)
    ∷ (0xC4, extend_case env 0xC4 Ty.i64)
    ∷ (0xFC, ext_case env)
    ∷ (0xFD, vector_case env)
    ∷ []

-- The switch of the loop.
unfoldable pub instruction : Env → ℕ → ℕ → Action (Unit {0})
instruction env bounds opcode = by_place loads opcode (load_case env (emit opcode)) (
    by_place stores opcode (store_case env (emit opcode))
      (switch opcode (cases env bounds) (numeric env opcode)))

-- One round of the loop.
unfoldable pub round : Env → ℕ → Action (Unit {0})
round env bounds = do
  s ← get
  require (leb (length s.pc_stack) env.options.max_nested_structures)
  opcode ← read next
  instruction env bounds opcode

-- The loop, on fuel: `none` where the fuel ran out.
unfoldable pub rounds : ℕ → Env → ℕ → Body → GuardedPtr → Option (Result (Body × GuardedPtr))
rounds zero env bounds s c = none
rounds (suc fuel) env bounds s c = elim (ltb (offset c) bounds) [
  | false ↦ some (ok (s, c))
  | true ↦ elim (round env bounds s c) [
    | ok (a, s', c') ↦ rounds fuel env bounds s' c'
    | err e ↦ some (err e)
  ]
]

-- The control stack with the function itself, and a new operand stack.
abbrev pub initial : FuncType → ℕ → ℕ → Writer → Body
initial ft count nested writer =
    let result = (if ft.return_count == 0 then Ty.pseudo else ft.return_type) in
    record {
      op_stack = new_tracker count;
      pc_stack =
          record {
            operand_depth = 0;
            expected_result = result;
            label_result = result;
            is_if = false;
            relocations = branches [];
          }
          ∷ [];
      nested = nested;
      writer = writer;
    }

-- What stands behind the loop, for options without max_stack_bytes: the control stack is empty, and the module's maximum takes the depth of
-- the operands and the number of locals.
unfoldable pub finish :
    Env → Option (Result (Body × GuardedPtr)) → Option (Result (Body × ℕ × GuardedPtr))
finish env none = none
finish env (some (err e)) = some (err e)
finish env (some (ok (s, c))) =
    if has_none s.pc_stack
    then some (ok (s, s.op_stack.maximum_operand_depth + locals_count env.local_types, c))
    else some (err wasm_parse_exception)

-- parse_function_body_code(code, bounds, local_bytes_checker, code_writer, ft, local_types), with the
-- stack that is compared with the module's maximum. The checker counts `count` bytes.
unfoldable pub parse_function_body_code :
    ℕ → Env → ℕ → FuncType → ℕ → ℕ → Writer → GuardedPtr → Option (Result (Body × ℕ × GuardedPtr))
parse_function_body_code fuel env bounds ft count nested writer code =
    finish env (rounds fuel env bounds (initial ft count nested writer) code)
