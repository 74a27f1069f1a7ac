-- ===== src/Tests/Functions.antt =====
-- Function bodies that are parsed, at concrete inputs.
use eos_vm.Prelude.{ℕ, ◌≡◌, ◌⊎◌, refl, List, [], ◌∷◌, ◌++◌, none, some, get_elem?, arith}
use eos_vm.Prelude.Result.{Error, ok, err, wasm_parse_exception, or_throw}
use eos_vm.GuardedPtr.{GuardedPtr, guarded_ptr, IsValid, next}
use eos_vm.Types.{FuncType, LocalEntry, empty_module}
use eos_vm.Types.Ty
use eos_vm.Writer.{Writer, Opcode, plain, append_instr}
use eos_vm.Parser.Locals.{LocalTypes, local_types, next_boundaries, type_at}
use eos_vm.Parser.Locals.Lookup.{expand, type_at_lem}
use eos_vm.Body.{
  Env, Body, ◌>>=◌, read, stack, writes, switch, check_in_bounds, get, require, pop_all, pure,
}
use eos_vm.Body.Plain.{i32_const, numeric}
use eos_vm.Body.Tables.{find_row, find_place}
use eos_vm.Body.Vector.{by_place}
use eos_vm.Interpreter.Operand.{i32_const_t}
use eos_vm.Interpreter.Memory.{WasmAllocator}
use eos_vm.Interpreter.Visitor.{Context, const, binary, op_add, w32}
use eos_vm.Interpreter.Visitor.Typing.{HasTypes, Step}
use eos_vm.Interpreter.Dispatch.{find_handler, run_all}
use eos_vm.Parser.OperandStack.{
  scope_tag, push, push_stack, pop_stack, pop_expected, pop_typed, drop_back,
}
use eos_vm.Leb128.{parse_varint32, varint, from_code, to_int}
use eos_vm.Body.Typing.Operands.{operand_types}
use eos_vm.Body.Code.{round, instruction, parse_function_body_code}
use eos_vm.Body.Keeps.Branches.Done.{IsFixed, parse_function_body_code_fixes}
use eos_vm.Body.Typing.Straight.{run_all-Step, accepted, accepts, reads_numeric, reads_i32_const}
use eos_vm.Tests.Parsing.{options}

abbrev function_type : FuncType
function_type = record { form = 0x60; param_types = Ty.i32 ∷ []; return_count = 0; return_type = 0 }

abbrev two_locals : List LocalEntry
two_locals = record { count = 2; type = Ty.i64 } ∷ record { count = 1; type = Ty.f32 } ∷ []

abbrev types_of_locals : LocalTypes
types_of_locals = record { params = Ty.i32 ∷ []; locals = two_locals; boundaries = 1 ∷ 3 ∷ 4 ∷ [] }

type_at_run :
    type_at types_of_locals 3
    ≡ or_throw (get_elem? (function_type.param_types ++ expand two_locals) 3) wasm_parse_exception
unfolding local_types next_boundaries
type_at_run = type_at_lem function_type two_locals types_of_locals 3 refl

abbrev env : Env
env = record {
  options = options;
  mod' = empty_module;
  type_aliases = [];
  datacount = none;
  local_types = types_of_locals;
  opcode_bytes = 32;
}

-- A block that is left where the parameter is not zero, and the end of the function.
abbrev body : GuardedPtr
body = guarded_ptr (0x02 ∷ 0x40 ∷ 0x20 ∷ 0x00 ∷ 0x0D ∷ 0x00 ∷ 0x0B ∷ 0x0B ∷ []) 0 8

abbrev writer : Writer
writer = record { size = 8; code = []; elems = []; cells = []; base_offset = 100 }

body-IsValid : IsValid body
body-IsValid = record {
  orig_le = omega arith;
  raw_le = omega arith;
  bnds_le = omega arith;
  bytes_fit = omega arith;
}

parse_function_body_code_run :
    ((e : Error) × (parse_function_body_code 9 env 8 function_type 4 0 writer body ≡ some (err e)))
    ⊎ ((s : Body) × (stack : ℕ) × (d : GuardedPtr) × (parse_function_body_code 9 env 8 function_type
            4 0 writer body
          ≡ some (ok (s, stack, d)))
        × IsFixed s body d)
parse_function_body_code_run =
    parse_function_body_code_fixes 9 env 8 function_type 4 0 writer body (omega arith) body-IsValid
      refl

-- The operands at the start of a function's body, and code: two numbers and their sum.
abbrev at_types : List ℕ → ℕ → ℕ → List Opcode → Body
at_types types depth maximum code = record {
  op_stack = record {
    state = types ++ (scope_tag ∷ []);
    operand_depth = depth;
    maximum_operand_depth = maximum;
    count = 0;
    unreachable_depth = 0;
    usage = 0;
  };
  pc_stack = [];
  nested = 0;
  writer = record writer { code = code };
}

abbrev five : Opcode
five = plain 0x41 (5 ∷ [])

abbrev seven : Opcode
seven = plain 0x41 (7 ∷ [])

abbrev start : Body
start = at_types [] 0 0 []

abbrev with_five : Body
with_five = at_types (Ty.i32 ∷ []) 1 1 (five ∷ [])

abbrev with_seven : Body
with_seven = at_types (Ty.i32 ∷ Ty.i32 ∷ []) 2 2 (five ∷ seven ∷ [])

abbrev with_sum : Body
with_sum = at_types (Ty.i32 ∷ []) 1 2 (five ∷ seven ∷ plain 106 [] ∷ [])

abbrev sum_at : ℕ → GuardedPtr
sum_at place = record (guarded_ptr (0x41 ∷ 0x05 ∷ 0x41 ∷ 0x07 ∷ 0x6A ∷ []) 0 5) { raw_ptr = place }

sum-IsValid : IsValid (sum_at 0)
sum-IsValid = record {
  orig_le = omega arith;
  raw_le = omega arith;
  bnds_le = omega arith;
  bytes_fit = omega arith;
}

abbrev one_page : WasmAllocator
one_page = record { page = some 1; raw = λ _. 0 }

abbrev empty : Context
empty = record { os = []; memory = one_page; limit = 10; memories = [] }

run_all_run :
    Step
      (Ty.i32 ∷ [])
      empty
      (run_all (const (i32_const_t 5) ∷ const (i32_const_t 7) ∷ binary w32 op_add ∷ []) empty)
unfolding round instruction by_place find_place switch next varint from_code to_int i32_const ◌>>=◌
    read stack writes append_instr push push_stack parse_varint32 numeric check_in_bounds get
    require pop_all pop_expected pop_typed drop_back find_row find_handler operand_types HasTypes
    pure pop_stack eos_vm.GuardedPtr.◌>>=◌ eos_vm.GuardedPtr.get eos_vm.GuardedPtr.at
    eos_vm.GuardedPtr.advance eos_vm.GuardedPtr.pure eos_vm.Leb128.join_groups
run_all_run =
    run_all-Step {env = env} {bounds = 5} empty sum-IsValid
      (accepts start with_five with_sum (sum_at 0) (sum_at 2) (sum_at 1) 0x41 refl
        (reads_i32_const 5 (sum_at 2) refl) refl
        (accepts with_five with_seven with_sum (sum_at 2) (sum_at 4) (sum_at 3) 0x41 refl
          (reads_i32_const 7 (sum_at 4) refl) refl
          (accepts with_seven with_sum with_sum (sum_at 4) (sum_at 5) (sum_at 5) 106 refl
            (reads_numeric 106 refl) refl (accepted with_sum (sum_at 5)))))
      tt
