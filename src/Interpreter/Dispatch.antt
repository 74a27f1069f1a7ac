-- ===== src/Interpreter/Dispatch.antt =====
-- include/eosio/vm/opcodes_def.hpp with interpret_visitor.hpp: the handlers that the interpreter has for the
-- opcodes on integers, and straight code, which runs them one after the other.
use eos_vm.Prelude.{ℕ, List, [], ◌∷◌, ◌++◌, Option, none, some, ◌==◌, if◌then◌else◌}
use eos_vm.Prelude.Result.{Result, ok, ◌>>=◌}
use eos_vm.Interpreter.Visitor.{
  op_clz, op_ctz, op_popcnt, op_add, op_sub, op_mul, op_div_s, op_div_u, op_rem_s, op_rem_u, op_and,
  op_or, op_xor, op_shl, op_shr_s, op_shr_u, op_rotl, op_rotr, op_eq, op_ne, op_lt_s, op_lt_u,
  op_le_s, op_le_u, op_gt_s, op_gt_u, op_ge_s, op_ge_u, w32, w64, Instruction, eqz, unary, binary,
  relation, i32_wrap_i64, i64_extend_s_i32, i64_extend_u_i32, Context, visit,
}

abbrev pub relation_handlers : List (ℕ × Instruction)
relation_handlers =
    (69, eqz w32)
    ∷ (70, relation w32 op_eq)
    ∷ (71, relation w32 op_ne)
    ∷ (72, relation w32 op_lt_s)
    ∷ (73, relation w32 op_lt_u)
    ∷ (74, relation w32 op_gt_s)
    ∷ (75, relation w32 op_gt_u)
    ∷ (76, relation w32 op_le_s)
    ∷ (77, relation w32 op_le_u)
    ∷ (78, relation w32 op_ge_s)
    ∷ (79, relation w32 op_ge_u)
    ∷ (80, eqz w64)
    ∷ (81, relation w64 op_eq)
    ∷ (82, relation w64 op_ne)
    ∷ (83, relation w64 op_lt_s)
    ∷ (84, relation w64 op_lt_u)
    ∷ (85, relation w64 op_gt_s)
    ∷ (86, relation w64 op_gt_u)
    ∷ (87, relation w64 op_le_s)
    ∷ (88, relation w64 op_le_u)
    ∷ (89, relation w64 op_ge_s)
    ∷ (90, relation w64 op_ge_u)
    ∷ []

abbrev pub arithmetic_handlers : List (ℕ × Instruction)
arithmetic_handlers =
    (103, unary w32 op_clz)
    ∷ (104, unary w32 op_ctz)
    ∷ (105, unary w32 op_popcnt)
    ∷ (106, binary w32 op_add)
    ∷ (107, binary w32 op_sub)
    ∷ (108, binary w32 op_mul)
    ∷ (109, binary w32 op_div_s)
    ∷ (110, binary w32 op_div_u)
    ∷ (111, binary w32 op_rem_s)
    ∷ (112, binary w32 op_rem_u)
    ∷ (113, binary w32 op_and)
    ∷ (114, binary w32 op_or)
    ∷ (115, binary w32 op_xor)
    ∷ (116, binary w32 op_shl)
    ∷ (117, binary w32 op_shr_s)
    ∷ (118, binary w32 op_shr_u)
    ∷ (119, binary w32 op_rotl)
    ∷ (120, binary w32 op_rotr)
    ∷ (121, unary w64 op_clz)
    ∷ (122, unary w64 op_ctz)
    ∷ (123, unary w64 op_popcnt)
    ∷ (124, binary w64 op_add)
    ∷ (125, binary w64 op_sub)
    ∷ (126, binary w64 op_mul)
    ∷ (127, binary w64 op_div_s)
    ∷ (128, binary w64 op_div_u)
    ∷ (129, binary w64 op_rem_s)
    ∷ (130, binary w64 op_rem_u)
    ∷ (131, binary w64 op_and)
    ∷ (132, binary w64 op_or)
    ∷ (133, binary w64 op_xor)
    ∷ (134, binary w64 op_shl)
    ∷ (135, binary w64 op_shr_s)
    ∷ (136, binary w64 op_shr_u)
    ∷ (137, binary w64 op_rotl)
    ∷ (138, binary w64 op_rotr)
    ∷ []

abbrev pub conversion_handlers : List (ℕ × Instruction)
conversion_handlers = (167, i32_wrap_i64) ∷ (172, i64_extend_s_i32) ∷ (173, i64_extend_u_i32) ∷ []

abbrev pub integer_handlers : List (ℕ × Instruction)
integer_handlers = relation_handlers ++ arithmetic_handlers ++ conversion_handlers

-- The handler of an opcode.
unfoldable pub find_handler : List (ℕ × Instruction) → ℕ → Option Instruction
find_handler [] opcode = none
find_handler ((op, i) ∷ is) opcode =
    let rest = find_handler is opcode in if opcode == op then some i else rest

-- Straight code: the loop of execute over instructions that do not branch.
unfoldable pub run_all : List Instruction → Context → Result Context
run_all [] c = ok c
run_all (i ∷ is) c = do c' ← visit i c; run_all is c'
