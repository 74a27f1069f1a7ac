-- ===== src/Body/Control.antt =====
-- parser.hpp, parse_function_body_code: the control instructions and those on locals, globals and
-- calls.
use eos_vm.Prelude.{
  ℕ, zero, suc, ◌+◌, ◌-◌, ◌%◌, ◌^◌, List, [], ◌∷◌, Bool, true, false, not, ◌||◌, leb, ◌==◌, length,
}
use eos_vm.Prelude.Result.{ok, err, undefined}
use eos_vm.GuardedPtr
use eos_vm.GuardedPtr.{next, peek, increment}
use eos_vm.Leb128.{parse_varuint32}
use eos_vm.Types.Ty
use eos_vm.Writer.{
  op_index, emit_if, emit_else, emit_br, emit_br_if, emit_br_table, emit_case, emit_default,
}
use eos_vm.Parser.OperandStack.{start_unreachable, push_scope, pop_scope}
use eos_vm.Body.{
  Env, PcElement, Relocations, label, branches, Action, ◌>>=◌, ◌>>◌, pure, read, lift, require, get,
  stack, on_writer, writes, emit, pops, has_none, check_in_bounds, put_pc_stack, fix,
  handle_branch_target, branch_target, compute_depth_change, block_type, on_control, on_end,
}

unfoldable pub split_last : List PcElement → Action (PcElement × List PcElement)
split_last [] = lift (err undefined)
split_last (p ∷ ps) = pure (p, ps)

-- The last element of pc_stack, undefined where there is none.
unfoldable pub innermost : Action (PcElement × List PcElement)
innermost = do s ← get; split_last s.pc_stack

unfoldable pub fix_all : List ℕ → ℕ → Action (Unit {0})
fix_all [] target = pure tt
fix_all (b ∷ bs) target = fix b target >> fix_all bs target

-- exit_scope
unfoldable pub exit_scope : Env → Action (Unit {0})
exit_scope env = do
  s ← get
  require (not (has_none s.pc_stack))
  (p, ps) ← innermost
  require (not p.is_if || p.expected_result == Ty.pseudo)
  elim p.relocations [ label target ↦ pure tt | branches bs ↦ fix_all bs (op_index s.writer) ]
  stack (pop_scope env.options p.expected_result)
  put_pc_stack ps

-- start_unreachable
abbrev pub stop : Action (Unit {0})
stop = stack (λ t. ok (start_unreachable t))

abbrev pub open_scope : Action (Unit {0})
open_scope = stack (λ t. ok (push_scope t))

unfoldable pub unreachable : Env → Action (Unit {0})
unreachable env = do check_in_bounds env; emit 0x00 []; stop

unfoldable pub end_case : Env → ℕ → Action (Unit {0})
end_case env bounds = do
  check_in_bounds env
  exit_scope env
  s ← get
  code ← read GuardedPtr.get
  require (
      env.options.allow_code_after_function_end
      || (not (has_none s.pc_stack) || GuardedPtr.offset code == bounds))
  on_end env

unfoldable pub open_block : Env → ℕ → ℕ → Bool → Relocations → Action (Unit {0})
open_block env expected label_type is_if relocations = do
  s ← get
  put_pc_stack (
      record {
        operand_depth = s.op_stack.operand_depth;
        expected_result = expected;
        label_result = label_type;
        is_if = is_if;
        relocations = relocations;
      }
      ∷ s.pc_stack)

unfoldable pub block : Env → Action (Unit {0})
block env = do
  t ← read next
  expected ← block_type env t
  open_block env expected expected false (branches [])
  open_scope
  on_control env

unfoldable pub loop : Env → Action (Unit {0})
loop env = do
  t ← read next
  expected ← block_type env t
  s ← get
  open_block env expected Ty.pseudo false (label (op_index s.writer))
  open_scope
  on_control env

unfoldable pub if_case : Env → Action (Unit {0})
if_case env = do
  check_in_bounds env
  t ← read next
  expected ← block_type env t
  address ← on_writer emit_if
  pops env.options Ty.i32
  open_block env expected expected true (branches (address ∷ []))
  open_scope
  on_control env

-- The branch of an `if`, which comes first; std::get of a label would throw.
unfoldable pub if_branch : Relocations → Action (ℕ × List ℕ)
if_branch (label target) = lift (err undefined)
if_branch (branches []) = lift (err undefined)
if_branch (branches (b ∷ bs)) = pure (b, bs)

unfoldable pub else_case : Env → Action (Unit {0})
else_case env = do
  check_in_bounds env
  (p, ps) ← innermost
  require p.is_if
  pops env.options p.expected_result
  stack (pop_scope env.options Ty.pseudo)
  open_scope
  (first, rest) ← if_branch p.relocations
  address ← on_writer (emit_else first)
  put_pc_stack (record p { is_if = false; relocations = branches (address ∷ rest) } ∷ ps)
  on_control env

unfoldable pub br : Env → Action (Unit {0})
br env = do
  check_in_bounds env
  l ← read parse_varuint32
  (depth_change, rt) ← compute_depth_change env l
  address ← on_writer (emit_br depth_change rt)
  handle_branch_target l address
  stop

unfoldable pub br_if : Env → Action (Unit {0})
br_if env = do
  check_in_bounds env
  l ← read parse_varuint32
  pops env.options Ty.i32
  (depth_change, rt) ← compute_depth_change env l
  address ← on_writer (emit_br_if depth_change rt)
  handle_branch_target l address

-- return: the label of the function itself, `pc_stack.size() - 1` in 32 bits
unfoldable pub return_case : Env → Action (Unit {0})
return_case env = do
  check_in_bounds env
  s ← get
  let l = (length s.pc_stack + 2 ^ 32 - 1) % 2 ^ 32
  (depth_change, rt) ← compute_depth_change env l
  address ← on_writer (emit_br depth_change rt)
  handle_branch_target l address
  stop

-- One label of a br_table: its code, and the test of its type against the first one's.
unfoldable pub table_case : Env → (ℕ → ℕ → Action ℕ) → Bool → ℕ → Action ℕ
table_case env emit_one is_first result_type = do
  l ← read parse_varuint32
  (depth_change, rt) ← compute_depth_change env l
  address ← emit_one depth_change rt
  handle_branch_target l address
  p ← branch_target l
  require (is_first || result_type == p.label_result)
  pure p.label_result

unfoldable pub table_cases : Env → ℕ → Bool → ℕ → Action ℕ
table_cases env zero is_first result_type = pure result_type
table_cases env (suc count) is_first result_type = do
  t ← table_case env (λ d rt. on_writer (emit_case d rt)) is_first result_type
  table_cases env count false t

unfoldable pub br_table : Env → Action (Unit {0})
br_table env = do
  check_in_bounds env
  table_size ← read parse_varuint32
  require (leb table_size env.options.max_br_table_elements)
  pops env.options Ty.i32
  writes (emit_br_table env.opcode_bytes table_size)
  t ← table_cases env table_size true 0
  _ ←
      table_case env (λ d rt. on_writer (emit_default env.opcode_bytes table_size d rt))
        (table_size == 0) t
  stop
