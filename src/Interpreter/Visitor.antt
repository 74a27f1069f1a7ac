-- ===== src/Interpreter/Visitor.antt =====
-- interpret_visitor.hpp: the handlers of the instructions on constants, integers and memory, over the
-- operand stack and the linear memory. A handler first advances the program counter by one; that step
-- is the same for all of them and is left to the loop that calls them. The stack is a list with its
-- top first; a pop of an empty stack is undefined.
pub mod Typing
use eos_vm.Prelude.{
  ℕ, ◌+◌, ◌-◌, ◌*◌, ◌%◌, ◌^◌, List, [], ◌∷◌, Bool, true, false, not, ◌||◌, bit_and, bit_or, bit_xor,
  ltb, leb, ◌==◌, if◌then◌else◌,
}
use eos_vm.Prelude.Result.{Result, ok, err, ◌>>=◌, undefined}
use eos_vm.Types.{MemoryType}
use eos_vm.Interpreter.Operand.{
  Operand, i32_const_t, i64_const_t, f32_const_t, f64_const_t, v128_const_t, to_ui32, to_ui64,
  to_fui32, to_fui64,
}
use eos_vm.Interpreter.Memory.{
  WasmAllocator, read_unaligned, write_unaligned, current_linear_memory, grow_linear_memory,
}
use eos_vm.Interpreter.Integers.{
  clz, ctz, popcnt, add, sub, mul, div_s, div_u, rem_s, rem_u, shl, shr_u, shr_s, rotl, rotr, lt_s,
  extend_s,
}

-- The instructions on one integer of a width, which their handlers change in place.
pub data Unary : Type 0 where
  op_clz op_ctz op_popcnt : Unary

-- The instructions on two integers of a width whose result replaces the left one.
pub data Binary : Type 0 where
  op_add op_sub op_mul op_div_s op_div_u op_rem_s op_rem_u op_and op_or op_xor op_shl op_shr_s
        op_shr_u op_rotl op_rotr :
      Binary

pub data Relation : Type 0 where
  op_eq op_ne op_lt_s op_lt_u op_le_s op_le_u op_gt_s op_gt_u op_ge_s op_ge_u : Relation

pub data Width : Type 0 where
  w32 w64 : Width

-- Of a load or a store: the width of the operand, the bytes in memory, whether a load extends the
-- sign, and the offset of the instruction.
pub data Instruction : Type 0 where
  const : Operand → Instruction
  drop : Instruction
  select : Instruction
  eqz : Width → Instruction
  unary : Width → Unary → Instruction
  binary : Width → Binary → Instruction
  relation : Width → Relation → Instruction
  i32_wrap_i64 i64_extend_s_i32 i64_extend_u_i32 : Instruction
  extend : Width → ℕ → Instruction
  load : Width → ℕ → Bool → ℕ → Instruction
  f32_load f64_load : ℕ → Instruction
  store : Width → ℕ → ℕ → Instruction
  f32_store f64_store : ℕ → Instruction
  current_memory grow_memory : Instruction

-- The parts of the execution context that the handlers use: the operand stack, the memory, the
-- context's limit on pages and the memories that the module declares.
pub record Context : Type 0 where
  pub os : List Operand
  pub memory : WasmAllocator
  pub limit : ℕ
  pub memories : List MemoryType

abbrev pub bits : Width → ℕ
bits w32 = 32
bits w64 = 64

abbrev pub make : Width → ℕ → Operand
make w32 v = i32_const_t v
make w64 v = i64_const_t v

abbrev pub to_ui : Width → Operand → Result ℕ
to_ui w32 o = to_ui32 o
to_ui w64 o = to_ui64 o

unfoldable pub run_unary : Unary → ℕ → ℕ → ℕ
run_unary op_clz w v = clz w v
run_unary op_ctz w v = ctz w v
run_unary op_popcnt w v = popcnt w v

unfoldable pub run_binary : Binary → ℕ → ℕ → ℕ → Result ℕ
run_binary op_add w lhs rhs = ok (add w lhs rhs)
run_binary op_sub w lhs rhs = ok (sub w lhs rhs)
run_binary op_mul w lhs rhs = ok (mul w lhs rhs)
run_binary op_div_s w lhs rhs = div_s w lhs rhs
run_binary op_div_u w lhs rhs = div_u w lhs rhs
run_binary op_rem_s w lhs rhs = rem_s w lhs rhs
run_binary op_rem_u w lhs rhs = rem_u w lhs rhs
run_binary op_and w lhs rhs = ok (bit_and lhs rhs)
run_binary op_or w lhs rhs = ok (bit_or lhs rhs)
run_binary op_xor w lhs rhs = ok (bit_xor lhs rhs)
run_binary op_shl w lhs rhs = ok (shl w lhs rhs)
run_binary op_shr_s w lhs rhs = ok (shr_s w lhs rhs)
run_binary op_shr_u w lhs rhs = ok (shr_u w lhs rhs)
run_binary op_rotl w lhs rhs = ok (rotl w lhs rhs)
run_binary op_rotr w lhs rhs = ok (rotr w lhs rhs)

unfoldable pub run_relation : Relation → ℕ → ℕ → ℕ → Bool
run_relation op_eq w lhs rhs = lhs == rhs
run_relation op_ne w lhs rhs = not (lhs == rhs)
run_relation op_lt_s w lhs rhs = lt_s w lhs rhs
run_relation op_lt_u w lhs rhs = ltb lhs rhs
run_relation op_le_s w lhs rhs = not (lt_s w rhs lhs)
run_relation op_le_u w lhs rhs = leb lhs rhs
run_relation op_gt_s w lhs rhs = lt_s w rhs lhs
run_relation op_gt_u w lhs rhs = ltb rhs lhs
run_relation op_ge_s w lhs rhs = not (lt_s w lhs rhs)
run_relation op_ge_u w lhs rhs = leb rhs lhs

abbrev pub of_bool : Bool → ℕ
of_bool b = if b then 1 else 0

-- pop_operand() and what is left
abbrev pub pop : List Operand → Result (Operand × List Operand)
pop [] = err undefined
pop (o ∷ os) = ok (o, os)

-- A load: pop_memop_addr, read_unaligned, and the push of the value that `value` makes.
unfoldable pub run_load : ℕ → ℕ → (ℕ → Operand) → Context → Result Context
run_load size offset value c = do
  (ptr, os) ← pop c.os
  base ← to_ui32 ptr
  v ← read_unaligned size (offset + base) c.memory
  ok (record c { os = value v ∷ os })

-- A store of the `size` lowest bytes of the value that `number` takes from the operand.
unfoldable pub run_store : ℕ → ℕ → (Operand → Result ℕ) → Context → Result Context
run_store size offset number c = do
  (val, os) ← pop c.os
  (ptr, os') ← pop os
  base ← to_ui32 ptr
  v ← number val
  memory ← write_unaligned size (offset + base) v c.memory
  ok (record c { os = os'; memory = memory })

-- A handler that changes the top of the stack.
unfoldable pub change_top : (Operand → Result Operand) → Context → Result Context
change_top f c = do (o, os) ← pop c.os; o' ← f o; ok (record c { os = o' ∷ os })

-- A handler that pops the right operand and changes the left one.
unfoldable pub change_left : Width → (ℕ → ℕ → Result Operand) → Context → Result Context
change_left w f c = do
  (r, os) ← pop c.os
  rhs ← to_ui w r
  (l, os') ← pop os
  lhs ← to_ui w l
  o ← f lhs rhs
  ok (record c { os = o ∷ os' })

unfoldable pub visit : Instruction → Context → Result Context
visit (const o) c = ok (record c { os = o ∷ c.os })
visit drop c = do (o, os) ← pop c.os; ok (record c { os = os })
visit select c = do
  (cond, os) ← pop c.os
  (v2, os') ← pop os
  (v1, os'') ← pop os'
  t ← to_ui32 cond
  ok (record c { os = (if t == 0 then v2 else v1) ∷ os'' })
visit (eqz w) c = change_top (λ o. to_ui w o >>= λ v. ok (i32_const_t (of_bool (v == 0)))) c
visit (unary w op) c = change_top (λ o. to_ui w o >>= λ v. ok (make w (run_unary op (bits w) v))) c
visit (binary w op) c =
    change_left w (λ lhs rhs. run_binary op (bits w) lhs rhs >>= λ v. ok (make w v)) c
visit (relation w op) c =
    change_left w (λ lhs rhs. ok (i32_const_t (of_bool (run_relation op (bits w) lhs rhs)))) c
visit i32_wrap_i64 c = change_top (λ o. to_ui64 o >>= λ v. ok (i32_const_t (v % 2 ^ 32))) c
visit i64_extend_s_i32 c =
    change_top (λ o. to_ui32 o >>= λ v. ok (i64_const_t (extend_s 32 64 v))) c
visit i64_extend_u_i32 c = change_top (λ o. to_ui32 o >>= λ v. ok (i64_const_t v)) c
visit (extend w n) c = change_top (λ o. to_ui w o >>= λ v. ok (make w (extend_s n (bits w) v))) c
visit (load w size sign offset) c =
    run_load size offset (λ v. make w (if sign then extend_s (8 * size) (bits w) v else v)) c
visit (f32_load offset) c = run_load 4 offset f32_const_t c
visit (f64_load offset) c = run_load 8 offset f64_const_t c
visit (store w size offset) c = run_store size offset (to_ui w) c
visit (f32_store offset) c = run_store 4 offset to_fui32 c
visit (f64_store offset) c = run_store 8 offset to_fui64 c
visit current_memory c = ok (record c { os = i32_const_t (current_linear_memory c.memory) ∷ c.os })
visit grow_memory c = do
  (o, os) ← pop c.os
  pages ← to_ui32 o
  (sz, memory) ← grow_linear_memory c.limit c.memories pages c.memory
  ok (record c { os = i32_const_t sz ∷ os; memory = memory })
