-- ===== src/Interpreter/Calls.antt =====
-- include/eosio/vm/execution_context.hpp: calls and returns of the interpreter. The call stack is a list
-- with its last frame first. The size of a frame, which get_function_stack_size gives, and the number of
-- a function's parameters are arguments.
pub mod Balance
pub mod Locals
use eos_vm.Prelude.{ℕ, zero, suc, ◌+◌, ◌-◌, ◌%◌, ◌^◌, List, [], ◌∷◌, ltb, leb, ◌==◌, if◌then◌else◌}
use eos_vm.Prelude.Result.{
  Result, ok, err, ◌>>=◌, ◌>>◌, eos_vm_assert, undefined, wasm_interpreter_exception,
}
use eos_vm.Types.{LocalEntry}
use eos_vm.Types.Ty
use eos_vm.Interpreter.Operand.{
  Operand, i32_const_t, i64_const_t, f32_const_t, f64_const_t, v128_const_t,
}
use eos_vm.Interpreter.Stack.{Stack, push_back, eat_top, compact}

-- activation_frame
pub record Frame : Type 0 where
  pub pc : ℕ
  pub last_op_index : ℕ

-- The members of execution_context that calls change.
pub record State : Type 0 where
  pub os : Stack Operand
  pub frames : List Frame
  pub pc : ℕ
  pub last_op_index : ℕ
  pub remaining_call_depth : ℕ

-- push_call<false>(index)
unfoldable pub push_call : ℕ → ℕ → State → Result State
push_call frame_size params s = do
  eos_vm_assert (leb frame_size s.remaining_call_depth) wasm_interpreter_exception
  ok (record s {
    frames = record { pc = s.pc + 1; last_op_index = s.last_op_index } ∷ s.frames;
    last_op_index = (s.os.index + 2 ^ 32 - params) % 2 ^ 32;
    remaining_call_depth = s.remaining_call_depth - frame_size;
  })

-- The zero of a local's type in setup_locals.
unfoldable pub zero_of : ℕ → Result Operand
zero_of type =
    if type == Ty.i32
    then ok (i32_const_t 0)
    else if type == Ty.i64
    then ok (i64_const_t 0)
    else if type == Ty.f32
    then ok (f32_const_t 0)
    else if type == Ty.f64
    then ok (f64_const_t 0)
    else if type == Ty.v128
    then ok (v128_const_t 0)
    else err wasm_interpreter_exception

-- The inner loop of setup_locals.
unfoldable pub push_zeros : Operand → ℕ → ℕ → Stack Operand → Result (Stack Operand)
push_zeros fresh type zero os = ok os
push_zeros fresh type (suc count) os = do
  z ← zero_of type
  os' ← push_back fresh z os
  push_zeros fresh type count os'

-- setup_locals(index), on the locals of the function
unfoldable pub setup_locals : Operand → List LocalEntry → Stack Operand → Result (Stack Operand)
setup_locals fresh [] os = ok os
setup_locals fresh (l ∷ ls) os = do
  os' ← push_zeros fresh l.type l.count os
  setup_locals fresh ls os'

-- apply_pop_call(num_locals, return_count, frame_size)
unfoldable pub apply_pop_call : ℕ → ℕ → ℕ → State → Result State
apply_pop_call num_locals return_count frame_size s = elim s.frames [
  | [] ↦ err undefined
  | af ∷ rest ↦ do
    os ←
        (if return_count == 0
          then ok (eat_top num_locals s.os)
          else compact ((s.os.index + 2 ^ 32 - num_locals - 1) % 2 ^ 32) s.os)
    ok (record {
      os = os;
      frames = rest;
      pc = af.pc;
      last_op_index = af.last_op_index;
      remaining_call_depth = (s.remaining_call_depth + frame_size) % 2 ^ 32;
    })
]
