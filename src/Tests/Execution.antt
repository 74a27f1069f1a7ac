-- ===== src/Tests/Execution.antt =====
-- The memory and the handlers of the interpreter at concrete inputs.
use eos_vm.Prelude.{ℕ, ◌%◌, ◌^◌, ◌-◌, ◌≡◌, ◌≢◌, ◌⊎◌, inr, refl, [], ◌∷◌, some, true, false, arith}
use eos_vm.Prelude.Result.{ok, err, wasm_interpreter_exception}
use eos_vm.Types.{MemoryType}
use eos_vm.Types.Ty
use eos_vm.Interpreter.Memory.{
  WasmAllocator, reset_pages, grow_linear_memory, read_unaligned, write_unaligned, write_bytes,
}
use eos_vm.Interpreter.Memory.Allocator.{
  IsReset, reset_pages_zeroes, GrowResult, grow_linear_memory_grows,
}
use eos_vm.Interpreter.Memory.Access.{read-write_unaligned, read-write_unaligned_apart}
use eos_vm.Interpreter.Operand.{i32_const_t, HasType}
use eos_vm.Interpreter.Integers.{div_s, rem_s}
use eos_vm.Interpreter.Integers.Signed.{IsSigned, positive, below_zero}
use eos_vm.Interpreter.Integers.Signed.Values.{IsQuotient, opposite}
use eos_vm.Interpreter.Integers.Signed.Division.{div_s_outcome, rem_s_outcome}
use eos_vm.Interpreter.Visitor.{Context, binary, w32, op_div_s, visit}
use eos_vm.Interpreter.Visitor.Typing.{Step, binary_sig, visit-Step, HasTypes}

abbrev one_page : WasmAllocator
one_page = record { page = some 1; raw = λ _. 7 }

abbrev written : WasmAllocator
written = record { page = some 1; raw = write_bytes (λ _. 7) 8 4 258 }

abbrev memory_type : MemoryType
memory_type = record { limits = record { flags = true; initial = 1; maximum = 3 } }

reset_pages_run : (b : WasmAllocator) × (reset_pages 2 one_page ≡ ok b) × IsReset 2 b
reset_pages_run = reset_pages_zeroes 2 one_page (omega arith)

grow_run :
    GrowResult 10 memory_type 1 2 one_page (grow_linear_memory 10 (memory_type ∷ []) 2 one_page)
grow_run =
    grow_linear_memory_grows 10 memory_type [] 1 2 one_page refl (omega arith) (omega arith)
      (omega arith)

load_run : read_unaligned 4 8 written ≡ ok (258 % 256 ^ 4)
unfolding write_unaligned
load_run = read-write_unaligned 4 8 258 one_page written refl

load_apart_run : read_unaligned 4 12 written ≡ read_unaligned 4 12 one_page
unfolding write_unaligned
load_apart_run = read-write_unaligned_apart 4 8 258 4 12 one_page written refl (inr (omega arith))

abbrev least : ℕ
least = 2147483648

abbrev three : ℕ
three = 3

abbrev minus_seven : ℕ
minus_seven = 4294967289

abbrev minus_two : ℕ
minus_two = 4294967294

div_s_run :
    (((three ≡ 0) ⊎ ((least ≡ 2 ^ 31) × (three ≡ 2 ^ 32 - 1)))
      × (div_s 32 least three ≡ err wasm_interpreter_exception))
    ⊎ ((three ≢ 0)
        × (least ≡ 2 ^ 31 → three ≢ 2 ^ 32 - 1)
        × ((q : ℕ) × (k : ℕ) × (rest : ℕ) × (div_s 32 least three ≡ ok q)
            × IsSigned 32 true k q
            × IsQuotient 2147483648 3 k rest))
unfolding opposite
div_s_run =
    div_s_outcome 32 least 3 2147483648 3 true false (omega arith)
      (below_zero (omega arith) (omega arith) refl) (positive (omega arith))

rem_s_run :
    ((minus_two ≡ 0) × (rem_s 32 minus_seven minus_two ≡ err wasm_interpreter_exception))
    ⊎ ((minus_two ≢ 0)
        × ((r : ℕ) × (k : ℕ) × (rest : ℕ) × (rem_s 32 minus_seven minus_two ≡ ok r)
            × IsSigned 32 true rest r
            × IsQuotient 7 2 k rest))
rem_s_run =
    rem_s_outcome 32 minus_seven minus_two 7 2 true true (omega arith)
      (below_zero (omega arith) (omega arith) refl) (below_zero (omega arith) (omega arith) refl)

abbrev two_operands : Context
two_operands = record {
  os = i32_const_t 2 ∷ i32_const_t 4294967289 ∷ [];
  memory = one_page;
  limit = 10;
  memories = [];
}

visit_run : Step (Ty.i32 ∷ []) two_operands (visit (binary w32 op_div_s) two_operands)
unfolding HasTypes HasType
visit_run =
    visit-Step (binary_sig w32 op_div_s) [] two_operands
      ((refl, omega arith), ((refl, omega arith), tt))
