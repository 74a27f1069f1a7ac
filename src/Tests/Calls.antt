-- ===== src/Tests/Calls.antt =====
-- The stacks of the interpreter, and a call with its return, at concrete inputs.
use eos_vm.Prelude.{
  inl, inr, ℕ, ◌+◌, ◌^◌, ◌≡◌, refl, [], ◌∷◌, some, get_elem?, List, set, ◌++◌, arith,
}
use eos_vm.Prelude.Result.{ok}
use eos_vm.Interpreter.Operand.{Operand, i32_const_t}
use eos_vm.Interpreter.Stack.{Stack, jump, set_index}
use eos_vm.Interpreter.Stack.Refinement.{Represents, jump_drops, jump_keeps}
use eos_vm.Interpreter.Calls.{setup_locals, State, push_call, apply_pop_call}
use eos_vm.Types.{LocalEntry}
use eos_vm.Types.Ty
use eos_vm.Parser.Locals.Lookup.{expand}
use eos_vm.Interpreter.Calls.Locals.{AreZeros, setup_locals-Represents}
use eos_vm.Interpreter.Stack.Places.{set_index-Represents}
use eos_vm.Interpreter.Calls.Balance.{Resumes, apply_pop_call-Resumes_value, apply_pop_call-Resumes}

abbrev five : Operand
five = i32_const_t 5

abbrev six : Operand
six = i32_const_t 6

abbrev seven : Operand
seven = i32_const_t 7

abbrev three_operands : Stack Operand
three_operands = record { store = five ∷ six ∷ seven ∷ []; index = 3 }

three_operands-holds :
    (i : ℕ) (a : Operand)
    → get_elem? (five ∷ six ∷ seven ∷ []) i ≡ some a
    → get_elem? three_operands.store i ≡ some a
three_operands-holds i a h = h

three_operands-Represents : Represents three_operands (five ∷ six ∷ seven ∷ [])
three_operands-Represents = record {
  size = refl;
  holds = three_operands-holds;
  room = omega arith;
  inside = omega arith;
}

jump_drops_run :
    (t : Stack Operand) × (jump five 2 three_operands ≡ ok t) × Represents t (five ∷ [])
jump_drops_run =
    jump_drops five three_operands (five ∷ []) (six ∷ seven ∷ []) three_operands-Represents
      (omega arith)

jump_keeps_run :
    (t : Stack Operand) × (jump five (2 ^ 31 + (1 + 1)) three_operands ≡ ok t)
    × Represents t (five ∷ seven ∷ [])
jump_keeps_run =
    jump_keeps five seven three_operands (five ∷ []) (six ∷ []) three_operands-Represents
      (omega arith)

abbrev at_call : State
at_call = record {
  os = record { store = five ∷ six ∷ []; index = 2 };
  frames = [];
  pc = 40;
  last_op_index = 0;
  remaining_call_depth = 250;
}

abbrev called : State
called = record {
  os = record { store = five ∷ six ∷ []; index = 2 };
  frames = record { pc = 41; last_op_index = 0 } ∷ [];
  pc = 40;
  last_op_index = 1;
  remaining_call_depth = 240;
}

abbrev at_return : State
at_return = record called { os = three_operands; pc = 90 }

return_value_run :
    (v : State) × (apply_pop_call 1 1 10 at_return ≡ ok v)
    × Resumes at_call v
    × Represents v.os (five ∷ seven ∷ [])
unfolding push_call
return_value_run =
    apply_pop_call-Resumes_value 10 1 at_call called at_return (five ∷ []) (six ∷ []) seven refl
      (record { frames = refl; depth = refl }) (omega arith) (omega arith) three_operands-Represents

return_run :
    (v : State) × (apply_pop_call 2 0 10 at_return ≡ ok v)
    × Resumes at_call v
    × Represents v.os (five ∷ [])
unfolding push_call
return_run =
    apply_pop_call-Resumes 10 1 at_call called at_return (five ∷ []) (six ∷ seven ∷ []) refl
      (record { frames = refl; depth = refl }) (omega arith) (omega arith) three_operands-Represents

set_index_run :
    (t : Stack Operand) × (set_index 1 seven three_operands ≡ ok t)
    × Represents t (set (five ∷ six ∷ seven ∷ []) 1 seven)
set_index_run =
    set_index-Represents three_operands (five ∷ six ∷ seven ∷ []) 1 seven three_operands-Represents
      (omega arith)

abbrev two_locals : List LocalEntry
two_locals = record { count = 2; type = Ty.i32 } ∷ record { count = 1; type = Ty.i64 } ∷ []

setup_locals_run :
    (t : Stack Operand) × (zs : List Operand) × (setup_locals five two_locals three_operands ≡ ok t)
    × Represents t ((five ∷ six ∷ seven ∷ []) ++ zs)
    × AreZeros zs (Ty.i32 ∷ Ty.i32 ∷ Ty.i64 ∷ [])
unfolding expand
setup_locals_run =
    setup_locals-Represents five two_locals three_operands (five ∷ six ∷ seven ∷ [])
      (inl refl, (inr (inl refl), tt)) three_operands-Represents
