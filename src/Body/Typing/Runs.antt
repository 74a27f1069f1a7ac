-- ===== src/Body/Typing/Runs.antt =====
-- Stacks with types, and the run of a handler before the rest of straight code.
use eos_vm.Prelude.{ℕ, ◌≤◌, List, [], ◌∷◌, All, arith}
use eos_vm.Prelude.Result.{Result, ◌>>=◌}
use eos_vm.Interpreter.Operand.{
  Operand, i32_const_t, i64_const_t, f32_const_t, f64_const_t, v128_const_t, HasType,
}
use eos_vm.Interpreter.Visitor.{Instruction, Context}
use eos_vm.Interpreter.Visitor.Typing.{HasTypes, Step, steps, throws}
use eos_vm.Interpreter.Dispatch.{run_all}
use eos_vm.Body.Typing.Handlers.{IsValue}

is_value : (t : ℕ) → 0x7B ≤ t → t ≤ 0x7F → IsValue t
is_value t h k = record {
  not_unreachable = λ e. omega arith;
  not_scope = λ e. omega arith;
  not_any = λ e. omega arith;
  not_pseudo = λ e. omega arith;
}

HasType-IsValue : (o : Operand) (t : ℕ) → HasType o t → IsValue t
unfolding HasType
HasType-IsValue (i32_const_t v) t (e, h) = is_value t (omega arith) (omega arith)
HasType-IsValue (i64_const_t v) t (e, h) = is_value t (omega arith) (omega arith)
HasType-IsValue (f32_const_t v) t (e, h) = is_value t (omega arith) (omega arith)
HasType-IsValue (f64_const_t v) t (e, h) = is_value t (omega arith) (omega arith)
HasType-IsValue (v128_const_t v) t (e, h) = is_value t (omega arith) (omega arith)

pub HasTypes-All : (os : List Operand) (ts : List ℕ) → HasTypes os ts → All IsValue ts
unfolding HasTypes
HasTypes-All [] [] h = tt
HasTypes-All [] (t ∷ ts) h = absurd h
HasTypes-All (o ∷ os) [] h = absurd h
HasTypes-All (o ∷ os) (t ∷ ts) (h, hs) = (HasType-IsValue o t h, HasTypes-All os ts hs)

pub then_Step :
    (us ts : List ℕ) (ctx : Context) (r : Result Context) (is : List Instruction)
    → Step us ctx r
    → ((os : List Operand)
        → HasTypes os us
        → Step ts (record ctx { os = os }) (run_all is (record ctx { os = os })))
    → Step ts ctx (r >>= run_all is)
then_Step us ts ctx r is (steps h) f = again (f _ h)
  where
    again :
        {os : List Operand} {x : Result Context}
        → Step ts (record ctx { os = os }) x
        → Step ts ctx x
    again (steps k) = steps k
    again (throws k) = throws k
then_Step us ts ctx r is (throws e) f = throws e
