-- ===== src/Body/Typing/Straight.antt =====
-- Straight code that validation accepts, and the handlers that run it.
use eos_vm.Prelude.{ℕ, Bool, true, false, ◌≡◌, refl, List, [], ◌∷◌, ◌++◌, some, All, sym}
use mathlib.Core.Path.{subst}
use eos_vm.Prelude.Result.{Result, ok}
use eos_vm.GuardedPtr.{GuardedPtr, Read, IsValid, next}
use eos_vm.GuardedPtr.Ensures.{Kept, Kept-IsValid, Kept-trans, next-Ensures}
use eos_vm.Leb128.{parse_varint32, parse_varint64}
use eos_vm.Leb128.Values.{parse_varint32-Ensures, parse_varint64-Ensures}
use eos_vm.Types.Ty
use eos_vm.Interpreter.Operand.{i32_const_t, i64_const_t, HasType}
use eos_vm.Interpreter.Visitor.{Instruction, const, drop, select, Context, visit}
use eos_vm.Interpreter.Visitor.Typing.{HasTypes, Step, steps, visit-Step}
use eos_vm.Interpreter.Dispatch.{integer_handlers, find_handler, run_all}
use eos_vm.Body.{Env, Body, Action, ◌>>=◌, read, emit, pushes}
use eos_vm.Body.{get, require, switch}
use eos_vm.Body.Plain.{i32_const, i64_const}
use eos_vm.Body.Tables.{find_place}
use eos_vm.Body.Vector.{by_place}
use eos_vm.Body.Code.{instruction, round}
use eos_vm.Body.Typing.Handlers.{IsValue, i32-IsValue, i64-IsValue, handler-HasRow}
use eos_vm.Body.Typing.Operands.{operand_types, Now}
use eos_vm.Body.Typing.Runs.{HasTypes-All, then_Step}
use eos_vm.Body.Typing.Checks.{
  Becomes, numeric-Becomes, drop-Becomes, select-Becomes, const-Becomes, Leaves-ok, Outcome-ok,
}

-- The instruction that the bytes mean: an opcode with a handler on integers, drop, select, or a constant
-- with its number.
pub data Reads (c : GuardedPtr) : ℕ → Instruction → Type 0 where
  reads_numeric :
      {i : Instruction} (opcode : ℕ)
      → find_handler integer_handlers opcode ≡ some i
      → Reads c opcode i
  reads_drop : Reads c 0x1A drop
  reads_select : Reads c 0x1B select
  reads_i32_const :
      (v : ℕ) (d : GuardedPtr) → parse_varint32 c ≡ ok (v, d) → Reads c 0x41 (const (i32_const_t v))
  reads_i64_const :
      (v : ℕ) (d : GuardedPtr) → parse_varint64 c ≡ ok (v, d) → Reads c 0x42 (const (i64_const_t v))

-- Rounds of the loop that validation goes through, with the instructions that they read.
pub data Accepts (env : Env) (bounds : ℕ)
    : Body → GuardedPtr → List Instruction → Body → Type 0 where
  accepted : (s : Body) (c : GuardedPtr) → Accepts env bounds s c [] s
  accepts :
      (s s' s'' : Body) (c c' d : GuardedPtr) (opcode : ℕ) {i : Instruction} {is : List Instruction}
      → next c ≡ ok (opcode, d)
      → Reads d opcode i
      → round env bounds s c ≡ ok (tt, s', c')
      → Accepts env bounds s' c' is s''
      → Accepts env bounds s c (i ∷ is) s''

-- A read that is known.
read-bind :
    {A B : Type 0} (m : Read A) (f : A → Action B) {s : Body} {c d : GuardedPtr} {a : A}
    {r : Result (B × Body × GuardedPtr)}
    → m c ≡ ok (a, d)
    → (read m >>= f) s c ≡ r
    → f a s d ≡ r
unfolding ◌>>=◌ read
read-bind m f p e = rw (◌>>=◌, read, p) at e

checked-bind :
    {B : Type 0} (b : Bool) (m : Action B) {s : Body} {c : GuardedPtr} {x : B × Body × GuardedPtr}
    → (require b >>= λ _. m) s c ≡ ok x
    → m s c ≡ ok x
unfolding ◌>>=◌ require
checked-bind true m h = h
checked-bind false m h = cc

-- A round that returns has run the case of the opcode.
round-instruction :
    (env : Env) (bounds opcode : ℕ) (s : Body) {s' : Body} (c : GuardedPtr) {c' d : GuardedPtr}
    → next c ≡ ok (opcode, d)
    → round env bounds s c ≡ ok (tt, s', c')
    → instruction env bounds opcode s d ≡ ok (tt, s', c')
unfolding round ◌>>=◌ get
round-instruction env bounds opcode s c n h =
    read-bind next (instruction env bounds) n (checked-bind _ _ h)

module _ (env : Env) (bounds : ℕ) (ts : List ℕ) (vs : All IsValue ts) (s s' : Body)
    (c d : GuardedPtr) (valid : IsValid c) (now : Now ts s) where
  instruction-Becomes :
      {opcode : ℕ} {i : Instruction}
      → Reads c opcode i
      → instruction env bounds opcode s c ≡ ok (tt, s', d)
      → Becomes i ts s' × Kept c d
  unfolding instruction by_place find_place switch i32_const i64_const HasType
  instruction-Becomes (reads_numeric opcode e) h =
      let r = handler-HasRow opcode _ e in
      Leaves-ok ((numeric-Becomes env ts vs _ opcode r).run s c valid now)
        (subst (λ m. m s c ≡ ok (tt, s', d)) (r.case env bounds) h)
  instruction-Becomes reads_drop h = Leaves-ok ((drop-Becomes env ts vs).run s c valid now) h
  instruction-Becomes reads_select h = Leaves-ok ((select-Becomes env ts vs).run s c valid now) h
  instruction-Becomes (reads_i32_const v d p) h =
      let (q, k) = Outcome-ok (parse_varint32-Ensures.run c valid) p in
      let t = const-Becomes env ts vs (i32_const_t v) Ty.i32 0x41 (v ∷ []) i32-IsValue (refl, q) in
      let (b, l) = Leaves-ok (t.run s d (Kept-IsValid valid k) now) (
        read-bind parse_varint32 (λ v. emit 0x41 (v ∷ []) >>= λ _. pushes env.options Ty.i32) p
          h) in
      (b, Kept-trans k l)
  instruction-Becomes (reads_i64_const v d p) h =
      let (q, k) = Outcome-ok (parse_varint64-Ensures.run c valid) p in
      let t = const-Becomes env ts vs (i64_const_t v) Ty.i64 0x42 (v ∷ []) i64-IsValue (refl, q) in
      let (b, l) = Leaves-ok (t.run s d (Kept-IsValid valid k) now) (
        read-bind parse_varint64 (λ v. emit 0x42 (v ∷ []) >>= λ _. pushes env.options Ty.i64) p
          h) in
      (b, Kept-trans k l)

-- Straight code on integers that rounds of validation accept from a valid pointer, run on a stack of the
-- types that validation has before it: it returns a stack of the types that validation has after it, the
-- rest of the context unchanged, or it throws; no handler pops an empty stack or reads an operand as
-- another type.
pub run_all-Step :
    {env : Env} {bounds : ℕ} {s s' : Body} {c : GuardedPtr} {is : List Instruction} (ctx : Context)
    → IsValid c
    → Accepts env bounds s c is s'
    → HasTypes ctx.os (operand_types s.op_stack.state)
    → Step (operand_types s'.op_stack.state) ctx (run_all is ctx)
unfolding run_all
run_all-Step ctx v (accepted s c) h = steps h
run_all-Step {env = env} {bounds = bounds} {s' = u} ctx v
      (accepts s s' s'' c c' d opcode {i = i} {is = is} n r e rest) h =
    let (_, k) = Outcome-ok (next-Ensures.run c v) n in
    let w = Kept-IsValid v k in
    let (b, l) =
      instruction-Becomes env bounds _ (HasTypes-All ctx.os _ h) s s' d c' w refl r
        (round-instruction env bounds opcode s c n e) in
    then_Step (b.outputs ++ b.left) (operand_types u.op_stack.state) ctx (visit i ctx) is
      (visit-Step b.signature b.left ctx (subst (HasTypes ctx.os) b.split h))
      λ os k.
        run_all-Step (record ctx { os = os }) (Kept-IsValid w l) rest
          (subst (HasTypes os) (sym b.now) k)
