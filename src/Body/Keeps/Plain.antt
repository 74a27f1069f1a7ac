-- ===== src/Body/Keeps/Plain.antt =====
-- The instructions that do not branch keep every condition that the methods of the operand stack and
-- the writing of an instruction keep.
use eos_vm.Prelude.{
  ℕ, ◌+◌, ◌-◌, ◌%◌, ◌^◌, List, [], ◌∷◌, Bool, true, false, Option, none, some, leb, ◌==◌,
  if◌then◌else◌,
}
use eos_vm.Prelude.Result.{Result, ok, err, wasm_parse_exception}
use eos_vm.GuardedPtr.{Read}
use eos_vm.GuardedPtr.Ensures.{
  Kept-refl, Ensures, Ensures-bind, Ensures-pure, next-Ensures, peek-Ensures, increment-Ensures,
  get-Ensures,
}
use eos_vm.Leb128.Values.{parse_varuint32-Ensures, parse_varint32-Ensures, parse_varint64-Ensures}
use eos_vm.Parser.Primitives.Bounds.{parse_raw-Ensures, parse_v128-Ensures}
use eos_vm.Options.{Options, Limit}
use eos_vm.GuardedPtr.{GuardedPtr, IsValid}
use eos_vm.Types.{FuncType}
use eos_vm.Parser.OperandStack.{Tracker}
use eos_vm.Body.{
  Env, Body, Action, ◌>>=◌, pure, read, lift, require, get, on_stack, stack, emit, pop_all,
  check_in_bounds, block_type, on_control, on_end,
}
use eos_vm.Body.Plain.{
  zero_byte, apply_type, call, call_indirect, drop_case, select_case, get_local, set_local,
  tee_local, get_global, set_global, memory_arguments, load_case, store_case, current_memory,
  grow_memory, i32_const, i64_const, f32_const, f64_const, numeric, extend_case,
}
use eos_vm.Body.Tables.{find_row, numeric_rows}
use eos_vm.Body.Keeps.{
  Leaves, leaves, fails, Keeps, Triple-bind, Triple-pure, Triple-read, Triple-lift, Triple-get,
  Triple-require, Triple-if,
}

-- What a condition has to be kept by.
pub record IsStable (P : Body → Type 0) : Type 0 where
  pub stack_keeps : (m : Tracker → Result Tracker) → Keeps P (stack m)
  pub on_stack_keeps : (m : Tracker → Result (ℕ × Tracker)) → Keeps P (on_stack m)
  pub emit_keeps : (opcode : ℕ) (is : List ℕ) → Keeps P (emit opcode is)
  pub nested_keeps : (s : Body) (n : ℕ) → P s → P (record s { nested = n })

module _ {A B : Type 0} {P : Body → Type 0} where
  pub Keeps-bind :
      {m : Action A} {f : A → Action B} → Keeps P m → ((a : A) → Keeps P (f a)) → Keeps P (m >>= f)
  Keeps-bind p q = Triple-bind p q

module _ {A : Type 0} {P : Body → Type 0} where
  pub Keeps-pure : (a : A) → Keeps P (pure a)
  Keeps-pure a = Triple-pure a λ s i. i

  pub Keeps-read : {R : A → Type 0} {m : Read A} → Ensures R m → Keeps P (read m)
  Keeps-read e = Triple-read e λ a s r i. i

  pub Keeps-lift : (r : Result A) → Keeps P (lift r)
  Keeps-lift r = Triple-lift r λ a s e i. i

  pub Keeps-if : {m n : Action A} (b : Bool) → Keeps P m → Keeps P n → Keeps P (if b then m else n)
  Keeps-if b p q = Triple-if b (λ _. p) (λ _. q)

module _ {A B C : Type 0} {P : Body → Type 0} where
  pub Keeps-row :
      {m : Action C} (o : Option (A × B)) {f : A → B → Action C}
      → Keeps P m
      → ((a : A) (b : B) → Keeps P (f a b))
      → Keeps P (elim o [ none ↦ m | some (a, b) ↦ f a b ])
  Keeps-row none p q = p
  Keeps-row (some (a, b)) p q = q a b

pub Keeps-get : {P : Body → Type 0} → Keeps P get
Keeps-get = Triple-get λ s i. i

pub Keeps-require : {P : Body → Type 0} (b : Bool) → Keeps P (require b)
Keeps-require b = Triple-require b λ e s i. i

pub ruleset keeps_rules = (
  Keeps-bind, Keeps-pure, Keeps-read, Keeps-lift, Keeps-if, Keeps-get, Keeps-require,
  parse_varuint32-Ensures, parse_varint32-Ensures, parse_varint64-Ensures, next-Ensures,
  peek-Ensures, increment-Ensures, get-Ensures,
)

module _ {P : Body → Type 0} (stable : IsStable P) where
  pub zero_byte-Keeps : Keeps P zero_byte
  unfolding zero_byte
  zero_byte-Keeps = search keeps_rules

  pub check_in_bounds-Keeps : (env : Env) → Keeps P (check_in_bounds env)
  unfolding check_in_bounds
  check_in_bounds-Keeps env = search keeps_rules

  pub pop_all-Keeps : (options : Options) (ts : List ℕ) → Keeps P (pop_all options ts)
  unfolding pop_all
  pop_all-Keeps options [] = Keeps-pure tt
  pop_all-Keeps options (t ∷ ts) = Keeps-bind (stable.stack_keeps _) λ _. pop_all-Keeps options ts

  pub apply_type-Keeps : (env : Env) (ft : FuncType) → Keeps P (apply_type env ft)
  unfolding apply_type
  apply_type-Keeps env ft = search (keeps_rules, pop_all-Keeps, stable.stack_keeps) depth 20

pub stack-Keeps :
    {P : Body → Type 0} → IsStable P → (m : Tracker → Result Tracker) → Keeps P (stack m)
stack-Keeps stable m = stable.stack_keeps m

pub on_stack-Keeps :
    {P : Body → Type 0} → IsStable P → (m : Tracker → Result (ℕ × Tracker)) → Keeps P (on_stack m)
on_stack-Keeps stable m = stable.on_stack_keeps m

pub emit-Keeps :
    {P : Body → Type 0} → IsStable P → (opcode : ℕ) (is : List ℕ) → Keeps P (emit opcode is)
emit-Keeps stable opcode is = stable.emit_keeps opcode is

pub ruleset case_rules = (
  keeps_rules, stack-Keeps, on_stack-Keeps, emit-Keeps, check_in_bounds-Keeps, zero_byte-Keeps,
  pop_all-Keeps, apply_type-Keeps, parse_raw-Ensures, parse_v128-Ensures,
)

module _ {P : Body → Type 0} (stable : IsStable P) where
  pub call-Keeps : (env : Env) → Keeps P (call env)
  unfolding call
  call-Keeps env = search case_rules depth 20

  pub call_indirect-Keeps : (env : Env) → Keeps P (call_indirect env)
  unfolding call_indirect
  call_indirect-Keeps env = search case_rules depth 20

  pub drop_case-Keeps : (env : Env) → Keeps P (drop_case env)
  unfolding drop_case
  drop_case-Keeps env = search case_rules depth 20

  pub select_case-Keeps : (env : Env) → Keeps P (select_case env)
  unfolding select_case
  select_case-Keeps env = search case_rules depth 20

  pub get_local-Keeps : (env : Env) → Keeps P (get_local env)
  unfolding get_local
  get_local-Keeps env = search case_rules depth 20

  pub set_local-Keeps : (env : Env) → Keeps P (set_local env)
  unfolding set_local
  set_local-Keeps env = search case_rules depth 20

  pub tee_local-Keeps : (env : Env) → Keeps P (tee_local env)
  unfolding tee_local
  tee_local-Keeps env = search case_rules depth 20

  pub get_global-Keeps : (env : Env) → Keeps P (get_global env)
  unfolding get_global
  get_global-Keeps env = search case_rules depth 20

  pub set_global-Keeps : (env : Env) → Keeps P (set_global env)
  unfolding set_global
  set_global-Keeps env = search case_rules depth 20

  pub current_memory-Keeps : (env : Env) → Keeps P (current_memory env)
  unfolding current_memory
  current_memory-Keeps env = search case_rules depth 20

  pub grow_memory-Keeps : (env : Env) → Keeps P (grow_memory env)
  unfolding grow_memory
  grow_memory-Keeps env = search case_rules depth 20

  pub i32_const-Keeps : (env : Env) → Keeps P (i32_const env)
  unfolding i32_const
  i32_const-Keeps env = search case_rules depth 20

  pub i64_const-Keeps : (env : Env) → Keeps P (i64_const env)
  unfolding i64_const
  i64_const-Keeps env = search case_rules depth 20

  pub f32_const-Keeps : (env : Env) → Keeps P (f32_const env)
  unfolding f32_const
  f32_const-Keeps env = Keeps-bind (Keeps-read (parse_raw-Ensures 4)) λ v. search case_rules

  pub f64_const-Keeps : (env : Env) → Keeps P (f64_const env)
  unfolding f64_const
  f64_const-Keeps env = Keeps-bind (Keeps-read (parse_raw-Ensures 8)) λ v. search case_rules

  pub memory_arguments-Keeps :
      (env : Env) (max_align : ℕ) → Keeps P (memory_arguments env max_align)
  unfolding memory_arguments
  memory_arguments-Keeps env max_align = search keeps_rules

  pub load_case-Keeps :
      (env : Env) {emits : List ℕ → Action (Unit {0})}
      → ((is : List ℕ) → Keeps P (emits is))
      → (max_align type : ℕ) → Keeps P (load_case env emits max_align type)
  unfolding load_case
  load_case-Keeps env e max_align type =
      search (keeps_rules, check_in_bounds-Keeps, memory_arguments-Keeps, stable.stack_keeps, e)
        depth 20

  pub store_case-Keeps :
      (env : Env) {emits : List ℕ → Action (Unit {0})}
      → ((is : List ℕ) → Keeps P (emits is))
      → (max_align type : ℕ) → Keeps P (store_case env emits max_align type)
  unfolding store_case
  store_case-Keeps env e max_align type =
      search (keeps_rules, check_in_bounds-Keeps, memory_arguments-Keeps, stable.stack_keeps, e)
        depth 20

  pub numeric-Keeps : (env : Env) (opcode : ℕ) → Keeps P (numeric env opcode)
  unfolding numeric
  numeric-Keeps env opcode =
      Keeps-row (find_row numeric_rows opcode) (Keeps-require false)
        λ ins out. search case_rules depth 20

  pub extend_case-Keeps : (env : Env) (opcode type : ℕ) → Keeps P (extend_case env opcode type)
  unfolding extend_case
  extend_case-Keeps env opcode type = search case_rules depth 20

  pub on_control-Keeps : (env : Env) → Keeps P (on_control env)
  unfolding on_control
  on_control-Keeps env = record {
    run = λ s c v i. go env.options.eosio_max_nested_structures s c v i;
  }
    where
      counted :
          (b : Bool) (n : ℕ) (s : Body) (c : GuardedPtr)
          → IsValid c
          → P s
          → Leaves
              (λ _. P)
              c
              (if b then ok (tt, record s { nested = n }, c) else err wasm_parse_exception)
      counted true n s c v i = leaves (stable.nested_keeps s n i) (Kept-refl v)
      counted false n s c v i = fails

      go :
          (o : Option Limit) (s : Body) (c : GuardedPtr)
          → IsValid c
          → P s
          → Leaves
              (λ _. P)
              c
              (elim o [
                | none ↦ ok (tt, s, c)
                | some l ↦
                    if leb ((s.nested + 1) % 2 ^ l.bits) l.limit
                    then ok (tt, record s { nested = (s.nested + 1) % 2 ^ l.bits }, c)
                    else err wasm_parse_exception
              ])
      go none s c v i = leaves i (Kept-refl v)
      go (some l) s c v i = counted _ _ s c v i

  pub on_end-Keeps : (env : Env) → Keeps P (on_end env)
  unfolding on_end
  on_end-Keeps env = record { run = λ s c v i. go env.options.eosio_max_nested_structures s c v i }
    where
      go :
          (o : Option Limit) (s : Body) (c : GuardedPtr)
          → IsValid c
          → P s
          → Leaves
              (λ _. P)
              c
              (elim o [
                | none ↦ ok (tt, s, c)
                | some l ↦
                    ok (tt, record s { nested = if s.nested == 0 then 1 else s.nested - 1 }, c)
              ])
      go none s c v i = leaves i (Kept-refl v)
      go (some l) s c v i = leaves (stable.nested_keeps s _ i) (Kept-refl v)

  pub block_type-Keeps : (env : Env) (t : ℕ) → Keeps P (block_type env t)
  unfolding block_type
  block_type-Keeps env t = search keeps_rules depth 20
