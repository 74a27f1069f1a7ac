-- ===== src/Body/Typing/Checks.antt =====
-- What the cases of validation for the instructions on integers, drop, select and constants do to the types of the
-- operands.
use eos_vm.Prelude.{ℕ, ◌≡◌, refl, List, [], ◌∷◌, ◌++◌, All, ◌==◌, false, arith}
use mathlib.Core.Path.{subst}
use eos_vm.Prelude.Result.{Result, ok, ok-inj}
use eos_vm.GuardedPtr.{GuardedPtr}
use eos_vm.GuardedPtr.Ensures.{Kept, Outcome, returns, raises}
use eos_vm.Types.Ty
use eos_vm.Interpreter.Operand.{Operand, HasType}
use eos_vm.Interpreter.Visitor.{Instruction, const, drop, select}
use eos_vm.Interpreter.Visitor.Typing.{Signature, const_sig, drop_sig, select_sig}
use eos_vm.Parser.OperandStack.{any_type}
use eos_vm.Body.{Env, Body, Action, ◌>>=◌, emit, pushes}
use eos_vm.Body.Plain.{drop_case, select_case, numeric}
use eos_vm.Body.Keeps.{Leaves, leaves, fails, Triple, Triple-bind, Triple-require, Triple-post}
use eos_vm.Body.Typing.Handlers.{IsValue, i32-IsValue, HasRow}
use eos_vm.Body.Typing.Operands.{
  Now, Triple-Popped, pop_all-Popped, check_in_bounds-Now, emit-Now, pops-Popped, pop_any-Popped,
  pushes-Now,
}

-- The types before an instruction become those that its signature gives.
pub record Becomes (i : Instruction) (ts : List ℕ) (s : Body) : Type 0 where
  pub inputs : List ℕ
  pub outputs : List ℕ
  pub left : List ℕ
  pub signature : Signature i inputs outputs
  pub split : ts ≡ inputs ++ left
  pub now : Now (outputs ++ left) s

module _ {A : Type 0} {P : Body → Type 0} {R : A → Body → Type 0} {m : Action A} where
  -- A fact that does not depend on the state.
  Triple-known : {F : Type 0} → (F → Triple P R m) → Triple (λ s. F × P s) R m
  Triple-known f = record { run = λ s c v (k, p). (f k).run s c v p }

module _ (env : Env) (ts : List ℕ) (vs : All IsValue ts) where
  pub numeric-Becomes :
      (i : Instruction) (opcode : ℕ)
      → HasRow opcode i
      → Triple (Now ts) (λ _. Becomes i ts) (numeric env opcode)
  unfolding numeric
  numeric-Becomes i opcode r =
      rw (numeric, r.row)
        (Triple-bind (check_in_bounds-Now env ts) λ _. Triple-bind (emit-Now env ts opcode []) λ _.
          Triple-bind (pop_all-Popped env.options r.inputs ts vs r.values) λ _.
            Triple-Popped λ left e us.
              Triple-post (pushes-Now env.options left us r.output r.value) λ _ s i. record {
                inputs = r.inputs;
                outputs = r.output ∷ [];
                left = left;
                signature = r.signature;
                split = e;
                now = i;
              })

  pub drop-Becomes : Triple (Now ts) (λ _. Becomes drop ts) (drop_case env)
  unfolding drop_case
  drop-Becomes = Triple-bind (check_in_bounds-Now env ts) λ _.
      Triple-bind (pop_any-Popped env.options ts vs) λ t. Triple-known λ v.
        Triple-Popped λ left e us. Triple-post (emit-Now env left 0x1A []) λ _ s i. record {
          inputs = t ∷ [];
          outputs = [];
          left = left;
          signature = drop_sig t;
          split = e;
          now = i;
        }

  pub select-Becomes : Triple (Now ts) (λ _. Becomes select ts) (select_case env)
  unfolding select_case
  select-Becomes = Triple-bind (check_in_bounds-Now env ts) λ _.
      Triple-bind (pops-Popped env.options ts vs Ty.i32 i32-IsValue) λ _. Triple-Popped λ left e us.
        Triple-bind (pop_any-Popped env.options left us) λ t. Triple-known λ v.
          Triple-Popped λ left' e' us'. Triple-bind (pop_any-Popped env.options left' us') λ t'.
            Triple-known λ v'. Triple-Popped λ left'' e'' us''.
              Triple-bind {Q = λ _ s. (t ≡ t') × Now left'' s}
                (Triple-require _ λ g s i. (ground (arith, g, v.not_any, v'.not_any), i))
                λ _. Triple-known λ same.
                  let f : (t == any_type) ≡ false = ground (arith, v.not_any) in
                  rw f (
                    Triple-bind (pushes-Now env.options left'' us'' t v) λ _.
                      Triple-post (emit-Now env (t ∷ left'') 0x1B []) λ _ s i. record {
                        inputs = Ty.i32 ∷ t ∷ t ∷ [];
                        outputs = t ∷ [];
                        left = left'';
                        signature = select_sig t;
                        split = cc (e, e', e'', same);
                        now = i;
                      })

  -- The rest of the case of a constant.
  pub const-Becomes :
      (o : Operand) (t opcode : ℕ) (is : List ℕ)
      → IsValue t
      → HasType o t
      → Triple (Now ts) (λ _. Becomes (const o) ts) (emit opcode is >>= λ _. pushes env.options t)
  const-Becomes o t opcode is v h = Triple-bind (emit-Now env ts opcode is) λ _.
      Triple-post (pushes-Now env.options ts vs t v) λ _ s i. record {
        inputs = [];
        outputs = t ∷ [];
        left = ts;
        signature = const_sig o t h;
        split = refl;
        now = i;
      }

module _ {A : Type 0} {Q : A → Body → Type 0} where
  pub Leaves-ok :
      {c d : GuardedPtr} {a : A} {s : Body} {r : Result (A × Body × GuardedPtr)}
      → Leaves Q c r
      → r ≡ ok (a, s, d)
      → Q a s × Kept c d
  Leaves-ok {c = c} (leaves q k) e = subst (λ x. Q x.0 x.1 × Kept c x.2) (ok-inj e) (q, k)
  Leaves-ok fails e = cc

pub Outcome-ok :
    {A : Type 0} {Q : A → Type 0} {c d : GuardedPtr} {a : A} {r : Result (A × GuardedPtr)}
    → Outcome Q c r
    → r ≡ ok (a, d)
    → Q a × Kept c d
Outcome-ok {Q = Q} {c = c} (returns q k) e = subst (λ x. Q x.0 × Kept c x.1) (ok-inj e) (q, k)
Outcome-ok (raises x) e = cc
