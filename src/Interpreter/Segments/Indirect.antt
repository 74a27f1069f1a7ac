-- ===== src/Interpreter/Segments/Indirect.antt =====
-- call_indirect calls a function of the module whose type operator== accepts for the one it expects, or
-- throws.
use eos_vm.Prelude.{
  ℕ, ◌-◌, ◌<◌, ◌≡◌, ◌⊎◌, inl, inr, refl, Bool, true, false, Option, some, none, ltb, ltb→lt,
  get_elem?, get_elem?-lt-length, Bool-cases, arith,
}
use mathlib.Core.Path.{subst}
use eos_vm.Prelude.Result.{
  Error, Result, ok, err, ok-inj, err-inj, >>=-IsException, >>=-eq-ok, eos_vm_assert, or_throw,
  out_of_range, IsException, wasm_interpreter_exception,
}
use eos_vm.Types.{
  FuncType, Module, get_functions_total, get_imported_functions_size, get_function_type,
  func_type_equal,
}
use eos_vm.Types.Equality.{func_type_equal_iff}
use eos_vm.Parser.Sections.Bounds.{ImportsFit, get_function_type-IsException}
use eos_vm.Interpreter.Segments.{Instance, table_elem, call_indirect}
use eos_vm.Interpreter.Segments.Entries.{or_throw-known}

or_throw-IsException :
    {A : Type 0} (o : Option A) (e x : Error) → IsException e → or_throw o e ≡ err x → IsException x
or_throw-IsException none e x p h = subst IsException (err-inj h) p
or_throw-IsException (some a) e x p h = cc

assert-IsException :
    (b : Bool) (e x : Error) → IsException e → eos_vm_assert b e ≡ err x → IsException x
assert-IsException true e x p h = cc
assert-IsException false e x p h = subst IsException (err-inj h) p

pub assert-true : (b : Bool) (e : Error) {u : Unit {0}} → eos_vm_assert b e ≡ ok u → b ≡ true
assert-true true e h = refl
assert-true false e h = cc

-- A function whose type the module gives is one of its functions.
get_function_type-lt :
    (mod' : Module) (index : ℕ) {ft : FuncType}
    → get_function_type mod' index ≡ ok ft
    → index < get_functions_total mod'
unfolding get_function_type
get_function_type-lt mod' index h =
    elim (Bool-cases (ltb index (get_imported_functions_size mod'))) [
      | inl e ↦ omega (arith, ltb→lt _ _ e)
      | inr e ↦
          let place = index - get_imported_functions_size mod' in
          let (t, f, _) =
            >>=-eq-ok (or_throw (get_elem? mod'.functions place) out_of_range) _ (rw e at h) in
          let below = get_elem?-lt-length mod'.functions place (or_throw-known _ out_of_range f) in
          ground (arith, below, e)
    ]

-- The function that is called, its type, and what operator== makes it share with the type that the
-- instruction names; their result types may differ where there is a result.
pub record IsCalled (mod' : Module) (type fn : ℕ) : Type 0 where
  pub in_range : fn < get_functions_total mod'
  pub actual_type : FuncType
  pub expected_type : FuncType
  pub actual : get_function_type mod' fn ≡ ok actual_type
  pub expected : get_elem? mod'.types type ≡ some expected_type
  pub form : actual_type.form ≡ expected_type.form
  pub params : actual_type.param_types ≡ expected_type.param_types
  pub return_count : actual_type.return_count ≡ expected_type.return_count
  pub no_result : actual_type.return_count ≡ 0 → actual_type.return_type ≡ expected_type.return_type

-- On a module whose imports name types that it has, call_indirect throws an exception, or calls a function
-- of the module: its type has the form, the parameters and the number of results of the type that the
-- instruction names, and the type of the result too where there is no result.
pub call_indirect_outcome :
    (mod' : Module) (c : Instance) (type i : ℕ)
    → ImportsFit mod'
    → ((e : Error) × (call_indirect mod' c type i ≡ err e) × IsException e)
      ⊎ ((fn : ℕ) × (call_indirect mod' c type i ≡ ok fn) × IsCalled mod' type fn)
unfolding call_indirect table_elem
call_indirect_outcome mod' c type i fit = go (call_indirect mod' c type i) refl
  where
    throws : (e : Error) → call_indirect mod' c type i ≡ err e → IsException e
    throws =
        >>=-IsException (table_elem mod' c i)
          (>>=-IsException (or_throw (get_elem? mod'.tables 0) out_of_range)
            (λ e. or_throw-IsException _ out_of_range e tt)
            λ t.
              >>=-IsException (eos_vm_assert (ltb i t.limits.initial) wasm_interpreter_exception)
                (λ e. assert-IsException _ wasm_interpreter_exception e tt) λ _ e h. cc)
          λ fn.
            >>=-IsException (or_throw (get_elem? mod'.types type) out_of_range)
              (λ e. or_throw-IsException _ out_of_range e tt)
              λ expected.
                >>=-IsException (get_function_type mod' fn)
                  (λ e. get_function_type-IsException mod' fn e fit)
                  λ actual.
                    >>=-IsException
                      (eos_vm_assert (func_type_equal actual expected) wasm_interpreter_exception)
                      (λ e. assert-IsException _ wasm_interpreter_exception e tt) λ _ e h. cc

    calls : (fn : ℕ) → call_indirect mod' c type i ≡ ok fn → IsCalled mod' type fn
    calls fn h =
        let (fn', _, e₁) = >>=-eq-ok (table_elem mod' c i) _ h in
        let (expected, e, e₂) =
          >>=-eq-ok (or_throw (get_elem? mod'.types type) out_of_range) _ e₁ in
        let (actual, a, e₃) = >>=-eq-ok (get_function_type mod' fn') _ e₂ in
        let (_, b, e₄) =
          >>=-eq-ok (eos_vm_assert (func_type_equal actual expected) wasm_interpreter_exception) _
            e₃ in
        let same =
          (func_type_equal_iff actual expected).0 (assert-true _ wasm_interpreter_exception b) in
        subst (IsCalled mod' type) (ok-inj e₄) (record {
          in_range = get_function_type-lt mod' fn' a;
          actual_type = actual;
          expected_type = expected;
          actual = a;
          expected = or_throw-known _ out_of_range e;
          form = same.0;
          params = same.1;
          return_count = same.2;
          no_result = same.3;
        })

    go :
        (r : Result ℕ)
        → call_indirect mod' c type i ≡ r
        → ((e : Error) × (call_indirect mod' c type i ≡ err e) × IsException e)
          ⊎ ((fn : ℕ) × (call_indirect mod' c type i ≡ ok fn) × IsCalled mod' type fn)
    go (ok fn) h = inr (fn, h, calls fn h)
    go (err e) h = inl (e, h, throws e h)
