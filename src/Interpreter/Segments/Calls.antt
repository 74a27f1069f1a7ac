-- ===== src/Interpreter/Segments/Calls.antt =====
-- call_indirect in the states of a well-formed module.
use eos_vm.Prelude.{
  ℕ, ◌^◌, ◌<◌, ◌≡◌, ◌⊎◌, inl, inr, sym, some, get_elem?, ltb, ltb→lt, arith, ap, ◌∙◌,
}
use mathlib.Core.Path.{subst}
use eos_vm.Prelude.Result.{
  Error, ok, err, ok-inj, >>=-eq-ok, eos_vm_assert, or_throw, out_of_range, IsException,
  wasm_interpreter_exception,
}
use eos_vm.Options.{Options}
use eos_vm.Types.{TableType, Module, get_functions_total, get_function_type, func_type_equal}
use eos_vm.Parser.Segments.Bounds.{IsEntry}
use eos_vm.Binary.{Parser}
use eos_vm.Binary.WellFormed.{IsWellFormed}
use eos_vm.Interpreter.Segments.{Instance, table_elem, call_indirect}
use eos_vm.Interpreter.Segments.Loaded.{Loaded, Loaded-EntriesFit}
use eos_vm.Interpreter.Segments.Indirect.{IsCalled, assert-true, call_indirect_outcome}

-- The place of the table that a function was read from.
record IsPlace (initial i fn : ℕ) (c : Instance) : Type 0 where
  in_table : i < initial
  named : (c.table i).index ≡ fn

table_elem-IsPlace :
    (mod' : Module) (c : Instance) (t : TableType) (i : ℕ) {fn : ℕ}
    → get_elem? mod'.tables 0 ≡ some t
    → table_elem mod' c i ≡ ok fn
    → IsPlace t.limits.initial i fn c
unfolding table_elem
table_elem-IsPlace mod' c t i e h =
    let (_, b, f) =
      >>=-eq-ok (eos_vm_assert (ltb i t.limits.initial) wasm_interpreter_exception) _ (rw e at h) in
    record { in_table = ltb→lt _ _ (assert-true _ wasm_interpreter_exception b); named = ok-inj f }

call_indirect-IsPlace :
    (mod' : Module) (c : Instance) (t : TableType) (type i : ℕ) {fn : ℕ}
    → get_elem? mod'.tables 0 ≡ some t
    → call_indirect mod' c type i ≡ ok fn
    → IsPlace t.limits.initial i fn c
unfolding call_indirect
call_indirect-IsPlace mod' c t type i e h =
    let (fn', f, g) = >>=-eq-ok (table_elem mod' c i) _ h in
    let (expected, _, g') = >>=-eq-ok (or_throw (get_elem? mod'.types type) out_of_range) _ g in
    let (actual, _, g'') = >>=-eq-ok (get_function_type mod' fn') _ g' in
    let (_, _, same) =
      >>=-eq-ok (eos_vm_assert (func_type_equal actual expected) wasm_interpreter_exception) _
        g'' in
    subst (λ n. IsPlace t.limits.initial i n c) (ok-inj same) (table_elem-IsPlace mod' c t i e f)

-- The call of the function that a place of the table names, with the alias of its type.
pub record IsTyped (p : Parser) (c : Instance) (initial type i fn : ℕ) : Type 0 where
  pub in_table : i < initial
  pub named : (c.table i).index ≡ fn
  pub alias : get_elem? p.fast_functions fn ≡ some (c.table i).type
  pub called : IsCalled p.mod' type fn

entry-alias :
    (p : Parser) (c : Instance) (i fn : ℕ)
    → get_functions_total p.mod' < 2 ^ 32
    → IsEntry p.mod' p.fast_functions (c.table i)
    → (c.table i).index ≡ fn
    → fn < get_functions_total p.mod'
    → get_elem? p.fast_functions fn ≡ some (c.table i).type
unfolding IsEntry
entry-alias p c i fn small (inl (a, b)) e h = absurd (omega (arith, a, e, h, small))
entry-alias p c i fn small (inr (a, b)) e h = ap (get_elem? p.fast_functions) (sym e) ∙ b

-- In every state that is reached from a reset of a well-formed module with fewer than 2 ^ 32 functions,
-- call_indirect throws an exception, or it calls the function that the place of the table names: the
-- place is in the table, it holds the alias of that function's type, the function is one of the module,
-- and its type has the form, the parameters and the number of results of the type that the instruction
-- names. The types of the results are compared only where there is no result, so that they may differ
-- where there is one.
pub call_indirect_reached :
    (options : Options) (p : Parser) (t : TableType) (max_pages type i : ℕ) (c : Instance)
    → IsWellFormed options p
    → get_functions_total p.mod' < 2 ^ 32
    → get_elem? p.mod'.tables 0 ≡ some t
    → Loaded max_pages p.mod' c
    → ((e : Error) × (call_indirect p.mod' c type i ≡ err e) × IsException e)
      ⊎ ((fn : ℕ) × (call_indirect p.mod' c type i ≡ ok fn)
          × IsTyped p c t.limits.initial type i fn)
call_indirect_reached options p t max_pages type i c w small e l =
    elim (call_indirect_outcome p.mod' c type i w.imports) [
      | inl r ↦ inl r
      | inr (fn, h, called) ↦
          let place = call_indirect-IsPlace p.mod' c t type i e h in
          let fits = Loaded-EntriesFit options p t max_pages c w e l i place.in_table in
          inr (
            fn,
            h,
            record {
              in_table = place.in_table;
              named = place.named;
              alias = entry-alias p c i fn small fits place.named called.in_range;
              called = called;
            },
          )
    ]
