-- ===== src/Interpreter/Segments/Loaded.antt =====
-- The states that a module's data, elements, memory and table go through, and their table.
use eos_vm.Prelude.{ℕ, ◌+◌, ◌≡◌, sym, ap, List, some, if◌then◌else◌, leb, length, get_elem?, All}
use mathlib.Core.Path.{subst}
use eos_vm.Prelude.Result.{
  ok, ok-inj, >>=-eq-ok, eos_vm_assert, or_throw, undefined, wasm_memory_exception,
}
use eos_vm.Options.{Options}
use eos_vm.Types.{TableType, Module}
use eos_vm.Parser.Segments.Bounds.{IsSegment}
use eos_vm.Interpreter.Operand.{Operand}
use eos_vm.Binary.{Parser}
use eos_vm.Binary.WellFormed.{IsWellFormed}
use eos_vm.Interpreter.Bulk.{validate_pointer, Table, table_copy, Stepped}
use eos_vm.Interpreter.Segments.{
  Instance, reset_table, reset, init_table, drop_elem, init_linear_memory, drop_data, reset_memory,
  load_data,
}
use eos_vm.Interpreter.Segments.Entries.{
  EntriesFit, reset_table-EntriesFit, table_copy-EntriesFit, init_table-EntriesFit,
}

-- The states of a run: a module is reset, and instructions change its segments, memory and table.
pub data Loaded (max_pages : ℕ) (mod' : Module) : Instance → Type 0 where
  resets :
      (c : Instance) {c' : Instance} → reset max_pages mod' c ≡ ok c' → Loaded max_pages mod' c'
  inits_table :
      (c : Instance) {c' : Instance} (x d s n : ℕ)
      → Loaded max_pages mod' c
      → init_table mod' x d s n c ≡ ok c'
      → Loaded max_pages mod' c'
  drops_elem :
      (c : Instance) {c' : Instance} (x : ℕ)
      → Loaded max_pages mod' c
      → drop_elem mod' x c ≡ ok c'
      → Loaded max_pages mod' c'
  copies_table :
      (c : Instance) (os : List Operand) (r : Stepped Table)
      → Loaded max_pages mod' c
      → table_copy mod'.tables os c.table ≡ ok r
      → Loaded max_pages mod' (record c { table = r.2 })
  inits_memory :
      (c : Instance) {c' : Instance} (x d s n : ℕ)
      → Loaded max_pages mod' c
      → init_linear_memory mod' x d s n c ≡ ok c'
      → Loaded max_pages mod' c'
  drops_data :
      (c : Instance) {c' : Instance} (x : ℕ)
      → Loaded max_pages mod' c
      → drop_data mod' x c ≡ ok c'
      → Loaded max_pages mod' c'

reset-EntriesFit :
    (options : Options) (mod' : Module) (fs : List ℕ) (t : TableType) (max_pages : ℕ) (c : Instance)
    {c' : Instance}
    → get_elem? mod'.tables 0 ≡ some t
    → All (IsSegment options mod' fs) mod'.elements
    → reset max_pages mod' c ≡ ok c'
    → EntriesFit mod' fs t.limits.initial c'.table
unfolding reset
reset-EntriesFit options mod' fs t max_pages c {c'} e ss h =
    let (memory, _, f) = >>=-eq-ok (reset_memory max_pages mod'.memories c.memory) _ h in
    let (r, _, g) = >>=-eq-ok (load_data mod'.memories mod'.datas memory) _ f in
    let (q, k, l) = >>=-eq-ok (reset_table mod'.tables mod'.elements c.dropped_elems c.table) _ g in
    subst (λ x. EntriesFit mod' fs t.limits.initial x.table) (ok-inj l)
      (reset_table-EntriesFit options mod' fs t mod'.tables c.dropped_elems c.table e ss k)

-- An instruction that leaves the table alone.
same_table :
    (mod' : Module) (fs : List ℕ) (initial : ℕ) (f g : Table)
    → g ≡ f
    → EntriesFit mod' fs initial f
    → EntriesFit mod' fs initial g
same_table mod' fs initial f g e h = subst (EntriesFit mod' fs initial) (sym e) h

drop_elem_table :
    (mod' : Module) (x : ℕ) (c : Instance) {c' : Instance}
    → drop_elem mod' x c ≡ ok c'
    → c'.table ≡ c.table
unfolding drop_elem
drop_elem_table mod' x c h =
    let (_, _, f) = >>=-eq-ok (or_throw (get_elem? mod'.elements x) undefined) _ h in
    sym (ap (λ q. q.table) (ok-inj f))

drop_data_table :
    (mod' : Module) (x : ℕ) (c : Instance) {c' : Instance}
    → drop_data mod' x c ≡ ok c'
    → c'.table ≡ c.table
unfolding drop_data
drop_data_table mod' x c h =
    let (_, _, f) = >>=-eq-ok (or_throw (get_elem? mod'.datas x) undefined) _ h in
    sym (ap (λ q. q.table) (ok-inj f))

init_memory_table :
    (mod' : Module) (x d s n : ℕ) (c : Instance) {c' : Instance}
    → init_linear_memory mod' x d s n c ≡ ok c'
    → c'.table ≡ c.table
unfolding init_linear_memory
init_memory_table mod' x d s n c h =
    let (seg, _, e₁) = >>=-eq-ok (or_throw (get_elem? mod'.datas x) undefined) _ h in
    let (dropped, _, e₂) = >>=-eq-ok (or_throw (get_elem? c.dropped_data x) undefined) _ e₁ in
    let data_len = if dropped then 0 else length seg.contents in
    let (_, _, e₃) = >>=-eq-ok (eos_vm_assert (leb (s + n) data_len) wasm_memory_exception) _ e₂ in
    let (_, _, e₄) = >>=-eq-ok (validate_pointer d n c.memory) _ e₃ in
    sym (ap (λ q. q.table) (ok-inj e₄))

-- In every state that is reached from a reset of a well-formed module, each place of its table is null,
-- or names a function of the module with the alias of its type.
pub Loaded-EntriesFit :
    (options : Options) (p : Parser) (t : TableType) (max_pages : ℕ) (c : Instance)
    → IsWellFormed options p
    → get_elem? p.mod'.tables 0 ≡ some t
    → Loaded max_pages p.mod' c
    → EntriesFit p.mod' p.fast_functions t.limits.initial c.table
Loaded-EntriesFit options p t max_pages c w e (resets c₀ h) =
    reset-EntriesFit options p.mod' p.fast_functions t max_pages c₀ e w.elements h
Loaded-EntriesFit options p t max_pages c w e (inits_table c₀ x d s n l h) =
    init_table-EntriesFit options p.mod' p.fast_functions t.limits.initial x d s n c₀ w.elements
      (Loaded-EntriesFit options p t max_pages c₀ w e l) h
Loaded-EntriesFit options p t max_pages c w e (drops_elem c₀ x l h) =
    same_table p.mod' p.fast_functions t.limits.initial c₀.table c.table
      (drop_elem_table p.mod' x c₀ h) (Loaded-EntriesFit options p t max_pages c₀ w e l)
Loaded-EntriesFit options p t max_pages c w e (copies_table c₀ os r l h) =
    table_copy-EntriesFit p.mod' p.fast_functions t os c₀.table e
      (Loaded-EntriesFit options p t max_pages c₀ w e l) h
Loaded-EntriesFit options p t max_pages c w e (inits_memory c₀ x d s n l h) =
    same_table p.mod' p.fast_functions t.limits.initial c₀.table c.table
      (init_memory_table p.mod' x d s n c₀ h) (Loaded-EntriesFit options p t max_pages c₀ w e l)
Loaded-EntriesFit options p t max_pages c w e (drops_data c₀ x l h) =
    same_table p.mod' p.fast_functions t.limits.initial c₀.table c.table
      (drop_data_table p.mod' x c₀ h) (Loaded-EntriesFit options p t max_pages c₀ w e l)
