-- ===== src/Interpreter/Segments/Entries.antt =====
-- The table of a module: reset fills it, and the instructions on it keep it filled, with null entries and
-- with functions of the module.
use eos_vm.Prelude.{
  ℕ, zero, suc, ◌+◌, ◌-◌, ◌^◌, ◌≤◌, ◌<◌, ◌≡◌, inl, inr, refl, ap, List, [], ◌∷◌, Bool, true, false,
  Option, some, none, ◌==◌, if◌then◌else◌, leb, leb→le, lt→ltb, length, ◌%◌, get_elem?, take, drop,
  All, All-get_elem?, Bool-cases, arith,
}
use mathlib.Core.Path.{subst}
use eos_vm.Prelude.Result.{
  Error, ok, ok-inj, >>=-eq-ok, eos_vm_assert, or_throw, undefined, wasm_memory_exception,
}
use eos_vm.Options.{Options}
use eos_vm.Types.{TableType, ElemMode, active, passive, declarative, ElemSegment, Module}
use eos_vm.Parser.Segments.Bounds.{IsEntry, IsSegment}
use eos_vm.Interpreter.Operand.{Operand}
use eos_vm.Interpreter.Bulk.{peek_three, get_table_ptr, Table, put, table_copy, Stepped}
use eos_vm.Interpreter.Segments.{Instance, load_segment, load_elements, reset_table, init_table}
use eos_vm.Interpreter.Segments.Stores.{store_list-All}

module _ {A : Type 0} (P : A → Type 0) where
  All-take : (n : ℕ) (xs : List A) → All P xs → All P (take n xs)
  All-take zero xs h = tt
  All-take (suc n) [] h = tt
  All-take (suc n) (x ∷ xs) (p, h) = (p, All-take n xs h)

  All-drop : (n : ℕ) (xs : List A) → All P xs → All P (drop n xs)
  All-drop zero xs h = h
  All-drop (suc n) [] h = tt
  All-drop (suc n) (x ∷ xs) (p, h) = All-drop n xs h

pub or_throw-known :
    {A : Type 0} (o : Option A) {a : A} (e : Error) → or_throw o e ≡ ok a → o ≡ some a
or_throw-known none e h = cc
or_throw-known (some b) e h = ap some (ok-inj h)

-- The elements below the limit are entries of the module.
abbrev pub EntriesFit : Module → List ℕ → ℕ → Table → Type 0
EntriesFit mod' fs initial table = (i : ℕ) → i < initial → IsEntry mod' fs (table i)

module _ (options : Options) (mod' : Module) (fs : List ℕ) (initial : ℕ) where
  load_segment-EntriesFit :
      (mode : ElemMode) (seg : ElemSegment) (table : Table) {flag : Bool} {table' : Table}
      → IsSegment options mod' fs seg
      → EntriesFit mod' fs initial table
      → load_segment initial mode seg table ≡ ok (flag, table')
      → EntriesFit mod' fs initial table'
  unfolding load_segment
  load_segment-EntriesFit passive seg table s h e =
      subst (EntriesFit mod' fs initial) (ap (λ r. r.1) (ok-inj e)) h
  load_segment-EntriesFit declarative seg table s h e =
      subst (EntriesFit mod' fs initial) (ap (λ r. r.1) (ok-inj e)) h
  load_segment-EntriesFit active seg table s h e =
      let offset = seg.offset.value % 2 ^ 32 in
      let (_, _, f) =
        >>=-eq-ok (eos_vm_assert (leb (offset + length seg.elems) initial) wasm_memory_exception) _
          e in
      subst (EntriesFit mod' fs initial) (ap (λ r. r.1) (ok-inj f))
        (store_list-All (IsEntry mod' fs) initial seg.elems offset table s.entries h)

  load_elements-EntriesFit :
      (segs : List ElemSegment) (table : Table) {dropped : List Bool} {table' : Table}
      → All (IsSegment options mod' fs) segs
      → EntriesFit mod' fs initial table
      → load_elements initial segs table ≡ ok (dropped, table')
      → EntriesFit mod' fs initial table'
  unfolding load_elements
  load_elements-EntriesFit [] table s h e =
      subst (EntriesFit mod' fs initial) (ap (λ r. r.1) (ok-inj e)) h
  load_elements-EntriesFit (seg ∷ segs) table (s, ss) h e =
      let (r, f, g) = >>=-eq-ok (load_segment initial seg.mode seg table) _ e in
      let (r', f', g') = >>=-eq-ok (load_elements initial segs r.1) _ g in
      subst (EntriesFit mod' fs initial) (ap (λ q. q.1) (ok-inj g'))
        (load_elements-EntriesFit segs r.1 ss (load_segment-EntriesFit seg.mode seg table s h f) f')

-- The table of a module whose elements are well-formed is filled by reset.
pub reset_table-EntriesFit :
    (options : Options) (mod' : Module) (fs : List ℕ) (t : TableType) (tables : List TableType)
    (dropped : List Bool) (table : Table) {dropped' : List Bool} {table' : Table}
    → get_elem? tables 0 ≡ some t
    → All (IsSegment options mod' fs) mod'.elements
    → reset_table tables mod'.elements dropped table ≡ ok (dropped', table')
    → EntriesFit mod' fs t.limits.initial table'
unfolding reset_table IsEntry
reset_table-EntriesFit options mod' fs t [] dropped table e s h = absurd (ground (arith, e))
reset_table-EntriesFit options mod' fs t (u ∷ us) dropped table {table' = table'} e s h =
    let same : u ≡ t = ground (arith, e) in
    subst (λ x. EntriesFit mod' fs x.limits.initial table') same
      (load_elements-EntriesFit options mod' fs u.limits.initial mod'.elements _ s
        (λ i l. rw (lt→ltb i u.limits.initial l) (inl (refl, refl))) h)

get_table_ptr-le :
    (tables : List TableType) (t : TableType) (base size : ℕ) {u : Unit {0}}
    → get_elem? tables 0 ≡ some t
    → get_table_ptr tables base size ≡ ok u
    → base + size ≤ t.limits.initial
unfolding get_table_ptr
get_table_ptr-le tables t base size e h = elim (Bool-cases (leb (base + size) t.limits.initial)) [
  | inl f ↦ leb→le _ _ f
  | inr f ↦ absurd (ground (arith, e, f, h))
]

put-EntriesFit :
    (mod' : Module) (fs : List ℕ) (initial from to : ℕ) (table : Table)
    → from < initial
    → EntriesFit mod' fs initial table
    → EntriesFit mod' fs initial (put to (table from) table)
put-EntriesFit mod' fs initial from to table l h i k = elim (Bool-cases (i == to)) [
  | inl e ↦ rw e (h from l)
  | inr e ↦ rw e (h i k)
]

-- The table behind one call of table.copy.
pub table_copy-EntriesFit :
    (mod' : Module) (fs : List ℕ) (t : TableType) (os : List Operand) (table : Table)
    {r : Stepped Table}
    → get_elem? mod'.tables 0 ≡ some t
    → EntriesFit mod' fs t.limits.initial table
    → table_copy mod'.tables os table ≡ ok r
    → EntriesFit mod' fs t.limits.initial r.2
unfolding table_copy
table_copy-EntriesFit mod' fs t os table {r} e h c =
    let (o, _, f) = >>=-eq-ok (peek_three os) _ c in
    let (_, s, g) = >>=-eq-ok (get_table_ptr mod'.tables o.src o.size) _ f in
    let (_, d, k) = >>=-eq-ok (get_table_ptr mod'.tables o.dst o.size) _ g in
    let below = get_table_ptr-le mod'.tables t o.src o.size e s in
    elim (Bool-cases (o.size == 0)) [
      | inl z ↦ subst (λ q. EntriesFit mod' fs t.limits.initial q.2) (ok-inj (rw z at k)) h
      | inr z ↦ elim (Bool-cases (leb o.dst o.src)) [
        | inl u ↦
            subst (λ q. EntriesFit mod' fs t.limits.initial q.2) (ok-inj (rw (z, u) at k))
              (put-EntriesFit mod' fs t.limits.initial o.src o.dst table (ground (arith, below, z))
                h)
        | inr u ↦
            subst (λ q. EntriesFit mod' fs t.limits.initial q.2) (ok-inj (rw (z, u) at k))
              (put-EntriesFit mod' fs t.limits.initial (o.src + (o.size - 1)) (o.dst + (o.size - 1))
                table (ground (arith, below, z)) h)
      ]
    ]

-- The table behind table.init.
pub init_table-EntriesFit :
    (options : Options) (mod' : Module) (fs : List ℕ) (initial x d s n : ℕ) (c : Instance)
    {c' : Instance}
    → All (IsSegment options mod' fs) mod'.elements
    → EntriesFit mod' fs initial c.table
    → init_table mod' x d s n c ≡ ok c'
    → EntriesFit mod' fs initial c'.table
unfolding init_table
init_table-EntriesFit options mod' fs initial x d s n c {c'} ss h e =
    let (seg, a, e₁) = >>=-eq-ok (or_throw (get_elem? mod'.elements x) undefined) _ e in
    let (dropped, _, e₂) = >>=-eq-ok (or_throw (get_elem? c.dropped_elems x) undefined) _ e₁ in
    let elem_len = if dropped then 0 else length seg.elems in
    let (_, _, e₃) = >>=-eq-ok (eos_vm_assert (leb (s + n) elem_len) wasm_memory_exception) _ e₂ in
    let (t, _, e₄) = >>=-eq-ok (or_throw (get_elem? mod'.tables 0) undefined) _ e₃ in
    let (_, _, e₅) =
      >>=-eq-ok (eos_vm_assert (leb (d + n) t.limits.initial) wasm_memory_exception) _ e₄ in
    let entries = (All-get_elem? _ mod'.elements x ss (or_throw-known _ undefined a)).entries in
    let P = IsEntry mod' fs in
    let stored =
      store_list-All P initial (take n (drop s seg.elems)) d c.table
        (All-take P n (drop s seg.elems) (All-drop P s seg.elems entries)) h in
    subst (λ q. EntriesFit mod' fs initial q.table) (ok-inj e₅)
      (either _ _ (elem_len == 0) h stored)
  where
    either :
        (f g : Table) (b : Bool)
        → EntriesFit mod' fs initial f
        → EntriesFit mod' fs initial g
        → EntriesFit mod' fs initial (if b then f else g)
    either f g true p q = p
    either f g false p q = q
