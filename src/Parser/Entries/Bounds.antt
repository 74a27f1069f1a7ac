-- ===== src/Parser/Entries/Bounds.antt =====
-- What the section entries guarantee: they stay inside the buffer, fail by an exception only, and
-- an accepted entry satisfies the limits that the options and the format set.
use eos_vm.Prelude.{
  ℕ, zero, suc, ◌+◌, ◌≤◌, ◌<◌, ◌≡◌, refl, List, [], ◌∷◌, true, length, All, some, none, Option, ltb,
  leb→le, ltb→lt, ◌==◌, ==_iff, ap, arith,
}
use eos_vm.Prelude.Result.{or_throw, out_of_range}
use eos_vm.GuardedPtr.{Read, lift}
use eos_vm.GuardedPtr.Ensures.{
  Ensures, Ensures-bind, Ensures-pure, Ensures-throw, Ensures-assert, Ensures-check, Ensures-if,
  Ensures-lift, Ensures-weaken, next-Ensures, peek-Ensures,
}
use eos_vm.Leb128.Values.{parse_varuint32-Ensures, parse_varint32-Ensures, parse_varint64-Ensures}
use eos_vm.Options.{Options}
use eos_vm.Types.{FuncType, TableType, MemoryType, ExportEntry, Module, get_functions_total}
use eos_vm.Types.Kind
use eos_vm.Parser.Primitives.Bounds.{
  parse_raw-Ensures, parse_v128-Ensures, parse_utf8_string-Ensures,
}
use eos_vm.Parser.Entries.{
  read_elems, is_value_type, parse_import_entry, parse_flags, parse_table_type, parse_memory_type,
  init_value, parse_init_expr, check_export, parse_export_entry, parse_value_type, parse_func_type,
  i32_const, i64_const, f32_const, f64_const, vector_prefix,
}

pub record HasElems {A : Type 0} (n : ℕ) (Q : A → Type 0) (es : List A) : Type 0 where
  pub size : length es ≡ n
  pub all : All Q es

-- A vector has as many elements as its count says.
pub read_elems-Ensures :
    {A : Type 0} {Q : A → Type 0} (n i : ℕ) (elem_parse : ℕ → Read A)
    → ((j : ℕ) → Ensures Q (elem_parse j))
    → Ensures (HasElems n Q) (read_elems n i elem_parse)
unfolding read_elems
read_elems-Ensures zero i f h = Ensures-pure [] (record { size = refl; all = tt })
read_elems-Ensures (suc n) i f h = Ensures-bind (h i) λ e q.
    Ensures-bind (read_elems-Ensures n (i + 1) f h)
      λ es r. Ensures-pure (e ∷ es) (record { size = ap suc r.size; all = (q, r.all) })

pub parse_flags-Ensures : (options : Options) → Ensures (λ _. Unit {0}) (parse_flags options)
unfolding parse_flags
parse_flags-Ensures options =
    Ensures-if options.allow_u32_limits_flags
      (λ _. Ensures-bind parse_varuint32-Ensures λ f _. Ensures-pure _ tt)
      (λ _.
        Ensures-bind peek-Ensures
          λ b _. Ensures-assert _ tt λ _. Ensures-bind next-Ensures λ f _. Ensures-pure _ tt)

pub record IsTable (options : Options) (t : TableType) : Type 0 where
  pub initial_le : t.limits.initial ≤ options.max_table_elements
  pub maximum_ge : t.limits.flags ≡ true → t.limits.initial ≤ t.limits.maximum

-- An accepted table is within the option's number of elements and its own maximum.
pub parse_table_type-Ensures :
    (options : Options) → Ensures (IsTable options) (parse_table_type options)
unfolding parse_table_type
parse_table_type-Ensures options = Ensures-bind next-Ensures λ e _. Ensures-assert _ tt λ _.
    Ensures-bind (parse_flags-Ensures options) λ flags _.
      Ensures-bind parse_varuint32-Ensures λ initial _.
        Ensures-bind {Q = λ m. flags ≡ true → initial ≤ m}
          (Ensures-if flags
            (λ _.
              Ensures-bind parse_varuint32-Ensures
                λ m _. Ensures-assert _ tt λ h. Ensures-pure m (λ _. leb→le initial m h))
            (λ e. Ensures-pure 0 (λ f. cc)))
          λ m p.
            Ensures-assert _ tt
              λ q. Ensures-pure _ (record { initial_le = leb→le _ _ q; maximum_ge = p })

pub record IsMemory (options : Options) (m : MemoryType) : Type 0 where
  pub initial_le : m.limits.initial ≤ options.max_pages
  pub initial_fits : m.limits.initial ≤ 65536
  pub maximum_ge : m.limits.flags ≡ true → m.limits.initial ≤ m.limits.maximum
  pub maximum_fits : m.limits.maximum ≤ 65536

-- An accepted memory starts within the option's pages, and neither its start nor its maximum passes
-- the four gigabytes of the address space.
pub parse_memory_type-Ensures :
    (options : Options) → Ensures (IsMemory options) (parse_memory_type options)
unfolding parse_memory_type
parse_memory_type-Ensures options = Ensures-bind (parse_flags-Ensures options) λ flags _.
    Ensures-bind parse_varuint32-Ensures λ initial _. Ensures-assert _ tt λ p.
      Ensures-assert _ tt λ q.
        Ensures-bind {Q = λ m. (flags ≡ true → initial ≤ m) × (m ≤ 65536)}
          (Ensures-if flags
            (λ _. Ensures-bind parse_varuint32-Ensures λ m _. Ensures-assert _ tt λ h.
              Ensures-assert _ tt λ l. Ensures-pure m ((λ _. leb→le initial m h), leb→le _ _ l))
            (λ e. Ensures-pure 0 ((λ f. cc), omega arith)))
          λ m r.
            let (r₁, r₂) = r in
            Ensures-pure _ (record {
              initial_le = leb→le _ _ p;
              initial_fits = leb→le _ _ q;
              maximum_ge = r₁;
              maximum_fits = r₂;
            })

pub init_value-Ensures :
    (options : Options) (opcode type : ℕ) → Ensures (λ _. Unit {0}) (init_value options opcode type)
unfolding init_value
init_value-Ensures options opcode type =
    Ensures-if (opcode == i32_const)
      (λ _. Ensures-bind parse_varint32-Ensures λ v _. Ensures-assert _ tt λ _. Ensures-pure v tt)
      λ _.
        Ensures-if (opcode == i64_const)
          (λ _.
            Ensures-bind parse_varint64-Ensures λ v _. Ensures-assert _ tt λ _. Ensures-pure v tt)
          λ _.
            Ensures-if (opcode == f32_const)
              (λ _.
                Ensures-bind (parse_raw-Ensures 4)
                  λ v _. Ensures-assert _ tt λ _. Ensures-pure v tt)
              λ _.
                Ensures-if (opcode == f64_const)
                  (λ _.
                    Ensures-bind (parse_raw-Ensures 8)
                      λ v _. Ensures-assert _ tt λ _. Ensures-pure v tt)
                  λ _.
                    Ensures-if (opcode == vector_prefix)
                      (λ _. Ensures-assert _ tt λ _. Ensures-bind parse_varuint32-Ensures λ o _.
                        Ensures-assert _ tt λ _.
                          Ensures-bind parse_v128-Ensures
                            λ v _. Ensures-assert _ tt λ _. Ensures-pure v tt)
                      λ _. Ensures-throw _ tt

pub parse_init_expr-Ensures :
    (options : Options) (type : ℕ) → Ensures (λ _. Unit {0}) (parse_init_expr options type)
unfolding parse_init_expr
parse_init_expr-Ensures options type = Ensures-bind next-Ensures λ opcode _.
    Ensures-bind (init_value-Ensures options opcode type)
      λ v _. Ensures-bind next-Ensures λ l _. Ensures-assert _ tt λ _. Ensures-pure _ tt

pub parse_value_type-Ensures :
    (options : Options) → Ensures (λ t. is_value_type options t ≡ true) (parse_value_type options)
unfolding parse_value_type
parse_value_type-Ensures options =
    Ensures-bind next-Ensures λ t _. Ensures-assert _ tt λ h. Ensures-pure t h

pub record IsFuncType (options : Options) (ft : FuncType) : Type 0 where
  pub params : All (λ t. is_value_type options t ≡ true) ft.param_types
  pub one_result : ft.return_count ≤ 1
  pub result : ft.return_count ≡ 1 → is_value_type options ft.return_type ≡ true

-- An accepted function type has value types only, and at most one result.
pub parse_func_type-Ensures :
    (options : Options) → Ensures (IsFuncType options) (parse_func_type options)
unfolding parse_func_type
parse_func_type-Ensures options = Ensures-bind next-Ensures λ form _. Ensures-assert _ tt λ _.
    Ensures-bind parse_varuint32-Ensures λ count _.
      Ensures-bind (read_elems-Ensures count 0 _ λ _. parse_value_type-Ensures options) λ ps p.
        Ensures-bind next-Ensures λ rc _. Ensures-assert _ tt λ q.
          Ensures-bind {Q = λ t. rc ≡ 1 → is_value_type options t ≡ true}
            (Ensures-if (ltb 0 rc)
              (λ _. Ensures-weaken (parse_value_type-Ensures options) λ t h _. h)
              (λ e. Ensures-pure 0 λ f. absurd (ground (arith, e, f))))
            λ t r.
              Ensures-pure _
                (record { params = p.all; one_result = omega (arith, ltb→lt _ _ q); result = r })

-- The index of an accepted export is that of something the module has.
unfoldable pub IndexInRange : Module → ExportEntry → Type 0
IndexInRange mod' e =
    (e.kind ≡ Kind.function → e.index < get_functions_total mod')
    × (e.kind ≡ Kind.table → e.index < length mod'.tables)
    × (e.kind ≡ Kind.memory → e.index < length mod'.memories)
    × (e.kind ≡ Kind.global → e.index < length mod'.globals)

pub or_throw-Ensures :
    {A : Type 0} (o : Option A) → Ensures (λ a. o ≡ some a) (lift (or_throw o out_of_range))
or_throw-Ensures none = Ensures-lift _ (λ a e. cc) (λ e h. ground (arith, h))
or_throw-Ensures (some a) = Ensures-lift _ (λ b e. ground (arith, e)) (λ e h. cc)

check_export-Ensures :
    (options : Options) (mod' : Module) (s : List ℕ) (kind index : ℕ)
    → Ensures
        (λ _. IndexInRange mod' (record { field_str = s; kind = kind; index = index }))
        (check_export options mod' kind index)
unfolding check_export IndexInRange
check_export-Ensures options mod' s kind index =
    Ensures-if (kind == Kind.function)
      (λ k. Ensures-weaken (Ensures-check _ tt) λ _ h. ground (arith, ltb→lt _ _ h))
      λ k₁.
        Ensures-if (kind == Kind.table)
          (λ k. Ensures-weaken (Ensures-check _ tt) λ _ h. ground (arith, ltb→lt _ _ h))
          λ k₂.
            Ensures-if (kind == Kind.memory)
              (λ k. Ensures-weaken (Ensures-check _ tt) λ _ h. ground (arith, ltb→lt _ _ h))
              λ k₃.
                Ensures-if (kind == Kind.global)
                  (λ k. Ensures-assert _ tt λ h.
                    Ensures-bind (or_throw-Ensures _) λ g e.
                      Ensures-weaken (Ensures-check _ tt) λ _ l. ground (arith, ltb→lt _ _ h))
                  λ k₄. Ensures-throw _ tt

-- An accepted export names a function, table, memory or global that the module has.
pub parse_export_entry-Ensures :
    (options : Options) (mod' : Module)
    → Ensures (IndexInRange mod') (parse_export_entry options mod')
unfolding parse_export_entry
parse_export_entry-Ensures options mod' =
    Ensures-bind (parse_utf8_string-Ensures options.max_symbol_bytes) λ s _.
      Ensures-bind next-Ensures λ kind _. Ensures-bind parse_varuint32-Ensures λ index _.
        Ensures-bind (check_export-Ensures options mod' s kind index) λ _ h. Ensures-pure _ h

-- An accepted import is a function whose type the module has.
pub parse_import_entry-Ensures :
    (options : Options) (mod' : Module)
    → Ensures
        (λ e. (e.kind ≡ Kind.function) × (e.func_t < length mod'.types))
        (parse_import_entry options mod')
unfolding parse_import_entry
parse_import_entry-Ensures options mod' =
    Ensures-bind (parse_utf8_string-Ensures options.max_symbol_bytes) λ s _.
      Ensures-bind (parse_utf8_string-Ensures options.max_symbol_bytes) λ t _.
        Ensures-bind next-Ensures λ kind _. Ensures-bind parse_varuint32-Ensures λ type _.
          Ensures-assert _ tt λ k.
            Ensures-assert _ tt λ l. Ensures-pure _ ((==_iff kind Kind.function).0 k, ltb→lt _ _ l)
