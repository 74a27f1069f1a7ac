-- ===== src/Parser/Sections/Bounds.antt =====
-- What an accepted section guarantees, and that it stays inside its bounds.
use eos_vm.Prelude.{
  ℕ, zero, suc, ◌≤◌, ◌<◌, ◌≡◌, List, [], ◌∷◌, Option, ltb, ltb→lt, leb→le, length, get_elem?-some,
  All, All-get_elem?, arith, Bool-cases, inl, inr,
}
use eos_vm.Prelude.Result.{Error, ok, err, IsException}
use eos_vm.GuardedPtr.{Read}
use eos_vm.GuardedPtr.Ensures.{
  Ensures, Ensures-bind, Ensures-pure, Ensures-assert, Ensures-lift, Ensures-weaken,
}
use eos_vm.Leb128.Values.{parse_varuint32-Ensures}
use eos_vm.Options.{Options}
use eos_vm.Types.{
  FuncType, ImportEntry, Module, count_functions, get_function_type, get_imported_functions_size,
}
use eos_vm.Types.Kind
use eos_vm.Parser.Entries.Bounds.{
  read_elems-Ensures, IsFuncType, IsTable, IsMemory, IndexInRange, parse_func_type-Ensures,
  parse_import_entry-Ensures, parse_table_type-Ensures, parse_memory_type-Ensures,
  parse_export_entry-Ensures,
}
use eos_vm.Parser.Entries.Bodies.{parse_global_variable-Ensures}
use eos_vm.Parser.Segments.Bounds.{
  IsSegment, IsData, parse_elem_segment-Ensures, parse_data_segment-Ensures,
}
use eos_vm.Parser.Sections.{
  parse_section_impl, type_section, import_section, function_section, table_section, memory_section,
  read_globals, global_section, export_section, start_section, element_section, data_section,
  data_count_section,
}

-- A section's entries: no more than the limit, and each as its parser leaves it.
pub record IsSection {A : Type 0} (max_elements : ℕ) (Q : A → Type 0) (elems : List A)
    : Type 0 where
  pub size_le : length elems ≤ max_elements
  pub all : All Q elems

pub parse_section_impl-Ensures :
    {A : Type 0} {Q : A → Type 0} (max_elements : ℕ) (elem_parse : ℕ → Read A)
    → ((i : ℕ) → Ensures Q (elem_parse i))
    → Ensures (IsSection max_elements Q) (parse_section_impl max_elements elem_parse)
unfolding parse_section_impl
parse_section_impl-Ensures max_elements f h = Ensures-bind parse_varuint32-Ensures λ count _.
    Ensures-assert _ tt λ l.
      Ensures-weaken (read_elems-Ensures count 0 f h)
        λ es q. record { size_le = omega (arith, q.size, leb→le _ _ l); all = q.all }

module _ (options : Options) where
  pub type_section-Ensures :
      Ensures
        (IsSection options.max_type_section_elements (IsFuncType options))
        (type_section options)
  unfolding type_section
  type_section-Ensures = parse_section_impl-Ensures _ _ λ i. parse_func_type-Ensures options

  pub import_section-Ensures :
      (mod' : Module)
      → Ensures
          (IsSection options.max_import_section_elements
            λ e. (e.kind ≡ Kind.function) × (e.func_t < length mod'.types))
          (import_section options mod')
  unfolding import_section
  import_section-Ensures mod' =
      parse_section_impl-Ensures _ _ λ i. parse_import_entry-Ensures options mod'

  pub function_section-Ensures :
      Ensures
        (IsSection options.max_function_section_elements λ _. Unit {0})
        (function_section options)
  unfolding function_section
  function_section-Ensures =
      parse_section_impl-Ensures _ _ λ i. Ensures-weaken parse_varuint32-Ensures λ _ _. tt

  pub table_section-Ensures : Ensures (IsSection 1 (IsTable options)) (table_section options)
  unfolding table_section
  table_section-Ensures = parse_section_impl-Ensures _ _ λ i. parse_table_type-Ensures options

  pub memory_section-Ensures : Ensures (IsSection 1 (IsMemory options)) (memory_section options)
  unfolding memory_section
  memory_section-Ensures =
      parse_section_impl-Ensures _ _ λ i. Ensures-assert _ tt λ _. parse_memory_type-Ensures options

  read_globals-Ensures :
      (count total : ℕ) → Ensures (λ _. Unit {0}) (read_globals options count total)
  unfolding read_globals
  read_globals-Ensures zero total = Ensures-pure _ tt
  read_globals-Ensures (suc count) total =
      Ensures-bind (parse_global_variable-Ensures options total)
        λ g _. Ensures-bind (read_globals-Ensures count g.1) λ gs _. Ensures-pure _ tt

  pub global_section-Ensures : (total : ℕ) → Ensures (λ _. Unit {0}) (global_section options total)
  unfolding global_section
  global_section-Ensures total =
      Ensures-bind parse_varuint32-Ensures
        λ count _. Ensures-assert _ tt λ _. read_globals-Ensures count total

  pub export_section-Ensures :
      (mod' : Module)
      → Ensures
          (IsSection options.max_export_section_elements (IndexInRange mod'))
          (export_section options mod')
  unfolding export_section
  export_section-Ensures mod' =
      parse_section_impl-Ensures _ _ λ i. parse_export_entry-Ensures options mod'

  pub element_section-Ensures :
      (mod' : Module) (fs : List ℕ)
      → Ensures
          (IsSection options.max_element_section_elements (IsSegment options mod' fs))
          (element_section options mod' fs)
  unfolding element_section
  element_section-Ensures mod' fs =
      parse_section_impl-Ensures _ _ λ i. parse_elem_segment-Ensures options mod' fs

  pub data_section-Ensures :
      (mod' : Module) (datacount : Option ℕ)
      → Ensures
          (IsSection options.max_data_section_elements (IsData options))
          (data_section options mod' datacount)
  unfolding data_section
  data_section-Ensures mod' datacount =
      Ensures-bind (parse_section_impl-Ensures _ _ λ i. parse_data_segment-Ensures options mod')
        λ es q. Ensures-assert _ tt λ _. Ensures-pure es q

pub data_count_section-Ensures : Ensures (λ _. Unit {0}) data_count_section
unfolding data_count_section
data_count_section-Ensures = Ensures-bind parse_varuint32-Ensures λ n _. Ensures-pure _ tt

-- What parse_import_entry leaves.
abbrev pub ImportsFit : Module → Type 0
ImportsFit mod' = All (λ e. (e.kind ≡ Kind.function) × (e.func_t < length mod'.types)) mod'.imports

count_functions-le-length : (is : List ImportEntry) → count_functions is ≤ length is
unfolding count_functions
count_functions-le-length [] = omega arith
count_functions-le-length (i ∷ is) = ground (arith, count_functions-le-length is)

-- Where the imports' types exist, get_function_type reads inside the vectors, or throws.
pub get_function_type-IsException :
    (mod' : Module) (index : ℕ) (e : Error)
    → ImportsFit mod'
    → get_function_type mod' index ≡ err e
    → IsException e
unfolding get_function_type
get_function_type-IsException mod' index e fit h =
    elim (Bool-cases (ltb index (get_imported_functions_size mod'))) [
      | inl l ↦
          let (i, f) =
            get_elem?-some mod'.imports index
              (omega (arith, ltb→lt _ _ l, count_functions-le-length mod'.imports)) in
          let (t, g) =
            get_elem?-some mod'.types i.func_t (All-get_elem? _ mod'.imports index fit f).1 in
          absurd (ground (arith, l, f, g, h))
      | inr l ↦ ground (arith, l, h)
    ]

-- The start function has neither parameters nor results.
pub record IsStart (mod' : Module) (start : ℕ) : Type 0 where
  pub ft : FuncType
  pub known : get_function_type mod' start ≡ ok ft
  pub no_result : ft.return_count ≡ 0
  pub no_parameter : length ft.param_types ≡ 0

-- An accepted start function exists, and has neither parameters nor results.
pub start_section-Ensures :
    (mod' : Module) → ImportsFit mod' → Ensures (IsStart mod') (start_section mod')
unfolding start_section
start_section-Ensures mod' fit = Ensures-bind parse_varuint32-Ensures λ start _.
    Ensures-bind
      (Ensures-lift {Q = λ ft. get_function_type mod' start ≡ ok ft} _ (λ ft h. h)
        λ e. get_function_type-IsException mod' start e fit)
      λ ft known. Ensures-assert _ tt λ h. Ensures-pure start (record {
        ft = ft;
        known = known;
        no_result = ground (arith, h);
        no_parameter = ground (arith, h);
      })
