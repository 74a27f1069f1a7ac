-- ===== src/Types.antt =====
-- include/eosio/vm/types.hpp: the parsed module. A union of values is the number that its bits
-- spell, so its member i32 is that number modulo 2 ^ 32. Pointers to emitted code are left out.
pub mod Ty
pub mod Kind
pub mod Equality
use eos_vm.Prelude.{
  ℕ, zero, suc, ◌+◌, ◌-◌, ◌*◌, ◌^◌, List, [], ◌∷◌, Bool, true, false, not, ◌&&◌, ◌||◌, Option, none,
  some, ltb, ◌==◌, if◌then◌else◌, length, get_elem?,
}
use eos_vm.Prelude.Result.{
  Result, ok, err, ◌>>=◌, ◌>>◌, eos_vm_assert, or_throw, out_of_range, undefined,
  wasm_interpreter_exception,
}

pub record ResizableLimits : Type 0 where
  pub flags : Bool
  pub initial : ℕ
  pub maximum : ℕ

pub record FuncType : Type 0 where
  pub form : ℕ
  pub param_types : List ℕ
  pub return_count : ℕ
  pub return_type : ℕ

pub record InitExpr : Type 0 where
  pub opcode : ℕ
  pub value : ℕ

pub record GlobalType : Type 0 where
  pub content_type : ℕ
  pub mutability : Bool

pub record GlobalVariable : Type 0 where
  pub type : GlobalType
  pub init : InitExpr

pub record TableType : Type 0 where
  pub element_type : ℕ
  pub limits : ResizableLimits

pub record TableEntry : Type 0 where
  pub type : ℕ
  pub index : ℕ

pub record MemoryType : Type 0 where
  pub limits : ResizableLimits

-- Only function imports are accepted, so of import_type the member func_t alone is kept.
pub record ImportEntry : Type 0 where
  pub module_str : List ℕ
  pub field_str : List ℕ
  pub kind : ℕ
  pub func_t : ℕ

pub record ExportEntry : Type 0 where
  pub field_str : List ℕ
  pub kind : ℕ
  pub index : ℕ

pub data ElemMode : Type 0 where
  active passive declarative : ElemMode

pub record ElemSegment : Type 0 where
  pub index : ℕ
  pub offset : InitExpr
  pub mode : ElemMode
  pub elems : List TableEntry

pub record LocalEntry : Type 0 where
  pub count : ℕ
  pub type : ℕ

pub record FunctionBody : Type 0 where
  pub size : ℕ
  pub locals : List LocalEntry

pub record DataSegment : Type 0 where
  pub index : ℕ
  pub offset : InitExpr
  pub passive : Bool
  pub contents : List ℕ

pub record NameAssoc : Type 0 where
  pub idx : ℕ
  pub name : List ℕ

pub record IndirectNameAssoc : Type 0 where
  pub idx : ℕ
  pub namemap : List NameAssoc

pub record NameSection : Type 0 where
  pub module_name : Option (List ℕ)
  pub function_names : Option (List NameAssoc)
  pub local_names : Option (List IndirectNameAssoc)

pub record Module : Type 0 where
  pub start : ℕ
  pub types : List FuncType
  pub imports : List ImportEntry
  pub functions : List ℕ
  pub tables : List TableType
  pub memories : List MemoryType
  pub globals : List GlobalVariable
  pub exports : List ExportEntry
  pub elements : List ElemSegment
  pub code : List FunctionBody
  pub datas : List DataSegment
  pub names : Option NameSection
  pub maximum_stack : ℕ

-- A module before parsing.
abbrev pub empty_module : Module
empty_module = record {
  start = 2 ^ 32 - 1;
  types = [];
  imports = [];
  functions = [];
  tables = [];
  memories = [];
  globals = [];
  exports = [];
  elements = [];
  code = [];
  datas = [];
  names = none;
  maximum_stack = 0;
}

unfoldable pub bytes_equal : List ℕ → List ℕ → Bool
bytes_equal [] [] = true
bytes_equal [] (y ∷ ys) = false
bytes_equal (x ∷ xs) [] = false
bytes_equal (x ∷ xs) (y ∷ ys) = x == y && bytes_equal xs ys

-- operator==(const func_type&, const func_type&), with its last line as it stands.
unfoldable pub func_type_equal : FuncType → FuncType → Bool
func_type_equal lhs rhs =
    lhs.form == rhs.form
    && (length lhs.param_types == length rhs.param_types
        && (bytes_equal lhs.param_types rhs.param_types
            && (lhs.return_count == rhs.return_count
                && (not (lhs.return_count == 0) || lhs.return_type == rhs.return_type))))

-- get_imported_functions_size()
unfoldable pub count_functions : List ImportEntry → ℕ
count_functions [] = 0
count_functions (i ∷ is) =
    let rest = count_functions is in if i.kind == Kind.function then suc rest else rest

abbrev pub get_imported_functions_size : Module → ℕ
get_imported_functions_size mod' = count_functions mod'.imports

abbrev pub get_functions_size : Module → ℕ
get_functions_size mod' = length mod'.functions

abbrev pub get_functions_total : Module → ℕ
get_functions_total mod' = get_imported_functions_size mod' + get_functions_size mod'

-- get_function_type(index): `operator[]` is undefined out of range, `at` throws.
unfoldable pub get_function_type : Module → ℕ → Result FuncType
get_function_type mod' index =
    if ltb index (get_imported_functions_size mod')
    then (do
      i ← or_throw (get_elem? mod'.imports index) undefined
      or_throw (get_elem? mod'.types i.func_t) undefined)
    else do
      t ←
          or_throw (get_elem? mod'.functions (index - get_imported_functions_size mod'))
            out_of_range
      or_throw (get_elem? mod'.types t) out_of_range

-- get_exported_function(str)
unfoldable pub get_exported_function : List ExportEntry → List ℕ → ℕ
get_exported_function [] str = 2 ^ 32 - 1
get_exported_function (e ∷ es) str =
    let rest = get_exported_function es str in
    if e.kind == Kind.function && (length e.field_str == length str && bytes_equal str e.field_str)
    then e.index
    else rest
