-- ===== src/Parser/Sections.antt =====
-- parser.hpp: parse_section of every section but the code section.
pub mod Order
pub mod Bounds
use eos_vm.Prelude.{
  ℕ, zero, suc, ◌+◌, List, [], ◌∷◌, Option, none, some, ◌&&◌, leb, ◌==◌, length, true, Bool,
}
use eos_vm.Prelude.Result.{wasm_parse_exception}
use eos_vm.GuardedPtr.{Read, ◌>>=◌, ◌>>◌, pure, check, lift}
use eos_vm.Leb128.{parse_varuint32}
use eos_vm.Options.{Options}
use eos_vm.Types.{
  FuncType, ImportEntry, TableType, MemoryType, GlobalVariable, ExportEntry, ElemSegment,
  DataSegment, Module, get_function_type,
}
use eos_vm.Parser.Entries.{
  read_elems, parse_func_type, parse_import_entry, parse_table_type, parse_memory_type,
  parse_global_variable, parse_export_entry,
}
use eos_vm.Parser.Segments.{parse_elem_segment, parse_data_segment}

-- parse_section_impl(code, elems, max_elements, elem_parse)
unfoldable pub parse_section_impl : {A : Type 0} → ℕ → (ℕ → Read A) → Read (List A)
parse_section_impl max_elements elem_parse = do
  count ← parse_varuint32
  check (leb count max_elements) wasm_parse_exception
  read_elems count 0 elem_parse

unfoldable pub type_section : Options → Read (List FuncType)
type_section options =
    parse_section_impl options.max_type_section_elements (λ idx. parse_func_type options)

unfoldable pub import_section : Options → Module → Read (List ImportEntry)
import_section options mod' =
    parse_section_impl options.max_import_section_elements (λ idx. parse_import_entry options mod')

unfoldable pub function_section : Options → Read (List ℕ)
function_section options =
    parse_section_impl options.max_function_section_elements (λ idx. parse_varuint32)

unfoldable pub table_section : Options → Read (List TableType)
table_section options = parse_section_impl 1 (λ idx. parse_table_type options)

unfoldable pub memory_section : Options → Read (List MemoryType)
memory_section options =
    parse_section_impl 1
      (λ idx. (do check (idx == 0) wasm_parse_exception; parse_memory_type options))

-- The globals, with the counter of _globals_checker.
unfoldable pub read_globals : Options → ℕ → ℕ → Read (List GlobalVariable × ℕ)
read_globals options zero total = pure ([], total)
read_globals options (suc count) total = do
  (g, total') ← parse_global_variable options total
  (gs, total'') ← read_globals options count total'
  pure (g ∷ gs, total'')

unfoldable pub global_section : Options → ℕ → Read (List GlobalVariable × ℕ)
global_section options total = do
  count ← parse_varuint32
  check (leb count options.max_global_section_elements) wasm_parse_exception
  read_globals options count total

unfoldable pub export_section : Options → Module → Read (List ExportEntry)
export_section options mod' =
    parse_section_impl options.max_export_section_elements (λ idx. parse_export_entry options mod')

unfoldable pub start_section : Module → Read ℕ
start_section mod' = do
  start ← parse_varuint32
  ft ← lift (get_function_type mod' start)
  check (ft.return_count == 0 && length ft.param_types == 0) wasm_parse_exception
  pure start

unfoldable pub element_section : Options → Module → List ℕ → Read (List ElemSegment)
element_section options mod' type_aliases =
    parse_section_impl options.max_element_section_elements
      (λ idx. parse_elem_segment options mod' type_aliases)

abbrev pub has_count : Option ℕ → ℕ → Bool
has_count none size = true
has_count (some n) size = n == size

unfoldable pub data_section : Options → Module → Option ℕ → Read (List DataSegment)
data_section options mod' datacount = do
  elems ←
      parse_section_impl options.max_data_section_elements (λ idx. parse_data_segment options mod')
  check (has_count datacount (length elems)) wasm_parse_exception
  pure elems

unfoldable pub data_count_section : Read (Option ℕ)
data_count_section = do n ← parse_varuint32; pure (some n)
