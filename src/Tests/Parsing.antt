-- ===== src/Tests/Parsing.antt =====
-- The pointer, the LEB128 numbers and the parser at concrete inputs.
use eos_vm.Prelude.{
  ℕ, ◌+◌, ◌^◌, ◌≤◌, ◌<◌, ◌≡◌, ◌↔◌, ◌⊎◌, refl, List, [], ◌∷◌, length, map, true, false, none, some,
  get_elem?, arith,
}
use eos_vm.Prelude.Result.{ok, err, wasm_parse_exception}
use eos_vm.GuardedPtr.{GuardedPtr, guarded_ptr, IsValid, scoped_consume_items}
use eos_vm.GuardedPtr.Ensures.{Outcome, Ensures}
use eos_vm.GuardedPtr.Consumes.{Consumed, scoped_consume_items-Consumed}
use eos_vm.Leb128.{from_uint32, from_uint32_loop, parse_varuint32}
use eos_vm.Leb128.Values.{parse_varuint32-Ensures}
use eos_vm.Leb128.RoundTrip.{parse_varuint32-from_uint32}
use eos_vm.Options.{Options}
use eos_vm.Types.{FuncType, ExportEntry, Module, empty_module, func_type_equal}
use eos_vm.Parser.Primitives.{parse_utf8_string}
use eos_vm.Types.Equality.{func_type_equal_iff}
use eos_vm.Parser.Primitives.Bounds.{parse_utf8_string-Ensures}
use eos_vm.Parser.Sections.Order.{
  InOrder, section_ids, next_section, make_section_order, place_sections, section_ids-InOrder,
}
use eos_vm.Parser.Limits.{count_bytes, count_bytes_exact}
use eos_vm.Parser.Segments.{parse_elem_segment, parse_data_segment}
use eos_vm.Parser.Segments.Bounds.{
  IsSegment, IsData, parse_elem_segment-Ensures, parse_data_segment-Ensures,
}
use eos_vm.Parser.Tables.{type_aliases, validate_exports}
use eos_vm.Parser.Tables.Types.{type_aliases_iff}
use eos_vm.Parser.Tables.Exports.{Distinct, validate_exports_iff}
use eos_vm.Parser.OperandStack.{Tracker, new_tracker, push, push_stack, start_unreachable}
use eos_vm.Parser.OperandStack.Depth.{IsBalanced, starts, calls, pushes, stops, Reaches-IsBalanced}

-- Options in their defaults, without the optional limits on bytes.
abbrev pub options : Options
options = record {
  max_mutable_global_bytes = none;
  max_table_elements = 1024;
  max_type_section_elements = 1024;
  max_import_section_elements = 1024;
  max_function_section_elements = 1024;
  max_global_section_elements = 1024;
  max_export_section_elements = 1024;
  max_element_section_elements = 1024;
  max_data_section_elements = 1024;
  max_element_segment_elements = 1024;
  max_data_segment_bytes = 1024;
  max_linear_memory_init = 65536;
  max_func_local_bytes = none;
  count_params = false;
  count_locals = true;
  count_stack = true;
  max_local_sets = 1024;
  max_symbol_bytes = 1024;
  max_code_bytes = 1024;
  max_pages = 528;
  forbid_export_mutable_globals = false;
  allow_code_after_function_end = false;
  allow_u32_limits_flags = false;
  allow_invalid_empty_local_set = false;
  enable_simd = true;
  enable_bulk_memory = true;
  enable_sign_ext = true;
  enable_nontrapping_fptoint = true;
  allow_zero_blocktype = false;
  parse_custom_section_name = true;
  max_nested_structures = 1024;
  max_br_table_elements = 8191;
  max_memory_offset = 33554432;
  eosio_max_nested_structures = none;
}

abbrev at_start : List ℕ → GuardedPtr
at_start bytes = guarded_ptr bytes 0 (length bytes)

-- An active segment: at 0, one function, of index 0; and one byte of data at 0.
abbrev elem_bytes : GuardedPtr
elem_bytes = at_start (0 ∷ 0x41 ∷ 0 ∷ 0x0b ∷ 1 ∷ 0 ∷ [])

elem_bytes-IsValid : IsValid elem_bytes
elem_bytes-IsValid = record {
  orig_le = omega arith;
  raw_le = omega arith;
  bnds_le = omega arith;
  bytes_fit =
      (omega arith, (omega arith, (omega arith, (omega arith, (omega arith, (omega arith, tt))))));
}

abbrev to_i32 : FuncType
to_i32 = record { form = 0x60; param_types = []; return_count = 1; return_type = 0x7f }

abbrev to_nothing : FuncType
to_nothing = record { form = 0x60; param_types = []; return_count = 0; return_type = 0 }

abbrev one_function : Module
one_function = record empty_module {
  types = to_i32 ∷ to_nothing ∷ [];
  functions = 0 ∷ [];
  tables =
      record { element_type = 0x70; limits = record { flags = false; initial = 1; maximum = 0 } }
      ∷ [];
}

parse_varuint32_run :
    parse_varuint32 (at_start (0xe5 ∷ 0x8e ∷ 0x26 ∷ []))
    ≡ ok (624485, record (at_start (0xe5 ∷ 0x8e ∷ 0x26 ∷ [])) { raw_ptr = 3 })
unfolding from_uint32 from_uint32_loop
parse_varuint32_run =
    parse_varuint32-from_uint32 624485 (at_start (0xe5 ∷ 0x8e ∷ 0x26 ∷ [])) (omega arith)
      (record {
        orig_le = omega arith;
        raw_le = omega arith;
        bnds_le = omega arith;
        bytes_fit = (omega arith, (omega arith, (omega arith, tt)));
      })
      (refl, (refl, (refl, tt))) (omega arith)

scoped_consume_items_run :
    Consumed
      (λ v. v < 2 ^ 32)
      parse_varuint32
      1
      elem_bytes
      (scoped_consume_items 1 parse_varuint32 elem_bytes)
scoped_consume_items_run =
    scoped_consume_items-Consumed 1 elem_bytes parse_varuint32-Ensures elem_bytes-IsValid

parse_utf8_string_run : Ensures (λ bs. length bs ≤ 8) (parse_utf8_string 8)
parse_utf8_string_run = parse_utf8_string-Ensures 8

parse_elem_segment_run :
    Outcome
      (IsSegment options one_function (0 ∷ []))
      elem_bytes
      (parse_elem_segment options one_function (0 ∷ []) elem_bytes)
parse_elem_segment_run =
    (parse_elem_segment-Ensures options one_function (0 ∷ [])).run elem_bytes elem_bytes-IsValid

abbrev with_memory : Module
with_memory = record one_function {
  memories = record { limits = record { flags = false; initial = 1; maximum = 0 } } ∷ [];
}

parse_data_segment_run :
    Outcome (IsData options) elem_bytes (parse_data_segment options with_memory elem_bytes)
parse_data_segment_run =
    (parse_data_segment-Ensures options with_memory).run elem_bytes elem_bytes-IsValid

count_bytes_exact_run : (12 ≡ 8 + 4) × (12 ≤ 1024) × (12 < 2 ^ 64)
unfolding count_bytes
count_bytes_exact_run =
    count_bytes_exact (record { bits = 64; limit = 1024 }) 8 4 {count' = 12} (omega arith) refl

func_type_equal_run : (func_type_equal to_i32 to_nothing ≡ true) ↔ (
    (to_i32.form ≡ to_nothing.form)
    × (to_i32.param_types ≡ to_nothing.param_types)
    × (to_i32.return_count ≡ to_nothing.return_count)
    × (to_i32.return_count ≡ 0 → to_i32.return_type ≡ to_nothing.return_type))
func_type_equal_run = func_type_equal_iff to_i32 to_nothing

type_aliases_run :
    (k : ℕ) × (l : ℕ) × (get_elem? (type_aliases one_function) 0 ≡ some k)
    × (get_elem? (type_aliases one_function) 1 ≡ some l)
    × ((k ≡ l) ↔ (func_type_equal to_i32 to_nothing ≡ true))
type_aliases_run = type_aliases_iff one_function 0 1 to_i32 to_nothing refl refl

abbrev two_exports : List ExportEntry
two_exports =
    record { field_str = 0x66 ∷ []; kind = 0; index = 0 }
    ∷ record { field_str = 0x67 ∷ []; kind = 0; index = 0 }
    ∷ []

validate_exports_run :
    ((validate_exports two_exports ≡ ok tt) ↔ Distinct (map (λ e. e.field_str) two_exports))
    × ((validate_exports two_exports ≡ ok tt)
        ⊎ (validate_exports two_exports ≡ err wasm_parse_exception))
validate_exports_run = validate_exports_iff two_exports

-- An i32 is pushed, and the code behind an `unreachable` starts.
abbrev pushed : Tracker
pushed = record (new_tracker 0) {
  state = 0x7f ∷ 0x81 ∷ [];
  operand_depth = 1;
  maximum_operand_depth = 1;
}

tracker_run : IsBalanced (start_unreachable pushed)
unfolding push push_stack
tracker_run = Reaches-IsBalanced options 0 (start_unreachable pushed) (
    calls
      (calls starts
        (pushes 0x7f (λ e. absurd (omega (arith, e)), λ e. absurd (omega (arith, e))) refl))
      stops)

-- Types, a custom section, functions, the count of data segments, code and data.
section_ids_run : InOrder (1 ∷ 0 ∷ 3 ∷ 12 ∷ 10 ∷ 11 ∷ [])
unfolding section_ids next_section make_section_order place_sections
section_ids_run = section_ids-InOrder 0 12 (1 ∷ 0 ∷ 3 ∷ 12 ∷ 10 ∷ 11 ∷ []) refl
