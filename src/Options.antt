-- ===== src/Options.antt =====
-- include/eosio/vm/options.hpp and the option getters of include/eosio/vm/parser.hpp: the options
-- as the parser reads them, each with the value that its getter returns. An option whose presence
-- switches a check on is an `Option`; a counter that such a check keeps has the type of its limit,
-- so the limit comes with the number of bits of that type.
use eos_vm.Prelude.{ℕ, Bool, Option}

pub record Limit : Type 0 where
  pub bits : ℕ
  pub limit : ℕ

pub record Options : Type 0 where
  pub max_mutable_global_bytes : Option Limit
  pub max_table_elements : ℕ
  pub max_type_section_elements : ℕ
  pub max_import_section_elements : ℕ
  pub max_function_section_elements : ℕ
  pub max_global_section_elements : ℕ
  pub max_export_section_elements : ℕ
  pub max_element_section_elements : ℕ
  pub max_data_section_elements : ℕ
  pub max_element_segment_elements : ℕ
  pub max_data_segment_bytes : ℕ
  pub max_linear_memory_init : ℕ
  pub max_func_local_bytes : Option Limit
  pub count_params : Bool
  pub count_locals : Bool
  pub count_stack : Bool
  pub max_local_sets : ℕ
  pub max_symbol_bytes : ℕ
  pub max_code_bytes : ℕ
  pub max_pages : ℕ
  pub forbid_export_mutable_globals : Bool
  pub allow_code_after_function_end : Bool
  pub allow_u32_limits_flags : Bool
  pub allow_invalid_empty_local_set : Bool
  pub enable_simd : Bool
  pub enable_bulk_memory : Bool
  pub enable_sign_ext : Bool
  pub enable_nontrapping_fptoint : Bool
  pub allow_zero_blocktype : Bool
  pub parse_custom_section_name : Bool
  pub max_nested_structures : ℕ
  pub max_br_table_elements : ℕ
  pub max_memory_offset : ℕ
  pub eosio_max_nested_structures : Option Limit
