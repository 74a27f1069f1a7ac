-- ===== src/Parser/Entries.antt =====
-- parser.hpp: the entries of the type, import, table, memory, global, export and code sections.
pub mod Bounds
pub mod Bodies
use eos_vm.Prelude.{
  ℕ, zero, suc, ◌+◌, ◌-◌, ◌*◌, ◌%◌, ◌^◌, List, [], ◌∷◌, Bool, true, false, not, ◌&&◌, ◌||◌, bit_and,
  ltb, leb, ◌==◌, if◌then◌else◌, length, get_elem?,
}
use eos_vm.Prelude.Result.{
  ok, or_throw, out_of_range, wasm_parse_exception, wasm_unsupported_import_exception,
}
use eos_vm.GuardedPtr.{
  GuardedPtr, guarded_ptr, Read, ◌>>=◌, ◌>>◌, pure, throw, check, lift, get, peek, next, increment,
  advance, offset, scoped_shrink_bounds,
}
use eos_vm.Leb128.{parse_varuint1, parse_varuint32, parse_varint32, parse_varint64}
use eos_vm.Options.{Options}
use eos_vm.Types.{
  ResizableLimits, FuncType, InitExpr, GlobalType, GlobalVariable, TableType, MemoryType,
  ImportEntry, ExportEntry, LocalEntry, FunctionBody, Module, get_functions_total,
}
use eos_vm.Types.Ty
use eos_vm.Types.Kind
use eos_vm.Parser.Primitives.{parse_raw, parse_v128, parse_utf8_string}
use eos_vm.Parser.Limits.{on_mutable_global, local_checker, on_local}

-- Opcodes of include/eosio/vm/opcodes_def.hpp that initialiser and element expressions use.
module _ where
  abbrev pub i32_const : ℕ
  i32_const = 0x41

  abbrev pub i64_const : ℕ
  i64_const = 0x42

  abbrev pub f32_const : ℕ
  f32_const = 0x43

  abbrev pub f64_const : ℕ
  f64_const = 0x44

  abbrev pub vector_prefix : ℕ
  vector_prefix = 0xFD

  abbrev pub v128_const : ℕ
  v128_const = 12

  abbrev pub end_op : ℕ
  end_op = 0x0B

-- Code that is run for each of the first `count` elements of a vector.
unfoldable pub read_elems : {A : Type 0} → ℕ → ℕ → (ℕ → Read A) → Read (List A)
read_elems zero i elem_parse = pure []
read_elems (suc count) i elem_parse = do
  e ← elem_parse i
  es ← read_elems count (i + 1) elem_parse
  pure (e ∷ es)

-- The value types, of which v128 needs an option.
abbrev pub is_value_type : Options → ℕ → Bool
is_value_type options t =
    t == Ty.i32
    || (t == Ty.i64 || (t == Ty.f32 || (t == Ty.f64 || (t == Ty.v128 && options.enable_simd))))

-- parse_import_entry(code, entry)
unfoldable pub parse_import_entry : Options → Module → Read ImportEntry
parse_import_entry options mod' = do
  module_str ← parse_utf8_string options.max_symbol_bytes
  field_str ← parse_utf8_string options.max_symbol_bytes
  kind ← next
  type ← parse_varuint32
  check (kind == Kind.function) wasm_unsupported_import_exception
  check (ltb type (length mod'.types)) wasm_parse_exception
  pure (record { module_str = module_str; field_str = field_str; kind = kind; func_t = type })

-- parse_flags(code), as the boolean that it is stored in
unfoldable pub parse_flags : Options → Read Bool
parse_flags options =
    let wide = (do f ← parse_varuint32; pure (not (bit_and f 0x1 == 0))) in
    let narrow = (do
      b ← peek
      check (b == 0x0 || b == 0x1) wasm_parse_exception
      f ← next
      pure (not (f == 0))) in
    if options.allow_u32_limits_flags then wide else narrow

-- parse_table_type(code, tt)
unfoldable pub parse_table_type : Options → Read TableType
parse_table_type options = do
  element_type ← next
  check (element_type == Ty.anyfunc) wasm_parse_exception
  flags ← parse_flags options
  initial ← parse_varuint32
  maximum ←
      (let bounded = (do m ← parse_varuint32; check (leb initial m) wasm_parse_exception; pure m) in
        if flags then bounded else pure 0)
  check (leb initial options.max_table_elements) wasm_parse_exception
  pure (record {
    element_type = element_type;
    limits = record { flags = flags; initial = initial; maximum = maximum };
  })

-- parse_memory_type(code, mt)
unfoldable pub parse_memory_type : Options → Read MemoryType
parse_memory_type options = do
  flags ← parse_flags options
  initial ← parse_varuint32
  check (leb initial options.max_pages) wasm_parse_exception
  check (leb initial 65536) wasm_parse_exception
  maximum ←
      (let bounded = (do
        m ← parse_varuint32
        check (leb initial m) wasm_parse_exception
        check (leb m 65536) wasm_parse_exception
        pure m) in
        if flags then bounded else pure 0)
  pure (record { limits = record { flags = flags; initial = initial; maximum = maximum } })

-- parse_init_expr(code, ie, type)
unfoldable pub init_value : Options → ℕ → ℕ → Read ℕ
init_value options opcode type =
    let as_i32 = (do v ← parse_varint32; check (type == Ty.i32) wasm_parse_exception; pure v) in
    let as_i64 = (do v ← parse_varint64; check (type == Ty.i64) wasm_parse_exception; pure v) in
    let as_f32 = (do v ← parse_raw 4; check (type == Ty.f32) wasm_parse_exception; pure v) in
    let as_f64 = (do v ← parse_raw 8; check (type == Ty.f64) wasm_parse_exception; pure v) in
    let as_v128 = (do
      check options.enable_simd wasm_parse_exception
      o ← parse_varuint32
      check (o == v128_const) wasm_parse_exception
      v ← parse_v128
      check (type == Ty.v128) wasm_parse_exception
      pure v) in
    if opcode == i32_const
    then as_i32
    else if opcode == i64_const
    then as_i64
    else if opcode == f32_const
    then as_f32
    else if opcode == f64_const
    then as_f64
    else if opcode == vector_prefix
    then as_v128
    else throw wasm_parse_exception

unfoldable pub parse_init_expr : Options → ℕ → Read InitExpr
parse_init_expr options type = do
  opcode ← next
  value ← init_value options opcode type
  last ← next
  check (last == end_op) wasm_parse_exception
  pure (record { opcode = opcode; value = value })

-- parse_global_variable(code, gv), with the counter of bytes of mutable globals before and after
unfoldable pub parse_global_variable : Options → ℕ → Read (GlobalVariable × ℕ)
parse_global_variable options counter = do
  ct ← next
  check (is_value_type options ct) wasm_parse_exception
  mutability ← parse_varuint1
  counter' ← lift (if mutability then on_mutable_global options counter ct else ok counter)
  init ← parse_init_expr options ct
  pure (
    record { type = record { content_type = ct; mutability = mutability }; init = init },
    counter',
  )

-- parse_export_entry(code, entry)
unfoldable pub check_export : Options → Module → ℕ → ℕ → Read (Unit {0})
check_export options mod' kind index =
    let as_global = (do
      check (ltb index (length mod'.globals)) wasm_parse_exception
      g ← lift (or_throw (get_elem? mod'.globals index) out_of_range)
      check (not options.forbid_export_mutable_globals || not g.type.mutability)
          wasm_parse_exception) in
    if kind == Kind.function
    then check (ltb index (get_functions_total mod')) wasm_parse_exception
    else if kind == Kind.table
    then check (ltb index (length mod'.tables)) wasm_parse_exception
    else if kind == Kind.memory
    then check (ltb index (length mod'.memories)) wasm_parse_exception
    else if kind == Kind.global
    then as_global
    else throw wasm_parse_exception

unfoldable pub parse_export_entry : Options → Module → Read ExportEntry
parse_export_entry options mod' = do
  field_str ← parse_utf8_string options.max_symbol_bytes
  kind ← next
  index ← parse_varuint32
  check_export options mod' kind index
  pure (record { field_str = field_str; kind = kind; index = index })

-- parse_func_type(code, ft). Without a result the field return_type keeps its initial value.
unfoldable pub parse_value_type : Options → Read ℕ
parse_value_type options = do t ← next; check (is_value_type options t) wasm_parse_exception; pure t

unfoldable pub parse_func_type : Options → Read FuncType
parse_func_type options = do
  form ← next
  check (form == 0x60) wasm_parse_exception
  count ← parse_varuint32
  param_types ← read_elems count 0 (λ _. parse_value_type options)
  return_count ← next
  check (ltb return_count 2) wasm_parse_exception
  return_type ← (if ltb 0 return_count then parse_value_type options else pure 0)
  pure (record {
    form = form;
    param_types = param_types;
    return_count = return_count;
    return_type = return_type;
  })

-- The local entries of parse_function_body, with the checker's counter.
unfoldable pub parse_locals : Options → ℕ → ℕ → Read (List LocalEntry × ℕ)
parse_locals options zero total = pure ([], total)
parse_locals options (suc local_cnt) total = do
  count ← parse_varuint32
  byte ← next
  let type = if options.allow_invalid_empty_local_set && count == 0 then Ty.i32 else byte
  check (is_value_type options type) wasm_parse_exception
  total' ← lift (on_local options total type count)
  (locals, total'') ← parse_locals options local_cnt total'
  pure (record { count = count; type = type } ∷ locals, total'')

-- The end of parse_function_body, where `total` bytes of locals were counted.
unfoldable pub body_pointer :
    Options → ℕ → List LocalEntry → ℕ → Read (FunctionBody × GuardedPtr × ℕ)
body_pointer options size locals total = scoped_shrink_bounds size (do
  body ← get
  advance ((size + (2 ^ 32 - 1)) % 2 ^ 32)
  last ← (if options.allow_code_after_function_end then pure end_op else peek)
  check (last == end_op) wasm_parse_exception
  increment
  pure (record { size = size; locals = locals }, guarded_ptr body.bytes body.raw_ptr size, total))

-- parse_function_body(code, fb, idx): the entry, and what is kept for the second pass, the pointer
-- to the body and the bytes of its locals.
unfoldable pub parse_function_body : Options → Module → ℕ → Read (FunctionBody × GuardedPtr × ℕ)
parse_function_body options mod' idx = do
  size ← parse_varuint32
  check (leb size options.max_code_bytes) wasm_parse_exception
  before ← get
  local_cnt ← parse_varuint32
  check (leb local_cnt options.max_local_sets) wasm_parse_exception
  t ← lift (or_throw (get_elem? mod'.functions idx) out_of_range)
  ft ← lift (or_throw (get_elem? mod'.types t) out_of_range)
  total ← lift (local_checker options ft)
  (locals, total') ← parse_locals options local_cnt total
  after ← get
  let size' = (size + (2 ^ 32 - (offset after - offset before) % 2 ^ 32)) % 2 ^ 32
  body_pointer options size' locals total'
