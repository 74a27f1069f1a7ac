-- ===== src/Parser/Segments.antt =====
-- parser.hpp: the entries of the element and data sections.
pub mod Bounds
use eos_vm.Prelude.{
  ℕ, zero, suc, ◌+◌, ◌-◌, ◌*◌, ◌%◌, ◌^◌, List, [], ◌∷◌, Bool, true, false, not, ◌&&◌, ◌||◌, bit_and,
  Option, some, none, ltb, leb, ◌==◌, if◌then◌else◌, length, get_elem?,
}
use eos_vm.Prelude.Result.{or_throw, out_of_range, wasm_parse_exception}
use eos_vm.GuardedPtr.{
  Read, ◌>>=◌, ◌>>◌, pure, throw, check, lift, peek, next, increment, advance, scoped_shrink_bounds,
}
use eos_vm.Leb128.{parse_varuint32}
use eos_vm.Options.{Options}
use eos_vm.Types.{
  InitExpr, TableEntry, TableType, ElemMode, active, passive, declarative, ElemSegment, DataSegment,
  Module, get_functions_total,
}
use eos_vm.Types.Ty
use eos_vm.Parser.Primitives.{raw_bytes}
use eos_vm.Parser.Entries.{read_elems, parse_init_expr, i32_const, end_op}

-- Opcodes of include/eosio/vm/opcodes_def.hpp in element expressions.
module _ where
  abbrev pub ref_null : ℕ
  ref_null = 0xD0

  abbrev pub ref_func : ℕ
  ref_func = 0xD2

-- parse_elem_expr(code, te)
unfoldable pub parse_elem_expr : Module → List ℕ → Read TableEntry
parse_elem_expr mod' fast_functions =
    let null_entry = (do
      t ← peek
      check (t == Ty.anyfunc) wasm_parse_exception
      increment
      pure (record { type = 2 ^ 32 - 1; index = 2 ^ 32 - 1 })) in
    let func_entry = (do
      index ← parse_varuint32
      check (ltb index (get_functions_total mod')) wasm_parse_exception
      type ← lift (or_throw (get_elem? fast_functions index) out_of_range)
      pure (record { type = type; index = index })) in
    do
      opcode ← next
      te ←
          (if opcode == ref_null
            then null_entry
            else if opcode == ref_func
            then func_entry
            else throw wasm_parse_exception)
      last ← next
      check (last == end_op) wasm_parse_exception
      pure te

-- One entry of an element segment that lists function indices.
unfoldable pub parse_elem_index : Module → List ℕ → Read TableEntry
parse_elem_index mod' fast_functions = do
  index ← parse_varuint32
  type ← lift (or_throw (get_elem? fast_functions index) out_of_range)
  check (ltb index (get_functions_total mod')) wasm_parse_exception
  pure (record { type = type; index = index })

-- The kind or type byte of an element segment, by its flags.
unfoldable pub parse_elem_kind : ℕ → Read (Unit {0})
parse_elem_kind flags =
    let kind = (do elemkind ← next; check (elemkind == 0x0) wasm_parse_exception) in
    let reftype = (do t ← next; check (t == Ty.anyfunc) wasm_parse_exception) in
    if flags == 1 || (flags == 2 || flags == 3)
    then kind
    else if flags == 5 || (flags == 6 || flags == 7)
    then reftype
    else pure tt

-- The offset of an element segment, its mode, and whether its table holds functions: of an active
-- segment the table must be there.
unfoldable pub parse_elem_mode : Options → Module → ℕ → ℕ → Read (InitExpr × ElemMode × Bool)
parse_elem_mode options mod' flags index =
    let in_table = (do
      offset ← parse_init_expr options Ty.i32
      check (ltb index (length mod'.tables)) wasm_parse_exception
      tt' ← lift (or_throw (get_elem? mod'.tables index) out_of_range)
      pure (offset, active, tt'.element_type == Ty.anyfunc)) in
    let no_offset : InitExpr = record { opcode = 0; value = 0 } in
    if bit_and flags 1 == 0
    then in_table
    else pure (no_offset, (if bit_and flags 2 == 0 then passive else declarative), true)

-- parse_elem_segment(code, es). The two assertions on the flags read the field `index` of the fresh
-- segment, which is 0.
unfoldable pub parse_elem_segment : Options → Module → List ℕ → Read ElemSegment
parse_elem_segment options mod' fast_functions =
    let fresh_index : ℕ = 0 in
    do
      flags ← parse_varuint32
      check (fresh_index == 0 || options.enable_bulk_memory) wasm_parse_exception
      check (leb fresh_index 7) wasm_parse_exception
      index ← (if flags == 2 || flags == 6 then parse_varuint32 else pure 0)
      (offset, mode, holds_functions) ← parse_elem_mode options mod' flags index
      parse_elem_kind flags
      check holds_functions wasm_parse_exception
      size ← parse_varuint32
      check (leb size options.max_element_segment_elements) wasm_parse_exception
      elems ←
          (if bit_and flags 4 == 0
            then read_elems size 0 (λ _. parse_elem_index mod' fast_functions)
            else read_elems size 0 (λ _. parse_elem_expr mod' fast_functions))
      pure (record { index = index; offset = offset; mode = mode; elems = elems })

-- The index, the offset and the mode of a data segment.
unfoldable pub parse_data_mode : Options → Module → Read (ℕ × InitExpr × Bool)
parse_data_mode options mod' =
    let active_0 : ℕ → Read (ℕ × InitExpr × Bool) = λ flag. (do
      offset ← parse_init_expr options Ty.i32
      check (not (length mod'.memories == 0)) wasm_parse_exception
      pure (flag, offset, false)) in
    let active_n = (do
      index ← parse_varuint32
      offset ← parse_init_expr options Ty.i32
      check (ltb index (length mod'.memories)) wasm_parse_exception
      pure (index, offset, false)) in
    let no_offset : InitExpr = record { opcode = i32_const; value = 0 } in
    do
      flag ← parse_varuint32
      (if flag == 0 || not options.enable_bulk_memory
          then active_0 flag
          else if flag == 1
          then pure (1, no_offset, true)
          else if flag == 2
          then active_n
          else throw wasm_parse_exception)

-- parse_data_segment(code, ds)
unfoldable pub parse_data_segment : Options → Module → Read DataSegment
parse_data_segment options mod' = do
  (index, offset, passive') ← parse_data_mode options mod'
  len ← parse_varuint32
  check (leb len options.max_data_segment_bytes) wasm_parse_exception
  check (leb (offset.value % 2 ^ 32 + len) options.max_linear_memory_init) wasm_parse_exception
  scoped_shrink_bounds len (do
    contents ← raw_bytes len 0
    advance len
    pure (record { index = index; offset = offset; passive = passive'; contents = contents }))
