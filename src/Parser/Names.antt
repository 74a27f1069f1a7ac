-- ===== src/Parser/Names.antt =====
-- parser.hpp: the custom sections, of which the name section is read when an option asks for it.
pub mod Bounds
use eos_vm.Prelude.{ℕ, ◌-◌, ◌^◌, List, [], ◌∷◌, Bool, ◌&&◌, Option, none, some, ◌==◌, if◌then◌else◌}
use eos_vm.Prelude.Result.{wasm_parse_exception}
use eos_vm.GuardedPtr.{
  Read, ◌>>=◌, ◌>>◌, pure, throw, get, peek, increment, advance, offset, bounds,
  scoped_consume_items,
}
use eos_vm.Leb128.{parse_varuint32}
use eos_vm.Options.{Options}
use eos_vm.Types.{NameAssoc, IndirectNameAssoc, NameSection, bytes_equal}
use eos_vm.Parser.Primitives.{parse_utf8_string}
use eos_vm.Parser.Entries.{read_elems}

-- parse_utf8_string(code, 0xFFFFFFFFu)
abbrev pub parse_name : Read (List ℕ)
parse_name = parse_utf8_string (2 ^ 32 - 1)

-- A round of parse_name_map.
unfoldable pub parse_name_assoc : Read NameAssoc
parse_name_assoc = do
  idx ← parse_varuint32
  name ← parse_name
  pure (record { idx = idx; name = name })

-- A map's size, and parse_name_map(code, map) on a map of that size.
unfoldable pub parse_name_map : Read (List NameAssoc)
parse_name_map = do size ← parse_varuint32; read_elems size 0 (λ i. parse_name_assoc)

-- A round of the loop over the local names.
unfoldable pub parse_local_names : Read IndirectNameAssoc
parse_local_names = do
  idx ← parse_varuint32
  namemap ← parse_name_map
  pure (record { idx = idx; namemap = namemap })

unfoldable pub parse_indirect_name_map : Read (List IndirectNameAssoc)
parse_indirect_name_map = do size ← parse_varuint32; read_elems size 0 (λ i. parse_local_names)

-- code.bounds() == code.offset()
unfoldable pub at_bounds : Read Bool
at_bounds = do c ← get; pure (bounds c == offset c)

-- A subsection, if its id is next.
unfoldable pub subsection : {A : Type 0} → ℕ → Read A → Read (Option A)
subsection id body =
    let present = (do
      increment
      len ← parse_varuint32
      a ← scoped_consume_items len body
      pure (some a)) in
    do next_id ← peek; if next_id == id then present else pure none

-- Code that is left out, and `none` in its place, at the end of the section.
unfoldable pub unless_at_bounds : {A : Type 0} → A → Read A → Read A
unless_at_bounds a m = do done ← at_bounds; if done then pure a else m

-- parse_name_section(code)
unfoldable pub parse_name_section : Read NameSection
parse_name_section =
    let names : NameSection = record {
      module_name = none;
      function_names = none;
      local_names = none;
    } in
    unless_at_bounds names (do
      module_name ← subsection 0 parse_name
      let with_module = record names { module_name = module_name }
      unless_at_bounds with_module (do
        function_names ← subsection 1 parse_name_map
        let with_functions = record with_module { function_names = function_names }
        unless_at_bounds with_functions (do
          local_names ← subsection 2 parse_indirect_name_map
          unless_at_bounds (record with_functions { local_names = local_names })
              (throw wasm_parse_exception))))

-- The bytes of "name".
abbrev pub name_bytes : List ℕ
name_bytes = 0x6E ∷ 0x61 ∷ 0x6D ∷ 0x65 ∷ []

-- parse_custom(code): the names, or `none` where the section was skipped
unfoldable pub parse_custom : Options → Read (Option NameSection)
parse_custom options =
    let named = (do names ← parse_name_section; pure (some names)) in
    let skipped = (do c ← get; advance (bounds c - offset c); pure none) in
    do
      section_name ← parse_name
      if options.parse_custom_section_name && bytes_equal section_name name_bytes
          then named
          else skipped
