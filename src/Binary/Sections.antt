-- ===== src/Binary/Sections.antt =====
-- parser.hpp: parse_module, the loop over the sections of a module.
use eos_vm.Prelude.{
  ℕ, zero, suc, ◌-◌, List, [], ◌∷◌, map, true, false, Option, none, some, ◌==◌, length,
  if◌then◌else◌,
}
use eos_vm.Prelude.Result.{ok, err, wasm_parse_exception, eos_vm_assert}
use eos_vm.GuardedPtr.{GuardedPtr, guarded_ptr, Read, next, offset, bounds, get, check}
use eos_vm.GuardedPtr
use eos_vm.Leb128.{parse_varuint32}
use eos_vm.Options.{Options}
use eos_vm.Types.{NameSection, Module, empty_module}
use eos_vm.Writer.{bitcode_writer}
use eos_vm.Parser.Primitives.{parse_raw}
use eos_vm.Parser.Entries.{parse_function_body}
use eos_vm.Parser.Tables.{normalize_types, validate_exports, type_aliases}
use eos_vm.Parser.Names.{parse_custom}
use eos_vm.Parser.Sections.{
  parse_section_impl, type_section, import_section, function_section, table_section, memory_section,
  global_section, export_section, start_section, element_section, data_section, data_count_section,
}
use eos_vm.Parser.Sections.Order.{next_section}
use eos_vm.Binary.{Parse, Parser, ◌>>=◌, pure, lift, reads, scoped}
use eos_vm.Binary.Fueled
use eos_vm.Binary.Fueled.{Run}
use eos_vm.Binary.Functions.{Entry, write_code_out}

-- The bodies of the code section, with the assertion on their number.
unfoldable pub read_bodies : Options → Module → Read (List Entry)
read_bodies options mod' =
    GuardedPtr.◌>>=◌
      (parse_section_impl options.max_function_section_elements (parse_function_body options mod'))
      λ bodies.
        GuardedPtr.◌>>=◌ (check (length bodies == length mod'.functions) wasm_parse_exception)
          λ _. GuardedPtr.pure bodies

-- parse_section<code_section>(code, elems)
unfoldable pub code_section : ℕ → Options → ℕ → Parser → Parse Parser
code_section fuel options opcode_bytes p = do
  bodies ← reads (read_bodies options p.mod')
  c ← reads get
  let read = record p { mod' = record p.mod' { code = map (λ e. e.0) bodies } }
  lift (
      write_code_out fuel options opcode_bytes 0 bodies (bitcode_writer (bounds c - offset c)) read)

abbrev pub with_names : Parser → Option NameSection → Parser
with_names p none = p
with_names p (some names) = record p { mod' = record p.mod' { names = some names } }

-- The cases of the switch over the section's id, by the name of the section. A case that only reads
-- puts what it read into the module.
unfoldable pub custom_case : Options → Parser → Parse Parser
custom_case options p = do names ← reads (parse_custom options); pure (with_names p names)

unfoldable pub type_case : Options → Parser → Parse Parser
type_case options p = do
  types ← reads (type_section options)
  pure (record p { mod' = record p.mod' { types = types } })

unfoldable pub import_case : Options → Parser → Parse Parser
import_case options p = do
  imports ← reads (import_section options p.mod')
  pure (record p { mod' = record p.mod' { imports = imports } })

unfoldable pub function_case : Options → Parser → Parse Parser
function_case options p = do
  functions ← reads (function_section options)
  let mod' = record p.mod' { functions = functions }
  fast_functions ← lift (some (normalize_types mod'))
  pure (record p { mod' = mod'; type_aliases = type_aliases mod'; fast_functions = fast_functions })

unfoldable pub table_case : Options → Parser → Parse Parser
table_case options p = do
  tables ← reads (table_section options)
  pure (record p { mod' = record p.mod' { tables = tables } })

unfoldable pub memory_case : Options → Parser → Parse Parser
memory_case options p = do
  memories ← reads (memory_section options)
  pure (record p { mod' = record p.mod' { memories = memories } })

unfoldable pub global_case : Options → Parser → Parse Parser
global_case options p = do
  (globals, count) ← reads (global_section options p.globals)
  pure (record p { mod' = record p.mod' { globals = globals }; globals = count })

unfoldable pub export_case : Options → Parser → Parse Parser
export_case options p = do
  exports ← reads (export_section options p.mod')
  _ ← lift (some (validate_exports exports))
  pure (record p { mod' = record p.mod' { exports = exports } })

unfoldable pub start_case : Parser → Parse Parser
start_case p = do
  start ← reads (start_section p.mod')
  pure (record p { mod' = record p.mod' { start = start } })

unfoldable pub element_case : Options → Parser → Parse Parser
element_case options p = do
  elements ← reads (element_section options p.mod' p.fast_functions)
  pure (record p { mod' = record p.mod' { elements = elements } })

unfoldable pub data_case : Options → Parser → Parse Parser
data_case options p = do
  datas ← reads (data_section options p.mod' p.datacount)
  pure (record p { mod' = record p.mod' { datas = datas } })

unfoldable pub data_count_case : Parser → Parse Parser
data_count_case p = do
  datacount ← reads data_count_section
  pure (record p { datacount = datacount })

-- The case of a switch whose value is equal, or the default.
unfoldable pub switch : {A : Type 0} → ℕ → List (ℕ × Parse A) → Parse A → Parse A
switch value [] default = default
switch value ((v, m) ∷ cases) default =
    let rest = switch value cases default in if value == v then m else rest

abbrev pub cases : ℕ → Options → ℕ → Parser → List (ℕ × Parse Parser)
cases fuel options opcode_bytes p =
    (0, custom_case options p)
    ∷ (1, type_case options p)
    ∷ (2, import_case options p)
    ∷ (3, function_case options p)
    ∷ (4, table_case options p)
    ∷ (5, memory_case options p)
    ∷ (6, global_case options p)
    ∷ (7, export_case options p)
    ∷ (8, start_case p)
    ∷ (9, element_case options p)
    ∷ (10, code_section fuel options opcode_bytes p)
    ∷ (11, data_case options p)
    ∷ (12, data_count_case p)
    ∷ []

abbrev pub section_case : ℕ → Options → ℕ → ℕ → Parser → Parse Parser
section_case fuel options opcode_bytes id p =
    switch id (cases fuel options opcode_bytes p) (lift (some (err wasm_parse_exception)))

-- A round of the loop of parse_module, with highest_section_id before and after.
unfoldable pub section : ℕ → Options → ℕ → ℕ → Parser → Parse (ℕ × Parser)
section fuel options opcode_bytes highest p = do
  id ← reads next
  len ← reads parse_varuint32
  highest' ← lift (some (next_section highest id))
  p' ← scoped len (section_case fuel options opcode_bytes id p)
  pure (highest', p')

-- The loop of parse_module, on fuel of its own.
unfoldable pub sections : ℕ → ℕ → Options → ℕ → ℕ → ℕ → Parser → Parse Parser
sections zero fuel options opcode_bytes sz highest p c = none
sections (suc rounds) fuel options opcode_bytes sz highest p c = elim (offset c == sz) [
  | true ↦ some (ok (p, c))
  | false ↦
      (section fuel options opcode_bytes highest p >>= λ (highest', p').
      sections rounds fuel options opcode_bytes sz highest' p')
        c
]

-- A parser that has read nothing yet.
abbrev pub new_parser : Parser
new_parser = record {
  mod' = empty_module;
  globals = 0;
  nested = 0;
  datacount = none;
  type_aliases = [];
  fast_functions = [];
  functions = [];
}

-- parse_module(code_ptr, sz, mod, debug)
unfoldable pub parse_module : ℕ → Options → ℕ → ℕ → Parse Parser
parse_module fuel options opcode_bytes sz = do
  magic ← reads (parse_raw 4)
  _ ← lift (some (eos_vm_assert (magic == 0x6D736100) wasm_parse_exception))
  version ← reads (parse_raw 4)
  _ ← lift (some (eos_vm_assert (version == 1) wasm_parse_exception))
  p ← sections fuel fuel options opcode_bytes sz 0 new_parser
  _ ←
      lift
        (some (eos_vm_assert (length p.mod'.code == length p.mod'.functions) wasm_parse_exception))
  pure p

-- parse_module(code, mod, debug) on a vector of bytes
unfoldable pub parse_code : ℕ → Options → ℕ → List ℕ → Run Parser
parse_code fuel options opcode_bytes code =
    Fueled.◌>>=◌
      (parse_module fuel options opcode_bytes (length code) (guarded_ptr code 0 (length code)))
      λ (p, c). some (ok p)
