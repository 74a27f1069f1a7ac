-- ===== src/Tests/Segments.antt =====
-- Segments and bulk instructions at concrete inputs.
use eos_vm.Prelude.{
  ℕ, ◌+◌, ◌*◌, ◌≤◌, ◌<◌, ◌≡◌, ◌⊎◌, inl, inr, refl, [], ◌∷◌, true, false, some, arith, ltb,
  if◌then◌else◌,
}
use eos_vm.Prelude.Result.{Error, ok, err, IsException, wasm_memory_exception}
use eos_vm.Types.{
  count_functions, TableType, TableEntry, InitExpr, active, passive, DataSegment, Module,
  empty_module,
}
use eos_vm.Interpreter.Memory.{WasmAllocator, page_size, reset_none}
use eos_vm.Interpreter.Bulk.{
  Table, put, with_operands, until_done, memory_copy, memory_fill, table_copy,
}
use eos_vm.Interpreter.Bulk.Loop.{Copied}
use eos_vm.Interpreter.Bulk.Copies.{IsMemory}
use eos_vm.Interpreter.Bulk.Outcomes.{memory_copy_outcome, table_copy_outcome}
use eos_vm.Interpreter.Bulk.Fill.{Filled, memory_fill_outcome}
use eos_vm.Interpreter.Segments.{
  Instance, null_entry, reset, reset_memory, reset_table, load_data, load_elements, load_segment,
  store_list, init_table, init_linear_memory, call_indirect,
}
use eos_vm.Interpreter.Segments.Entries.{EntriesFit}
use eos_vm.Interpreter.Segments.Loaded.{Loaded, resets, inits_table, Loaded-EntriesFit}
use eos_vm.Interpreter.Segments.Calls.{IsTyped, call_indirect_reached}
use eos_vm.Interpreter.Segments.Memory.{IsInitialised, init_linear_memory_outcome}
use eos_vm.Parser.Segments.Bounds.{IsEntry}
use eos_vm.Parser.Tables.Exports.{Distinct}
use eos_vm.Binary.{Parser}
use eos_vm.Binary.Sections.{new_parser}
use eos_vm.Binary.WellFormed.{IsWellFormed}
use eos_vm.Tests.Parsing.{options}

-- One page of zeros, with a one at place 4.
abbrev memory : WasmAllocator
memory = record { page = some 1; raw = put 4 1 (λ i. 0) }

memory-IsMemory : IsMemory 1 memory
memory-IsMemory = record { pages = refl; are_bytes = λ i. ground arith }

-- The two ranges overlap, and the destination is above the source.
memory_copy_run :
    (((page_size * 1 < 2 + 5) ⊎ (page_size * 1 < 4 + 5))
      × (memory_copy (with_operands 5 2 4 []) memory ≡ err wasm_memory_exception)
      × (until_done 6 memory_copy (with_operands 5 2 4 []) memory
          ≡ some (err wasm_memory_exception)))
    ⊎ Copied
        (IsMemory 1)
        (λ b. b.raw)
        5
        2
        4
        memory
        []
        (until_done 6 memory_copy (with_operands 5 2 4 []) memory)
memory_copy_run =
    memory_copy_outcome 6 5 2 4 1 [] memory (omega arith) (omega arith) memory-IsMemory

memory_fill_run :
    ((page_size * 1 < 2 + 3)
      × (memory_fill (with_operands 3 300 2 []) memory ≡ err wasm_memory_exception)
      × (until_done 4 memory_fill (with_operands 3 300 2 []) memory
          ≡ some (err wasm_memory_exception)))
    ⊎ Filled 3 2 300 1 memory [] (until_done 4 memory_fill (with_operands 3 300 2 []) memory)
memory_fill_run = memory_fill_outcome 4 3 2 300 1 [] memory (omega arith) (omega arith) refl

abbrev table_type : TableType
table_type = record {
  element_type = 0x70;
  limits = record { flags = false; initial = 3; maximum = 0 };
}

abbrev entry : TableEntry
entry = record { type = 0; index = 0 }

abbrev nulls : Table
nulls i = if ltb i 3 then null_entry else entry

table_copy_run :
    (((3 < 0 + 2) ⊎ (3 < 1 + 2))
      × (until_done 3 (table_copy (table_type ∷ [])) (with_operands 2 0 1 []) (put 0 entry nulls)
          ≡ some (err wasm_memory_exception)))
    ⊎ Copied
        (λ _. Unit {0})
        (λ b. b)
        2
        0
        1
        (put 0 entry nulls)
        []
        (until_done 3 (table_copy (table_type ∷ [])) (with_operands 2 0 1 []) (put 0 entry nulls))
table_copy_run =
    table_copy_outcome 3 2 0 1 (table_type ∷ []) table_type [] (put 0 entry nulls) (omega arith)
      refl (omega arith)

abbrev at_one : InitExpr
at_one = record { opcode = 0x41; value = 1 }

-- A module with one function, a table, an active and a passive element segment, and a data segment.
abbrev one_table : Module
one_table = record empty_module {
  types = record { form = 0x60; param_types = []; return_count = 0; return_type = 0 } ∷ [];
  functions = 0 ∷ [];
  tables = table_type ∷ [];
  elements =
      record { index = 0; offset = at_one; mode = active; elems = entry ∷ [] }
      ∷ record { index = 0; offset = at_one; mode = passive; elems = entry ∷ null_entry ∷ [] }
      ∷ [];
}

abbrev parser : Parser
parser = record new_parser { mod' = one_table; fast_functions = 0 ∷ [] }

entry-IsEntry : IsEntry one_table (0 ∷ []) entry
unfolding IsEntry
entry-IsEntry = inr (omega arith, refl)

null_entry-IsEntry : IsEntry one_table (0 ∷ []) null_entry
unfolding IsEntry
null_entry-IsEntry = inl (refl, refl)

parser-IsWellFormed : IsWellFormed options parser
unfolding Distinct
parser-IsWellFormed = record {
  types = (
    record { params = tt; one_result = omega arith; result = λ e. absurd (omega (arith, e)) },
    tt,
  );
  imports = tt;
  functions = (omega arith, tt);
  tables = record {
    size_le = omega arith;
    all = (record { initial_le = omega arith; maximum_ge = λ e. cc }, tt);
  };
  memories = record { size_le = omega arith; all = tt };
  exports = tt;
  names = tt;
  start = inl refl;
  elements = (
    record { size_le = omega arith; entries = (entry-IsEntry, tt); table = λ _. omega arith },
    (
      record {
        size_le = omega arith;
        entries = (entry-IsEntry, (null_entry-IsEntry, tt));
        table = λ _. omega arith;
      },
      tt,
    ),
  );
  datas = tt;
  code = refl;
  linked = tt;
}

abbrev before : Instance
before = record {
  memory = memory;
  globals = [];
  table = λ i. entry;
  dropped_data = [];
  dropped_elems = [];
}

abbrev after_reset : Instance
after_reset = record {
  memory = reset_none memory;
  globals = [];
  table = put 1 entry nulls;
  dropped_data = [];
  dropped_elems = true ∷ false ∷ [];
}

abbrev after_init : Instance
after_init = record after_reset { table = put 1 null_entry (put 0 entry after_reset.table) }

after_init-Loaded : Loaded 10 one_table after_init
unfolding reset reset_memory reset_table load_data load_elements load_segment store_list init_table
after_init-Loaded = inits_table after_reset 1 0 0 2 (resets before refl) refl

Loaded_run : EntriesFit one_table (0 ∷ []) 3 after_init.table
Loaded_run =
    Loaded-EntriesFit options parser table_type 10 after_init parser-IsWellFormed refl
      after_init-Loaded

call_indirect_run :
    ((e : Error) × (call_indirect one_table after_init 0 0 ≡ err e) × IsException e)
    ⊎ ((fn : ℕ) × (call_indirect one_table after_init 0 0 ≡ ok fn)
        × IsTyped parser after_init 3 0 0 fn)
unfolding count_functions
call_indirect_run =
    call_indirect_reached options parser table_type 10 0 0 after_init parser-IsWellFormed
      (omega arith) refl after_init-Loaded

abbrev bytes : DataSegment
bytes = record { index = 0; offset = at_one; passive = true; contents = 7 ∷ 8 ∷ 9 ∷ [] }

abbrev one_data : Module
one_data = record empty_module { datas = bytes ∷ [] }

abbrev with_memory : Instance
with_memory = record before { dropped_data = false ∷ [] }

init_linear_memory_run :
    (((3 < 1 + 2) ⊎ (page_size * 1 < 10 + 2))
      × (init_linear_memory one_data 0 10 1 2 with_memory ≡ err wasm_memory_exception))
    ⊎ ((1 + 2 ≤ 3)
        × (10 + 2 ≤ page_size * 1)
        × ((raw : ℕ → ℕ) × (init_linear_memory one_data 0 10 1 2 with_memory
              ≡ ok (record with_memory { memory = record memory { raw = raw } }))
            × IsInitialised bytes.contents 10 1 2 memory.raw raw))
init_linear_memory_run =
    init_linear_memory_outcome one_data 0 10 1 2 1 with_memory false bytes refl refl refl
