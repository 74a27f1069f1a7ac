-- ===== src/Body/Vector.antt =====
-- parser.hpp, parse_function_body_code: the instructions behind the prefixes of vectors and of the
-- extensions. Their opcodes carry the number behind the prefix as the first immediate.
use eos_vm.Prelude.{
  ℕ, ◌-◌, ◌^◌, List, [], ◌∷◌, Bool, true, false, not, none, some, ltb, leb, ◌==◌, length,
  if◌then◌else◌,
}
use eos_vm.GuardedPtr.{next}
use eos_vm.Leb128.{parse_varuint32}
use eos_vm.Types.Ty
use eos_vm.Parser.Primitives.{parse_v128}
use eos_vm.Parser.Entries.{read_elems}
use eos_vm.Body.{
  Env, Action, ◌>>=◌, ◌>>◌, pure, read, require, emit, pop_all, pushes, pops, check_in_bounds,
  switch,
}
use eos_vm.Body.Tables.{
  Place, find_row, vector_rows, find_place, vector_loads, vector_stores, lane_loads, lane_stores,
  extracts, replaces,
}
use eos_vm.Body.Plain.{zero_byte, load_case, store_case}

abbrev vector_prefix : ℕ
vector_prefix = 0xFD

abbrev ext_prefix : ℕ
ext_prefix = 0xFC

-- LOADLANE_OP and STORELANE_OP; only the first pushes.
unfoldable pub lane_memory : Env → ℕ → ℕ → ℕ → Bool → Action (Unit {0})
lane_memory env op max_align type is_load = do
  check_in_bounds env
  require (ltb 0 (length env.mod'.memories))
  alignment ← read parse_varuint32
  offset ← read parse_varuint32
  lane ← read next
  require (leb alignment max_align)
  require (leb offset env.options.max_memory_offset)
  require (ltb lane (2 ^ (4 - max_align)))
  pops env.options type
  pops env.options Ty.i32
  (if is_load then pushes env.options type else pure tt)
  emit vector_prefix (op ∷ alignment ∷ offset ∷ lane ∷ [])

unfoldable pub vector_const : Env → ℕ → Action (Unit {0})
vector_const env op = do
  check_in_bounds env
  v ← read parse_v128
  emit vector_prefix (op ∷ v ∷ [])
  pushes env.options Ty.v128

unfoldable pub check_lanes : List ℕ → Action (Unit {0})
check_lanes [] = pure tt
check_lanes (l ∷ ls) = require (ltb l 32) >> check_lanes ls

-- EXTRACT_LANE_OP(opcode, type, N)
unfoldable pub extract_lane : Env → ℕ → ℕ → ℕ → Action (Unit {0})
extract_lane env op lanes type = do
  check_in_bounds env
  laneidx ← read next
  require (ltb laneidx lanes)
  pops env.options Ty.v128
  pushes env.options type
  emit vector_prefix (op ∷ laneidx ∷ [])

-- REPLACE_LANE_OP(opcode, type, N)
unfoldable pub replace_lane : Env → ℕ → ℕ → ℕ → Action (Unit {0})
replace_lane env op lanes type = do
  check_in_bounds env
  laneidx ← read next
  require (ltb laneidx lanes)
  pops env.options type
  pops env.options Ty.v128
  pushes env.options Ty.v128
  emit vector_prefix (op ∷ laneidx ∷ [])

unfoldable pub shuffle : Env → ℕ → Action (Unit {0})
shuffle env op = do
  check_in_bounds env
  lanes ← read (read_elems 16 0 (λ i. next))
  check_lanes lanes
  emit vector_prefix (op ∷ lanes)
  pops env.options Ty.v128
  pops env.options Ty.v128
  pushes env.options Ty.v128

-- NUMERIC_OP(opcode, inputs, outputs); any other opcode is illegal.
unfoldable pub vector_numeric : Env → ℕ → Action (Unit {0})
vector_numeric env op = elim (find_row vector_rows op) [
  | none ↦ require false
  | some (inputs, output) ↦ do
    check_in_bounds env
    pop_all env.options inputs
    pushes env.options output
    emit vector_prefix (op ∷ [])
]

-- The case of a table, or the rest of the switch.
unfoldable pub by_place :
    List Place → ℕ → (ℕ → ℕ → Action (Unit {0})) → Action (Unit {0}) → Action (Unit {0})
by_place places op found rest = elim (find_place places op) [
  | none ↦ rest
  | some (n, type) ↦ found n type
]

-- The switch behind opcodes::vector_prefix.
unfoldable pub vector_op : Env → ℕ → Action (Unit {0})
vector_op env op = by_place vector_loads op (load_case env (λ is. emit vector_prefix (op ∷ is))) (
    by_place vector_stores op (store_case env (λ is. emit vector_prefix (op ∷ is))) (
      by_place lane_loads op (λ n t. lane_memory env op n t true)
        (by_place lane_stores op (λ n t. lane_memory env op n t false)
          (by_place extracts op (extract_lane env op) (
            by_place replaces op (replace_lane env op) (
              switch op ((12, vector_const env op) ∷ (13, shuffle env op) ∷ [])
                (vector_numeric env op)))))))

unfoldable pub vector_case : Env → Action (Unit {0})
vector_case env = do require env.options.enable_simd; op ← read parse_varuint32; vector_op env op

-- TRUNC_SAT_OP(dest, src, sign)
unfoldable pub trunc_sat : Env → ℕ → ℕ → ℕ → Action (Unit {0})
trunc_sat env op dest src = do
  check_in_bounds env
  require env.options.enable_nontrapping_fptoint
  pops env.options src
  pushes env.options dest
  emit ext_prefix (op ∷ [])

abbrev pub three_i32 : List ℕ
three_i32 = Ty.i32 ∷ Ty.i32 ∷ Ty.i32 ∷ []

-- The test of memory_init and data_drop against the number of data segments.
unfoldable pub data_segment_exists : Env → ℕ → Action (Unit {0})
data_segment_exists env x = elim env.datacount [
  | none ↦ require false
  | some count ↦ require (ltb x count)
]

unfoldable pub memory_init : Env → Action (Unit {0})
memory_init env = do
  check_in_bounds env
  require env.options.enable_bulk_memory
  require (not (length env.mod'.memories == 0))
  pop_all env.options three_i32
  x ← read parse_varuint32
  data_segment_exists env x
  zero_byte
  emit ext_prefix (8 ∷ x ∷ [])

unfoldable pub data_drop : Env → Action (Unit {0})
data_drop env = do
  check_in_bounds env
  require env.options.enable_bulk_memory
  x ← read parse_varuint32
  data_segment_exists env x
  emit ext_prefix (9 ∷ x ∷ [])

unfoldable pub memory_copy : Env → Action (Unit {0})
memory_copy env = do
  check_in_bounds env
  require env.options.enable_bulk_memory
  require (not (length env.mod'.memories == 0))
  pop_all env.options three_i32
  zero_byte
  zero_byte
  emit ext_prefix (10 ∷ [])

unfoldable pub memory_fill : Env → Action (Unit {0})
memory_fill env = do
  check_in_bounds env
  require env.options.enable_bulk_memory
  require (not (length env.mod'.memories == 0))
  pop_all env.options three_i32
  zero_byte
  emit ext_prefix (11 ∷ [])

unfoldable pub table_init : Env → Action (Unit {0})
table_init env = do
  check_in_bounds env
  require env.options.enable_bulk_memory
  require (not (length env.mod'.tables == 0))
  x ← read parse_varuint32
  zero_byte
  pop_all env.options three_i32
  emit ext_prefix (12 ∷ x ∷ [])

unfoldable pub elem_drop : Env → Action (Unit {0})
elem_drop env = do
  check_in_bounds env
  require env.options.enable_bulk_memory
  x ← read parse_varuint32
  require (ltb x (length env.mod'.elements))
  emit ext_prefix (13 ∷ x ∷ [])

unfoldable pub table_copy : Env → Action (Unit {0})
table_copy env = do
  check_in_bounds env
  require env.options.enable_bulk_memory
  require (not (length env.mod'.tables == 0))
  zero_byte
  zero_byte
  pop_all env.options three_i32
  emit ext_prefix (14 ∷ [])

-- The switch behind opcodes::ext_prefix; any other opcode is illegal.
unfoldable pub ext_op : Env → ℕ → Action (Unit {0})
ext_op env op =
    switch op
      ((0, trunc_sat env op Ty.i32 Ty.f32)
        ∷ (1, trunc_sat env op Ty.i32 Ty.f32)
        ∷ (2, trunc_sat env op Ty.i32 Ty.f64)
        ∷ (3, trunc_sat env op Ty.i32 Ty.f64)
        ∷ (4, trunc_sat env op Ty.i64 Ty.f32)
        ∷ (5, trunc_sat env op Ty.i64 Ty.f32)
        ∷ (6, trunc_sat env op Ty.i64 Ty.f64)
        ∷ (7, trunc_sat env op Ty.i64 Ty.f64)
        ∷ (8, memory_init env)
        ∷ (9, data_drop env)
        ∷ (10, memory_copy env)
        ∷ (11, memory_fill env)
        ∷ (12, table_init env)
        ∷ (13, elem_drop env)
        ∷ (14, table_copy env)
        ∷ [])
      (require false)

unfoldable pub ext_case : Env → Action (Unit {0})
ext_case env = do op ← read parse_varuint32; ext_op env op
