-- ===== src/Parser/OperandStack.antt =====
-- parser.hpp: operand_stack_type_tracker, the types that validation keeps of a function's operands,
-- with max_func_local_bytes_stack_checker and max_stack_usage_calculator, for the writer of the
-- interpreter (include/eosio/vm/bitcode_writer.hpp), where an operand of any type has depth 1.
pub mod Depth
use eos_vm.Prelude.{
  ℕ, zero, suc, ◌+◌, ◌-◌, ◌%◌, ◌^◌, List, [], ◌∷◌, Bool, true, false, not, ◌&&◌, ◌||◌, Option, none,
  some, ltb, ◌==◌, max, if◌then◌else◌,
}
use eos_vm.Prelude.Result.{
  Result, ok, err, ◌>>=◌, ◌>>◌, eos_vm_assert, undefined, wasm_parse_exception,
}
use eos_vm.Options.{Options, Limit}
use eos_vm.Types.Ty
use eos_vm.Parser.Limits.{get_size_for_type, on_type}

abbrev pub unreachable_tag : ℕ
unreachable_tag = 0x80

abbrev pub scope_tag : ℕ
scope_tag = 0x81

abbrev pub any_type : ℕ
any_type = 0x82

-- `state` with its last element first. `count` and `unreachable_depth` are the fields of the member
-- local_bytes_checker, `usage` the maximum in the member stack_usage.
pub record Tracker : Type 0 where
  pub state : List ℕ
  pub operand_depth : ℕ
  pub maximum_operand_depth : ℕ
  pub count : ℕ
  pub unreachable_depth : ℕ
  pub usage : ℕ

-- The constructor, on the bytes that parameters and locals take.
abbrev pub new_tracker : ℕ → Tracker
new_tracker count = record {
  state = scope_tag ∷ [];
  operand_depth = 0;
  maximum_operand_depth = 0;
  count = count;
  unreachable_depth = 0;
  usage = count;
}

-- local_bytes_checker.push_stack(options, type), on the counter and the unreachable depth
unfoldable pub push_stack : Options → ℕ → ℕ → ℕ → Result ℕ
push_stack options unreachable_depth type count = elim options.max_func_local_bytes [
  | none ↦ ok count
  | some l ↦
      if unreachable_depth == 0 && options.count_stack then on_type l count type else ok count
]

-- local_bytes_checker.pop_stack(options, type), in the counter's type
unfoldable pub pop_stack : Options → ℕ → ℕ → ℕ → ℕ
pop_stack options unreachable_depth type count = elim options.max_func_local_bytes [
  | none ↦ count
  | some l ↦
      if unreachable_depth == 0 && options.count_stack
      then (count + 2 ^ l.bits - get_size_for_type type) % 2 ^ l.bits
      else count
]

-- push(type)
unfoldable pub push : Options → ℕ → Tracker → Result Tracker
push options type t = do
  eos_vm_assert (ltb t.operand_depth (2 ^ 32 - 1)) wasm_parse_exception
  count ← push_stack options t.unreachable_depth type t.count
  ok (record t {
    state = type ∷ t.state;
    operand_depth = t.operand_depth + 1;
    maximum_operand_depth = max (t.operand_depth + 1) t.maximum_operand_depth;
    count = count;
    usage = max count t.usage;
  })

-- An element is taken off: `operand_depth` is of 32 bits.
unfoldable pub drop_back : Options → ℕ → List ℕ → Tracker → Tracker
drop_back options type rest t = record t {
  state = rest;
  operand_depth = (t.operand_depth + (2 ^ 32 - 1)) % 2 ^ 32;
  count = pop_stack options t.unreachable_depth type t.count;
}

-- pop(expected) for an expected type that is not pseudo
unfoldable pub pop_typed : Options → ℕ → Tracker → Result Tracker
pop_typed options expected t = elim t.state [
  | [] ↦ err wasm_parse_exception
  | back ∷ rest ↦ if back == unreachable_tag then ok t else do
    eos_vm_assert (back == expected || back == any_type) wasm_parse_exception
    ok (drop_back options expected rest t)
]

-- pop(expected)
unfoldable pub pop_expected : Options → ℕ → Tracker → Result Tracker
pop_expected options expected t =
    if expected == Ty.pseudo then ok t else pop_typed options expected t

-- pop()
unfoldable pub pop_any : Options → Tracker → Result (ℕ × Tracker)
pop_any options t = elim t.state [
  | [] ↦ err wasm_parse_exception
  | back ∷ rest ↦ do
    eos_vm_assert (not (back == scope_tag)) wasm_parse_exception
    if back == unreachable_tag then ok (any_type, t) else ok (back, drop_back options back rest t)
]

-- top(expected)
unfoldable pub top : Options → ℕ → Tracker → Result Tracker
top options expected t = do t' ← pop_expected options expected t; push options expected t'

-- The loop of start_unreachable: what is left of the state, and the depth.
unfoldable pub unwind : List ℕ → ℕ → List ℕ × ℕ
unwind [] depth = ([], depth)
unwind (back ∷ rest) depth =
    let after =
      unwind rest (if back == unreachable_tag then depth else (depth + (2 ^ 32 - 1)) % 2 ^ 32) in
    if back == scope_tag then (back ∷ rest, depth) else after

-- start_unreachable()
unfoldable pub start_unreachable : Tracker → Tracker
start_unreachable t =
    let (rest, depth) = unwind t.state t.operand_depth in
    record t {
      state = unreachable_tag ∷ rest;
      operand_depth = depth;
      unreachable_depth = t.unreachable_depth + 1;
    }

-- push_scope()
unfoldable pub push_scope : Tracker → Tracker
push_scope t = record t { state = scope_tag ∷ t.state }

-- The unreachable tag, if it is there, is taken off.
unfoldable pub pop_unreachable : Tracker → Tracker
pop_unreachable t = elim t.state [
  | [] ↦ t
  | back ∷ rest ↦
      if back == unreachable_tag
      then record t { state = rest; unreachable_depth = t.unreachable_depth - 1 }
      else t
]

-- The last element must be the tag of a scope; `back()` of an empty vector is undefined.
unfoldable pub pop_tag : List ℕ → Result (List ℕ)
pop_tag [] = err undefined
pop_tag (back ∷ rest) = do eos_vm_assert (back == scope_tag) wasm_parse_exception; ok rest

abbrev pub is_empty : List ℕ → Bool
is_empty [] = true
is_empty (x ∷ xs) = false

-- pop_scope(expected_result)
unfoldable pub pop_scope : Options → ℕ → Tracker → Result Tracker
pop_scope options expected t = do
  t' ← pop_expected options expected t
  eos_vm_assert (not (is_empty t'.state)) wasm_parse_exception
  rest ← pop_tag (pop_unreachable t').state
  let closed = record (pop_unreachable t') { state = rest }
  if expected == Ty.pseudo then ok closed else push options expected closed
