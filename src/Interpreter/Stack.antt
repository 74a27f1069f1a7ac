-- ===== src/Interpreter/Stack.antt =====
-- include/eosio/vm/wasm_stack.hpp: the class stack without an allocator, as the operand stack uses it,
-- and the jump of include/eosio/vm/execution_context.hpp on it. `fresh` is the element that the
-- vector fills new places with; an access past the vector is undefined.
pub mod Refinement
pub mod Places
use eos_vm.Prelude.{
  ℕ, zero, suc, ◌+◌, ◌-◌, ◌%◌, ◌^◌, List, [], ◌∷◌, ◌++◌, Option, none, some, ltb, leb, ◌==◌, length,
  get_elem?, set, replicate, if◌then◌else◌,
}
use eos_vm.Prelude.Result.{
  Result, ok, err, ◌>>=◌, ◌>>◌, eos_vm_assert, or_throw, undefined, wasm_interpreter_exception,
}

pub record Stack (A : Type 0) : Type 0 where
  pub store : List A
  pub index : ℕ

-- `_store[index] = e`
unfoldable pub assign : {A : Type 0} → ℕ → A → Stack A → Result (Stack A)
assign index e s =
    if ltb index (length s.store)
    then ok (record s { store = set s.store index e })
    else err undefined

-- `_store.resize(_store.size()*2)` where the vector is full
unfoldable pub reserve : {A : Type 0} → A → Stack A → Stack A
reserve fresh s =
    if leb (length s.store) s.index
    then record s { store = s.store ++ replicate (length s.store) fresh }
    else s

-- push(e)
unfoldable pub push_back : {A : Type 0} → A → A → Stack A → Result (Stack A)
push_back fresh e s = do
  s' ← assign s.index e (reserve fresh s)
  ok (record s' { index = s.index + 1 })

-- pop()
unfoldable pub pop_back : {A : Type 0} → Stack A → Result (A × Stack A)
pop_back s = elim s.index [
  | zero ↦ err undefined
  | suc last ↦ do e ← or_throw (get_elem? s.store last) undefined; ok (e, record s { index = last })
]

-- get(index), with the comparison as it stands
unfoldable pub get_index : {A : Type 0} → ℕ → Stack A → Result A
get_index index s = do
  eos_vm_assert (leb index s.index) wasm_interpreter_exception
  or_throw (get_elem? s.store index) undefined

-- set(index, el)
unfoldable pub set_index : {A : Type 0} → ℕ → A → Stack A → Result (Stack A)
set_index index el s = do
  eos_vm_assert (leb index s.index) wasm_interpreter_exception
  assign index el s

-- eat(index)
abbrev pub eat : {A : Type 0} → ℕ → Stack A → Stack A
eat index s = record s { index = index }

-- eat_operands(get_operand_stack().size() - amount), in 32 bits
abbrev pub eat_top : {A : Type 0} → ℕ → Stack A → Stack A
eat_top amount s = eat ((s.index + 2 ^ 32 - amount) % 2 ^ 32) s

-- jump(pop_info, new_pc) on the operand stack: the high bit of `pop_info` says that a result is kept.
unfoldable pub jump : {A : Type 0} → A → ℕ → Stack A → Result (Stack A)
jump fresh pop_info s =
    let kept = (do
      (op, s') ← pop_back s
      push_back fresh op (eat_top ((pop_info % 2 ^ 31 + 2 ^ 32 - 1) % 2 ^ 32) s')) in
    if ltb pop_info (2 ^ 31) then ok (eat_top pop_info s) else kept

-- compact(index)
unfoldable pub compact : {A : Type 0} → ℕ → Stack A → Result (Stack A)
compact index s = elim s.index [
  | zero ↦ err undefined
  | suc last ↦ do
    e ← or_throw (get_elem? s.store last) undefined
    s' ← assign index e s
    ok (record s' { index = index + 1 })
]
