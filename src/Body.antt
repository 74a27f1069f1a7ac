-- ===== src/Body.antt =====
-- parser.hpp: parse_function_body_code, which validates a function's body and writes its code. Its
-- local variables, the members of the parser that it changes and the code writer are a state; an
-- instruction is an action on that state and the code pointer.
pub mod Tables
pub mod Control
pub mod Plain
pub mod Vector
pub mod Code
pub mod Keeps
pub mod Typing
use eos_vm.Prelude.{
  ℕ, zero, suc, ◌+◌, ◌-◌, ◌%◌, ◌^◌, List, [], ◌∷◌, ◌++◌, Bool, true, false, not, ◌&&◌, ◌||◌, Option,
  none, some, ltb, leb, ◌==◌, length, get_elem?, if◌then◌else◌,
}
use eos_vm.Prelude.Result.{Error, Result, ok, err, undefined, wasm_parse_exception, or_throw}
use eos_vm.GuardedPtr.{GuardedPtr, Read}
use eos_vm.Options.{Options}
use eos_vm.Types.{Module}
use eos_vm.Types.Ty
use eos_vm.Writer.{Writer, Opcode, plain, append_instr, fix_branch}
use eos_vm.Parser.Locals.{LocalTypes}
use eos_vm.Parser.OperandStack.{Tracker, push, pop_expected, pop_any, top, start_unreachable}

-- What the code reads and does not change: the options, the module, the parser's type_aliases and
-- _datacount, the types of the locals, and the size of the writer's opcodes.
pub record Env : Type 0 where
  pub options : Options
  pub mod' : Module
  pub type_aliases : List ℕ
  pub datacount : Option ℕ
  pub local_types : LocalTypes
  pub opcode_bytes : ℕ

-- The relocations of pc_element_t: the address of a label, or the branches to be fixed.
pub data Relocations : Type 0 where
  label : ℕ → Relocations
  branches : List ℕ → Relocations

-- pc_element_t
pub record PcElement : Type 0 where
  pub operand_depth : ℕ
  pub expected_result : ℕ
  pub label_result : ℕ
  pub is_if : Bool
  pub relocations : Relocations

-- `pc_stack` has its last element first; `nested` is the counter of _nested_checker.
pub record Body : Type 0 where
  pub op_stack : Tracker
  pub pc_stack : List PcElement
  pub nested : ℕ
  pub writer : Writer

abbrev pub Action : Type 0 → Type 0
Action A = Body → GuardedPtr → Result (A × Body × GuardedPtr)

infixl 5 ◌>>=◌ ◌>>◌
unfoldable pub ◌>>=◌ : {A B : Type 0} → Action A → (A → Action B) → Action B
◌>>=◌ m f s c = elim (m s c) [ ok (a, s', c') ↦ f a s' c' | err e ↦ err e ]

abbrev pub ◌>>◌ : {B : Type 0} → Action (Unit {0}) → Action B → Action B
m >> k = m >>= λ _. k

unfoldable pub pure : {A : Type 0} → A → Action A
pure a s c = ok (a, s, c)

-- A read of the code.
unfoldable pub read : {A : Type 0} → Read A → Action A
read m s c = elim (m c) [ ok (a, c') ↦ ok (a, s, c') | err e ↦ err e ]

-- A computation that changes nothing.
unfoldable pub lift : {A : Type 0} → Result A → Action A
lift r s c = elim r [ ok a ↦ ok (a, s, c) | err e ↦ err e ]

-- EOS_VM_ASSERT(expr, wasm_parse_exception, msg)
unfoldable pub require : Bool → Action (Unit {0})
require true s c = ok (tt, s, c)
require false s c = err wasm_parse_exception

unfoldable pub get : Action Body
get s c = ok (s, s, c)

-- A method of op_stack, with its value.
unfoldable pub on_stack : {A : Type 0} → (Tracker → Result (A × Tracker)) → Action A
on_stack m s c = elim (m s.op_stack) [
  | ok (a, t) ↦ ok (a, record s { op_stack = t }, c)
  | err e ↦ err e
]

-- A method of op_stack without a value.
unfoldable pub stack : (Tracker → Result Tracker) → Action (Unit {0})
stack m s c = elim (m s.op_stack) [ ok t ↦ ok (tt, record s { op_stack = t }, c) | err e ↦ err e ]

-- A method of code_writer that gives an address.
unfoldable pub on_writer : {A : Type 0} → (Writer → Result (A × Writer)) → Action A
on_writer m s c = elim (m s.writer) [
  | ok (a, w) ↦ ok (a, record s { writer = w }, c)
  | err e ↦ err e
]

-- A method of code_writer without a value.
unfoldable pub writes : (Writer → Result Writer) → Action (Unit {0})
writes m s c = elim (m s.writer) [ ok w ↦ ok (tt, record s { writer = w }, c) | err e ↦ err e ]

abbrev pub emit : ℕ → List ℕ → Action (Unit {0})
emit opcode immediates = writes (append_instr (plain opcode immediates))

-- op_stack.pop of several types, the first one first
unfoldable pub pop_all : Options → List ℕ → Action (Unit {0})
pop_all options [] = pure tt
pop_all options (t ∷ ts) = stack (pop_expected options t) >> pop_all options ts

abbrev pub pushes : Options → ℕ → Action (Unit {0})
pushes options t = stack (push options t)

abbrev pub pops : Options → ℕ → Action (Unit {0})
pops options t = stack (pop_expected options t)

abbrev pub has_none : List PcElement → Bool
has_none [] = true
has_none (x ∷ xs) = false

-- check_in_bounds
unfoldable pub check_in_bounds : Env → Action (Unit {0})
check_in_bounds env = do
  s ← get
  require (not env.options.allow_code_after_function_end || not (has_none s.pc_stack))

-- The element of pc_stack that a label means, `pc_stack[pc_stack.size() - label - 1]`.
unfoldable pub branch_target : ℕ → Action PcElement
branch_target l = do
  s ← get
  require (ltb l (length s.pc_stack))
  lift (or_throw (get_elem? s.pc_stack l) undefined)

unfoldable pub put_pc_stack : List PcElement → Action (Unit {0})
put_pc_stack pcs s c = ok (tt, record s { pc_stack = pcs }, c)

unfoldable pub fix : ℕ → ℕ → Action (Unit {0})
fix address target s c = ok (tt, record s { writer = fix_branch address target s.writer }, c)

abbrev pub add_branch : ℕ → Relocations → Relocations
add_branch address (label target) = label target
add_branch address (branches bs) = branches (bs ++ (address ∷ []))

-- A branch is added to the relocations of the element at a place.
unfoldable pub add_relocation : ℕ → List PcElement → ℕ → List PcElement
add_relocation address [] i = []
add_relocation address (p ∷ ps) zero =
    record p { relocations = add_branch address p.relocations } ∷ ps
add_relocation address (p ∷ ps) (suc i) = p ∷ add_relocation address ps i

-- handle_branch_target(label, address)
unfoldable pub handle_branch_target : ℕ → ℕ → Action (Unit {0})
handle_branch_target l address = do
  p ← branch_target l
  elim p.relocations [
    | label target ↦ fix address target
    | branches bs ↦ (do s ← get; put_pc_stack (add_relocation address s.pc_stack l))
  ]

-- compute_depth_change(label), in 32 bits
unfoldable pub compute_depth_change : Env → ℕ → Action (ℕ × ℕ)
compute_depth_change env l = do
  p ← branch_target l
  s ← get
  (if p.label_result == Ty.pseudo then pure tt else stack (top env.options p.label_result))
  pure ((s.op_stack.operand_depth + 2 ^ 32 - p.operand_depth) % 2 ^ 32, p.label_result)

-- The types that block, loop and if accept, after the option for zero.
unfoldable pub block_type : Env → ℕ → Action ℕ
block_type env t =
    let expected = (if env.options.allow_zero_blocktype && t == 0 then Ty.pseudo else t) in
    do
      require (
          expected == Ty.i32
          || (expected == Ty.i64
              || (expected == Ty.f32
                  || (expected == Ty.f64
                      || ((expected == Ty.v128 && env.options.enable_simd)
                          || expected == Ty.pseudo)))))
      pure expected

-- _nested_checker.on_control(options)
unfoldable pub on_control : Env → Action (Unit {0})
on_control env s c = elim env.options.eosio_max_nested_structures [
  | none ↦ ok (tt, s, c)
  | some l ↦
      if leb ((s.nested + 1) % 2 ^ l.bits) l.limit
      then ok (tt, record s { nested = (s.nested + 1) % 2 ^ l.bits }, c)
      else err wasm_parse_exception
]

-- _nested_checker.on_end(options)
unfoldable pub on_end : Env → Action (Unit {0})
on_end env s c = elim env.options.eosio_max_nested_structures [
  | none ↦ ok (tt, s, c)
  | some l ↦ ok (tt, record s { nested = if s.nested == 0 then 1 else s.nested - 1 }, c)
]

-- The case of a switch whose value is equal, or the default.
unfoldable pub switch : {A : Type 0} → ℕ → List (ℕ × Action A) → Action A → Action A
switch value [] default = default
switch value ((v, m) ∷ cases) default =
    let rest = switch value cases default in if value == v then m else rest
