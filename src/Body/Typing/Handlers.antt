-- ===== src/Body/Typing/Handlers.antt =====
-- The rows of validation give each opcode on integers the signature of its handler.
use eos_vm.Prelude.{
  ℕ, ◌≡◌, ◌≢◌, refl, List, [], ◌∷◌, ◌++◌, some, ◌==◌, Bool-cases, inl, inr, All, arith,
}
use mathlib.Core.Path.{subst}
use eos_vm.Types.Ty
use eos_vm.Parser.OperandStack.{unreachable_tag, scope_tag, any_type}
use eos_vm.Interpreter.Visitor.{
  op_clz, op_ctz, op_popcnt, op_add, op_sub, op_mul, op_div_s, op_div_u, op_rem_s, op_rem_u, op_and,
  op_or, op_xor, op_shl, op_shr_s, op_shr_u, op_rotl, op_rotr, op_eq, op_ne, op_lt_s, op_lt_u,
  op_le_s, op_le_u, op_gt_s, op_gt_u, op_ge_s, op_ge_u, w32, w64, Instruction,
}
use eos_vm.Interpreter.Visitor.Typing.{
  Signature, eqz_sig, unary_sig, binary_sig, relation_sig, i32_wrap_i64_sig, i64_extend_s_i32_sig,
  i64_extend_u_i32_sig,
}
use eos_vm.Interpreter.Dispatch.{
  relation_handlers, arithmetic_handlers, conversion_handlers, integer_handlers, find_handler,
}
use eos_vm.Body.{Env, switch}
use eos_vm.Body.Tables.{find_row, find_place, numeric_rows}
use eos_vm.Body.Plain.{numeric}
use eos_vm.Body.Vector.{by_place}
use eos_vm.Body.Code.{instruction}

-- A type of operands, and not a tag.
pub record IsValue (t : ℕ) : Type 0 where
  pub not_unreachable : t ≢ unreachable_tag
  pub not_scope : t ≢ scope_tag
  pub not_any : t ≢ any_type
  pub not_pseudo : t ≢ Ty.pseudo

-- The case of an opcode is one of UNOP, BINOP and CASTOP.
abbrev HasCase : ℕ → Type 0
HasCase opcode = (env : Env) (bounds : ℕ) → instruction env bounds opcode ≡ numeric env opcode

-- The row of an opcode with the signature of an instruction.
pub record HasRow (opcode : ℕ) (i : Instruction) : Type 0 where
  pub inputs : List ℕ
  pub output : ℕ
  pub row : find_row numeric_rows opcode ≡ some (inputs, output)
  pub signature : Signature i inputs (output ∷ [])
  pub values : All IsValue inputs
  pub value : IsValue output
  pub case : HasCase opcode

pub i32-IsValue : IsValue Ty.i32
i32-IsValue = record {
  not_unreachable = omega arith;
  not_scope = omega arith;
  not_any = omega arith;
  not_pseudo = omega arith;
}

pub i64-IsValue : IsValue Ty.i64
i64-IsValue = record {
  not_unreachable = omega arith;
  not_scope = omega arith;
  not_any = omega arith;
  not_pseudo = omega arith;
}

module _ {t u opcode : ℕ} {i : Instruction} (v : IsValue t) (w : IsValue u) where
  one :
      find_row numeric_rows opcode ≡ some (t ∷ [], u)
      → Signature i (t ∷ []) (u ∷ [])
      → HasCase opcode
      → HasRow opcode i
  one e s d = record {
    case = d;
    inputs = t ∷ [];
    output = u;
    row = e;
    signature = s;
    values = (v, tt);
    value = w;
  }

  two :
      find_row numeric_rows opcode ≡ some (t ∷ t ∷ [], u)
      → Signature i (t ∷ t ∷ []) (u ∷ [])
      → HasCase opcode
      → HasRow opcode i
  two e s d = record {
    case = d;
    inputs = t ∷ t ∷ [];
    output = u;
    row = e;
    signature = s;
    values = (v, (v, tt));
    value = w;
  }

-- A row for each handler of a list.
infixr 5 ◌&◌
data AllRows : List (ℕ × Instruction) → Type 0 where
  no_rows : AllRows []
  ◌&◌ :
      {op : ℕ} {i : Instruction} {is : List (ℕ × Instruction)}
      → HasRow op i
      → AllRows is
      → AllRows ((op, i) ∷ is)

relation_rows : AllRows relation_handlers
unfolding find_row instruction by_place find_place switch
relation_rows =
    one i32-IsValue i32-IsValue refl (eqz_sig w32) (λ _. λ _. refl)
    & two i32-IsValue i32-IsValue refl (relation_sig w32 op_eq) (λ _. λ _. refl)
    & two i32-IsValue i32-IsValue refl (relation_sig w32 op_ne) (λ _. λ _. refl)
    & two i32-IsValue i32-IsValue refl (relation_sig w32 op_lt_s) (λ _. λ _. refl)
    & two i32-IsValue i32-IsValue refl (relation_sig w32 op_lt_u) (λ _. λ _. refl)
    & two i32-IsValue i32-IsValue refl (relation_sig w32 op_gt_s) (λ _. λ _. refl)
    & two i32-IsValue i32-IsValue refl (relation_sig w32 op_gt_u) (λ _. λ _. refl)
    & two i32-IsValue i32-IsValue refl (relation_sig w32 op_le_s) (λ _. λ _. refl)
    & two i32-IsValue i32-IsValue refl (relation_sig w32 op_le_u) (λ _. λ _. refl)
    & two i32-IsValue i32-IsValue refl (relation_sig w32 op_ge_s) (λ _. λ _. refl)
    & two i32-IsValue i32-IsValue refl (relation_sig w32 op_ge_u) (λ _. λ _. refl)
    & one i64-IsValue i32-IsValue refl (eqz_sig w64) (λ _. λ _. refl)
    & two i64-IsValue i32-IsValue refl (relation_sig w64 op_eq) (λ _. λ _. refl)
    & two i64-IsValue i32-IsValue refl (relation_sig w64 op_ne) (λ _. λ _. refl)
    & two i64-IsValue i32-IsValue refl (relation_sig w64 op_lt_s) (λ _. λ _. refl)
    & two i64-IsValue i32-IsValue refl (relation_sig w64 op_lt_u) (λ _. λ _. refl)
    & two i64-IsValue i32-IsValue refl (relation_sig w64 op_gt_s) (λ _. λ _. refl)
    & two i64-IsValue i32-IsValue refl (relation_sig w64 op_gt_u) (λ _. λ _. refl)
    & two i64-IsValue i32-IsValue refl (relation_sig w64 op_le_s) (λ _. λ _. refl)
    & two i64-IsValue i32-IsValue refl (relation_sig w64 op_le_u) (λ _. λ _. refl)
    & two i64-IsValue i32-IsValue refl (relation_sig w64 op_ge_s) (λ _. λ _. refl)
    & two i64-IsValue i32-IsValue refl (relation_sig w64 op_ge_u) (λ _. λ _. refl)
    & no_rows

arithmetic_rows : AllRows arithmetic_handlers
unfolding find_row instruction by_place find_place switch
arithmetic_rows =
    one i32-IsValue i32-IsValue refl (unary_sig w32 op_clz) (λ _. λ _. refl)
    & one i32-IsValue i32-IsValue refl (unary_sig w32 op_ctz) (λ _. λ _. refl)
    & one i32-IsValue i32-IsValue refl (unary_sig w32 op_popcnt) (λ _. λ _. refl)
    & two i32-IsValue i32-IsValue refl (binary_sig w32 op_add) (λ _. λ _. refl)
    & two i32-IsValue i32-IsValue refl (binary_sig w32 op_sub) (λ _. λ _. refl)
    & two i32-IsValue i32-IsValue refl (binary_sig w32 op_mul) (λ _. λ _. refl)
    & two i32-IsValue i32-IsValue refl (binary_sig w32 op_div_s) (λ _. λ _. refl)
    & two i32-IsValue i32-IsValue refl (binary_sig w32 op_div_u) (λ _. λ _. refl)
    & two i32-IsValue i32-IsValue refl (binary_sig w32 op_rem_s) (λ _. λ _. refl)
    & two i32-IsValue i32-IsValue refl (binary_sig w32 op_rem_u) (λ _. λ _. refl)
    & two i32-IsValue i32-IsValue refl (binary_sig w32 op_and) (λ _. λ _. refl)
    & two i32-IsValue i32-IsValue refl (binary_sig w32 op_or) (λ _. λ _. refl)
    & two i32-IsValue i32-IsValue refl (binary_sig w32 op_xor) (λ _. λ _. refl)
    & two i32-IsValue i32-IsValue refl (binary_sig w32 op_shl) (λ _. λ _. refl)
    & two i32-IsValue i32-IsValue refl (binary_sig w32 op_shr_s) (λ _. λ _. refl)
    & two i32-IsValue i32-IsValue refl (binary_sig w32 op_shr_u) (λ _. λ _. refl)
    & two i32-IsValue i32-IsValue refl (binary_sig w32 op_rotl) (λ _. λ _. refl)
    & two i32-IsValue i32-IsValue refl (binary_sig w32 op_rotr) (λ _. λ _. refl)
    & one i64-IsValue i64-IsValue refl (unary_sig w64 op_clz) (λ _. λ _. refl)
    & one i64-IsValue i64-IsValue refl (unary_sig w64 op_ctz) (λ _. λ _. refl)
    & one i64-IsValue i64-IsValue refl (unary_sig w64 op_popcnt) (λ _. λ _. refl)
    & two i64-IsValue i64-IsValue refl (binary_sig w64 op_add) (λ _. λ _. refl)
    & two i64-IsValue i64-IsValue refl (binary_sig w64 op_sub) (λ _. λ _. refl)
    & two i64-IsValue i64-IsValue refl (binary_sig w64 op_mul) (λ _. λ _. refl)
    & two i64-IsValue i64-IsValue refl (binary_sig w64 op_div_s) (λ _. λ _. refl)
    & two i64-IsValue i64-IsValue refl (binary_sig w64 op_div_u) (λ _. λ _. refl)
    & two i64-IsValue i64-IsValue refl (binary_sig w64 op_rem_s) (λ _. λ _. refl)
    & two i64-IsValue i64-IsValue refl (binary_sig w64 op_rem_u) (λ _. λ _. refl)
    & two i64-IsValue i64-IsValue refl (binary_sig w64 op_and) (λ _. λ _. refl)
    & two i64-IsValue i64-IsValue refl (binary_sig w64 op_or) (λ _. λ _. refl)
    & two i64-IsValue i64-IsValue refl (binary_sig w64 op_xor) (λ _. λ _. refl)
    & two i64-IsValue i64-IsValue refl (binary_sig w64 op_shl) (λ _. λ _. refl)
    & two i64-IsValue i64-IsValue refl (binary_sig w64 op_shr_s) (λ _. λ _. refl)
    & two i64-IsValue i64-IsValue refl (binary_sig w64 op_shr_u) (λ _. λ _. refl)
    & two i64-IsValue i64-IsValue refl (binary_sig w64 op_rotl) (λ _. λ _. refl)
    & two i64-IsValue i64-IsValue refl (binary_sig w64 op_rotr) (λ _. λ _. refl)
    & no_rows

conversion_rows : AllRows conversion_handlers
unfolding find_row instruction by_place find_place switch
conversion_rows =
    one i64-IsValue i32-IsValue refl i32_wrap_i64_sig (λ _. λ _. refl)
    & one i32-IsValue i64-IsValue refl i64_extend_s_i32_sig (λ _. λ _. refl)
    & one i32-IsValue i64-IsValue refl i64_extend_u_i32_sig (λ _. λ _. refl)
    & no_rows

AllRows-append : (is js : List (ℕ × Instruction)) → AllRows is → AllRows js → AllRows (is ++ js)
AllRows-append [] js no_rows q = q
AllRows-append ((op, i) ∷ is) js (r & p) q = r & AllRows-append is js p q

all_rows : AllRows integer_handlers
all_rows =
    AllRows-append relation_handlers (arithmetic_handlers ++ conversion_handlers) relation_rows
      (AllRows-append arithmetic_handlers conversion_handlers arithmetic_rows conversion_rows)

same : {op opcode : ℕ} {i j : Instruction} → op ≡ opcode → j ≡ i → HasRow op j → HasRow opcode i
same {i = i} e d r = subst (λ n. HasRow n i) e (subst (HasRow _) d r)

find-HasRow :
    (is : List (ℕ × Instruction)) (opcode : ℕ) (i : Instruction)
    → AllRows is
    → find_handler is opcode ≡ some i
    → HasRow opcode i
unfolding find_handler
find-HasRow [] opcode i all h = cc
find-HasRow ((op, j) ∷ is) opcode i (first & all) h = elim (Bool-cases (opcode == op)) [
  | inl e ↦ same (ground (arith, e)) (cc (rw e at h)) first
  | inr e ↦ find-HasRow is opcode i all (rw e at h)
]

-- The opcode of a handler has a row, which gives it the types of the handler.
pub handler-HasRow :
    (opcode : ℕ) (i : Instruction) → find_handler integer_handlers opcode ≡ some i → HasRow opcode i
handler-HasRow opcode i h = find-HasRow integer_handlers opcode i all_rows h
