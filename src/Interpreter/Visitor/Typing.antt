-- ===== src/Interpreter/Visitor/Typing.antt =====
-- The signatures that validation gives to the instructions (include/eosio/vm/parser.hpp,
-- parse_function_body_code), and that the handlers keep to them.
use eos_vm.Prelude.{
  ℕ, ◌^◌, ◌≤◌, ◌<◌, ◌≡◌, ◌⊎◌, inl, inr, refl, List, [], ◌∷◌, ◌++◌, Bool, true, false, Bool-cases,
  ◌==◌, arith,
}
use native.Mathlib.Nat.{div-le_self, mod-le}
use eos_vm.Prelude.Words.{bit_and-lt, bit_or-lt, bit_xor-lt}
use eos_vm.Prelude.Result.{Error, Result, ok, err, IsException, ◌>>=◌}
use eos_vm.Types.Ty
use eos_vm.Interpreter.Operand.{
  Operand, i32_const_t, i64_const_t, f32_const_t, f64_const_t, v128_const_t, HasType, to_ui32,
  to_ui64,
}
use eos_vm.Interpreter.Integers.{add, sub, mul, div_u, rem_u}
use eos_vm.Interpreter.Integers.Bounds.{
  mod_width-lt, counts-le, div_s_lem, rem_s_lem, shl-lt, shr_u-lt, shr_s-lt, rotl-lt, rotr-lt,
  extend_s-lt,
}
use eos_vm.Interpreter.Visitor.{
  Unary, op_clz, op_ctz, op_popcnt, Binary, op_add, op_sub, op_mul, op_div_s, op_div_u, op_rem_s,
  op_rem_u, op_and, op_or, op_xor, op_shl, op_shr_s, op_shr_u, op_rotl, op_rotr, Relation, Width,
  w32, w64, Instruction, const, drop, select, eqz, unary, binary, relation, i32_wrap_i64,
  i64_extend_s_i32, i64_extend_u_i32, extend, Context, bits, make, to_ui, run_unary, run_binary,
  of_bool, change_top, change_left, visit,
}

-- The value type of an integer width.
abbrev pub type_of : Width → ℕ
type_of w32 = Ty.i32
type_of w64 = Ty.i64

-- A stack whose operands have the types, top first.
unfoldable pub HasTypes : List Operand → List ℕ → Type 0
HasTypes [] [] = Unit
HasTypes [] (t ∷ ts) = ⊥
HasTypes (o ∷ os) [] = ⊥
HasTypes (o ∷ os) (t ∷ ts) = HasType o t × HasTypes os ts

-- A result that is a number of `w` bits, or an exception.
data Fits (w : ℕ) : Result ℕ → Type 0 where
  fits : {v : ℕ} → v < 2 ^ w → Fits w (ok v)
  traps : {e : Error} → IsException e → Fits w (err e)

-- The width of an integer instruction is that of a type.
wide : (w : Width) → (1 ≤ bits w) × (bits w < 2 ^ bits w)
wide w32 = (omega arith, omega arith)
wide w64 = (omega arith, omega arith)

run_unary-lt : (op : Unary) (w : Width) (v : ℕ) → run_unary op (bits w) v < 2 ^ bits w
unfolding run_unary
run_unary-lt op_clz w v = omega (arith, wide w, counts-le (bits w) v)
run_unary-lt op_ctz w v = omega (arith, wide w, counts-le (bits w) v)
run_unary-lt op_popcnt w v = omega (arith, wide w, counts-le (bits w) v)

run_binary-Fits :
    (op : Binary) (w lhs rhs : ℕ) → lhs < 2 ^ w → rhs < 2 ^ w → Fits w (run_binary op w lhs rhs)
unfolding run_binary add sub mul div_u rem_u
run_binary-Fits op_add w l r h k = fits (mod_width-lt w _)
run_binary-Fits op_sub w l r h k = fits (mod_width-lt w _)
run_binary-Fits op_mul w l r h k = fits (mod_width-lt w _)
run_binary-Fits op_div_s w l r h k = elim (div_s_lem w l r h k) [
  | inl (_, e) ↦ rw e (traps tt)
  | inr (_, (q, e, b)) ↦ rw e (fits b)
]
run_binary-Fits op_div_u w l r h k = elim (Bool-cases (r == 0)) [
  | inl e ↦ rw e (traps tt)
  | inr e ↦ rw e (fits (omega (arith, div-le_self l r)))
]
run_binary-Fits op_rem_s w l r h k = elim (rem_s_lem w l r h) [
  | inl (_, e) ↦ rw e (traps tt)
  | inr (_, (q, e, b)) ↦ rw e (fits b)
]
run_binary-Fits op_rem_u w l r h k = elim (Bool-cases (r == 0)) [
  | inl e ↦ rw e (traps tt)
  | inr e ↦ rw e (fits (omega (arith, mod-le l r)))
]
run_binary-Fits op_and w l r h k = fits (bit_and-lt w l r h k)
run_binary-Fits op_or w l r h k = fits (bit_or-lt w l r h k)
run_binary-Fits op_xor w l r h k = fits (bit_xor-lt w l r h k)
run_binary-Fits op_shl w l r h k = fits (shl-lt w l r)
run_binary-Fits op_shr_s w l r h k = fits (shr_s-lt w l r h)
run_binary-Fits op_shr_u w l r h k = fits (shr_u-lt w l r h)
run_binary-Fits op_rotl w l r h k = fits (rotl-lt w l r h)
run_binary-Fits op_rotr w l r h k = fits (rotr-lt w l r h)

-- The instructions with a fixed signature that leave the memory alone: what they pop, top first, and
-- what they push.
pub data Signature : Instruction → List ℕ → List ℕ → Type 0 where
  const_sig : (o : Operand) (t : ℕ) → HasType o t → Signature (const o) [] (t ∷ [])
  drop_sig : (t : ℕ) → Signature drop (t ∷ []) []
  select_sig : (t : ℕ) → Signature select (Ty.i32 ∷ t ∷ t ∷ []) (t ∷ [])
  eqz_sig : (w : Width) → Signature (eqz w) (type_of w ∷ []) (Ty.i32 ∷ [])
  unary_sig : (w : Width) (op : Unary) → Signature (unary w op) (type_of w ∷ []) (type_of w ∷ [])
  binary_sig :
      (w : Width) (op : Binary)
      → Signature (binary w op) (type_of w ∷ type_of w ∷ []) (type_of w ∷ [])
  relation_sig :
      (w : Width) (op : Relation)
      → Signature (relation w op) (type_of w ∷ type_of w ∷ []) (Ty.i32 ∷ [])
  i32_wrap_i64_sig : Signature i32_wrap_i64 (Ty.i64 ∷ []) (Ty.i32 ∷ [])
  i64_extend_s_i32_sig : Signature i64_extend_s_i32 (Ty.i32 ∷ []) (Ty.i64 ∷ [])
  i64_extend_u_i32_sig : Signature i64_extend_u_i32 (Ty.i32 ∷ []) (Ty.i64 ∷ [])
  extend_sig :
      (w : Width) (n : ℕ) → n ≤ bits w → Signature (extend w n) (type_of w ∷ []) (type_of w ∷ [])

-- What a handler does on a typed stack: it returns a stack of the types `ts`, with the rest of the
-- context as it was, or it throws.
pub data Step (ts : List ℕ) (c : Context) : Result Context → Type 0 where
  steps : {os : List Operand} → HasTypes os ts → Step ts c (ok (record c { os = os }))
  throws : {e : Error} → IsException e → Step ts c (err e)

-- An operand of an integer type holds a number of that width.
HasType-make : (w : Width) (v : ℕ) → v < 2 ^ bits w → HasType (make w v) (type_of w)
unfolding HasType
HasType-make w32 v h = (refl, h)
HasType-make w64 v h = (refl, h)

to_ui-HasType :
    (w : Width) (o : Operand)
    → HasType o (type_of w)
    → (v : ℕ) × (to_ui w o ≡ ok v) × (v < 2 ^ bits w)
unfolding HasType to_ui32 to_ui64
to_ui-HasType w32 (i32_const_t v) (e, h) = (v, refl, h)
to_ui-HasType w32 (i64_const_t v) (e, h) = absurd (omega (arith, e))
to_ui-HasType w32 (f32_const_t v) (e, h) = absurd (omega (arith, e))
to_ui-HasType w32 (f64_const_t v) (e, h) = absurd (omega (arith, e))
to_ui-HasType w32 (v128_const_t v) (e, h) = absurd (omega (arith, e))
to_ui-HasType w64 (i32_const_t v) (e, h) = absurd (omega (arith, e))
to_ui-HasType w64 (i64_const_t v) (e, h) = (v, refl, h)
to_ui-HasType w64 (f32_const_t v) (e, h) = absurd (omega (arith, e))
to_ui-HasType w64 (f64_const_t v) (e, h) = absurd (omega (arith, e))
to_ui-HasType w64 (v128_const_t v) (e, h) = absurd (omega (arith, e))

HasType-of_bool : (b : Bool) → HasType (i32_const_t (of_bool b)) Ty.i32
unfolding HasType
HasType-of_bool true = (refl, omega arith)
HasType-of_bool false = (refl, omega arith)

-- A handler of the top of the stack, by what it does to an operand of the type.
change_top-Step :
    (f : Operand → Result Operand) (t u : ℕ) (ts : List ℕ) (c : Context)
    → HasTypes c.os (t ∷ ts)
    → ((o : Operand) → HasType o t → (o' : Operand) × (f o ≡ ok o') × HasType o' u)
    → Step (u ∷ ts) c (change_top f c)
unfolding change_top HasTypes
change_top-Step f t u ts c h p = go c.os refl h
  where
    go : (os : List Operand) → c.os ≡ os → HasTypes os (t ∷ ts) → Step (u ∷ ts) c (change_top f c)
    go [] e h = absurd h
    go (o ∷ os) e (h, hs) = let (o', d, q) = p o h in rw (e, d) (steps (q, hs))

-- A handler of two operands of an integer type.
change_left-Step :
    (w : Width) (f : ℕ → ℕ → Result Operand) (u : ℕ) (ts : List ℕ) (c : Context)
    → HasTypes c.os (type_of w ∷ type_of w ∷ ts)
    → ((l r : ℕ)
        → l < 2 ^ bits w
        → r < 2 ^ bits w
        → ((o : Operand) × (f l r ≡ ok o) × HasType o u)
          ⊎ ((e : Error) × (f l r ≡ err e) × IsException e))
    → Step (u ∷ ts) c (change_left w f c)
unfolding change_left HasTypes
change_left-Step w f u ts c h p = go c.os refl h
  where
    go :
        (os : List Operand)
        → c.os ≡ os
        → HasTypes os (type_of w ∷ type_of w ∷ ts)
        → Step (u ∷ ts) c (change_left w f c)
    go [] e h = absurd h
    go (o ∷ []) e (h, hs) = absurd hs
    go (r ∷ l ∷ os) e (h, (k, hs)) =
        let (rhs, e₁, q₁) = to_ui-HasType w r h in
        let (lhs, e₂, q₂) = to_ui-HasType w l k in
        elim (p lhs rhs q₂ q₁) [
          | inl (o, d, q) ↦ rw (e, e₁, e₂, d) (steps (q, hs))
          | inr (x, d, q) ↦ rw (e, e₁, e₂, d) (throws q)
        ]

binary_value :
    (w : Width) (r : Result ℕ)
    → Fits (bits w) r
    → ((o : Operand) × ((r >>= λ v. ok (make w v)) ≡ ok o) × HasType o (type_of w))
      ⊎ ((e : Error) × ((r >>= λ v. ok (make w v)) ≡ err e) × IsException e)
binary_value w (ok v) (fits h) = inl (make w v, refl, HasType-make w v h)
binary_value w (err e) (traps h) = inr (e, refl, h)

-- An instruction, run on a stack whose top has the types that its signature pops, either returns with
-- the types that it pushes in their place, the rest of the context unchanged, or throws; it never
-- pops an empty stack or reads an operand as another type.
pub visit-Step :
    {i : Instruction} {ins outs : List ℕ} (s : Signature i ins outs) (ts : List ℕ) (c : Context)
    → HasTypes c.os (ins ++ ts)
    → Step (outs ++ ts) c (visit i c)
unfolding visit HasTypes
visit-Step (const_sig o t q) ts c h = steps (q, h)
visit-Step (drop_sig t) ts c h = go c.os refl h
  where
    go : (os : List Operand) → c.os ≡ os → HasTypes os (t ∷ ts) → Step ts c (visit drop c)
    go [] e h = absurd h
    go (o ∷ os) e (h, hs) = rw e (steps hs)
visit-Step (select_sig t) ts c h = go c.os refl h
  where
    go :
        (os : List Operand)
        → c.os ≡ os
        → HasTypes os (Ty.i32 ∷ t ∷ t ∷ ts)
        → Step (t ∷ ts) c (visit select c)
    go [] e h = absurd h
    go (o ∷ []) e (h, hs) = absurd hs
    go (o ∷ p ∷ []) e (h, (k, hs)) = absurd hs
    go (o ∷ p ∷ q ∷ os) e (h, (k, (l, hs))) =
        let (v, d, _) = to_ui-HasType w32 o h in
        elim (Bool-cases (v == 0)) [
          | inl z ↦ rw (e, d, z) (steps (k, hs))
          | inr z ↦ rw (e, d, z) (steps (l, hs))
        ]
visit-Step (eqz_sig w) ts c h =
    change_top-Step _ (type_of w) Ty.i32 ts c h
      λ o q. let (v, e, _) = to_ui-HasType w o q in (_, rw e refl, HasType-of_bool (v == 0))
visit-Step (unary_sig w op) ts c h = change_top-Step _ (type_of w) (type_of w) ts c h λ o q.
    let (v, e, _) = to_ui-HasType w o q in (_, rw e refl, HasType-make w _ (run_unary-lt op w v))
visit-Step (binary_sig w op) ts c h =
    change_left-Step w _ (type_of w) ts c h
      λ l r p q. binary_value w _ (run_binary-Fits op (bits w) l r p q)
visit-Step (relation_sig w op) ts c h =
    change_left-Step w _ Ty.i32 ts c h λ l r p q. inl (_, refl, HasType-of_bool _)
visit-Step i32_wrap_i64_sig ts c h = change_top-Step _ Ty.i64 Ty.i32 ts c h λ o q.
    let (v, e, _) = to_ui-HasType w64 o q in (_, rw e refl, HasType-make w32 _ (mod_width-lt 32 v))
visit-Step i64_extend_s_i32_sig ts c h = change_top-Step _ Ty.i32 Ty.i64 ts c h λ o q.
    let (v, e, _) = to_ui-HasType w32 o q in
    (_, rw e refl, HasType-make w64 _ (extend_s-lt 32 64 v (omega arith)))
visit-Step i64_extend_u_i32_sig ts c h = change_top-Step _ Ty.i32 Ty.i64 ts c h λ o q.
    let (v, e, b) = to_ui-HasType w32 o q in
    (i64_const_t v, rw e refl, HasType-make w64 v (omega (arith, b)))
visit-Step (extend_sig w n l) ts c h = change_top-Step _ (type_of w) (type_of w) ts c h λ o q.
    let (v, e, _) = to_ui-HasType w o q in
    (_, rw e refl, HasType-make w _ (extend_s-lt n (bits w) v l))
