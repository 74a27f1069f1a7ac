-- ===== src/Interpreter/Calls/Locals.antt =====
-- What setup_locals pushes.
use eos_vm.Prelude.{
  ℕ, zero, ◌⊎◌, inl, inr, All, arith, suc, ◌≡◌, refl, sym, ap, ◌∙◌, List, [], ◌∷◌, ◌++◌, replicate,
}
use mathlib.Core.Path.{subst}
use mathlib.Core.List.{append-nil, append_assoc}
use eos_vm.Prelude.Result.{Result, ok, ◌>>=◌, >>=-eq-ok, ok-inj}
use eos_vm.Types.{LocalEntry}
use eos_vm.Types.Ty
use eos_vm.Parser.Locals.Lookup.{expand}
use eos_vm.Interpreter.Operand.{
  Operand, i32_const_t, i64_const_t, f32_const_t, f64_const_t, v128_const_t, HasType,
}
use eos_vm.Interpreter.Stack.{Stack}
use eos_vm.Interpreter.Stack.Refinement.{Represents, push_back-Represents}
use eos_vm.Interpreter.Calls.{zero_of, push_zeros, setup_locals}

-- What zero_of gives for all locals in order.
unfoldable zeros : List LocalEntry → Result (List Operand)
zeros [] = ok []
zeros (l ∷ ls) = do z ← zero_of l.type; zs ← zeros ls; ok (replicate l.count z ++ zs)

push_zeros-Represents :
    (fresh z : Operand) (type count : ℕ) (os : Stack Operand) (xs : List Operand)
    → zero_of type ≡ ok z
    → Represents os xs
    → (t : Stack Operand) × (push_zeros fresh type count os ≡ ok t)
      × Represents t (xs ++ replicate count z)
unfolding push_zeros
push_zeros-Represents fresh z type zero os xs e r =
    (os, refl, subst (Represents os) (sym (append-nil xs)) r)
push_zeros-Represents fresh z type (suc count) os xs e r =
    let (os', f, q) = push_back-Represents fresh z os xs r in
    let (t, g, p) = push_zeros-Represents fresh z type count os' (xs ++ (z ∷ [])) e q in
    rw (e, f, g) (t, refl, subst (Represents t) (append_assoc xs (z ∷ []) (replicate count z)) p)

zeros-Represents :
    (fresh : Operand) (ls : List LocalEntry) (zs : List Operand) (os : Stack Operand)
    (xs : List Operand)
    → zeros ls ≡ ok zs
    → Represents os xs
    → (t : Stack Operand) × (setup_locals fresh ls os ≡ ok t) × Represents t (xs ++ zs)
unfolding setup_locals zeros
zeros-Represents fresh [] zs os xs h r =
    (os, refl, subst (Represents os) (sym (append-nil xs) ∙ ap (λ w. xs ++ w) (ok-inj h)) r)
zeros-Represents fresh (l ∷ ls) zs os xs h r =
    let (z, e, h') = >>=-eq-ok (zero_of l.type) _ h in
    let (rest, f, h'') = >>=-eq-ok (zeros ls) _ h' in
    let (os', g, q) = push_zeros-Represents fresh z l.type l.count os xs e r in
    let (t, k, p) = zeros-Represents fresh ls rest os' (xs ++ replicate l.count z) f q in
    rw (g, k)
      (
        t,
        refl,
        subst (Represents t)
            (append_assoc xs (replicate l.count z) rest ∙ ap (λ w. xs ++ w) (ok-inj h'')) p,
      )

-- The number in an operand's bits.
unfoldable pub bits : Operand → ℕ
bits (i32_const_t v) = v
bits (i64_const_t v) = v
bits (f32_const_t v) = v
bits (f64_const_t v) = v
bits (v128_const_t v) = v

-- Operands of the types, in order, all bits of which are 0.
unfoldable pub AreZeros : List Operand → List ℕ → Type 0
AreZeros [] [] = Unit
AreZeros [] (t ∷ ts) = ⊥
AreZeros (o ∷ os) [] = ⊥
AreZeros (o ∷ os) (t ∷ ts) = HasType o t × (bits o ≡ 0) × AreZeros os ts

-- A local has one of the five value types.
abbrev pub IsLocal : LocalEntry → Type 0
IsLocal l =
    (l.type ≡ Ty.i32)
    ⊎ ((l.type ≡ Ty.i64) ⊎ ((l.type ≡ Ty.f32) ⊎ ((l.type ≡ Ty.f64) ⊎ (l.type ≡ Ty.v128))))

-- An operand of a type, with no bit set, that zero_of gives for the type.
abbrev Zeroed : ℕ → Type 0
Zeroed t = (z : Operand) × (zero_of t ≡ ok z) × HasType z t × (bits z ≡ 0)

local-Zeroed : (l : LocalEntry) → IsLocal l → Zeroed l.type
unfolding zero_of HasType bits
local-Zeroed l (inl e) = subst Zeroed (sym e) (i32_const_t 0, refl, (refl, omega arith), refl)
local-Zeroed l (inr (inl e)) = subst Zeroed (sym e) (i64_const_t 0, refl, (refl, omega arith), refl)
local-Zeroed l (inr (inr (inl e))) =
    subst Zeroed (sym e) (f32_const_t 0, refl, (refl, omega arith), refl)
local-Zeroed l (inr (inr (inr (inl e)))) =
    subst Zeroed (sym e) (f64_const_t 0, refl, (refl, omega arith), refl)
local-Zeroed l (inr (inr (inr (inr e)))) =
    subst Zeroed (sym e) (v128_const_t 0, refl, (refl, omega arith), refl)

AreZeros-replicate :
    (count t : ℕ) (z : Operand) (os : List Operand) (ts : List ℕ)
    → HasType z t
    → bits z ≡ 0
    → AreZeros os ts
    → AreZeros (replicate count z ++ os) (replicate count t ++ ts)
unfolding AreZeros
AreZeros-replicate zero t z os ts h e a = a
AreZeros-replicate (suc count) t z os ts h e a = (h, e, AreZeros-replicate count t z os ts h e a)

zeros-AreZeros :
    (ls : List LocalEntry)
    → All IsLocal ls
    → (zs : List Operand) × (zeros ls ≡ ok zs) × AreZeros zs (expand ls)
unfolding zeros AreZeros expand
zeros-AreZeros [] h = ([], refl, tt)
zeros-AreZeros (l ∷ ls) h =
    let (z, e, t, b) = local-Zeroed l h.0 in
    let (zs, f, a) = zeros-AreZeros ls h.1 in
    (
      replicate l.count z ++ zs,
      rw (e, f) refl,
      AreZeros-replicate l.count l.type z zs (expand ls) t b a,
    )

-- Where every local has one of the five value types, setup_locals returns, and it pushes one operand for
-- each local behind the operands that the stack had, in order: each has the type of its local, and no
-- bit of it is set.
pub setup_locals-Represents :
    (fresh : Operand) (ls : List LocalEntry) (os : Stack Operand) (xs : List Operand)
    → All IsLocal ls
    → Represents os xs
    → (t : Stack Operand) × (zs : List Operand) × (setup_locals fresh ls os ≡ ok t)
      × Represents t (xs ++ zs)
      × AreZeros zs (expand ls)
setup_locals-Represents fresh ls os xs h r =
    let (zs, e, a) = zeros-AreZeros ls h in
    let (t, f, q) = zeros-Represents fresh ls zs os xs e r in (t, zs, f, q, a)
