-- ===== src/Interpreter/Integers/Signed/Values.antt =====
-- The bits that div_s and rem_s return are those of the signed quotient and remainder.
use eos_vm.Prelude.{
  ℕ, zero, suc, ◌+◌, ◌-◌, ◌*◌, ◌/◌, ◌%◌, ◌^◌, ◌≤◌, ◌<◌, ◌≡◌, ◌⊎◌, inl, inr, refl, sym, ap, ◌∙◌,
  Bool, true, false, not, ◌&&◌, ltb, ◌==◌, if◌then◌else◌, Bool-cases, arith,
}
use mathlib.Core.Path.{subst}
use native.Mathlib.Nat.{
  mod-lt, mod-le, div-le_self, div-add-mod, one-le-pow, mod_self, zero-div, zero-mod,
  mul-le-mul_right,
}
use eos_vm.Interpreter.Integers.{is_negative, magnitude, negate}
use eos_vm.Interpreter.Integers.Signed.{
  IsSigned, positive, below_zero, minus_zero, double, magnitude-eq, sign-eq, negate-IsSigned,
  size-le, size-pos, zero-IsSigned, size-lt, minus_one,
}

-- The quotient of sizes m and n, and its rest: m is n times the quotient and the rest, which is below n.
pub record IsQuotient (m n k rest : ℕ) : Type 0 where
  pub divides : m ≡ n * k + rest
  pub below : rest < n

-- The sign of a quotient: two signs differ.
unfoldable pub opposite : Bool → Bool → Bool
opposite s t = if s then not t else t

-- Each sign for a size that fits it.
with_sign : ℕ → Bool → ℕ → ℕ
with_sign w s k = if s then negate w k else k

with_sign-IsSigned :
    (w k : ℕ) (s : Bool)
    → 0 < w
    → k ≤ 2 ^ (w - 1)
    → (s ≡ false → k < 2 ^ (w - 1))
    → IsSigned w s k (with_sign w s k)
unfolding with_sign
with_sign-IsSigned w k true h l f = negate-IsSigned w k h l
with_sign-IsSigned w k false h l f = positive (f refl)

pub division-IsQuotient : (m n : ℕ) → 0 < n → IsQuotient m n (m / n) (m % n)
division-IsQuotient m n h = record { divides = sym (div-add-mod m n); below = mod-lt m h }

-- A quotient reaches a bound on the dividend only where the divisor is 1.
quotient-lt : (b m n k r : ℕ) → 0 < b → m ≤ b → IsQuotient m n k r → (k < b) ⊎ ((m ≡ b) × (n ≡ 1))
quotient-lt b m zero k r p h q = absurd (omega (arith, q.below))
quotient-lt b m (suc zero) k r p h q = elim (Bool-cases (ltb k b)) [
  | inl e ↦ inl (ground (arith, e))
  | inr e ↦ inr (ground (arith, e, q.divides, q.below, h), refl)
]
quotient-lt b m (suc (suc n)) k r p h q = elim (Bool-cases (ltb k b)) [
  | inl e ↦ inl (ground (arith, e))
  | inr e ↦
      let twice : 2 * k ≤ suc (suc n) * k = mul-le-mul_right k (omega arith) in
      absurd (ground (arith, e, q.divides, twice, h, p))
]

negate_zero : (w : ℕ) → negate w 0 ≡ 0
unfolding negate
negate_zero w = ap (λ x. x % 2 ^ w) (omega arith) ∙ mod_self (2 ^ w)

-- What a division or remainder of zero returns, whatever signs it reads.
zero_either : (w : ℕ) (b u : Bool) → IsSigned w u 0 (if b then 0 else negate w 0)
zero_either w true u = zero-IsSigned w u
zero_either w false u = subst (IsSigned w u 0) (sym (negate_zero w)) (zero-IsSigned w u)

zero_sign : (w : ℕ) (b u : Bool) → IsSigned w u 0 (if b then negate w 0 else 0)
zero_sign w true u = zero_either w false u
zero_sign w false u = zero_either w true u

same_signs :
    (s t : Bool) (x y : ℕ)
    → (if (if s then t else not t) then x else y) ≡ (if opposite s t then y else x)
unfolding opposite
same_signs true true x y = refl
same_signs true false x y = refl
same_signs false true x y = refl
same_signs false false x y = refl

-- What div_s returns where it does not throw.
abbrev pub quotient : ℕ → ℕ → ℕ → ℕ
quotient w lhs rhs =
    let q = magnitude w lhs / magnitude w rhs in
    let same_sign = if is_negative w lhs then is_negative w rhs else not (is_negative w rhs) in
    if same_sign then q else negate w q

-- Only the least number by -1 has a quotient that does not fit.
overflows :
    (w lhs rhs m n : ℕ) (s t : Bool)
    → 0 < w
    → IsSigned w s m lhs
    → IsSigned w t n rhs
    → m ≡ 2 ^ (w - 1)
    → n ≡ 1
    → opposite s t ≡ false
    → (lhs ≡ 2 ^ (w - 1)) × (rhs ≡ 2 ^ w - 1)
unfolding opposite
overflows w lhs rhs m n s t h (positive l) b e f g = absurd (omega (arith, l, e))
overflows w lhs rhs m n s t h minus_zero b e f g =
    absurd (omega (arith, e, one-le-pow (w - 1) 2 (omega arith)))
overflows w lhs rhs m n s t h (below_zero p l k) (positive l') e f g = cc
overflows w lhs rhs m n s t h (below_zero p l k) minus_zero e f g = absurd (omega (arith, f))
overflows w lhs rhs m n s t h (below_zero p l k) (below_zero p' l' k') e f g =
    (omega (arith, k, e, double w h), omega (arith, k', f))

module _ (w lhs rhs m n : ℕ) (s t : Bool) (h : 0 < w) (a : IsSigned w s m lhs)
    (b : IsSigned w t n rhs) where
  fits :
      0 < n
      → (lhs == 2 ^ (w - 1) && rhs == 2 ^ w - 1) ≡ false
      → opposite s t ≡ false
      → m / n < 2 ^ (w - 1)
  fits p g o =
      elim (quotient-lt (2 ^ (w - 1)) m n (m / n) (m % n) (one-le-pow (w - 1) 2 (omega arith))
        (size-le w m lhs s a) (division-IsQuotient m n p)) [
          | inl l ↦ l
          | inr (e, f) ↦
              let (x, y) = overflows w lhs rhs m n s t h a b e f o in
              absurd (ground (arith, g, x, y))
        ]

  pub quotient-IsSigned :
      (rhs == 0) ≡ false
      → (lhs == 2 ^ (w - 1) && rhs == 2 ^ w - 1) ≡ false
      → IsSigned w (opposite s t) (m / n) (quotient w lhs rhs)
  unfolding with_sign
  quotient-IsSigned f g =
      let p = size-pos w n rhs t b f in
      rw (magnitude-eq w m lhs s h a, magnitude-eq w n rhs t h b)
        (elim (Bool-cases (m == 0)) [
          | inl e ↦
              let z : m / n ≡ 0 = ap (λ x. x / n) (ground (arith, e)) ∙ zero-div n in
              rw z (zero_either w _ (opposite s t))
          | inr e ↦
              rw
                (
                  sign-eq w m lhs s h a (ground (arith, e)),
                  sign-eq w n rhs t h b p,
                  same_signs s t (m / n) (negate w (m / n)),
                )
                (with_sign-IsSigned w (m / n) (opposite s t) h
                  (omega (arith, div-le_self m n, size-le w m lhs s a)) (fits p g))
        ])

  -- What rem_s returns where it does not throw.
  pub remainder-IsSigned :
      (rhs == 0) ≡ false
      → IsSigned w s (m % n) (
          if lhs == 2 ^ (w - 1) && rhs == 2 ^ w - 1
          then 0
          else if is_negative w lhs
          then negate w (magnitude w lhs % magnitude w rhs)
          else magnitude w lhs % magnitude w rhs)
  unfolding with_sign
  remainder-IsSigned f =
      let p = size-pos w n rhs t b f in
      elim (Bool-cases (lhs == 2 ^ (w - 1) && rhs == 2 ^ w - 1)) [
        | inl e ↦
            let one = minus_one w n rhs t h b (ground (arith, e)) in
            let z : m % n ≡ 0 = omega (arith, mod-lt m p, one) in rw (e, z) (zero-IsSigned w s)
        | inr e ↦
            rw (e, magnitude-eq w m lhs s h a, magnitude-eq w n rhs t h b)
              (elim (Bool-cases (m == 0)) [
                | inl g ↦
                    let z : m % n ≡ 0 = ap (λ x. x % n) (ground (arith, g)) ∙ zero-mod n in
                    rw z (zero_sign w _ s)
                | inr g ↦ rw (sign-eq w m lhs s h a (ground (arith, g))) (
                    with_sign-IsSigned w (m % n) s h
                      (omega (arith, mod-le m n, size-le w m lhs s a))
                      λ o. omega (arith, mod-le m n, size-lt w m lhs s a o))
              ])
      ]
