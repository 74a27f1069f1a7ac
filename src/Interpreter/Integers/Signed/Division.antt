-- ===== src/Interpreter/Integers/Signed/Division.antt =====
-- Signed division and remainder against the division of signed numbers.
use eos_vm.Prelude.{
  ℕ, ◌-◌, ◌/◌, ◌%◌, ◌^◌, ◌<◌, ◌≡◌, ◌≢◌, ◌⊎◌, inl, inr, refl, Bool, ◌&&◌, ◌==◌, Bool-cases, arith,
}
use eos_vm.Prelude.Result.{ok, err, wasm_interpreter_exception}
use eos_vm.Interpreter.Integers.{div_s, rem_s}
use eos_vm.Interpreter.Integers.Signed.{IsSigned, size-pos}
use eos_vm.Interpreter.Integers.Signed.Values.{
  IsQuotient, opposite, division-IsQuotient, quotient, quotient-IsSigned, remainder-IsSigned,
}

-- A signed division of numbers of `w` bits, given with their signs and sizes: it throws exactly where
-- the divisor is zero or the least number is divided by -1; elsewhere it returns the bits of the
-- quotient that is rounded to zero: its size is that of the dividend divided by that of the divisor,
-- and it is negative where the two signs differ.
pub div_s_outcome :
    (w lhs rhs m n : ℕ) (s t : Bool)
    → 0 < w
    → IsSigned w s m lhs
    → IsSigned w t n rhs
    → (((rhs ≡ 0) ⊎ ((lhs ≡ 2 ^ (w - 1)) × (rhs ≡ 2 ^ w - 1)))
        × (div_s w lhs rhs ≡ err wasm_interpreter_exception))
      ⊎ ((rhs ≢ 0)
          × (lhs ≡ 2 ^ (w - 1) → rhs ≢ 2 ^ w - 1)
          × ((q : ℕ) × (k : ℕ) × (rest : ℕ) × (div_s w lhs rhs ≡ ok q)
              × IsSigned w (opposite s t) k q
              × IsQuotient m n k rest))
unfolding div_s
div_s_outcome w lhs rhs m n s t h a b = elim (Bool-cases (rhs == 0)) [
  | inl e ↦ inl (inl (ground (arith, e)), rw e refl)
  | inr e ↦ elim (Bool-cases (lhs == 2 ^ (w - 1) && rhs == 2 ^ w - 1)) [
    | inl f ↦ inl (inr (ground (arith, f)), rw (e, f) refl)
    | inr f ↦ inr (
      ground (arith, e),
      λ x y. ground (arith, f, x, y),
      (
        quotient w lhs rhs,
        m / n,
        m % n,
        rw (e, f) refl,
        quotient-IsSigned w lhs rhs m n s t h a b e f,
        division-IsQuotient m n (size-pos w n rhs t b e),
      ),
    )
  ]
]

-- A signed remainder of numbers of `w` bits, given with their signs and sizes: it throws exactly where
-- the divisor is zero; elsewhere it returns the bits of what the division leaves: its size is the
-- remainder of the sizes, and it has the sign of the dividend.
pub rem_s_outcome :
    (w lhs rhs m n : ℕ) (s t : Bool)
    → 0 < w
    → IsSigned w s m lhs
    → IsSigned w t n rhs
    → ((rhs ≡ 0) × (rem_s w lhs rhs ≡ err wasm_interpreter_exception))
      ⊎ ((rhs ≢ 0)
          × ((r : ℕ) × (k : ℕ) × (rest : ℕ) × (rem_s w lhs rhs ≡ ok r)
              × IsSigned w s rest r
              × IsQuotient m n k rest))
unfolding rem_s
rem_s_outcome w lhs rhs m n s t h a b = elim (Bool-cases (rhs == 0)) [
  | inl e ↦ inl (ground (arith, e), rw e refl)
  | inr e ↦ inr (
    ground (arith, e),
    (
      _,
      m / n,
      m % n,
      rw e refl,
      remainder-IsSigned w lhs rhs m n s t h a b e,
      division-IsQuotient m n (size-pos w n rhs t b e),
    ),
  )
]
