-- ===== src/Interpreter/Integers/Signed.antt =====
-- Signed numbers in two's complement, by their sign and size.
pub mod Values
pub mod Division
use eos_vm.Prelude.{
  ℕ, zero, suc, ◌+◌, ◌-◌, ◌*◌, ◌/◌, ◌%◌, ◌^◌, ◌≤◌, ◌<◌, ◌≡◌, ◌≢◌, ◌⊎◌, inl, inr, refl, sym, ap, ◌∙◌,
  Bool, true, false, not, ◌&&◌, leb, ltb, ◌==◌, if◌then◌else◌, Bool-cases, arith,
}
use mathlib.Core.Path.{subst}
use native.Mathlib.Nat.{
  mod-lt, mod-le, mod-eq_of_lt, div-le_self, div-add-mod, one-le-pow, pow-suc, mod_self, zero-div,
  zero-mod, mul-le-mul_right,
}
use eos_vm.Prelude.Result.{Result, ok, err, wasm_interpreter_exception}
use eos_vm.Interpreter.Integers.{is_negative, magnitude, negate, div_s, rem_s}

-- The `w` bits of a signed number in two's complement, from its sign and its size: a number that is not
-- negative is below 2 ^ (w - 1), and the bits of -m are 2 ^ w - m. Zero has both signs.
pub data IsSigned (w : ℕ) : Bool → ℕ → ℕ → Type 0 where
  positive : {m : ℕ} → m < 2 ^ (w - 1) → IsSigned w false m m
  below_zero : {m v : ℕ} → 0 < m → m ≤ 2 ^ (w - 1) → v + m ≡ 2 ^ w → IsSigned w true m v
  minus_zero : IsSigned w true 0 0

pub double : (w : ℕ) → 0 < w → 2 ^ w ≡ 2 * 2 ^ (w - 1)
double zero h = absurd (omega arith)
double (suc k) h = let e : suc k - 1 ≡ k = omega arith in rw e (omega (arith, pow-suc 2 k))

pub magnitude-eq : (w m v : ℕ) (s : Bool) → 0 < w → IsSigned w s m v → magnitude w v ≡ m
unfolding magnitude is_negative
magnitude-eq w m v s h (positive l) = ground (arith, l)
magnitude-eq w m v s h (below_zero p l e) = ground (arith, p, l, e, double w h)
magnitude-eq w m v s h minus_zero = ground (arith, one-le-pow (w - 1) 2 (omega arith))

pub sign-eq : (w m v : ℕ) (s : Bool) → 0 < w → IsSigned w s m v → 0 < m → is_negative w v ≡ s
unfolding is_negative
sign-eq w m v s h (positive l) p = ground (arith, l)
sign-eq w m v s h (below_zero p l e) q = ground (arith, p, l, e, double w h)
sign-eq w m v s h minus_zero q = absurd (omega (arith, q))

pub negate-IsSigned : (w k : ℕ) → 0 < w → k ≤ 2 ^ (w - 1) → IsSigned w true k (negate w k)
unfolding negate
negate-IsSigned w zero h l =
    let e : (2 ^ w - 0) % 2 ^ w ≡ 0 = ap (λ x. x % 2 ^ w) (omega arith) ∙ mod_self (2 ^ w) in
    rw e minus_zero
negate-IsSigned w (suc k) h l =
    let d = double w h in
    let e : (2 ^ w - suc k) % 2 ^ w ≡ 2 ^ w - suc k = mod-eq_of_lt (omega (arith, l, d)) in
    rw e (below_zero (omega arith) l (omega (arith, l, d)))

pub size-le : (w m v : ℕ) (s : Bool) → IsSigned w s m v → m ≤ 2 ^ (w - 1)
size-le w m v s (positive l) = omega (arith, l)
size-le w m v s (below_zero p l e) = l
size-le w m v s minus_zero = omega arith

pub size-pos : (w m v : ℕ) (s : Bool) → IsSigned w s m v → (v == 0) ≡ false → 0 < m
size-pos w m v s (positive l) h = ground (arith, h)
size-pos w m v s (below_zero p l e) h = p
size-pos w m v s minus_zero h = absurd (ground (arith, h))

pub zero-IsSigned : (w : ℕ) (s : Bool) → IsSigned w s 0 0
zero-IsSigned w true = minus_zero
zero-IsSigned w false = positive (one-le-pow (w - 1) 2 (omega arith))

pub size-lt : (w m v : ℕ) (s : Bool) → IsSigned w s m v → s ≡ false → m < 2 ^ (w - 1)
size-lt w m v s (positive l) e = l
size-lt w m v s (below_zero p l k) e = cc
size-lt w m v s minus_zero e = cc

pub minus_one : (w n v : ℕ) (t : Bool) → 0 < w → IsSigned w t n v → v ≡ 2 ^ w - 1 → n ≡ 1
minus_one w n v t h (positive l) e =
    absurd (omega (arith, l, e, double w h, one-le-pow (w - 1) 2 (omega arith)))
minus_one w n v t h (below_zero p l k) e =
    omega (arith, k, e, double w h, one-le-pow (w - 1) 2 (omega arith))
minus_one w n v t h minus_zero e =
    absurd (omega (arith, e, double w h, one-le-pow (w - 1) 2 (omega arith)))

-- Every number of `w` bits is that of a signed number.
every_IsSigned : (w v : ℕ) → 0 < w → v < 2 ^ w → (s : Bool) × (m : ℕ) × IsSigned w s m v
every_IsSigned w v h l = elim (Bool-cases (ltb v (2 ^ (w - 1)))) [
  | inl e ↦ (false, v, positive (ground (arith, e)))
  | inr e ↦
      let d = double w h in
      (true, 2 ^ w - v, below_zero (omega (arith, l)) (ground (arith, e, d)) (omega (arith, l)))
]
