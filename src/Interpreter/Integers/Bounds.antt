-- ===== src/Interpreter/Integers/Bounds.antt =====
-- Results of the integer operations fit their width.
use eos_vm.Prelude.{
  ℕ, zero, suc, ◌+◌, ◌-◌, ◌*◌, ◌/◌, ◌%◌, ◌^◌, ◌≤◌, ◌<◌, ◌≡◌, ◌≢◌, ◌⊎◌, inl, inr, refl, sym, Bool,
  true, false, ◌&&◌, bit_and, ◌==◌, if◌then◌else◌, Bool-cases, arith,
}
use native.Mathlib.Nat.{mod-lt, mod-le, one-le-pow, div-le_self, div-add-mod, pow-le-pow_right}
use eos_vm.Prelude.Words.{bit_or-lt}
use eos_vm.Prelude.Result.{ok, err, wasm_interpreter_exception}
use eos_vm.Interpreter.Integers.{
  builtin_clz, builtin_ctz, builtin_popcount, clz, ctz, popcnt, is_negative, magnitude, negate,
  div_s, div_u, rem_s, rem_u, shl, shr_u, shr_s, rotl, rotr, extend_s,
}

pow-pos : (w : ℕ) → 0 < 2 ^ w
pow-pos w = one-le-pow w 2 (omega arith)

pub mod_width-lt : (w v : ℕ) → v % 2 ^ w < 2 ^ w
mod_width-lt w v = mod-lt v (pow-pos w)

builtin_clz-le : (w v : ℕ) → builtin_clz w v ≤ w
unfolding builtin_clz
builtin_clz-le zero v = omega arith
builtin_clz-le (suc w) v = ground (arith, builtin_clz-le w v)

builtin_ctz-le : (w v : ℕ) → builtin_ctz w v ≤ w
unfolding builtin_ctz
builtin_ctz-le zero v = omega arith
builtin_ctz-le (suc w) v = ground (arith, builtin_ctz-le w (v / 2))

builtin_popcount-le : (w v : ℕ) → builtin_popcount w v ≤ w
unfolding builtin_popcount
builtin_popcount-le zero v = omega arith
builtin_popcount-le (suc w) v = ground (arith, builtin_popcount-le w (v / 2))

-- The counts of bits are at most the width.
pub counts-le : (w v : ℕ) → (clz w v ≤ w) × (ctz w v ≤ w) × (popcnt w v ≤ w)
unfolding clz ctz popcnt
counts-le w v = (
  ground (arith, builtin_clz-le w v),
  ground (arith, builtin_ctz-le w v),
  builtin_popcount-le w v,
)

if-lt : {n a b : ℕ} (t : Bool) → a < n → b < n → (if t then a else b) < n
if-lt true p q = p
if-lt false p q = q

magnitude-lt : (w v : ℕ) → v < 2 ^ w → magnitude w v < 2 ^ w
unfolding magnitude is_negative
magnitude-lt w v h = ground (arith, pow-pos (w - 1))

negate-lt : (w v : ℕ) → negate w v < 2 ^ w
unfolding negate
negate-lt w v = mod_width-lt w (2 ^ w - v)

quotient-lt : (w lhs rhs : ℕ) → lhs < 2 ^ w → magnitude w lhs / magnitude w rhs < 2 ^ w
quotient-lt w lhs rhs h =
    omega (arith, magnitude-lt w lhs h, div-le_self (magnitude w lhs) (magnitude w rhs))

remainder-lt : (w lhs rhs : ℕ) → lhs < 2 ^ w → magnitude w lhs % magnitude w rhs < 2 ^ w
remainder-lt w lhs rhs h =
    omega (arith, mod-le (magnitude w lhs) (magnitude w rhs), magnitude-lt w lhs h)

-- A signed division throws, or it returns a number of the width.
pub div_s_lem :
    (w lhs rhs : ℕ)
    → lhs < 2 ^ w
    → rhs < 2 ^ w
    → (((rhs ≡ 0) ⊎ ((lhs ≡ 2 ^ (w - 1)) × (rhs ≡ 2 ^ w - 1)))
        × (div_s w lhs rhs ≡ err wasm_interpreter_exception))
      ⊎ ((rhs ≢ 0) × ((q : ℕ) × (div_s w lhs rhs ≡ ok q) × (q < 2 ^ w)))
unfolding div_s
div_s_lem w lhs rhs h k = elim (Bool-cases (rhs == 0)) [
  | inl e ↦ inl (inl (ground (arith, e)), rw e refl)
  | inr e ↦ rw e (elim (Bool-cases (lhs == 2 ^ (w - 1) && rhs == 2 ^ w - 1)) [
    | inl f ↦ inl (inr (ground (arith, f)), rw f refl)
    | inr f ↦
        rw f (inr (ground (arith, e), (_, refl, if-lt _ (quotient-lt w lhs rhs h) (negate-lt w _))))
  ])
]

-- A signed remainder throws, or it returns a number of the width.
pub rem_s_lem :
    (w lhs rhs : ℕ)
    → lhs < 2 ^ w
    → ((rhs ≡ 0) × (rem_s w lhs rhs ≡ err wasm_interpreter_exception))
      ⊎ ((rhs ≢ 0) × ((r : ℕ) × (rem_s w lhs rhs ≡ ok r) × (r < 2 ^ w)))
unfolding rem_s
rem_s_lem w lhs rhs h = elim (Bool-cases (rhs == 0)) [
  | inl e ↦ inl (ground (arith, e), rw e refl)
  | inr e ↦ rw e (
      inr (
        ground (arith, e),
        (_, refl, if-lt _ (pow-pos w) (if-lt _ (negate-lt w _) (remainder-lt w lhs rhs h))),
      ))
]

-- An unsigned division or remainder traps exactly on a zero divisor; elsewhere quotient and remainder
-- are those of the numbers.
pub div_u-rem_u_outcome :
    (w lhs rhs : ℕ)
    → ((rhs ≡ 0)
        × (div_u w lhs rhs ≡ err wasm_interpreter_exception)
        × (rem_u w lhs rhs ≡ err wasm_interpreter_exception))
      ⊎ ((rhs ≢ 0)
          × ((q : ℕ) × (r : ℕ) × (div_u w lhs rhs ≡ ok q)
              × (rem_u w lhs rhs ≡ ok r)
              × (lhs ≡ rhs * q + r)
              × (r < rhs)))
unfolding div_u rem_u
div_u-rem_u_outcome w lhs rhs = elim (Bool-cases (rhs == 0)) [
  | inl e ↦ rw e (inl (ground (arith, e), refl, refl))
  | inr e ↦ rw e (
      inr (
        ground (arith, e),
        (_, _, refl, refl, sym (div-add-mod lhs rhs), mod-lt lhs (ground (arith, e))),
      ))
]

pub shl-lt : (w lhs rhs : ℕ) → shl w lhs rhs < 2 ^ w
unfolding shl
shl-lt w lhs rhs = mod_width-lt w _

pub shr_u-lt : (w lhs rhs : ℕ) → lhs < 2 ^ w → shr_u w lhs rhs < 2 ^ w
unfolding shr_u
shr_u-lt w lhs rhs h = omega (arith, div-le_self lhs (2 ^ bit_and rhs (w - 1)))

pub shr_s-lt : (w lhs rhs : ℕ) → lhs < 2 ^ w → shr_s w lhs rhs < 2 ^ w
unfolding shr_s
shr_s-lt w lhs rhs h = ground (arith, pow-pos w, div-le_self lhs (2 ^ bit_and rhs (w - 1)))

pub rotl-lt : (w lhs rhs : ℕ) → lhs < 2 ^ w → rotl w lhs rhs < 2 ^ w
unfolding rotl
rotl-lt w lhs rhs h = bit_or-lt w _ _ (mod_width-lt w _) (
    omega (
      arith,
      div-le_self lhs (2 ^ bit_and ((2 ^ 32 - bit_and (rhs % 2 ^ 32) (w - 1)) % 2 ^ 32) (w - 1)),
    ))

pub rotr-lt : (w lhs rhs : ℕ) → lhs < 2 ^ w → rotr w lhs rhs < 2 ^ w
unfolding rotr
rotr-lt w lhs rhs h =
    bit_or-lt w _ _ (omega (arith, div-le_self lhs (2 ^ bit_and (rhs % 2 ^ 32) (w - 1))))
      (mod_width-lt w _)

-- A number with its sign extended fits the wider width.
pub extend_s-lt : (n w v : ℕ) → n ≤ w → extend_s n w v < 2 ^ w
unfolding extend_s
extend_s-lt n w v h = ground (arith, mod_width-lt n v, pow-le-pow_right {n = 2} (omega arith) h)
