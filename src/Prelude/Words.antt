-- ===== src/Prelude/Words.antt =====
-- Bitwise operations as arithmetic: fields that do not overlap, low masks, and the width of results.
use Prim.Native.Nat.{
  ℕ, zero, suc, ◌+◌, ◌-◌, ◌*◌, ◌/◌, ◌%◌, ◌^◌, ◌≤◌, ◌<◌, min, max, digits, bitwise, bit_and, bit_or,
  bit_xor, differ, bit_and-bitwise, bit_or-bitwise, bit_xor-bitwise,
}
use mathlib.Core.Path.{◌≡◌, refl, ap}
use mathlib.Core.WellFounded
use native.Mathlib.Nat.{pow-suc, one-le-pow, div-add-mod}
use native.Mathlib.Omega.{arith}
use eos_vm.Prelude.Order.{lt_wf}

-- The native operations stand for a recursion on binary digits with fuel; the fuel does not matter.
module _ (rest : ℕ → ℕ) (bit : ℕ → ℕ → ℕ) where
  enough_fuel :
      (f a b : ℕ) → a ≤ f → (g : ℕ) → a ≤ g → digits rest bit f a b ≡ digits rest bit g a b
  enough_fuel zero zero b h zero k = refl
  enough_fuel zero zero b h (suc g) k = refl
  enough_fuel zero (suc a) b h g k = absurd (omega arith)
  enough_fuel (suc f) zero b h zero k = refl
  enough_fuel (suc f) zero b h (suc g) k = refl
  enough_fuel (suc f) (suc a) b h zero k = absurd (omega arith)
  enough_fuel (suc f) (suc a) b h (suc g) k =
      ap (λ (t : ℕ). t * 2 + bit (suc a % 2) (b % 2))
        (enough_fuel f (suc a / 2) (b / 2) (omega arith) g (omega arith))

  lowest_digit :
      (a b : ℕ)
      → bitwise rest bit (suc a) b
        ≡ bit (suc a % 2) (b % 2) + 2 * bitwise rest bit (suc a / 2) (b / 2)
  lowest_digit a b =
      omega (arith, enough_fuel a (suc a / 2) (b / 2) (omega arith) (suc a / 2) (omega arith))

-- The digits of `x | y` and `x & y`: the lowest one, and twice those above.
pub bit_or_digit : (x y : ℕ) → bit_or x y ≡ max (x % 2) (y % 2) + 2 * bit_or (x / 2) (y / 2)
bit_or_digit zero y = simp bit_or-bitwise (omega arith)
bit_or_digit (suc x) y = simp bit_or-bitwise (lowest_digit (λ d. d) max x y)

pub bit_and_digit : (x y : ℕ) → bit_and x y ≡ min (x % 2) (y % 2) + 2 * bit_and (x / 2) (y / 2)
bit_and_digit zero y = simp bit_and-bitwise (omega arith)
bit_and_digit (suc x) y = simp bit_and-bitwise (lowest_digit (λ d. 0) min x y)

or_zero_step : (x : ℕ) → ((w : ℕ) → w < x → bit_or w 0 ≡ w) → bit_or x 0 ≡ x
or_zero_step zero smaller = refl
or_zero_step (suc x) smaller =
    omega (arith, smaller (suc x / 2) (omega arith), bit_or_digit (suc x) 0)

and_zero_step : (x : ℕ) → ((w : ℕ) → w < x → bit_and w 0 ≡ 0) → bit_and x 0 ≡ 0
and_zero_step zero smaller = refl
and_zero_step (suc x) smaller =
    omega (arith, smaller (suc x / 2) (omega arith), bit_and_digit (suc x) 0)

pub bit_or-zero : (a : ℕ) → bit_or a 0 ≡ a
bit_or-zero a = WellFounded.induction lt_wf {C = λ n. bit_or n 0 ≡ n} a or_zero_step

pub bit_and-zero : (a : ℕ) → bit_and a 0 ≡ 0
bit_and-zero a = WellFounded.induction lt_wf {C = λ n. bit_and n 0 ≡ 0} a and_zero_step

mul_two_pow-suc : (q k : ℕ) → q * 2 ^ suc k ≡ q * 2 ^ k * 2
mul_two_pow-suc q k = omega (arith, ap (λ (t : ℕ). q * t) (pow-suc 2 k))

-- A field of `k` bits below a shifted value: `|` is `+`.
pub bit_or_disjoint : (k q r : ℕ) → r < 2 ^ k → bit_or (q * 2 ^ k) r ≡ q * 2 ^ k + r
bit_or_disjoint zero q r h = ground (arith, bit_or-zero q)
bit_or_disjoint (suc k) q r h = ground (
  arith,
  pow-suc 2 k,
  mul_two_pow-suc q k,
  bit_or_digit (q * 2 ^ suc k) r,
  bit_or_disjoint k q (r / 2) (omega (arith, pow-suc 2 k)),
)

-- `&` with the mask of the `k` lowest bits drops the bits above.
pub bit_and_fields : (k q r : ℕ) → r < 2 ^ k → bit_and (q * 2 ^ k + r) (2 ^ k - 1) ≡ r
bit_and_fields zero q r h = ground (arith, bit_and-zero (q * 1 + r))
bit_and_fields (suc k) q r h = ground (
  arith,
  pow-suc 2 k,
  mul_two_pow-suc q k,
  bit_and_digit (q * 2 ^ suc k + r) (2 ^ suc k - 1),
  bit_and_fields k q (r / 2) (omega (arith, pow-suc 2 k)),
  one-le-pow k 2,
)

pub bit_and_low_mask : (k a : ℕ) → bit_and a (2 ^ k - 1) ≡ a % 2 ^ k
bit_and_low_mask k a =
    ground (arith, one-le-pow k 2, div-add-mod a (2 ^ k), bit_and_fields k (a / 2 ^ k) (a % 2 ^ k))

-- `|` stays inside the width of its operands.
pub bit_or-lt : (k a b : ℕ) → a < 2 ^ k → b < 2 ^ k → bit_or a b < 2 ^ k
bit_or-lt zero zero zero h l = omega arith
bit_or-lt zero zero (suc b) h l = absurd (omega arith)
bit_or-lt zero (suc a) b h l = absurd (omega arith)
bit_or-lt (suc k) a b h l = omega (
  arith,
  pow-suc 2 k,
  bit_or_digit a b,
  bit_or-lt k (a / 2) (b / 2) (omega (arith, pow-suc 2 k)) (omega (arith, pow-suc 2 k)),
)

pub bit_and-lt : (k a b : ℕ) → a < 2 ^ k → b < 2 ^ k → bit_and a b < 2 ^ k
bit_and-lt zero zero b h l = simp bit_and-bitwise (omega arith)
bit_and-lt zero (suc a) b h l = absurd (omega arith)
bit_and-lt (suc k) a b h l = omega (
  arith,
  pow-suc 2 k,
  bit_and_digit a b,
  bit_and-lt k (a / 2) (b / 2) (omega (arith, pow-suc 2 k)) (omega (arith, pow-suc 2 k)),
)

bit_xor_digit : (a b : ℕ) → bit_xor a b ≡ differ (a % 2) (b % 2) + 2 * bit_xor (a / 2) (b / 2)
bit_xor_digit zero b = simp bit_xor-bitwise (omega arith)
bit_xor_digit (suc a) b = simp bit_xor-bitwise (lowest_digit (λ y. y) differ a b)

differ_digits-le : (x y : ℕ) → x ≤ 1 → y ≤ 1 → differ x y ≤ 1
differ_digits-le zero y h l = l
differ_digits-le (suc zero) zero h l = omega arith
differ_digits-le (suc zero) (suc zero) h l = omega arith
differ_digits-le (suc zero) (suc (suc y)) h l = absurd (omega arith)
differ_digits-le (suc (suc x)) y h l = absurd (omega arith)

pub bit_xor-lt : (k a b : ℕ) → a < 2 ^ k → b < 2 ^ k → bit_xor a b < 2 ^ k
bit_xor-lt zero zero zero h l = omega arith
bit_xor-lt zero zero (suc b) h l = absurd (omega arith)
bit_xor-lt zero (suc a) b h l = absurd (omega arith)
bit_xor-lt (suc k) a b h l = omega (
  arith,
  pow-suc 2 k,
  bit_xor_digit a b,
  differ_digits-le (a % 2) (b % 2) (omega arith) (omega arith),
  bit_xor-lt k (a / 2) (b / 2) (omega (arith, pow-suc 2 k)) (omega (arith, pow-suc 2 k)),
)
