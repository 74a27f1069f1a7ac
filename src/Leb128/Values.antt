-- ===== src/Leb128/Values.antt =====
-- What the reading loop and the conversions return on any input.
use eos_vm.Prelude.{
  ℕ, zero, suc, ◌+◌, ◌-◌, ◌*◌, ◌%◌, ◌^◌, ◌≤◌, ◌<◌, ◌≡◌, List, [], ◌∷◌, Bool, length, All, bit_and,
  ◌==◌, arith,
}
use native.Mathlib.Nat.{pow-suc, one-le-pow}
use eos_vm.Prelude.Bits.{byte_and_7f}
use eos_vm.Prelude.Words.{bit_or_disjoint, bit_or-lt}
use eos_vm.GuardedPtr.Ensures.{
  Ensures, Ensures-bind, Ensures-pure, Ensures-throw, Ensures-if, Ensures-assert, get-Ensures,
  at-Ensures, advance-Ensures,
}
use eos_vm.Leb128.{
  from_code, varuint, varint, join_groups, to_uint32, to_int, parse_varuint1, parse_varuint32,
  parse_varint32, parse_varint64,
}

-- Storage that the loop fills: at least one byte and at most `left`.
pub record IsStorage (left : ℕ) (bs : List ℕ) : Type 0 where
  pub nonempty : 1 ≤ length bs
  pub fits : length bs ≤ left
  pub are_bytes : All (λ b. b < 256) bs

pub from_code-Ensures :
    (last_ok : ℕ → Bool) (left cnt : ℕ) → Ensures (IsStorage left) (from_code last_ok left cnt)
unfolding from_code
from_code-Ensures last_ok zero cnt = Ensures-throw _ tt
from_code-Ensures last_ok (suc left) cnt = Ensures-bind get-Ensures λ c _. Ensures-assert _ tt λ _.
    Ensures-bind (at-Ensures cnt) λ b hb.
      Ensures-if (bit_and b 0x80 == 0)
        (λ _.
          Ensures-assert _ tt
            λ _. Ensures-bind (advance-Ensures _) λ _ _. Ensures-pure _ (omega arith))
        (λ _. Ensures-bind (from_code-Ensures last_ok left (cnt + 1)) λ bs h.
          Ensures-pure _
            (record { nonempty = omega arith; fits = omega arith; are_bytes = (hb, h.are_bytes) }))

-- The number that groups of seven bits spell, lowest group first.
unfoldable pub value : List ℕ → ℕ
value [] = 0
value (b ∷ bs) = value bs * 128 + b % 128

value-lt : (bs : List ℕ) → value bs < 128 ^ length bs
unfolding value
value-lt [] = omega arith
value-lt (b ∷ bs) = ground (arith, value-lt bs, pow-suc 128 (length bs))

-- A type of `w` bits has room for `m` values above seven bits.
abbrev Wraps : ℕ → ℕ → Type 0
Wraps w m =
    (v r : ℕ)
    → r < 128
    → (v % 2 ^ w * 128 % 2 ^ w ≡ v % m * 128) × ((v * 128 + r) % 2 ^ w ≡ v % m * 128 + r)

-- The loop of `to` computes the number modulo 2 ^ w.
module _ (w m : ℕ) (wraps : Wraps w m) where
  join_groups-eq-value : (bs : List ℕ) → All (λ b. b < 256) bs → join_groups w bs ≡ value bs % 2 ^ w
  unfolding join_groups value
  join_groups-eq-value [] h = omega (arith, one-le-pow w 2)
  join_groups-eq-value (b ∷ bs) (hb, hs) =
      let (shifted, joined) = wraps (value bs) (b % 128) (omega arith) in
      ground (
        arith,
        join_groups-eq-value bs hs,
        byte_and_7f b,
        shifted,
        joined,
        bit_or_disjoint 7 (value bs % m) (b % 128),
      )

Wraps-32 : Wraps 32 (2 ^ 25)
Wraps-32 v r h = (omega arith, omega arith)

Wraps-64 : Wraps 64 (2 ^ 57)
Wraps-64 v r h = (omega arith, omega arith)

pub join_groups_32 : (bs : List ℕ) → All (λ b. b < 256) bs → join_groups 32 bs ≡ value bs % 2 ^ 32
join_groups_32 = join_groups-eq-value 32 (2 ^ 25) Wraps-32

pub join_groups_64 : (bs : List ℕ) → All (λ b. b < 256) bs → join_groups 64 bs ≡ value bs % 2 ^ 64
join_groups_64 = join_groups-eq-value 64 (2 ^ 57) Wraps-64

-- From a valid pointer, `parse_varuint32` either throws, or returns a number below 2 ^ 32 and moves the
-- pointer forward within its bounds, leaving buffer and bounds alone.
pub parse_varuint32-Ensures : Ensures (λ v. v < 2 ^ 32) parse_varuint32
unfolding parse_varuint32 varuint to_uint32
parse_varuint32-Ensures =
    Ensures-bind (from_code-Ensures _ _ _)
      λ bs h. Ensures-pure _ (omega (arith, join_groups_32 bs h.are_bytes))

pub parse_varuint1-Ensures : Ensures (λ _. Unit {0}) parse_varuint1
unfolding parse_varuint1 varuint
parse_varuint1-Ensures = Ensures-bind (from_code-Ensures _ _ _) λ bs h. Ensures-pure _ tt

-- The sign bits of a short encoding are those of the width.
to_int_32-lt : (bs : List ℕ) → All (λ b. b < 256) bs → to_int 32 bs < 2 ^ 32
unfolding to_int
to_int_32-lt bs h = ground (
  arith,
  join_groups_32 bs h,
  bit_or-lt 32 ((2 ^ 64 - 1) * 2 ^ (length bs * 7) % 2 ^ 64 % 2 ^ 32) (join_groups 32 bs),
)

to_int_64-lt : (bs : List ℕ) → All (λ b. b < 256) bs → to_int 64 bs < 2 ^ 64
unfolding to_int
to_int_64-lt bs h = ground (
  arith,
  join_groups_64 bs h,
  bit_or-lt 64 ((2 ^ 64 - 1) * 2 ^ (length bs * 7) % 2 ^ 64 % 2 ^ 64) (join_groups 64 bs),
)

-- From a valid pointer, `parse_varint32` either throws, or returns a number below 2 ^ 32, the bits of
-- the signed number, and moves the pointer forward within its bounds, leaving buffer and bounds alone.
pub parse_varint32-Ensures : Ensures (λ v. v < 2 ^ 32) parse_varint32
unfolding parse_varint32 varint
parse_varint32-Ensures =
    Ensures-bind (from_code-Ensures _ _ _) λ bs h. Ensures-pure _ (to_int_32-lt bs h.are_bytes)

-- From a valid pointer, `parse_varint64` either throws, or returns a number below 2 ^ 64, the bits of
-- the signed number, and moves the pointer forward within its bounds, leaving buffer and bounds alone.
pub parse_varint64-Ensures : Ensures (λ v. v < 2 ^ 64) parse_varint64
unfolding parse_varint64 varint
parse_varint64-Ensures =
    Ensures-bind (from_code-Ensures _ _ _) λ bs h. Ensures-pure _ (to_int_64-lt bs h.are_bytes)
