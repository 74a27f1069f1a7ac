-- ===== src/Interpreter/Integers.antt =====
-- interpret_visitor.hpp: the arithmetic of the integer instructions at a width of `w` bits, on the
-- unsigned numbers of the bits. Signed numbers are in two's complement.
pub mod Bounds
pub mod Signed
use eos_vm.Prelude.{
  ℕ, zero, suc, ◌+◌, ◌-◌, ◌*◌, ◌/◌, ◌%◌, ◌^◌, Bool, true, false, not, ◌&&◌, ◌||◌, bit_and, bit_or,
  bit_xor, ltb, leb, ◌==◌, if◌then◌else◌,
}
use eos_vm.Prelude.Result.{Result, ok, err, ◌>>=◌, ◌>>◌, eos_vm_assert, wasm_interpreter_exception}

-- __builtin_clz of the numbers of `w` bits
unfoldable pub builtin_clz : ℕ → ℕ → ℕ
builtin_clz zero v = 0
builtin_clz (suc w) v = let rest = builtin_clz w v in if ltb v (2 ^ w) then suc rest else 0

-- __builtin_ctz
unfoldable pub builtin_ctz : ℕ → ℕ → ℕ
builtin_ctz zero v = 0
builtin_ctz (suc w) v = let rest = builtin_ctz w (v / 2) in if v % 2 == 0 then suc rest else 0

-- __builtin_popcount
unfoldable pub builtin_popcount : ℕ → ℕ → ℕ
builtin_popcount zero v = 0
builtin_popcount (suc w) v = v % 2 + builtin_popcount w (v / 2)

unfoldable pub clz : ℕ → ℕ → ℕ
clz w v = if v == 0 then w else builtin_clz w v

unfoldable pub ctz : ℕ → ℕ → ℕ
ctz w v = if v == 0 then w else builtin_ctz w v

unfoldable pub popcnt : ℕ → ℕ → ℕ
popcnt w v = builtin_popcount w v

unfoldable pub add : ℕ → ℕ → ℕ → ℕ
add w lhs rhs = (lhs + rhs) % 2 ^ w

unfoldable pub sub : ℕ → ℕ → ℕ → ℕ
sub w lhs rhs = (lhs + (2 ^ w - rhs)) % 2 ^ w

unfoldable pub mul : ℕ → ℕ → ℕ → ℕ
mul w lhs rhs = lhs * rhs % 2 ^ w

-- Sign and absolute value of a number in two's complement, and the number with the opposite sign.
unfoldable pub is_negative : ℕ → ℕ → Bool
is_negative w v = leb (2 ^ (w - 1)) v

unfoldable pub magnitude : ℕ → ℕ → ℕ
magnitude w v = if is_negative w v then 2 ^ w - v else v

unfoldable pub negate : ℕ → ℕ → ℕ
negate w v = (2 ^ w - v) % 2 ^ w

-- div_s: the quotient rounds to zero.
unfoldable pub div_s : ℕ → ℕ → ℕ → Result ℕ
div_s w lhs rhs =
    let q = magnitude w lhs / magnitude w rhs in
    let same_sign = if is_negative w lhs then is_negative w rhs else not (is_negative w rhs) in
    do
      eos_vm_assert (not (rhs == 0)) wasm_interpreter_exception
      eos_vm_assert (not (lhs == 2 ^ (w - 1) && rhs == 2 ^ w - 1)) wasm_interpreter_exception
      ok (if same_sign then q else negate w q)

unfoldable pub div_u : ℕ → ℕ → ℕ → Result ℕ
div_u w lhs rhs = do eos_vm_assert (not (rhs == 0)) wasm_interpreter_exception; ok (lhs / rhs)

-- rem_s: the remainder has the sign of the dividend.
unfoldable pub rem_s : ℕ → ℕ → ℕ → Result ℕ
rem_s w lhs rhs =
    let r = magnitude w lhs % magnitude w rhs in
    do
      eos_vm_assert (not (rhs == 0)) wasm_interpreter_exception
      ok (
          if lhs == 2 ^ (w - 1) && rhs == 2 ^ w - 1
          then 0
          else if is_negative w lhs
          then negate w r
          else r)

unfoldable pub rem_u : ℕ → ℕ → ℕ → Result ℕ
rem_u w lhs rhs = do eos_vm_assert (not (rhs == 0)) wasm_interpreter_exception; ok (lhs % rhs)

-- `rhs & mask`, the number of bits of a shift
abbrev pub shift_count : ℕ → ℕ → ℕ
shift_count w rhs = bit_and rhs (w - 1)

unfoldable pub shl : ℕ → ℕ → ℕ → ℕ
shl w lhs rhs = lhs * 2 ^ shift_count w rhs % 2 ^ w

unfoldable pub shr_u : ℕ → ℕ → ℕ → ℕ
shr_u w lhs rhs = lhs / 2 ^ shift_count w rhs

-- The sign fills the bits above.
unfoldable pub shr_s : ℕ → ℕ → ℕ → ℕ
shr_s w lhs rhs =
    if is_negative w lhs
    then 2 ^ w - 1 - (2 ^ w - 1 - lhs) / 2 ^ shift_count w rhs
    else lhs / 2 ^ shift_count w rhs

-- `c` is of 32 bits.
unfoldable pub rotl : ℕ → ℕ → ℕ → ℕ
rotl w lhs rhs =
    let c = bit_and (rhs % 2 ^ 32) (w - 1) in
    let back = bit_and ((2 ^ 32 - c) % 2 ^ 32) (w - 1) in
    bit_or (lhs * 2 ^ c % 2 ^ w) (lhs / 2 ^ back)

unfoldable pub rotr : ℕ → ℕ → ℕ → ℕ
rotr w lhs rhs =
    let c = bit_and (rhs % 2 ^ 32) (w - 1) in
    let back = bit_and ((2 ^ 32 - c) % 2 ^ 32) (w - 1) in
    bit_or (lhs / 2 ^ c) (lhs * 2 ^ back % 2 ^ w)

-- Comparison of signed numbers.
unfoldable pub lt_s : ℕ → ℕ → ℕ → Bool
lt_s w lhs rhs =
    if is_negative w lhs
    then (if is_negative w rhs then ltb lhs rhs else true)
    else if is_negative w rhs
    then false
    else ltb lhs rhs

-- A value of `n` bits, cut from the number, with its sign extended to `w` bits.
unfoldable pub extend_s : ℕ → ℕ → ℕ → ℕ
extend_s n w v = let low = v % 2 ^ n in if is_negative n low then low + (2 ^ w - 2 ^ n) else low
