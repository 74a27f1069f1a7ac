-- ===== src/Parser/Primitives.antt =====
-- parser.hpp: fixed-width reads and names.
pub mod Bounds
use eos_vm.Prelude.{
  ℕ, zero, suc, ◌+◌, ◌-◌, ◌*◌, ◌/◌, ◌%◌, ◌^◌, List, [], ◌∷◌, Bool, true, false, ◌&&◌, ◌||◌, bit_and,
  ltb, leb, ◌==◌, if◌then◌else◌,
}
use eos_vm.Prelude.Result.{Result, ok, err, wasm_parse_exception, no_fuel}
use eos_vm.GuardedPtr.{
  GuardedPtr, Read, ◌>>=◌, ◌>>◌, pure, throw, check, lift, load, get, next, advance,
  scoped_shrink_bounds,
}
use eos_vm.Leb128.{parse_varuint32}

-- The `n` bytes at code.raw(), read without a check, as memcpy and the vectors' constructors do.
unfoldable pub raw_bytes : ℕ → ℕ → Read (List ℕ)
raw_bytes zero i = pure []
raw_bytes (suc n) i = do
  c ← get
  b ← lift (load c (c.raw_ptr + i))
  bs ← raw_bytes n (i + 1)
  pure (b ∷ bs)

-- A value in the target's byte order, which is little-endian.
unfoldable pub little_endian : List ℕ → ℕ
little_endian [] = 0
little_endian (b ∷ bs) = b + little_endian bs * 256

-- parse_raw<T>(code), for a T of `n` bytes; parse_v128 is the same for 16 bytes.
unfoldable pub parse_raw : ℕ → Read ℕ
parse_raw n = scoped_shrink_bounds n (do bs ← raw_bytes n 0; advance n; pure (little_endian bs))

unfoldable pub parse_v128 : Read ℕ
parse_v128 = scoped_shrink_bounds 16 (do bs ← raw_bytes 16 0; advance 16; pure (little_endian bs))

-- Subtraction of 32-bit unsigned numbers.
abbrev pub sub_u32 : ℕ → ℕ → ℕ
sub_u32 a b = (a + (2 ^ 32 - b)) % 2 ^ 32

-- (b & 0xC0) == 0x80
abbrev pub is_continuation : ℕ → Bool
is_continuation b = bit_and b 0xC0 == 0x80

-- validate_utf8_code_point(code): the branches on the first byte, with the bytes that follow it.
unfoldable pub code_point_2 : ℕ → Read ℕ
code_point_2 ch = do
  check (bit_and ch 0xC0 == 0xC0) wasm_parse_exception
  b2 ← next
  check (is_continuation b2) wasm_parse_exception
  let code_point = (sub_u32 ch 0xC0 * 2 ^ 6 + sub_u32 b2 0x80) % 2 ^ 32
  check (leb 0x80 code_point && ltb code_point 0x800) wasm_parse_exception
  pure 2

unfoldable pub code_point_3 : ℕ → Read ℕ
code_point_3 ch = do
  b2 ← next
  check (is_continuation b2) wasm_parse_exception
  b3 ← next
  check (is_continuation b3) wasm_parse_exception
  let code_point = (sub_u32 ch 0xE0 * 2 ^ 12 + sub_u32 b2 0x80 * 2 ^ 6 + sub_u32 b3 0x80) % 2 ^ 32
  check
      ((leb 0x800 code_point && ltb code_point 0xD800)
        || (leb 0xE000 code_point && ltb code_point 0x10000))
      wasm_parse_exception
  pure 3

unfoldable pub code_point_4 : ℕ → Read ℕ
code_point_4 ch = do
  b2 ← next
  check (is_continuation b2) wasm_parse_exception
  b3 ← next
  check (is_continuation b3) wasm_parse_exception
  b4 ← next
  check (is_continuation b4) wasm_parse_exception
  let code_point =
      (sub_u32 ch 0xF0 * 2 ^ 18
        + sub_u32 b2 0x80 * 2 ^ 12
        + sub_u32 b3 0x80 * 2 ^ 6
        + sub_u32 b4 0x80)
      % 2 ^ 32
  check (leb 0x10000 code_point && ltb code_point 0x110000) wasm_parse_exception
  pure 4

unfoldable pub validate_utf8_code_point : Read ℕ
validate_utf8_code_point = do
  ch ← next
  if ltb ch 0x80
      then pure 1
      else if ltb ch 0xE0
      then code_point_2 ch
      else if ltb ch 0xF0
      then code_point_3 ch
      else if ltb ch 0xF8
      then code_point_4 ch
      else throw wasm_parse_exception

-- validate_utf8_string(code, bytes): the count of bytes left wraps below 0.
unfoldable pub validate_utf8_string : ℕ → ℕ → Read (Unit {0})
validate_utf8_string zero bytes = if bytes == 0 then pure tt else throw no_fuel
validate_utf8_string (suc fuel) bytes =
    let rest = (do n ← validate_utf8_code_point; validate_utf8_string fuel (sub_u32 bytes n)) in
    if bytes == 0 then pure tt else rest

-- parse_utf8_string(code, max_size). A code point takes a byte at least, so `len` rounds are enough.
unfoldable pub parse_utf8_string : ℕ → Read (List ℕ)
parse_utf8_string max_size = do
  len ← parse_varuint32
  check (leb len max_size) wasm_parse_exception
  scoped_shrink_bounds len (do result ← raw_bytes len 0; validate_utf8_string len len; pure result)
