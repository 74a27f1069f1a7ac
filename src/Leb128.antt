-- ===== src/Leb128.antt =====
-- include/eosio/vm/leb128.hpp: variable-length integers in groups of seven bits, lowest first. The
-- template parameter N of `varuint<N>` and `varint<N>` is an argument; `storage` is the list of its
-- first `bytes_used` elements. A signed integer of `w` bits is its bit pattern, below 2 ^ w.
pub mod Values
pub mod RoundTrip
use eos_vm.Prelude.{
  ℕ, zero, suc, ◌+◌, ◌-◌, ◌*◌, ◌/◌, ◌%◌, ◌^◌, List, [], ◌∷◌, Bool, true, false, not, ◌&&◌, ◌||◌,
  bit_and, bit_or, ltb, leb, ◌==◌, if◌then◌else◌, length,
}
use eos_vm.Prelude.Result.{wasm_interpreter_exception, wasm_parse_exception}
use eos_vm.GuardedPtr.{
  GuardedPtr, Read, ◌>>=◌, ◌>>◌, pure, throw, check, get, at, advance, offset, bounds,
}

-- bytes_needed<N>()
abbrev pub bytes_needed : ℕ → ℕ
bytes_needed n = if n == 1 || n == 7 then 1 else if n == 32 then 5 else 10

-- N - 7*(bytes_needed<N>()-1): the bits of the value in the last possible byte.
abbrev pub last_bits : ℕ → ℕ
last_bits n = n - 7 * (bytes_needed n - 1)

-- static_cast<uint8_t>(~(uint32_t)0 << last_bits) & 0x7F
abbrev pub unused_mask : ℕ → ℕ
unused_mask n = bit_and ((2 ^ 32 - 1) * 2 ^ last_bits n % 2 ^ 8) 0x7f

-- (mask & storage[cnt]) == 0
unfoldable pub unsigned_last_ok : ℕ → ℕ → Bool
unsigned_last_ok n b = bit_and (unused_mask n) b == 0

-- (mask & storage[cnt]) == expected, where expected repeats the sign bit
unfoldable pub signed_last_ok : ℕ → ℕ → Bool
signed_last_ok n b =
    bit_and (unused_mask n) b
    == (if bit_and b (2 ^ (last_bits n - 1)) == 0 then 0 else unused_mask n)

-- The loop of from( guarded_ptr<uint8_t>& code ). `left` is bytes_needed<N>() - cnt, so the first
-- assertion fails where `left` is 0, and cnt + 1 == bytes_needed<N>() where `left` is 1.
unfoldable pub from_code : (ℕ → Bool) → ℕ → ℕ → Read (List ℕ)
from_code last_ok zero cnt = throw wasm_interpreter_exception
from_code last_ok (suc left) cnt = do
  code ← get
  check (ltb (offset code + cnt) (bounds code)) wasm_interpreter_exception
  b ← at cnt
  let last = do
    check (not (left == 0) || last_ok b) wasm_parse_exception
    advance (cnt + 1)
    pure (b ∷ [])
  let more = do bs ← from_code last_ok left (cnt + 1); pure (b ∷ bs)
  if bit_and b 0x80 == 0 then last else more

-- varuint<N>::from(guarded_ptr<uint8_t>&)
unfoldable pub varuint : ℕ → Read (List ℕ)
varuint n = from_code (unsigned_last_ok n) (bytes_needed n) 0

-- varint<N>::from(guarded_ptr<uint8_t>&)
unfoldable pub varint : ℕ → Read (List ℕ)
varint n = from_code (signed_last_ok n) (bytes_needed n) 0

-- The loops of varuint<32>::to() and of varint<N>::_to<T>(), on a T of `w` bits, from the last byte
-- of the storage to the first.
unfoldable pub join_groups : ℕ → List ℕ → ℕ
join_groups w [] = 0
join_groups w (b ∷ bs) = bit_or (join_groups w bs * 2 ^ 7 % 2 ^ w) (bit_and b 0x7f)

-- varuint<1>::to() and varuint<7>::to() read one byte.
unfoldable pub to_bool : List ℕ → Bool
to_bool [] = false
to_bool (b ∷ bs) = not (b == 0)

unfoldable pub to_uint8 : List ℕ → ℕ
to_uint8 [] = 0
to_uint8 (b ∷ bs) = bit_and b 0x7f

-- varuint<32>::to()
unfoldable pub to_uint32 : List ℕ → ℕ
to_uint32 = join_groups 32

abbrev pub last_byte : List ℕ → ℕ
last_byte [] = 0
last_byte (b ∷ []) = b
last_byte (b ∷ c ∷ bs) = last_byte (c ∷ bs)

-- varint<N>::_to<T>(), for N = 32 and N = 64 with a T of N bits: where the encoding is shorter than
-- the longest one, the bits above it repeat the sign bit of the last group.
unfoldable pub to_int : ℕ → List ℕ → ℕ
to_int n bs =
    let ret = join_groups n bs in
    let shift = length bs * 7 in
    if leb 1 (length bs) && ltb (length bs) (bytes_needed n)
    then (if bit_and (last_byte bs) 0x40 == 0
        then ret
        else bit_or ((2 ^ 64 - 1) * 2 ^ shift % 2 ^ 64 % 2 ^ n) ret)
    else ret

-- varint<7>::to(), as an int8_t's pattern
unfoldable pub to_int8 : List ℕ → ℕ
to_int8 [] = 0
to_int8 (b ∷ bs) =
    if bit_and b 0x40 == 0 then b else bit_or b ((2 ^ 32 - 1) * 2 ^ 7 % 2 ^ 32) % 2 ^ 8

-- varuint<32>::from(uint32_t v), with `left` rounds until bytes_used reaches bytes_needed<32>().
unfoldable pub from_uint32_loop : ℕ → ℕ → List ℕ
from_uint32_loop zero v = []
from_uint32_loop (suc left) v =
    let group = bit_and v 0x7f in
    let rest = from_uint32_loop left (v / 2 ^ 7) in
    if not (v / 2 ^ 7 == 0) then bit_or group 0x80 ∷ rest else group ∷ []

unfoldable pub from_uint32 : ℕ → List ℕ
from_uint32 = from_uint32_loop (bytes_needed 32)

-- v >> 7 on a signed type of `w` bits keeps the sign.
abbrev pub shift_right_7 : ℕ → ℕ → ℕ
shift_right_7 w v = if ltb v (2 ^ (w - 1)) then v / 2 ^ 7 else v / 2 ^ 7 + (2 ^ w - 2 ^ (w - 7))

-- varint<N>::_from<T>(T v), on the pattern of a T of `w` bits.
unfoldable pub from_int_loop : ℕ → ℕ → ℕ → List ℕ
from_int_loop w zero v = []
from_int_loop w (suc left) v =
    let group = bit_and v 0x7f in
    let v' = shift_right_7 w v in
    let rest = from_int_loop w left v' in
    if (v' == 2 ^ w - 1 && not (bit_and group 0x40 == 0)) || (v' == 0 && bit_and group 0x40 == 0)
    then group ∷ []
    else bit_or group 0x80 ∷ rest

unfoldable pub from_int : ℕ → ℕ → List ℕ
from_int n = from_int_loop n (bytes_needed n)

-- parser.hpp: the reads that the parser makes.
unfoldable pub parse_varuint1 : Read Bool
parse_varuint1 = do bs ← varuint 1; pure (to_bool bs)

unfoldable pub parse_varuint7 : Read ℕ
parse_varuint7 = do bs ← varuint 7; pure (to_uint8 bs)

unfoldable pub parse_varuint32 : Read ℕ
parse_varuint32 = do bs ← varuint 32; pure (to_uint32 bs)

unfoldable pub parse_varint7 : Read ℕ
parse_varint7 = do bs ← varint 7; pure (to_int8 bs)

unfoldable pub parse_varint32 : Read ℕ
parse_varint32 = do bs ← varint 32; pure (to_int 32 bs)

unfoldable pub parse_varint64 : Read ℕ
parse_varint64 = do bs ← varint 64; pure (to_int 64 bs)
