-- ===== src/Leb128/RoundTrip.antt =====
-- Reading back what the encoder of `varuint<32>` writes.
use eos_vm.Prelude.{
  ℕ, zero, suc, ◌+◌, ◌*◌, ◌/◌, ◌%◌, ◌^◌, ◌≤◌, ◌<◌, ◌≡◌, refl, List, [], ◌∷◌, Bool, true, false,
  length, All, some, get_elem?, bit_and, bit_or, ◌∙◌, inl, inr, ◌==◌, Bool-cases, arith,
}
use native.Mathlib.Nat.{pow-suc, add-zero, zero-add}
use eos_vm.Prelude.Bits.{byte_and_80, byte_or_80, byte_and_70}
use eos_vm.Prelude.Words.{bit_and_low_mask}
use eos_vm.Prelude.Result.{ok}
use eos_vm.GuardedPtr.{GuardedPtr, IsValid, get, at, load, ◌>>=◌, pure, lift}
use eos_vm.GuardedPtr.Ensures.{>>=-ok, advance_ok}
use eos_vm.Leb128.{
  from_code, varuint, parse_varuint32, unsigned_last_ok, from_uint32_loop, from_uint32, to_uint32,
}
use eos_vm.Leb128.Values.{value, join_groups_32}

-- The buffer has these bytes from position `i` on.
abbrev pub Holds : GuardedPtr → ℕ → List ℕ → Type 0
Holds c i [] = Unit {0}
Holds c i (b ∷ bs) = (get_elem? c.bytes i ≡ some b) × Holds c (i + 1) bs

-- Bytes that the reading loop accepts as one number, within `left` bytes.
abbrev pub IsEncoding : (ℕ → Bool) → ℕ → List ℕ → Type 0
IsEncoding last_ok zero bs = ⊥
IsEncoding last_ok (suc left) [] = ⊥
IsEncoding last_ok (suc left) (b ∷ []) =
    ((bit_and b 0x80 == 0) ≡ true) × (left ≡ 0 → last_ok b ≡ true)
IsEncoding last_ok (suc left) (b ∷ d ∷ bs) =
    ((bit_and b 0x80 == 0) ≡ false) × IsEncoding last_ok left (d ∷ bs)

-- The end of the number: the byte passes the loop's tests, and the pointer moves behind it.
from_code_last :
    (last_ok : ℕ → Bool) (left cnt b : ℕ) (c : GuardedPtr)
    → (bit_and b 0x80 == 0) ≡ true
    → (left ≡ 0 → last_ok b ≡ true)
    → get_elem? c.bytes (c.raw_ptr + cnt) ≡ some b
    → c.orig_ptr ≤ c.raw_ptr
    → c.raw_ptr + cnt + 1 ≤ c.bnds
    → from_code last_ok (suc left) cnt c ≡ ok (b ∷ [], record c { raw_ptr = c.raw_ptr + (cnt + 1) })
unfolding from_code get at load lift ◌>>=◌ pure
from_code_last last_ok zero cnt b c top last h o r =
    ground (arith, last refl, advance_ok (cnt + 1) c)
from_code_last last_ok (suc left) cnt b c top last h o r = ground (arith, advance_ok (cnt + 1) c)

-- The loop reads back an encoding that the buffer holds, and moves the pointer behind it.
pub from_code_reads :
    (last_ok : ℕ → Bool) (left cnt : ℕ) (bs : List ℕ) (c : GuardedPtr)
    → IsEncoding last_ok left bs
    → Holds c (c.raw_ptr + cnt) bs
    → c.orig_ptr ≤ c.raw_ptr
    → c.raw_ptr + cnt + length bs ≤ c.bnds
    → from_code last_ok left cnt c ≡ ok (bs, record c { raw_ptr = c.raw_ptr + (cnt + length bs) })
unfolding from_code get at load lift ◌>>=◌ pure
from_code_reads last_ok zero cnt bs c e h o r = absurd e
from_code_reads last_ok (suc left) cnt [] c e h o r = absurd e
from_code_reads last_ok (suc left) cnt (b ∷ []) c (top, last) (h, _) o r =
    from_code_last last_ok left cnt b c top last h o (omega arith)
from_code_reads last_ok (suc left) cnt (b ∷ d ∷ bs) c (top, e) (h, hs) o r =
    ground (arith, from_code_reads last_ok left (cnt + 1) (d ∷ bs) c e)

IsEncoding-cons :
    (last_ok : ℕ → Bool) (left b : ℕ) (bs : List ℕ)
    → (bit_and b 0x80 == 0) ≡ false
    → IsEncoding last_ok left bs
    → IsEncoding last_ok (suc left) (b ∷ bs)
IsEncoding-cons last_ok zero b bs t e = absurd e
IsEncoding-cons last_ok (suc left) b [] t e = absurd e
IsEncoding-cons last_ok (suc left) b (d ∷ bs) t e = (t, e)

-- The two kinds of byte that the encoder writes.
low_group : (v : ℕ) → bit_and v 0x7f ≡ v % 128
low_group v = bit_and_low_mask 7 v

inner_byte : (v : ℕ) → bit_or (bit_and v 0x7f) 0x80 ≡ v % 128 + 128
inner_byte v = ground (arith, low_group v, byte_or_80 (v % 128))

-- The loop of `from(uint32_t)` writes an accepted encoding of every number that fits.
from_uint32_loop-IsEncoding :
    (left v : ℕ)
    → v < 16 * 128 ^ left
    → IsEncoding (unsigned_last_ok 32) (suc left) (from_uint32_loop (suc left) v)
unfolding from_uint32_loop unsigned_last_ok
from_uint32_loop-IsEncoding zero v h =
    let e : (v / 128 == 0) ≡ true = ground arith in
    rw e
      (ground (arith, low_group v, byte_and_80 v), λ _. ground (arith, low_group v, byte_and_70 v))
from_uint32_loop-IsEncoding (suc left) v h = elim (Bool-cases (v / 128 == 0)) [
  | inl e ↦ rw e (ground (arith, low_group v, byte_and_80 v), λ z. absurd (omega arith))
  | inr e ↦ rw e (
      IsEncoding-cons _ _ _ _ (ground (arith, inner_byte v, byte_and_80 (v % 128 + 128)))
        (from_uint32_loop-IsEncoding left (v / 128) (omega (arith, pow-suc 128 left))))
]

value-from_uint32_loop :
    (left v : ℕ) → v < 16 * 128 ^ left → value (from_uint32_loop (suc left) v) ≡ v
unfolding from_uint32_loop value
value-from_uint32_loop zero v h =
    let e : (v / 128 == 0) ≡ true = ground arith in rw e (ground (arith, low_group v))
value-from_uint32_loop (suc left) v h = elim (Bool-cases (v / 128 == 0)) [
  | inl e ↦ rw e (ground (arith, low_group v, byte_and_80 v))
  | inr e ↦
      rw e (ground (arith, inner_byte v, value-from_uint32_loop left (v / 128), pow-suc 128 left))
]

from_uint32_loop-bytes : (left v : ℕ) → All (λ b. b < 256) (from_uint32_loop left v)
unfolding from_uint32_loop
from_uint32_loop-bytes zero v = tt
from_uint32_loop-bytes (suc left) v = elim (Bool-cases (v / 128 == 0)) [
  | inl e ↦ rw e (omega (arith, low_group v), tt)
  | inr e ↦ rw e (omega (arith, inner_byte v), from_uint32_loop-bytes left (v / 128))
]

pub varuint-from_uint32 :
    (v : ℕ) (c : GuardedPtr)
    → v < 2 ^ 32
    → IsValid c
    → Holds c c.raw_ptr (from_uint32 v)
    → c.raw_ptr + length (from_uint32 v) ≤ c.bnds
    → varuint 32 c ≡ ok (from_uint32 v, record c { raw_ptr = c.raw_ptr + length (from_uint32 v) })
unfolding varuint from_uint32
varuint-from_uint32 v c hv valid h r =
    let held : Holds c (c.raw_ptr + 0) (from_uint32_loop 5 v) = rw add-zero h in
    let read =
      from_code_reads (unsigned_last_ok 32) 5 0 (from_uint32_loop 5 v) c
        (from_uint32_loop-IsEncoding 4 v hv) held valid.orig_le (omega arith) in
    rw zero-add at read

to_uint32-from_uint32 : (v : ℕ) → v < 2 ^ 32 → to_uint32 (from_uint32 v) ≡ v
unfolding to_uint32 from_uint32
to_uint32-from_uint32 v hv = omega (
  arith,
  join_groups_32 (from_uint32_loop 5 v) (from_uint32_loop-bytes 5 v),
  value-from_uint32_loop 4 v hv,
)

-- Where the buffer holds, at the pointer and before the bound, what `varuint<32>` writes for a
-- 32-bit number, `parse_varuint32` returns that number and moves the pointer exactly behind it.
pub parse_varuint32-from_uint32 :
    (v : ℕ) (c : GuardedPtr)
    → v < 2 ^ 32
    → IsValid c
    → Holds c c.raw_ptr (from_uint32 v)
    → c.raw_ptr + length (from_uint32 v) ≤ c.bnds
    → parse_varuint32 c ≡ ok (v, record c { raw_ptr = c.raw_ptr + length (from_uint32 v) })
unfolding parse_varuint32 pure
parse_varuint32-from_uint32 v c hv valid h r =
    >>=-ok (varuint 32) _ (varuint-from_uint32 v c hv valid h r) ∙ rw (to_uint32-from_uint32 v hv)
