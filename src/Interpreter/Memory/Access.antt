-- ===== src/Interpreter/Memory/Access.antt =====
-- Loads see what was stored, and nothing else changes.
use eos_vm.Prelude.{
  ℕ, zero, suc, ◌+◌, ◌*◌, ◌/◌, ◌%◌, ◌^◌, ◌≤◌, ◌<◌, ◌≡◌, ap, sym, ◌⊎◌, inl, inr, refl, true,
  Bool-cases, arith,
}
use native.Mathlib.Nat.{
  pow-succ', one-le-pow, mul_assoc, div-add-mod, mod-lt, mod-eq_of_lt, mul-add-mod_self_left,
}
use mathlib.Core.Path.{◌≡⟨◌⟩◌, ◌∎}
use eos_vm.Prelude.Result.{ok}
use eos_vm.Interpreter.Memory.{
  WasmAllocator, in_pages, read_bytes, write_bytes, read_unaligned, write_unaligned,
}

-- A write changes no byte outside its range.
write_bytes_outside :
    (raw : ℕ → ℕ) (addr size value i : ℕ)
    → (i < addr) ⊎ (addr + size ≤ i)
    → write_bytes raw addr size value i ≡ raw i
unfolding write_bytes
write_bytes_outside raw addr zero value i h = refl
write_bytes_outside raw addr (suc size) value i h =
    ground (arith, write_bytes_outside raw (addr + 1) size (value / 256) i)

first_byte :
    (raw : ℕ → ℕ) (addr size value : ℕ) → write_bytes raw addr (suc size) value addr ≡ value % 256
unfolding write_bytes
first_byte raw addr size value = ground arith

-- Reading depends on the bytes of the range alone.
read_bytes_cong :
    (raw raw' : ℕ → ℕ) (addr size : ℕ)
    → ((i : ℕ) → addr ≤ i → i < addr + size → raw i ≡ raw' i)
    → read_bytes raw addr size ≡ read_bytes raw' addr size
unfolding read_bytes
read_bytes_cong raw raw' addr zero h = refl
read_bytes_cong raw raw' addr (suc size) h = omega (
  arith,
  h addr (omega arith) (omega arith),
  read_bytes_cong raw raw' (addr + 1) size (λ i p q. h i (omega arith) (omega arith)),
)

-- The lowest byte and the rest of a number modulo a power of 256.
mod_digits : (v m : ℕ) → 0 < m → v % (256 * m) ≡ v % 256 + 256 * (v / 256 % m)
mod_digits v m h =
    let q = v / 256 in
    let r = v % 256 + 256 * (q % m) in
    let split : v ≡ 256 * m * (q / m) + r =
      omega (arith, mul_assoc 256 m (q / m), div-add-mod q m) in
    let small : r < 256 * m = omega (arith, mod-lt q h) in
    (v % (256 * m))
    ≡⟨ ap (λ t. t % (256 * m)) split ⟩ ((256 * m * (q / m) + r) % (256 * m))
    ≡⟨ mul-add-mod_self_left (256 * m) (q / m) r ⟩ (r % (256 * m))
    ≡⟨ mod-eq_of_lt small ⟩ r ∎

-- Reading what was written gives the value, cut to the width.
read-write_bytes :
    (raw : ℕ → ℕ) (addr size value : ℕ)
    → read_bytes (write_bytes raw addr size value) addr size ≡ value % 256 ^ size
unfolding read_bytes write_bytes
read-write_bytes raw addr zero value = omega arith
read-write_bytes raw addr (suc size) value =
    let same =
      read_bytes_cong (write_bytes raw addr (suc size) value)
        (write_bytes raw (addr + 1) size (value / 256)) (addr + 1) size
        (λ i p q. ground (arith, write_bytes)) in
    rw
      (
        pow-succ' 256 size,
        first_byte raw addr size value,
        same,
        read-write_bytes raw (addr + 1) size (value / 256),
      )
      (sym (mod_digits value (256 ^ size) (one-le-pow size 256 (omega arith))))

write_unaligned-inv :
    (size addr value : ℕ) (a b : WasmAllocator)
    → write_unaligned size addr value a ≡ ok b
    → (in_pages a addr size ≡ true) × (b ≡ record a { raw = write_bytes a.raw addr size value })
unfolding write_unaligned
write_unaligned-inv size addr value a b h = elim (Bool-cases (in_pages a addr size)) [
  | inl e ↦ (e, ground (arith, h, e))
  | inr e ↦ absurd (ground (arith, h, e))
]

-- A load from the bytes of a store gives the stored value, cut to the width of the access.
pub read-write_unaligned :
    (size addr value : ℕ) (a b : WasmAllocator)
    → write_unaligned size addr value a ≡ ok b
    → read_unaligned size addr b ≡ ok (value % 256 ^ size)
unfolding write_unaligned read_unaligned
read-write_unaligned size addr value a b h =
    let (e, q) = write_unaligned-inv size addr value a b h in
    rw (q, e) (ap ok (read-write_bytes a.raw addr size value))

-- A store changes no load of bytes that it does not touch.
pub read-write_unaligned_apart :
    (size addr value other_size other : ℕ) (a b : WasmAllocator)
    → write_unaligned size addr value a ≡ ok b
    → (other + other_size ≤ addr) ⊎ (addr + size ≤ other)
    → read_unaligned other_size other b ≡ read_unaligned other_size other a
unfolding write_unaligned read_unaligned
read-write_unaligned_apart size addr value other_size other a b h o =
    let (e, q) = write_unaligned-inv size addr value a b h in
    let same =
      read_bytes_cong (write_bytes a.raw addr size value) a.raw other other_size
        (λ i p r. write_bytes_outside a.raw addr size value i (ground (arith, o))) in
    rw (q, same) refl
