-- ===== src/GuardedPtr.antt =====
-- include/eosio/vm/guarded_ptr.hpp: a pointer into a byte buffer with a checked upper bound. The
-- buffer is a list of bytes, and the three C++ pointers are positions in it. A method that moves
-- the pointer or can throw is a `Read`: it maps the pointer to a value and the moved pointer.
pub mod Ensures
pub mod Buffers
pub mod Consumes
pub mod Inversion
use eos_vm.Prelude.{
  ℕ, ◌+◌, ◌-◌, ◌≤◌, ◌<◌, List, Bool, length, get_elem?, ltb, leb, ◌==◌, All, if◌then◌else◌,
}
use eos_vm.Prelude.Result.{
  Error, Result, ok, err, guarded_ptr_exception, undefined, eos_vm_assert, or_throw,
}

pub record GuardedPtr : Type 0 where
  pub bytes : List ℕ
  pub orig_ptr : ℕ
  pub raw_ptr : ℕ
  pub bnds : ℕ

-- guarded_ptr( T* rp, size_t bnds )
abbrev pub guarded_ptr : List ℕ → ℕ → ℕ → GuardedPtr
guarded_ptr bytes rp n = record { bytes = bytes; orig_ptr = rp; raw_ptr = rp; bnds = rp + n }

abbrev pub Read : Type 0 → Type 0
Read A = GuardedPtr → Result (A × GuardedPtr)

infixl 5 ◌>>=◌ ◌>>◌
unfoldable pub ◌>>=◌ : {A B : Type 0} → Read A → (A → Read B) → Read B
◌>>=◌ m f c = elim (m c) [ ok (a, c') ↦ f a c' | err e ↦ err e ]

abbrev pub ◌>>◌ : {B : Type 0} → Read (Unit {0}) → Read B → Read B
m >> k = m >>= λ _. k

unfoldable pub pure : {A : Type 0} → A → Read A
pure a c = ok (a, c)

unfoldable pub throw : {A : Type 0} → Error → Read A
throw e c = err e

-- A computation that does not touch the pointer.
unfoldable pub lift : {A : Type 0} → Result A → Read A
lift (ok a) c = ok (a, c)
lift (err e) c = err e

abbrev pub check : Bool → Error → Read (Unit {0})
check b e = lift (eos_vm_assert b e)

-- A raw read of the buffer, undefined outside it.
unfoldable pub load : GuardedPtr → ℕ → Result ℕ
load c i = or_throw (get_elem? c.bytes i) undefined

-- operator+=
unfoldable pub advance : ℕ → Read (Unit {0})
advance i c =
    let moved = record c { raw_ptr = c.raw_ptr + i } in
    if leb i (c.bnds - c.raw_ptr) then ok (tt, moved) else err guarded_ptr_exception

-- operator*
unfoldable pub peek : Read ℕ
unfolding load lift
peek c = if ltb c.raw_ptr c.bnds then lift (load c c.raw_ptr) c else err guarded_ptr_exception

-- operator++ (prefix)
unfoldable pub increment : Read (Unit {0})
increment c =
    let moved = record c { raw_ptr = c.raw_ptr + 1 } in
    if ltb c.raw_ptr c.bnds then ok (tt, moved) else err guarded_ptr_exception

-- *code++: the postfix operator asserts that the pointer is below its bound and moves it, and the
-- copy that it returns is read under the same assertion.
unfoldable pub next : Read ℕ
unfolding load lift
next c =
    let moved = record c { raw_ptr = c.raw_ptr + 1 } in
    if ltb c.raw_ptr c.bnds then lift (load c c.raw_ptr) moved else err guarded_ptr_exception

-- at(index), and operator[]
unfoldable pub at : ℕ → Read ℕ
unfolding load lift
at i c =
    if ltb i (c.bnds - c.raw_ptr)
    then lift (load c (c.raw_ptr + i)) c
    else err guarded_ptr_exception

-- offset()
abbrev pub offset : GuardedPtr → ℕ
offset c = c.raw_ptr - c.orig_ptr

-- bounds()
abbrev pub bounds : GuardedPtr → ℕ
bounds c = c.bnds - c.orig_ptr

unfoldable pub get : Read GuardedPtr
get c = ok (c, c)

abbrev pub restore_bounds : {A : Type 0} → ℕ → Read A → Read A
restore_bounds old m c = elim (m c) [ ok (a, d) ↦ ok (a, record d { bnds = old }) | err e ↦ err e ]

-- scoped_shrink_bounds(n), with the code that runs while the guard lives.
unfoldable pub scoped_shrink_bounds : {A : Type 0} → ℕ → Read A → Read A
scoped_shrink_bounds n body c =
    if leb n (c.bnds - c.raw_ptr)
    then restore_bounds c.bnds body (record c { bnds = c.raw_ptr + n })
    else err guarded_ptr_exception

-- What the guard of scoped_consume_items asserts when no exception is in flight.
unfoldable pub at_end : Read (Unit {0})
at_end c = if c.raw_ptr == c.bnds then ok (tt, c) else err guarded_ptr_exception

-- scoped_consume_items(n), with the code that runs while the guard lives.
unfoldable pub scoped_consume_items : {A : Type 0} → ℕ → Read A → Read A
unfolding scoped_shrink_bounds at_end
scoped_consume_items n body = scoped_shrink_bounds n (do a ← body; at_end; pure a)

-- Positions in order, inside a buffer of bytes.
pub record IsValid (c : GuardedPtr) : Type 0 where
  pub orig_le : c.orig_ptr ≤ c.raw_ptr
  pub raw_le : c.raw_ptr ≤ c.bnds
  pub bnds_le : c.bnds ≤ length c.bytes
  pub bytes_fit : All (λ b. b < 256) c.bytes
