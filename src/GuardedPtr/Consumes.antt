-- ===== src/GuardedPtr/Consumes.antt =====
-- What scoped_consume_items does around a body.
use eos_vm.Prelude.{
  ℕ, ◌+◌, ◌-◌, ◌≤◌, ◌<◌, ◌≡◌, refl, sym, true, false, leb, leb→le, le→leb, ◌==◌, Bool-cases, inl,
  inr, arith,
}
use mathlib.Core.Path.{subst}
use eos_vm.Prelude.Result.{Error, Result, ok, err, IsException, guarded_ptr_exception}
use eos_vm.GuardedPtr.{
  GuardedPtr, Read, ◌>>=◌, pure, restore_bounds, scoped_shrink_bounds, at_end, scoped_consume_items,
  IsValid,
}
use eos_vm.GuardedPtr.Ensures.{Kept, Outcome, returns, raises, Ensures}

-- The pointer that the body starts with.
abbrev pub within : ℕ → GuardedPtr → GuardedPtr
within n c = record c { bnds = c.raw_ptr + n }

-- What the guard makes of a body `m`: fewer than `n` bytes are left; the body throws; the body stops
-- before it has read the `n` bytes; or it reads all of them.
pub data Consumed {A : Type 0} (Q : A → Type 0) (m : Read A) (n : ℕ) (c : GuardedPtr)
    : Result (A × GuardedPtr) → Type 0 where
  too_short : c.bnds - c.raw_ptr < n → Consumed Q m n c (err guarded_ptr_exception)
  throws :
      {e : Error}
      → n ≤ c.bnds - c.raw_ptr
      → m (within n c) ≡ err e
      → IsException e
      → Consumed Q m n c (err e)
  left_over :
      {a : A} {d : GuardedPtr}
      → n ≤ c.bnds - c.raw_ptr
      → m (within n c) ≡ ok (a, d)
      → d.raw_ptr < c.raw_ptr + n
      → Consumed Q m n c (err guarded_ptr_exception)
  consumes :
      {a : A} {d : GuardedPtr}
      → n ≤ c.bnds - c.raw_ptr
      → m (within n c) ≡ ok (a, d)
      → Q a
      → d.raw_ptr ≡ c.raw_ptr + n
      → Kept c (record d { bnds = c.bnds })
      → Consumed Q m n c (ok (a, record d { bnds = c.bnds }))

module _ {A : Type 0} (m : Read A) (n : ℕ) (c : GuardedPtr) where
  body_throws :
      {e : Error}
      → n ≤ c.bnds - c.raw_ptr
      → m (within n c) ≡ err e
      → scoped_consume_items n m c ≡ err e
  unfolding scoped_consume_items scoped_shrink_bounds ◌>>=◌
  body_throws h f = rw (le→leb _ _ h, restore_bounds, ◌>>=◌, f) refl

  body_stops :
      {a : A} {d : GuardedPtr}
      → n ≤ c.bnds - c.raw_ptr
      → m (within n c) ≡ ok (a, d)
      → (d.raw_ptr == d.bnds) ≡ false
      → scoped_consume_items n m c ≡ err guarded_ptr_exception
  unfolding scoped_consume_items scoped_shrink_bounds ◌>>=◌ at_end
  body_stops h f g = rw (le→leb _ _ h, restore_bounds, ◌>>=◌, f, at_end, g) refl

  body_ends :
      {a : A} {d : GuardedPtr}
      → n ≤ c.bnds - c.raw_ptr
      → m (within n c) ≡ ok (a, d)
      → (d.raw_ptr == d.bnds) ≡ true
      → scoped_consume_items n m c ≡ ok (a, record d { bnds = c.bnds })
  unfolding scoped_consume_items scoped_shrink_bounds ◌>>=◌ at_end pure
  body_ends h f g = rw (le→leb _ _ h, restore_bounds, ◌>>=◌, f, at_end, g) refl

  refuses :
      leb n (c.bnds - c.raw_ptr) ≡ false → scoped_consume_items n m c ≡ err guarded_ptr_exception
  unfolding scoped_consume_items scoped_shrink_bounds
  refuses h = rw h refl

-- From a valid pointer, around a body that ensures its postcondition, scoped_consume_items throws where
-- fewer than `n` bytes are left, where the body throws, and where the body returns before it has read
-- `n` bytes; it returns exactly where the body has read `n` bytes, with the body's value and
-- postcondition, the pointer moved forward by `n`, and the old bounds.
pub scoped_consume_items-Consumed :
    {A : Type 0} {Q : A → Type 0} {m : Read A} (n : ℕ) (c : GuardedPtr)
    → Ensures Q m
    → IsValid c
    → Consumed Q m n c (scoped_consume_items n m c)
scoped_consume_items-Consumed {A} {Q} {m} n c p v = elim (Bool-cases (leb n (c.bnds - c.raw_ptr))) [
  | inr h ↦ subst (Consumed Q m n c) (sym (refuses m n c h)) (too_short (ground (arith, h)))
  | inl h ↦ go (leb→le _ _ h) (m (within n c)) refl (p.run (within n c) (shrunk (leb→le _ _ h)))
]
  where
    shrunk : n ≤ c.bnds - c.raw_ptr → IsValid (within n c)
    shrunk h = record {
      orig_le = v.orig_le;
      raw_le = omega arith;
      bnds_le = omega (arith, h, v.bnds_le, v.raw_le);
      bytes_fit = v.bytes_fit;
    }

    go :
        n ≤ c.bnds - c.raw_ptr
        → (r : Result (A × GuardedPtr)) → m (within n c) ≡ r
        → Outcome Q (within n c) r
        → Consumed Q m n c (scoped_consume_items n m c)
    go h r f (raises x) = subst (Consumed Q m n c) (sym (body_throws m n c h f)) (throws h f x)
    go h r f (returns {a = a} {d = d} q k) = elim (Bool-cases (d.raw_ptr == d.bnds)) [
      | inr g ↦
          subst (Consumed Q m n c) (sym (body_stops m n c h f g))
            (left_over h f (ground (arith, g, k.inside, k.same_bnds)))
      | inl g ↦ subst (Consumed Q m n c) (sym (body_ends m n c h f g)) (
          consumes h f q (ground (arith, g, k.same_bnds)) (record {
            same_bytes = k.same_bytes;
            same_orig = k.same_orig;
            same_bnds = refl;
            forward = k.forward;
            inside = omega (arith, k.inside, h, v.raw_le);
          }))
    ]
