-- ===== src/GuardedPtr/Inversion.antt =====
-- What a successful read says of its parts.
use eos_vm.Prelude.{ℕ, ◌+◌, ◌<◌, ◌≡◌, refl, Bool, true, false, some, get_elem?, arith}
use eos_vm.Prelude.Result.{Error, Result, ok, err}
use eos_vm.GuardedPtr.{GuardedPtr, Read, ◌>>=◌, ◌>>◌, pure, lift, check, load, next}

pub >>=-inv :
    {A B : Type 0} (m : Read A) (f : A → Read B) {c e : GuardedPtr} {b : B}
    → (m >>= f) c ≡ ok (b, e)
    → (a : A) × (d : GuardedPtr) × (m c ≡ ok (a, d)) × (f a d ≡ ok (b, e))
unfolding ◌>>=◌
>>=-inv {A} {B} m f {c} {e} {b} h = go (m c) refl h
  where
    go :
        (r : Result (A × GuardedPtr))
        → m c ≡ r
        → elim r [ ok (a, d) ↦ f a d | err x ↦ err x ] ≡ ok (b, e)
        → (a : A) × (d : GuardedPtr) × (m c ≡ ok (a, d)) × (f a d ≡ ok (b, e))
    go (ok (a, d)) p q = (a, d, p, q)
    go (err x) p q = cc

pub check-inv :
    {B : Type 0} (t : Bool) (x : Error) (k : Read B) {c e : GuardedPtr} {b : B}
    → (check t x >> k) c ≡ ok (b, e)
    → (t ≡ true) × (k c ≡ ok (b, e))
unfolding ◌>>=◌ lift
check-inv true x k h = (refl, h)
check-inv false x k h = cc

pub pure-inv : {A : Type 0} (a b : A) {c d : GuardedPtr} → pure a c ≡ ok (b, d) → (b ≡ a) × (d ≡ c)
unfolding pure
pure-inv a b h = (cc, cc)

-- A byte that was read stands at the old position, below the bound, and the pointer is behind it.
pub next-inv :
    (c d : GuardedPtr) (b : ℕ)
    → next c ≡ ok (b, d)
    → (get_elem? c.bytes c.raw_ptr ≡ some b)
      × (d ≡ record c { raw_ptr = c.raw_ptr + 1 })
      × (c.raw_ptr < c.bnds)
unfolding next load
next-inv c d b h = (ground arith, ground arith, ground arith)
