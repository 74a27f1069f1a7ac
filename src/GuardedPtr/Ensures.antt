-- ===== src/GuardedPtr/Ensures.antt =====
-- What a read of the pointer guarantees: it only moves forward inside its bounds, it leaves the
-- buffer and the bounds alone, its value satisfies a predicate, and it fails by an exception only.
use eos_vm.Prelude.{
  ℕ, ◌+◌, ◌-◌, ◌≤◌, ◌<◌, ◌≡◌, refl, Bool, true, false, length, get_elem?-some, All-get_elem?, All,
  ltb, ltb→lt, leb, leb→le, ◌==◌, ap, sym, if◌then◌else◌, Bool-cases, arith, inl, inr,
}
use mathlib.Core.Path.{subst}
use eos_vm.Prelude.Result.{Error, Result, ok, err, IsException}
use eos_vm.GuardedPtr.{
  GuardedPtr, Read, ◌>>=◌, ◌>>◌, pure, throw, lift, check, load, advance, peek, increment, next, at,
  get, scoped_shrink_bounds, at_end, scoped_consume_items, IsValid,
}

pub record Kept (c d : GuardedPtr) : Type 0 where
  pub same_bytes : d.bytes ≡ c.bytes
  pub same_orig : d.orig_ptr ≡ c.orig_ptr
  pub same_bnds : d.bnds ≡ c.bnds
  pub forward : c.raw_ptr ≤ d.raw_ptr
  pub inside : d.raw_ptr ≤ c.bnds

pub data Outcome {A : Type 0} (Q : A → Type 0) (c : GuardedPtr)
    : Result (A × GuardedPtr) → Type 0 where
  returns : {a : A} {d : GuardedPtr} → Q a → Kept c d → Outcome Q c (ok (a, d))
  raises : {e : Error} → IsException e → Outcome Q c (err e)

pub record Ensures {A : Type 0} (Q : A → Type 0) (m : Read A) : Type 0 where
  pub run : (c : GuardedPtr) → IsValid c → Outcome Q c (m c)

pub Kept-refl : {c : GuardedPtr} → IsValid c → Kept c c
Kept-refl v = record {
  same_bytes = refl;
  same_orig = refl;
  same_bnds = refl;
  forward = omega arith;
  inside = v.raw_le;
}

pub Kept-trans : {c d e : GuardedPtr} → Kept c d → Kept d e → Kept c e
Kept-trans p q = ground arith

pub Kept-IsValid : {c d : GuardedPtr} → IsValid c → Kept c d → IsValid d
Kept-IsValid v k = record {
  orig_le = omega arith;
  raw_le = omega arith;
  bnds_le = omega (arith, ap (length {0}) k.same_bytes);
  bytes_fit = subst (All (λ b. b < 256)) (sym k.same_bytes) v.bytes_fit;
}

Outcome-bind :
    {A B : Type 0} {Q : A → Type 0} {R : B → Type 0} {c : GuardedPtr} (r : Result (A × GuardedPtr))
    (f : A → Read B)
    → IsValid c
    → Outcome Q c r
    → ((a : A) → Q a → Ensures R (f a))
    → Outcome R c (elim r [ ok (a, d) ↦ f a d | err e ↦ err e ])
Outcome-bind {B = B} {R = R} {c = c} r f v (returns {a = a} {d = d} q k) h =
    extend ((h a q).run d (Kept-IsValid v k))
  where
    extend : {s : Result (B × GuardedPtr)} → Outcome R d s → Outcome R c s
    extend (returns p l) = returns p (Kept-trans k l)
    extend (raises x) = raises x
Outcome-bind r f v (raises x) h = raises x

module _ {A B : Type 0} {Q : A → Type 0} {R : B → Type 0} where
  pub Ensures-bind :
      {m : Read A} {f : A → Read B}
      → Ensures Q m
      → ((a : A) → Q a → Ensures R (f a))
      → Ensures R (m >>= f)
  unfolding ◌>>=◌
  Ensures-bind {m} {f} p h = record { run = λ c v. Outcome-bind (m c) f v (p.run c v) h }

-- A bind after a read whose result is known.
pub >>=-ok :
    {A B : Type 0} (m : Read A) (f : A → Read B) {c d : GuardedPtr} {a : A}
    → m c ≡ ok (a, d)
    → (m >>= f) c ≡ f a d
unfolding ◌>>=◌
>>=-ok m f e = rw (e, ◌>>=◌)

pub Ensures-pure : {A : Type 0} {Q : A → Type 0} (a : A) → Q a → Ensures Q (pure a)
unfolding pure
Ensures-pure a q = record { run = λ c v. returns q (Kept-refl v) }

pub Ensures-throw : {A : Type 0} {Q : A → Type 0} (e : Error) → IsException e → Ensures Q (throw e)
unfolding throw
Ensures-throw e x = record { run = λ c v. raises x }

pub Ensures-lift :
    {A : Type 0} {Q : A → Type 0} (r : Result A)
    → ((a : A) → r ≡ ok a → Q a)
    → ((e : Error) → r ≡ err e → IsException e)
    → Ensures Q (lift r)
unfolding lift
Ensures-lift (ok a) p x = record { run = λ c v. returns (p a refl) (Kept-refl v) }
Ensures-lift (err e) p x = record { run = λ c v. raises (x e refl) }

-- After a check its condition holds.
pub Ensures-check : {b : Bool} (e : Error) → IsException e → Ensures (λ _. b ≡ true) (check b e)
unfolding lift
Ensures-check {b = true} e x = record { run = λ c v. returns refl (Kept-refl v) }
Ensures-check {b = false} e x = record { run = λ c v. raises x }

-- An assertion in front of the rest of the code.
pub Ensures-assert :
    {A : Type 0} {R : A → Type 0} {b : Bool} {k : Read A} (e : Error)
    → IsException e
    → (b ≡ true → Ensures R k)
    → Ensures R (check b e >> k)
Ensures-assert e x h = Ensures-bind (Ensures-check e x) λ _ p. h p

pub Ensures-if :
    {A : Type 0} {Q : A → Type 0} {m n : Read A} (b : Bool)
    → (b ≡ true → Ensures Q m)
    → (b ≡ false → Ensures Q n)
    → Ensures Q (if b then m else n)
Ensures-if true p q = p refl
Ensures-if false p q = q refl

pub Ensures-weaken :
    {A : Type 0} {Q R : A → Type 0} {m : Read A} → Ensures Q m → ((a : A) → Q a → R a) → Ensures R m
Ensures-weaken {A = A} {Q = Q} {R = R} p h = record { run = λ c v. weaken (p.run c v) }
  where
    weaken : {c : GuardedPtr} {r : Result (A × GuardedPtr)} → Outcome Q c r → Outcome R c r
    weaken (returns q k) = returns (h _ q) k
    weaken (raises x) = raises x

pub load_outcome :
    (c : GuardedPtr) (i : ℕ) → IsValid c → i < c.bnds → (b : ℕ) × (load c i ≡ ok b) × (b < 256)
unfolding load
load_outcome c i v h =
    let (b, e) = get_elem?-some c.bytes i (omega (arith, v.bnds_le)) in
    (b, rw e, All-get_elem? (λ b. b < 256) c.bytes i v.bytes_fit e)

pub peek-Ensures : Ensures (λ b. b < 256) peek
unfolding peek
peek-Ensures = record {
  run = λ c v. elim (Bool-cases (ltb c.raw_ptr c.bnds)) [
    | inl h ↦
        let (b, e, q) = load_outcome c c.raw_ptr v (ltb→lt _ _ h) in
        rw (h, e) (returns q (Kept-refl v))
    | inr h ↦ rw h (raises tt)
  ];
}

pub next-Ensures : Ensures (λ b. b < 256) next
unfolding next
next-Ensures = record {
  run = λ c v. elim (Bool-cases (ltb c.raw_ptr c.bnds)) [
    | inl h ↦
        let (b, e, q) = load_outcome c c.raw_ptr v (ltb→lt _ _ h) in
        rw (h, e)
          (returns q (record {
            same_bytes = refl;
            same_orig = refl;
            same_bnds = refl;
            forward = omega arith;
            inside = omega (arith, ltb→lt c.raw_ptr c.bnds h);
          }))
    | inr h ↦ rw h (raises tt)
  ];
}

pub at-Ensures : (i : ℕ) → Ensures (λ b. b < 256) (at i)
unfolding at
at-Ensures i = record {
  run = λ c v. elim (Bool-cases (ltb i (c.bnds - c.raw_ptr))) [
    | inl h ↦
        let l : c.raw_ptr + i < c.bnds = omega (arith, ltb→lt _ _ h) in
        let (b, e, q) = load_outcome c (c.raw_ptr + i) v l in rw (h, e) (returns q (Kept-refl v))
    | inr h ↦ rw h (raises tt)
  ];
}

pub advance-Ensures : (i : ℕ) → Ensures (λ _. Unit {0}) (advance i)
unfolding advance
advance-Ensures i = record {
  run = λ c v. elim (Bool-cases (leb i (c.bnds - c.raw_ptr))) [
    | inl h ↦ rw h (
        returns tt (record {
          same_bytes = refl;
          same_orig = refl;
          same_bnds = refl;
          forward = omega arith;
          inside = omega (arith, leb→le _ _ h, v.raw_le);
        }))
    | inr h ↦ rw h (raises tt)
  ];
}

pub advance_ok :
    (i : ℕ) (c : GuardedPtr)
    → c.raw_ptr + i ≤ c.bnds
    → advance i c ≡ ok (tt, record c { raw_ptr = c.raw_ptr + i })
unfolding advance
advance_ok i c h = ground arith

pub increment-Ensures : Ensures (λ _. Unit {0}) increment
unfolding increment
increment-Ensures = record {
  run = λ c v. elim (Bool-cases (ltb c.raw_ptr c.bnds)) [
    | inl h ↦ rw h (
        returns tt (record {
          same_bytes = refl;
          same_orig = refl;
          same_bnds = refl;
          forward = omega arith;
          inside = omega (arith, ltb→lt c.raw_ptr c.bnds h);
        }))
    | inr h ↦ rw h (raises tt)
  ];
}

pub get-Ensures : Ensures (λ _. Unit {0}) get
unfolding get
get-Ensures = record { run = λ c v. returns tt (Kept-refl v) }

pub at_end-Ensures : Ensures (λ _. Unit {0}) at_end
unfolding at_end
at_end-Ensures = record {
  run = λ c v. elim (Bool-cases (c.raw_ptr == c.bnds)) [
    | inl h ↦ rw h (returns tt (Kept-refl v))
    | inr h ↦ rw h (raises tt)
  ];
}

-- What a body guarantees under shrunk bounds it guarantees under the old ones.
restore-Outcome :
    {A : Type 0} {Q : A → Type 0} (c : GuardedPtr) (n : ℕ) (r : Result (A × GuardedPtr))
    → n ≤ c.bnds - c.raw_ptr
    → IsValid c
    → Outcome Q (record c { bnds = c.raw_ptr + n }) r
    → Outcome Q c (elim r [ ok (a, d) ↦ ok (a, record d { bnds = c.bnds }) | err e ↦ err e ])
restore-Outcome c n r h v (returns q k) = returns q (record {
  same_bytes = k.same_bytes;
  same_orig = k.same_orig;
  same_bnds = refl;
  forward = k.forward;
  inside = omega (arith, k.inside, h, v.raw_le);
})
restore-Outcome c n r h v (raises x) = raises x

-- The same for code that runs with exactly `n` bytes left.
pub record EnsuresWithin {A : Type 0} (n : ℕ) (Q : A → Type 0) (m : Read A) : Type 0 where
  pub run : (c : GuardedPtr) → IsValid c → c.bnds ≡ c.raw_ptr + n → Outcome Q c (m c)

pub Ensures→EnsuresWithin :
    {A : Type 0} {n : ℕ} {Q : A → Type 0} {m : Read A} → Ensures Q m → EnsuresWithin n Q m
Ensures→EnsuresWithin p = record { run = λ c v e. p.run c v }

-- The guard at one pointer: the body runs at a valid pointer with exactly `n` bytes left.
pub scoped_shrink_bounds-Outcome :
    {A : Type 0} {Q : A → Type 0} (m : Read A) (n : ℕ) (c : GuardedPtr)
    → IsValid c
    → (IsValid (record c { bnds = c.raw_ptr + n })
        → Outcome Q (record c { bnds = c.raw_ptr + n }) (m (record c { bnds = c.raw_ptr + n })))
    → Outcome Q c (scoped_shrink_bounds n m c)
unfolding scoped_shrink_bounds
scoped_shrink_bounds-Outcome m n c v p = elim (Bool-cases (leb n (c.bnds - c.raw_ptr))) [
  | inl h ↦ rw h (
      restore-Outcome c n _ (leb→le _ _ h) v (
        p (record {
          orig_le = v.orig_le;
          raw_le = omega arith;
          bnds_le = omega (arith, leb→le _ _ h, v.bnds_le, v.raw_le);
          bytes_fit = v.bytes_fit;
        })))
  | inr h ↦ rw h (raises tt)
]

pub scoped_shrink_bounds-EnsuresWithin :
    {A : Type 0} {Q : A → Type 0} {m : Read A} (n : ℕ)
    → EnsuresWithin n Q m
    → Ensures Q (scoped_shrink_bounds n m)
scoped_shrink_bounds-EnsuresWithin {m} n p = record {
  run = λ c v. scoped_shrink_bounds-Outcome m n c v λ w. p.run _ w refl;
}

module _ {A : Type 0} {Q : A → Type 0} {m : Read A} where
  pub scoped_shrink_bounds-Ensures : (n : ℕ) → Ensures Q m → Ensures Q (scoped_shrink_bounds n m)
  scoped_shrink_bounds-Ensures n p = scoped_shrink_bounds-EnsuresWithin n (Ensures→EnsuresWithin p)

-- Under `scoped_consume_items` a body keeps what it ensures: from a valid pointer it throws, or returns
-- a value with the body's postcondition, the pointer moved forward within the old bounds, which are
-- restored.
pub scoped_consume_items-Ensures :
    {A : Type 0} {Q : A → Type 0} {m : Read A} (n : ℕ)
    → Ensures Q m
    → Ensures Q (scoped_consume_items n m)
unfolding scoped_consume_items
scoped_consume_items-Ensures n p =
    scoped_shrink_bounds-Ensures n
      (Ensures-bind p λ a q. Ensures-bind at_end-Ensures λ _ _. Ensures-pure a q)

-- A bind at one pointer, where the rest of the code relies on what the first part did there.
pub Outcome-bind_at :
    {A B : Type 0} {Q : A → Type 0} {R : B → Type 0} {m : Read A} {f : A → Read B} {c : GuardedPtr}
    → IsValid c
    → Ensures Q m
    → ((a : A) (d : GuardedPtr) → m c ≡ ok (a, d) → Q a → Kept c d → Outcome R d (f a d))
    → Outcome R c ((m >>= f) c)
unfolding ◌>>=◌
Outcome-bind_at {A} {B} {Q} {R} {m} {f} {c} v p h = go (m c) refl (p.run c v)
  where
    extend :
        {d : GuardedPtr} {s : Result (B × GuardedPtr)} → Kept c d → Outcome R d s → Outcome R c s
    extend k (returns q l) = returns q (Kept-trans k l)
    extend k (raises x) = raises x

    go :
        (r : Result (A × GuardedPtr))
        → m c ≡ r
        → Outcome Q c r
        → Outcome R c (elim r [ ok (a, d) ↦ f a d | err e ↦ err e ])
    go r e (returns {a = a} {d = d} q k) = extend k (h a d e q k)
    go r e (raises x) = raises x

pub EnsuresWithin-bind :
    {A B : Type 0} {n : ℕ} {Q : A → Type 0} {R : B → Type 0} {m : Read A} {f : A → Read B}
    → EnsuresWithin n Q m
    → ((a : A) → Q a → Ensures R (f a))
    → EnsuresWithin n R (m >>= f)
unfolding ◌>>=◌
EnsuresWithin-bind {m} {f} p h = record { run = λ c v e. Outcome-bind (m c) f v (p.run c v e) h }

-- Code that goes on with the pointer itself.
pub Outcome-get :
    {A : Type 0} {Q : A → Type 0} (f : GuardedPtr → Read A) (c : GuardedPtr)
    → Outcome Q c (f c c)
    → Outcome Q c ((get >>= f) c)
unfolding get ◌>>=◌
Outcome-get f c p = p
