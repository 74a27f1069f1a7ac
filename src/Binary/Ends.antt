-- ===== src/Binary/Ends.antt =====
-- Code on fuel that has enough of it: from a valid pointer into a buffer it throws, or returns a value
-- that satisfies a predicate, with the pointer moved forward inside its bounds.
use eos_vm.Prelude.{
  ℕ, ◌+◌, ◌-◌, ◌≤◌, ◌≡◌, refl, ◌∙◌, List, [], ◌∷◌, some, leb, leb→le, ◌==◌, ==_iff, All, Bool-cases,
  arith, inl, inr,
}
use eos_vm.Prelude.Result.{Error, Result, ok, err}
use eos_vm.GuardedPtr.{GuardedPtr, Read, IsValid}
use eos_vm.GuardedPtr.Ensures.{
  Kept, Kept-refl, Kept-trans, Kept-IsValid, Outcome, returns, raises, Ensures,
}
use eos_vm.GuardedPtr.Buffers.{EnsuresIn, Ensures→EnsuresIn}
use eos_vm.Binary.{Parse, ◌>>=◌, pure, lift, reads, leave, scoped}
use eos_vm.Binary.Fueled
use eos_vm.Binary.Fueled.{Run}
use eos_vm.Binary.Sections.{switch}

pub data Finished {A : Type 0} (Q : A → Type 0) : Run A → Type 0 where
  finished : {a : A} → Q a → Finished Q (some (ok a))
  failed : {e : Error} → Finished Q (some (err e))

pub data Ended {A : Type 0} (Q : A → Type 0) (c : GuardedPtr) : Run (A × GuardedPtr) → Type 0 where
  ended : {a : A} {d : GuardedPtr} → Q a → Kept c d → Ended Q c (some (ok (a, d)))
  threw : {e : Error} → Ended Q c (some (err e))

pub record Ends {A : Type 0} (bytes : List ℕ) (Q : A → Type 0) (m : Parse A) : Type 0 where
  pub run : (c : GuardedPtr) → IsValid c → c.bytes ≡ bytes → Ended Q c (m c)

pub Finished-bind :
    {A B : Type 0} {Q : A → Type 0} {R : B → Type 0} {r : Run A} {f : A → Run B}
    → Finished Q r
    → ((a : A) → Q a → Finished R (f a))
    → Finished R (Fueled.◌>>=◌ r f)
unfolding Fueled.◌>>=◌
Finished-bind (finished {a = a} q) h = h a q
Finished-bind failed h = failed

-- A computation without fuel, with what its result is.
pub Finished-some : {A : Type 0} (r : Result A) → Finished (λ a. r ≡ ok a) (some r)
Finished-some (ok a) = finished refl
Finished-some (err e) = failed

pub Ended-trans :
    {A : Type 0} {Q : A → Type 0} {c d : GuardedPtr} {r : Run (A × GuardedPtr)}
    → Kept c d
    → Ended Q d r
    → Ended Q c r
Ended-trans k (ended q l) = ended q (Kept-trans k l)
Ended-trans k threw = threw

pub Ended-bind :
    {A B : Type 0} {bytes : List ℕ} {Q : A → Type 0} {R : B → Type 0} {c : GuardedPtr}
    {r : Run (A × GuardedPtr)} {f : A → Parse B}
    → IsValid c
    → c.bytes ≡ bytes
    → Ended Q c r
    → ((a : A) → Q a → Ends bytes R (f a))
    → Ended R c (Fueled.◌>>=◌ r (λ (a, d). f a d))
unfolding Fueled.◌>>=◌
Ended-bind v e (ended {a = a} {d = d} q k) h =
    Ended-trans k ((h a q).run d (Kept-IsValid v k) (k.same_bytes ∙ e))
Ended-bind v e threw h = threw

module _ {bytes : List ℕ} where
  pub Ends-bind :
      {A B : Type 0} {Q : A → Type 0} {R : B → Type 0} {m : Parse A} {f : A → Parse B}
      → Ends bytes Q m
      → ((a : A) → Q a → Ends bytes R (f a))
      → Ends bytes R (m >>= f)
  unfolding ◌>>=◌
  Ends-bind p h = record { run = λ c v e. Ended-bind v e (p.run c v e) h }

  pub Ends-pure : {A : Type 0} {Q : A → Type 0} (a : A) → Q a → Ends bytes Q (pure a)
  unfolding pure
  Ends-pure a q = record { run = λ c v e. ended q (Kept-refl v) }

  pub Ends-lift : {A : Type 0} {Q : A → Type 0} {r : Run A} → Finished Q r → Ends bytes Q (lift r)
  unfolding lift Fueled.◌>>=◌
  Ends-lift (finished q) = record { run = λ c v e. ended q (Kept-refl v) }
  Ends-lift failed = record { run = λ c v e. threw }

  pub Ends-reads_in :
      {A : Type 0} {Q : A → Type 0} {m : Read A} → EnsuresIn bytes Q m → Ends bytes Q (reads m)
  unfolding reads
  Ends-reads_in {A} {Q} p = record { run = λ c v e. go (p.run c v e) }
    where
      go : {c : GuardedPtr} {r : Result (A × GuardedPtr)} → Outcome Q c r → Ended Q c (some r)
      go (returns q k) = ended q k
      go (raises x) = threw

  pub Ends-reads : {A : Type 0} {Q : A → Type 0} {m : Read A} → Ensures Q m → Ends bytes Q (reads m)
  Ends-reads p = Ends-reads_in (Ensures→EnsuresIn p)

leave-Ended :
    {A : Type 0} {Q : A → Type 0} (c : GuardedPtr) (n : ℕ) {r : Run (A × GuardedPtr)}
    → n ≤ c.bnds - c.raw_ptr
    → IsValid c
    → Ended Q (record c { bnds = c.raw_ptr + n }) r
    → Ended Q c (leave c.bnds r)
leave-Ended c n h v (ended {d = d} q k) = elim (Bool-cases (d.raw_ptr == d.bnds)) [
  | inl e ↦
      rw (e, leave)
        (ended q (record {
          same_bytes = k.same_bytes;
          same_orig = k.same_orig;
          same_bnds = refl;
          forward = k.forward;
          inside = omega (arith, k.inside, h, v.raw_le);
        }))
  | inr e ↦ rw (e, leave) threw
]
leave-Ended c n h v threw = threw

pub Ends-scoped :
    {A : Type 0} {bytes : List ℕ} {Q : A → Type 0} {m : Parse A} (n : ℕ)
    → Ends bytes Q m
    → Ends bytes Q (scoped n m)
unfolding scoped
Ends-scoped n p = record {
  run = λ c v e. elim (Bool-cases (leb n (c.bnds - c.raw_ptr))) [
    | inl h ↦
        rw (h, scoped)
          (leave-Ended c n (leb→le _ _ h) v (
            p.run _
              (record {
                orig_le = v.orig_le;
                raw_le = omega arith;
                bnds_le = omega (arith, leb→le _ _ h, v.bnds_le, v.raw_le);
                bytes_fit = v.bytes_fit;
              })
              e))
    | inr h ↦ rw (h, scoped) threw
  ];
}

-- A switch ends when each of its cases does for its value.
pub Ends-switch :
    {A : Type 0} {bytes : List ℕ} {Q : A → Type 0} {default : Parse A} (value : ℕ)
    (cases : List (ℕ × Parse A))
    → All (λ (v, m). value ≡ v → Ends bytes Q m) cases
    → Ends bytes Q default
    → Ends bytes Q (switch value cases default)
unfolding switch
Ends-switch value [] h p = p
Ends-switch value ((v, m) ∷ cases) (q, h) p = elim (Bool-cases (value == v)) [
  | inl e ↦ rw e (q ((==_iff value v).0 e))
  | inr e ↦ rw e (Ends-switch value cases h p)
]
