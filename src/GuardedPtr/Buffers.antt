-- ===== src/GuardedPtr/Buffers.antt =====
-- What a read of a known buffer guarantees, where its value points into the buffer.
use eos_vm.Prelude.{ℕ, ◌≡◌, ◌∙◌, List}
use eos_vm.Prelude.Result.{Result, ok, err}
use eos_vm.GuardedPtr.{GuardedPtr, Read, ◌>>=◌, IsValid}
use eos_vm.GuardedPtr.Ensures.{Kept, Kept-trans, Kept-IsValid, Outcome, returns, raises, Ensures}

-- As Ensures, for a pointer into one buffer.
pub record EnsuresIn {A : Type 0} (bytes : List ℕ) (Q : A → Type 0) (m : Read A) : Type 0 where
  pub run : (c : GuardedPtr) → IsValid c → c.bytes ≡ bytes → Outcome Q c (m c)

pub Ensures→EnsuresIn :
    {A : Type 0} {bytes : List ℕ} {Q : A → Type 0} {m : Read A} → Ensures Q m → EnsuresIn bytes Q m
Ensures→EnsuresIn p = record { run = λ c v e. p.run c v }

pub EnsuresIn-bind :
    {A B : Type 0} {bytes : List ℕ} {Q : A → Type 0} {R : B → Type 0} {m : Read A} {f : A → Read B}
    → EnsuresIn bytes Q m
    → ((a : A) → Q a → EnsuresIn bytes R (f a))
    → EnsuresIn bytes R (m >>= f)
unfolding ◌>>=◌
EnsuresIn-bind {A} {B} {bytes} {Q} {R} {m} {f} p h = record {
  run = λ c v e. go v e (m c) (p.run c v e);
}
  where
    extend :
        {c d : GuardedPtr} {s : Result (B × GuardedPtr)} → Kept c d → Outcome R d s → Outcome R c s
    extend k (returns q l) = returns q (Kept-trans k l)
    extend k (raises x) = raises x

    go :
        {c : GuardedPtr}
        → IsValid c
        → c.bytes ≡ bytes
        → (r : Result (A × GuardedPtr)) → Outcome Q c r
        → Outcome R c (elim r [ ok (a, d) ↦ f a d | err e ↦ err e ])
    go v e r (returns {a = a} {d = d} q k) =
        extend k ((h a q).run d (Kept-IsValid v k) (k.same_bytes ∙ e))
    go v e r (raises x) = raises x

-- Code that reads any buffer, in front of code that reads a known one.
pub EnsuresIn-after :
    {A B : Type 0} {bytes : List ℕ} {Q : A → Type 0} {R : B → Type 0} {m : Read A} {f : A → Read B}
    → Ensures Q m
    → ((a : A) → Q a → EnsuresIn bytes R (f a))
    → EnsuresIn bytes R (m >>= f)
EnsuresIn-after p h = EnsuresIn-bind (Ensures→EnsuresIn p) h
