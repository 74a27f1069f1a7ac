-- ===== src/Body/Keeps.antt =====
-- Conditions before and after an action, with a rule for each way to build one. An action that returns
-- has moved the pointer forward only, inside its bounds.
pub mod Plain
pub mod Vector
pub mod Branches
use eos_vm.Prelude.{
  ℕ, ◌≤◌, ◌≡◌, refl, List, [], ◌∷◌, Bool, true, false, ◌==◌, Bool-cases, if◌then◌else◌, inl, inr,
  ap,
}
use mathlib.Core.Path.{subst}
use eos_vm.Prelude.Result.{Error, Result, ok, err}
use eos_vm.GuardedPtr.{GuardedPtr, Read, IsValid}
use eos_vm.GuardedPtr.Ensures.{
  Kept, Kept-refl, Kept-trans, Kept-IsValid, Ensures, Outcome, returns, raises,
}
use eos_vm.Writer.{Writer}
use eos_vm.Options.{Options}
use eos_vm.Parser.OperandStack.{Tracker}
use eos_vm.Body.{
  Body, Action, ◌>>=◌, ◌>>◌, pure, read, lift, require, get, on_stack, stack, on_writer, writes,
  switch, pop_all, pops,
}

pub data Leaves {A : Type 0} (Q : A → Body → Type 0) (c : GuardedPtr)
    : Result (A × Body × GuardedPtr) → Type 0 where
  leaves : {a : A} {s : Body} {d : GuardedPtr} → Q a s → Kept c d → Leaves Q c (ok (a, s, d))
  fails : {e : Error} → Leaves Q c (err e)

pub record Triple {A : Type 0} (P : Body → Type 0) (Q : A → Body → Type 0) (m : Action A)
    : Type 0 where
  pub run : (s : Body) (c : GuardedPtr) → IsValid c → P s → Leaves Q c (m s c)

-- The action keeps the condition.
abbrev pub Keeps : {A : Type 0} → (Body → Type 0) → Action A → Type 0
Keeps P m = Triple P (λ _. P) m

module _ {A B : Type 0} {Q : A → Body → Type 0} {R : B → Body → Type 0} where
  Leaves-bind :
      {c : GuardedPtr} {r : Result (A × Body × GuardedPtr)} (f : A → Action B)
      → IsValid c
      → Leaves Q c r
      → ((a : A) → Triple (Q a) R (f a))
      → Leaves R c (elim r [ ok (a, s', d) ↦ f a s' d | err e ↦ err e ])
  Leaves-bind {c = c} f v (leaves {a = a} {s = s} {d = d} q k) g =
      extend ((g a).run s d (Kept-IsValid v k) q)
    where
      extend : {x : Result (B × Body × GuardedPtr)} → Leaves R d x → Leaves R c x
      extend (leaves p l) = leaves p (Kept-trans k l)
      extend fails = fails
  Leaves-bind f v fails g = fails

module _ {A : Type 0} {Q : A → Body → Type 0} where
  Leaves-read :
      {R : A → Type 0} {c : GuardedPtr} {r : Result (A × GuardedPtr)} (s : Body)
      → ((a : A) → R a → Q a s)
      → Outcome R c r
      → Leaves Q c (elim r [ ok (a, d) ↦ ok (a, s, d) | err e ↦ err e ])
  Leaves-read s q (returns p k) = leaves (q _ p) k
  Leaves-read s q (raises x) = fails

  Leaves-stack :
      {c : GuardedPtr} (s : Body) (r : Result (A × Tracker))
      → IsValid c
      → ((a : A) (t : Tracker) → r ≡ ok (a, t) → Q a (record s { op_stack = t }))
      → Leaves Q c (elim r [ ok (a, t) ↦ ok (a, record s { op_stack = t }, c) | err e ↦ err e ])
  Leaves-stack s (ok (a, t)) v q = leaves (q a t refl) (Kept-refl v)
  Leaves-stack s (err e) v q = fails

  Leaves-writer :
      {c : GuardedPtr} (s : Body) (r : Result (A × Writer))
      → IsValid c
      → ((a : A) (w : Writer) → r ≡ ok (a, w) → Q a (record s { writer = w }))
      → Leaves Q c (elim r [ ok (a, w) ↦ ok (a, record s { writer = w }, c) | err e ↦ err e ])
  Leaves-writer s (ok (a, w)) v q = leaves (q a w refl) (Kept-refl v)
  Leaves-writer s (err e) v q = fails

  Leaves-post :
      {Q' : A → Body → Type 0} {c : GuardedPtr} {r : Result (A × Body × GuardedPtr)}
      → ((a : A) (s : Body) → Q a s → Q' a s)
      → Leaves Q c r
      → Leaves Q' c r
  Leaves-post w (leaves q k) = leaves (w _ _ q) k
  Leaves-post w fails = fails

module _ {Q : Unit {0} → Body → Type 0} where
  Leaves-stack_unit :
      {c : GuardedPtr} (s : Body) (r : Result Tracker)
      → IsValid c
      → ((t : Tracker) → r ≡ ok t → Q tt (record s { op_stack = t }))
      → Leaves Q c (elim r [ ok t ↦ ok (tt, record s { op_stack = t }, c) | err e ↦ err e ])
  Leaves-stack_unit s (ok t) v q = leaves (q t refl) (Kept-refl v)
  Leaves-stack_unit s (err e) v q = fails

  Leaves-writer_unit :
      {c : GuardedPtr} (s : Body) (r : Result Writer)
      → IsValid c
      → ((w : Writer) → r ≡ ok w → Q tt (record s { writer = w }))
      → Leaves Q c (elim r [ ok w ↦ ok (tt, record s { writer = w }, c) | err e ↦ err e ])
  Leaves-writer_unit s (ok w) v q = leaves (q w refl) (Kept-refl v)
  Leaves-writer_unit s (err e) v q = fails

module _ {A B : Type 0} {P : Body → Type 0} {Q : A → Body → Type 0} {R : B → Body → Type 0} where
  pub Triple-bind :
      {m : Action A} {f : A → Action B}
      → Triple P Q m
      → ((a : A) → Triple (Q a) R (f a))
      → Triple P R (m >>= f)
  unfolding ◌>>=◌
  Triple-bind {f = f} p g = record { run = λ s c v i. Leaves-bind f v (p.run s c v i) g }

abbrev pub AllCases :
    {A : Type 0} → (Body → Type 0) → (A → Body → Type 0) → List (ℕ × Action A) → Type 0
AllCases P Q [] = Unit {0}
AllCases P Q ((v, m) ∷ cases) = Triple P Q m × AllCases P Q cases

module _ {A : Type 0} {P : Body → Type 0} {Q : A → Body → Type 0} where
  pub Triple-pure : (a : A) → ((s : Body) → P s → Q a s) → Triple P Q (pure a)
  unfolding pure
  Triple-pure a q = record { run = λ s c v i. leaves (q s i) (Kept-refl v) }

  pub Triple-read :
      {R : A → Type 0} {m : Read A}
      → Ensures R m
      → ((a : A) (s : Body) → R a → P s → Q a s)
      → Triple P Q (read m)
  unfolding read
  Triple-read p q = record { run = λ s c v i. Leaves-read s (λ a r. q a s r i) (p.run c v) }

  pub Triple-lift :
      (r : Result A) → ((a : A) (s : Body) → r ≡ ok a → P s → Q a s) → Triple P Q (lift r)
  unfolding lift
  Triple-lift (ok a) q = record { run = λ s c v i. leaves (q a s refl i) (Kept-refl v) }
  Triple-lift (err e) q = record { run = λ s c v i. fails }

  pub Triple-on_stack :
      (m : Tracker → Result (A × Tracker))
      → ((s : Body) (a : A) (t : Tracker)
          → P s
          → m s.op_stack ≡ ok (a, t)
          → Q a (record s { op_stack = t }))
      → Triple P Q (on_stack m)
  unfolding on_stack
  Triple-on_stack m q = record {
    run = λ s c v i. Leaves-stack s (m s.op_stack) v (λ a t e. q s a t i e);
  }

  pub Triple-on_writer :
      (m : Writer → Result (A × Writer))
      → ((s : Body) (a : A) (w : Writer)
          → P s
          → m s.writer ≡ ok (a, w)
          → Q a (record s { writer = w }))
      → Triple P Q (on_writer m)
  unfolding on_writer
  Triple-on_writer m q = record {
    run = λ s c v i. Leaves-writer s (m s.writer) v (λ a w e. q s a w i e);
  }

  pub Triple-if :
      {m n : Action A} (b : Bool)
      → (b ≡ true → Triple P Q m)
      → (b ≡ false → Triple P Q n)
      → Triple P Q (if b then m else n)
  Triple-if true p q = p refl
  Triple-if false p q = q refl

  pub Triple-weaken :
      {P' : Body → Type 0} {m : Action A} → Triple P Q m → ((s : Body) → P' s → P s) → Triple P' Q m
  Triple-weaken p w = record { run = λ s c v i. p.run s c v (w s i) }

  pub Triple-post :
      {Q' : A → Body → Type 0} {m : Action A}
      → Triple P Q m
      → ((a : A) (s : Body) → Q a s → Q' a s)
      → Triple P Q' m
  Triple-post p w = record { run = λ s c v i. Leaves-post w (p.run s c v i) }

  pub Triple-switch :
      (value : ℕ) (cases : List (ℕ × Action A)) {default : Action A}
      → AllCases P Q cases
      → Triple P Q default
      → Triple P Q (switch value cases default)
  unfolding switch
  Triple-switch value [] p d = d
  Triple-switch value ((v, m) ∷ cases) (p, ps) d =
      Triple-if (value == v) (λ _. p) (λ _. Triple-switch value cases ps d)

-- The state is the one that the rest of the code gets.
pub Triple-get :
    {P : Body → Type 0} {Q : Body → Body → Type 0} → ((s : Body) → P s → Q s s) → Triple P Q get
unfolding get
Triple-get q = record { run = λ s c v i. leaves (q s i) (Kept-refl v) }

module _ {P : Body → Type 0} {Q : Unit {0} → Body → Type 0} where
  pub Triple-require : (b : Bool) → (b ≡ true → (s : Body) → P s → Q tt s) → Triple P Q (require b)
  unfolding require
  Triple-require true q = record { run = λ s c v i. leaves (q refl s i) (Kept-refl v) }
  Triple-require false q = record { run = λ s c v i. fails }

  pub Triple-stack :
      (m : Tracker → Result Tracker)
      → ((s : Body) (t : Tracker) → P s → m s.op_stack ≡ ok t → Q tt (record s { op_stack = t }))
      → Triple P Q (stack m)
  unfolding stack
  Triple-stack m q = record {
    run = λ s c v i. Leaves-stack_unit s (m s.op_stack) v (λ t e. q s t i e);
  }

  pub Triple-writes :
      (m : Writer → Result Writer)
      → ((s : Body) (w : Writer) → P s → m s.writer ≡ ok w → Q tt (record s { writer = w }))
      → Triple P Q (writes m)
  unfolding writes
  Triple-writes m q = record {
    run = λ s c v i. Leaves-writer_unit s (m s.writer) v (λ w e. q s w i e);
  }
