-- ===== src/Body/Typing/Operands.antt =====
-- What the actions of validation do to the types of the operands, in code that is reachable.
use eos_vm.Prelude.{
  ℕ, ◌-◌, ◌^◌, ltb, ◌≡◌, refl, List, [], ◌∷◌, ◌++◌, false, ◌||◌, ◌==◌, if◌then◌else◌, Bool-cases,
  inl, inr, All, sym, arith,
}
use mathlib.Core.Path.{subst}
use eos_vm.Prelude.Result.{ok, ok-inj, >>=-eq-ok}
use eos_vm.Options.{Options}
use eos_vm.Types.Ty
use eos_vm.Parser.OperandStack.{
  Tracker, unreachable_tag, scope_tag, any_type, push, push_stack, drop_back, pop_typed,
  pop_expected, pop_any,
}
use eos_vm.Body.{Env, Body, Action, on_stack, emit, pop_all, pushes, pops, check_in_bounds}
use eos_vm.Body.Keeps.{
  Triple, Triple-bind, Triple-pure, Triple-stack, Triple-on_stack, Triple-writes, Triple-post,
  Triple-get, Triple-require,
}
use eos_vm.Body.Typing.Handlers.{IsValue}

-- The types of the operands, without the tags of the scopes.
unfoldable pub operand_types : List ℕ → List ℕ
operand_types [] = []
operand_types (t ∷ ts) = let rest = operand_types ts in if t == scope_tag then rest else t ∷ rest

-- The operands have the types.
abbrev pub Now : List ℕ → Body → Type 0
Now ts s = operand_types s.op_stack.state ≡ ts

-- Operands of the types have been popped from those of the types `ts`.
pub record Popped (ts popped : List ℕ) (s : Body) : Type 0 where
  pub left : List ℕ
  pub split : ts ≡ popped ++ left
  pub now : Now left s
  pub values : All IsValue left

-- The last element of the state is the tag of a scope, or the first of the types.
data Back (ts : List ℕ) (back : ℕ) (rest : List ℕ) : Type 0 where
  scope : back ≡ scope_tag → Back ts back rest
  value :
      IsValue back
      → ts ≡ back ∷ operand_types rest
      → All IsValue (operand_types rest)
      → Back ts back rest

back_lem :
    (back : ℕ) (rest ts : List ℕ)
    → operand_types (back ∷ rest) ≡ ts
    → All IsValue ts
    → Back ts back rest
unfolding operand_types
back_lem back rest ts e vs = elim (Bool-cases (back == scope_tag)) [
  | inl f ↦ scope (ground (arith, f))
  | inr f ↦
      let q : back ∷ operand_types rest ≡ ts = rw f at e in
      let (v, ws) = subst (All IsValue) (sym q) vs in value v (sym q) ws
]

-- What a pop of the type `t` leaves.
record Left (ts : List ℕ) (t : ℕ) (u : Tracker) : Type 0 where
  left : List ℕ
  split : ts ≡ t ∷ left
  now : operand_types u.state ≡ left
  values : All IsValue left

module _ (options : Options) (ts : List ℕ) (tr u : Tracker) (vs : All IsValue ts)
    (e : operand_types tr.state ≡ ts) where
  matching :
      (t back : ℕ) (rest : List ℕ)
      → IsValue t
      → tr.state ≡ back ∷ rest
      → Back ts back rest
      → pop_typed options t tr ≡ ok u
      → Left ts t u
  unfolding pop_typed drop_back
  matching t back rest v d (scope x) h = elim (Bool-cases (back == unreachable_tag)) [
    | inl f ↦ absurd (ground (arith, f, x))
    | inr f ↦ elim (Bool-cases (back == t || back == any_type)) [
      | inl g ↦ absurd (ground (arith, g, x, v.not_scope))
      | inr g ↦ absurd (ground (arith, rw (d, f, g) at h))
    ]
  ]
  matching t back rest v d (value w q ws) h = elim (Bool-cases (back == unreachable_tag)) [
    | inl f ↦ absurd (ground (arith, f, w.not_unreachable))
    | inr f ↦ elim (Bool-cases (back == t || back == any_type)) [
      | inl g ↦
          let same : back ≡ t = ground (arith, g, w.not_any) in
          subst (Left ts t) (ok-inj (rw (d, f, g) at h))
            (record { left = operand_types rest; split = rw same at q; now = refl; values = ws })
      | inr g ↦ absurd (ground (arith, rw (d, f, g) at h))
    ]
  ]

  pop_typed-lem : (t : ℕ) → IsValue t → pop_typed options t tr ≡ ok u → Left ts t u
  unfolding pop_typed
  pop_typed-lem t v h = go tr.state refl
    where
      go : (state : List ℕ) → tr.state ≡ state → Left ts t u
      go [] d = absurd (ground (arith, h, d))
      go (back ∷ rest) d = matching t back rest v d (back_lem back rest ts (rw d at e) vs) h

  pop_expected-lem : (t : ℕ) → IsValue t → pop_expected options t tr ≡ ok u → Left ts t u
  unfolding pop_expected
  pop_expected-lem t v h = elim (Bool-cases (t == Ty.pseudo)) [
    | inl f ↦ absurd (ground (arith, f, v.not_pseudo))
    | inr f ↦ pop_typed-lem t v (rw f at h)
  ]

  taken :
      (t back : ℕ) (rest : List ℕ)
      → tr.state ≡ back ∷ rest
      → Back ts back rest
      → pop_any options tr ≡ ok (t, u)
      → IsValue t × Left ts t u
  unfolding pop_any drop_back
  taken t back rest d (scope x) h = elim (Bool-cases (back == scope_tag)) [
    | inl f ↦ absurd (ground (arith, rw (d, f) at h))
    | inr f ↦ absurd (ground (arith, f, x))
  ]
  taken t back rest d (value w q ws) h = elim (Bool-cases (back == scope_tag)) [
    | inl f ↦ absurd (ground (arith, f, w.not_scope))
    | inr f ↦ elim (Bool-cases (back == unreachable_tag)) [
      | inl g ↦ absurd (ground (arith, g, w.not_unreachable))
      | inr g ↦
          subst (λ p. IsValue p.0 × Left ts p.0 p.1) (ok-inj (rw (d, f, g) at h))
            (w, record { left = operand_types rest; split = q; now = refl; values = ws })
    ]
  ]

  pop_any-lem : (t : ℕ) → pop_any options tr ≡ ok (t, u) → IsValue t × Left ts t u
  unfolding pop_any
  pop_any-lem t h = go tr.state refl
    where
      go : (state : List ℕ) → tr.state ≡ state → IsValue t × Left ts t u
      go [] d = absurd (ground (arith, h, d))
      go (back ∷ rest) d = taken t back rest d (back_lem back rest ts (rw d at e) vs) h

  push-lem : (t : ℕ) → IsValue t → push options t tr ≡ ok u → operand_types u.state ≡ t ∷ ts
  unfolding push operand_types
  push-lem t v h = elim (Bool-cases (ltb tr.operand_depth (2 ^ 32 - 1))) [
    | inl g ↦
        let (count, _, k) =
          >>=-eq-ok (push_stack options tr.unreachable_depth t tr.count) _ (rw g at h) in
        let f : (t == scope_tag) ≡ false = ground (arith, v.not_scope) in
        subst (λ w. operand_types w.state ≡ t ∷ ts) (ok-inj k) (rw (f, e) refl)
    | inr g ↦ absurd (ground (arith, h, g))
  ]

module _ (env : Env) (ts : List ℕ) where
  pub check_in_bounds-Now : Triple (Now ts) (λ _. Now ts) (check_in_bounds env)
  unfolding check_in_bounds
  check_in_bounds-Now =
      Triple-bind {Q = λ _. Now ts} (Triple-get λ s i. i) λ s. Triple-require _ λ e s i. i

  pub emit-Now : (opcode : ℕ) (is : List ℕ) → Triple (Now ts) (λ _. Now ts) (emit opcode is)
  emit-Now opcode is = Triple-writes _ λ s w i e. i

module _ (options : Options) (ts : List ℕ) (vs : All IsValue ts) where
  pub pops-Popped : (t : ℕ) → IsValue t → Triple (Now ts) (λ _. Popped ts (t ∷ [])) (pops options t)
  pops-Popped t v = Triple-stack _ λ s u i e.
      let l = pop_expected-lem options ts s.op_stack u vs i t v e in
      record { left = l.left; split = l.split; now = l.now; values = l.values }

  pub pop_any-Popped :
      Triple (Now ts) (λ t s. IsValue t × Popped ts (t ∷ []) s) (on_stack (pop_any options))
  pop_any-Popped = Triple-on_stack _ λ s t u i e.
      let (v, l) = pop_any-lem options ts s.op_stack u vs i t e in
      (v, record { left = l.left; split = l.split; now = l.now; values = l.values })

  pub pushes-Now : (t : ℕ) → IsValue t → Triple (Now ts) (λ _. Now (t ∷ ts)) (pushes options t)
  pushes-Now t v = Triple-stack _ λ s u i e. push-lem options ts s.op_stack u vs i t v e

-- What is left of the types is all that the rest of an action sees.
pub Triple-Popped :
    {A : Type 0} {ts popped : List ℕ} {R : A → Body → Type 0} {m : Action A}
    → ((left : List ℕ) → ts ≡ popped ++ left → All IsValue left → Triple (Now left) R m)
    → Triple (Popped ts popped) R m
Triple-Popped f = record { run = λ s c v p. (f p.left p.split p.values).run s c v p.now }

pub pop_all-Popped :
    (options : Options) (popped ts : List ℕ)
    → All IsValue ts
    → All IsValue popped
    → Triple (Now ts) (λ _. Popped ts popped) (pop_all options popped)
unfolding pop_all
pop_all-Popped options [] ts vs ws =
    Triple-pure tt λ s i. record { left = ts; split = refl; now = i; values = vs }
pop_all-Popped options (t ∷ popped) ts vs (w, ws) = Triple-bind (pops-Popped options ts vs t w) λ _.
    Triple-Popped λ left e us.
      Triple-post (pop_all-Popped options popped left us ws)
        λ _ s p. record { left = p.left; split = cc (e, p.split); now = p.now; values = p.values }
