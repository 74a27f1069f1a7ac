-- ===== src/Parser/OperandStack/Depth.antt =====
-- The depth that validation counts is the number of operands on its type stack, and never wraps.
use eos_vm.Prelude.{
  ℕ, suc, ◌+◌, ◌-◌, ◌%◌, ◌^◌, ◌≤◌, ◌<◌, ◌≡◌, ◌≢◌, refl, ap, List, [], ◌∷◌, Bool, true, false, not,
  ◌||◌, ltb, ltb→lt, ◌==◌, if◌then◌else◌, Bool-cases, inl, inr, arith,
}
use mathlib.Core.Path.{subst}
use eos_vm.Prelude.Result.{ok-inj, Result, ok, eos_vm_assert, >>=-eq-ok, wasm_parse_exception}
use eos_vm.Options.{Options}
use eos_vm.Types.Ty
use eos_vm.Parser.OperandStack.{
  unreachable_tag, scope_tag, any_type, Tracker, new_tracker, push_stack, push, drop_back,
  pop_typed, pop_expected, pop_any, top, unwind, start_unreachable, push_scope, pop_unreachable,
  pop_tag, pop_scope, is_empty,
}

-- The number of operands on the stack, without the tags.
unfoldable pub operands : List ℕ → ℕ
operands [] = 0
operands (x ∷ xs) =
    let rest = operands xs in if x == unreachable_tag || x == scope_tag then rest else suc rest

pub record IsBalanced (t : Tracker) : Type 0 where
  pub depth : t.operand_depth ≡ operands t.state
  pub below : t.operand_depth ≤ t.maximum_operand_depth
  pub small : t.maximum_operand_depth < 2 ^ 32

-- A type that the assertions of push and pop let through: no tag.
abbrev pub IsOperand : ℕ → Type 0
IsOperand type = (type ≢ unreachable_tag) × (type ≢ scope_tag)

-- One call of a public method that returns.
pub data Call (options : Options) (t : Tracker) : Tracker → Type 0 where
  pushes : {u : Tracker} (type : ℕ) → IsOperand type → push options type t ≡ ok u → Call options t u
  pops :
      {u : Tracker} (type : ℕ)
      → IsOperand type
      → pop_expected options type t ≡ ok u
      → Call options t u
  pops_any : {u : Tracker} {type : ℕ} → pop_any options t ≡ ok (type, u) → Call options t u
  tops : {u : Tracker} (type : ℕ) → IsOperand type → top options type t ≡ ok u → Call options t u
  stops : Call options t (start_unreachable t)
  opens : Call options t (push_scope t)
  closes :
      {u : Tracker} (type : ℕ) → IsOperand type → pop_scope options type t ≡ ok u → Call options t u

-- A sequence of calls on a new tracker.
pub data Reaches (options : Options) (count : ℕ) : Tracker → Type 0 where
  starts : Reaches options count (new_tracker count)
  calls : {t u : Tracker} → Reaches options count t → Call options t u → Reaches options count u

push-IsBalanced :
    (options : Options) (type : ℕ) (t u : Tracker)
    → IsOperand type
    → IsBalanced t
    → push options type t ≡ ok u
    → IsBalanced u
unfolding push operands
push-IsBalanced options type t u (p, q) b h = elim (Bool-cases (ltb t.operand_depth (2 ^ 32 - 1))) [
  | inl e ↦
      let (count, _, k) =
        >>=-eq-ok (push_stack options t.unreachable_depth type t.count) _ (rw e at h) in
      subst IsBalanced (ok-inj k)
        (record { depth = ground arith; below = omega arith; small = omega (arith, ltb→lt _ _ e) })
  | inr e ↦ absurd (ground (arith, h, e))
]

drop_back-IsBalanced :
    (options : Options) (type back : ℕ) (rest : List ℕ) (t : Tracker)
    → IsOperand back
    → t.state ≡ back ∷ rest
    → IsBalanced t
    → IsBalanced (drop_back options type rest t)
unfolding drop_back operands
drop_back-IsBalanced options type back rest t (p, q) e b =
    let positive : operands t.state ≡ suc (operands rest) = rw e (ground arith) in
    record { depth = omega arith; below = omega arith; small = b.small }

unwind-operands :
    (state : List ℕ) (depth : ℕ)
    → depth ≡ operands state
    → depth < 2 ^ 32
    → ((unwind state depth).1 ≡ operands (unwind state depth).0) × ((unwind state depth).1 ≤ depth)
unfolding unwind operands
unwind-operands [] depth e h = (e, omega arith)
unwind-operands (back ∷ rest) depth e h = elim (Bool-cases (back == scope_tag)) [
  | inl f ↦ rw f (rw e (ground arith), omega arith)
  | inr f ↦ elim (Bool-cases (back == unreachable_tag)) [
    | inl g ↦ rw (f, g) (unwind-operands rest depth (ground arith) h)
    | inr g ↦
        let less : (depth + (2 ^ 32 - 1)) % 2 ^ 32 + 1 ≡ depth = ground arith in
        let (p, q) =
          unwind-operands rest ((depth + (2 ^ 32 - 1)) % 2 ^ 32) (ground arith) (omega arith) in
        rw (f, g) (p, omega arith)
  ]
]

start_unreachable-IsBalanced : (t : Tracker) → IsBalanced t → IsBalanced (start_unreachable t)
unfolding start_unreachable operands
start_unreachable-IsBalanced t b =
    let (p, q) = unwind-operands t.state t.operand_depth b.depth (omega arith) in
    record { depth = p; below = omega (arith, q); small = b.small }

same_state :
    (t : Tracker) (state : List ℕ)
    → t.state ≡ state
    → IsBalanced t
    → IsBalanced (record t { state = state })
same_state t state e b = record {
  depth = omega (arith, ap operands e, b.depth);
  below = b.below;
  small = b.small;
}

pop_typed-IsBalanced :
    (options : Options) (type : ℕ) (t u : Tracker)
    → IsOperand type
    → IsBalanced t
    → pop_typed options type t ≡ ok u
    → IsBalanced u
unfolding pop_typed drop_back
pop_typed-IsBalanced options type t u (p, q) b h = go t.state refl
  where
    go : (state : List ℕ) → t.state ≡ state → IsBalanced u
    go [] e = absurd (ground (arith, h, e))
    go (back ∷ rest) e = elim (Bool-cases (back == unreachable_tag)) [
      | inl f ↦ subst IsBalanced (ok-inj (rw (e, f) at h)) (same_state t _ e b)
      | inr f ↦ elim (Bool-cases (back == type || back == any_type)) [
        | inl g ↦
            subst IsBalanced (ok-inj (rw (e, f, g) at h))
              (drop_back-IsBalanced options type back rest t (ground arith) e b)
        | inr g ↦ absurd (ground (arith, rw (e, f, g) at h))
      ]
    ]

pop_expected-IsBalanced :
    (options : Options) (type : ℕ) (t u : Tracker)
    → IsOperand type
    → IsBalanced t
    → pop_expected options type t ≡ ok u
    → IsBalanced u
unfolding pop_expected
pop_expected-IsBalanced options type t u p b h = elim (Bool-cases (type == Ty.pseudo)) [
  | inl e ↦ subst IsBalanced (ok-inj (rw e at h)) b
  | inr e ↦ pop_typed-IsBalanced options type t u p b (rw e at h)
]

pop_any-IsBalanced :
    (options : Options) (type : ℕ) (t u : Tracker)
    → IsBalanced t
    → pop_any options t ≡ ok (type, u)
    → IsBalanced u
unfolding pop_any drop_back
pop_any-IsBalanced options type t u b h = go t.state refl
  where
    go : (state : List ℕ) → t.state ≡ state → IsBalanced u
    go [] e = absurd (ground (arith, h, e))
    go (back ∷ rest) e = elim (Bool-cases (back == scope_tag)) [
      | inl f ↦ absurd (ground (arith, rw (e, f) at h))
      | inr f ↦ elim (Bool-cases (back == unreachable_tag)) [
        | inl g ↦ subst IsBalanced (ap (λ r. r.1) (ok-inj (rw (e, f, g) at h))) (same_state t _ e b)
        | inr g ↦
            subst IsBalanced (ap (λ r. r.1) (ok-inj (rw (e, f, g) at h)))
              (drop_back-IsBalanced options back back rest t (ground arith) e b)
      ]
    ]

pop_unreachable-IsBalanced : (t : Tracker) → IsBalanced t → IsBalanced (pop_unreachable t)
unfolding pop_unreachable operands
pop_unreachable-IsBalanced t b = go t.state refl
  where
    go : (state : List ℕ) → t.state ≡ state → IsBalanced (pop_unreachable t)
    go [] e = rw e (same_state t _ e b)
    go (back ∷ rest) e = elim (Bool-cases (back == unreachable_tag)) [
      | inl f ↦
          let same : operands t.state ≡ operands rest = rw e (ground arith) in
          rw (e, f) (record { depth = omega (arith, b.depth); below = b.below; small = b.small })
      | inr f ↦ rw (e, f) (same_state t _ e b)
    ]

pop_tag-operands : (xs rest : List ℕ) → pop_tag xs ≡ ok rest → operands xs ≡ operands rest
unfolding pop_tag operands
pop_tag-operands [] rest h = cc
pop_tag-operands (x ∷ xs) rest h = ground (arith, h)

pop_scope-IsBalanced :
    (options : Options) (type : ℕ) (t u : Tracker)
    → IsOperand type
    → IsBalanced t
    → pop_scope options type t ≡ ok u
    → IsBalanced u
unfolding pop_scope
pop_scope-IsBalanced options type t u p b h =
    let (t', e, h₁) = >>=-eq-ok (pop_expected options type t) _ h in
    let (_, _, h₂) =
      >>=-eq-ok (eos_vm_assert (not (is_empty t'.state)) wasm_parse_exception) _ h₁ in
    let (rest, f, h₃) = >>=-eq-ok (pop_tag (pop_unreachable t').state) _ h₂ in
    let c = pop_unreachable-IsBalanced t' (pop_expected-IsBalanced options type t t' p b e) in
    let closed : IsBalanced (record (pop_unreachable t') { state = rest }) = record {
      depth = omega (arith, pop_tag-operands _ rest f, c.depth);
      below = c.below;
      small = c.small;
    } in
    choose (type == Ty.pseudo) _ _ closed (λ v. push-IsBalanced options type _ v p closed) h₃
  where
    choose :
        (test : Bool) (r : Result Tracker) (v : Tracker)
        → IsBalanced v
        → ((w : Tracker) → r ≡ ok w → IsBalanced w)
        → (if test then ok v else r) ≡ ok u
        → IsBalanced u
    choose true r v c f k = subst IsBalanced (ok-inj k) c
    choose false r v c f k = f u k

Call-IsBalanced :
    (options : Options) {t u : Tracker} → Call options t u → IsBalanced t → IsBalanced u
unfolding top push_scope operands
Call-IsBalanced options (pushes type p h) b = push-IsBalanced options type _ _ p b h
Call-IsBalanced options (pops type p h) b = pop_expected-IsBalanced options type _ _ p b h
Call-IsBalanced options (pops_any {type = type} h) b = pop_any-IsBalanced options type _ _ b h
Call-IsBalanced options (tops {u = u} type p h) b =
    let (t', e, k) = >>=-eq-ok (pop_expected options type _) _ h in
    push-IsBalanced options type t' u p (pop_expected-IsBalanced options type _ t' p b e) k
Call-IsBalanced options stops b = start_unreachable-IsBalanced _ b
Call-IsBalanced options opens b = record { depth = b.depth; below = b.below; small = b.small }
Call-IsBalanced options (closes type p h) b = pop_scope-IsBalanced options type _ _ p b h

-- After any sequence of calls that return, the depth is the number of operands on the stack, and is
-- at most the recorded maximum, which fits 32 bits: the subtractions of the depth never wrap.
pub Reaches-IsBalanced :
    (options : Options) (count : ℕ) (t : Tracker) → Reaches options count t → IsBalanced t
unfolding operands
Reaches-IsBalanced options count t starts = record {
  depth = refl;
  below = omega arith;
  small = omega arith;
}
Reaches-IsBalanced options count u (calls {t = t} r c) =
    Call-IsBalanced options c (Reaches-IsBalanced options count t r)
