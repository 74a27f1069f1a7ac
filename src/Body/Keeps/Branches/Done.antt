-- ===== src/Body/Keeps/Branches/Done.antt =====
-- The loop over a function's instructions ends, and leaves no branch without a target.
use eos_vm.Prelude.{
  ℕ, zero, suc, ◌+◌, ◌-◌, ◌<◌, ◌≡◌, ◌⊎◌, inl, inr, refl, ap, List, [], ◌∷◌, true, false, Bool-cases,
  Option, none, some, length, get_elem?, get_elem?-some, ltb, ltb→lt, leb, arith,
}
use mathlib.Core.Path.{subst}
use eos_vm.Prelude.Result.{Error, Result, ok, err, wasm_parse_exception}
use eos_vm.GuardedPtr.{GuardedPtr, IsValid, next, offset}
use eos_vm.GuardedPtr.Ensures.{
  Kept, Kept-refl, Kept-trans, Kept-IsValid, Outcome, returns, raises, next-Ensures,
}
use eos_vm.GuardedPtr.Inversion.{next-inv}
use eos_vm.Types.{FuncType}
use eos_vm.Writer.{Writer, op_index}
use eos_vm.Body.{Env, PcElement, Body, ◌>>=◌, read, get, require, has_none}
use eos_vm.Parser.Locals.{locals_count}
use eos_vm.Body.Code.{instruction, round, rounds, initial, finish, parse_function_body_code}
use eos_vm.Body.Keeps.{Leaves, leaves, fails}
use eos_vm.Body.Keeps.Branches.{Lands, contains, pending, LabelsBelow, Recorded}
use eos_vm.Body.Keeps.Branches.Loop.{instruction-Keeps}

-- A round that returns has kept the record and moved the pointer by a byte or more.
data Rounded (c : GuardedPtr) : Result (Unit {0} × Body × GuardedPtr) → Type 0 where
  rounded :
      {s : Body} {d : GuardedPtr}
      → Recorded [] s
      → Kept c d
      → c.raw_ptr < d.raw_ptr
      → Rounded c (ok (tt, s, d))
  refused : {e : Error} → Rounded c (err e)

round-Rounded :
    (env : Env) (bounds : ℕ) (s : Body) (c : GuardedPtr)
    → IsValid c
    → Recorded [] s
    → Rounded c (round env bounds s c)
unfolding round ◌>>=◌ get read require
round-Rounded env bounds s c v r =
    elim (Bool-cases (leb (length s.pc_stack) env.options.max_nested_structures)) [
      | inr e ↦ rw e refused
      | inl e ↦ rw e (go (next c) refl (next-Ensures.run c v))
    ]
  where
    onward :
        {d : GuardedPtr} {x : Result (Unit {0} × Body × GuardedPtr)}
        → Kept c d
        → c.raw_ptr < d.raw_ptr
        → Leaves (λ _. Recorded []) d x
        → Rounded c x
    onward k l (leaves q m) = rounded q (Kept-trans k m) (omega (arith, l, m.forward))
    onward k l fails = refused

    go :
        (x : Result (ℕ × GuardedPtr))
        → next c ≡ x
        → Outcome (λ b. b < 256) c x
        → Rounded c
            (elim (elim x as (λ _. Result (ℕ × Body × GuardedPtr)) [
              | ok (a, d) ↦ ok (a, s, d)
              | err y ↦ err y
            ]) [ ok (a, s', d) ↦ instruction env bounds a s' d | err y ↦ err y ])
    go x e (returns {a = a} {d = d} q k) =
        let (_, moved, _) = next-inv c d a e in
        onward k (omega (arith, ap (λ p. p.raw_ptr) moved))
          ((instruction-Keeps env bounds a).run s d (Kept-IsValid v k) r)
    go x e (raises y) = refused

-- What the loop gives: a record that is kept, or an exception.
data Ended (c : GuardedPtr) : Option (Result (Body × GuardedPtr)) → Type 0 where
  ended : {s : Body} {d : GuardedPtr} → Recorded [] s → Kept c d → Ended c (some (ok (s, d)))
  threw : {e : Error} → Ended c (some (err e))

rounds-Ended :
    (fuel : ℕ) (env : Env) (bounds : ℕ) (s : Body) (c : GuardedPtr)
    → bounds - offset c < fuel
    → IsValid c
    → Recorded [] s
    → Ended c (rounds fuel env bounds s c)
unfolding rounds
rounds-Ended zero env bounds s c h v r = absurd (omega arith)
rounds-Ended (suc fuel) env bounds s c h v r = elim (Bool-cases (ltb (offset c) bounds)) [
  | inr e ↦ rw (e, rounds) (ended r (Kept-refl v))
  | inl e ↦
      rw (e, rounds)
        (go (ltb→lt _ _ e) (λ s' d. rounds-Ended fuel env bounds s' d) (round env bounds s c)
          (round-Rounded env bounds s c v r))
]
  where
    extend :
        {d : GuardedPtr} {x : Option (Result (Body × GuardedPtr))}
        → Kept c d
        → Ended d x
        → Ended c x
    extend k (ended q l) = ended q (Kept-trans k l)
    extend k threw = threw

    go :
        offset c < bounds
        → ((s' : Body) (d : GuardedPtr)
            → bounds - offset d < fuel
            → IsValid d
            → Recorded [] s'
            → Ended d (rounds fuel env bounds s' d))
        → (x : Result (Unit {0} × Body × GuardedPtr)) → Rounded c x
        → Ended c (elim x [ ok (a, s', d) ↦ rounds fuel env bounds s' d | err y ↦ some (err y) ])
    go below more x (rounded {s = s'} {d = d} q k l) =
        extend k
          (more s' d (omega (arith, below, h, k.same_orig, l, v.orig_le)) (Kept-IsValid v k) q)
    go below more x refused = threw

-- A new function starts with no branch.
initial-Recorded :
    (ft : FuncType) (count nested : ℕ) (w : Writer)
    → w.cells ≡ []
    → Recorded [] (initial ft count nested w)
unfolding LabelsBelow
initial-Recorded ft count nested w e = record {
  cells = record {
    open_known = λ a f. absurd (ground (arith, subst (λ x. get_elem? x a ≡ some none) e f));
    inside = λ a t f. absurd (ground (arith, subst (λ x. get_elem? x a ≡ some (some t)) e f));
  };
  labels = (tt, tt);
}

-- The function's body was parsed: every branch has a target, which is the number in 32 bits of a place
-- in the function's code, or at its end, and the pointer moved forward inside its bounds.
pub record IsFixed (s : Body) (c d : GuardedPtr) : Type 0 where
  pub fixed :
      (address : ℕ)
      → address < length s.writer.cells
      → (target : ℕ) × (get_elem? s.writer.cells address ≡ some (some target))
        × Lands s.writer.base_offset (op_index s.writer) target
  pub kept : Kept c d

IsFixed-done :
    {s : Body} {c d : GuardedPtr} → s.pc_stack ≡ [] → Recorded [] s → Kept c d → IsFixed s c d
unfolding contains pending
IsFixed-done {s} e r k = record {
  fixed = λ address h. let (o, f) = get_elem?-some s.writer.cells address h in go address o f;
  kept = k;
}
  where
    go :
        (address : ℕ) (o : Option ℕ)
        → get_elem? s.writer.cells address ≡ some o
        → (target : ℕ) × (get_elem? s.writer.cells address ≡ some (some target))
          × Lands s.writer.base_offset (op_index s.writer) target
    go address none f = absurd (
        nowhere (subst (λ x. contains address (pending x) ≡ true) e (r.cells.open_known address f)))
      where
        nowhere : false ≡ true → ⊥
        nowhere h = cc
    go address (some t) f = (t, f, r.cells.inside address t f)

has_none-eq-nil : (pcs : List PcElement) → has_none pcs ≡ true → pcs ≡ []
has_none-eq-nil [] h = refl
has_none-eq-nil (p ∷ ps) h = cc

finish_fixes :
    (env : Env) {c : GuardedPtr} {x : Option (Result (Body × GuardedPtr))}
    → Ended c x
    → ((e : Error) × (finish env x ≡ some (err e)))
      ⊎ ((s : Body) × (stack : ℕ) × (d : GuardedPtr) × (finish env x ≡ some (ok (s, stack, d)))
          × IsFixed s c d)
unfolding finish
finish_fixes env (threw {e = y}) = inl (y, refl)
finish_fixes env (ended {s = s} {d = d} r k) = elim (Bool-cases (has_none s.pc_stack)) [
  | inr g ↦ inl (wasm_parse_exception, rw g refl)
  | inl g ↦ inr (
    s,
    s.op_stack.maximum_operand_depth + locals_count env.local_types,
    d,
    rw g refl,
    IsFixed-done (has_none-eq-nil _ g) r k,
  )
]

-- From a valid pointer and a writer without branches, with more fuel than there are bytes below the
-- bound, parse_function_body_code gives an error, which may be `undefined`, or it returns. Where it
-- returns, every branch that was written has been fixed: its target is, in 32 bits, the base offset of
-- the function plus the index of one of its instructions or of the place behind them, and the pointer has
-- moved forward inside its bounds.
pub parse_function_body_code_fixes :
    (fuel : ℕ) (env : Env) (bounds : ℕ) (ft : FuncType) (count nested : ℕ) (w : Writer)
    (c : GuardedPtr)
    → bounds - offset c < fuel
    → IsValid c
    → w.cells ≡ []
    → ((e : Error) × (parse_function_body_code fuel env bounds ft count nested w c ≡ some (err e)))
      ⊎ ((s : Body) × (stack : ℕ) × (d : GuardedPtr) × (parse_function_body_code fuel env bounds ft
              count nested w c
            ≡ some (ok (s, stack, d)))
          × IsFixed s c d)
unfolding parse_function_body_code
parse_function_body_code_fixes fuel env bounds ft count nested w c h v e = finish_fixes env (
    rounds-Ended fuel env bounds (initial ft count nested w) c h v
      (initial-Recorded ft count nested w e))
