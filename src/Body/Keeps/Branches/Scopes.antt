-- ===== src/Body/Keeps/Branches/Scopes.antt =====
-- The instructions that open, change and close scopes, and those that branch.
use eos_vm.Prelude.{ℕ, ◌≤◌, ◌≡◌, refl, sym, ap, ◌∙◌, List, [], ◌∷◌, ◌++◌, Bool, true, arith}
use mathlib.Core.Path.{subst}
use eos_vm.Prelude.Result.{Result, err, >>=-eq-ok, ok-inj, undefined}
use eos_vm.GuardedPtr.Ensures.{Kept-refl}
use eos_vm.Parser.OperandStack.{Tracker}
use eos_vm.Writer.{Writer, op_index, append_branch, fix_branch, emit_else}
use eos_vm.Body.{
  Env, Relocations, label, branches, PcElement, Body, pure, stack, on_writer, put_pc_stack, fix,
}
use eos_vm.Body.Control.{
  split_last, innermost, fix_all, exit_scope, open_block, if_branch, else_case,
}
use eos_vm.Body.Keeps.{
  leaves, Triple, Keeps, Triple-bind, Triple-pure, Triple-lift, Triple-get, Triple-require,
  Triple-stack, Triple-on_writer, Triple-weaken,
}
use eos_vm.Body.Keeps.Plain.{check_in_bounds-Keeps, on_control-Keeps}
use eos_vm.Body.Keeps.Branches.{
  contains, waiting, pending, LabelBelow, LabelsBelow, LabelsBelow-mono, CellsKnown, Recorded,
  CellsKnown-fix,
}
use eos_vm.Body.Keeps.Branches.Control.{append_branch-known, Recorded-IsStable}

pub le_refl : (n : ℕ) → n ≤ n
le_refl n = omega arith

-- A scope opens with the branches that wait for its end.
pub open_block-Triple :
    {P : Body → Type 0} (env : Env) (expected label_type : ℕ) (is_if : Bool) (r : Relocations)
    → ((s : Body) → P s → Recorded (waiting r) s × LabelBelow (op_index s.writer) r)
    → Triple P (λ _. Recorded []) (open_block env expected label_type is_if r)
unfolding open_block put_pc_stack pending LabelsBelow
open_block-Triple {P} env expected label_type is_if r p =
    Triple-bind {Q = λ s₀ s. P s × (s₀ ≡ s)} (Triple-get λ s i. (i, refl)) λ s₀. record {
      run = λ s c v (i, e).
          let (q, l) = p s i in
          leaves (rw e (record { cells = q.cells; labels = (l, q.labels) })) (Kept-refl v);
    }

-- A scope about to close, where the branches `known` still wait for its end.
pub record Closing (p : PcElement) (ps : List PcElement) (known : List ℕ) (s : Body) : Type 0 where
  pub shape : s.pc_stack ≡ p ∷ ps
  pub cells : CellsKnown s.writer (known ++ pending ps)
  pub labels : LabelsBelow (op_index s.writer) (p ∷ ps)

split_last-Triple :
    {P : Body → Type 0} (pcs : List PcElement) (s₀ : Body)
    → ((s : Body) → P s → Recorded [] s)
    → s₀.pc_stack ≡ pcs
    → Triple
        (λ s. P s × (s₀ ≡ s))
        (λ r s. Closing r.0 r.1 (waiting r.0.relocations) s × P s)
        (split_last pcs)
unfolding split_last pending
split_last-Triple [] s₀ w e = Triple-lift (err undefined) λ a s f i. cc
split_last-Triple (p ∷ ps) s₀ w e =
    Triple-pure (p, ps)
      λ s (i, f).
        let shape : s.pc_stack ≡ p ∷ ps = ap (λ x. x.pc_stack) (sym f) ∙ e in
        let q = w s i in
        (
          record {
            shape = shape;
            cells = subst (λ x. CellsKnown s.writer (pending x)) shape q.cells;
            labels = subst (LabelsBelow (op_index s.writer)) shape q.labels;
          },
          i,
        )

-- The innermost scope, where there is one.
pub innermost-Triple :
    {P : Body → Type 0}
    → ((s : Body) → P s → Recorded [] s)
    → Triple P (λ r s. Closing r.0 r.1 (waiting r.0.relocations) s × P s) innermost
unfolding innermost
innermost-Triple {P} w =
    Triple-bind {Q = λ s₀ s. P s × (s₀ ≡ s)} (Triple-get λ s i. (i, refl))
      λ s₀. split_last-Triple s₀.pc_stack s₀ w refl

fix_all-Triple :
    (p : PcElement) (ps : List PcElement) (bs : List ℕ) (target : ℕ)
    → Triple
        (λ s. Closing p ps bs s × (target ≤ op_index s.writer))
        (λ _. Closing p ps [])
        (fix_all bs target)
unfolding fix_all fix fix_branch
fix_all-Triple p ps [] target = Triple-pure tt λ s (i, h). i
fix_all-Triple p ps (b ∷ bs) target =
    Triple-bind {Q = λ _ s. Closing p ps bs s × (target ≤ op_index s.writer)}
      (record {
        run = λ s c v (i, h).
            leaves
              (
                record {
                  shape = i.shape;
                  cells = CellsKnown-fix s.writer b target (bs ++ pending ps) h i.cells;
                  labels = fixed b s i.labels;
                },
                fixed_le b s h,
              )
              (Kept-refl v);
      })
      λ _. fix_all-Triple p ps bs target
  where
    fixed :
        (b : ℕ) (s : Body)
        → LabelsBelow (op_index s.writer) (p ∷ ps)
        → LabelsBelow (op_index (fix_branch b target s.writer)) (p ∷ ps)
    fixed b s l = l

    fixed_le :
        (b : ℕ) (s : Body)
        → target ≤ op_index s.writer
        → target ≤ op_index (fix_branch b target s.writer)
    fixed_le b s h = h

-- What does not touch the writer or the scopes keeps a scope about to close.
pub stack-Closing :
    {p : PcElement} {ps : List PcElement} {known : List ℕ} (m : Tracker → Result Tracker)
    → Keeps (Closing p ps known) (stack m)
stack-Closing m =
    Triple-stack m λ s t i e. record { shape = i.shape; cells = i.cells; labels = i.labels }

pub put_pc_stack-Triple :
    {P : Body → Type 0} (pcs : List PcElement)
    → ((s : Body) → P s → Recorded [] (record s { pc_stack = pcs }))
    → Triple P (λ _. Recorded []) (put_pc_stack pcs)
unfolding put_pc_stack
put_pc_stack-Triple pcs p = record { run = λ s c v i. leaves (p s i) (Kept-refl v) }

-- At the end of a scope the branches that wait for it are fixed.
pub exit_scope-Keeps : (env : Env) → Keeps (Recorded []) (exit_scope env)
unfolding exit_scope LabelsBelow
exit_scope-Keeps env =
    Triple-bind {Q = λ s₀ s. Recorded [] s × (s₀ ≡ s)} (Triple-get λ s i. (i, refl)) λ s₀.
      Triple-bind {Q = λ _ s. Recorded [] s × (s₀ ≡ s)} (Triple-require _ λ e s i. i) λ _.
        Triple-bind (innermost-Triple {P = λ s. Recorded [] s × (s₀ ≡ s)} λ s i. i.0) λ r.
          Triple-bind
            {Q = λ _ s.
              Closing r.0 r.1 (waiting r.0.relocations) s
              × (op_index s₀.writer ≤ op_index s.writer)}
            (Triple-require _ λ e s (i, (_, f)).
              (i, subst (λ x. op_index s₀.writer ≤ op_index x.writer) f (le_refl _)))
            λ _.
              Triple-bind {Q = λ _ s. Closing r.0 r.1 [] s}
                (closing r.0 r.1 (op_index s₀.writer) r.0.relocations refl)
                λ _. Triple-bind (stack-Closing _) λ _.
                  put_pc_stack-Triple r.1 λ s i. record { cells = i.cells; labels = i.labels.1 }
  where
    closing :
        (p : PcElement) (ps : List PcElement) (target : ℕ) (r : Relocations)
        → p.relocations ≡ r
        → Triple
            (λ s. Closing p ps (waiting p.relocations) s × (target ≤ op_index s.writer))
            (λ _. Closing p ps [])
            (elim r [ label x ↦ pure tt | branches bs ↦ fix_all bs target ])
    closing p ps target (label x) e = Triple-pure tt λ s (i, h). record {
      shape = i.shape;
      cells = subst (λ y. CellsKnown s.writer (waiting y ++ pending ps)) e i.cells;
      labels = i.labels;
    }
    closing p ps target (branches bs) e = Triple-weaken (fix_all-Triple p ps bs target) λ s (i, h).
        (
          record {
            shape = i.shape;
            cells = subst (λ y. CellsKnown s.writer (waiting y ++ pending ps)) e i.cells;
            labels = i.labels;
          },
          h,
        )

contains-rotate :
    (x a first : ℕ) (xs : List ℕ)
    → contains x (a ∷ (first ∷ xs)) ≡ true
    → contains x (first ∷ (a ∷ xs)) ≡ true
unfolding contains
contains-rotate x a first xs h = ground (arith, h)

CellsKnown-weaken :
    (w : Writer) (known known' : List ℕ)
    → ((a : ℕ) → contains a known ≡ true → contains a known' ≡ true)
    → CellsKnown w known
    → CellsKnown w known'
CellsKnown-weaken w known known' f k = record {
  open_known = λ a e. f a (k.open_known a e);
  inside = k.inside;
}

-- An `else` fixes the branch of its `if` and opens one of its own.
emit_else-Triple :
    (p : PcElement) (ps : List PcElement) (first : ℕ) (rest : List ℕ)
    → Triple
        (Closing p ps (first ∷ rest))
        (λ a. Closing p ps (a ∷ rest))
        (on_writer (emit_else first))
unfolding emit_else fix_branch
emit_else-Triple p ps first rest = Triple-on_writer _ λ s a w i h.
    let ((a', w'), e, k) = >>=-eq-ok (append_branch 0x05 0 s.writer) _ h in
    let (c, l) =
      append_branch-known 0x05 0 s.writer a' w' ((first ∷ rest) ++ pending ps) i.cells e in
    subst (λ (x : ℕ × Writer). Closing p ps (x.0 ∷ rest) (record s { writer = x.1 })) (ok-inj k)
      (record {
        shape = i.shape;
        cells =
            CellsKnown-fix w' first (op_index w') (a' ∷ (rest ++ pending ps)) (le_refl _)
              (CellsKnown-weaken w' _ _ (λ x. contains-rotate x a' first (rest ++ pending ps)) c);
        labels = LabelsBelow-mono _ _ (p ∷ ps) l i.labels;
      })

if_branch-Triple :
    (p : PcElement) (ps : List PcElement) (r : Relocations)
    → Triple (Closing p ps (waiting r)) (λ x. Closing p ps (x.0 ∷ x.1)) (if_branch r)
unfolding if_branch
if_branch-Triple p ps (label x) = Triple-lift _ λ a s e i. cc
if_branch-Triple p ps (branches []) = Triple-lift _ λ a s e i. cc
if_branch-Triple p ps (branches (b ∷ bs)) = Triple-pure (b, bs) λ s i. i

pub else_case-Keeps : (env : Env) → Keeps (Recorded []) (else_case env)
unfolding else_case LabelsBelow pending
else_case-Keeps env =
    let stable = Recorded-IsStable [] in
    Triple-bind (check_in_bounds-Keeps stable env) λ _.
      Triple-bind (innermost-Triple {P = Recorded []} λ s i. i) λ r.
        Triple-bind {Q = λ _. Closing r.0 r.1 (waiting r.0.relocations)}
          (Triple-require _ λ e s i. i.0)
          λ _. Triple-bind (stack-Closing _) λ _. Triple-bind (stack-Closing _) λ _.
            Triple-bind (stack-Closing _) λ _.
              Triple-bind (if_branch-Triple r.0 r.1 r.0.relocations) λ x.
                Triple-bind (emit_else-Triple r.0 r.1 x.0 x.1) λ a.
                  Triple-bind
                    (put_pc_stack-Triple _
                      λ s i. record { cells = i.cells; labels = (tt, i.labels.1) })
                    λ _. on_control-Keeps stable env
