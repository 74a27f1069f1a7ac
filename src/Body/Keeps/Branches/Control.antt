-- ===== src/Body/Keeps/Branches/Control.antt =====
-- The control instructions keep every branch recorded.
use eos_vm.Prelude.{
  ℕ, zero, suc, ◌≤◌, ◌≡◌, refl, List, [], ◌∷◌, ◌++◌, Bool, true, false, ◌||◌, ◌==◌, Option, none,
  some, length, length-append, get_elem?, ltb, arith,
}
use mathlib.Core.Path.{subst}
use eos_vm.Prelude.Result.{
  Result, ok, >>=-eq-ok, ok-inj, or_throw, undefined, eos_vm_assert, wasm_vector_oob_exception,
}
use eos_vm.GuardedPtr.Ensures.{Kept-refl}
use eos_vm.Writer.{
  Opcode, branch, Writer, op_index, append_instr, append_branch, fix_branch, emit_br, emit_br_if,
  emit_case, encode_depth_change,
}
use eos_vm.Body.{
  Relocations, label, branches, PcElement, Body, Action, on_writer, put_pc_stack, fix, add_branch,
  add_relocation, handle_branch_target, branch_target,
}
use eos_vm.Body.Keeps.{
  leaves, Triple, Triple-bind, Triple-lift, Triple-get, Triple-require, Triple-stack,
  Triple-on_stack, Triple-on_writer, Triple-writes,
}
use eos_vm.Body.Keeps.Plain.{IsStable}
use eos_vm.Body.Keeps.Branches.{
  contains, contains-append, waiting, pending, LabelBelow, LabelsBelow, LabelsBelow-mono,
  CellsKnown, Recorded, append_instr_ok, CellsKnown-longer, CellsKnown-branch, CellsKnown-fix,
}

-- A branch that is written is open, and the code is longer.
pub append_branch-known :
    (opcode depth : ℕ) (w : Writer) (a : ℕ) (w' : Writer) (known : List ℕ)
    → CellsKnown w known
    → append_branch opcode depth w ≡ ok (a, w')
    → CellsKnown w' (a ∷ known) × (op_index w ≤ op_index w')
unfolding append_branch
append_branch-known opcode depth w a w'' known k h =
    let (w', e, m) = >>=-eq-ok (append_instr (branch opcode depth (length w.cells)) w) _ h in
    let longer : op_index w ≤ length (w.code ++ (branch opcode depth (length w.cells) ∷ [])) =
      omega (arith, length-append w.code (branch opcode depth (length w.cells) ∷ [])) in
    subst (λ (x : ℕ × Writer). CellsKnown x.1 (x.0 ∷ known) × (op_index w ≤ op_index x.1))
      (ok-inj m)
      (rw (← append_instr_ok _ _ _ e)
        (CellsKnown-branch _ _ (CellsKnown-longer w _ _ longer k), longer))

pub append_branch-Recorded :
    (opcode depth : ℕ) (s : Body) (a : ℕ) (w : Writer)
    → Recorded [] s
    → append_branch opcode depth s.writer ≡ ok (a, w)
    → Recorded (a ∷ []) (record s { writer = w })
append_branch-Recorded opcode depth s a w r h =
    let (c, l) = append_branch-known opcode depth s.writer a w (pending s.pc_stack) r.cells h in
    record { cells = c; labels = LabelsBelow-mono _ _ s.pc_stack l r.labels }

pub fix_labels :
    {xs : List ℕ} (a target : ℕ) (s : Body)
    → Recorded xs s
    → LabelsBelow (op_index (fix_branch a target s.writer)) s.pc_stack
unfolding fix_branch
fix_labels a target s r = r.labels

Triple-branch :
    (m : Writer → Result (ℕ × Writer)) (opcode : ℕ)
    → ((w w' : Writer) (a : ℕ)
        → m w ≡ ok (a, w')
        → (depth : ℕ) × (append_branch opcode depth w ≡ ok (a, w')))
    → Triple (Recorded []) (λ a. Recorded (a ∷ [])) (on_writer m)
Triple-branch m opcode inv = Triple-on_writer m λ s a w r e.
    let (depth, f) = inv s.writer w a e in append_branch-Recorded opcode depth s a w r f

pub emit_br-Triple :
    (d rt : ℕ) → Triple (Recorded []) (λ a. Recorded (a ∷ [])) (on_writer (emit_br d rt))
unfolding emit_br
emit_br-Triple d rt = Triple-branch (emit_br d rt) 0x0C λ w w' a h.
    let (_, _, k) =
      >>=-eq-ok (eos_vm_assert (ltb (op_index w) w.size) wasm_vector_oob_exception) _ h in
    let (depth, _, m) = >>=-eq-ok (encode_depth_change d rt) _ k in (depth, m)

pub emit_br_if-Triple :
    (d rt : ℕ) → Triple (Recorded []) (λ a. Recorded (a ∷ [])) (on_writer (emit_br_if d rt))
unfolding emit_br_if
emit_br_if-Triple d rt = Triple-branch (emit_br_if d rt) 0x0D λ w w' a h.
    let (_, _, k) =
      >>=-eq-ok (eos_vm_assert (ltb (op_index w) w.size) wasm_vector_oob_exception) _ h in
    let (depth, _, m) = >>=-eq-ok (encode_depth_change d rt) _ k in (depth, m)

module _ {A : Type 0} {P : Body → Type 0} {Q : A → Body → Type 0} where
  -- A split on the relocations of a scope.
  pub Triple-relocations :
      (r : Relocations) {f : ℕ → Action A} {g : List ℕ → Action A}
      → ((target : ℕ) → r ≡ label target → Triple P Q (f target))
      → ((bs : List ℕ) → r ≡ branches bs → Triple P Q (g bs))
      → Triple P Q (elim r [ label target ↦ f target | branches bs ↦ g bs ])
  Triple-relocations (label target) p q = p target refl
  Triple-relocations (branches bs) p q = q bs refl

pub branch_target-Triple :
    {P : Body → Type 0} (l : ℕ)
    → Triple P (λ p s. P s × (get_elem? s.pc_stack l ≡ some p)) (branch_target l)
unfolding branch_target
branch_target-Triple {P} l =
    Triple-bind {Q = λ s₀ s. P s × (s₀ ≡ s)} (Triple-get λ s i. (i, refl)) λ s₀.
      Triple-bind {Q = λ _ s. P s × (s₀ ≡ s)} (Triple-require _ λ _ s i. i) λ _.
        Triple-lift _ λ p s e (i, f).
          (i, subst (λ x. get_elem? x.pc_stack l ≡ some p) f (found (get_elem? s₀.pc_stack l) e))
  where
    found : {p : PcElement} (o : Option PcElement) → or_throw o undefined ≡ ok p → o ≡ some p
    found none e = cc
    found (some q) e = cc

pub contains-swap :
    (x a : ℕ) (bs ps : List ℕ)
    → contains x (a ∷ (bs ++ ps)) ≡ true
    → contains x ((bs ++ (a ∷ [])) ++ ps) ≡ true
unfolding contains
contains-swap x a bs ps h =
    rw (contains-append x (bs ++ (a ∷ [])) ps, contains-append x bs (a ∷ []))
      (swap (x == a) (contains x bs) (contains x ps) (rw (contains-append x bs ps) at h))
  where
    swap : (p q r : Bool) → (p || (q || r)) ≡ true → ((q || (p || false)) || r) ≡ true
    swap true true r h = refl
    swap true false r h = refl
    swap false true r h = refl
    swap false false r h = h

contains-behind :
    (x a : ℕ) (bs ps rest : List ℕ)
    → (contains x (a ∷ ps) ≡ true → contains x rest ≡ true)
    → contains x (a ∷ (bs ++ ps)) ≡ true
    → contains x (bs ++ rest) ≡ true
unfolding contains
contains-behind x a bs ps rest k h = rw (contains-append x bs rest) (
    behind (x == a) (contains x bs) (contains x ps) (contains x rest) k
      (rw (contains-append x bs ps) at h))
  where
    behind :
        (p q r t : Bool) → ((p || r) ≡ true → t ≡ true) → (p || (q || r)) ≡ true → (q || t) ≡ true
    behind p true r t k h = refl
    behind true false r t k h = k refl
    behind false false r t k h = k h

contains-add_relocation :
    (x a : ℕ) (ps : List PcElement) (l : ℕ) (p : PcElement) (bs : List ℕ)
    → get_elem? ps l ≡ some p
    → p.relocations ≡ branches bs
    → contains x (a ∷ pending ps) ≡ true
    → contains x (pending (add_relocation a ps l)) ≡ true
unfolding pending add_relocation
contains-add_relocation x a [] l p bs e f h = cc
contains-add_relocation x a (q ∷ ps) zero p bs e f h =
    let g : q.relocations ≡ branches bs = cc in rw g (contains-swap x a bs (pending ps) (rw g at h))
contains-add_relocation x a (q ∷ ps) (suc l) p bs e f h =
    contains-behind x a (waiting q.relocations) (pending ps) (pending (add_relocation a ps l))
      (contains-add_relocation x a ps l p bs e f) h

LabelsBelow-add_relocation :
    (n a : ℕ) (ps : List PcElement) (l : ℕ)
    → LabelsBelow n ps
    → LabelsBelow n (add_relocation a ps l)
unfolding LabelsBelow add_relocation
LabelsBelow-add_relocation n a [] l h = tt
LabelsBelow-add_relocation n a (q ∷ ps) zero (h, hs) = (go q.relocations h, hs)
  where
    go : (r : Relocations) → LabelBelow n r → LabelBelow n (add_branch a r)
    go (label target) h = h
    go (branches bs) h = tt
LabelsBelow-add_relocation n a (q ∷ ps) (suc l) (h, hs) =
    (h, LabelsBelow-add_relocation n a ps l hs)

label_below :
    (n : ℕ) (ps : List PcElement) (l : ℕ) (p : PcElement) (target : ℕ)
    → LabelsBelow n ps
    → get_elem? ps l ≡ some p
    → p.relocations ≡ label target
    → target ≤ n
unfolding LabelsBelow
label_below n [] l p target h e f = cc
label_below n (q ∷ ps) zero p target (h, hs) e f =
    let g : q.relocations ≡ label target = cc in subst (LabelBelow n) g h
label_below n (q ∷ ps) (suc l) p target (h, hs) e f = label_below n ps l p target hs e f

-- A branch that is fixed is known no more.
fix-Triple :
    {P : Body → Type 0} (a target : ℕ) (known : List ℕ)
    → ((s : Body) → P s → Recorded (a ∷ known) s × (target ≤ op_index s.writer))
    → Triple P (λ _. Recorded known) (fix a target)
unfolding fix
fix-Triple a target known p = record {
  run = λ s c v i.
      let (r, h) = p s i in
      leaves
        (record {
          cells = CellsKnown-fix s.writer a target (known ++ pending s.pc_stack) h r.cells;
          labels = fix_labels a target s r;
        })
        (Kept-refl v);
}

-- The branch is fixed to a label, or recorded in the scope that it leaves.
pub handle_branch_target-Triple :
    (l a : ℕ) → Triple (Recorded (a ∷ [])) (λ _. Recorded []) (handle_branch_target l a)
unfolding handle_branch_target put_pc_stack
handle_branch_target-Triple l a = Triple-bind (branch_target-Triple l) λ p.
    Triple-relocations p.relocations
      (λ target e.
        fix-Triple a target [] λ s (r, f). (r, label_below _ s.pc_stack l p target r.labels f e))
      (λ bs e.
        Triple-bind
          {Q = λ s₀ s. (Recorded (a ∷ []) s × (get_elem? s.pc_stack l ≡ some p)) × (s₀ ≡ s)}
          (Triple-get λ s i. (i, refl))
          λ s₀. record {
            run = λ s c v ((r, f), g).
                leaves
                  (rw g (record {
                    cells = record {
                      open_known = λ x o.
                          contains-add_relocation x a s.pc_stack l p bs f e
                            (r.cells.open_known x o);
                      inside = r.cells.inside;
                    };
                    labels = LabelsBelow-add_relocation _ a s.pc_stack l r.labels;
                  }))
                  (Kept-refl v);
          })

pub append-Recorded :
    {xs : List ℕ} (o : Opcode) (s : Body) (w : Writer)
    → Recorded xs s
    → append_instr o s.writer ≡ ok w
    → Recorded xs (record s { writer = w })
append-Recorded {xs} o s w r h =
    let longer : op_index s.writer ≤ length (s.writer.code ++ (o ∷ [])) =
      omega (arith, length-append s.writer.code (o ∷ [])) in
    subst (λ x. Recorded xs (record s { writer = x })) (append_instr_ok o s.writer w h)
      (record {
        cells = CellsKnown-longer s.writer _ _ longer r.cells;
        labels = LabelsBelow-mono _ _ s.pc_stack longer r.labels;
      })

-- The methods of the operand stack and the writing of an instruction keep the record of branches.
pub Recorded-IsStable : (xs : List ℕ) → IsStable (Recorded xs)
Recorded-IsStable xs = record {
  stack_keeps = λ m. Triple-stack m λ s t r e. record { cells = r.cells; labels = r.labels };
  on_stack_keeps =
      λ m. Triple-on_stack m λ s a t r e. record { cells = r.cells; labels = r.labels };
  emit_keeps = λ opcode is. Triple-writes _ λ s w r e. append-Recorded _ s w r e;
  nested_keeps = λ s n r. record { cells = r.cells; labels = r.labels };
}

pub emit_case-Recorded :
    (d rt : ℕ) (s : Body) (a : ℕ) (w : Writer)
    → Recorded [] s
    → emit_case d rt s.writer ≡ ok (a, w)
    → Recorded (a ∷ []) (record s { writer = w })
unfolding emit_case
emit_case-Recorded d rt s a w r h =
    let (pops, e, k) = >>=-eq-ok (encode_depth_change d rt) _ h in
    subst (λ (x : ℕ × Writer). Recorded (x.0 ∷ []) (record s { writer = x.1 })) (ok-inj k)
      (record {
        cells =
            let c = CellsKnown-branch s.writer _ r.cells in
            record { open_known = c.open_known; inside = c.inside };
        labels = r.labels;
      })

pub emit_case-Triple :
    (d rt : ℕ) → Triple (Recorded []) (λ a. Recorded (a ∷ [])) (on_writer (emit_case d rt))
emit_case-Triple d rt = Triple-on_writer _ λ s a w r h. emit_case-Recorded d rt s a w r h
