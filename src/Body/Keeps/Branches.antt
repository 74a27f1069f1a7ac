-- ===== src/Body/Keeps/Branches.antt =====
-- Every branch that was written has its target, or is recorded in the relocations of a scope that is
-- still open.
pub mod Control
pub mod Scopes
pub mod Loop
pub mod Done
use eos_vm.Prelude.{
  ℕ, zero, suc, ◌+◌, ◌%◌, ◌^◌, ◌≤◌, ◌<◌, ◌≡◌, ◌≢◌, ◌⊎◌, inl, inr, refl, sym, ap, ◌∙◌, List, [], ◌∷◌,
  ◌++◌, Bool, true, false, ◌||◌, ltb, ◌==◌, Bool-cases, Option, none, some, length, length-append,
  get_elem?, get_elem?-lt-length, get_elem?-set_self, get_elem?-set_ne, set, length-set,
  if◌then◌else◌, arith,
}
use mathlib.Core.Path.{subst}
use native.Mathlib.Nat.{mod-le}
use eos_vm.Prelude.Result.{
  Result, ok, err, >>=-eq-ok, ok-inj, eos_vm_assert, wasm_vector_oob_exception,
}
use eos_vm.Writer.{Opcode, branch, Writer, op_index, append_instr, append_branch, fix_branch}
use eos_vm.Body.{Relocations, label, branches, PcElement, Body}

unfoldable pub contains : ℕ → List ℕ → Bool
contains a [] = false
contains a (x ∷ xs) = a == x || contains a xs

-- The branches that a relocation waits to fix.
abbrev pub waiting : Relocations → List ℕ
waiting (label target) = []
waiting (branches bs) = bs

unfoldable pub pending : List PcElement → List ℕ
pending [] = []
pending (p ∷ ps) = waiting p.relocations ++ pending ps

-- A label is a position in the code that is written.
abbrev pub LabelBelow : ℕ → Relocations → Type 0
LabelBelow n (label target) = target ≤ n
LabelBelow n (branches bs) = Unit {0}

unfoldable pub LabelsBelow : ℕ → List PcElement → Type 0
LabelsBelow n [] = Unit {0}
LabelsBelow n (p ∷ ps) = LabelBelow n p.relocations × LabelsBelow n ps

-- The number, in 32 bits, of one of the first `n` places behind `base`, or of the place behind them.
abbrev pub Lands : ℕ → ℕ → ℕ → Type 0
Lands base n target = (place : ℕ) × (place ≤ n) × (target ≡ (base + place) % 2 ^ 32)

-- The cells without a target are among the branches of the list, and a target is the number of a place
-- in the code of the function, or at its end.
pub record CellsKnown (w : Writer) (known : List ℕ) : Type 0 where
  pub open_known : (a : ℕ) → get_elem? w.cells a ≡ some none → contains a known ≡ true
  pub inside : (a t : ℕ) → get_elem? w.cells a ≡ some (some t) → Lands w.base_offset (op_index w) t

-- The invariant, where the branches `extra` are not yet recorded.
pub record Recorded (extra : List ℕ) (s : Body) : Type 0 where
  pub cells : CellsKnown s.writer (extra ++ pending s.pc_stack)
  pub labels : LabelsBelow (op_index s.writer) s.pc_stack

contains-append :
    (a : ℕ) (xs ys : List ℕ) → contains a (xs ++ ys) ≡ (contains a xs || contains a ys)
unfolding contains
contains-append a [] ys = refl
contains-append a (x ∷ xs) ys =
    rw (contains-append a xs ys) (or_assoc (a == x) (contains a xs) (contains a ys))
  where
    or_assoc : (p q r : Bool) → (p || (q || r)) ≡ ((p || q) || r)
    or_assoc true q r = refl
    or_assoc false q r = refl

-- A longer code keeps the labels.
pub LabelsBelow-mono : (n m : ℕ) (ps : List PcElement) → n ≤ m → LabelsBelow n ps → LabelsBelow m ps
unfolding LabelsBelow
LabelsBelow-mono n m [] h l = tt
LabelsBelow-mono n m (p ∷ ps) h (l, ls) = (go p.relocations l, LabelsBelow-mono n m ps h ls)
  where
    go : (r : Relocations) → LabelBelow n r → LabelBelow m r
    go (label target) l = omega arith
    go (branches bs) l = tt

get_elem?-snoc :
    {A : Type 0} (xs : List A) (e : A) (i : ℕ) (b : A)
    → get_elem? (xs ++ (e ∷ [])) i ≡ some b
    → (get_elem? xs i ≡ some b) ⊎ ((i ≡ length xs) × (e ≡ b))
get_elem?-snoc [] e zero b h = inr (refl, cc)
get_elem?-snoc [] e (suc i) b h = cc
get_elem?-snoc (x ∷ xs) e zero b h = inl h
get_elem?-snoc (x ∷ xs) e (suc i) b h = elim (get_elem?-snoc xs e i b h) [
  | inl p ↦ inl p
  | inr (p, q) ↦ inr (ap suc p, q)
]

contains-tail : (a b : ℕ) (xs : List ℕ) → a ≢ b → contains a (b ∷ xs) ≡ true → contains a xs ≡ true
unfolding contains
contains-tail a b xs h k = ground (arith, h, k)

some-inj : {a b : ℕ} → some a ≡ some b → a ≡ b
some-inj h = cc

-- What append_instr does.
pub append_instr_ok :
    (o : Opcode) (w w' : Writer)
    → append_instr o w ≡ ok w'
    → record w { code = w.code ++ (o ∷ []) } ≡ w'
unfolding append_instr
append_instr_ok o w w' h =
    let (_, _, k) =
      >>=-eq-ok (eos_vm_assert (ltb (op_index w) w.size) wasm_vector_oob_exception) _ h in
    ok-inj k

pub CellsKnown-longer :
    (w : Writer) (known : List ℕ) (code : List Opcode)
    → op_index w ≤ length code
    → CellsKnown w known
    → CellsKnown (record w { code = code }) known
CellsKnown-longer w known code h k = record {
  open_known = k.open_known;
  inside = λ a t e. let (place, l, f) = k.inside a t e in (place, omega (arith, l, h), f);
}

-- A new branch is open.
pub CellsKnown-branch :
    (w : Writer) (known : List ℕ)
    → CellsKnown w known
    → CellsKnown (record w { cells = w.cells ++ (none ∷ []) }) (length w.cells ∷ known)
unfolding contains
CellsKnown-branch w known k = record {
  open_known = λ a e. elim (get_elem?-snoc w.cells none a none e) [
    | inl p ↦ later a (k.open_known a p)
    | inr (p, q) ↦ here a p
  ];
  inside = λ a t e. elim (get_elem?-snoc w.cells none a (some t) e) [
    | inl p ↦ k.inside a t p
    | inr (p, q) ↦ cc
  ];
}
  where
    later : (a : ℕ) → contains a known ≡ true → (a == length w.cells || contains a known) ≡ true
    later a h = ground (arith, h)

    here : (a : ℕ) → a ≡ length w.cells → (a == length w.cells || contains a known) ≡ true
    here a h = ground (arith, h)

get_elem?-set-cases :
    {A : Type 0} (xs : List A) (i : ℕ) (v : A) (j : ℕ) (b : A)
    → get_elem? (set xs i v) j ≡ some b
    → ((j ≡ i) × (v ≡ b)) ⊎ ((j ≢ i) × (get_elem? xs j ≡ some b))
get_elem?-set-cases [] i v j b h = cc
get_elem?-set-cases (x ∷ xs) zero v zero b h = inl (refl, cc)
get_elem?-set-cases (x ∷ xs) zero v (suc j) b h = inr (ground arith, h)
get_elem?-set-cases (x ∷ xs) (suc i) v zero b h = inr (ground arith, h)
get_elem?-set-cases (x ∷ xs) (suc i) v (suc j) b h = elim (get_elem?-set-cases xs i v j b h) [
  | inl (p, q) ↦ inl (ap suc p, q)
  | inr (p, q) ↦ inr (ground (arith, p), q)
]

-- A branch that is fixed needs no record.
pub CellsKnown-fix :
    (w : Writer) (address target : ℕ) (known : List ℕ)
    → target ≤ op_index w
    → CellsKnown w (address ∷ known)
    → CellsKnown (fix_branch address target w) known
unfolding fix_branch
CellsKnown-fix w address target known h k = record {
  open_known = λ a e. elim (get_elem?-set-cases w.cells address _ a none e) [
    | inl (p, q) ↦ cc
    | inr (p, q) ↦ contains-tail a address known p (k.open_known a q)
  ];
  inside = λ a t e. elim (get_elem?-set-cases w.cells address _ a (some t) e) [
    | inl (p, q) ↦ (target, h, sym (some-inj q))
    | inr (p, q) ↦ k.inside a t q
  ];
}
