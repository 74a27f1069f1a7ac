-- ===== src/Interpreter/Bulk/Loop.antt =====
-- A handler that moves one cell at each call moves all of them, when it is called until it is done.
use eos_vm.Prelude.{
  ℕ, zero, suc, ◌+◌, ◌%◌, ◌^◌, ◌≤◌, ◌<◌, ◌≡◌, ◌⊎◌, inl, inr, refl, sym, ap, ◌∙◌, List, true, false,
  Option, some, arith,
}
use native.Mathlib.Nat.{mod-eq_of_lt, mod-le}
use eos_vm.Prelude.Result.{Error, err, Result, ok}
use eos_vm.Interpreter.Operand.{Operand}
use eos_vm.Interpreter.Bulk.{Stepped, with_operands, put, until_done}
use eos_vm.Interpreter.Bulk.Cells.{moved, moved-up, moved-down, moved-out}

-- A call that has moved one cell.
pub record Moves {S A : Type 0} (Inv : S → Type 0) (cells : S → ℕ → A) (from to : ℕ) (st : S)
    (os : List Operand) (r : Result (Stepped S)) : Type 0 where
  pub after : S
  pub result : r ≡ ok (false, os, after)
  pub kept : Inv after
  pub placed : cells after ≡ put to (cells st from) (cells st)

-- What a handler promises below a bound, on states that satisfy an invariant: it is done when the size
-- is 0, and else moves the first cell where the destination is not above the source, and the last cell
-- where it is.
pub record IsCopy {S A : Type 0} (bound : ℕ) (Inv : S → Type 0) (cells : S → ℕ → A)
    (handler : List Operand → S → Result (Stepped S)) : Type 0 where
  pub done :
      (s d : ℕ) (os : List Operand) (st : S)
      → Inv st
      → s ≤ bound
      → d ≤ bound
      → handler (with_operands 0 s d os) st ≡ ok (true, os, st)
  pub up :
      (n s d : ℕ) (os : List Operand) (st : S)
      → Inv st
      → s + suc n ≤ bound
      → d + suc n ≤ bound
      → d ≤ s
      → Moves Inv cells s d st
          (with_operands n ((s + 1) % 2 ^ 32) ((d + 1) % 2 ^ 32) os)
          (handler (with_operands (suc n) s d os) st)
  pub down :
      (n s d : ℕ) (os : List Operand) (st : S)
      → Inv st
      → s + suc n ≤ bound
      → d + suc n ≤ bound
      → s < d
      → Moves Inv cells
          (s + n)
          (d + n)
          st
          (with_operands n s d os)
          (handler (with_operands (suc n) s d os) st)

-- A handler that throws ends the calls.
pub until_done-err :
    {S : Type 0} (fuel : ℕ) (handler : List Operand → S → Result (Stepped S)) (os : List Operand)
    (st : S) (e : Error)
    → 0 < fuel
    → handler os st ≡ err e
    → until_done fuel handler os st ≡ some (err e)
unfolding until_done
until_done-err zero handler os st e l h = absurd (omega arith)
until_done-err (suc fuel) handler os st e l h = rw (h, until_done) refl

-- All cells were moved.
pub record Copied {S A : Type 0} (Inv : S → Type 0) (cells : S → ℕ → A) (n s d : ℕ) (st : S)
    (os : List Operand) (r : Option (Result (List Operand × S))) : Type 0 where
  pub after : S
  pub result : r ≡ some (ok (os, after))
  pub kept : Inv after
  pub placed : (i : ℕ) → cells after i ≡ moved n s d (cells st) i

module _ {S A : Type 0} {bound : ℕ} {Inv : S → Type 0} {cells : S → ℕ → A}
    {handler : List Operand → S → Result (Stepped S)} (c : IsCopy bound Inv cells handler)
    (small : bound ≤ 2 ^ 32) where
  at_end :
      (fuel s d : ℕ) (os : List Operand) (st : S)
      → Inv st
      → s ≤ bound
      → d ≤ bound
      → Copied Inv cells 0 s d st os (until_done (suc fuel) handler (with_operands 0 s d os) st)
  unfolding until_done
  at_end fuel s d os st v h k = record {
    after = st;
    result = rw (c.done s d os st v h k, until_done) refl;
    kept = v;
    placed = λ i. sym (moved-out 0 s d (cells st) i (ground arith));
  }

  -- A call that moved one cell, and then the rest.
  extend :
      (fuel n s d s' d' from to : ℕ) (os under : List Operand) (st : S)
      (m : Moves Inv cells from to st os (handler (with_operands (suc n) s d under) st))
      → ((i : ℕ) → moved n s' d' (cells m.after) i ≡ moved (suc n) s d (cells st) i)
      → Copied Inv cells n s' d' m.after under (until_done fuel handler os m.after)
      → Copied Inv cells
          (suc n)
          s
          d
          st
          under
          (until_done (suc fuel) handler (with_operands (suc n) s d under) st)
  unfolding until_done
  extend fuel n s d s' d' from to os under st m e r = record {
    after = r.after;
    result = rw (m.result, until_done) r.result;
    kept = r.kept;
    placed = λ i. r.placed i ∙ e i;
  }

  nothing_moved : (s d s' d' : ℕ) (f : ℕ → A) (i : ℕ) → moved 0 s d f i ≡ moved 0 s' d' f i
  nothing_moved s d s' d' f i =
      moved-out 0 s d f i (ground arith) ∙ sym (moved-out 0 s' d' f i (ground arith))

  upwards :
      (fuel n s d : ℕ) (os : List Operand) (st : S)
      → n < fuel
      → Inv st
      → s + n ≤ bound
      → d + n ≤ bound
      → d ≤ s
      → Copied Inv cells n s d st os (until_done fuel handler (with_operands n s d os) st)
  upwards zero n s d os st l v h k o = absurd (omega arith)
  upwards (suc fuel) zero s d os st l v h k o =
      at_end fuel s d os st v (omega (arith, h)) (omega (arith, k))
  upwards (suc zero) (suc n) s d os st l v h k o = absurd (omega arith)
  upwards (suc (suc fuel)) (suc zero) s d os st l v h k o =
      let m = c.up 0 s d os st v h k o in
      let s' = (s + 1) % 2 ^ 32 in
      let d' = (d + 1) % 2 ^ 32 in
      extend (suc fuel) 0 s d s' d' s d _ os st m
        (λ i.
          nothing_moved s' d' (s + 1) (d + 1) (cells m.after) i
          ∙ ap (λ f. moved 0 (s + 1) (d + 1) f i) m.placed
          ∙ moved-up 0 s d (cells st) i o)
        (at_end fuel s' d' os m.after m.kept (omega (arith, h, mod-le (s + 1) (2 ^ 32)))
          (omega (arith, k, mod-le (d + 1) (2 ^ 32))))
  upwards (suc (suc fuel)) (suc (suc n)) s d os st l v h k o =
      let m = c.up (suc n) s d os st v h k o in
      let es : (s + 1) % 2 ^ 32 ≡ s + 1 = mod-eq_of_lt (omega (arith, h, small)) in
      let ed : (d + 1) % 2 ^ 32 ≡ d + 1 = mod-eq_of_lt (omega (arith, k, small)) in
      extend (suc fuel) (suc n) s d (s + 1) (d + 1) s d _ os st m
        (λ i.
          ap (λ f. moved (suc n) (s + 1) (d + 1) f i) m.placed
          ∙ moved-up (suc n) s d (cells st) i o)
        (rw (es, ed)
          (upwards (suc fuel) (suc n) (s + 1) (d + 1) os m.after (omega arith) m.kept
            (omega (arith, h)) (omega (arith, k)) (omega (arith, o))))

  downwards :
      (fuel n s d : ℕ) (os : List Operand) (st : S)
      → n < fuel
      → Inv st
      → s + n ≤ bound
      → d + n ≤ bound
      → s < d
      → Copied Inv cells n s d st os (until_done fuel handler (with_operands n s d os) st)
  downwards zero n s d os st l v h k o = absurd (omega arith)
  downwards (suc fuel) zero s d os st l v h k o =
      at_end fuel s d os st v (omega (arith, h)) (omega (arith, k))
  downwards (suc fuel) (suc n) s d os st l v h k o =
      let m = c.down n s d os st v h k o in
      extend fuel n s d s d (s + n) (d + n) _ os st m
        (λ i. ap (λ f. moved n s d f i) m.placed ∙ moved-down n s d (cells st) i o)
        (downwards fuel n s d os m.after (omega arith) m.kept (omega (arith, h)) (omega (arith, k))
          o)

  -- With more fuel than cells all of them are moved, where both ranges are below the bound.
  pub until_done-Copied :
      (fuel n s d : ℕ) (os : List Operand) (st : S)
      → n < fuel
      → Inv st
      → s + n ≤ bound
      → d + n ≤ bound
      → Copied Inv cells n s d st os (until_done fuel handler (with_operands n s d os) st)
  until_done-Copied fuel n s d os st l v h k = elim (either d s) [
    | inl o ↦ upwards fuel n s d os st l v h k o
    | inr o ↦ downwards fuel n s d os st l v h k o
  ]
    where
      either : (a b : ℕ) → (a ≤ b) ⊎ (b < a)
      either a b = ground arith
