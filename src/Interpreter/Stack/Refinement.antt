-- ===== src/Interpreter/Stack/Refinement.antt =====
-- The stack class refines a list, bottom first.
use eos_vm.Prelude.{
  ℕ, zero, suc, ◌+◌, ◌-◌, ◌%◌, ◌^◌, ◌≤◌, ◌<◌, ◌≡◌, ◌⊎◌, inl, inr, refl, sym, ◌∙◌, ap, List, [], ◌∷◌,
  ◌++◌, none, some, Bool-cases, true, false, ltb, leb, lt→ltb, length, get_elem?, set, replicate,
  length-replicate, length-append, length-set, get_elem?-set_self, get_elem?-set_ne,
  get_elem?-lt-length, arith,
}
use mathlib.Core.Path.{subst}
use eos_vm.Prelude.Result.{ok}
use eos_vm.Interpreter.Stack.{Stack, assign, reserve, push_back, pop_back, eat_top, jump, compact}

-- The stack holds the elements of the list, in a vector that is not empty.
pub record Represents {A : Type 0} (s : Stack A) (xs : List A) : Type 0 where
  pub size : s.index ≡ length xs
  pub holds : (i : ℕ) (a : A) → get_elem? xs i ≡ some a → get_elem? s.store i ≡ some a
  pub room : 1 ≤ length s.store
  pub inside : s.index ≤ length s.store

module _ {A : Type 0} where
  some-inj : {a b : A} → some a ≡ some b → a ≡ b
  some-inj {a = a} h = ap (λ o. elim o [ some x ↦ x | none ↦ a ]) h

  get_elem?-snoc :
      (xs : List A) (e : A) (i : ℕ) (a : A)
      → get_elem? (xs ++ (e ∷ [])) i ≡ some a
      → (get_elem? xs i ≡ some a) ⊎ ((i ≡ length xs) × (e ≡ a))
  get_elem?-snoc [] e zero a h = inr (refl, some-inj h)
  get_elem?-snoc [] e (suc i) a h = absurd (ground (arith, h))
  get_elem?-snoc (x ∷ xs) e zero a h = inl h
  get_elem?-snoc (x ∷ xs) e (suc i) a h = elim (get_elem?-snoc xs e i a h) [
    | inl p ↦ inl p
    | inr (p, q) ↦ inr (ap suc p, q)
  ]

  get_elem?-append_left :
      (xs ys : List A) (i : ℕ) (a : A) → get_elem? xs i ≡ some a → get_elem? (xs ++ ys) i ≡ some a
  get_elem?-append_left [] ys i a h = absurd (ground (arith, h))
  get_elem?-append_left (x ∷ xs) ys zero a h = h
  get_elem?-append_left (x ∷ xs) ys (suc i) a h = get_elem?-append_left xs ys i a h

  get_elem?-append_last : (xs : List A) (e : A) → get_elem? (xs ++ (e ∷ [])) (length xs) ≡ some e
  get_elem?-append_last [] e = refl
  get_elem?-append_last (x ∷ xs) e = get_elem?-append_last xs e

  -- There is room for one more element after `reserve`, and the elements are as before.
  reserve-Represents :
      (fresh : A) (s : Stack A) (xs : List A)
      → Represents s xs
      → Represents (reserve fresh s) xs × (s.index < length (reserve fresh s).store)
  unfolding reserve
  reserve-Represents fresh s xs r = elim (Bool-cases (leb (length s.store) s.index)) [
    | inl e ↦ rw e (
      record {
        size = r.size;
        holds = λ i a h. get_elem?-append_left s.store _ i a (r.holds i a h);
        room = omega (arith, r.room, length-append s.store (replicate (length s.store) fresh));
        inside = omega (arith, r.inside, length-append s.store (replicate (length s.store) fresh));
      },
      omega (
        arith,
        r.room,
        r.inside,
        length-append s.store (replicate (length s.store) fresh),
        length-replicate (length s.store) fresh,
      ),
    )
    | inr e ↦ rw e (r, ground (arith, e))
  ]

  -- A push never fails, and puts its element behind the others.
  pub push_back-Represents :
      (fresh e : A) (s : Stack A) (xs : List A)
      → Represents s xs
      → (t : Stack A) × (push_back fresh e s ≡ ok t) × Represents t (xs ++ (e ∷ []))
  unfolding push_back assign
  push_back-Represents fresh e s xs r =
      let (q, l) = reserve-Represents fresh s xs r in
      let fits : ltb s.index (length (reserve fresh s).store) ≡ true = lt→ltb _ _ l in
      rw fits (
        _,
        refl,
        record {
          size = omega (arith, r.size, length-append xs (e ∷ []));
          holds = λ i a h. elim (get_elem?-snoc xs e i a h) [
            | inl p ↦
                get_elem?-set_ne (reserve fresh s).store s.index i e
                  (λ f. absurd (omega (arith, f, r.size, get_elem?-lt-length xs i p)))
                ∙ q.holds i a p
            | inr (p, f) ↦
                subst (λ j. get_elem? (set (reserve fresh s).store s.index e) j ≡ some a)
                  (r.size ∙ sym p)
                  (get_elem?-set_self (reserve fresh s).store s.index e l ∙ ap some f)
          ];
          room = omega (arith, q.room, length-set (reserve fresh s).store s.index e);
          inside = omega (arith, l, length-set (reserve fresh s).store s.index e);
        },
      )

  -- A pop returns the last element and leaves the others.
  pop_back-Represents :
      (x : A) (s : Stack A) (xs : List A)
      → Represents s (xs ++ (x ∷ []))
      → (t : Stack A) × (pop_back s ≡ ok (x, t)) × Represents t xs
  unfolding pop_back
  pop_back-Represents x s xs r =
      let count : s.index ≡ suc (length xs) = omega (arith, r.size, length-append xs (x ∷ [])) in
      let last = r.holds (length xs) x (get_elem?-append_last xs x) in
      rw (count, last)
        (
          _,
          refl,
          record {
            size = refl;
            holds = λ i a h. r.holds i a (get_elem?-append_left xs (x ∷ []) i a h);
            room = r.room;
            inside = omega (arith, count, r.inside);
          },
        )

  -- Elements are dropped from the end.
  pub eat_top-Represents :
      (s : Stack A) (xs ys : List A)
      → Represents s (xs ++ ys)
      → length (xs ++ ys) < 2 ^ 32
      → Represents (eat_top (length ys) s) xs
  eat_top-Represents s xs ys r small =
      let sum = length-append xs ys in
      record {
        size = omega (arith, r.size, sum);
        holds = λ i a h. r.holds i a (get_elem?-append_left xs ys i a h);
        room = r.room;
        inside = omega (arith, r.size, sum, r.inside);
      }

  -- A jump without a result drops as many operands as it says, and fails on no stack that has them.
  pub jump_drops :
      (fresh : A) (s : Stack A) (xs ys : List A)
      → Represents s (xs ++ ys)
      → length (xs ++ ys) < 2 ^ 31
      → (t : Stack A) × (jump fresh (length ys) s ≡ ok t) × Represents t xs
  unfolding jump
  jump_drops fresh s xs ys r small =
      let plain : ltb (length ys) (2 ^ 31) ≡ true =
        lt→ltb _ _ (omega (arith, length-append xs ys)) in
      rw plain (_, refl, eat_top-Represents s xs ys r (omega arith))

  -- A jump with a result keeps the operand on top and drops those below it that belong to the block,
  -- as many as the low bits of its argument say less one.
  pub jump_keeps :
      (fresh x : A) (s : Stack A) (xs ys : List A)
      → Represents s ((xs ++ ys) ++ (x ∷ []))
      → length (xs ++ ys) < 2 ^ 31 - 1
      → (t : Stack A) × (jump fresh (2 ^ 31 + (length ys + 1)) s ≡ ok t)
        × Represents t (xs ++ (x ∷ []))
  unfolding jump
  jump_keeps fresh x s xs ys r small =
      let few : length ys < 2 ^ 31 - 1 = omega (arith, length-append xs ys) in
      let kept : ltb (2 ^ 31 + (length ys + 1)) (2 ^ 31) ≡ false = ground arith in
      let amount : ((2 ^ 31 + (length ys + 1)) % 2 ^ 31 + 2 ^ 32 - 1) % 2 ^ 32 ≡ length ys =
        omega (arith, few) in
      let (s', e, r') = pop_back-Represents x s (xs ++ ys) r in
      let (t, f, q) =
        push_back-Represents fresh x (eat_top (length ys) s') xs
          (eat_top-Represents s' xs ys r' (omega arith)) in
      rw (kept, amount, e, f) (t, refl, q)

  -- Compacting keeps the last element, behind the `length xs` first ones.
  pub compact-Represents :
      (x : A) (s : Stack A) (xs ys : List A)
      → Represents s ((xs ++ ys) ++ (x ∷ []))
      → (t : Stack A) × (compact (length xs) s ≡ ok t) × Represents t (xs ++ (x ∷ []))
  unfolding compact assign
  compact-Represents x s xs ys r =
      let sum = length-append xs ys in
      let count : s.index ≡ suc (length (xs ++ ys)) =
        omega (arith, r.size, length-append (xs ++ ys) (x ∷ [])) in
      let last = r.holds (length (xs ++ ys)) x (get_elem?-append_last (xs ++ ys) x) in
      let fits : ltb (length xs) (length s.store) ≡ true =
        lt→ltb _ _ (omega (arith, r.inside, count, sum)) in
      rw (count, last, fits)
        (
          _,
          refl,
          record {
            size = omega (arith, length-append xs (x ∷ []));
            holds = λ i a h. elim (get_elem?-snoc xs x i a h) [
              | inl p ↦
                  get_elem?-set_ne s.store (length xs) i x
                    (λ f. absurd (omega (arith, f, get_elem?-lt-length xs i p)))
                  ∙ r.holds i a (
                      get_elem?-append_left (xs ++ ys) (x ∷ []) i a
                        (get_elem?-append_left xs ys i a p))
              | inr (p, f) ↦
                  subst (λ j. get_elem? (set s.store (length xs) x) j ≡ some a) (sym p)
                    (get_elem?-set_self s.store (length xs) x (omega (arith, r.inside, count, sum))
                      ∙ ap some f)
            ];
            room = omega (arith, r.room, length-set s.store (length xs) x);
            inside = omega (arith, r.inside, count, sum, length-set s.store (length xs) x);
          },
        )
