-- ===== src/Interpreter/Stack/Places.antt =====
-- Reads and writes in the middle of the stack.
use eos_vm.Prelude.{
  ℕ, ◌<◌, ◌≡◌, ◌≢◌, inl, inr, refl, sym, ◌∙◌, List, some, Bool-cases, true, ltb, leb, lt→ltb,
  le→leb, ◌==◌, length, get_elem?, set, length-set, get_elem?-set_self, get_elem?-set_ne,
  get_elem?-lt-length, arith,
}
use mathlib.Core.Path.{subst}
use eos_vm.Prelude.Result.{ok}
use eos_vm.Interpreter.Stack.{Stack, assign, get_index, set_index}
use eos_vm.Interpreter.Stack.Refinement.{Represents}

module _ {A : Type 0} where
  -- A list that agrees with another at a place agrees with it after both are written.
  set_holds :
      (store xs : List A) (i j : ℕ) (e a : A)
      → i < length store
      → i < length xs
      → (get_elem? xs j ≡ some a → get_elem? store j ≡ some a)
      → get_elem? (set xs i e) j ≡ some a
      → get_elem? (set store i e) j ≡ some a
  set_holds store xs i j e a l m same h = elim (Bool-cases (i == j)) [
    | inl f ↦
        let q : i ≡ j = ground (arith, f) in
        subst (λ k. get_elem? (set store i e) k ≡ some a) q
          (get_elem?-set_self store i e l
            ∙ sym (get_elem?-set_self xs i e m)
            ∙ subst (λ k. get_elem? (set xs i e) k ≡ some a) (sym q) h)
    | inr f ↦
        let q : i ≢ j = ground (arith, f) in
        get_elem?-set_ne store i j e q ∙ same (sym (get_elem?-set_ne xs i j e q) ∙ h)
  ]

  -- Reading a place of the stack returns its element.
  pub get_index-Represents :
      (s : Stack A) (xs : List A) (i : ℕ) (a : A)
      → Represents s xs
      → get_elem? xs i ≡ some a
      → get_index i s ≡ ok a
  unfolding get_index
  get_index-Represents s xs i a r h =
      let inside : leb i s.index ≡ true =
        le→leb _ _ (omega (arith, r.size, get_elem?-lt-length xs i h)) in
      rw (inside, r.holds i a h) refl

  -- Writing a place of the stack changes that element only.
  pub set_index-Represents :
      (s : Stack A) (xs : List A) (i : ℕ) (e : A)
      → Represents s xs
      → i < length xs
      → (t : Stack A) × (set_index i e s ≡ ok t) × Represents t (set xs i e)
  unfolding set_index assign
  set_index-Represents s xs i e r l =
      let inside : leb i s.index ≡ true = le→leb _ _ (omega (arith, r.size, l)) in
      let fits : ltb i (length s.store) ≡ true = lt→ltb _ _ (omega (arith, r.size, r.inside, l)) in
      rw (inside, fits)
        (
          _,
          refl,
          record {
            size = r.size ∙ sym (length-set xs i e);
            holds = λ j a h.
                set_holds s.store xs i j e a (omega (arith, r.size, r.inside, l)) l (r.holds j a) h;
            room = omega (arith, r.room, length-set s.store i e);
            inside = omega (arith, r.inside, length-set s.store i e);
          },
        )
