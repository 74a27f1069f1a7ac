-- ===== src/Interpreter/Segments/Stores.antt =====
-- Where a list is copied to.
use eos_vm.Prelude.{
  ℕ, zero, suc, ◌+◌, ◌≤◌, ◌<◌, ◌≡◌, ◌⊎◌, inl, inr, refl, sym, ap, ◌∙◌, List, [], ◌∷◌, some, ◌==◌,
  length, get_elem?, All, Bool-cases, arith,
}
use eos_vm.Interpreter.Bulk.{put}
use eos_vm.Interpreter.Bulk.Cells.{put_self, put-other}
use eos_vm.Interpreter.Segments.{store_list}

module _ {A : Type 0} where
  -- A cell outside the range keeps its value.
  pub store_list-out :
      (xs : List A) (d : ℕ) (cells : ℕ → A) (i : ℕ)
      → (i < d) ⊎ (d + length xs ≤ i)
      → store_list xs d cells i ≡ cells i
  unfolding store_list
  store_list-out [] d cells i o = refl
  store_list-out (x ∷ xs) d cells i o =
      store_list-out xs (d + 1) (put d x cells) i (ground (arith, o))
      ∙ put-other d x cells i (ground (arith, o))

  -- A cell inside the range has the element at its place.
  pub store_list-in :
      (xs : List A) (d : ℕ) (cells : ℕ → A) (i : ℕ)
      → i < length xs
      → get_elem? xs i ≡ some (store_list xs d cells (d + i))
  unfolding store_list
  store_list-in [] d cells i h = absurd (omega arith)
  store_list-in (x ∷ xs) d cells zero h = ap some (
      sym (
        store_list-out xs (d + 1) (put d x cells) (d + 0) (inl (omega arith))
        ∙ ap (put d x cells) (omega arith)
        ∙ put_self d x cells))
  store_list-in (x ∷ xs) d cells (suc i) h =
      store_list-in xs (d + 1) (put d x cells) i (omega (arith, h))
      ∙ ap (λ j. some (store_list xs (d + 1) (put d x cells) j)) (omega arith)

  -- What holds of the elements and of the cells below a bound holds of the cells behind the copy.
  pub store_list-All :
      (P : A → Type 0) (bound : ℕ) (xs : List A) (d : ℕ) (cells : ℕ → A)
      → All P xs
      → ((i : ℕ) → i < bound → P (cells i))
      → (i : ℕ) → i < bound
      → P (store_list xs d cells i)
  unfolding store_list
  store_list-All P bound [] d cells a h = h
  store_list-All P bound (x ∷ xs) d cells (p, a) h =
      store_list-All P bound xs (d + 1) (put d x cells) a
        λ i l. elim (Bool-cases (i == d)) [ inl e ↦ rw e p | inr e ↦ rw e (h i l) ]
