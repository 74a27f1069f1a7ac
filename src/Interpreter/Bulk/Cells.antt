-- ===== src/Interpreter/Bulk/Cells.antt =====
-- Cells that are moved one by one, upwards or downwards, are moved as a whole.
use eos_vm.Prelude.{
  ℕ, suc, ◌+◌, ◌-◌, ◌≤◌, ◌<◌, ◌≡◌, ◌⊎◌, inl, inr, refl, ◌∙◌, sym, ap, ◌≢◌, le→leb, lt→ltb, ◌&&◌,
  ltb, leb, if◌then◌else◌, arith,
}
use eos_vm.Interpreter.Bulk.{put}

-- The cells behind a move of `n` cells from `s` to `d`: the moved ones are those that stood at `s`
-- before, also where the two ranges overlap.
abbrev pub moved : {A : Type 0} → ℕ → ℕ → ℕ → (ℕ → A) → ℕ → A
moved n s d cells i = if leb d i && ltb i (d + n) then cells (s + (i - d)) else cells i

module _ {A : Type 0} where
  pub moved-in :
      (n s d : ℕ) (cells : ℕ → A) (i : ℕ)
      → d ≤ i
      → i < d + n
      → moved n s d cells i ≡ cells (s + (i - d))
  moved-in n s d cells i h k = rw (le→leb d i h, lt→ltb i (d + n) k) refl

  pub moved-out :
      (n s d : ℕ) (cells : ℕ → A) (i : ℕ) → (i < d) ⊎ (d + n ≤ i) → moved n s d cells i ≡ cells i
  moved-out n s d cells i o = ground (arith, o)

  pub put_self : (d : ℕ) (a : A) (cells : ℕ → A) → put d a cells d ≡ a
  put_self d a cells = ground arith

  pub put-other : (d : ℕ) (a : A) (cells : ℕ → A) (i : ℕ) → i ≢ d → put d a cells i ≡ cells i
  put-other d a cells i h = ground (arith, h)

  -- One cell upwards, and then the rest.
  pub moved-up :
      (n s d : ℕ) (cells : ℕ → A) (i : ℕ)
      → d ≤ s
      → moved n (s + 1) (d + 1) (put d (cells s) cells) i ≡ moved (suc n) s d cells i
  moved-up n s d cells i h = elim (order_cases i d n) [
    | inl o ↦
        moved-out n (s + 1) (d + 1) (put d (cells s) cells) i (ground (arith, o))
        ∙ put-other d (cells s) cells i (ground (arith, o))
        ∙ sym (moved-out (suc n) s d cells i (ground (arith, o)))
    | inr (inl e) ↦
        moved-out n (s + 1) (d + 1) (put d (cells s) cells) i (inl (omega arith))
        ∙ ap (put d (cells s) cells) e
        ∙ put_self d (cells s) cells
        ∙ sym (ap cells (omega arith))
        ∙ sym (moved-in (suc n) s d cells i (omega arith) (omega arith))
    | inr (inr (l, k)) ↦
        moved-in n (s + 1) (d + 1) (put d (cells s) cells) i (omega arith) (omega arith)
        ∙ put-other d (cells s) cells (s + 1 + (i - (d + 1))) (ground arith)
        ∙ ap cells (omega arith)
        ∙ sym (moved-in (suc n) s d cells i (omega arith) (omega arith))
  ]
    where
      order_cases :
          (i d n : ℕ) → ((i < d) ⊎ (d + suc n ≤ i)) ⊎ ((i ≡ d) ⊎ ((d < i) × (i < d + suc n)))
      order_cases i d n = ground arith

  -- The last cell, and then the rest.
  pub moved-down :
      (n s d : ℕ) (cells : ℕ → A) (i : ℕ)
      → s < d
      → moved n s d (put (d + n) (cells (s + n)) cells) i ≡ moved (suc n) s d cells i
  moved-down n s d cells i h = elim (order_cases i d n) [
    | inl o ↦
        moved-out n s d (put (d + n) (cells (s + n)) cells) i (ground (arith, o))
        ∙ put-other (d + n) (cells (s + n)) cells i (ground (arith, o))
        ∙ sym (moved-out (suc n) s d cells i (ground (arith, o)))
    | inr (inl e) ↦
        moved-out n s d (put (d + n) (cells (s + n)) cells) i (inr (omega arith))
        ∙ ap (put (d + n) (cells (s + n)) cells) e
        ∙ put_self (d + n) (cells (s + n)) cells
        ∙ sym (ap cells (omega arith))
        ∙ sym (moved-in (suc n) s d cells i (omega arith) (omega arith))
    | inr (inr (l, k)) ↦
        moved-in n s d (put (d + n) (cells (s + n)) cells) i (omega arith) (omega arith)
        ∙ put-other (d + n) (cells (s + n)) cells (s + (i - d)) (ground arith)
        ∙ sym (moved-in (suc n) s d cells i (omega arith) (omega arith))
  ]
    where
      order_cases :
          (i d n : ℕ) → ((i < d) ⊎ (d + suc n ≤ i)) ⊎ ((i ≡ d + n) ⊎ ((d ≤ i) × (i < d + n)))
      order_cases i d n = ground arith
