-- ===== src/Parser/Tables/Types.antt =====
-- normalize_types(): comparing aliases is comparing the types.
use eos_vm.Prelude.{
  ℕ, zero, suc, ◌≡◌, ◌↔◌, refl, sym, ◌∙◌, ap, List, [], ◌∷◌, ◌++◌, true, false, none, some,
  get_elem?, Bool-cases, inl, inr, arith,
}
use mathlib.Core.Path.{subst}
use eos_vm.Types.{FuncType, Module, func_type_equal}
use eos_vm.Types.Equality.{func_type_equal_iff}
use eos_vm.Parser.Tables.{find_alias, find_aliases, type_aliases}

equal_refl : (a : FuncType) → func_type_equal a a ≡ true
equal_refl a = (func_type_equal_iff a a).1 (refl, refl, refl, λ _. refl)

equal_sym : (a b : FuncType) → func_type_equal a b ≡ true → func_type_equal b a ≡ true
equal_sym a b h =
    let (p, q, r, s) = (func_type_equal_iff a b).0 h in
    (func_type_equal_iff b a).1 (sym p, sym q, sym r, λ z. sym (s (r ∙ z)))

equal_trans :
    (a b c : FuncType)
    → func_type_equal a b ≡ true
    → func_type_equal b c ≡ true
    → func_type_equal a c ≡ true
equal_trans a b c h k =
    let (p, q, r, s) = (func_type_equal_iff a b).0 h in
    let (t, u, v, w) = (func_type_equal_iff b c).0 k in
    (func_type_equal_iff a c).1 (p ∙ t, q ∙ u, r ∙ v, λ z. s z ∙ w (sym r ∙ z))

-- Equal types are equal to the same types.
equal_cong :
    (t a b : FuncType) → func_type_equal a b ≡ true → func_type_equal t a ≡ func_type_equal t b
equal_cong t a b h = elim (Bool-cases (func_type_equal t a)) [
  | inl e ↦ e ∙ sym (equal_trans t a b e h)
  | inr e ↦ elim (Bool-cases (func_type_equal t b)) [
    | inl f ↦ absurd (differ (sym e ∙ equal_trans t b a f (equal_sym a b h)))
    | inr f ↦ e ∙ sym f
  ]
]
  where
    differ : false ≡ true → ⊥
    differ p = cc

find_alias_cong :
    (ts : List FuncType) (a b : FuncType)
    → func_type_equal a b ≡ true
    → find_alias ts a ≡ find_alias ts b
unfolding find_alias
find_alias_cong [] a b h = refl
find_alias_cong (t ∷ ts) a b h = rw (equal_cong t a b h, find_alias_cong ts a b h) refl

some-inj : {a b : FuncType} → some a ≡ some b → a ≡ b
some-inj {a = a} h = ap (λ o. elim o [ some x ↦ x | none ↦ a ]) h

-- A type of the list and another one have the same alias only where they are equal.
find_alias-inj :
    (ts : List FuncType) (a b : FuncType) (i : ℕ)
    → get_elem? ts i ≡ some a
    → find_alias ts a ≡ find_alias ts b
    → func_type_equal a b ≡ true
unfolding find_alias
find_alias-inj [] a b i g h = cc
find_alias-inj (t ∷ ts) a b zero g h = elim (Bool-cases (func_type_equal t b)) [
  | inl e ↦ subst (λ x. func_type_equal x b ≡ true) (some-inj g) e
  | inr e ↦
      let same : func_type_equal t a ≡ true =
        subst (λ x. func_type_equal t x ≡ true) (some-inj g) (equal_refl t) in
      absurd (ground (arith, rw (same, e) at h))
]
find_alias-inj (t ∷ ts) a b (suc i) g h = elim (Bool-cases (func_type_equal t a)) [
  | inl e ↦ elim (Bool-cases (func_type_equal t b)) [
    | inl f ↦ equal_trans a t b (equal_sym t a e) f
    | inr f ↦ absurd (ground (arith, rw (e, f) at h))
  ]
  | inr e ↦ elim (Bool-cases (func_type_equal t b)) [
    | inl f ↦ absurd (ground (arith, rw (e, f) at h))
    | inr f ↦ find_alias-inj ts a b i g (ground (arith, rw (e, f) at h))
  ]
]

-- The search may go past the type itself, which it finds.
find_alias_stop :
    (before : List FuncType) (a : FuncType) (after : List FuncType)
    → find_alias before a ≡ find_alias (before ++ (a ∷ after)) a
unfolding find_alias
find_alias_stop [] a after = rw (equal_refl a) refl
find_alias_stop (t ∷ before) a after = rw⁻¹ (find_alias_stop before a after) refl

snoc :
    (before : List FuncType) (t : FuncType) (after : List FuncType)
    → (before ++ (t ∷ [])) ++ after ≡ before ++ (t ∷ after)
snoc [] t after = refl
snoc (x ∷ before) t after = ap (λ ts. x ∷ ts) (snoc before t after)

find_aliases_at :
    (before after : List FuncType) (i : ℕ) (a : FuncType)
    → get_elem? after i ≡ some a
    → get_elem? (find_aliases before after) i ≡ some (find_alias (before ++ after) a)
unfolding find_aliases
find_aliases_at before [] i a g = cc
find_aliases_at before (t ∷ after) zero a g =
    subst (λ x. some (find_alias before t) ≡ some (find_alias (before ++ (t ∷ after)) x))
      (some-inj g) (ap some (find_alias_stop before t after))
find_aliases_at before (t ∷ after) (suc i) a g =
    subst (λ ts. get_elem? (find_aliases (before ++ (t ∷ [])) after) i ≡ some (find_alias ts a))
      (snoc before t after) (find_aliases_at (before ++ (t ∷ [])) after i a g)

-- Two types of a module have the same alias exactly where `operator==` finds them equal.
pub type_aliases_iff :
    (mod' : Module) (i j : ℕ) (a b : FuncType)
    → get_elem? mod'.types i ≡ some a
    → get_elem? mod'.types j ≡ some b
    → (k : ℕ) × (l : ℕ) × (get_elem? (type_aliases mod') i ≡ some k)
      × (get_elem? (type_aliases mod') j ≡ some l)
      × ((k ≡ l) ↔ (func_type_equal a b ≡ true))
unfolding type_aliases
type_aliases_iff mod' i j a b g h = (
  find_alias mod'.types a,
  find_alias mod'.types b,
  find_aliases_at [] mod'.types i a g,
  find_aliases_at [] mod'.types j b h,
  (find_alias-inj mod'.types a b i g, find_alias_cong mod'.types a b),
)
