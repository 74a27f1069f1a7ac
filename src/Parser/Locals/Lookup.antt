-- ===== src/Parser/Locals/Lookup.antt =====
-- The lookup by boundaries is the lookup in the list of all types.
use eos_vm.Prelude.{
  ℕ, zero, suc, ◌+◌, ◌-◌, ◌^◌, ◌≤◌, ◌<◌, ◌≡◌, inl, inr, refl, sym, ap, ◌∙◌, List, [], ◌∷◌, ◌++◌,
  none, some, ltb, leb, ltb→lt, ◌==◌, false, Bool-cases, length, length-append, length-replicate,
  get_elem?, get_elem?-some, replicate, arith,
}
use eos_vm.Prelude.Result.{
  Result, ok, ◌>>=◌, >>=-eq-ok, ok-inj, eos_vm_assert, or_throw, undefined, wasm_parse_exception,
}
use eos_vm.Types.{FuncType, LocalEntry}
use eos_vm.Parser.Locals.{
  LocalTypes, next_boundaries, local_types, last_boundary, upper_bound, type_at,
}

-- The types of the locals, one after the other.
unfoldable pub expand : List LocalEntry → List ℕ
expand [] = []
expand (l ∷ ls) = replicate l.count l.type ++ expand ls

module _ {A : Type 0} where
  get_elem?-append_left :
      (xs ys : List A) (i : ℕ) → i < length xs → get_elem? (xs ++ ys) i ≡ get_elem? xs i
  get_elem?-append_left [] ys i h = absurd (omega arith)
  get_elem?-append_left (x ∷ xs) ys zero h = refl
  get_elem?-append_left (x ∷ xs) ys (suc i) h = get_elem?-append_left xs ys i (omega arith)

  get_elem?-append_right :
      (xs ys : List A) (i : ℕ) → get_elem? (xs ++ ys) (length xs + i) ≡ get_elem? ys i
  get_elem?-append_right [] ys i = rw (ze i) refl
    where
      ze : (i : ℕ) → zero + i ≡ i
      ze i = omega arith
  get_elem?-append_right (x ∷ xs) ys i = rw (se (length xs) i) (get_elem?-append_right xs ys i)
    where
      se : (a b : ℕ) → suc a + b ≡ suc (a + b)
      se a b = omega arith

  get_elem?-replicate : (n : ℕ) (a : A) (i : ℕ) → i < n → get_elem? (replicate n a) i ≡ some a
  get_elem?-replicate zero a i h = absurd (omega arith)
  get_elem?-replicate (suc n) a zero h = refl
  get_elem?-replicate (suc n) a (suc i) h = get_elem?-replicate n a i (omega arith)

  get_elem?-beyond : (xs : List A) (i : ℕ) → length xs ≤ i → get_elem? xs i ≡ none
  get_elem?-beyond [] i h = refl
  get_elem?-beyond (x ∷ xs) zero h = absurd (omega arith)
  get_elem?-beyond (x ∷ xs) (suc i) h = get_elem?-beyond xs i (omega arith)

-- The last boundary is the number of all parameters and locals.
last_boundary_lem :
    (count : ℕ) (ls : List LocalEntry) (bs : List ℕ)
    → next_boundaries count ls ≡ ok bs
    → last_boundary (count ∷ bs) ≡ count + length (expand ls)
unfolding next_boundaries last_boundary expand
last_boundary_lem count [] bs h = rw (← ok-inj h) (omega arith)
last_boundary_lem count (l ∷ ls) bs h =
    let (_, _, k) =
      >>=-eq-ok (eos_vm_assert (leb count (2 ^ 32 - 1 - l.count)) wasm_parse_exception) _ h in
    let (rest, e, m) = >>=-eq-ok (next_boundaries (count + l.count) ls) _ k in
    rw (← ok-inj m) (
      omega (
        arith,
        last_boundary_lem (count + l.count) ls rest e,
        length-append (replicate l.count l.type) (expand ls),
        length-replicate l.count l.type,
      ))

-- The local of an index behind `count`, found by the boundaries.
find : List LocalEntry → List ℕ → ℕ → Result ℕ
find ls bs i = do l ← or_throw (get_elem? ls (upper_bound bs i)) undefined; ok l.type

find_lem :
    (count : ℕ) (ls : List LocalEntry) (bs : List ℕ) (i : ℕ)
    → next_boundaries count ls ≡ ok bs
    → i < length (expand ls)
    → find ls bs (count + i) ≡ or_throw (get_elem? (expand ls) i) wasm_parse_exception
unfolding find next_boundaries upper_bound expand
find_lem count [] bs i h m = absurd (omega arith)
find_lem count (l ∷ ls) bs i h m =
    let (_, _, k) =
      >>=-eq-ok (eos_vm_assert (leb count (2 ^ 32 - 1 - l.count)) wasm_parse_exception) _ h in
    let (rest, e, q) = >>=-eq-ok (next_boundaries (count + l.count) ls) _ k in
    let first = length-replicate l.count l.type in
    let all = length-append (replicate l.count l.type) (expand ls) in
    elim (Bool-cases (ltb (count + i) (count + l.count))) [
      | inl f ↦
          let near : i < l.count = omega (arith, ltb→lt _ _ f) in
          rw
            (
              ← ok-inj q,
              f,
              get_elem?-append_left (replicate l.count l.type) (expand ls) i (omega arith),
              get_elem?-replicate l.count l.type i near,
            )
            refl
      | inr f ↦
          let far : l.count ≤ i = ground (arith, f) in
          let split : i ≡ length (replicate l.count l.type) + (i - l.count) =
            omega (arith, far, first) in
          rw (← ok-inj q, f)
            (ap (λ j. find ls rest j) (omega (arith, far))
              ∙ find_lem (count + l.count) ls rest (i - l.count) e
                  (omega (arith, all, first, m, far))
              ∙ ap (λ o. or_throw o wasm_parse_exception)
                  (sym (get_elem?-append_right (replicate l.count l.type) (expand ls) (i - l.count))
                    ∙ ap (get_elem? (replicate l.count l.type ++ expand ls)) (sym split)))
    ]

suc-eq-zero : (n : ℕ) → (suc n == 0) ≡ false
suc-eq-zero n = ground arith

suc-sub-one : (n : ℕ) → suc n - 1 ≡ n
suc-sub-one n = omega arith

-- A lookup that does not miss is the same whatever a miss means.
known :
    (xs : List ℕ) (i : ℕ)
    → i < length xs
    → or_throw (get_elem? xs i) undefined ≡ or_throw (get_elem? xs i) wasm_parse_exception
known xs i h = let (b, e) = get_elem?-some xs i h in rw e refl

-- Where the constructor returns, an index is looked up in the types of the parameters and of all
-- locals, one after the other, and an index behind them throws.
pub type_at_lem :
    (ft : FuncType) (ls : List LocalEntry) (t : LocalTypes) (i : ℕ)
    → local_types ft ls ≡ ok t
    → type_at t i ≡ or_throw (get_elem? (ft.param_types ++ expand ls) i) wasm_parse_exception
unfolding local_types type_at upper_bound find
type_at_lem ft ls t i h =
    let (bs, e, k) = >>=-eq-ok (next_boundaries (length ft.param_types) ls) _ h in
    let size = last_boundary_lem (length ft.param_types) ls bs e in
    let all = length-append ft.param_types (expand ls) in
    rw (← ok-inj k) (elim (Bool-cases (ltb i (last_boundary (length ft.param_types ∷ bs)))) [
      | inr f ↦
          rw (f, get_elem?-beyond (ft.param_types ++ expand ls) i (ground (arith, f, size, all)))
            refl
      | inl f ↦
          let within : i < length ft.param_types + length (expand ls) =
            omega (arith, ltb→lt _ _ f, size) in
          elim (Bool-cases (ltb i (length ft.param_types))) [
            | inl g ↦
                rw (f, g, get_elem?-append_left ft.param_types (expand ls) i (ltb→lt _ _ g))
                  (known ft.param_types i (ltb→lt _ _ g))
            | inr g ↦
                let split : i ≡ length ft.param_types + (i - length ft.param_types) =
                  ground (arith, g) in
                rw (f, g, suc-eq-zero (upper_bound bs i), suc-sub-one (upper_bound bs i))
                  (ap (λ j. find ls bs j) split
                    ∙ find_lem (length ft.param_types) ls bs (i - length ft.param_types) e
                        (ground (arith, g, within))
                    ∙ ap (λ o. or_throw o wasm_parse_exception)
                        (sym (
                            get_elem?-append_right ft.param_types (expand ls)
                              (i - length ft.param_types))
                          ∙ ap (get_elem? (ft.param_types ++ expand ls)) (sym split)))
          ]
    ])
