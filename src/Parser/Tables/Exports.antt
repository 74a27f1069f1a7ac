-- ===== src/Parser/Tables/Exports.antt =====
-- validate_exports(): the sort and the search for equal neighbours decide that names are distinct.
use eos_vm.Prelude.{
  ℕ, ◌≡◌, ◌≢◌, ◌↔◌, ◌⊎◌, inl, inr, refl, sym, List, [], ◌∷◌, true, false, if◌then◌else◌, All, map,
  Bool-cases, arith,
}
use mathlib.Core.Path.{subst}
use eos_vm.Prelude.Result.{ok, err, wasm_parse_exception}
use eos_vm.Types.{ExportEntry, bytes_equal}
use eos_vm.Types.Equality.{bytes_equal-eq, bytes_equal_refl}
use eos_vm.Parser.Tables.{bytes_less, insert_name, sort_names, adjacent_find, validate_exports}

less_asym : (xs ys : List ℕ) → bytes_less xs ys ≡ true → bytes_less ys xs ≡ false
unfolding bytes_less
less_asym xs [] h = cc
less_asym [] (y ∷ ys) h = refl
less_asym (x ∷ xs) (y ∷ ys) h = ground (arith, less_asym xs ys)

less_antisym : (xs ys : List ℕ) → bytes_less xs ys ≡ false → bytes_less ys xs ≡ false → xs ≡ ys
unfolding bytes_less
less_antisym [] [] h k = refl
less_antisym (x ∷ xs) [] h k = cc
less_antisym [] (y ∷ ys) h k = cc
less_antisym (x ∷ xs) (y ∷ ys) h k = ground (arith, less_antisym xs ys)

-- `xs` does not come after `ys`.
abbrev Before : List ℕ → List ℕ → Type 0
Before xs ys = bytes_less ys xs ≡ false

Before-trans : (xs ys zs : List ℕ) → Before xs ys → Before ys zs → Before xs zs
unfolding bytes_less
Before-trans [] ys zs h k = refl
Before-trans (x ∷ xs) [] zs h k = cc
Before-trans (x ∷ xs) (y ∷ ys) [] h k = cc
Before-trans (x ∷ xs) (y ∷ ys) (z ∷ zs) h k = ground (arith, Before-trans xs ys zs)

Sorted : List (List ℕ) → Type 0
Sorted [] = Unit
Sorted (n ∷ ns) = All (Before n) ns × Sorted ns

-- No name occurs twice.
unfoldable pub Distinct : List (List ℕ) → Type 0
Distinct [] = Unit
Distinct (n ∷ ns) = All (λ m. n ≢ m) ns × Distinct ns

All-weaken :
    {P Q : List ℕ → Type 0} (ns : List (List ℕ)) → ((n : List ℕ) → P n → Q n) → All P ns → All Q ns
All-weaken [] f h = tt
All-weaken (n ∷ ns) f (p, h) = (f n p, All-weaken ns f h)

-- What holds of a name and of a list holds of the list with the name put in, and conversely.
All-insert_name :
    (P : List ℕ → Type 0) (n : List ℕ) (ms : List (List ℕ))
    → P n
    → All P ms
    → All P (insert_name n ms)
unfolding insert_name
All-insert_name P n [] p h = (p, tt)
All-insert_name P n (m ∷ ms) p (q, h) = elim (Bool-cases (bytes_less m n)) [
  | inl e ↦ rw e (q, All-insert_name _ n ms p h)
  | inr e ↦ rw e (p, (q, h))
]

All-of_insert_name :
    (P : List ℕ → Type 0) (n : List ℕ) (ms : List (List ℕ))
    → All P (insert_name n ms)
    → P n × All P ms
unfolding insert_name
All-of_insert_name P n [] h = h
All-of_insert_name P n (m ∷ ms) h = elim (Bool-cases (bytes_less m n)) [
  | inl e ↦
      let (q, r) = subst (λ b. All P (if b then m ∷ insert_name n ms else n ∷ (m ∷ ms))) e h in
      let (p, s) = All-of_insert_name _ n ms r in (p, (q, s))
  | inr e ↦ subst (λ b. All P (if b then m ∷ insert_name n ms else n ∷ (m ∷ ms))) e h
]

insert_name-Sorted : (n : List ℕ) (ms : List (List ℕ)) → Sorted ms → Sorted (insert_name n ms)
unfolding insert_name Sorted
insert_name-Sorted n [] h = (tt, tt)
insert_name-Sorted n (m ∷ ms) (h, s) = elim (Bool-cases (bytes_less m n)) [
  | inl e ↦ rw e (All-insert_name _ n ms (less_asym m n e) h, insert_name-Sorted n ms s)
  | inr e ↦ rw e ((e, All-weaken ms (λ k. Before-trans n m k e) h), (h, s))
]

sort_names-Sorted : (ns : List (List ℕ)) → Sorted (sort_names ns)
unfolding sort_names Sorted
sort_names-Sorted [] = tt
sort_names-Sorted (n ∷ ns) = insert_name-Sorted n (sort_names ns) (sort_names-Sorted ns)

All-sort_names : (P : List ℕ → Type 0) (ns : List (List ℕ)) → All P ns ↔ All P (sort_names ns)
unfolding sort_names
All-sort_names P [] = (λ h. h, λ h. h)
All-sort_names P (n ∷ ns) = (
  λ (p, h). All-insert_name _ n (sort_names ns) p ((All-sort_names _ ns).0 h),
  λ h. let (p, r) = All-of_insert_name _ n (sort_names ns) h in (p, (All-sort_names _ ns).1 r),
)

insert_name-Distinct :
    (n : List ℕ) (ms : List (List ℕ))
    → Distinct (insert_name n ms) ↔ (All (λ m. n ≢ m) ms × Distinct ms)
unfolding insert_name Distinct
insert_name-Distinct n [] = (λ h. h, λ h. h)
insert_name-Distinct n (m ∷ ms) = elim (Bool-cases (bytes_less m n)) [
  | inl e ↦ rw e (
    (λ (a, d).
        let (p, q) = All-of_insert_name _ n ms a in
        let (r, s) = (insert_name-Distinct n ms).0 d in (((λ f. p (sym f)), r), (q, s))),
    (λ ((p, r), (q, s)).
        (All-insert_name _ n ms (λ f. p (sym f)) q, (insert_name-Distinct n ms).1 (r, s))),
  )
  | inr e ↦ rw e ((λ h. h), (λ h. h))
]

sort_names-Distinct : (ns : List (List ℕ)) → Distinct (sort_names ns) ↔ Distinct ns
unfolding sort_names Distinct
sort_names-Distinct [] = (λ h. h, λ h. h)
sort_names-Distinct (n ∷ ns) = (
  (λ h.
      let (a, d) = (insert_name-Distinct n (sort_names ns)).0 h in
      ((All-sort_names _ ns).1 a, (sort_names-Distinct ns).0 d)),
  (λ (a, d).
      (insert_name-Distinct n (sort_names ns)).1
        ((All-sort_names _ ns).0 a, (sort_names-Distinct ns).1 d)),
)

adjacent_find-Distinct : (ns : List (List ℕ)) → Sorted ns → adjacent_find ns ≡ false → Distinct ns
unfolding adjacent_find Sorted Distinct
adjacent_find-Distinct [] s h = tt
adjacent_find-Distinct (n ∷ []) s h = (tt, tt)
adjacent_find-Distinct (n ∷ m ∷ ms) ((b, a), (s, t)) h = elim (Bool-cases (bytes_equal n m)) [
  | inl e ↦ absurd (ground (arith, e, h))
  | inr e ↦
      let differ : n ≢ m =
        λ f. ground (arith, e, subst (λ k. bytes_equal n k ≡ true) f (bytes_equal_refl n)) in
      (
        (
          differ,
          All-weaken ms (λ k r f. differ (less_antisym n m (subst (λ l. Before m l) (sym f) r) b))
              s,
        ),
        adjacent_find-Distinct (m ∷ ms) (s, t) (ground (arith, e, h)),
      )
]

Distinct-adjacent_find : (ns : List (List ℕ)) → Distinct ns → adjacent_find ns ≡ false
unfolding adjacent_find Distinct
Distinct-adjacent_find [] d = refl
Distinct-adjacent_find (n ∷ []) d = refl
Distinct-adjacent_find (n ∷ m ∷ ms) ((p, a), d) =
    ground (arith, bytes_equal-eq n m, Distinct-adjacent_find (m ∷ ms) d)

-- Export validation passes exactly where no two exports have the same name, and throws a parse
-- exception otherwise.
pub validate_exports_iff :
    (exports : List ExportEntry)
    → ((validate_exports exports ≡ ok tt) ↔ Distinct (map (λ e. e.field_str) exports))
      × ((validate_exports exports ≡ ok tt) ⊎ (validate_exports exports ≡ err wasm_parse_exception))
unfolding validate_exports
validate_exports_iff exports =
    let names = map (λ e. e.field_str) exports in
    let sound = adjacent_find-Distinct (sort_names names) (sort_names-Sorted names) in
    let complete = Distinct-adjacent_find (sort_names names) in
    let (back, forth) = sort_names-Distinct names in
    elim (Bool-cases (adjacent_find (sort_names names))) [
      | inl e ↦ rw e (((λ h. cc), (λ d. absurd (ground (arith, e, complete (forth d))))), inr refl)
      | inr e ↦ rw e (((λ h. back (sound e)), (λ d. refl)), inl refl)
    ]
