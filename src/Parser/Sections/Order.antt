-- ===== src/Parser/Sections/Order.antt =====
-- parser.hpp: the order of the sections that parse_module asks for.
use eos_vm.Prelude.{
  ℕ, ◌+◌, ◌≤◌, ◌<◌, ◌≡◌, refl, List, [], ◌∷◌, Option, none, some, ◌||◌, ltb, ◌==◌, get_elem?, set,
  replicate, max, Bool-cases, inl, inr, All, get_elem?-lt-length, arith,
}
use eos_vm.Prelude.Result.{
  Result, ok, ok-inj, or_throw, eos_vm_assert, wasm_parse_exception, ◌>>=◌, ◌>>◌, >>=-eq-ok,
}

-- The loop of make_section_order: `result[sec] = i++`.
unfoldable pub place_sections : List ℕ → ℕ → List ℕ → List ℕ
place_sections [] i result = result
place_sections (sec ∷ secs) i result = place_sections secs (i + 1) (set result sec i)

-- make_section_order(); the data count section is 12, the code section 10 and the data section 11.
unfoldable pub make_section_order : List ℕ
make_section_order =
    place_sections (1 ∷ 2 ∷ 3 ∷ 4 ∷ 5 ∷ 6 ∷ 7 ∷ 8 ∷ 9 ∷ 12 ∷ 10 ∷ 11 ∷ []) 1 (replicate 13 0)

-- The assertions of parse_module on the id of a section, with highest_section_id before and after.
unfoldable pub next_section : ℕ → ℕ → Result ℕ
next_section highest id = do
  order ← or_throw (get_elem? make_section_order id) wasm_parse_exception
  eos_vm_assert (id == 0 || ltb highest order) wasm_parse_exception
  ok (max highest order)

-- The ids of a module's sections, one after the other.
unfoldable pub section_ids : ℕ → List ℕ → Result ℕ
section_ids highest [] = ok highest
section_ids highest (id ∷ ids) = do highest' ← next_section highest id; section_ids highest' ids

-- The places of two sections, the first before the second, unless one of them is a custom section.
pub record Before (i j : ℕ) : Type 0 where
  pub places :
      (o p : ℕ)
      → get_elem? make_section_order i ≡ some o
      → get_elem? make_section_order j ≡ some p
      → 1 ≤ i
      → 1 ≤ j
      → o < p

unfoldable pub InOrder : List ℕ → Type 0
InOrder [] = Unit {0}
InOrder (i ∷ is) = (i < 13) × All (Before i) is × InOrder is

-- What the assertions let through.
record Passed (highest id highest' : ℕ) : Type 0 where
  order : ℕ
  known : get_elem? make_section_order id ≡ some order
  above : 1 ≤ id → highest < order
  result : max highest order ≡ highest'

next_section-inv :
    (highest id highest' : ℕ) → next_section highest id ≡ ok highest' → Passed highest id highest'
unfolding next_section
next_section-inv highest id highest' h = go (get_elem? make_section_order id) refl
  where
    go : (o : Option ℕ) → get_elem? make_section_order id ≡ o → Passed highest id highest'
    go none e = cc (rw e at h)
    go (some order) e = elim (Bool-cases (id == 0 || ltb highest order)) [
      | inl f ↦ record {
        order = order;
        known = e;
        above = λ k. ground (arith, f, k);
        result = ok-inj (rw (e, f) at h);
      }
      | inr f ↦ cc (rw (e, f) at h)
    ]

-- A section that passes, other than a custom one, has its place above the highest one, and is the
-- highest one from there on.
pub next_section-place :
    (highest id : ℕ) {order highest' : ℕ}
    → get_elem? make_section_order id ≡ some order
    → 1 ≤ id
    → next_section highest id ≡ ok highest'
    → (highest < order) × (highest' ≡ order)
next_section-place highest id {order} {highest'} known l h =
    let q = next_section-inv highest id highest' h in
    let same : q.order ≡ order = cc (q.known, known) in
    let below : highest < order = omega (arith, q.above l, same) in
    (below, ground (arith, q.result, below, same))

-- A custom section leaves the highest place.
pub next_section-custom :
    (highest : ℕ) {highest' : ℕ} → next_section highest 0 ≡ ok highest' → highest ≡ highest'
unfolding make_section_order place_sections
next_section-custom highest {highest'} h =
    let q = next_section-inv highest 0 highest' h in
    let zeroth : some 0 ≡ some q.order = q.known in
    let none_above : 0 ≡ q.order = ground (arith, zeroth) in omega (arith, q.result, none_above)

-- A section that may come behind the highest place.
record Above (highest j : ℕ) : Type 0 where
  place : (p : ℕ) → get_elem? make_section_order j ≡ some p → 1 ≤ j → highest < p

Above-All : (h k : ℕ) (ids : List ℕ) → h ≤ k → All (Above k) ids → All (Above h) ids
Above-All h k [] l a = tt
Above-All h k (j ∷ ids) l (a, rest) =
    (record { place = λ p e m. omega (arith, a.place p e m) }, Above-All h k ids l rest)

Before-All :
    (i o : ℕ) (ids : List ℕ)
    → get_elem? make_section_order i ≡ some o
    → All (Above o) ids
    → All (Before i) ids
Before-All i o [] e a = tt
Before-All i o (j ∷ ids) e (a, rest) = (
  record {
    places = λ q p f g k l.
        let x = a.place p g l in let same : o ≡ q = cc (e, f) in omega (arith, x, same);
  },
  Before-All i o ids e rest,
)

section_ids-Above : (h h' : ℕ) (ids : List ℕ) → section_ids h ids ≡ ok h' → All (Above h) ids
unfolding section_ids
section_ids-Above h h' [] e = tt
section_ids-Above h h' (i ∷ ids) e =
    let (k, f, g) = >>=-eq-ok (next_section h i) _ e in
    let q = next_section-inv h i k f in
    (
      record {
        place = λ p d m. let same : q.order ≡ p = cc (q.known, d) in omega (arith, q.above m, same);
      },
      Above-All h k ids (ground (arith, q.result)) (section_ids-Above k h' ids g),
    )

known_id : (i : ℕ) {o : ℕ} → get_elem? make_section_order i ≡ some o → i < 13
unfolding make_section_order place_sections
known_id i e = get_elem?-lt-length make_section_order i e

-- When the assertions let the ids of a module's sections pass, the ids are those of sections, and the
-- sections other than the custom ones stand in the order of make_section_order, each once at most.
pub section_ids-InOrder : (h h' : ℕ) (ids : List ℕ) → section_ids h ids ≡ ok h' → InOrder ids
unfolding InOrder section_ids
section_ids-InOrder h h' [] e = tt
section_ids-InOrder h h' (i ∷ ids) e =
    let (k, f, g) = >>=-eq-ok (next_section h i) _ e in
    let q = next_section-inv h i k f in
    (
      known_id i q.known,
      Before-All i q.order ids q.known
          (Above-All q.order k ids (ground (arith, q.result)) (section_ids-Above k h' ids g)),
      section_ids-InOrder k h' ids g,
    )
