-- ===== src/Interpreter/Segments/Memory.antt =====
-- memory.init writes the bytes of its segment, or throws.
use eos_vm.Prelude.{
  ℕ, zero, suc, ◌+◌, ◌*◌, ◌≤◌, ◌<◌, ◌≡◌, ◌⊎◌, inl, inr, refl, sym, ◌∙◌, ap, List, [], ◌∷◌, Bool,
  some, ◌==◌, if◌then◌else◌, leb, leb→le, length, get_elem?, take, drop, length-take, length-drop,
  Bool-cases, arith,
}
use eos_vm.Prelude.Result.{ok, err, wasm_memory_exception}
use eos_vm.Types.{DataSegment, Module}
use eos_vm.Interpreter.Memory.{page_size}
use eos_vm.Interpreter.Bulk.{validate_pointer}
use eos_vm.Interpreter.Segments.{Instance, store_list, init_linear_memory}
use eos_vm.Interpreter.Segments.Stores.{store_list-in, store_list-out}

get_elem?-take : (n : ℕ) (xs : List ℕ) (i : ℕ) → i < n → get_elem? (take n xs) i ≡ get_elem? xs i
get_elem?-take zero xs i h = absurd (omega arith)
get_elem?-take (suc n) [] i h = refl
get_elem?-take (suc n) (x ∷ xs) zero h = refl
get_elem?-take (suc n) (x ∷ xs) (suc i) h = get_elem?-take n xs i (omega (arith, h))

get_elem?-drop : (n : ℕ) (xs : List ℕ) (i : ℕ) → get_elem? (drop n xs) i ≡ get_elem? xs (n + i)
get_elem?-drop zero xs i = let e : i ≡ zero + i = omega arith in ap (get_elem? xs) e
get_elem?-drop (suc n) [] i = refl
get_elem?-drop (suc n) (x ∷ xs) i =
    let e : suc (n + i) ≡ suc n + i = omega arith in
    get_elem?-drop n xs i ∙ ap (get_elem? (x ∷ xs)) e

-- The memory behind memory.init of a segment.
pub record IsInitialised (contents : List ℕ) (d s n : ℕ) (before after : ℕ → ℕ) : Type 0 where
  pub inside : (i : ℕ) → i < n → get_elem? contents (s + i) ≡ some (after (d + i))
  pub outside : (i : ℕ) → (i < d) ⊎ (d + n ≤ i) → after i ≡ before i

store_list-IsInitialised :
    (contents : List ℕ) (d s n : ℕ) (raw : ℕ → ℕ)
    → s + n ≤ length contents
    → IsInitialised contents d s n raw (store_list (take n (drop s contents)) d raw)
store_list-IsInitialised contents d s n raw h =
    let xs = take n (drop s contents) in
    let size : length xs ≡ n =
      length-take n (drop s contents) ∙ ground (arith, length-drop s contents) in
    record {
      inside = λ i l.
          sym (get_elem?-drop s contents i)
          ∙ sym (get_elem?-take n (drop s contents) i l)
          ∙ store_list-in xs d raw i (omega (arith, l, size));
      outside = λ i o. store_list-out xs d raw i (ground (arith, o, size));
    }

nothing-IsInitialised :
    (contents : List ℕ) (d s n : ℕ) (raw : ℕ → ℕ) → n ≡ 0 → IsInitialised contents d s n raw raw
nothing-IsInitialised contents d s n raw e = record {
  inside = λ i l. absurd (omega (arith, e, l));
  outside = λ i o. refl;
}

-- The length of a segment, as memory.init sees it.
abbrev available : Bool → DataSegment → ℕ
available dropped seg = if dropped then 0 else length seg.contents

available-le : (dropped : Bool) (seg : DataSegment) → available dropped seg ≤ length seg.contents
available-le dropped seg = ground arith

-- memory.init throws a memory exception where it reads behind the segment, which is empty once it was
-- dropped, or writes behind the memory; else it writes the bytes of the segment, and changes no other
-- byte.
pub init_linear_memory_outcome :
    (mod' : Module) (x d s n page : ℕ) (c : Instance) (dropped : Bool) (seg : DataSegment)
    → get_elem? mod'.datas x ≡ some seg
    → get_elem? c.dropped_data x ≡ some dropped
    → c.memory.page ≡ some page
    → (((available dropped seg < s + n) ⊎ (page_size * page < d + n))
        × (init_linear_memory mod' x d s n c ≡ err wasm_memory_exception))
      ⊎ ((s + n ≤ available dropped seg)
          × (d + n ≤ page_size * page)
          × ((raw : ℕ → ℕ) × (init_linear_memory mod' x d s n c
                ≡ ok (record c { memory = record c.memory { raw = raw } }))
              × IsInitialised seg.contents d s n c.memory.raw raw))
unfolding init_linear_memory validate_pointer
init_linear_memory_outcome mod' x d s n page c dropped seg a b e =
    let contents = seg.contents in
    let len = available dropped seg in
    elim (Bool-cases (leb (s + n) len)) [
      | inr f ↦ inl (inl (ground (arith, f)), rw (a, b, f) refl)
      | inl f ↦ elim (Bool-cases (leb (d + n) (page_size * page))) [
        | inr g ↦ inl (inr (ground (arith, g)), rw (a, b, f, e, g) refl)
        | inl g ↦ elim (Bool-cases (len == 0)) [
          | inl z ↦
              let nothing =
                nothing-IsInitialised contents d s n c.memory.raw (ground (arith, f, z)) in
              inr (leb→le _ _ f, leb→le _ _ g, (c.memory.raw, rw (a, b, f, e, g, z) refl, nothing))
          | inr z ↦
              let small : s + n ≤ length contents =
                omega (arith, leb→le _ _ f, available-le dropped seg) in
              let raw = store_list (take n (drop s contents)) d c.memory.raw in
              let stored = store_list-IsInitialised contents d s n c.memory.raw small in
              inr (leb→le _ _ f, leb→le _ _ g, (raw, rw (a, b, f, e, g, z) refl, stored))
        ]
      ]
    ]
