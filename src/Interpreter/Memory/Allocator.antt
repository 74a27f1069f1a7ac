-- ===== src/Interpreter/Memory/Allocator.antt =====
-- The number of pages and the zeroed bytes after a reset, and the limits that growing keeps.
use eos_vm.Prelude.{
  ℕ, ◌+◌, ◌-◌, ◌*◌, ◌^◌, ◌≤◌, ◌<◌, ◌≡◌, inl, inr, refl, List, ◌∷◌, true, false, Bool-cases,
  Option-cases, some, ltb, leb, ltb→lt, ap, ◌==◌, if◌then◌else◌, arith,
}
use eos_vm.Prelude.Result.{Result, ok}
use eos_vm.Types.{MemoryType}
use eos_vm.Interpreter.Memory.{
  page_size, max_pages, WasmAllocator, clear, alloc_pages, alloc, free, reset_pages, growth_refused,
  grow_pages, grow_linear_memory,
}

pub record IsReset (new_pages : ℕ) (a : WasmAllocator) : Type 0 where
  pub pages : a.page ≡ some new_pages
  pub zeroed : (i : ℕ) → i < 65536 * new_pages → a.raw i ≡ 0

alloc_pages-IsReset :
    (size p : ℕ) (raw : ℕ → ℕ)
    → p < p + size
    → size + p ≤ max_pages
    → ((i : ℕ) → i < 65536 * p → raw i ≡ 0)
    → (b : WasmAllocator) × (alloc_pages size p raw ≡ ok b) × IsReset (p + size) b
unfolding alloc_pages clear
alloc_pages-IsReset size p raw h l z =
    let nonzero : (size == 0) ≡ false = ground arith in
    let fits : leb (size + p) max_pages ≡ true = ground arith in
    rw (nonzero, fits) (_, refl, record { pages = refl; zeroed = λ i k. ground (arith, z i) })

-- The last statement of `reset`, on cleared pages.
resized-IsReset :
    (new_pages p : ℕ) (raw : ℕ → ℕ)
    → new_pages ≤ max_pages
    → ((i : ℕ) → i < 65536 * p → raw i ≡ 0)
    → (b : WasmAllocator) × ((if ltb p new_pages
          then alloc_pages (new_pages - p) p raw
          else if ltb new_pages p
          then free (p - new_pages) (record { page = some p; raw = raw })
          else ok (record { page = some p; raw = raw }))
        ≡ ok b)
      × IsReset new_pages b
unfolding free
resized-IsReset new_pages p raw h z = elim (Bool-cases (ltb p new_pages)) [
  | inl e ↦
      let (b, q, r) =
        alloc_pages-IsReset (new_pages - p) p raw (omega (arith, ltb→lt p new_pages e))
          (omega (arith, ltb→lt p new_pages e)) z in
      let same : p + (new_pages - p) ≡ new_pages = omega (arith, ltb→lt p new_pages e) in
      rw e (b, q, rw same at r)
  | inr e ↦ rw e (elim (Bool-cases (ltb new_pages p)) [
    | inl f ↦
        let l = ltb→lt new_pages p f in
        let nonzero : (p - new_pages == 0) ≡ false = ground (arith, l) in
        let fits : leb (p - new_pages) p ≡ true = ground arith in
        let left : p - (p - new_pages) ≡ new_pages = omega (arith, l) in
        rw (f, nonzero, fits)
          (_, refl, record { pages = ap some left; zeroed = λ i k. z i (omega (arith, l)) })
    | inr f ↦ rw f (_, refl, record { pages = ground arith; zeroed = λ i k. z i (ground arith) })
  ])
]

cleared : (p : ℕ) (raw : ℕ → ℕ) (i : ℕ) → i < 65536 * p → clear 0 (page_size * p) raw i ≡ 0
unfolding clear
cleared p raw i k = ground arith

-- A reset to at most the maximal number of pages gives that number of pages, all zero.
pub reset_pages_zeroes :
    (new_pages : ℕ) (a : WasmAllocator)
    → new_pages ≤ max_pages
    → (b : WasmAllocator) × (reset_pages new_pages a ≡ ok b) × IsReset new_pages b
unfolding reset_pages alloc
reset_pages_zeroes new_pages a h = elim (Option-cases a.page) [
  | inl e ↦ rw e (resized-IsReset new_pages 0 a.raw h (λ i k. absurd (omega arith)))
  | inr (p, e) ↦
      rw e (resized-IsReset new_pages p (clear 0 (page_size * p) a.raw) h (cleared p a.raw))
]

growth_allowed :
    (limit : ℕ) (m : MemoryType) (ms : List MemoryType) (page pages : ℕ)
    → growth_refused limit (m ∷ ms) page pages ≡ false
    → page ≤ limit
    → limit ≤ max_pages
    → pages < 2 ^ 31
    → (page + pages ≤ limit) × (m.limits.flags ≡ true → page + pages ≤ m.limits.maximum)
unfolding growth_refused
growth_allowed limit m ms page pages r h l s = (ground arith, λ f. ground arith)

-- The outcomes of growing: -1 and no change, or the old number of pages and a larger memory.
pub data GrowResult (limit : ℕ) (m : MemoryType) (page pages : ℕ) (a : WasmAllocator)
    : Result (ℕ × WasmAllocator) → Type 0 where
  refused : GrowResult limit m page pages a (ok (2 ^ 32 - 1, a))
  grown :
      {b : WasmAllocator}
      → b.page ≡ some (page + pages)
      → page + pages ≤ limit
      → (m.limits.flags ≡ true → page + pages ≤ m.limits.maximum)
      → ((i : ℕ) → i < page_size * page → b.raw i ≡ a.raw i)
      → ((i : ℕ) → page_size * page ≤ i → i < page_size * (page + pages) → b.raw i ≡ 0)
      → GrowResult limit m page pages a (ok (page, b))

-- For a module with a memory whose allocated pages are within the context's limit, itself at most the
-- maximal number of pages, growing by a number below 2 ^ 31 never fails: it either returns -1 and
-- changes nothing, or returns the old number of pages and adds the new ones, zeroed, within the limit
-- and the memory's maximum, and keeps the old bytes.
pub grow_linear_memory_grows :
    (limit : ℕ) (m : MemoryType) (ms : List MemoryType) (page pages : ℕ) (a : WasmAllocator)
    → a.page ≡ some page
    → page ≤ limit
    → limit ≤ max_pages
    → pages < 2 ^ 31
    → GrowResult limit m page pages a (grow_linear_memory limit (m ∷ ms) pages a)
unfolding grow_linear_memory grow_pages growth_refused alloc alloc_pages clear
grow_linear_memory_grows limit m ms page pages a e h l s =
    let small : leb (2 ^ 31) pages ≡ false = ground arith in
    rw (e, small)
      (elim (Bool-cases (growth_refused limit (m ∷ ms) page pages)) [
        | inl r ↦ rw r refused
        | inr r ↦
            let (within, below) = growth_allowed limit m ms page pages r h l s in
            rw r (elim (Bool-cases (pages == 0)) [
              | inl z ↦ rw z (
                  grown (ap some (ground arith)) within below (λ i k. refl)
                    (λ i k q. absurd (ground arith)))
              | inr z ↦
                  let fits : leb (pages + page) max_pages ≡ true = ground arith in
                  rw (z, fits)
                    (grown refl within below (λ i k. ground arith) (λ i k q. ground arith))
            ])
      ])
