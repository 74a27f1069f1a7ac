-- ===== src/Interpreter/Bulk/Fill.antt =====
-- memory.fill writes one byte at each call until all are written.
use eos_vm.Prelude.{
  ◌⊎◌, inl, inr, Bool-cases, leb→le, ℕ, zero, suc, ◌+◌, ◌*◌, ◌%◌, ◌^◌, ◌≤◌, ◌<◌, ◌≡◌, refl, sym,
  false, ◌∙◌, ap, List, Option, some, ◌&&◌, ltb, leb, arith, if◌then◌else◌, true,
}
use native.Mathlib.Nat.{mod-eq_of_lt, mod-le}
use eos_vm.Prelude.Result.{wasm_memory_exception, err, Result, ok}
use eos_vm.Interpreter.Operand.{Operand, to_ui32}
use eos_vm.Interpreter.Memory.{WasmAllocator, page_size, write_bytes, write_unaligned}
use eos_vm.Interpreter.Bulk.{
  peek_three, with_operands, validate_pointer, memory_fill, put, until_done,
}
use eos_vm.Interpreter.Bulk.Loop.{until_done-err}
use eos_vm.Interpreter.Bulk.Copies.{in_pages-false, in_pages-true, suc-sub, suc-nonzero}

-- The bytes behind a fill of `n` bytes from `d`.
abbrev pub filled : ℕ → ℕ → ℕ → (ℕ → ℕ) → ℕ → ℕ
filled n d v raw i = if leb d i && ltb i (d + n) then v else raw i

pub record Filled (n d v page : ℕ) (a : WasmAllocator) (os : List Operand)
    (r : Option (Result (List Operand × WasmAllocator))) : Type 0 where
  pub after : WasmAllocator
  pub result : r ≡ some (ok (os, after))
  pub pages : after.page ≡ some page
  pub placed : (i : ℕ) → after.raw i ≡ filled n d (v % 256) a.raw i

filled-up :
    (n d v : ℕ) (raw : ℕ → ℕ) (i : ℕ)
    → filled n (d + 1) v (put d v raw) i ≡ filled (suc n) d v raw i
filled-up n d v raw i = ground arith

filled_none : (d v : ℕ) (raw : ℕ → ℕ) (i : ℕ) → filled 0 d v raw i ≡ raw i
filled_none d v raw i = ground arith

written_fill :
    (d v : ℕ) (raw : ℕ → ℕ) (i : ℕ) → write_bytes raw d 1 (v % 256) i ≡ put d (v % 256) raw i
unfolding write_bytes
written_fill d v raw i =
    let once : v % 256 % 256 ≡ v % 256 = mod-eq_of_lt (ground arith) in ground (arith, once)

filled_here :
    (n d v : ℕ) (raw raw' : ℕ → ℕ) (i : ℕ)
    → raw i ≡ raw' i
    → filled n d v raw i ≡ filled n d v raw' i
filled_here n d v raw raw' i e = ap (λ x. if leb d i && ltb i (d + n) then v else x) e

fill_end :
    (d v page : ℕ) (os : List Operand) (a : WasmAllocator)
    → a.page ≡ some page
    → d ≤ page_size * page
    → memory_fill (with_operands 0 v d os) a ≡ ok (true, os, a)
unfolding memory_fill peek_three to_ui32 validate_pointer
fill_end d v page os a e h = rw (in_pages-true a page d 0 e (omega (arith, h))) refl

fill_done :
    (fuel d v page : ℕ) (os : List Operand) (a : WasmAllocator)
    → a.page ≡ some page
    → d ≤ page_size * page
    → Filled 0 d v page a os (until_done (suc fuel) memory_fill (with_operands 0 v d os) a)
unfolding until_done
fill_done fuel d v page os a e h = record {
  after = a;
  result = rw (fill_end d v page os a e h, until_done) refl;
  pages = e;
  placed = λ i. sym (filled_none d (v % 256) a.raw i);
}

-- The memory behind one call.
abbrev wrote : ℕ → ℕ → WasmAllocator → WasmAllocator
wrote d v a = record a { raw = write_bytes a.raw d 1 (v % 256) }

fill_step :
    (n d v page : ℕ) (os : List Operand) (a : WasmAllocator)
    → a.page ≡ some page
    → d + suc n ≤ page_size * page
    → memory_fill (with_operands (suc n) v d os) a
      ≡ ok (false, with_operands n v ((d + 1) % 2 ^ 32) os, wrote d v a)
unfolding memory_fill peek_three to_ui32 validate_pointer write_unaligned
fill_step n d v page os a e h =
    rw
      (
        in_pages-true a page d (suc n) e h,
        in_pages-true a page d 1 e (omega (arith, h)),
        suc-sub n,
        suc-nonzero n,
      )
      refl

-- One call, and then the rest.
fill_more :
    (fuel n d d' v page : ℕ) (os : List Operand) (a : WasmAllocator)
    → a.page ≡ some page
    → d + suc n ≤ page_size * page
    → (d + 1) % 2 ^ 32 ≡ d'
    → ((i : ℕ) → filled n d' (v % 256) (wrote d v a).raw i ≡ filled (suc n) d (v % 256) a.raw i)
    → Filled n d' v page
        (wrote d v a)
        os
        (until_done fuel memory_fill (with_operands n v d' os) (wrote d v a))
    → Filled
        (suc n)
        d
        v
        page
        a
        os
        (until_done (suc fuel) memory_fill (with_operands (suc n) v d os) a)
unfolding until_done
fill_more fuel n d d' v page os a e h f p r = record {
  after = r.after;
  result = rw (fill_step n d v page os a e h, f, until_done) r.result;
  pages = r.pages;
  placed = λ i. r.placed i ∙ p i;
}

-- The first byte is written, and the others are behind it.
first_written :
    (n d v : ℕ) (a : WasmAllocator) (i : ℕ)
    → filled n (d + 1) (v % 256) (wrote d v a).raw i ≡ filled (suc n) d (v % 256) a.raw i
first_written n d v a i =
    filled_here n (d + 1) (v % 256) (wrote d v a).raw (put d (v % 256) a.raw) i
      (written_fill d v a.raw i)
    ∙ filled-up n d (v % 256) a.raw i

memory_fill_fills :
    (fuel n d v page : ℕ) (os : List Operand) (a : WasmAllocator)
    → n < fuel
    → page ≤ 65536
    → a.page ≡ some page
    → d + n ≤ page_size * page
    → Filled n d v page a os (until_done fuel memory_fill (with_operands n v d os) a)
memory_fill_fills zero n d v page os a l p e h = absurd (omega arith)
memory_fill_fills (suc fuel) zero d v page os a l p e h =
    fill_done fuel d v page os a e (omega (arith, h))
memory_fill_fills (suc zero) (suc n) d v page os a l p e h = absurd (omega arith)
memory_fill_fills (suc (suc fuel)) (suc zero) d v page os a l p e h =
    let d' = (d + 1) % 2 ^ 32 in
    fill_more (suc fuel) 0 d d' v page os a e h refl
      (λ i.
        filled_none d' (v % 256) (wrote d v a).raw i
        ∙ sym (filled_none (d + 1) (v % 256) (wrote d v a).raw i)
        ∙ first_written 0 d v a i)
      (fill_done fuel d' v page os (wrote d v a) e (omega (arith, h, mod-le (d + 1) (2 ^ 32))))
memory_fill_fills (suc (suc fuel)) (suc (suc n)) d v page os a l p e h =
    fill_more (suc fuel) (suc n) d (d + 1) v page os a e h (mod-eq_of_lt (omega (arith, h, p)))
      (first_written (suc n) d v a)
      (memory_fill_fills (suc fuel) (suc n) (d + 1) v page os (wrote d v a) (omega arith) p e
        (omega (arith, h)))

fill_throws :
    (n d v page : ℕ) (os : List Operand) (a : WasmAllocator)
    → a.page ≡ some page
    → page_size * page < d + n
    → memory_fill (with_operands n v d os) a ≡ err wasm_memory_exception
unfolding memory_fill peek_three to_ui32 validate_pointer
fill_throws n d v page os a e h = rw (in_pages-false a page d n e h) refl

-- memory.fill on a memory of at most 65536 pages, called until it is done with more fuel than bytes: where
-- the range reaches out of the memory, the first call throws a memory exception, and so do the calls
-- together; else it takes its operands and writes
-- the lowest byte of its value at each place of the range, and no other byte.
pub memory_fill_outcome :
    (fuel n d v page : ℕ) (os : List Operand) (a : WasmAllocator)
    → n < fuel
    → page ≤ 65536
    → a.page ≡ some page
    → ((page_size * page < d + n)
        × (memory_fill (with_operands n v d os) a ≡ err wasm_memory_exception)
        × (until_done fuel memory_fill (with_operands n v d os) a
            ≡ some (err wasm_memory_exception)))
      ⊎ Filled n d v page a os (until_done fuel memory_fill (with_operands n v d os) a)
memory_fill_outcome fuel n d v page os a l p e =
    elim (Bool-cases (leb (d + n) (page_size * page))) [
      | inr f ↦
          let h : page_size * page < d + n = ground (arith, f) in
          let first = fill_throws n d v page os a e h in
          inl (
            h,
            first,
            until_done-err fuel memory_fill (with_operands n v d os) a wasm_memory_exception
                (omega (arith, l)) first,
          )
      | inl f ↦ inr (memory_fill_fills fuel n d v page os a l p e (leb→le _ _ f))
    ]
