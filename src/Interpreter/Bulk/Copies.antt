-- ===== src/Interpreter/Bulk/Copies.antt =====
-- The handlers of memory.copy and table.copy keep the promise of a handler that copies.
use eos_vm.Prelude.{
  ℕ, suc, ◌+◌, ◌-◌, ◌*◌, ◌%◌, ◌≤◌, ◌<◌, ◌≡◌, refl, sym, ap, ◌∙◌, List, true, false, some, leb,
  le→leb, ◌==◌, get_elem?, arith,
}
use native.Mathlib.Nat.{mod-eq_of_lt}
use mathlib.Core.Path.{subst, fun_ext}
use eos_vm.Prelude.Result.{ok}
use eos_vm.Types.{TableType}
use eos_vm.Interpreter.Operand.{to_ui32}
use eos_vm.Interpreter.Memory.{
  WasmAllocator, page_size, in_pages, read_bytes, write_bytes, read_unaligned, write_unaligned,
}
use eos_vm.Interpreter.Bulk.{
  peek_three, validate_pointer, memory_copy, get_table_ptr, put, table_copy,
}
use eos_vm.Interpreter.Bulk.Loop.{IsCopy}

-- A memory of a number of pages, whose cells are bytes.
pub record IsMemory (page : ℕ) (a : WasmAllocator) : Type 0 where
  pub pages : a.page ≡ some page
  pub are_bytes : (i : ℕ) → a.raw i < 256

pub in_pages-true :
    (a : WasmAllocator) (page addr size : ℕ)
    → a.page ≡ some page
    → addr + size ≤ page_size * page
    → in_pages a addr size ≡ true
in_pages-true a page addr size e h = rw e (le→leb _ _ h)

pub lt→leb_false : (d s : ℕ) → s < d → leb d s ≡ false
lt→leb_false d s h = ground (arith, h)

pub in_pages-false :
    (a : WasmAllocator) (page addr size : ℕ)
    → a.page ≡ some page
    → page_size * page < addr + size
    → in_pages a addr size ≡ false
in_pages-false a page addr size e h = rw e (lt→leb_false _ _ h)

pub suc-sub : (n : ℕ) → suc n - 1 ≡ n
suc-sub n = omega arith

pub suc-nonzero : (n : ℕ) → (suc n == 0) ≡ false
suc-nonzero n = ground arith

written_byte :
    (s d : ℕ) (raw : ℕ → ℕ)
    → raw s < 256
    → (i : ℕ) → write_bytes raw d 1 (read_bytes raw s 1) i ≡ put d (raw s) raw i
unfolding write_bytes read_bytes
written_byte s d raw h i =
    let one : (raw s + 256 * 0) % 256 ≡ raw s = ap (λ v. v % 256) (omega arith) ∙ mod-eq_of_lt h in
    ground (arith, one)

-- One byte that is moved.
byte-Moves :
    (page s d : ℕ) (a : WasmAllocator)
    → IsMemory page a
    → s + 1 ≤ page_size * page
    → d + 1 ≤ page_size * page
    → (b : ℕ) × (a' : WasmAllocator) × (read_unaligned 1 s a ≡ ok b)
      × (write_unaligned 1 d b a ≡ ok a')
      × IsMemory page a'
      × (a'.raw ≡ put d (a.raw s) a.raw)
unfolding read_unaligned write_unaligned
byte-Moves page s d a m h k =
    let es = in_pages-true a page s 1 m.pages h in
    let ed = in_pages-true a page d 1 m.pages k in
    let same : write_bytes a.raw d 1 (read_bytes a.raw s 1) ≡ put d (a.raw s) a.raw =
      fun_ext (written_byte s d a.raw (m.are_bytes s)) in
    (
      read_bytes a.raw s 1,
      record a { raw = write_bytes a.raw d 1 (read_bytes a.raw s 1) },
      rw es refl,
      rw ed refl,
      record {
        pages = m.pages;
        are_bytes =
            λ i. subst (λ f. f i < 256) (sym same) (ground (arith, m.are_bytes i, m.are_bytes s));
      },
      same,
    )

-- memory.copy keeps the promise of a handler that copies, below the end of the memory.
pub memory_copy-IsCopy :
    (page : ℕ) → IsCopy (page_size * page) (IsMemory page) (λ a. a.raw) memory_copy
unfolding memory_copy peek_three to_ui32 validate_pointer
memory_copy-IsCopy page = record {
  done = λ s d os a m h k.
      rw
        (
          in_pages-true a page s 0 m.pages (omega (arith, h)),
          in_pages-true a page d 0 m.pages (omega (arith, k)),
        )
        refl;
  up = λ n s d os a m h k o.
      let (b, a', r, w, kept, placed) =
        byte-Moves page s d a m (omega (arith, h)) (omega (arith, k)) in
      record {
        after = a';
        result =
            rw
              (
                in_pages-true a page s (suc n) m.pages h,
                in_pages-true a page d (suc n) m.pages k,
                le→leb d s o,
                suc-sub n,
                r,
                w,
                suc-nonzero n,
              )
              refl;
        kept = kept;
        placed = placed;
      };
  down = λ n s d os a m h k o.
      let (b, a', r, w, kept, placed) =
        byte-Moves page (s + n) (d + n) a m (omega (arith, h)) (omega (arith, k)) in
      record {
        after = a';
        result =
            rw
              (
                in_pages-true a page s (suc n) m.pages h,
                in_pages-true a page d (suc n) m.pages k,
                lt→leb_false d s o,
                suc-sub n,
                r,
                w,
                suc-nonzero n,
              )
              refl;
        kept = kept;
        placed = placed;
      };
}

-- table.copy keeps the same promise, below the limit of the table.
pub table_copy-IsCopy :
    (tables : List TableType) (t : TableType)
    → get_elem? tables 0 ≡ some t
    → IsCopy t.limits.initial (λ _. Unit {0}) (λ table. table) (table_copy tables)
unfolding table_copy peek_three to_ui32 get_table_ptr
table_copy-IsCopy tables t e = record {
  done = λ s d os a m h k.
      rw
        (
          e,
          le→leb (s + 0) t.limits.initial (omega (arith, h)),
          le→leb (d + 0) t.limits.initial (omega (arith, k)),
        )
        refl;
  up = λ n s d os a m h k o. record {
    after = put d (a s) a;
    result = rw (e, le→leb _ _ h, le→leb _ _ k, le→leb d s o, suc-sub n, suc-nonzero n) refl;
    kept = tt;
    placed = refl;
  };
  down = λ n s d os a m h k o. record {
    after = put (d + n) (a (s + n)) a;
    result = rw (e, le→leb _ _ h, le→leb _ _ k, lt→leb_false d s o, suc-sub n, suc-nonzero n) refl;
    kept = tt;
    placed = refl;
  };
}
