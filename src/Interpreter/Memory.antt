-- ===== src/Interpreter/Memory.antt =====
-- allocator.hpp: class wasm_allocator; execution_context.hpp: grow_linear_memory; and the loads and
-- stores of interpret_visitor.hpp. The bytes of the reserved region are a function of the address;
-- a byte outside the allocated pages is protected, and touching it raises a memory exception
-- through the signal handler. System calls of the allocator are taken to succeed.
pub mod Allocator
pub mod Access
use eos_vm.Prelude.{
  ℕ, zero, suc, ◌+◌, ◌-◌, ◌*◌, ◌/◌, ◌%◌, ◌^◌, Bool, true, false, not, ◌&&◌, ◌||◌, Option, none,
  some, List, [], ◌∷◌, ltb, leb, ◌==◌, if◌then◌else◌,
}
use eos_vm.Prelude.Result.{
  Result, ok, err, ◌>>=◌, ◌>>◌, eos_vm_assert, wasm_bad_alloc, wasm_memory_exception,
}
use eos_vm.Types.{MemoryType}

-- constants::page_size and constants::max_pages
abbrev pub page_size : ℕ
page_size = 65536

abbrev pub max_pages : ℕ
max_pages = 65536

-- The field `page` is -1 where the module has no memory, here `none`.
pub record WasmAllocator : Type 0 where
  pub page : Option ℕ
  pub raw : ℕ → ℕ

-- memset(raw + start, 0, size)
unfoldable pub clear : ℕ → ℕ → (ℕ → ℕ) → ℕ → ℕ
clear start size raw i = if leb start i && ltb i (start + size) then 0 else raw i

-- alloc<char>(size), after its test for 0, on an allocator with `page` pages
unfoldable pub alloc_pages : ℕ → ℕ → (ℕ → ℕ) → Result WasmAllocator
alloc_pages size page raw = if size == 0 then ok (record { page = some page; raw = raw }) else do
  eos_vm_assert (leb (size + page) max_pages) wasm_bad_alloc
  ok (record { page = some (page + size); raw = clear (page_size * page) (page_size * size) raw })

-- alloc<char>(size)
unfoldable pub alloc : ℕ → WasmAllocator → Result WasmAllocator
alloc size a = elim a.page [
  | none ↦ if size == 0 then ok a else err wasm_bad_alloc
  | some page ↦ alloc_pages size page a.raw
]

-- free<char>(size): the pages keep their bytes, out of reach.
unfoldable pub free : ℕ → WasmAllocator → Result WasmAllocator
free size a = elim a.page [
  | none ↦ if size == 0 then ok a else err wasm_bad_alloc
  | some page ↦ if size == 0 then ok a else do
    eos_vm_assert (leb size page) wasm_bad_alloc
    ok (record { page = some (page - size); raw = a.raw })
]

-- reset(new_pages)
unfoldable pub reset_pages : ℕ → WasmAllocator → Result WasmAllocator
reset_pages new_pages a =
    let page : ℕ = elim a.page [ none ↦ 0 | some p ↦ p ] in
    let raw : ℕ → ℕ = elim a.page [ none ↦ a.raw | some p ↦ clear 0 (page_size * p) a.raw ] in
    let cleared : WasmAllocator = record { page = some page; raw = raw } in
    let grown = alloc (new_pages - page) cleared in
    let shrunk = free (page - new_pages) cleared in
    if ltb page new_pages then grown else if ltb new_pages page then shrunk else ok cleared

-- reset()
unfoldable pub reset_none : WasmAllocator → WasmAllocator
reset_none a = record {
  page = none;
  raw = elim a.page [ none ↦ a.raw | some p ↦ clear 0 (page_size * p) a.raw ];
}

-- current_linear_memory(), as a 32-bit number
unfoldable pub current_linear_memory : WasmAllocator → ℕ
current_linear_memory a = elim a.page [ none ↦ 2 ^ 32 - 1 | some p ↦ p ]

-- The tests of grow_linear_memory_impl for a number of pages that is not negative: the context's
-- limit, and the memory's own. `_max_pages - sz` is of 32 bits.
unfoldable pub growth_refused : ℕ → List MemoryType → ℕ → ℕ → Bool
growth_refused limit [] page pages = true
growth_refused limit (m ∷ ms) page pages =
    ltb ((limit + 2 ^ 32 - page) % 2 ^ 32) pages
    || (m.limits.flags && ltb m.limits.maximum (page + pages))

-- grow_linear_memory(pages) on an allocator with memory: `pages` is a 32-bit number whose upper half
-- is the negative numbers.
unfoldable pub grow_pages : ℕ → List MemoryType → ℕ → ℕ → WasmAllocator → Result (ℕ × WasmAllocator)
grow_pages limit memories pages page a =
    let shrunk = (do a' ← free (2 ^ 32 - pages) a; ok (page, a')) in
    let grown = (do a' ← alloc pages a; ok (page, a')) in
    if leb (2 ^ 31) pages
    then (if ltb (page + pages) (2 ^ 32) then ok (2 ^ 32 - 1, a) else shrunk)
    else if growth_refused limit memories page pages
    then ok (2 ^ 32 - 1, a)
    else grown

-- grow_linear_memory(pages) where no memory is allocated, so that `sz` is -1
unfoldable pub grow_none : ℕ → List MemoryType → ℕ → WasmAllocator → Result (ℕ × WasmAllocator)
grow_none limit [] pages a = ok (2 ^ 32 - 1, a)
grow_none limit (m ∷ ms) pages a =
    let grown = (do a' ← alloc pages a; ok (2 ^ 32 - 1, a')) in
    if leb (2 ^ 31) pages
    then ok (2 ^ 32 - 1, a)
    else if ltb ((limit + 1) % 2 ^ 32) pages || (m.limits.flags && ltb (m.limits.maximum + 1) pages)
    then ok (2 ^ 32 - 1, a)
    else grown

unfoldable pub grow_linear_memory :
    ℕ → List MemoryType → ℕ → WasmAllocator → Result (ℕ × WasmAllocator)
grow_linear_memory limit memories pages a = elim a.page [
  | none ↦ grow_none limit memories pages a
  | some page ↦ grow_pages limit memories pages page a
]

-- Whether `size` bytes from `addr` are in pages that alloc gave to mprotect for reading and writing. The
-- signal of an access to another page is thrown as a memory exception by handle_signal of
-- execution_context.hpp.
abbrev pub in_pages : WasmAllocator → ℕ → ℕ → Bool
in_pages a addr size = leb (addr + size) (elim a.page [ none ↦ 0 | some p ↦ page_size * p ])

-- The `size` bytes from `addr` as a number, lowest byte first.
unfoldable pub read_bytes : (ℕ → ℕ) → ℕ → ℕ → ℕ
read_bytes raw addr zero = 0
read_bytes raw addr (suc size) = raw addr + 256 * read_bytes raw (addr + 1) size

unfoldable pub write_bytes : (ℕ → ℕ) → ℕ → ℕ → ℕ → ℕ → ℕ
write_bytes raw addr zero value i = raw i
write_bytes raw addr (suc size) value i =
    let rest = write_bytes raw (addr + 1) size (value / 256) i in
    if i == addr then value % 256 else rest

-- read_unaligned<T>(addr) for a T of `size` bytes
unfoldable pub read_unaligned : ℕ → ℕ → WasmAllocator → Result ℕ
read_unaligned size addr a =
    if in_pages a addr size then ok (read_bytes a.raw addr size) else err wasm_memory_exception

-- write_unaligned(addr, value) for a value of `size` bytes
unfoldable pub write_unaligned : ℕ → ℕ → ℕ → WasmAllocator → Result WasmAllocator
write_unaligned size addr value a =
    if in_pages a addr size
    then ok (record a { raw = write_bytes a.raw addr size value })
    else err wasm_memory_exception
