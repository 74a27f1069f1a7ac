-- ===== src/Parser/Limits.antt =====
-- parser.hpp: the counters that bound the bytes of mutable globals and of a function's locals.
use eos_vm.Prelude.{
  ℕ, ◌+◌, ◌-◌, ◌*◌, ◌%◌, ◌^◌, ◌≤◌, ◌<◌, ◌≡◌, List, [], ◌∷◌, ◌&&◌, none, some, Option, Bool-cases,
  leb, ◌==◌, if◌then◌else◌, arith, ◌⊎◌, inl, inr,
}
use native.Mathlib.Nat.{mod-eq_of_lt, mod-eq-sub-mod, mod-lt}
use eos_vm.Prelude.Result.{
  Error, Result, ok, err, ◌>>=◌, ◌>>◌, eos_vm_assert, wasm_parse_exception, IsException,
  >>=-IsException,
}
use eos_vm.Options.{Limit, Options}
use eos_vm.Types.{FuncType}
use eos_vm.Types.Ty

-- get_size_for_type(type)
unfoldable pub get_size_for_type : ℕ → ℕ
get_size_for_type type =
    if type == Ty.i32
    then 4
    else if type == Ty.f32
    then 4
    else if type == Ty.i64
    then 8
    else if type == Ty.f64
    then 8
    else if type == Ty.v128
    then 16
    else 0

-- A counter of `bits` bits after `+= size`, with the assertion that it neither passes the limit nor
-- wraps. The sum is compared with the whole `size`.
unfoldable pub count_bytes : Limit → ℕ → ℕ → Result ℕ
count_bytes l count size =
    let count' = (count + size) % 2 ^ l.bits in
    do eos_vm_assert (leb count' l.limit && leb size count') wasm_parse_exception; ok count'

-- max_mutable_globals_checker::on_mutable_global(options, type)
unfoldable pub on_mutable_global : Options → ℕ → ℕ → Result ℕ
on_mutable_global options counter type = elim options.max_mutable_global_bytes [
  | none ↦ ok counter
  | some l ↦ count_bytes l counter (get_size_for_type type)
]

-- max_func_local_bytes_checker::on_type(options, type)
unfoldable pub on_type : Limit → ℕ → ℕ → Result ℕ
on_type l count type = count_bytes l count (get_size_for_type type)

on_types : Limit → ℕ → List ℕ → Result ℕ
on_types l count [] = ok count
on_types l count (type ∷ types) = do count' ← on_type l count type; on_types l count' types

-- The constructor of max_func_local_bytes_checker.
unfoldable pub local_checker : Options → FuncType → Result ℕ
unfolding on_types
local_checker options ft = elim options.max_func_local_bytes [
  | none ↦ ok 0
  | some l ↦ if options.count_params then on_types l 0 ft.param_types else ok 0
]

-- max_func_local_bytes_checker::on_local(options, type, count): `size *= count` is of 64 bits.
unfoldable pub on_local : Options → ℕ → ℕ → ℕ → Result ℕ
on_local options total type count = elim options.max_func_local_bytes [
  | none ↦ ok total
  | some l ↦
      if options.count_locals
      then count_bytes l total (get_size_for_type type * count % 2 ^ 64)
      else ok total
]

-- The counters throw exceptions only.
count_bytes-IsException :
    (l : Limit) (count size : ℕ) (e : Error) → count_bytes l count size ≡ err e → IsException e
unfolding count_bytes
count_bytes-IsException l count size e h = ground (arith, h)

on_types-IsException :
    (l : Limit) (count : ℕ) (types : List ℕ) (e : Error)
    → on_types l count types ≡ err e
    → IsException e
unfolding on_types on_type
on_types-IsException l count [] e h = cc
on_types-IsException l count (type ∷ types) e h =
    >>=-IsException (on_type l count type)
      (count_bytes-IsException l count (get_size_for_type type))
      (λ count'. on_types-IsException l count' types) e h

pub on_mutable_global-IsException :
    (options : Options) (counter type : ℕ) (e : Error)
    → on_mutable_global options counter type ≡ err e
    → IsException e
unfolding on_mutable_global
on_mutable_global-IsException options counter type e h = go options.max_mutable_global_bytes h
  where
    go :
        (o : Option Limit)
        → elim o as (λ _. Result ℕ) [
          | none ↦ ok counter
          | some l ↦ count_bytes l counter (get_size_for_type type)
        ]
          ≡ err e
        → IsException e
    go none f = cc
    go (some l) f = count_bytes-IsException l counter (get_size_for_type type) e f

pub local_checker-IsException :
    (options : Options) (ft : FuncType) (e : Error)
    → local_checker options ft ≡ err e
    → IsException e
unfolding local_checker
local_checker-IsException options ft e h = go options.max_func_local_bytes h
  where
    go :
        (o : Option Limit)
        → elim o as (λ _. Result ℕ) [
          | none ↦ ok 0
          | some l ↦ if options.count_params then on_types l 0 ft.param_types else ok 0
        ]
          ≡ err e
        → IsException e
    go none f = cc
    go (some l) f = elim (Bool-cases options.count_params) [
      | inl b ↦ on_types-IsException l 0 ft.param_types e (rw b at f)
      | inr b ↦ absurd (ground (arith, b, f))
    ]

pub on_local-IsException :
    (options : Options) (total type count : ℕ) (e : Error)
    → on_local options total type count ≡ err e
    → IsException e
unfolding on_local
on_local-IsException options total type count e h =
    let size = get_size_for_type type * count % 2 ^ 64 in go size options.max_func_local_bytes h
  where
    go :
        (size : ℕ) (o : Option Limit)
        → elim o as (λ _. Result ℕ) [
          | none ↦ ok total
          | some l ↦ if options.count_locals then count_bytes l total size else ok total
        ]
          ≡ err e
        → IsException e
    go size none f = cc
    go size (some l) f = elim (Bool-cases options.count_locals) [
      | inl b ↦ count_bytes-IsException l total size e (rw b at f)
      | inr b ↦ absurd (ground (arith, b, f))
    ]

lt-or-le : (a b : ℕ) → (a < b) ⊎ (b ≤ a)
lt-or-le a b = ground arith

-- The sum of two numbers below a modulus, reduced, is the sum or the sum less the modulus.
wrapped-cases :
    (m a b : ℕ)
    → a < m
    → b < m
    → ((a + b < m) × ((a + b) % m ≡ a + b)) ⊎ ((m ≤ a + b) × ((a + b) % m + m ≡ a + b))
wrapped-cases m a b ha hb = elim (lt-or-le (a + b) m) [
  | inl h ↦ inl (h, mod-eq_of_lt h)
  | inr h ↦
      inr (h, omega (arith, mod-eq-sub-mod h, mod-eq_of_lt {n = a + b - m} {m = m} (omega arith)))
]

-- Where the addition passes the assertion it was exact: a counter never wraps, and stays within its
-- limit.
pub count_bytes_exact :
    (l : Limit) (count size : ℕ) {count' : ℕ}
    → count < 2 ^ l.bits
    → count_bytes l count size ≡ ok count'
    → (count' ≡ count + size) × (count' ≤ l.limit) × (count' < 2 ^ l.bits)
unfolding count_bytes
count_bytes_exact l count size {count'} h e = elim (lt-or-le size (2 ^ l.bits)) [
  | inl hs ↦ elim (wrapped-cases (2 ^ l.bits) count size h hs) [
    | inl (p, q) ↦ ground (arith, q)
    | inr (p, q) ↦ ground (arith, q)
  ]
  | inr hs ↦ ground (arith, mod-lt (count + size) {m = 2 ^ l.bits} (omega arith))
]

-- The assertion fails exactly where the exact sum passes the limit or the range of the counter.
count_bytes_fails :
    (l : Limit) (count size : ℕ)
    → count < 2 ^ l.bits
    → (l.limit < count + size) ⊎ (2 ^ l.bits ≤ count + size)
    → count_bytes l count size ≡ err wasm_parse_exception
unfolding count_bytes
count_bytes_fails l count size h o = elim (lt-or-le size (2 ^ l.bits)) [
  | inl hs ↦ elim (wrapped-cases (2 ^ l.bits) count size h hs) [
    | inl (p, q) ↦ ground (arith, q)
    | inr (p, q) ↦ ground (arith, q)
  ]
  | inr hs ↦ ground (arith, mod-lt (count + size) {m = 2 ^ l.bits} (omega arith))
]
