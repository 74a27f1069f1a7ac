-- ===== src/Parser/Locals.antt =====
-- parser.hpp: local_types_t, the types of a function's parameters and locals by their index.
pub mod Lookup
use eos_vm.Prelude.{
  ℕ, suc, ◌+◌, ◌-◌, ◌^◌, List, [], ◌∷◌, ltb, leb, ◌==◌, length, get_elem?, if◌then◌else◌,
}
use eos_vm.Prelude.Result.{
  Result, ok, err, ◌>>=◌, ◌>>◌, eos_vm_assert, or_throw, undefined, wasm_parse_exception,
}
use eos_vm.Types.{FuncType, LocalEntry}

pub record LocalTypes : Type 0 where
  pub params : List ℕ
  pub locals : List LocalEntry
  pub boundaries : List ℕ

-- The loop of the constructor: the boundaries behind `count`.
unfoldable pub next_boundaries : ℕ → List LocalEntry → Result (List ℕ)
next_boundaries count [] = ok []
next_boundaries count (l ∷ ls) = do
  eos_vm_assert (leb count (2 ^ 32 - 1 - l.count)) wasm_parse_exception
  rest ← next_boundaries (count + l.count) ls
  ok ((count + l.count) ∷ rest)

-- local_types_t(ft, locals_arg)
unfoldable pub local_types : FuncType → List LocalEntry → Result LocalTypes
local_types ft locals_arg = do
  rest ← next_boundaries (length ft.param_types) locals_arg
  ok (record {
    params = ft.param_types;
    locals = locals_arg;
    boundaries = length ft.param_types ∷ rest;
  })

-- _boundaries.back()
unfoldable pub last_boundary : List ℕ → ℕ
last_boundary [] = 0
last_boundary (b ∷ []) = b
last_boundary (b ∷ (c ∷ bs)) = last_boundary (c ∷ bs)

-- std::upper_bound, the position of the first boundary above the index
unfoldable pub upper_bound : List ℕ → ℕ → ℕ
upper_bound [] i = 0
upper_bound (b ∷ bs) i = let rest = upper_bound bs i in if ltb i b then 0 else suc rest

-- operator[](local_idx)
unfoldable pub type_at : LocalTypes → ℕ → Result ℕ
type_at t local_idx = do
  eos_vm_assert (ltb local_idx (last_boundary t.boundaries)) wasm_parse_exception
  let pos = upper_bound t.boundaries local_idx
  if pos == 0
      then or_throw (get_elem? t.params local_idx) undefined
      else (do l ← or_throw (get_elem? t.locals (pos - 1)) undefined; ok l.type)

-- locals_count()
abbrev pub locals_count : LocalTypes → ℕ
locals_count t = last_boundary t.boundaries - length t.params
