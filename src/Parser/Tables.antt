-- ===== src/Parser/Tables.antt =====
-- parser.hpp: the aliases of equal function types, and the test for duplicate export names.
pub mod Types
pub mod Exports
pub mod Aliases
use eos_vm.Prelude.{
  ℕ, zero, suc, ◌+◌, List, [], ◌∷◌, ◌++◌, Bool, true, false, ◌&&◌, ◌||◌, Option, none, some, ltb,
  ◌==◌, if◌then◌else◌, length, get_elem?, map,
}
use eos_vm.Prelude.Result.{
  Result, ok, err, ◌>>=◌, ◌>>◌, eos_vm_assert, or_throw, out_of_range, undefined,
  wasm_parse_exception,
}
use eos_vm.Types.{
  FuncType, func_type_equal, bytes_equal, ExportEntry, ImportEntry, Module,
  get_imported_functions_size,
}

-- The inner loop of normalize_types: the first type before `i`, the length of `before`, that equals
-- type `i`, or `i` itself.
unfoldable pub find_alias : List FuncType → FuncType → ℕ
find_alias [] ft = 0
find_alias (t ∷ before) ft =
    let rest = find_alias before ft in if func_type_equal t ft then 0 else suc rest

-- The outer loop: the types before the current one, and those that are left.
unfoldable pub find_aliases : List FuncType → List FuncType → List ℕ
find_aliases before [] = []
find_aliases before (ft ∷ after) = find_alias before ft ∷ find_aliases (before ++ (ft ∷ [])) after

unfoldable pub type_aliases : Module → List ℕ
type_aliases mod' = find_aliases [] mod'.types

-- The aliases of the types of a list of functions; `at` throws on an index out of range.
unfoldable pub lookup_aliases : List ℕ → List ℕ → Result (List ℕ)
lookup_aliases aliases [] = ok []
lookup_aliases aliases (t ∷ ts) = do
  a ← or_throw (get_elem? aliases t) out_of_range
  rest ← lookup_aliases aliases ts
  ok (a ∷ rest)

-- The types of the first `n` imports; `operator[]` past the imports is undefined.
unfoldable pub import_types : ℕ → List ImportEntry → Result (List ℕ)
import_types zero is = ok []
import_types (suc n) [] = err undefined
import_types (suc n) (i ∷ is) = do ts ← import_types n is; ok (i.func_t ∷ ts)

-- normalize_types(): the member fast_functions.
unfoldable pub normalize_types : Module → Result (List ℕ)
normalize_types mod' = do
  imported ← import_types (get_imported_functions_size mod') mod'.imports
  fast_imports ← lookup_aliases (type_aliases mod') imported
  fast_defined ← lookup_aliases (type_aliases mod') mod'.functions
  ok (fast_imports ++ fast_defined)

-- operator< of std::vector: the lexicographic order.
unfoldable pub bytes_less : List ℕ → List ℕ → Bool
bytes_less xs [] = false
bytes_less [] (y ∷ ys) = true
bytes_less (x ∷ xs) (y ∷ ys) =
    let rest = bytes_less xs ys in if ltb x y then true else if ltb y x then false else rest

-- std::sort, by insertion: what it promises is a sorted permutation.
unfoldable pub insert_name : List ℕ → List (List ℕ) → List (List ℕ)
insert_name n [] = n ∷ []
insert_name n (m ∷ ms) =
    let rest = insert_name n ms in if bytes_less m n then m ∷ rest else n ∷ (m ∷ ms)

unfoldable pub sort_names : List (List ℕ) → List (List ℕ)
sort_names [] = []
sort_names (n ∷ ns) = insert_name n (sort_names ns)

-- std::adjacent_find with equality, as the test that it finds something.
unfoldable pub adjacent_find : List (List ℕ) → Bool
adjacent_find [] = false
adjacent_find (n ∷ []) = false
adjacent_find (n ∷ m ∷ ms) = bytes_equal n m || adjacent_find (m ∷ ms)

-- validate_exports()
unfoldable pub validate_exports : List ExportEntry → Result (Unit {0})
validate_exports exports =
    let found = adjacent_find (sort_names (map (λ e. e.field_str) exports)) in
    eos_vm_assert (if found then false else true) wasm_parse_exception
