-- ===== src/Parser/Tables/Aliases.antt =====
-- normalize_types(): `at` lets only types pass that the module has.
use eos_vm.Prelude.{
  ℕ, suc, ◌<◌, ◌≡◌, refl, ap, List, [], ◌∷◌, ◌++◌, length, All, get_elem?-lt-length, arith, some,
  Option, get_elem?, none,
}
use mathlib.Core.Path.{subst}
use eos_vm.Prelude.Result.{ok, out_of_range, or_throw, >>=-eq-ok}
use eos_vm.Types.{FuncType, Module, get_imported_functions_size}
use eos_vm.Parser.Tables.{find_aliases, type_aliases, lookup_aliases, import_types, normalize_types}

find_aliases-length :
    (before after : List FuncType) → length (find_aliases before after) ≡ length after
unfolding find_aliases
find_aliases-length before [] = refl
find_aliases-length before (ft ∷ after) = ap suc (find_aliases-length (before ++ (ft ∷ [])) after)

or_throw-inv : {o : Option ℕ} {a : ℕ} → or_throw o out_of_range ≡ ok a → o ≡ some a
or_throw-inv {o = none} h = cc
or_throw-inv {o = some b} h = ground (arith, h)

lookup_aliases-All :
    (aliases ts : List ℕ) {found : List ℕ}
    → lookup_aliases aliases ts ≡ ok found
    → All (λ t. t < length aliases) ts
unfolding lookup_aliases
lookup_aliases-All aliases [] h = tt
lookup_aliases-All aliases (t ∷ ts) h =
    let (a, e, f) = >>=-eq-ok (or_throw (get_elem? aliases t) out_of_range) _ h in
    let (rest, g, _) = >>=-eq-ok (lookup_aliases aliases ts) _ f in
    (get_elem?-lt-length aliases t (or_throw-inv e), lookup_aliases-All aliases ts g)

-- Where normalize_types returns, the type of each defined function is one of the module.
pub normalize_types-All :
    (mod' : Module) (fast_functions : List ℕ)
    → normalize_types mod' ≡ ok fast_functions
    → All (λ t. t < length mod'.types) mod'.functions
unfolding normalize_types type_aliases
normalize_types-All mod' fast_functions h =
    let aliases = type_aliases mod' in
    let (is, _, f) = >>=-eq-ok (import_types (get_imported_functions_size mod') mod'.imports) _ h in
    let (fast, _, g) = >>=-eq-ok (lookup_aliases aliases is) _ f in
    let (defined, e, _) = >>=-eq-ok (lookup_aliases aliases mod'.functions) _ g in
    subst (λ n. All (λ t. t < n) mod'.functions) (find_aliases-length [] mod'.types)
      (lookup_aliases-All aliases mod'.functions e)
