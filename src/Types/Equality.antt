-- ===== src/Types/Equality.antt =====
-- What `operator==` on function types decides.
use eos_vm.Prelude.{ℕ, ◌≡◌, refl, List, [], ◌∷◌, true, length, arith, ◌↔◌, ap}
use eos_vm.Types.{FuncType, bytes_equal, func_type_equal}

pub bytes_equal-eq : (xs ys : List ℕ) → bytes_equal xs ys ≡ true → xs ≡ ys
unfolding bytes_equal
bytes_equal-eq [] [] h = refl
bytes_equal-eq [] (y ∷ ys) h = cc
bytes_equal-eq (x ∷ xs) [] h = cc
bytes_equal-eq (x ∷ xs) (y ∷ ys) h = ground (arith, bytes_equal-eq xs ys)

pub bytes_equal_refl : (xs : List ℕ) → bytes_equal xs xs ≡ true
unfolding bytes_equal
bytes_equal_refl [] = refl
bytes_equal_refl (x ∷ xs) = ground (arith, bytes_equal_refl xs)

-- Signatures are told apart by form, parameters and number of results, and by the type of the
-- result only where there is none.
pub func_type_equal_iff :
    (lhs rhs : FuncType)
    → (func_type_equal lhs rhs ≡ true) ↔ (
        (lhs.form ≡ rhs.form)
        × (lhs.param_types ≡ rhs.param_types)
        × (lhs.return_count ≡ rhs.return_count)
        × (lhs.return_count ≡ 0 → lhs.return_type ≡ rhs.return_type))
unfolding func_type_equal
func_type_equal_iff lhs rhs = (
  λ h. ground (arith, bytes_equal-eq lhs.param_types rhs.param_types),
  λ h. ground (arith, bytes_equal_refl lhs.param_types, ap (length {0}) h.1),
)
