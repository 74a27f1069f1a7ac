-- ===== src/Prelude/Result.antt =====
-- The exceptions of the library as values, and fallible computations.
use mathlib.Core.Path.{◌≡◌, refl, ap}
use mathlib.Core.Bool.{Bool, true, false}
use mathlib.Core.Option.{Option, none, some}

-- The exception types that the modelled code throws; messages are left out. `out_of_range` is what
-- `std::vector::at` throws. `undefined` is no exception: it stands for undefined behaviour, a read
-- outside an object. `no_fuel` is no exception either: a loop of the model ran out of its bound.
pub data Error : Type 0 where
  wasm_interpreter_exception : Error
  wasm_bad_alloc : Error
  wasm_unsupported_import_exception : Error
  wasm_parse_exception : Error
  wasm_memory_exception : Error
  wasm_invalid_element : Error
  guarded_ptr_exception : Error
  wasm_vector_oob_exception : Error
  out_of_range : Error
  undefined : Error
  no_fuel : Error

-- What a function returns, or the exception that it throws.
pub data Result {κ} (B : Type κ) : Type κ where
  err : Error → Result B
  ok : B → Result B

-- The rest of the code runs on the value that was returned.
infixl 5 ◌>>=◌
abbrev pub ◌>>=◌ {μ ν} : {X : Type μ} {Y : Type ν} → Result X → (X → Result Y) → Result Y
err thrown >>= rest = err thrown
ok value >>= rest = rest value

-- EOS_VM_ASSERT(expr, exc_type, msg)
abbrev pub eos_vm_assert : Bool → Error → Result (Unit {0})
eos_vm_assert false exc_type = err exc_type
eos_vm_assert true exc_type = ok tt

infixl 5 ◌>>◌
abbrev pub ◌>>◌ {ν} : {Y : Type ν} → Result (Unit {0}) → Result Y → Result Y
◌>>◌ first second = first >>= λ done. second

-- A lookup that may miss, with the error that a miss means.
abbrev pub or_throw {ℓ} : {A : Type ℓ} → Option A → Error → Result A
or_throw none e = err e
or_throw (some a) e = ok a

-- An error that a C++ caller can catch.
abbrev pub IsException : Error → Type 0
IsException Error.undefined = ⊥
IsException Error.no_fuel = ⊥
IsException _ = Unit

-- A sequence that returns has returned in its first part, and then in the rest.
pub >>=-eq-ok {μ ν} :
    {X : Type μ} {Y : Type ν} (first : Result X) (rest : X → Result Y) {y : Y}
    → (first >>= rest) ≡ ok y
    → (x : X) × (first ≡ ok x) × (rest x ≡ ok y)
>>=-eq-ok (err thrown) rest returns = cc
>>=-eq-ok (ok value) rest returns = (value, refl, returns)

pub ok-inj {ℓ} : {A : Type ℓ} {a b : A} → ok a ≡ ok b → a ≡ b
ok-inj {a = a} h = ap (λ r. elim r [ ok x ↦ x | err e ↦ a ]) h

pub err-inj {ℓ} : {A : Type ℓ} {e x : Error} → ◌≡◌ {A = Result A} (err e) (err x) → e ≡ x
err-inj {e = e} h = ap (λ r. elim r [ ok a ↦ e | err y ↦ y ]) h

-- An error of a sequence is one of its first part or one of the rest.
pub >>=-IsException {μ ν} :
    {X : Type μ} {Y : Type ν} (first : Result X) {rest : X → Result Y}
    → ((e : Error) → first ≡ err e → IsException e)
    → ((x : X) (e : Error) → rest x ≡ err e → IsException e)
    → (e : Error) → (first >>= rest) ≡ err e
    → IsException e
>>=-IsException (err thrown) p q e h = p e (ap (λ r. elim r [ err x ↦ err x | ok y ↦ err e ]) h)
>>=-IsException (ok value) p q e h = q value e h
