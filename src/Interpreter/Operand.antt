-- ===== src/Interpreter/Operand.antt =====
-- stack_elem.hpp: operand_stack_elem. Floats are kept as the bits that they are stored as, integers
-- as the unsigned number of their bits.
use eos_vm.Prelude.{ℕ, ◌^◌, ◌<◌, ◌≡◌}
use eos_vm.Prelude.Result.{Result, ok, err, undefined}
use eos_vm.Types.Ty

pub data Operand : Type 0 where
  i32_const_t i64_const_t f32_const_t f64_const_t v128_const_t : ℕ → Operand

-- to_ui32(): an element of another type is read through the wrong member of the union.
unfoldable pub to_ui32 : Operand → Result ℕ
to_ui32 (i32_const_t v) = ok v
to_ui32 _ = err undefined

-- to_ui64()
unfoldable pub to_ui64 : Operand → Result ℕ
to_ui64 (i64_const_t v) = ok v
to_ui64 _ = err undefined

-- to_fui32()
unfoldable pub to_fui32 : Operand → Result ℕ
to_fui32 (f32_const_t v) = ok v
to_fui32 _ = err undefined

-- to_fui64()
unfoldable pub to_fui64 : Operand → Result ℕ
to_fui64 (f64_const_t v) = ok v
to_fui64 _ = err undefined

-- An operand of a value type, with a number that fits it.
unfoldable pub HasType : Operand → ℕ → Type 0
HasType (i32_const_t v) t = (t ≡ Ty.i32) × (v < 2 ^ 32)
HasType (i64_const_t v) t = (t ≡ Ty.i64) × (v < 2 ^ 64)
HasType (f32_const_t v) t = (t ≡ Ty.f32) × (v < 2 ^ 32)
HasType (f64_const_t v) t = (t ≡ Ty.f64) × (v < 2 ^ 64)
HasType (v128_const_t v) t = (t ≡ Ty.v128) × (v < 2 ^ 128)
