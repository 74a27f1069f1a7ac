-- ===== src/Types/Ty.antt =====
-- include/eosio/vm/types.hpp: enum types
use Prim.Native.Nat.{ℕ}

abbrev pub i32 : ℕ
i32 = 0x7f

abbrev pub i64 : ℕ
i64 = 0x7e

abbrev pub f32 : ℕ
f32 = 0x7d

abbrev pub f64 : ℕ
f64 = 0x7c

abbrev pub v128 : ℕ
v128 = 0x7b

abbrev pub anyfunc : ℕ
anyfunc = 0x70

abbrev pub func : ℕ
func = 0x60

abbrev pub pseudo : ℕ
pseudo = 0x40
