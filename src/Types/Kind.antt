-- ===== src/Types/Kind.antt =====
-- include/eosio/vm/types.hpp: enum external_kind, as the byte that the parser casts to it
use Prim.Native.Nat.{ℕ}

abbrev pub function : ℕ
function = 0

abbrev pub table : ℕ
table = 1

abbrev pub memory : ℕ
memory = 2

abbrev pub global : ℕ
global = 3
