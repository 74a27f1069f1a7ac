-- ===== src/Body/Tables.antt =====
-- parser.hpp, parse_function_body_code: the cases that the macros UNOP, BINOP, CASTOP, EXTENDOP, LOAD_OP,
-- STORE_OP, NUMERIC_OP and those on lanes make, as rows of their arguments, with the opcodes of
-- include/eosio/vm/opcodes_def.hpp.
use eos_vm.Prelude.{ℕ, List, [], ◌∷◌, Option, none, some, ◌&&◌, leb, ◌==◌, if◌then◌else◌}
use eos_vm.Types.Ty

-- Opcodes that pop the same types, the first one first, and push the same type.
pub data Row : Type 0 where
  row : ℕ → ℕ → List ℕ → ℕ → Row

-- The row of an opcode.
unfoldable pub find_row : List Row → ℕ → Option (List ℕ × ℕ)
find_row [] opcode = none
find_row (row first last inputs output ∷ rows) opcode =
    let rest = find_row rows opcode in
    if leb first opcode && leb opcode last then some (inputs, output) else rest

-- UNOP, BINOP and CASTOP
abbrev pub numeric_rows : List Row
numeric_rows =
    row 69 69 (Ty.i32 ∷ []) Ty.i32
    ∷ row 70 79 (Ty.i32 ∷ Ty.i32 ∷ []) Ty.i32
    ∷ row 80 80 (Ty.i64 ∷ []) Ty.i32
    ∷ row 81 90 (Ty.i64 ∷ Ty.i64 ∷ []) Ty.i32
    ∷ row 91 96 (Ty.f32 ∷ Ty.f32 ∷ []) Ty.i32
    ∷ row 97 102 (Ty.f64 ∷ Ty.f64 ∷ []) Ty.i32
    ∷ row 103 105 (Ty.i32 ∷ []) Ty.i32
    ∷ row 106 120 (Ty.i32 ∷ Ty.i32 ∷ []) Ty.i32
    ∷ row 121 123 (Ty.i64 ∷ []) Ty.i64
    ∷ row 124 138 (Ty.i64 ∷ Ty.i64 ∷ []) Ty.i64
    ∷ row 139 145 (Ty.f32 ∷ []) Ty.f32
    ∷ row 146 152 (Ty.f32 ∷ Ty.f32 ∷ []) Ty.f32
    ∷ row 153 159 (Ty.f64 ∷ []) Ty.f64
    ∷ row 160 166 (Ty.f64 ∷ Ty.f64 ∷ []) Ty.f64
    ∷ row 167 167 (Ty.i64 ∷ []) Ty.i32
    ∷ row 168 169 (Ty.f32 ∷ []) Ty.i32
    ∷ row 170 171 (Ty.f64 ∷ []) Ty.i32
    ∷ row 172 173 (Ty.i32 ∷ []) Ty.i64
    ∷ row 174 175 (Ty.f32 ∷ []) Ty.i64
    ∷ row 176 177 (Ty.f64 ∷ []) Ty.i64
    ∷ row 178 179 (Ty.i32 ∷ []) Ty.f32
    ∷ row 180 181 (Ty.i64 ∷ []) Ty.f32
    ∷ row 182 182 (Ty.f64 ∷ []) Ty.f32
    ∷ row 183 184 (Ty.i32 ∷ []) Ty.f64
    ∷ row 185 186 (Ty.i64 ∷ []) Ty.f64
    ∷ row 187 187 (Ty.f32 ∷ []) Ty.f64
    ∷ row 188 188 (Ty.f32 ∷ []) Ty.i32
    ∷ row 189 189 (Ty.f64 ∷ []) Ty.i64
    ∷ row 190 190 (Ty.i32 ∷ []) Ty.f32
    ∷ row 191 191 (Ty.i64 ∷ []) Ty.f64
    ∷ []

-- NUMERIC_OP
abbrev pub vector_rows : List Row
vector_rows =
    row 14 14 (Ty.v128 ∷ Ty.v128 ∷ []) Ty.v128
    ∷ row 15 17 (Ty.i32 ∷ []) Ty.v128
    ∷ row 18 18 (Ty.i64 ∷ []) Ty.v128
    ∷ row 19 19 (Ty.f32 ∷ []) Ty.v128
    ∷ row 20 20 (Ty.f64 ∷ []) Ty.v128
    ∷ row 35 76 (Ty.v128 ∷ Ty.v128 ∷ []) Ty.v128
    ∷ row 77 77 (Ty.v128 ∷ []) Ty.v128
    ∷ row 78 81 (Ty.v128 ∷ Ty.v128 ∷ []) Ty.v128
    ∷ row 82 82 (Ty.v128 ∷ Ty.v128 ∷ Ty.v128 ∷ []) Ty.v128
    ∷ row 83 83 (Ty.v128 ∷ []) Ty.i32
    ∷ row 94 98 (Ty.v128 ∷ []) Ty.v128
    ∷ row 99 100 (Ty.v128 ∷ []) Ty.i32
    ∷ row 101 102 (Ty.v128 ∷ Ty.v128 ∷ []) Ty.v128
    ∷ row 103 106 (Ty.v128 ∷ []) Ty.v128
    ∷ row 107 109 (Ty.i32 ∷ Ty.v128 ∷ []) Ty.v128
    ∷ row 110 115 (Ty.v128 ∷ Ty.v128 ∷ []) Ty.v128
    ∷ row 116 117 (Ty.v128 ∷ []) Ty.v128
    ∷ row 118 121 (Ty.v128 ∷ Ty.v128 ∷ []) Ty.v128
    ∷ row 122 122 (Ty.v128 ∷ []) Ty.v128
    ∷ row 123 123 (Ty.v128 ∷ Ty.v128 ∷ []) Ty.v128
    ∷ row 124 129 (Ty.v128 ∷ []) Ty.v128
    ∷ row 130 130 (Ty.v128 ∷ Ty.v128 ∷ []) Ty.v128
    ∷ row 131 132 (Ty.v128 ∷ []) Ty.i32
    ∷ row 133 134 (Ty.v128 ∷ Ty.v128 ∷ []) Ty.v128
    ∷ row 135 138 (Ty.v128 ∷ []) Ty.v128
    ∷ row 139 141 (Ty.i32 ∷ Ty.v128 ∷ []) Ty.v128
    ∷ row 142 147 (Ty.v128 ∷ Ty.v128 ∷ []) Ty.v128
    ∷ row 148 148 (Ty.v128 ∷ []) Ty.v128
    ∷ row 149 153 (Ty.v128 ∷ Ty.v128 ∷ []) Ty.v128
    ∷ row 155 159 (Ty.v128 ∷ Ty.v128 ∷ []) Ty.v128
    ∷ row 160 161 (Ty.v128 ∷ []) Ty.v128
    ∷ row 163 164 (Ty.v128 ∷ []) Ty.i32
    ∷ row 167 170 (Ty.v128 ∷ []) Ty.v128
    ∷ row 171 173 (Ty.i32 ∷ Ty.v128 ∷ []) Ty.v128
    ∷ row 174 174 (Ty.v128 ∷ Ty.v128 ∷ []) Ty.v128
    ∷ row 177 177 (Ty.v128 ∷ Ty.v128 ∷ []) Ty.v128
    ∷ row 181 186 (Ty.v128 ∷ Ty.v128 ∷ []) Ty.v128
    ∷ row 188 191 (Ty.v128 ∷ Ty.v128 ∷ []) Ty.v128
    ∷ row 192 193 (Ty.v128 ∷ []) Ty.v128
    ∷ row 195 196 (Ty.v128 ∷ []) Ty.i32
    ∷ row 199 202 (Ty.v128 ∷ []) Ty.v128
    ∷ row 203 205 (Ty.i32 ∷ Ty.v128 ∷ []) Ty.v128
    ∷ row 206 206 (Ty.v128 ∷ Ty.v128 ∷ []) Ty.v128
    ∷ row 209 209 (Ty.v128 ∷ Ty.v128 ∷ []) Ty.v128
    ∷ row 213 223 (Ty.v128 ∷ Ty.v128 ∷ []) Ty.v128
    ∷ row 224 225 (Ty.v128 ∷ []) Ty.v128
    ∷ row 227 227 (Ty.v128 ∷ []) Ty.v128
    ∷ row 228 235 (Ty.v128 ∷ Ty.v128 ∷ []) Ty.v128
    ∷ row 236 237 (Ty.v128 ∷ []) Ty.v128
    ∷ row 239 239 (Ty.v128 ∷ []) Ty.v128
    ∷ row 240 247 (Ty.v128 ∷ Ty.v128 ∷ []) Ty.v128
    ∷ row 248 255 (Ty.v128 ∷ []) Ty.v128
    ∷ []

-- An opcode with a number and a type: the largest alignment, or the number of lanes.
pub data Place : Type 0 where
  place : ℕ → ℕ → ℕ → Place

unfoldable pub find_place : List Place → ℕ → Option (ℕ × ℕ)
find_place [] opcode = none
find_place (place op n type ∷ places) opcode =
    let rest = find_place places opcode in if opcode == op then some (n, type) else rest

-- LOAD_OP
abbrev pub loads : List Place
loads =
    place 40 2 Ty.i32
    ∷ place 41 3 Ty.i64
    ∷ place 42 2 Ty.f32
    ∷ place 43 3 Ty.f64
    ∷ place 44 0 Ty.i32
    ∷ place 46 1 Ty.i32
    ∷ place 45 0 Ty.i32
    ∷ place 47 1 Ty.i32
    ∷ place 48 0 Ty.i64
    ∷ place 50 1 Ty.i64
    ∷ place 52 2 Ty.i64
    ∷ place 49 0 Ty.i64
    ∷ place 51 1 Ty.i64
    ∷ place 53 2 Ty.i64
    ∷ []

-- STORE_OP
abbrev pub stores : List Place
stores =
    place 54 2 Ty.i32
    ∷ place 55 3 Ty.i64
    ∷ place 56 2 Ty.f32
    ∷ place 57 3 Ty.f64
    ∷ place 58 0 Ty.i32
    ∷ place 59 1 Ty.i32
    ∷ place 60 0 Ty.i64
    ∷ place 61 1 Ty.i64
    ∷ place 62 2 Ty.i64
    ∷ []

-- LOAD_OP on vectors
abbrev pub vector_loads : List Place
vector_loads =
    place 0 4 Ty.v128
    ∷ place 1 3 Ty.v128
    ∷ place 2 3 Ty.v128
    ∷ place 3 3 Ty.v128
    ∷ place 4 3 Ty.v128
    ∷ place 5 3 Ty.v128
    ∷ place 6 3 Ty.v128
    ∷ place 7 0 Ty.v128
    ∷ place 8 1 Ty.v128
    ∷ place 9 2 Ty.v128
    ∷ place 10 3 Ty.v128
    ∷ place 92 2 Ty.v128
    ∷ place 93 3 Ty.v128
    ∷ []

-- STORE_OP on vectors
abbrev pub vector_stores : List Place
vector_stores = place 11 4 Ty.v128 ∷ []

-- LOADLANE_OP
abbrev pub lane_loads : List Place
lane_loads = place 84 0 Ty.v128 ∷ place 85 1 Ty.v128 ∷ place 86 2 Ty.v128 ∷ place 87 3 Ty.v128 ∷ []

-- STORELANE_OP
abbrev pub lane_stores : List Place
lane_stores = place 88 0 Ty.v128 ∷ place 89 1 Ty.v128 ∷ place 90 2 Ty.v128 ∷ place 91 3 Ty.v128 ∷ []

-- EXTRACT_LANE_OP
abbrev pub extracts : List Place
extracts =
    place 21 16 Ty.i32
    ∷ place 22 16 Ty.i32
    ∷ place 24 8 Ty.i32
    ∷ place 25 8 Ty.i32
    ∷ place 27 4 Ty.i32
    ∷ place 29 2 Ty.i64
    ∷ place 31 4 Ty.f32
    ∷ place 33 2 Ty.f64
    ∷ []

-- REPLACE_LANE_OP
abbrev pub replaces : List Place
replaces =
    place 23 16 Ty.i32
    ∷ place 26 8 Ty.i32
    ∷ place 28 4 Ty.i32
    ∷ place 30 2 Ty.i64
    ∷ place 32 4 Ty.f32
    ∷ place 34 2 Ty.f64
    ∷ []
