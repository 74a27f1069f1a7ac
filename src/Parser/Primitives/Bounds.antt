-- ===== src/Parser/Primitives/Bounds.antt =====
-- The fixed-width reads and the names stay inside the buffer, and the loop over a name ends.
use eos_vm.Prelude.{
  ℕ, zero, suc, ◌+◌, ◌-◌, ◌^◌, ◌≤◌, ◌<◌, ◌≡◌, refl, List, [], ◌∷◌, Bool, true, false, length, All,
  ltb, leb→le, ◌==◌, Bool-cases, inl, inr, if◌then◌else◌, ap, arith,
}
use native.Mathlib.Nat.{pow-suc, le_refl}
use eos_vm.Prelude.Result.{ok, wasm_parse_exception}
use eos_vm.GuardedPtr.{GuardedPtr, IsValid, Read, ◌>>=◌, pure, throw, lift, get, next}
use eos_vm.GuardedPtr.Ensures.{
  Ensures, Ensures-bind, Ensures-pure, Ensures-throw, Ensures-assert, Ensures-if, EnsuresWithin,
  next-Ensures, advance-Ensures, scoped_shrink_bounds-EnsuresWithin, load_outcome, Outcome-bind_at,
  Kept-IsValid, >>=-ok, EnsuresWithin-bind, Ensures→EnsuresWithin, >>=-ok, EnsuresWithin-bind,
  Ensures→EnsuresWithin,
}
use eos_vm.GuardedPtr.Inversion.{>>=-inv, check-inv, pure-inv, next-inv}
use eos_vm.Leb128.Values.{parse_varuint32-Ensures}
use eos_vm.Parser.Primitives.{
  raw_bytes, little_endian, parse_raw, parse_v128, sub_u32, code_point_2, code_point_3,
  code_point_4, validate_utf8_code_point, validate_utf8_string, parse_utf8_string,
}

pub record IsBytes (n : ℕ) (bs : List ℕ) : Type 0 where
  pub size : length bs ≡ n
  pub are_bytes : All (λ b. b < 256) bs

raw_bytes_ok :
    (n i : ℕ) (c : GuardedPtr)
    → IsValid c
    → c.raw_ptr + i + n ≤ c.bnds
    → (bs : List ℕ) × (raw_bytes n i c ≡ ok (bs, c)) × IsBytes n bs
unfolding raw_bytes get lift ◌>>=◌ pure
raw_bytes_ok zero i c v h = ([], refl, record { size = refl; are_bytes = tt })
raw_bytes_ok (suc n) i c v h =
    let (b, e, hb) = load_outcome c (c.raw_ptr + i) v (omega arith) in
    let (bs, es, hs) = raw_bytes_ok n (i + 1) c v (omega arith) in
    (b ∷ bs, ground arith, record { size = ap suc hs.size; are_bytes = (hb, hs.are_bytes) })

-- Where `n` bytes are left, reading them raw is defined.
pub raw_bytes-EnsuresWithin :
    {A : Type 0} {Q : A → Type 0} (n : ℕ) (f : List ℕ → Read A)
    → ((bs : List ℕ) → IsBytes n bs → EnsuresWithin n Q (f bs))
    → EnsuresWithin n Q (raw_bytes n 0 >>= f)
raw_bytes-EnsuresWithin n f p = record {
  run = λ c v e.
      let (bs, r, h) = raw_bytes_ok n 0 c v (omega arith) in
      rw (>>=-ok (raw_bytes n 0) f r) ((p bs h).run c v e);
}

little_endian-lt : (bs : List ℕ) → All (λ b. b < 256) bs → little_endian bs < 256 ^ length bs
unfolding little_endian
little_endian-lt [] h = omega arith
little_endian-lt (b ∷ bs) (hb, hs) = ground (arith, little_endian-lt bs hs, pow-suc 256 (length bs))

-- A raw read stays inside the buffer and returns a number of `n` bytes.
pub parse_raw-Ensures : (n : ℕ) → Ensures (λ v. v < 256 ^ n) (parse_raw n)
unfolding parse_raw
parse_raw-Ensures n = scoped_shrink_bounds-EnsuresWithin n (
    raw_bytes-EnsuresWithin n _ λ bs h. Ensures→EnsuresWithin (
      Ensures-bind (advance-Ensures n)
        λ _ _. Ensures-pure _ (rw h.size at (little_endian-lt bs h.are_bytes))))

pub parse_v128-Ensures : Ensures (λ v. v < 256 ^ 16) parse_v128
unfolding parse_v128
parse_v128-Ensures = scoped_shrink_bounds-EnsuresWithin 16 (
    raw_bytes-EnsuresWithin 16 _ λ bs h. Ensures→EnsuresWithin (
      Ensures-bind (advance-Ensures 16)
        λ _ _. Ensures-pure _ (rw h.size at (little_endian-lt bs h.are_bytes))))

code_point_2-Ensures : (ch : ℕ) → Ensures (λ _. Unit {0}) (code_point_2 ch)
unfolding code_point_2
code_point_2-Ensures ch = Ensures-assert _ tt λ _.
    Ensures-bind next-Ensures
      λ _ _. Ensures-assert _ tt λ _. Ensures-assert _ tt λ _. Ensures-pure _ tt

code_point_3-Ensures : (ch : ℕ) → Ensures (λ _. Unit {0}) (code_point_3 ch)
unfolding code_point_3
code_point_3-Ensures ch = Ensures-bind next-Ensures λ _ _. Ensures-assert _ tt λ _.
    Ensures-bind next-Ensures
      λ _ _. Ensures-assert _ tt λ _. Ensures-assert _ tt λ _. Ensures-pure _ tt

code_point_4-Ensures : (ch : ℕ) → Ensures (λ _. Unit {0}) (code_point_4 ch)
unfolding code_point_4
code_point_4-Ensures ch = Ensures-bind next-Ensures λ _ _. Ensures-assert _ tt λ _.
    Ensures-bind next-Ensures λ _ _. Ensures-assert _ tt λ _.
      Ensures-bind next-Ensures
        λ _ _. Ensures-assert _ tt λ _. Ensures-assert _ tt λ _. Ensures-pure _ tt

pub validate_utf8_code_point-Ensures : Ensures (λ _. Unit {0}) validate_utf8_code_point
unfolding validate_utf8_code_point
validate_utf8_code_point-Ensures = Ensures-bind next-Ensures λ ch _.
    Ensures-if (ltb ch 0x80) (λ _. Ensures-pure _ tt)
      λ _.
        Ensures-if (ltb ch 0xE0) (λ _. code_point_2-Ensures ch)
          λ _.
            Ensures-if (ltb ch 0xF0) (λ _. code_point_3-Ensures ch)
              λ _. Ensures-if (ltb ch 0xF8) (λ _. code_point_4-Ensures ch) λ _. Ensures-throw _ tt

-- The pointer moves by the length that the validation returns, less the `k` bytes read before.
abbrev Moves : Read ℕ → ℕ → Type 0
Moves m k =
    (c d : GuardedPtr) (n : ℕ)
    → m c ≡ ok (n, d)
    → (n ≡ k + (d.raw_ptr - c.raw_ptr)) × (1 ≤ n) × (c.raw_ptr ≤ d.raw_ptr)

code_point_2-Moves : (ch : ℕ) → Moves (code_point_2 ch) 1
unfolding code_point_2
code_point_2-Moves ch c d n h =
    let (_, h₁) = check-inv _ _ _ h in
    let (b2, c₁, e₁, h₂) = >>=-inv next _ h₁ in
    let (_, h₃) = check-inv _ _ _ h₂ in
    let (_, h₄) = check-inv _ _ _ h₃ in
    let (p, q) = pure-inv 2 n h₄ in let (_, r, _) = next-inv c c₁ b2 e₁ in ground arith

code_point_3-Moves : (ch : ℕ) → Moves (code_point_3 ch) 1
unfolding code_point_3
code_point_3-Moves ch c d n h =
    let (b2, c₁, e₁, h₁) = >>=-inv next _ h in
    let (_, h₂) = check-inv _ _ _ h₁ in
    let (b3, c₂, e₂, h₃) = >>=-inv next _ h₂ in
    let (_, h₄) = check-inv _ _ _ h₃ in
    let (_, h₅) = check-inv _ _ _ h₄ in
    let (p, q) = pure-inv 3 n h₅ in
    let (_, r₁, _) = next-inv c c₁ b2 e₁ in let (_, r₂, _) = next-inv c₁ c₂ b3 e₂ in ground arith

code_point_4-Moves : (ch : ℕ) → Moves (code_point_4 ch) 1
unfolding code_point_4
code_point_4-Moves ch c d n h =
    let (b2, c₁, e₁, h₁) = >>=-inv next _ h in
    let (_, h₂) = check-inv _ _ _ h₁ in
    let (b3, c₂, e₂, h₃) = >>=-inv next _ h₂ in
    let (_, h₄) = check-inv _ _ _ h₃ in
    let (b4, c₃, e₃, h₅) = >>=-inv next _ h₄ in
    let (_, h₆) = check-inv _ _ _ h₅ in
    let (_, h₇) = check-inv _ _ _ h₆ in
    let (p, q) = pure-inv 4 n h₇ in
    let (_, r₁, _) = next-inv c c₁ b2 e₁ in
    let (_, r₂, _) = next-inv c₁ c₂ b3 e₂ in let (_, r₃, _) = next-inv c₂ c₃ b4 e₃ in ground arith

Moves-if : (t : Bool) (k : ℕ) {m n : Read ℕ} → Moves m k → Moves n k → Moves (if t then m else n) k
Moves-if true k p q = p
Moves-if false k p q = q

one-Moves : Moves (pure 1) 1
one-Moves c d n h = let (p, q) = pure-inv 1 n h in ground arith

throw-Moves : Moves (throw wasm_parse_exception) 1
unfolding throw
throw-Moves c d n h = cc

validate_utf8_code_point-Moves : Moves validate_utf8_code_point 0
unfolding validate_utf8_code_point
validate_utf8_code_point-Moves c d n h =
    let (ch, c₁, e₁, h₁) = >>=-inv next _ h in
    let (_, r, _) = next-inv c c₁ ch e₁ in
    let (p, q, o) =
      Moves-if (ltb ch 0x80) 1 one-Moves
        (Moves-if (ltb ch 0xE0) 1 (code_point_2-Moves ch) (
          Moves-if (ltb ch 0xF0) 1 (code_point_3-Moves ch)
            (Moves-if (ltb ch 0xF8) 1 (code_point_4-Moves ch) throw-Moves)))
        c₁ d n h₁ in
    ground arith

-- With exactly `bytes` bytes left, the loop over a name ends within `bytes` rounds.
validate_utf8_string-EnsuresWithin :
    (fuel bytes : ℕ)
    → bytes ≤ fuel
    → bytes < 2 ^ 32
    → EnsuresWithin bytes (λ _. Unit {0}) (validate_utf8_string fuel bytes)
unfolding validate_utf8_string
validate_utf8_string-EnsuresWithin zero bytes h s =
    let z : (bytes == 0) ≡ true = ground arith in rw z (Ensures→EnsuresWithin (Ensures-pure tt tt))
validate_utf8_string-EnsuresWithin (suc fuel) bytes h s = elim (Bool-cases (bytes == 0)) [
  | inl z ↦ rw z (Ensures→EnsuresWithin (Ensures-pure tt tt))
  | inr z ↦ rw z (record {
    run = λ c v e. Outcome-bind_at v validate_utf8_code_point-Ensures λ n d r _ k.
        let (p, q, o) = validate_utf8_code_point-Moves c d n r in
        let left : sub_u32 bytes n ≡ bytes - n = omega arith in
        rw left (
          (validate_utf8_string-EnsuresWithin fuel (bytes - n) (omega arith) (omega arith)).run d
            (Kept-IsValid v k) (omega arith));
  })
]

-- A name stays inside the buffer; the loop over its code points never runs out of fuel.
pub parse_utf8_string-Ensures :
    (max_size : ℕ) → Ensures (λ bs. length bs ≤ max_size) (parse_utf8_string max_size)
unfolding parse_utf8_string
parse_utf8_string-Ensures max_size = Ensures-bind parse_varuint32-Ensures λ len small.
    Ensures-assert _ tt λ fits. scoped_shrink_bounds-EnsuresWithin len (
      raw_bytes-EnsuresWithin len _ λ bs h.
        EnsuresWithin-bind (validate_utf8_string-EnsuresWithin len len (le_refl len) small)
          λ _ _. Ensures-pure bs (omega (arith, h.size, leb→le len max_size fits)))
