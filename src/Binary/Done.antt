-- ===== src/Binary/Done.antt =====
-- parse_module ends, and a module that it returns is well-formed.
use eos_vm.Prelude.{
  All, ℕ, ◌-◌, ◌<◌, ◌≡◌, refl, ap, inl, inr, List, true, false, some, length, ==_iff, Bool, arith,
  ◌⊎◌,
}
use eos_vm.Prelude.Result.{Error, ok, err, eos_vm_assert, wasm_parse_exception}
use eos_vm.GuardedPtr.{GuardedPtr, guarded_ptr, IsValid}
use eos_vm.GuardedPtr.Ensures.{Kept}
use eos_vm.Options.{Options}
use eos_vm.Parser.Primitives.Bounds.{parse_raw-Ensures}
use eos_vm.Parser.Tables.Exports.{Distinct}
use eos_vm.Binary.{Parser}
use eos_vm.Binary.Sections.{sections, new_parser, parse_module, parse_code}
use eos_vm.Binary.Ends.{
  Ended, ended, threw, Ends, Ends-bind, Ends-pure, Ends-lift, Ends-reads, Finished-some, Finished,
  finished, failed,
}
use eos_vm.Binary.Fueled
use eos_vm.Binary.Fueled.{Run}
use eos_vm.Binary.WellFormed.{IsWellFormed, Inv}
use eos_vm.Binary.Loop.{sections-Ended}

-- A parser that has read nothing is well-formed.
new_parser-Inv : (options : Options) → Inv options 0 new_parser
unfolding Distinct
new_parser-Inv options = record {
  formed = record {
    types = tt;
    imports = tt;
    functions = tt;
    tables = record { size_le = omega arith; all = tt };
    memories = record { size_le = omega arith; all = tt };
    exports = tt;
    names = tt;
    start = inl refl;
    elements = tt;
    datas = tt;
    code = refl;
    linked = tt;
  };
  fresh = ground arith;
}

parse_module-Ends :
    (bytes : List ℕ) (fuel : ℕ) (options : Options) (opcode_bytes sz : ℕ)
    → length bytes < fuel
    → Ends bytes
        (λ p. IsWellFormed options p × (length p.mod'.code ≡ length p.mod'.functions))
        (parse_module fuel options opcode_bytes sz)
unfolding parse_module
parse_module-Ends bytes fuel options opcode_bytes sz l =
    Ends-bind (Ends-reads (parse_raw-Ensures 4)) λ magic _.
      Ends-bind (Ends-lift (Finished-some _)) λ _ _.
        Ends-bind (Ends-reads (parse_raw-Ensures 4)) λ version _.
          Ends-bind (Ends-lift (Finished-some _)) λ _ _.
            Ends-bind loop
              λ p w. Ends-bind (Ends-lift (asserted _)) λ _ s. Ends-pure p (w, (==_iff _ _).0 s)
  where
    loop :
        Ends bytes (IsWellFormed options) (sections fuel fuel options opcode_bytes sz 0 new_parser)
    loop = record {
      run = λ c v e.
          let below : c.bnds - c.raw_ptr < fuel = omega (arith, v.bnds_le, l, ap (length {0}) e) in
          sections-Ended bytes fuel fuel options opcode_bytes sz 0 new_parser c below l
            (new_parser-Inv options) v e;
    }

    asserted : (b : Bool) → Finished (λ _. b ≡ true) (some (eos_vm_assert b wasm_parse_exception))
    asserted true = finished refl
    asserted false = failed

-- From a valid pointer, with more fuel than there are bytes in the buffer, parse_module gives an error, or
-- returns a well-formed module with a body for each of its functions, and has moved the pointer forward
-- inside its bounds.
parse_module_forms :
    (fuel : ℕ) (options : Options) (opcode_bytes sz : ℕ) (c : GuardedPtr)
    → length c.bytes < fuel
    → IsValid c
    → ((e : Error) × (parse_module fuel options opcode_bytes sz c ≡ some (err e)))
      ⊎ ((p : Parser) × (d : GuardedPtr) × (parse_module fuel options opcode_bytes sz c
            ≡ some (ok (p, d)))
          × IsWellFormed options p
          × (length p.mod'.code ≡ length p.mod'.functions)
          × Kept c d)
parse_module_forms fuel options opcode_bytes sz c l v =
    go refl ((parse_module-Ends c.bytes fuel options opcode_bytes sz l).run c v refl)
  where
    go :
        {r : Run (Parser × GuardedPtr)}
        → parse_module fuel options opcode_bytes sz c ≡ r
        → Ended (λ p. IsWellFormed options p × (length p.mod'.code ≡ length p.mod'.functions)) c r
        → ((e : Error) × (parse_module fuel options opcode_bytes sz c ≡ some (err e)))
          ⊎ ((p : Parser) × (d : GuardedPtr) × (parse_module fuel options opcode_bytes sz c
                ≡ some (ok (p, d)))
              × IsWellFormed options p
              × (length p.mod'.code ≡ length p.mod'.functions)
              × Kept c d)
    go e (ended {a = p} {d = d} (w, s) k) = inr (p, d, e, w, s, k)
    go e (threw {e = x}) = inl (x, e)

-- From a vector of bytes, with more fuel than there are bytes, parse_module gives an error, or returns a
-- well-formed module with a body for each of its functions.
pub parse_code_forms :
    (fuel : ℕ) (options : Options) (opcode_bytes : ℕ) (code : List ℕ)
    → length code < fuel
    → All (λ b. b < 256) code
    → ((e : Error) × (parse_code fuel options opcode_bytes code ≡ some (err e)))
      ⊎ ((p : Parser) × (parse_code fuel options opcode_bytes code ≡ some (ok p))
          × IsWellFormed options p
          × (length p.mod'.code ≡ length p.mod'.functions))
unfolding parse_code Fueled.◌>>=◌
parse_code_forms fuel options opcode_bytes code l b =
    let c = guarded_ptr code 0 (length code) in
    let v : IsValid c = record {
      orig_le = omega arith;
      raw_le = omega arith;
      bnds_le = omega arith;
      bytes_fit = b;
    } in
    elim (parse_module_forms fuel options opcode_bytes (length code) c l v) [
      | inl (e, f) ↦ inl (e, rw f refl)
      | inr (p, d, f, w, s, _) ↦ inr (p, rw f refl, w, s)
    ]
