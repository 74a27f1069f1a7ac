-- ===== src/Binary/Loop.antt =====
-- The loop of parse_module over the sections ends, and keeps its invariant.
use eos_vm.Prelude.{
  ℕ, zero, suc, ◌-◌, ◌≤◌, ◌<◌, ◌≡◌, refl, sym, ap, ◌∙◌, inl, inr, List, some, length, get_elem?,
  ◌==◌, Bool-cases, arith,
}
use mathlib.Core.Path.{subst}
use eos_vm.Prelude.Result.{Error, Result, ok, err}
use eos_vm.GuardedPtr.{GuardedPtr, IsValid, next, offset}
use eos_vm.GuardedPtr.Ensures.{
  Kept, Kept-refl, Kept-trans, Kept-IsValid, Outcome, returns, raises, next-Ensures,
}
use eos_vm.GuardedPtr.Inversion.{next-inv}
use eos_vm.Leb128.{parse_varuint32}
use eos_vm.Leb128.Values.{parse_varuint32-Ensures}
use eos_vm.Options.{Options}
use eos_vm.Parser.Sections.Order.{
  make_section_order, place_sections, next_section, next_section-place, next_section-custom,
}
use eos_vm.Binary.{Parse, Parser, ◌>>=◌, reads, lift, pure, scoped}
use eos_vm.Binary.Fueled
use eos_vm.Binary.Fueled.{Run}
use eos_vm.Binary.Sections.{custom_case, cases, section_case, section, sections}
use eos_vm.Binary.Ends.{
  Ended, ended, threw, Ends, Ends-bind, Ends-pure, Ends-lift, Ends-reads, Ends-scoped, Ends-switch,
  Ended-trans, Finished-some, failed,
}
use eos_vm.Binary.WellFormed.{IsWellFormed, Inv}
use eos_vm.Binary.Declarations.{
  type_case-Keeps, import_case-Keeps, function_case-Keeps, table_case-Keeps, memory_case-Keeps,
  global_case-Keeps,
}
use eos_vm.Binary.Contents.{
  export_case-Keeps, start_case-Keeps, element_case-Keeps, data_case-Keeps, data_count_case-Keeps,
}
use eos_vm.Binary.Code.{custom_case-Keeps, code_section-Keeps}

-- A section in its place: what the case does with a highest place below its own, the loop does.
in_place :
    {options : Options} {bytes : List ℕ} {m : Parse Parser} {highest highest' id order k : ℕ}
    → get_elem? make_section_order k ≡ some order
    → 1 ≤ k
    → next_section highest id ≡ ok highest'
    → (highest < order → Ends bytes (Inv options order) m)
    → id ≡ k
    → Ends bytes (Inv options highest') m
in_place {options} {bytes} {m} {highest} {highest'} known l h f e =
    let (below, same) =
      next_section-place highest _ known l
        (subst (λ i. next_section highest i ≡ ok highest') e h) in
    subst (λ n. Ends bytes (Inv options n) m) (sym same) (f below)

-- The switch keeps the invariant, for the place that the id of the section gives.
section_case-Keeps :
    (bytes : List ℕ) (fuel : ℕ) (options : Options) (opcode_bytes id : ℕ) {highest highest' : ℕ}
    {p : Parser}
    → length bytes < fuel
    → Inv options highest p
    → next_section highest id ≡ ok highest'
    → Ends bytes (Inv options highest') (section_case fuel options opcode_bytes id p)
unfolding make_section_order place_sections
section_case-Keeps bytes fuel options opcode_bytes id {highest} {highest'} {p} l i h =
    Ends-switch id (cases fuel options opcode_bytes p)
      (
        custom,
        (
          in_place refl (omega arith) h (type_case-Keeps options bytes i),
          (
            in_place refl (omega arith) h (import_case-Keeps options bytes i),
            (
              in_place refl (omega arith) h (function_case-Keeps options bytes i),
              (
                in_place refl (omega arith) h (table_case-Keeps options bytes i),
                (
                  in_place refl (omega arith) h (memory_case-Keeps options bytes i),
                  (
                    in_place refl (omega arith) h (global_case-Keeps options bytes i),
                    (
                      in_place refl (omega arith) h (export_case-Keeps options bytes i),
                      (
                        in_place refl (omega arith) h (start_case-Keeps options bytes i),
                        (
                          in_place refl (omega arith) h (element_case-Keeps options bytes i),
                          (
                            in_place refl (omega arith) h
                                (code_section-Keeps options bytes fuel opcode_bytes l i),
                            (
                              in_place refl (omega arith) h (data_case-Keeps options bytes i),
                              (
                                in_place refl (omega arith) h
                                    (data_count_case-Keeps options bytes i),
                                tt,
                              ),
                            ),
                          ),
                        ),
                      ),
                    ),
                  ),
                ),
              ),
            ),
          ),
        ),
      )
      (Ends-lift failed)
  where
    custom : id ≡ 0 → Ends bytes (Inv options highest') (custom_case options p)
    custom e =
        subst (λ n. Ends bytes (Inv options n) (custom_case options p))
          (next_section-custom highest (subst (λ i. next_section highest i ≡ ok highest') e h))
          (custom_case-Keeps options bytes i)

-- A round of the loop that ends has moved the pointer, and keeps the invariant.
data Advanced (options : Options) (c : GuardedPtr) : Run ((ℕ × Parser) × GuardedPtr) → Type 0 where
  advanced :
      {highest : ℕ} {p : Parser} {d : GuardedPtr}
      → Inv options highest p
      → Kept c d
      → c.raw_ptr < d.raw_ptr
      → Advanced options c (some (ok ((highest, p), d)))
  refused : {e : Error} → Advanced options c (some (err e))

section-Advanced :
    (bytes : List ℕ) (fuel : ℕ) (options : Options) (opcode_bytes highest : ℕ) {p : Parser}
    (c : GuardedPtr)
    → length bytes < fuel
    → Inv options highest p
    → IsValid c
    → c.bytes ≡ bytes
    → Advanced options c (section fuel options opcode_bytes highest p c)
unfolding section ◌>>=◌ Fueled.◌>>=◌ reads
section-Advanced bytes fuel options opcode_bytes highest {p} c l i v e =
    go (next c) refl (next-Ensures.run c v)
  where
    onward :
        {d : GuardedPtr} {r : Run ((ℕ × Parser) × GuardedPtr)}
        → Kept c d
        → c.raw_ptr < d.raw_ptr
        → Ended (λ (highest', q). Inv options highest' q) d r
        → Advanced options c r
    onward k m (ended q n) = advanced q (Kept-trans k n) (omega (arith, m, n.forward))
    onward k m threw = refused

    rest : ℕ → Parse (ℕ × Parser)
    rest id = reads parse_varuint32 >>= λ len. lift (some (next_section highest id)) >>= λ highest'.
        scoped len (section_case fuel options opcode_bytes id p) >>= λ q. pure (highest', q)

    rest-Ends : (id : ℕ) → Ends bytes (λ (highest', q). Inv options highest' q) (rest id)
    rest-Ends id = Ends-bind (Ends-reads parse_varuint32-Ensures) λ len _.
        Ends-bind (Ends-lift (Finished-some (next_section highest id))) λ highest' h.
          Ends-bind (Ends-scoped len (section_case-Keeps bytes fuel options opcode_bytes id l i h))
            λ q j. Ends-pure _ j

    go :
        (r : Result (ℕ × GuardedPtr))
        → next c ≡ r
        → Outcome (λ b. b < 256) c r
        → Advanced options c (Fueled.◌>>=◌ (some r) (λ (id, d). rest id d))
    go r f (returns {a = id} {d = d} q k) =
        let (_, moved, _) = next-inv c d id f in
        onward k (omega (arith, ap (λ p. p.raw_ptr) moved))
          ((rest-Ends id).run d (Kept-IsValid v k) (k.same_bytes ∙ e))
    go r f (raises x) = refused

-- With more rounds than there are bytes below the bound the loop ends, and keeps the invariant.
pub sections-Ended :
    (bytes : List ℕ) (rounds fuel : ℕ) (options : Options) (opcode_bytes sz highest : ℕ)
    (p : Parser) (c : GuardedPtr)
    → c.bnds - c.raw_ptr < rounds
    → length bytes < fuel
    → Inv options highest p
    → IsValid c
    → c.bytes ≡ bytes
    → Ended (IsWellFormed options) c (sections rounds fuel options opcode_bytes sz highest p c)
unfolding sections ◌>>=◌ Fueled.◌>>=◌
sections-Ended bytes zero fuel options opcode_bytes sz highest p c m l i v e = absurd (omega arith)
sections-Ended bytes (suc rounds) fuel options opcode_bytes sz highest p c m l i v e =
    elim (Bool-cases (offset c == sz)) [
      | inl f ↦ rw (f, sections) (ended i.formed (Kept-refl v))
      | inr f ↦
          rw (f, sections)
            (go (λ h q. sections-Ended bytes rounds fuel options opcode_bytes sz h q) _
              (section-Advanced bytes fuel options opcode_bytes highest c l i v e))
    ]
  where
    go :
        ((h : ℕ) (q : Parser) (d : GuardedPtr)
          → d.bnds - d.raw_ptr < rounds
          → length bytes < fuel
          → Inv options h q
          → IsValid d
          → d.bytes ≡ bytes
          → Ended (IsWellFormed options) d (sections rounds fuel options opcode_bytes sz h q d))
        → (r : Run ((ℕ × Parser) × GuardedPtr)) → Advanced options c r
        → Ended
            (IsWellFormed options)
            c
            (Fueled.◌>>=◌ r (λ ((h, q), d). sections rounds fuel options opcode_bytes sz h q d))
    go more r (advanced {highest = h} {p = q} {d = d} j k n) = Ended-trans k (
        more h q d (omega (arith, m, n, k.same_bnds, k.inside)) l j (Kept-IsValid v k)
          (k.same_bytes ∙ e))
    go more r refused = threw
