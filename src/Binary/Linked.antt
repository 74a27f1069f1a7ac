-- ===== src/Binary/Linked.antt =====
-- The code of a module: each function's body is written, and the target of each of its branches is the
-- number, in 32 bits, of one of its instructions.
use eos_vm.Prelude.{
  ℕ, ◌+◌, ◌%◌, ◌^◌, ◌≤◌, ◌<◌, ◌≡◌, refl, ◌∙◌, ap, suc, List, [], ◌∷◌, ◌++◌, some, length, get_elem?,
  All, All-append, length-append_one, length-set, arith, inl, inr,
}
use mathlib.Core.Path.{subst}
use eos_vm.GuardedPtr.{GuardedPtr}
use eos_vm.Options.{Options}
use eos_vm.Types.{FuncType, LocalEntry, FunctionBody}
use eos_vm.Writer.{Opcode, Writer, emit_prologue, emit_epilogue, finalize}
use eos_vm.Parser.Entries.Bodies.{IsEntry}
use eos_vm.Body.{Env, Body}
use eos_vm.Body.Code.{parse_function_body_code}
use eos_vm.Body.Keeps.Branches.Done.{IsFixed, parse_function_body_code_fixes}
use eos_vm.Binary.{Parser, Written}
use eos_vm.Binary.Functions.{Entry, written, write_function, write_code_out}
use eos_vm.Binary.Fueled.{Run}
use eos_vm.Binary.Ends.{Finished, finished, failed, Finished-bind, Finished-some}

-- Each branch of a function has a target, which is the number in 32 bits of one of its instructions.
pub record IsLinked (w : Written) : Type 0 where
  pub target :
      (address : ℕ)
      → address < length w.cells
      → (t : ℕ) × (get_elem? w.cells address ≡ some (some t))
        × ((place : ℕ) × (place < length w.opcodes) × (t ≡ (w.base + place) % 2 ^ 32))

-- A parser that differs from the first in what write_code_out changes, with `n` functions written.
pub data Rewritten (p : Parser) (n : ℕ) : Parser → Type 0 where
  rewritten :
      {code : List FunctionBody} {stack nested : ℕ} {functions : List Written}
      → length code ≡ length p.mod'.code
      → length functions ≡ n
      → All IsLinked functions
      → Rewritten p n (record p {
        mod' = record p.mod' { code = code; maximum_stack = stack };
        nested = nested;
        functions = functions;
      })

-- The return behind the body is an instruction of the function.
epilogue-IsLinked :
    {s : Body} {c d : GuardedPtr} (fb : FunctionBody) (ft : FuncType) (locals : List LocalEntry)
    → IsFixed s c d
    → let w = emit_epilogue ft locals s.writer in IsLinked (written w.base_offset (finalize fb w).1)
unfolding emit_epilogue finalize
epilogue-IsLinked {s = s} fb ft locals f = record {
  target = λ address h.
      let (t, e, (place, l, k)) = f.fixed address h in (t, e, (place, below s.writer.code _ l, k));
}
  where
    below :
        (xs : List Opcode) (x : Opcode) {place : ℕ}
        → place ≤ length xs
        → place < length (xs ++ (x ∷ []))
    below xs x h = omega (arith, length-append_one xs x)

body_code-Finished :
    (fuel : ℕ) (env : Env) (nested : ℕ) (ft : FuncType) {bytes : List ℕ} (entry : Entry)
    (w : Writer)
    → length bytes < fuel
    → IsEntry bytes entry
    → Finished
        (λ (s, stack, d). IsFixed s entry.1 d)
        (parse_function_body_code fuel env entry.0.size ft entry.2 nested
          (emit_prologue entry.0.size w)
          entry.1)
unfolding emit_prologue
body_code-Finished fuel env nested ft (fb, c, count) w l e =
    elim (parse_function_body_code_fixes fuel env fb.size ft count nested (emit_prologue fb.size w)
      c (omega (arith, l, e.size_le)) e.valid refl) [
        | inl (x, f) ↦ rw f failed
        | inr (s, stack, d, f, q) ↦ rw f (finished q)
      ]

-- With more fuel than there are bytes a function is written, or the code throws.
write_function-Finished :
    (fuel : ℕ) (options : Options) (opcode_bytes i n : ℕ) (entry : Entry) (w : Writer)
    {bytes : List ℕ} {p q : Parser}
    → length bytes < fuel
    → IsEntry bytes entry
    → Rewritten p n q
    → Finished
        (λ (_, q'). Rewritten p (suc n) q')
        (write_function fuel options opcode_bytes i entry w q)
unfolding write_function
write_function-Finished fuel options opcode_bytes i n (fb, c, count) w l e
      (rewritten {functions = functions} same size linked) =
    Finished-bind (Finished-some _) λ t _. Finished-bind (Finished-some _) λ ft _.
      Finished-bind (Finished-some _) λ types _.
        Finished-bind (body_code-Finished fuel _ _ ft (fb, c, count) w l e) λ (s, stack, d) f.
          finished (
            rewritten (length-set _ i _ ∙ same) (length-append_one functions _ ∙ ap suc size)
              (All-append IsLinked _ _ linked (epilogue-IsLinked fb ft fb.locals f, tt)))

renumber :
    {p : Parser} {n m : ℕ} {r : Run Parser}
    → n ≡ m
    → Finished (Rewritten p n) r
    → Finished (Rewritten p m) r
renumber {p} {r = r} e h = subst (λ k. Finished (Rewritten p k) r) e h

-- With more fuel than there are bytes in the buffer of the bodies write_code_out throws, or writes as
-- many functions as there are bodies, each with its branches linked.
pub write_code_out-Finished :
    (fuel : ℕ) (options : Options) (opcode_bytes i n : ℕ) (bodies : List Entry) (w : Writer)
    (bytes : List ℕ) {p q : Parser}
    → length bytes < fuel
    → All (IsEntry bytes) bodies
    → Rewritten p n q
    → Finished
        (Rewritten p (n + length bodies))
        (write_code_out fuel options opcode_bytes i bodies w q)
unfolding write_code_out
write_code_out-Finished fuel options opcode_bytes i n [] w bytes l es r =
    renumber (omega arith) (finished r)
write_code_out-Finished fuel options opcode_bytes i n (entry ∷ bodies) w bytes l (e, es) r =
    Finished-bind (write_function-Finished fuel options opcode_bytes i n entry w l e r)
      λ (w', q') r'.
        renumber (omega arith) (
          write_code_out-Finished fuel options opcode_bytes (i + 1) (suc n) bodies w' bytes l es r')
