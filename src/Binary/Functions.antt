-- ===== src/Binary/Functions.antt =====
-- parser.hpp: write_code_out, which validates the functions' bodies and writes their code.
use eos_vm.Prelude.{ℕ, ◌+◌, List, [], ◌∷◌, ◌++◌, some, get_elem?, set, max}
use eos_vm.Prelude.Result.{ok, out_of_range, or_throw}
use eos_vm.GuardedPtr.{GuardedPtr}
use eos_vm.Options.{Options}
use eos_vm.Types.{FunctionBody}
use eos_vm.Writer.{Writer, emit_prologue, emit_epilogue, finalize}
use eos_vm.Parser.Locals.{LocalTypes, local_types}
use eos_vm.Body.{Env, Body}
use eos_vm.Body.Code.{parse_function_body_code}
use eos_vm.Binary.{Parser, Written}
use eos_vm.Binary.Fueled.{Run, ◌>>=◌}

-- An entry of the code section, the pointer to its body, and the count of its bytes of locals.
abbrev pub Entry : Type 0
Entry = FunctionBody × GuardedPtr × ℕ

-- What the body of a function is read with, where an opcode has `opcode_bytes` bytes.
abbrev pub body_env : Options → ℕ → Parser → LocalTypes → Env
body_env options opcode_bytes p types = record {
  options = options;
  mod' = p.mod';
  type_aliases = p.type_aliases;
  datacount = p.datacount;
  local_types = types;
  opcode_bytes = opcode_bytes;
}

-- The code of a finished writer.
abbrev pub written : ℕ → Writer → Written
written base w = record { base = base; opcodes = w.code; elems = w.elems; cells = w.cells }

-- The state behind function `i`, whose body is left in `s`.
abbrev pub wrote : Parser → ℕ → FunctionBody → ℕ → Body → ℕ → Writer → Parser
wrote p i fb base s stack w = record p {
  mod' = record p.mod' {
    code = set p.mod'.code i fb;
    maximum_stack = max p.mod'.maximum_stack stack;
  };
  nested = s.nested;
  functions = p.functions ++ (written base w ∷ []);
}

-- A round of the loop of write_code_out.
unfoldable pub write_function :
    ℕ → Options → ℕ → ℕ → Entry → Writer → Parser → Run (Writer × Parser)
write_function fuel options opcode_bytes i (fb, code, count) code_writer p = do
  t ← some (or_throw (get_elem? p.mod'.functions i) out_of_range)
  ft ← some (or_throw (get_elem? p.mod'.types t) out_of_range)
  types ← some (local_types ft fb.locals)
  (s, stack, end) ←
      parse_function_body_code fuel (body_env options opcode_bytes p types) fb.size ft count
        p.nested (emit_prologue fb.size code_writer) code
  let w = emit_epilogue ft fb.locals s.writer
  let (fb', w') = finalize fb w
  some (ok (w', wrote p i fb' w.base_offset s stack w'))

-- write_code_out(allocator, code, code_start), from function `i` on
unfoldable pub write_code_out : ℕ → Options → ℕ → ℕ → List Entry → Writer → Parser → Run Parser
write_code_out fuel options opcode_bytes i [] code_writer p = some (ok p)
write_code_out fuel options opcode_bytes i (entry ∷ bodies) code_writer p = do
  (w, p') ← write_function fuel options opcode_bytes i entry code_writer p
  write_code_out fuel options opcode_bytes (i + 1) bodies w p'
