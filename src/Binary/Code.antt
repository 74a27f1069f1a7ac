-- ===== src/Binary/Code.antt =====
-- The custom sections and the code section keep the invariant of parse_module.
use eos_vm.Prelude.{
  All-nil, ℕ, ◌+◌, ◌-◌, ◌<◌, ◌≡◌, refl, ap, suc, List, [], ◌∷◌, Option, none, some, All, length,
  map, ==_iff, arith,
}
use eos_vm.GuardedPtr.{bounds, offset}
use eos_vm.GuardedPtr.Ensures.{Ensures-check, Ensures-pure, get-Ensures}
use eos_vm.GuardedPtr.Buffers.{EnsuresIn, EnsuresIn-bind, EnsuresIn-after, Ensures→EnsuresIn}
use eos_vm.Leb128.Values.{parse_varuint32-Ensures}
use eos_vm.Options.{Options}
use eos_vm.Types.{NameSection, Module}
use eos_vm.Writer.{bitcode_writer}
use eos_vm.Parser.Entries.Bodies.{IsEntry, parse_function_body-EnsuresIn, read_elems-EnsuresIn}
use eos_vm.Parser.Names.Bounds.{parse_custom-Ensures}
use eos_vm.Parser.Sections.{parse_section_impl}
use eos_vm.Binary.{Parser, pure}
use eos_vm.Binary.Functions.{Entry}
use eos_vm.Binary.Sections.{custom_case, with_names, read_bodies, code_section}
use eos_vm.Binary.Ends.{
  Ends, Ends-bind, Ends-pure, Ends-lift, Ends-reads, Ends-reads_in, Finished, finished, failed,
}
use eos_vm.Binary.Fueled.{Run}
use eos_vm.Binary.Linked.{IsLinked, Rewritten, rewritten, write_code_out-Finished}
use eos_vm.Binary.WellFormed.{Inv, later, exports-Later, starts-Later, elements-Later}

module _ (options : Options) (bytes : List ℕ) where
  pub custom_case-Keeps :
      {highest : ℕ} {p : Parser}
      → Inv options highest p
      → Ends bytes (Inv options highest) (custom_case options p)
  unfolding custom_case
  custom_case-Keeps {highest} {p} i =
      Ends-bind (Ends-reads (parse_custom-Ensures options)) λ names _. go names
    where
      go :
          (names : Option NameSection)
          → Ends bytes (Inv options highest) (pure (with_names p names))
      go none = Ends-pure p i
      go (some names) =
          let w = i.formed in
          let f = i.fresh in
          Ends-pure _ (record {
            formed = record {
              types = w.types;
              imports = w.imports;
              functions = w.functions;
              tables = w.tables;
              memories = w.memories;
              exports = exports-Later _ later w.exports;
              names = w.names;
              start = starts-Later later w.start;
              elements = elements-Later options _ _ later w.elements;
              datas = w.datas;
              code = w.code;
              linked = w.linked;
            };
            fresh = ground arith;
          })

  -- The bodies of the code section lie in the buffer, one for each function of the module.
  read_bodies-EnsuresIn :
      (mod' : Module)
      → EnsuresIn bytes
          (λ es. All (IsEntry bytes) es × (length es ≡ length mod'.functions))
          (read_bodies options mod')
  unfolding read_bodies parse_section_impl
  read_bodies-EnsuresIn mod' =
      EnsuresIn-bind
        (EnsuresIn-after parse_varuint32-Ensures λ count _.
          EnsuresIn-after (Ensures-check _ tt) λ _ _.
            read_elems-EnsuresIn count 0 _ λ j. parse_function_body-EnsuresIn options bytes mod' j)
        λ es q.
          EnsuresIn-after (Ensures-check _ tt)
            λ _ h. Ensures→EnsuresIn (Ensures-pure es (q, (==_iff _ _).0 h))

  length-map : (es : List Entry) → length (map (λ e. e.0) es) ≡ length es
  length-map [] = refl
  length-map (e ∷ es) = ap suc (length-map es)

  Rewritten-Inv :
      {highest : ℕ} {p : Parser} (bodies : List Entry) {r : Run Parser}
      → Inv options highest p
      → Finished
          (Rewritten
            (record p { mod' = record p.mod' { code = map (λ e. e.0) bodies } })
            (0 + length bodies))
          r
      → Finished (Inv options 11) r
  Rewritten-Inv bodies i failed = failed
  Rewritten-Inv bodies i (finished (rewritten same size linked)) =
      let w = i.formed in
      let f = i.fresh in
      finished (record {
        formed = record {
          types = w.types;
          imports = w.imports;
          functions = w.functions;
          tables = w.tables;
          memories = w.memories;
          exports = exports-Later _ later w.exports;
          names = w.names;
          start = starts-Later later w.start;
          elements = elements-Later options _ _ later w.elements;
          datas = w.datas;
          code = omega (arith, size, same, length-map bodies);
          linked = linked;
        };
        fresh = ground arith;
      })

  pub code_section-Keeps :
      (fuel opcode_bytes : ℕ) {highest : ℕ} {p : Parser}
      → length bytes < fuel
      → Inv options highest p
      → highest < 11
      → Ends bytes (Inv options 11) (code_section fuel options opcode_bytes p)
  unfolding code_section
  code_section-Keeps fuel opcode_bytes {p = p} l i h =
      let none_yet = i.fresh.written h in
      Ends-bind (Ends-reads_in (read_bodies-EnsuresIn p.mod')) λ bodies (es, size).
        Ends-bind (Ends-reads get-Ensures) λ c _. Ends-lift (
          Rewritten-Inv bodies i (
            write_code_out-Finished fuel options opcode_bytes 0 0 bodies
              (bitcode_writer (bounds c - offset c)) bytes l es
              (rewritten refl (ap (length {0}) none_yet) (All-nil IsLinked none_yet))))
