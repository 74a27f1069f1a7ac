-- ===== src/Binary/Declarations.antt =====
-- The cases of parse_module up to the globals keep its invariant: what was checked against the members
-- that change is still empty.
use eos_vm.Prelude.{All-nil, ℕ, ◌<◌, inl, List, arith}
use eos_vm.Options.{Options}
use eos_vm.Parser.Tables.Aliases.{normalize_types-All}
use eos_vm.Parser.Sections.Bounds.{
  type_section-Ensures, import_section-Ensures, function_section-Ensures, table_section-Ensures,
  memory_section-Ensures, global_section-Ensures,
}
use eos_vm.Binary.{Parser}
use eos_vm.Binary.Sections.{
  type_case, import_case, function_case, table_case, memory_case, global_case,
}
use eos_vm.Binary.Ends.{Ends, Ends-bind, Ends-pure, Ends-lift, Ends-reads, Finished-some}
use eos_vm.Binary.WellFormed.{Inv}

module _ (options : Options) where
  pub type_case-Keeps :
      (bytes : List ℕ) {highest : ℕ} {p : Parser}
      → Inv options highest p
      → highest < 1
      → Ends bytes (Inv options 1) (type_case options p)
  unfolding type_case
  type_case-Keeps bytes {p = p} i h =
      let w = i.formed in
      let f = i.fresh in
      Ends-bind (Ends-reads (type_section-Ensures options)) λ types q. Ends-pure _ (record {
        formed = record {
          types = q.all;
          imports = All-nil _ (f.imports (omega arith));
          functions = All-nil _ (f.functions (omega arith));
          tables = w.tables;
          memories = w.memories;
          exports = All-nil _ (f.exports (omega arith));
          names = w.names;
          start = inl (f.start (omega arith));
          elements = All-nil _ (f.elements (omega arith));
          datas = w.datas;
          code = w.code;
          linked = w.linked;
        };
        fresh = ground arith;
      })

  pub import_case-Keeps :
      (bytes : List ℕ) {highest : ℕ} {p : Parser}
      → Inv options highest p
      → highest < 2
      → Ends bytes (Inv options 2) (import_case options p)
  unfolding import_case
  import_case-Keeps bytes {p = p} i h =
      let w = i.formed in
      let f = i.fresh in
      Ends-bind (Ends-reads (import_section-Ensures options p.mod')) λ imports q.
        Ends-pure _ (record {
          formed = record {
            types = w.types;
            imports = q.all;
            functions = All-nil _ (f.functions (omega arith));
            tables = w.tables;
            memories = w.memories;
            exports = All-nil _ (f.exports (omega arith));
            names = w.names;
            start = inl (f.start (omega arith));
            elements = All-nil _ (f.elements (omega arith));
            datas = w.datas;
            code = w.code;
            linked = w.linked;
          };
          fresh = ground arith;
        })

  pub function_case-Keeps :
      (bytes : List ℕ) {highest : ℕ} {p : Parser}
      → Inv options highest p
      → highest < 3
      → Ends bytes (Inv options 3) (function_case options p)
  unfolding function_case
  function_case-Keeps bytes {p = p} i h =
      let w = i.formed in
      let f = i.fresh in
      Ends-bind (Ends-reads (function_section-Ensures options)) λ functions _.
        Ends-bind (Ends-lift (Finished-some _)) λ fast e. Ends-pure _ (record {
          formed = record {
            types = w.types;
            imports = w.imports;
            functions = normalize_types-All (record p.mod' { functions = functions }) fast e;
            tables = w.tables;
            memories = w.memories;
            exports = All-nil _ (f.exports (omega arith));
            names = w.names;
            start = inl (f.start (omega arith));
            elements = All-nil _ (f.elements (omega arith));
            datas = w.datas;
            code = w.code;
            linked = w.linked;
          };
          fresh = ground arith;
        })

  pub table_case-Keeps :
      (bytes : List ℕ) {highest : ℕ} {p : Parser}
      → Inv options highest p
      → highest < 4
      → Ends bytes (Inv options 4) (table_case options p)
  unfolding table_case
  table_case-Keeps bytes {p = p} i h =
      let w = i.formed in
      let f = i.fresh in
      Ends-bind (Ends-reads (table_section-Ensures options)) λ tables q. Ends-pure _ (record {
        formed = record {
          types = w.types;
          imports = w.imports;
          functions = w.functions;
          tables = q;
          memories = w.memories;
          exports = All-nil _ (f.exports (omega arith));
          names = w.names;
          start = inl (f.start (omega arith));
          elements = All-nil _ (f.elements (omega arith));
          datas = w.datas;
          code = w.code;
          linked = w.linked;
        };
        fresh = ground arith;
      })

  pub memory_case-Keeps :
      (bytes : List ℕ) {highest : ℕ} {p : Parser}
      → Inv options highest p
      → highest < 5
      → Ends bytes (Inv options 5) (memory_case options p)
  unfolding memory_case
  memory_case-Keeps bytes {p = p} i h =
      let w = i.formed in
      let f = i.fresh in
      Ends-bind (Ends-reads (memory_section-Ensures options)) λ memories q. Ends-pure _ (record {
        formed = record {
          types = w.types;
          imports = w.imports;
          functions = w.functions;
          tables = w.tables;
          memories = q;
          exports = All-nil _ (f.exports (omega arith));
          names = w.names;
          start = inl (f.start (omega arith));
          elements = All-nil _ (f.elements (omega arith));
          datas = w.datas;
          code = w.code;
          linked = w.linked;
        };
        fresh = ground arith;
      })

  pub global_case-Keeps :
      (bytes : List ℕ) {highest : ℕ} {p : Parser}
      → Inv options highest p
      → highest < 6
      → Ends bytes (Inv options 6) (global_case options p)
  unfolding global_case
  global_case-Keeps bytes {p = p} i h =
      let w = i.formed in
      let f = i.fresh in
      Ends-bind (Ends-reads (global_section-Ensures options p.globals)) λ globals _.
        Ends-pure _ (record {
          formed = record {
            types = w.types;
            imports = w.imports;
            functions = w.functions;
            tables = w.tables;
            memories = w.memories;
            exports = All-nil _ (f.exports (omega arith));
            names = w.names;
            start = inl (f.start (omega arith));
            elements = All-nil _ (f.elements (omega arith));
            datas = w.datas;
            code = w.code;
            linked = w.linked;
          };
          fresh = ground arith;
        })
