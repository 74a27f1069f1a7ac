-- ===== src/Binary/Contents.antt =====
-- The cases of parse_module from the exports on keep its invariant: they leave the members that the
-- sections before them were checked against.
use eos_vm.Prelude.{All-nil, ℕ, ◌<◌, inl, inr, List, arith}
use eos_vm.Options.{Options}
use eos_vm.Parser.Tables.Exports.{validate_exports_iff}
use eos_vm.Parser.Sections.Bounds.{
  export_section-Ensures, start_section-Ensures, element_section-Ensures, data_section-Ensures,
  data_count_section-Ensures,
}
use eos_vm.Binary.{Parser}
use eos_vm.Binary.Sections.{export_case, start_case, element_case, data_case, data_count_case}
use eos_vm.Binary.Ends.{Ends, Ends-bind, Ends-pure, Ends-lift, Ends-reads, Finished-some}
use eos_vm.Binary.WellFormed.{Inv, later, exports-Later, start-Later, starts-Later, elements-Later}

module _ (options : Options) where
  pub export_case-Keeps :
      (bytes : List ℕ) {highest : ℕ} {p : Parser}
      → Inv options highest p
      → highest < 7
      → Ends bytes (Inv options 7) (export_case options p)
  unfolding export_case
  export_case-Keeps bytes {p = p} i h =
      let w = i.formed in
      let f = i.fresh in
      Ends-bind (Ends-reads (export_section-Ensures options p.mod')) λ exports q.
        Ends-bind (Ends-lift (Finished-some _)) λ _ e. Ends-pure _ (record {
          formed = record {
            types = w.types;
            imports = w.imports;
            functions = w.functions;
            tables = w.tables;
            memories = w.memories;
            exports = exports-Later _ later q.all;
            names = (validate_exports_iff exports).0.0 e;
            start = inl (f.start (omega arith));
            elements = All-nil _ (f.elements (omega arith));
            datas = w.datas;
            code = w.code;
            linked = w.linked;
          };
          fresh = ground arith;
        })

  pub start_case-Keeps :
      (bytes : List ℕ) {highest : ℕ} {p : Parser}
      → Inv options highest p
      → highest < 8
      → Ends bytes (Inv options 8) (start_case p)
  unfolding start_case
  start_case-Keeps bytes {p = p} i h =
      let w = i.formed in
      let f = i.fresh in
      Ends-bind (Ends-reads (start_section-Ensures p.mod' w.imports)) λ start q.
        Ends-pure _ (record {
          formed = record {
            types = w.types;
            imports = w.imports;
            functions = w.functions;
            tables = w.tables;
            memories = w.memories;
            exports = exports-Later _ later w.exports;
            names = w.names;
            start = inr (start-Later later q);
            elements = All-nil _ (f.elements (omega arith));
            datas = w.datas;
            code = w.code;
            linked = w.linked;
          };
          fresh = ground arith;
        })

  pub element_case-Keeps :
      (bytes : List ℕ) {highest : ℕ} {p : Parser}
      → Inv options highest p
      → highest < 9
      → Ends bytes (Inv options 9) (element_case options p)
  unfolding element_case
  element_case-Keeps bytes {p = p} i h =
      let w = i.formed in
      let f = i.fresh in
      Ends-bind (Ends-reads (element_section-Ensures options p.mod' p.fast_functions)) λ elements q.
        Ends-pure _ (record {
          formed = record {
            types = w.types;
            imports = w.imports;
            functions = w.functions;
            tables = w.tables;
            memories = w.memories;
            exports = exports-Later _ later w.exports;
            names = w.names;
            start = starts-Later later w.start;
            elements = elements-Later options _ _ later q.all;
            datas = w.datas;
            code = w.code;
            linked = w.linked;
          };
          fresh = ground arith;
        })

  pub data_count_case-Keeps :
      (bytes : List ℕ) {highest : ℕ} {p : Parser}
      → Inv options highest p
      → highest < 10
      → Ends bytes (Inv options 10) (data_count_case p)
  unfolding data_count_case
  data_count_case-Keeps bytes {p = p} i h =
      let w = i.formed in
      let f = i.fresh in
      Ends-bind (Ends-reads data_count_section-Ensures) λ count _. Ends-pure _ (record {
        formed = record {
          types = w.types;
          imports = w.imports;
          functions = w.functions;
          tables = w.tables;
          memories = w.memories;
          exports = exports-Later _ later w.exports;
          names = w.names;
          start = starts-Later later w.start;
          elements = elements-Later options _ _ later w.elements;
          datas = w.datas;
          code = w.code;
          linked = w.linked;
        };
        fresh = ground arith;
      })

  pub data_case-Keeps :
      (bytes : List ℕ) {highest : ℕ} {p : Parser}
      → Inv options highest p
      → highest < 12
      → Ends bytes (Inv options 12) (data_case options p)
  unfolding data_case
  data_case-Keeps bytes {p = p} i h =
      let w = i.formed in
      let f = i.fresh in
      Ends-bind (Ends-reads (data_section-Ensures options p.mod' p.datacount)) λ datas q.
        Ends-pure _ (record {
          formed = record {
            types = w.types;
            imports = w.imports;
            functions = w.functions;
            tables = w.tables;
            memories = w.memories;
            exports = exports-Later _ later w.exports;
            names = w.names;
            start = starts-Later later w.start;
            elements = elements-Later options _ _ later w.elements;
            datas = q.all;
            code = w.code;
            linked = w.linked;
          };
          fresh = ground arith;
        })
