-- ===== src/Parser/Segments/Bounds.antt =====
-- What accepted element and data segments guarantee.
use eos_vm.Prelude.{
  ℕ, ◌+◌, ◌-◌, ◌%◌, ◌^◌, ◌≤◌, ◌<◌, ◌≡◌, refl, List, Bool, not, ◌||◌, bit_and, length, All, some,
  get_elem?, leb, leb→le, ltb→lt, ◌==◌, arith, ◌⊎◌, inl, inr, Bool-cases,
}
use eos_vm.Prelude.Result.{wasm_parse_exception}
use eos_vm.GuardedPtr.Ensures.{
  Ensures, Ensures-bind, Ensures-pure, Ensures-throw, Ensures-assert, Ensures-check, Ensures-if,
  Ensures-weaken, next-Ensures, peek-Ensures, increment-Ensures, advance-Ensures,
  scoped_shrink_bounds-EnsuresWithin, Ensures→EnsuresWithin,
}
use eos_vm.Leb128.Values.{parse_varuint32-Ensures}
use eos_vm.Options.{Options}
use eos_vm.Types.{
  TableEntry, ElemMode, active, ElemSegment, DataSegment, InitExpr, Module, get_functions_total,
}
use eos_vm.Types.Ty
use eos_vm.Parser.Primitives.Bounds.{raw_bytes-EnsuresWithin}
use eos_vm.Parser.Entries.Bounds.{read_elems-Ensures, or_throw-Ensures, parse_init_expr-Ensures}
use eos_vm.Parser.Segments.{
  ref_null, ref_func, parse_elem_expr, parse_elem_index, parse_elem_kind, parse_elem_mode,
  parse_elem_segment, parse_data_mode, parse_data_segment,
}

-- An entry of a segment is the null entry, or names a function of the module with its type's alias.
unfoldable pub IsEntry : Module → List ℕ → TableEntry → Type 0
IsEntry mod' fast_functions te =
    ((te.index ≡ 2 ^ 32 - 1) × (te.type ≡ 2 ^ 32 - 1))
    ⊎ ((te.index < get_functions_total mod') × (get_elem? fast_functions te.index ≡ some te.type))

pub parse_elem_expr-Ensures :
    (mod' : Module) (fs : List ℕ) → Ensures (IsEntry mod' fs) (parse_elem_expr mod' fs)
unfolding parse_elem_expr IsEntry
parse_elem_expr-Ensures mod' fs = Ensures-bind next-Ensures λ opcode _.
    Ensures-bind {Q = IsEntry mod' fs}
      (Ensures-if (opcode == ref_null)
        (λ _. Ensures-bind peek-Ensures λ t _.
          Ensures-assert _ tt
            λ _. Ensures-bind increment-Ensures λ _ _. Ensures-pure _ (inl (refl, refl)))
        λ _.
          Ensures-if (opcode == ref_func)
            (λ _. Ensures-bind parse_varuint32-Ensures λ i _.
              Ensures-assert _ tt λ h.
                Ensures-bind (or_throw-Ensures _) λ t e. Ensures-pure _ (inr (ltb→lt _ _ h, e)))
            λ _. Ensures-throw _ tt)
      λ te q. Ensures-bind next-Ensures λ l _. Ensures-assert _ tt λ _. Ensures-pure te q

pub parse_elem_index-Ensures :
    (mod' : Module) (fs : List ℕ) → Ensures (IsEntry mod' fs) (parse_elem_index mod' fs)
unfolding parse_elem_index IsEntry
parse_elem_index-Ensures mod' fs = Ensures-bind parse_varuint32-Ensures λ i _.
    Ensures-bind (or_throw-Ensures _)
      λ t e. Ensures-assert _ tt λ h. Ensures-pure _ (inr (ltb→lt _ _ h, e))

parse_elem_kind-Ensures : (flags : ℕ) → Ensures (λ _. Unit {0}) (parse_elem_kind flags)
unfolding parse_elem_kind
parse_elem_kind-Ensures flags =
    Ensures-if (flags == 1 || (flags == 2 || flags == 3))
      (λ _. Ensures-bind next-Ensures λ k _. Ensures-weaken (Ensures-check _ tt) λ _ _. tt)
      λ _.
        Ensures-if (flags == 5 || (flags == 6 || flags == 7))
          (λ _. Ensures-bind next-Ensures λ k _. Ensures-weaken (Ensures-check _ tt) λ _ _. tt)
          λ _. Ensures-pure tt tt

ModeFits : Module → ℕ → InitExpr × ElemMode × Bool → Type 0
ModeFits mod' index (offset, mode, b) = mode ≡ active → index < length mod'.tables

parse_elem_mode-Ensures :
    (options : Options) (mod' : Module) (flags index : ℕ)
    → Ensures (ModeFits mod' index) (parse_elem_mode options mod' flags index)
unfolding parse_elem_mode ModeFits
parse_elem_mode-Ensures options mod' flags index =
    Ensures-if (bit_and flags 1 == 0)
      (λ _. Ensures-bind (parse_init_expr-Ensures options Ty.i32) λ o _.
        Ensures-assert _ tt
          λ h. Ensures-bind (or_throw-Ensures _) λ t _. Ensures-pure _ λ _. ltb→lt _ _ h)
      λ _. elim (Bool-cases (bit_and flags 2 == 0)) [
        | inl e ↦ rw e (Ensures-pure _ λ f. cc)
        | inr e ↦ rw e (Ensures-pure _ λ f. cc)
      ]

pub record IsSegment (options : Options) (mod' : Module) (fs : List ℕ) (es : ElemSegment)
    : Type 0 where
  pub size_le : length es.elems ≤ options.max_element_segment_elements
  pub entries : All (IsEntry mod' fs) es.elems
  pub table : es.mode ≡ active → es.index < length mod'.tables

-- An accepted element segment has at most the option's number of entries, each null or a function of
-- the module with its type's alias, and the table of an active segment exists.
pub parse_elem_segment-Ensures :
    (options : Options) (mod' : Module) (fs : List ℕ)
    → Ensures (IsSegment options mod' fs) (parse_elem_segment options mod' fs)
unfolding parse_elem_segment ModeFits
parse_elem_segment-Ensures options mod' fs = Ensures-bind parse_varuint32-Ensures λ flags _.
    Ensures-assert {b = 0 == 0 || options.enable_bulk_memory} wasm_parse_exception tt λ _.
      Ensures-assert {b = leb 0 7} wasm_parse_exception tt λ _.
        Ensures-bind {Q = λ _. Unit {0}}
          (Ensures-if (flags == 2 || flags == 6)
            (λ _. Ensures-weaken parse_varuint32-Ensures λ _ _. tt) λ _. Ensures-pure 0 tt)
          λ index _. Ensures-bind (parse_elem_mode-Ensures options mod' flags index) λ m p.
            Ensures-bind (parse_elem_kind-Ensures flags) λ _ _. Ensures-assert _ tt λ _.
              Ensures-bind parse_varuint32-Ensures λ size _. Ensures-assert _ tt λ h.
                Ensures-bind
                  (Ensures-if (bit_and flags 4 == 0)
                    (λ _. read_elems-Ensures size 0 _ λ _. parse_elem_index-Ensures mod' fs)
                    (λ _. read_elems-Ensures size 0 _ λ _. parse_elem_expr-Ensures mod' fs))
                  λ es q. Ensures-pure _ (record {
                    size_le =
                        omega (arith, q.size, leb→le size options.max_element_segment_elements h);
                    entries = q.all;
                    table = p;
                  })

parse_data_mode-Ensures :
    (options : Options) (mod' : Module) → Ensures (λ _. Unit {0}) (parse_data_mode options mod')
unfolding parse_data_mode
parse_data_mode-Ensures options mod' = Ensures-bind parse_varuint32-Ensures λ flag _.
    Ensures-if (flag == 0 || not options.enable_bulk_memory)
      (λ _.
        Ensures-bind (parse_init_expr-Ensures options Ty.i32)
          λ o _. Ensures-assert _ tt λ _. Ensures-pure _ tt)
      λ _.
        Ensures-if (flag == 1) (λ _. Ensures-pure _ tt)
          λ _.
            Ensures-if (flag == 2)
              (λ _. Ensures-bind parse_varuint32-Ensures λ i _.
                Ensures-bind (parse_init_expr-Ensures options Ty.i32)
                  λ o _. Ensures-assert _ tt λ _. Ensures-pure _ tt)
              λ _. Ensures-throw _ tt

pub record IsData (options : Options) (ds : DataSegment) : Type 0 where
  pub size_le : length ds.contents ≤ options.max_data_segment_bytes
  pub end_le : ds.offset.value % 2 ^ 32 + length ds.contents ≤ options.max_linear_memory_init
  pub are_bytes : All (λ b. b < 256) ds.contents

-- An accepted data segment keeps the option's limits on its size and on its end in the memory.
pub parse_data_segment-Ensures :
    (options : Options) (mod' : Module) → Ensures (IsData options) (parse_data_segment options mod')
unfolding parse_data_segment
parse_data_segment-Ensures options mod' = Ensures-bind (parse_data_mode-Ensures options mod') λ m _.
    Ensures-bind parse_varuint32-Ensures λ len _. Ensures-assert _ tt λ p. Ensures-assert _ tt λ q.
      scoped_shrink_bounds-EnsuresWithin len (
        raw_bytes-EnsuresWithin len _ λ bs h. Ensures→EnsuresWithin (
          Ensures-bind (advance-Ensures len) λ _ _. Ensures-pure _ (record {
            size_le = rw h.size (leb→le _ _ p);
            end_le = rw h.size (leb→le _ _ q);
            are_bytes = h.are_bytes;
          })))
