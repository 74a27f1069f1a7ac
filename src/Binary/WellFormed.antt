-- ===== src/Binary/WellFormed.antt =====
-- The invariant of parse_module: what the sections that were read satisfy, and that the sections whose
-- place is still to come have left no trace.
use eos_vm.Prelude.{ℕ, ◌^◌, ◌-◌, ◌<◌, ◌≡◌, ◌⊎◌, inl, inr, Option, List, [], ◌∷◌, All, length, map}
use eos_vm.Options.{Options}
use eos_vm.Types.{
  ExportEntry, ElemSegment, FunctionBody, DataSegment, NameSection, Module, get_function_type,
}
use eos_vm.Parser.Entries.Bounds.{IsFuncType, IsTable, IsMemory, IndexInRange}
use eos_vm.Parser.Segments.Bounds.{IsEntry, IsSegment, IsData}
use eos_vm.Parser.Sections.Bounds.{IsSection, IsStart, ImportsFit}
use eos_vm.Parser.Tables.Exports.{Distinct}
use eos_vm.Binary.{Parser}
use eos_vm.Binary.Linked.{IsLinked}

-- The members of the module fit together.
pub record IsWellFormed (options : Options) (p : Parser) : Type 0 where
  pub types : All (IsFuncType options) p.mod'.types
  pub imports : ImportsFit p.mod'
  pub functions : All (λ t. t < length p.mod'.types) p.mod'.functions
  pub tables : IsSection 1 (IsTable options) p.mod'.tables
  pub memories : IsSection 1 (IsMemory options) p.mod'.memories
  pub exports : All (IndexInRange p.mod') p.mod'.exports
  pub names : Distinct (map (λ e. e.field_str) p.mod'.exports)
  pub start : (p.mod'.start ≡ 2 ^ 32 - 1) ⊎ IsStart p.mod' p.mod'.start
  pub elements : All (IsSegment options p.mod' p.fast_functions) p.mod'.elements
  pub datas : All (IsData options) p.mod'.datas
  pub code : length p.functions ≡ length p.mod'.code
  pub linked : All IsLinked p.functions

-- The members whose section has a place above the highest one are as the module was made.
pub record IsFresh (highest : ℕ) (p : Parser) : Type 0 where
  pub imports : highest < 2 → p.mod'.imports ≡ []
  pub functions : highest < 3 → p.mod'.functions ≡ []
  pub exports : highest < 7 → p.mod'.exports ≡ []
  pub start : highest < 8 → p.mod'.start ≡ 2 ^ 32 - 1
  pub elements : highest < 9 → p.mod'.elements ≡ []
  pub written : highest < 11 → p.functions ≡ []

-- A module with other members behind the globals.
pub data Later (mod' : Module) : Module → Type 0 where
  later :
      {start : ℕ} {exports : List ExportEntry} {elements : List ElemSegment}
      {code : List FunctionBody} {datas : List DataSegment} {names : Option NameSection}
      {maximum_stack : ℕ}
      → Later mod' (record mod' {
        start = start;
        exports = exports;
        elements = elements;
        code = code;
        datas = datas;
        names = names;
        maximum_stack = maximum_stack;
      })

All-weaken :
    {A : Type 0} {P Q : A → Type 0} (xs : List A) → ((a : A) → P a → Q a) → All P xs → All Q xs
All-weaken [] f h = tt
All-weaken (x ∷ xs) f h = (f x h.0, All-weaken xs f h.1)

-- What is checked against the members up to the globals holds whatever the later ones are.
pub exports-Later :
    {mod' mod'' : Module} (es : List ExportEntry)
    → Later mod' mod''
    → All (IndexInRange mod') es
    → All (IndexInRange mod'') es
unfolding IndexInRange
exports-Later es later h = h

pub start-Later :
    {mod' mod'' : Module} {i : ℕ} → Later mod' mod'' → IsStart mod' i → IsStart mod'' i
unfolding get_function_type
start-Later later s = record {
  ft = s.ft;
  known = s.known;
  no_result = s.no_result;
  no_parameter = s.no_parameter;
}

pub starts-Later :
    {mod' mod'' : Module} {i n : ℕ}
    → Later mod' mod''
    → (i ≡ n) ⊎ IsStart mod' i
    → (i ≡ n) ⊎ IsStart mod'' i
starts-Later l (inl e) = inl e
starts-Later l (inr s) = inr (start-Later l s)

pub elements-Later :
    {mod' mod'' : Module} (options : Options) (fs : List ℕ) (es : List ElemSegment)
    → Later mod' mod''
    → All (IsSegment options mod' fs) es
    → All (IsSegment options mod'' fs) es
unfolding IsEntry
elements-Later options fs es later h =
    All-weaken es (λ e s. record { size_le = s.size_le; entries = s.entries; table = s.table }) h

pub record Inv (options : Options) (highest : ℕ) (p : Parser) : Type 0 where
  pub formed : IsWellFormed options p
  pub fresh : IsFresh highest p
