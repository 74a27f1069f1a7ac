-- ===== src/Parser/Names/Bounds.antt =====
-- The custom sections stay inside their bounds, and fail by an exception only.
use eos_vm.Prelude.{ℕ, ◌-◌, ◌^◌, ◌&&◌, ◌==◌}
use eos_vm.GuardedPtr.{Read}
use eos_vm.GuardedPtr.Ensures.{
  Ensures, Ensures-bind, Ensures-pure, Ensures-throw, Ensures-if, Ensures-weaken, get-Ensures,
  peek-Ensures, increment-Ensures, advance-Ensures, scoped_consume_items-Ensures,
}
use eos_vm.Leb128.Values.{parse_varuint32-Ensures}
use eos_vm.Options.{Options}
use eos_vm.Types.{bytes_equal}
use eos_vm.Parser.Primitives.Bounds.{parse_utf8_string-Ensures}
use eos_vm.Parser.Entries.Bounds.{read_elems-Ensures}
use eos_vm.Parser.Names.{
  parse_name, parse_name_assoc, parse_name_map, parse_local_names, parse_indirect_name_map,
  at_bounds, subsection, unless_at_bounds, parse_name_section, parse_custom, name_bytes,
}

-- A read that is inside its bounds, whatever it returns.
abbrev Safe : {A : Type 0} → Read A → Type 0
Safe m = Ensures (λ _. Unit {0}) m

parse_name-Ensures : Safe parse_name
parse_name-Ensures = Ensures-weaken (parse_utf8_string-Ensures (2 ^ 32 - 1)) λ _ _. tt

parse_name_map-Ensures : Safe parse_name_map
unfolding parse_name_map parse_name_assoc
parse_name_map-Ensures = Ensures-bind parse_varuint32-Ensures λ size _.
    Ensures-weaken
      (read_elems-Ensures {Q = λ _. Unit {0}} size 0 _ λ i.
        Ensures-bind parse_varuint32-Ensures
          λ idx _. Ensures-bind parse_name-Ensures λ name _. Ensures-pure _ tt)
      λ _ _. tt

parse_indirect_name_map-Ensures : Safe parse_indirect_name_map
unfolding parse_indirect_name_map parse_local_names
parse_indirect_name_map-Ensures = Ensures-bind parse_varuint32-Ensures λ size _.
    Ensures-weaken
      (read_elems-Ensures {Q = λ _. Unit {0}} size 0 _ λ i.
        Ensures-bind parse_varuint32-Ensures
          λ idx _. Ensures-bind parse_name_map-Ensures λ names _. Ensures-pure _ tt)
      λ _ _. tt

subsection-Ensures : {A : Type 0} {body : Read A} (id : ℕ) → Safe body → Safe (subsection id body)
unfolding subsection
subsection-Ensures id p = Ensures-bind peek-Ensures λ next_id _.
    Ensures-if (next_id == id)
      (λ _. Ensures-bind increment-Ensures λ _ _.
        Ensures-bind parse_varuint32-Ensures
          λ len _. Ensures-bind (scoped_consume_items-Ensures len p) λ a _. Ensures-pure _ tt)
      λ _. Ensures-pure _ tt

unless_at_bounds-Ensures : {A : Type 0} {m : Read A} (a : A) → Safe m → Safe (unless_at_bounds a m)
unfolding unless_at_bounds at_bounds
unless_at_bounds-Ensures a p =
    Ensures-bind {Q = λ _. Unit {0}} (Ensures-bind get-Ensures λ c _. Ensures-pure _ tt)
      λ done _. Ensures-if done (λ _. Ensures-pure a tt) λ _. p

parse_name_section-Ensures : Safe parse_name_section
unfolding parse_name_section
parse_name_section-Ensures = unless_at_bounds-Ensures _ (
    Ensures-bind (subsection-Ensures 0 parse_name-Ensures) λ module_name _.
      unless_at_bounds-Ensures _ (
        Ensures-bind (subsection-Ensures 1 parse_name_map-Ensures) λ function_names _.
          unless_at_bounds-Ensures _ (
            Ensures-bind (subsection-Ensures 2 parse_indirect_name_map-Ensures)
              λ local_names _. unless_at_bounds-Ensures _ (Ensures-throw _ tt))))

-- From a valid pointer a custom section is read inside its bounds, or throws an exception.
pub parse_custom-Ensures : (options : Options) → Ensures (λ _. Unit {0}) (parse_custom options)
unfolding parse_custom
parse_custom-Ensures options = Ensures-bind parse_name-Ensures λ name _.
    Ensures-if (options.parse_custom_section_name && bytes_equal name name_bytes)
      (λ _. Ensures-bind parse_name_section-Ensures λ names _. Ensures-pure _ tt)
      λ _. Ensures-bind get-Ensures λ c _. Ensures-bind (advance-Ensures _) λ _ _. Ensures-pure _ tt
