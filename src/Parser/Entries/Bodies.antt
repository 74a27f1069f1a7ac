-- ===== src/Parser/Entries/Bodies.antt =====
-- The entries of the code section: the pointers that are kept for the second pass lie in the buffer.
use eos_vm.Prelude.{
  ℕ, zero, suc, ◌+◌, ◌≤◌, ap, List, [], ◌∷◌, true, length, All, Bool, false, if◌then◌else◌, arith,
}
use eos_vm.Prelude.Result.{ok}
use eos_vm.GuardedPtr.{GuardedPtr, Read, IsValid, lift}
use eos_vm.GuardedPtr.Ensures.{
  Ensures, Ensures-bind, Ensures-pure, Ensures-assert, Ensures-check, Ensures-if, Ensures-lift,
  Ensures-weaken, scoped_shrink_bounds-Outcome, Outcome-get, next-Ensures, peek-Ensures,
  get-Ensures, advance-Ensures, increment-Ensures,
}
use eos_vm.GuardedPtr.Buffers.{EnsuresIn, EnsuresIn-bind, EnsuresIn-after, Ensures→EnsuresIn}
use eos_vm.Leb128.Values.{parse_varuint32-Ensures, parse_varuint1-Ensures}
use eos_vm.Options.{Options}
use eos_vm.Types.{FunctionBody, LocalEntry, Module}
use eos_vm.Parser.Limits.{
  local_checker-IsException, on_local-IsException, on_mutable_global, on_mutable_global-IsException,
}
use eos_vm.Parser.Entries.{
  read_elems, parse_global_variable, parse_locals, body_pointer, parse_function_body,
}
use eos_vm.Parser.Entries.Bounds.{or_throw-Ensures, parse_init_expr-Ensures}

parse_locals-Ensures :
    (options : Options) (local_cnt total : ℕ)
    → Ensures (λ _. Unit {0}) (parse_locals options local_cnt total)
unfolding parse_locals
parse_locals-Ensures options zero total = Ensures-pure _ tt
parse_locals-Ensures options (suc local_cnt) total = Ensures-bind parse_varuint32-Ensures λ count _.
    Ensures-bind next-Ensures λ byte _. Ensures-assert _ tt λ _.
      Ensures-bind
        (Ensures-lift {Q = λ _. Unit {0}} _ (λ _ _. tt)
          (on_local-IsException options total _ count))
        λ total' _.
          Ensures-bind (parse_locals-Ensures options local_cnt total') λ ls _. Ensures-pure _ tt

-- An entry of the code section whose body lies in a buffer.
pub record IsEntry (bytes : List ℕ) (e : FunctionBody × GuardedPtr × ℕ) : Type 0 where
  pub valid : IsValid e.1
  pub size_le : e.0.size ≤ length bytes

-- The pointer that parse_function_body keeps.
body_pointer-EnsuresIn :
    (options : Options) (bytes : List ℕ) (size : ℕ) (locals : List LocalEntry) (total : ℕ)
    → EnsuresIn bytes (IsEntry bytes) (body_pointer options size locals total)
unfolding body_pointer
body_pointer-EnsuresIn options bytes size locals total = record {
  run = λ c v e. scoped_shrink_bounds-Outcome _ size c v λ w. Outcome-get _ _ (
      (Ensures-bind (advance-Ensures _) λ _ _.
          Ensures-bind {Q = λ _. Unit {0}}
            (Ensures-if options.allow_code_after_function_end (λ _. Ensures-pure _ tt)
              λ _. Ensures-weaken peek-Ensures λ _ _. tt)
            λ last _. Ensures-assert _ tt λ _. Ensures-bind increment-Ensures λ _ _.
              Ensures-pure _ (record {
                valid = record {
                  orig_le = omega arith;
                  raw_le = omega arith;
                  bnds_le = w.bnds_le;
                  bytes_fit = w.bytes_fit;
                };
                size_le = omega (arith, w.bnds_le, ap (length {0}) e);
              })).run
        _ w);
}

-- The entry of a function is inside its buffer.
pub parse_function_body-EnsuresIn :
    (options : Options) (bytes : List ℕ) (mod' : Module) (idx : ℕ)
    → EnsuresIn bytes (IsEntry bytes) (parse_function_body options mod' idx)
unfolding parse_function_body
parse_function_body-EnsuresIn options bytes mod' idx =
    EnsuresIn-after parse_varuint32-Ensures λ size _. EnsuresIn-after (Ensures-check _ tt) λ _ _.
      EnsuresIn-after get-Ensures λ before _. EnsuresIn-after parse_varuint32-Ensures λ local_cnt _.
        EnsuresIn-after (Ensures-check _ tt) λ _ _. EnsuresIn-after (or_throw-Ensures _) λ t _.
          EnsuresIn-after (or_throw-Ensures _) λ ft _.
            EnsuresIn-after
              (Ensures-lift {Q = λ _. Unit {0}} _ (λ _ _. tt)
                (local_checker-IsException options ft))
              λ total _. EnsuresIn-after (parse_locals-Ensures options local_cnt total) λ ls _.
                EnsuresIn-after get-Ensures
                  λ after _. body_pointer-EnsuresIn options bytes _ ls.0 ls.1

pub parse_global_variable-Ensures :
    (options : Options) (counter : ℕ)
    → Ensures (λ _. Unit {0}) (parse_global_variable options counter)
unfolding parse_global_variable
parse_global_variable-Ensures options counter = Ensures-bind next-Ensures λ ct _.
    Ensures-assert _ tt λ _. Ensures-bind parse_varuint1-Ensures λ mutability _.
      Ensures-bind {Q = λ _. Unit {0}} (counted mutability ct)
        λ c _. Ensures-bind (parse_init_expr-Ensures options ct) λ i _. Ensures-pure _ tt
  where
    counted :
        (b : Bool) (ct : ℕ)
        → Ensures
            (λ _. Unit {0})
            (lift (if b then on_mutable_global options counter ct else ok counter))
    counted true ct = Ensures-lift _ (λ _ _. tt) (on_mutable_global-IsException options counter ct)
    counted false ct = Ensures-lift _ (λ _ _. tt) λ e h. cc

-- A vector of entries that are inside a buffer.
pub read_elems-EnsuresIn :
    {A : Type 0} {bytes : List ℕ} {Q : A → Type 0} (n i : ℕ) (elem_parse : ℕ → Read A)
    → ((j : ℕ) → EnsuresIn bytes Q (elem_parse j))
    → EnsuresIn bytes (All Q) (read_elems n i elem_parse)
unfolding read_elems
read_elems-EnsuresIn zero i f h = Ensures→EnsuresIn (Ensures-pure [] tt)
read_elems-EnsuresIn (suc n) i f h = EnsuresIn-bind (h i) λ e q.
    EnsuresIn-bind (read_elems-EnsuresIn n (i + 1) f h)
      λ es r. Ensures→EnsuresIn (Ensures-pure (e ∷ es) (q, r))
