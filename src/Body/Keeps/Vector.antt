-- ===== src/Body/Keeps/Vector.antt =====
-- The instructions on vectors and the extensions keep what the others keep.
use eos_vm.Prelude.{ℕ, List, [], ◌∷◌, Option, none, some, ltb, Bool, true, false}
use eos_vm.GuardedPtr.{next}
use eos_vm.GuardedPtr.Ensures.{next-Ensures}
use eos_vm.Parser.Entries.Bounds.{read_elems-Ensures}
use eos_vm.Body.{Env, Body, Action, require}
use eos_vm.Body.Tables.{Place, find_place, find_row, vector_rows}
use eos_vm.Body.Vector.{
  lane_memory, vector_const, extract_lane, replace_lane, shuffle, vector_numeric, trunc_sat,
  data_segment_exists, memory_init, data_drop, memory_copy, memory_fill, table_init, elem_drop,
  table_copy, check_lanes, by_place, vector_op, vector_case, ext_op, ext_case,
}
use eos_vm.Body.Keeps.{Keeps, Triple-switch}
use eos_vm.Body.Keeps.Plain.{
  IsStable, keeps_rules, case_rules, Keeps-bind, Keeps-pure, Keeps-read, Keeps-require, Keeps-row,
  load_case-Keeps, store_case-Keeps,
}

pub by_place-Keeps :
    {P : Body → Type 0} (places : List Place) (op : ℕ) {found : ℕ → ℕ → Action (Unit {0})}
    {rest : Action (Unit {0})}
    → ((n type : ℕ) → Keeps P (found n type))
    → Keeps P rest
    → Keeps P (by_place places op found rest)
unfolding by_place
by_place-Keeps places op p q = Keeps-row (find_place places op) q p

pub check_lanes-Keeps : {P : Body → Type 0} (ls : List ℕ) → Keeps P (check_lanes ls)
unfolding check_lanes
check_lanes-Keeps [] = Keeps-pure tt
check_lanes-Keeps (l ∷ ls) = Keeps-bind (Keeps-require _) λ _. check_lanes-Keeps ls

module _ {P : Body → Type 0} (stable : IsStable P) where
  pub lane_memory-Keeps :
      (env : Env) (op : ℕ) (max_align : ℕ) (type : ℕ) (is_load : Bool)
      → Keeps P (lane_memory env op max_align type is_load)
  unfolding lane_memory
  lane_memory-Keeps env op max_align type is_load = search case_rules depth 20

  pub vector_const-Keeps : (env : Env) (op : ℕ) → Keeps P (vector_const env op)
  unfolding vector_const
  vector_const-Keeps env op = search case_rules depth 20

  pub extract_lane-Keeps :
      (env : Env) (op : ℕ) (lanes : ℕ) (type : ℕ) → Keeps P (extract_lane env op lanes type)
  unfolding extract_lane
  extract_lane-Keeps env op lanes type = search case_rules depth 20

  pub replace_lane-Keeps :
      (env : Env) (op : ℕ) (lanes : ℕ) (type : ℕ) → Keeps P (replace_lane env op lanes type)
  unfolding replace_lane
  replace_lane-Keeps env op lanes type = search case_rules depth 20

  pub shuffle-Keeps : (env : Env) (op : ℕ) → Keeps P (shuffle env op)
  unfolding shuffle
  shuffle-Keeps env op =
      search
        (
          case_rules,
          check_lanes-Keeps,
          Keeps-read (read_elems-Ensures 16 0 (λ i. next) (λ j. next-Ensures)),
        )
        depth 20

  pub vector_numeric-Keeps : (env : Env) (op : ℕ) → Keeps P (vector_numeric env op)
  unfolding vector_numeric
  vector_numeric-Keeps env op =
      Keeps-row (find_row vector_rows op) (Keeps-require false)
        λ ins out. search case_rules depth 20

  pub trunc_sat-Keeps :
      (env : Env) (op : ℕ) (dest : ℕ) (src : ℕ) → Keeps P (trunc_sat env op dest src)
  unfolding trunc_sat
  trunc_sat-Keeps env op dest src = search case_rules depth 20

  pub data_segment_exists-Keeps : (env : Env) (x : ℕ) → Keeps P (data_segment_exists env x)
  unfolding data_segment_exists
  data_segment_exists-Keeps env x = go env.datacount
    where
      go :
          (o : Option ℕ)
          → Keeps P (elim o [ none ↦ require false | some count ↦ require (ltb x count) ])
      go none = Keeps-require _
      go (some count) = Keeps-require _

  pub memory_init-Keeps : (env : Env) → Keeps P (memory_init env)
  unfolding memory_init
  memory_init-Keeps env = search (case_rules, data_segment_exists-Keeps) depth 20

  pub data_drop-Keeps : (env : Env) → Keeps P (data_drop env)
  unfolding data_drop
  data_drop-Keeps env = search (case_rules, data_segment_exists-Keeps) depth 20

  pub memory_copy-Keeps : (env : Env) → Keeps P (memory_copy env)
  unfolding memory_copy
  memory_copy-Keeps env = search case_rules depth 20

  pub memory_fill-Keeps : (env : Env) → Keeps P (memory_fill env)
  unfolding memory_fill
  memory_fill-Keeps env = search case_rules depth 20

  pub table_init-Keeps : (env : Env) → Keeps P (table_init env)
  unfolding table_init
  table_init-Keeps env = search case_rules depth 20

  pub elem_drop-Keeps : (env : Env) → Keeps P (elem_drop env)
  unfolding elem_drop
  elem_drop-Keeps env = search case_rules depth 20

  pub table_copy-Keeps : (env : Env) → Keeps P (table_copy env)
  unfolding table_copy
  table_copy-Keeps env = search case_rules depth 20

  pub vector_op-Keeps : (env : Env) (op : ℕ) → Keeps P (vector_op env op)
  unfolding vector_op
  vector_op-Keeps env op =
      by_place-Keeps _ op (load_case-Keeps stable env λ is. stable.emit_keeps _ _) (
        by_place-Keeps _ op (store_case-Keeps stable env λ is. stable.emit_keeps _ _) (
          by_place-Keeps _ op (λ n t. lane_memory-Keeps env op n t true)
            (by_place-Keeps _ op (λ n t. lane_memory-Keeps env op n t false)
              (by_place-Keeps _ op (extract_lane-Keeps env op) (
                by_place-Keeps _ op (replace_lane-Keeps env op) (
                  Triple-switch op _ (vector_const-Keeps env op, (shuffle-Keeps env op, tt))
                    (vector_numeric-Keeps env op)))))))

  pub vector_case-Keeps : (env : Env) → Keeps P (vector_case env)
  unfolding vector_case
  vector_case-Keeps env = search (keeps_rules, vector_op-Keeps) depth 20

  pub ext_op-Keeps : (env : Env) (op : ℕ) → Keeps P (ext_op env op)
  unfolding ext_op
  ext_op-Keeps env op =
      let sat = trunc_sat-Keeps env op in
      Triple-switch op _
        (
          sat _ _,
          (
            sat _ _,
            (
              sat _ _,
              (
                sat _ _,
                (
                  sat _ _,
                  (
                    sat _ _,
                    (
                      sat _ _,
                      (
                        sat _ _,
                        (
                          memory_init-Keeps env,
                          (
                            data_drop-Keeps env,
                            (
                              memory_copy-Keeps env,
                              (
                                memory_fill-Keeps env,
                                (
                                  table_init-Keeps env,
                                  (elem_drop-Keeps env, (table_copy-Keeps env, tt)),
                                ),
                              ),
                            ),
                          ),
                        ),
                      ),
                    ),
                  ),
                ),
              ),
            ),
          ),
        )
        (Keeps-require false)

  pub ext_case-Keeps : (env : Env) → Keeps P (ext_case env)
  unfolding ext_case
  ext_case-Keeps env = search (keeps_rules, ext_op-Keeps) depth 20
