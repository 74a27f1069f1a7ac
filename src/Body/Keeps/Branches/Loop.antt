-- ===== src/Body/Keeps/Branches/Loop.antt =====
-- Every instruction keeps the record of branches, so the loop ends with none that has no target.
use eos_vm.Prelude.{
  ℕ, zero, suc, ◌+◌, ◌*◌, ◌%◌, ◌^◌, ◌≤◌, ◌≡◌, refl, [], ◌∷◌, ◌++◌, Bool, true, false, length,
  length-append, replicate, ltb, leb, arith,
}
use mathlib.Core.Path.{subst}
use eos_vm.Prelude.Result.{
  >>=-eq-ok, ok-inj, eos_vm_assert, wasm_vector_oob_exception, wasm_parse_exception,
}
use eos_vm.GuardedPtr.Ensures.{next-Ensures}
use eos_vm.Leb128.Values.{parse_varuint32-Ensures}
use eos_vm.Types.Ty
use eos_vm.Writer.{
  Writer, op_index, append_instr, emit_if, emit_br_table, br_table_op, br_table_data, table_places,
  emit_case, emit_default,
}
use eos_vm.Body.{
  Env, label, branches, Body, Action, on_writer, writes, branch_target, compute_depth_change,
}
use eos_vm.Body.Control.{
  unreachable, end_case, block, loop, if_case, br, br_if, return_case, table_case, table_cases,
  br_table,
}
use eos_vm.Body.Tables.{loads, stores}
use eos_vm.Body.Code.{cases, instruction}
use eos_vm.Body.Keeps.{
  Triple, Keeps, Triple-bind, Triple-get, Triple-on_writer, Triple-writes, Triple-switch,
  Triple-post,
}
use eos_vm.Body.Keeps.Plain.{
  IsStable, keeps_rules, on_control-Keeps, on_end-Keeps, block_type-Keeps, Keeps-bind, Keeps-pure,
  Keeps-read, Keeps-require, Keeps-get, check_in_bounds-Keeps, call-Keeps, call_indirect-Keeps,
  drop_case-Keeps, select_case-Keeps, get_local-Keeps, set_local-Keeps, tee_local-Keeps,
  get_global-Keeps, set_global-Keeps, current_memory-Keeps, grow_memory-Keeps, i32_const-Keeps,
  i64_const-Keeps, f32_const-Keeps, f64_const-Keeps, extend_case-Keeps, load_case-Keeps,
  store_case-Keeps, numeric-Keeps,
}
use eos_vm.Body.Keeps.Vector.{by_place-Keeps, vector_case-Keeps, ext_case-Keeps}
use eos_vm.Body.Keeps.Branches.{CellsKnown-longer, LabelsBelow-mono, Recorded}
use eos_vm.Body.Keeps.Branches.Control.{
  append_branch-Recorded, append-Recorded, Recorded-IsStable, branch_target-Triple,
  handle_branch_target-Triple, emit_br-Triple, emit_br_if-Triple, emit_case-Triple,
  emit_case-Recorded,
}
use eos_vm.Body.Keeps.Branches.Scopes.{
  open_block-Triple, exit_scope-Keeps, else_case-Keeps, le_refl,
}

abbrev P : Body → Type 0
P = Recorded []

stable : IsStable P
stable = Recorded-IsStable []

branch_target-Keeps : (l : ℕ) → Keeps P (branch_target l)
branch_target-Keeps l = Triple-post (branch_target-Triple l) λ p s i. i.0

compute_depth_change-Keeps : (env : Env) (l : ℕ) → Keeps P (compute_depth_change env l)
unfolding compute_depth_change
compute_depth_change-Keeps env l =
    search (keeps_rules, branch_target-Keeps, stable.stack_keeps) depth 20

unreachable-Keeps : (env : Env) → Keeps P (unreachable env)
unfolding unreachable
unreachable-Keeps env =
    search (keeps_rules, check_in_bounds-Keeps stable, stable.stack_keeps, stable.emit_keeps) depth
      20

end_case-Keeps : (env : Env) (bounds : ℕ) → Keeps P (end_case env bounds)
unfolding end_case
end_case-Keeps env bounds =
    search (keeps_rules, check_in_bounds-Keeps stable, exit_scope-Keeps, on_end-Keeps stable) depth
      20

block-Keeps : (env : Env) → Keeps P (block env)
unfolding block
block-Keeps env = Keeps-bind (Keeps-read next-Ensures) λ t.
    Keeps-bind (block_type-Keeps stable env t) λ expected.
      Keeps-bind (open_block-Triple env expected expected false (branches []) λ s i. (i, tt))
        λ _. Keeps-bind (stable.stack_keeps _) λ _. on_control-Keeps stable env

loop-Keeps : (env : Env) → Keeps P (loop env)
unfolding loop
loop-Keeps env = Keeps-bind (Keeps-read next-Ensures) λ t.
    Keeps-bind (block_type-Keeps stable env t) λ expected.
      Triple-bind {Q = λ s₀ s. P s × (s₀ ≡ s)} (Triple-get λ s i. (i, refl)) λ s₀.
        Triple-bind
          (open_block-Triple env expected Ty.pseudo false (label (op_index s₀.writer))
            λ s (i, e). (i, subst (λ x. op_index s₀.writer ≤ op_index x.writer) e (le_refl _)))
          λ _. Keeps-bind (stable.stack_keeps _) λ _. on_control-Keeps stable env

emit_if-Triple : Triple P (λ a. Recorded (a ∷ [])) (on_writer emit_if)
emit_if-Triple = Triple-on_writer _ λ s a w r e. append_branch-Recorded 0x04 0 s a w r e

if_case-Keeps : (env : Env) → Keeps P (if_case env)
unfolding if_case
if_case-Keeps env = Keeps-bind (check_in_bounds-Keeps stable env) λ _.
    Keeps-bind (Keeps-read next-Ensures) λ t. Keeps-bind (block_type-Keeps stable env t) λ expected.
      Triple-bind emit_if-Triple λ a. Triple-bind ((Recorded-IsStable (a ∷ [])).stack_keeps _) λ _.
        Triple-bind
          (open_block-Triple env expected expected true (branches (a ∷ [])) λ s i. (i, tt))
          λ _. Keeps-bind (stable.stack_keeps _) λ _. on_control-Keeps stable env

br-Keeps : (env : Env) → Keeps P (br env)
unfolding br
br-Keeps env = Keeps-bind (check_in_bounds-Keeps stable env) λ _.
    Keeps-bind (Keeps-read parse_varuint32-Ensures) λ l.
      Keeps-bind (compute_depth_change-Keeps env l) λ d.
        Triple-bind (emit_br-Triple d.0 d.1)
          λ a. Triple-bind (handle_branch_target-Triple l a) λ _. stable.stack_keeps _

br_if-Keeps : (env : Env) → Keeps P (br_if env)
unfolding br_if
br_if-Keeps env = Keeps-bind (check_in_bounds-Keeps stable env) λ _.
    Keeps-bind (Keeps-read parse_varuint32-Ensures) λ l. Keeps-bind (stable.stack_keeps _) λ _.
      Keeps-bind (compute_depth_change-Keeps env l)
        λ d. Triple-bind (emit_br_if-Triple d.0 d.1) λ a. handle_branch_target-Triple l a

return_case-Keeps : (env : Env) → Keeps P (return_case env)
unfolding return_case
return_case-Keeps env = Keeps-bind (check_in_bounds-Keeps stable env) λ _. Keeps-bind Keeps-get λ s.
    Keeps-bind (compute_depth_change-Keeps env _) λ d.
      Triple-bind (emit_br-Triple d.0 d.1)
        λ a. Triple-bind (handle_branch_target-Triple _ a) λ _. stable.stack_keeps _

table_case-Keeps :
    (env : Env) (emit_one : ℕ → ℕ → Action ℕ) (is_first : Bool) (t : ℕ)
    → ((d rt : ℕ) → Triple P (λ a. Recorded (a ∷ [])) (emit_one d rt))
    → Keeps P (table_case env emit_one is_first t)
unfolding table_case
table_case-Keeps env emit_one is_first t e = Keeps-bind (Keeps-read parse_varuint32-Ensures) λ l.
    Keeps-bind (compute_depth_change-Keeps env l) λ d. Triple-bind (e d.0 d.1) λ a.
      Triple-bind (handle_branch_target-Triple l a)
        λ _. Keeps-bind (branch_target-Keeps l) λ p. Keeps-bind (Keeps-require _) λ _. Keeps-pure _

table_cases-Keeps :
    (env : Env) (count : ℕ) (is_first : Bool) (t : ℕ) → Keeps P (table_cases env count is_first t)
unfolding table_cases
table_cases-Keeps env zero is_first t = Keeps-pure t
table_cases-Keeps env (suc count) is_first t =
    Keeps-bind (table_case-Keeps env _ is_first t emit_case-Triple)
      λ t'. table_cases-Keeps env count false t'

emit_default-Triple :
    (bytes size d rt : ℕ)
    → Triple P (λ a. Recorded (a ∷ [])) (on_writer (emit_default bytes size d rt))
unfolding emit_default
emit_default-Triple bytes size d rt = Triple-on_writer _ λ s a w r h.
    let ((a', w'), e, k) = >>=-eq-ok (emit_case d rt s.writer) _ h in
    let (_, _, m) =
      >>=-eq-ok
        (eos_vm_assert (leb ((size + 1) * 8) (table_places bytes size * bytes))
          wasm_parse_exception)
        _ k in
    subst (λ (x : ℕ × Writer). Recorded (x.0 ∷ []) (record s { writer = x.1 })) (ok-inj m)
      (emit_case-Recorded d rt s a' w' r e)

emit_br_table-Keeps : (bytes size : ℕ) → Keeps P (writes (emit_br_table bytes size))
unfolding emit_br_table
emit_br_table-Keeps bytes size = Triple-writes _ λ s w r h.
    let (w₁, e, k) = >>=-eq-ok (append_instr (br_table_op size) s.writer) _ h in
    let first = append-Recorded (br_table_op size) s w₁ r e in
    let (_, _, m) =
      >>=-eq-ok (eos_vm_assert (ltb (op_index w₁) w₁.size) wasm_vector_oob_exception) _ k in
    let code = w₁.code ++ replicate (table_places bytes size % 2 ^ 32) br_table_data in
    let longer : op_index w₁ ≤ length code =
      omega (
        arith,
        length-append w₁.code (replicate (table_places bytes size % 2 ^ 32) br_table_data),
      ) in
    let (_, _, n) =
      >>=-eq-ok (eos_vm_assert (ltb (length code) w₁.size) wasm_vector_oob_exception) _ m in
    subst (λ x. Recorded [] (record s { writer = x })) (ok-inj n)
      (record {
        cells = CellsKnown-longer w₁ _ code longer first.cells;
        labels = LabelsBelow-mono _ _ s.pc_stack longer first.labels;
      })

br_table-Keeps : (env : Env) → Keeps P (br_table env)
unfolding br_table
br_table-Keeps env = Keeps-bind (check_in_bounds-Keeps stable env) λ _.
    Keeps-bind (Keeps-read parse_varuint32-Ensures) λ size. Keeps-bind (Keeps-require _) λ _.
      Keeps-bind (stable.stack_keeps _) λ _. Keeps-bind (emit_br_table-Keeps _ size) λ _.
        Keeps-bind (table_cases-Keeps env size true 0) λ t.
          Keeps-bind (table_case-Keeps env _ _ t (emit_default-Triple _ size))
            λ _. stable.stack_keeps _

-- Every instruction keeps the record of branches.
pub instruction-Keeps : (env : Env) (bounds opcode : ℕ) → Keeps P (instruction env bounds opcode)
unfolding instruction
instruction-Keeps env bounds opcode =
    by_place-Keeps loads opcode (load_case-Keeps stable env λ is. stable.emit_keeps _ _) (
      by_place-Keeps stores opcode (store_case-Keeps stable env λ is. stable.emit_keeps _ _) (
        Triple-switch opcode (cases env bounds)
          (
            unreachable-Keeps env,
            (
              stable.emit_keeps 0x01 [],
              (
                block-Keeps env,
                (
                  loop-Keeps env,
                  (
                    if_case-Keeps env,
                    (
                      else_case-Keeps env,
                      (
                        end_case-Keeps env bounds,
                        (
                          br-Keeps env,
                          (
                            br_if-Keeps env,
                            (
                              br_table-Keeps env,
                              (
                                return_case-Keeps env,
                                (
                                  call-Keeps stable env,
                                  (
                                    call_indirect-Keeps stable env,
                                    (
                                      drop_case-Keeps stable env,
                                      (
                                        select_case-Keeps stable env,
                                        (
                                          get_local-Keeps stable env,
                                          (
                                            set_local-Keeps stable env,
                                            (
                                              tee_local-Keeps stable env,
                                              (
                                                get_global-Keeps stable env,
                                                (
                                                  set_global-Keeps stable env,
                                                  (
                                                    current_memory-Keeps stable env,
                                                    (
                                                      grow_memory-Keeps stable env,
                                                      (
                                                        i32_const-Keeps stable env,
                                                        (
                                                          i64_const-Keeps stable env,
                                                          (
                                                            f32_const-Keeps stable env,
                                                            (
                                                            f64_const-Keeps stable env,
                                                            (
                                                            extend_case-Keeps stable env 0xC0
                                                            Ty.i32,
                                                            (
                                                            extend_case-Keeps stable env 0xC1
                                                            Ty.i32,
                                                            (
                                                            extend_case-Keeps stable env 0xC2
                                                            Ty.i64,
                                                            (
                                                            extend_case-Keeps stable env 0xC3
                                                            Ty.i64,
                                                            (
                                                            extend_case-Keeps stable env 0xC4
                                                            Ty.i64,
                                                            (
                                                            ext_case-Keeps stable env,
                                                            (vector_case-Keeps stable env, tt),
                                                            ),
                                                            ),
                                                            ),
                                                            ),
                                                            ),
                                                            ),
                                                            ),
                                                          ),
                                                        ),
                                                      ),
                                                    ),
                                                  ),
                                                ),
                                              ),
                                            ),
                                          ),
                                        ),
                                      ),
                                    ),
                                  ),
                                ),
                              ),
                            ),
                          ),
                        ),
                      ),
                    ),
                  ),
                ),
              ),
            ),
          )
          (numeric-Keeps stable env opcode)))
