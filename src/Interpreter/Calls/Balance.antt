-- ===== src/Interpreter/Calls/Balance.antt =====
-- A return undoes its call.
use eos_vm.Prelude.{
  ℕ, ◌+◌, ◌-◌, ◌%◌, ◌^◌, ◌≤◌, ◌<◌, ◌≡◌, inl, inr, refl, sym, ap, ◌∙◌, List, [], ◌∷◌, ◌++◌, length,
  length-append, leb, leb→le, true, false, Bool-cases, arith,
}
use eos_vm.Prelude.Result.{ok-inj, ok}
use eos_vm.Interpreter.Operand.{Operand}
use eos_vm.Interpreter.Stack.Refinement.{Represents, eat_top-Represents, compact-Represents}
use eos_vm.Interpreter.Calls.{State, push_call, apply_pop_call}

-- A state that the body of a call may leave: the call stack and the depth are those of the call.
pub record SameCall (s t : State) : Type 0 where
  pub frames : t.frames ≡ s.frames
  pub depth : t.remaining_call_depth ≡ s.remaining_call_depth

-- A state with the caller's frames, frame pointer and depth, at the instruction after the call.
pub record Resumes (s t : State) : Type 0 where
  pub frames : t.frames ≡ s.frames
  pub pc : t.pc ≡ s.pc + 1
  pub last_op_index : t.last_op_index ≡ s.last_op_index
  pub depth : t.remaining_call_depth ≡ s.remaining_call_depth

-- A call that is refused does not return.
refused :
    (frame_size params : ℕ) (s t : State)
    → leb frame_size s.remaining_call_depth ≡ false
    → push_call frame_size params s ≡ ok t
    → ⊥
unfolding push_call
refused frame_size params s t e h = absurd (ground (arith, rw e at h))

-- The state of a call that returns.
returns :
    (frame_size params : ℕ) (s t : State)
    → leb frame_size s.remaining_call_depth ≡ true
    → push_call frame_size params s ≡ ok t
    → ok (record s {
      frames = record { pc = s.pc + 1; last_op_index = s.last_op_index } ∷ s.frames;
      last_op_index = (s.os.index + 2 ^ 32 - params) % 2 ^ 32;
      remaining_call_depth = s.remaining_call_depth - frame_size;
    })
      ≡ ok t
unfolding push_call
returns frame_size params s t e h = rw e at h

module _ (frame_size params : ℕ) (s t u : State) (below locals : List Operand) where
  -- The return of a call with a result drops the parameters and locals of the call, keeps the result
  -- behind the caller's operands, and resumes the caller.
  pub apply_pop_call-Resumes_value :
      (result : Operand)
      → push_call frame_size params s ≡ ok t
      → SameCall t u
      → s.remaining_call_depth < 2 ^ 32
      → length ((below ++ locals) ++ (result ∷ [])) < 2 ^ 32
      → Represents u.os ((below ++ locals) ++ (result ∷ []))
      → (v : State) × (apply_pop_call (length locals) 1 frame_size u ≡ ok v)
        × Resumes s v
        × Represents v.os (below ++ (result ∷ []))
  unfolding push_call apply_pop_call
  apply_pop_call-Resumes_value result h same small few r =
      elim (Bool-cases (leb frame_size s.remaining_call_depth)) [
        | inr e ↦ absurd (refused frame_size params s t e h)
        | inl e ↦
            let fits : frame_size ≤ s.remaining_call_depth = leb→le _ _ e in
            let called = ok-inj (returns frame_size params s t e h) in
            let frames = same.frames ∙ sym (ap (λ x. x.frames) called) in
            let depth = same.depth ∙ sym (ap (λ x. x.remaining_call_depth) called) in
            let base : (u.os.index + 2 ^ 32 - length locals - 1) % 2 ^ 32 ≡ length below = omega (
              arith,
              r.size,
              few,
              length-append (below ++ locals) (result ∷ []),
              length-append below locals,
            ) in
            let (os', f, q) = compact-Represents result u.os below locals r in
            rw (frames, base, f)
              (
                _,
                refl,
                record {
                  frames = refl;
                  pc = refl;
                  last_op_index = refl;
                  depth = omega (arith, depth, fits, small);
                },
                q,
              )
      ]

  -- The return of a call without a result drops the parameters and locals of the call, and resumes the
  -- caller.
  pub apply_pop_call-Resumes :
      push_call frame_size params s ≡ ok t
      → SameCall t u
      → s.remaining_call_depth < 2 ^ 32
      → length (below ++ locals) < 2 ^ 32
      → Represents u.os (below ++ locals)
      → (v : State) × (apply_pop_call (length locals) 0 frame_size u ≡ ok v)
        × Resumes s v
        × Represents v.os below
  unfolding push_call apply_pop_call
  apply_pop_call-Resumes h same small few r =
      elim (Bool-cases (leb frame_size s.remaining_call_depth)) [
        | inr e ↦ absurd (refused frame_size params s t e h)
        | inl e ↦
            let fits : frame_size ≤ s.remaining_call_depth = leb→le _ _ e in
            let called = ok-inj (returns frame_size params s t e h) in
            let frames = same.frames ∙ sym (ap (λ x. x.frames) called) in
            let depth = same.depth ∙ sym (ap (λ x. x.remaining_call_depth) called) in
            rw frames (
              _,
              refl,
              record {
                frames = refl;
                pc = refl;
                last_op_index = refl;
                depth = omega (arith, depth, fits, small);
              },
              eat_top-Represents u.os below locals r few,
            )
      ]
