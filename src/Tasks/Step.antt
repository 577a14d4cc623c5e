-- ===== src/Tasks/Step.antt =====
-- `StepTask` of src/example_tasks.cpp.
use omni_sched.Base.{
  ℕ, zero, suc, ◌-◌, Bool, true, false, ◌++◌, leb, ltb, ◌==◌, if◌then◌else◌, Bytes, text,
}
use omni_sched.Types.{SliceResult, slice_yielded, slice_completed, slice_cancelled}
use omni_sched.Codec.Number.{to_string}
use omni_sched.Tasks.Budget.{effective_budget, increment, TaskContext}

pub record StepTask : Type 0 where
  pub total_steps : ℕ
  pub completed_steps : ℕ
  pub delay_per_step : ℕ

unfoldable pub init : ℕ → ℕ → StepTask
init steps delay = record { total_steps = steps; completed_steps = 0; delay_per_step = delay }

-- The loop of a slice; `left` is the budget less what was consumed. The wait only takes time. The flag
-- says that the slice was cancelled.
unfoldable pub step_loop : (ℕ → Bool) → ℕ → ℕ → StepTask → StepTask × ℕ × Bool
step_loop stop zero consumed t = (t, consumed, false)
step_loop stop (suc left) consumed t = elim (ltb t.completed_steps t.total_steps) [
  | false ↦ (t, consumed, false)
  | true ↦ elim (stop (suc consumed)) [
    | true ↦ (t, consumed, true)
    | false ↦
        step_loop stop left (increment consumed)
          (record t { completed_steps = increment t.completed_steps })
  ]
]

unfoldable pub steps_output : StepTask → Bytes
steps_output t = text "steps completed: " ++ to_string t.completed_steps

-- What the slice returns after the loop.
unfoldable pub step_result : StepTask × ℕ × Bool → SliceResult × StepTask
step_result (t, consumed, true) = (slice_cancelled (text "step task cancelled") consumed, t)
step_result (t, consumed, false) = (
  if t.completed_steps == t.total_steps
      then slice_completed (steps_output t) consumed
      else slice_yielded consumed,
  t,
)

unfoldable pub run_slice : TaskContext → StepTask → SliceResult × StepTask
run_slice context t =
    if context.stop_requested 0
    then (slice_cancelled (text "step task cancelled") 0, t)
    else if leb t.total_steps t.completed_steps
    then (slice_completed (steps_output t) 0, t)
    else (let remaining = t.total_steps - t.completed_steps in
        let budget = effective_budget context.max_work_units remaining in
        step_result (step_loop context.stop_requested budget 0 t))
