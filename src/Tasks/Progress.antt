-- ===== src/Tasks/Progress.antt =====
-- The slices of `StepTask` of src/example_tasks.cpp, and the budget of both tasks.
use omni_sched.Base.{
  ℕ, zero, suc, ◌+◌, ◌-◌, ◌≤◌, ◌<◌, Bool, true, false, Bool-cases, ◌≡◌, refl, ltb, ◌⊎◌, inl, inr,
  arith,
}
use omni_sched.Types.{
  SliceStatus, SliceResult, unlimited_work, slice_yielded, slice_completed, slice_cancelled,
}
use omni_sched.Tasks.Budget.{increment, min, effective_budget, TaskContext}
use omni_sched.Tasks.Step
use omni_sched.Tasks.Step.{StepTask, step_loop, step_result, steps_output}

pub increment-suc : (n : ℕ) → n < unlimited_work → increment n ≡ suc n
increment-suc n h = omega arith

-- What the budget of a slice can be.
abbrev pub Budgets : ℕ → ℕ → ℕ → Type 0
Budgets requested remaining budget =
    (budget ≤ requested) × (budget ≤ remaining) × ((budget ≡ requested) ⊎ (budget ≡ remaining))

pub effective_budget-Budgets :
    (requested remaining : ℕ)
    → remaining ≤ unlimited_work
    → Budgets requested remaining (effective_budget requested remaining)
unfolding effective_budget min
effective_budget-Budgets requested remaining h = ground arith

-- From `t`, with `consumed` units spent, the loop of a slice with `left` units has come to an end.
StepsTo : ℕ → ℕ → StepTask → StepTask × ℕ × Bool → Type 0
StepsTo left consumed t (t', c, stopped) =
    (t'.total_steps ≡ t.total_steps)
    × (t'.completed_steps + consumed ≡ t.completed_steps + c)
    × (consumed ≤ c)
    × (c ≤ consumed + left)
    × ((stopped ≡ true) ⊎ (c ≡ consumed + left))

StepsTo-next :
    (left consumed : ℕ) (t : StepTask) (out : StepTask × ℕ × Bool)
    → StepsTo left (suc consumed) (record t { completed_steps = suc t.completed_steps }) out
    → StepsTo (suc left) consumed t out
unfolding StepsTo
StepsTo-next left consumed t (t', c, stopped) (e, f, a, b, inl d) =
    (e, omega arith, omega arith, omega arith, inl d)
StepsTo-next left consumed t (t', c, stopped) (e, f, a, b, inr d) =
    (e, omega arith, omega arith, omega arith, inr (omega arith))

step_loop_stopped :
    (stop : ℕ → Bool) (left consumed : ℕ) (t : StepTask)
    → t.completed_steps < t.total_steps
    → stop (suc consumed) ≡ true
    → step_loop stop (suc left) consumed t ≡ (t, consumed, true)
unfolding step_loop
step_loop_stopped stop left consumed t h e = ground arith

step_loop_next :
    (stop : ℕ → Bool) (left consumed : ℕ) (t : StepTask)
    → t.completed_steps < t.total_steps
    → stop (suc consumed) ≡ false
    → step_loop stop (suc left) consumed t
      ≡ step_loop stop left
          (increment consumed)
          (record t { completed_steps = increment t.completed_steps })
unfolding step_loop
step_loop_next stop left consumed t h e = ground arith

step_loop-StepsTo :
    (stop : ℕ → Bool) (left consumed : ℕ) (t : StepTask)
    → t.total_steps ≤ unlimited_work
    → t.completed_steps + left ≤ t.total_steps
    → consumed + left ≤ unlimited_work
    → StepsTo left consumed t (step_loop stop left consumed t)
step_loop-StepsTo stop zero consumed t a b c =
    unfold StepsTo step_loop in (refl, refl, omega arith, omega arith, inr (omega arith))
step_loop-StepsTo stop (suc left) consumed t a b c = elim (Bool-cases (stop (suc consumed))) [
  | inl e ↦
      rw (step_loop_stopped stop left consumed t (omega arith) e)
        (unfold StepsTo in (refl, refl, omega arith, omega arith, inl refl))
  | inr e ↦
      rw
        (
          step_loop_next stop left consumed t (omega arith) e,
          increment-suc consumed (omega arith),
          increment-suc t.completed_steps (omega arith),
        )
        (StepsTo-next left consumed t _ (
          step_loop-StepsTo stop left (suc consumed)
            (record t { completed_steps = suc t.completed_steps }) a (omega arith) (omega arith)))
]

-- What a slice of a step task does: the work that it reports is the work that was done, within the
-- budget, and it ends cancelled, completed with all steps done, or with the budget used up.
abbrev pub StepSlice : TaskContext → StepTask → SliceResult × StepTask → Type 0
StepSlice context t (r, t') =
    (t'.total_steps ≡ t.total_steps)
    × (t'.completed_steps ≡ t.completed_steps + r.work_units_consumed)
    × (t'.completed_steps ≤ t.total_steps)
    × (r.work_units_consumed ≤ context.max_work_units)
    × ((r.status ≡ SliceStatus.cancelled)
        ⊎ ((r.status ≡ SliceStatus.completed) × (t'.completed_steps ≡ t.total_steps))
        ⊎ ((r.status ≡ SliceStatus.yielded)
            × (r.work_units_consumed ≡ context.max_work_units)
            × (t'.completed_steps < t.total_steps)))

step_result-StepSlice :
    (context : TaskContext) (budget : ℕ) (t : StepTask) (out : StepTask × ℕ × Bool)
    → t.completed_steps ≤ t.total_steps
    → Budgets context.max_work_units (t.total_steps - t.completed_steps) budget
    → StepsTo budget 0 t out
    → StepSlice context t (step_result out)
unfolding step_result StepsTo slice_cancelled slice_completed slice_yielded
step_result-StepSlice context budget t (t', c, true) h (b, b', _) (e, f, l, m, d) =
    (e, omega arith, omega arith, omega arith, inl refl)
step_result-StepSlice context budget t (t', c, false) h (b, b', _) (e, f, l, m, inl d) = absurd (cc)
step_result-StepSlice context budget t (t', c, false) h (b, b', b'') (e, f, l, m, inr d) =
    ground arith

StepSlice-stopped :
    (context : TaskContext) (t : StepTask)
    → t.completed_steps ≤ t.total_steps
    → context.stop_requested 0 ≡ true
    → StepSlice context t (Step.run_slice context t)
unfolding Step.run_slice slice_cancelled
StepSlice-stopped context t l e = rw e (refl, omega arith, l, omega arith, inl refl)

StepSlice-done :
    (context : TaskContext) (t : StepTask)
    → t.completed_steps ≡ t.total_steps
    → context.stop_requested 0 ≡ false
    → StepSlice context t (Step.run_slice context t)
unfolding Step.run_slice slice_completed
StepSlice-done context t l e = ground arith

step_slice_open :
    (context : TaskContext) (t : StepTask)
    → t.completed_steps < t.total_steps
    → context.stop_requested 0 ≡ false
    → Step.run_slice context t
      ≡ step_result (
          step_loop context.stop_requested
            (effective_budget context.max_work_units (t.total_steps - t.completed_steps))
            0
            t)
unfolding Step.run_slice
step_slice_open context t l e = ground arith

StepSlice-loop :
    (context : TaskContext) (t : StepTask)
    → t.total_steps ≤ unlimited_work
    → t.completed_steps < t.total_steps
    → context.stop_requested 0 ≡ false
    → StepSlice context t (Step.run_slice context t)
StepSlice-loop context t h l e =
    let b =
      effective_budget-Budgets context.max_work_units (t.total_steps - t.completed_steps)
        (omega arith) in
    rw (step_slice_open context t l e) (
      step_result-StepSlice context _ t _ (omega arith) b (
        step_loop-StepsTo context.stop_requested _ 0 t h (omega (arith, b.1)) (omega (arith, b.1))))

-- A slice of a step task that has not passed its end does the work that it reports, within the budget
-- of the context, never past the end, and ends cancelled, completed with every step done, or yielded
-- with the whole budget used and steps left.
pub run_slice-StepSlice :
    (context : TaskContext) (t : StepTask)
    → t.total_steps ≤ unlimited_work
    → t.completed_steps ≤ t.total_steps
    → StepSlice context t (Step.run_slice context t)
run_slice-StepSlice context t h l = elim (Bool-cases (context.stop_requested 0)) [
  | inl e ↦ StepSlice-stopped context t l e
  | inr e ↦ elim (Bool-cases (ltb t.completed_steps t.total_steps)) [
    | inl f ↦ StepSlice-loop context t h (ground arith) e
    | inr f ↦ StepSlice-done context t (ground arith) e
  ]
]
