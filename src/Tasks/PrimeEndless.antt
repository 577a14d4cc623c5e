-- ===== src/Tasks/PrimeEndless.antt =====
-- `PrimeCountTask` of src/example_tasks.cpp with the largest bound.
use omni_sched.Base.{
  ℕ, zero, suc, ◌≤◌, Bool, true, false, Bool-cases, List, [], ◌∷◌, ◌≡◌, inl, inr, refl, arith, All,
}
use omni_sched.Types.{SliceStatus, SliceResult, unlimited_work, slice_yielded, slice_cancelled}
use omni_sched.Tasks.Budget.{increment, effective_budget, TaskContext}
use omni_sched.Tasks.Prime
use omni_sched.Tasks.Prime.{PrimeCountTask, advance, prime_loop, prime_result, remaining}

abbrev pub is_completed : SliceStatus → Bool
is_completed SliceStatus.completed = true
is_completed _ = false

-- The bound is the largest number, and the candidate is a 64-bit number.
abbrev IsLargest : PrimeCountTask → Type 0
IsLargest t = (t.upper_bound ≡ unlimited_work) × (t.candidate ≤ unlimited_work)

advance-IsLargest : (t : PrimeCountTask) → IsLargest t → IsLargest (advance t)
unfolding advance
advance-IsLargest t h = (h.0, omega arith)

prime_loop_open :
    (stop : ℕ → Bool) (left consumed : ℕ) (t : PrimeCountTask)
    → IsLargest t
    → stop (suc consumed) ≡ false
    → prime_loop stop (suc left) consumed t ≡ prime_loop stop left (increment consumed) (advance t)
unfolding prime_loop
prime_loop_open stop left consumed t (h, l) e = ground arith

prime_loop_shut :
    (stop : ℕ → Bool) (left consumed : ℕ) (t : PrimeCountTask)
    → IsLargest t
    → stop (suc consumed) ≡ true
    → prime_loop stop (suc left) consumed t ≡ (t, consumed, true)
unfolding prime_loop
prime_loop_shut stop left consumed t (h, l) e = ground arith

prime_loop-IsLargest :
    (stop : ℕ → Bool) (left consumed : ℕ) (t : PrimeCountTask)
    → IsLargest t
    → IsLargest (prime_loop stop left consumed t).0
prime_loop-IsLargest stop zero consumed t h = unfold prime_loop in h
prime_loop-IsLargest stop (suc left) consumed t h = elim (Bool-cases (stop (suc consumed))) [
  | inl e ↦ rw (prime_loop_shut stop left consumed t h e) h
  | inr e ↦
      rw (prime_loop_open stop left consumed t h e)
        (prime_loop-IsLargest stop left (increment consumed) (advance t) (advance-IsLargest t h))
]

-- A slice that has not completed the task, and leaves it as far from its end.
abbrev GoesOn : SliceResult × PrimeCountTask → Type 0
GoesOn (r, t) = (is_completed r.status ≡ false) × IsLargest t

prime_result-GoesOn :
    (out : PrimeCountTask × ℕ × Bool) → IsLargest out.0 → GoesOn (prime_result out)
unfolding prime_result slice_cancelled slice_yielded
prime_result-GoesOn (t, consumed, true) h = (refl, h)
prime_result-GoesOn (t, consumed, false) (h, l) = ground arith

run_slice_open :
    (context : TaskContext) (t : PrimeCountTask)
    → IsLargest t
    → context.stop_requested 0 ≡ false
    → Prime.run_slice context t
      ≡ prime_result (
          prime_loop context.stop_requested
            (effective_budget context.max_work_units (remaining t))
            0
            t)
unfolding Prime.run_slice
run_slice_open context t (h, l) e = ground arith

run_slice-GoesOn :
    (context : TaskContext) (t : PrimeCountTask) → IsLargest t → GoesOn (Prime.run_slice context t)
unfolding Prime.run_slice slice_cancelled
run_slice-GoesOn context t (h, l) = elim (Bool-cases (context.stop_requested 0)) [
  | inl e ↦ rw e (refl, (h, l))
  | inr e ↦
      rw (run_slice_open context t (h, l) e)
        (prime_result-GoesOn _ (prime_loop-IsLargest context.stop_requested _ 0 t (h, l)))
]

-- The results of one slice after the other, as the engine runs them while the task yields.
pub statuses : List TaskContext → PrimeCountTask → List SliceStatus
statuses [] t = []
statuses (context ∷ contexts) t =
    let (r, t') = Prime.run_slice context t in r.status ∷ statuses contexts t'

statuses_open :
    (contexts : List TaskContext) (t : PrimeCountTask)
    → IsLargest t
    → All (λ s. is_completed s ≡ false) (statuses contexts t)
unfolding statuses
statuses_open [] t h = tt
statuses_open (context ∷ contexts) t h =
    let (e, l) = run_slice-GoesOn context t h in (e, statuses_open contexts _ l)

-- A prime count up to the largest 64-bit number completes in no slice, whatever budgets its slices
-- have and whenever it is asked to stop.
pub prime_task_endless :
    (contexts : List TaskContext)
    → All (λ s. is_completed s ≡ false) (statuses contexts (Prime.init unlimited_work))
prime_task_endless contexts = statuses_open contexts _ (unfold Prime.init in (refl, omega arith))
