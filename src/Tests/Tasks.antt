-- ===== src/Tests/Tasks.antt =====
-- Slices of the tasks of src/example_tasks.cpp, and a task of src/task_factory.cpp.
use omni_sched.Base.{
  ◌↔◌, ℕ, ◌≤◌, ◌*◌, pos, text, text_eq, false, [], ◌∷◌, ◌≡◌, refl, ok, All, arith,
}
use omni_sched.Types.{unlimited_work}
use omni_sched.Codec.Number.{to_string, from_chars-to_string, max_u64}
use omni_sched.Tasks.Budget.{TaskContext}
use omni_sched.Tasks.Step
use omni_sched.Tasks.Step.{StepTask}
use omni_sched.Tasks.Prime
use omni_sched.Tasks.Prime.{PrimeCountTask, is_prime, no_divisor_from}
use omni_sched.Tasks.Progress.{StepSlice, run_slice-StepSlice}
use omni_sched.Tasks.PrimeProgress.{PrimeSlice, run_slice-PrimeSlice}
use omni_sched.Tasks.PrimeTest.{is_prime_composite}
use omni_sched.Tasks.PrimeEndless.{statuses, is_completed, prime_task_endless}
use omni_sched.Factory.Create.{
  create_for_submission, step_created, create_step, make_step, parse_positive, parsed_positive,
  parse_nonnegative, parsed_nonnegative,
}
use omni_sched.Factory.RestoreCreated.{Restorable, create_for_submission-Restorable}

abbrev four_units : TaskContext
four_units = record { max_work_units = 4; stop_requested = λ k. false }

abbrev halfway : StepTask
halfway = record { total_steps = 10; completed_steps = 5; delay_per_step = 0 }

run_slice-StepSlice_example : StepSlice four_units halfway (Step.run_slice four_units halfway)
run_slice-StepSlice_example = run_slice-StepSlice four_units halfway (omega arith) (omega arith)

abbrev counting : PrimeCountTask
counting = record { upper_bound = 20; candidate = 6; prime_count = 3 }

run_slice-PrimeSlice_example : PrimeSlice four_units counting (Prime.run_slice four_units counting)
run_slice-PrimeSlice_example =
    run_slice-PrimeSlice four_units counting (omega arith) (omega arith) (omega arith)

ninety_one : is_prime 91 ≡ false
unfolding is_prime no_divisor_from
ninety_one = refl

is_prime_composite_example :
    (is_prime 91 ≡ false) ↔ ((d : ℕ) × (e : ℕ) × (2 ≤ d) × (2 ≤ e) × (91 ≡ d * e))
is_prime_composite_example = is_prime_composite 91 (omega arith)

prime_task_endless_example :
    All
      (λ s. is_completed s ≡ false)
      (statuses (four_units ∷ four_units ∷ []) (Prime.init unlimited_work))
prime_task_endless_example = prime_task_endless (four_units ∷ four_units ∷ [])

step_words :
    create_for_submission (text "step") (to_string 7 ∷ to_string 3 ∷ []) (pos 1)
    ≡ ok (step_created (pos 1) 7 3)
unfolding create_for_submission create_step make_step parse_positive parsed_positive
    parse_nonnegative parsed_nonnegative text_eq text
step_words =
    rw (from_chars-to_string max_u64 7 (omega arith), from_chars-to_string max_u64 3 (omega arith))
      refl

create_for_submission-Restorable_example : Restorable (step_created (pos 1) 7 3)
create_for_submission-Restorable_example =
    create_for_submission-Restorable (text "step") (to_string 7 ∷ to_string 3 ∷ []) (pos 1)
      (step_created (pos 1) 7 3) step_words
