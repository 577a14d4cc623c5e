-- ===== src/Factory/Create.antt =====
-- `TaskFactory` of src/task_factory.cpp.
use omni_sched.Base.{
  ℕ, ◌-◌, ◌^◌, ℤ, pos, Bytes, text, text_eq, Option, some, List, [], ◌∷◌, ◌++◌, ltb, leb, ◌==◌,
  if◌then◌else◌, invalid_argument, Result, ok, err, ◌>>=◌, ◌>>◌, guard,
}
use omni_sched.Types.{DurableTaskSpec, SubmissionOptions}
use omni_sched.Codec.Number.{max_u64, to_string, from_chars}
use omni_sched.Codec.Split.{split_at}
use omni_sched.Tasks.Step
use omni_sched.Tasks.Step.{StepTask}
use omni_sched.Tasks.Prime
use omni_sched.Tasks.Prime.{PrimeCountTask}

-- The classes behind `std::unique_ptr<ITask>` that the factory makes.
pub data Task : Type 0 where
  prime_count : PrimeCountTask → Task
  steps : StepTask → Task

pub record CreatedTask : Type 0 where
  pub task : Task
  pub options : SubmissionOptions

-- `parse_positive<std::uint64_t>`.
unfoldable pub parsed_positive : Bytes → Option (ℕ × Bytes) → Result ℕ
parsed_positive label (some (parsed, [])) =
    if parsed == 0
    then err (invalid_argument (label ++ text " must be a positive integer"))
    else ok parsed
parsed_positive label _ = err (invalid_argument (label ++ text " must be a positive integer"))

unfoldable pub parse_positive : Bytes → Bytes → Result ℕ
parse_positive value label = parsed_positive label (from_chars max_u64 value)

-- `parse_nonnegative<std::uint64_t>`.
unfoldable pub parsed_nonnegative : Bytes → Option (ℕ × Bytes) → Result ℕ
parsed_nonnegative label (some (parsed, [])) = ok parsed
parsed_nonnegative label _ =
    err (invalid_argument (label ++ text " must be a non-negative integer"))

unfoldable pub parse_nonnegative : Bytes → Bytes → Result ℕ
parse_nonnegative value label = parsed_nonnegative label (from_chars max_u64 value)

unfoldable pub split_payload : Bytes → List Bytes
split_payload payload = split_at b',' payload

unfoldable pub prime_created : ℤ → ℕ → CreatedTask
prime_created priority upper_bound = record {
  task = prime_count (Prime.init upper_bound);
  options = record {
    name = text "prime-" ++ to_string upper_bound;
    priority = priority;
    estimated_work_units = if ltb 1 upper_bound then upper_bound - 1 else 1;
    durable_spec = some (record { type = text "prime"; payload = to_string upper_bound });
  };
}

unfoldable pub make_prime : Bytes → ℤ → Result CreatedTask
make_prime upper_bound_text priority = do
  upper_bound ← parse_positive upper_bound_text (text "upper bound")
  ok (prime_created priority upper_bound)

-- `std::chrono::milliseconds::max().count()`, of 64 bits.
abbrev pub max_milliseconds : ℕ
max_milliseconds = 2 ^ 63 - 1

unfoldable pub step_payload : ℕ → ℕ → Bytes
step_payload count delay = to_string count ++ b',' ∷ to_string delay

unfoldable pub step_created : ℤ → ℕ → ℕ → CreatedTask
step_created priority count delay = record {
  task = steps (Step.init count delay);
  options = record {
    name = text "step-" ++ to_string count;
    priority = priority;
    estimated_work_units = count;
    durable_spec = some (record { type = text "step"; payload = step_payload count delay });
  };
}

unfoldable pub make_step : Bytes → Bytes → ℤ → Result CreatedTask
make_step steps_text delay_text priority = do
  count ← parse_positive steps_text (text "step count")
  delay ← parse_nonnegative delay_text (text "delay milliseconds")
  guard (leb delay max_milliseconds) (invalid_argument (text "delay milliseconds is too large"))
  ok (step_created priority count delay)

unfoldable pub create_prime : List Bytes → ℤ → Result CreatedTask
create_prime (upper_bound ∷ []) priority = make_prime upper_bound priority
create_prime _ priority =
    err (invalid_argument (text "usage: submit prime <upper-bound> [priority]"))

unfoldable pub create_step : List Bytes → ℤ → Result CreatedTask
create_step (count ∷ delay ∷ []) priority = make_step count delay priority
create_step _ priority =
    err (invalid_argument (text "usage: submit step <steps> <delay-ms> [priority]"))

unfoldable pub create_for_submission : Bytes → List Bytes → ℤ → Result CreatedTask
create_for_submission type arguments priority =
    if text_eq type (text "prime")
    then create_prime arguments priority
    else if text_eq type (text "step")
    then create_step arguments priority
    else err (invalid_argument (text "unknown task type: " ++ type))

unfoldable pub task_of : Result CreatedTask → Result Task
task_of (err error) = err error
task_of (ok created) = ok created.task

unfoldable pub restore_step : List Bytes → Result Task
restore_step (count ∷ delay ∷ []) = task_of (make_step count delay (pos 0))
restore_step _ = err (invalid_argument (text "invalid durable step task payload"))

unfoldable pub restore : DurableTaskSpec → Result Task
restore specification =
    if text_eq specification.type (text "prime")
    then task_of (make_prime specification.payload (pos 0))
    else if text_eq specification.type (text "step")
    then restore_step (split_payload specification.payload)
    else err (invalid_argument (text "cannot restore unknown task type: " ++ specification.type))
