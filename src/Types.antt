-- ===== src/Types.antt =====
-- The shared types: include/kronos/types.hpp and src/types.cpp.
use omni_sched.Base.{ℕ, ◌-◌, ◌^◌, ℤ, Bool, true, false, Option, Bytes, [], text}

-- `unlimited_work`, the largest value of `WorkUnits`.
abbrev pub unlimited_work : ℕ
unlimited_work = 2 ^ 64 - 1

pub data JobState : Type 0 where
  new ready running completed failed cancelled : JobState

pub data SliceStatus : Type 0 where
  yielded completed failed cancelled : SliceStatus

pub data SchedulerKind : Type 0 where
  fifo priority shortest_job_first round_robin : SchedulerKind

pub data ShutdownMode : Type 0 where
  drain cancel_pending : ShutdownMode

pub record SchedulerConfig : Type 0 where
  pub kind : SchedulerKind
  pub quantum : ℕ

pub record DurableTaskSpec : Type 0 where
  pub type : Bytes
  pub payload : Bytes

pub record SubmissionOptions : Type 0 where
  pub name : Bytes
  pub priority : ℤ
  pub estimated_work_units : ℕ
  pub durable_spec : Option DurableTaskSpec

pub record SliceResult : Type 0 where
  pub status : SliceStatus
  pub work_units_consumed : ℕ
  pub message : Bytes

pub record JobResult : Type 0 where
  pub id : ℕ
  pub state : JobState
  pub message : Bytes
  pub work_units_consumed : ℕ

-- The three time stamps are left out: nothing reads them but to report them.
pub record JobSnapshot : Type 0 where
  pub id : ℕ
  pub name : Bytes
  pub state : JobState
  pub priority : ℤ
  pub estimated_work_units : ℕ
  pub work_units_consumed : ℕ
  pub submission_sequence : ℕ
  pub message : Bytes

-- `abbrev`, since invariants are stated with it.
abbrev pub is_terminal : JobState → Bool
is_terminal JobState.new = false
is_terminal JobState.ready = false
is_terminal JobState.running = false
is_terminal JobState.completed = true
is_terminal JobState.failed = true
is_terminal JobState.cancelled = true

unfoldable pub state_to_string : JobState → Bytes
state_to_string JobState.new = text "NEW"
state_to_string JobState.ready = text "READY"
state_to_string JobState.running = text "RUNNING"
state_to_string JobState.completed = text "COMPLETED"
state_to_string JobState.failed = text "FAILED"
state_to_string JobState.cancelled = text "CANCELLED"

unfoldable pub kind_to_string : SchedulerKind → Bytes
kind_to_string SchedulerKind.fifo = text "fifo"
kind_to_string SchedulerKind.priority = text "priority"
kind_to_string SchedulerKind.shortest_job_first = text "sjf"
kind_to_string SchedulerKind.round_robin = text "round-robin"

unfoldable pub slice_yielded : ℕ → SliceResult
slice_yielded consumed = record {
  status = SliceStatus.yielded;
  work_units_consumed = consumed;
  message = [];
}

unfoldable pub slice_completed : Bytes → ℕ → SliceResult
slice_completed output consumed = record {
  status = SliceStatus.completed;
  work_units_consumed = consumed;
  message = output;
}

unfoldable pub slice_failed : Bytes → ℕ → SliceResult
slice_failed error consumed = record {
  status = SliceStatus.failed;
  work_units_consumed = consumed;
  message = error;
}

unfoldable pub slice_cancelled : Bytes → ℕ → SliceResult
slice_cancelled reason consumed = record {
  status = SliceStatus.cancelled;
  work_units_consumed = consumed;
  message = reason;
}
