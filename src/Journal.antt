-- ===== src/Journal.antt =====
-- include/kronos/journal.hpp: the two records of the journal, and the interface between the task
-- engine and the write-ahead log.
use omni_sched.Base.{ℕ, ℤ, Bytes, Result}
use omni_sched.Types.{JobState, DurableTaskSpec}

pub record JobSubmissionRecord : Type 0 where
  pub id : ℕ
  pub submission_sequence : ℕ
  pub name : Bytes
  pub priority : ℤ
  pub estimated_work_units : ℕ
  pub task : DurableTaskSpec

pub record JobTransitionRecord : Type 0 where
  pub id : ℕ
  pub state : JobState
  pub work_units_consumed : ℕ
  pub message : Bytes

-- The state of a journal and what each call makes of it: an exception prevents the transition.
pub record IJobJournal (J : Type 0) : Type 0 where
  pub append_submission : JobSubmissionRecord → J → J × Result (Unit {0})
  pub append_transition : JobTransitionRecord → J → J × Result (Unit {0})
