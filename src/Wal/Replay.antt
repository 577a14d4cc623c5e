-- ===== src/Wal/Replay.antt =====
-- What the log means: its records in order, without the text.
use omni_sched.Base.{
  ℕ, ◌+◌, ◌≤◌, ℤ, Bytes, List, [], ◌∷◌, ◌++◌, none, some, ◌≢◌, Result, ok, err, ◌>>=◌, All, text,
  runtime_error,
}
use omni_sched.Journal.{JobSubmissionRecord, JobTransitionRecord}
use omni_sched.Codec.Hex.{IsByte}
use omni_sched.Codec.Number.{max_u64, InRange}
use omni_sched.Wal.Checksum.{with_checksum}
use omni_sched.Wal.Line.{submission_prefix, transition_prefix}
use omni_sched.Wal.Parse.{RecoveredJob, max_i32, max_i64, find, update, apply_submission, at_line}

-- A record and the time at which it was written.
pub data WalRecord : Type 0 where
  submission : ℤ → JobSubmissionRecord → WalRecord
  transition : ℤ → JobTransitionRecord → WalRecord

abbrev pub prefix_of : WalRecord → Bytes
prefix_of (submission now r) = submission_prefix now r
prefix_of (transition now r) = transition_prefix now r

abbrev pub line_of : WalRecord → Bytes
line_of r = with_checksum (prefix_of r)

-- The file to which the records were appended.
unfoldable pub log_of : List WalRecord → Bytes
log_of [] = []
log_of (r ∷ rs) = line_of r ++ log_of rs

-- The values fit their types, and the guards of the journal calls let the record pass.
pub record IsSubmission (r : JobSubmissionRecord) : Type 0 where
  pub id_fits : r.id ≤ max_u64
  pub id_set : r.id ≢ 0
  pub sequence_fits : r.submission_sequence ≤ max_u64
  pub priority_fits : InRange max_i32 r.priority
  pub estimate_fits : r.estimated_work_units ≤ max_u64
  pub estimate_set : r.estimated_work_units ≢ 0
  pub name_bytes : All IsByte r.name
  pub type_bytes : All IsByte r.task.type
  pub type_set : r.task.type ≢ []
  pub payload_bytes : All IsByte r.task.payload

pub record IsTransition (r : JobTransitionRecord) : Type 0 where
  pub id_fits : r.id ≤ max_u64
  pub id_set : r.id ≢ 0
  pub consumed_fits : r.work_units_consumed ≤ max_u64
  pub message_bytes : All IsByte r.message

abbrev pub IsWalRecord : WalRecord → Type 0
IsWalRecord (submission now r) = InRange max_i64 now × IsSubmission r
IsWalRecord (transition now r) = InRange max_i64 now × IsTransition r

-- A transition sets the state of the job, its work and its message.
unfoldable pub apply_transition :
    JobTransitionRecord → List RecoveredJob → Result (List RecoveredJob)
apply_transition r jobs = elim (find r.id jobs) [
  | none ↦ err (runtime_error (text "transition precedes submission"))
  | some job ↦ ok (
      update r.id
        (λ job. record job {
          state = r.state;
          work_units_consumed = r.work_units_consumed;
          message = r.message;
        })
        jobs)
]

unfoldable pub apply : WalRecord → List RecoveredJob → Result (List RecoveredJob)
apply (submission now r) jobs = apply_submission r jobs
apply (transition now r) jobs = apply_transition r jobs

-- The records in turn, the first at the given line.
unfoldable pub replay : ℕ → List WalRecord → List RecoveredJob → Result (List RecoveredJob)
replay line_number [] jobs = ok jobs
replay line_number (r ∷ rs) jobs = do
  jobs' ← at_line line_number (apply r jobs)
  replay (line_number + 1) rs jobs'
