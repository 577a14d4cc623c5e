-- ===== src/Wal/Parse.antt =====
-- One line of the log as `recover` of src/wal.cpp reads it.
use omni_sched.Base.{
  ℕ, ◌-◌, ◌^◌, ℤ, Bytes, text, text_eq, is_empty, Bool, List, [], ◌∷◌, ◌++◌, Option, none, some,
  ◌||◌, ◌==◌, not, if◌then◌else◌, runtime_error, what, Result, ok, err, ◌>>=◌, ◌>>◌, guard,
}
use omni_sched.Types.{JobState}
use omni_sched.Journal.{JobSubmissionRecord}
use omni_sched.Codec.Hex.{hex_decode_with}
use omni_sched.Codec.Split.{split_at}
use omni_sched.Codec.Number.{max_u64, to_string, from_chars, from_chars_signed}
use omni_sched.Wal.Checksum.{validate_checksum}

abbrev pub max_i32 : ℕ
max_i32 = 2 ^ 31 - 1

abbrev pub max_i64 : ℕ
max_i64 = 2 ^ 63 - 1

pub record RecoveredJob : Type 0 where
  pub submission : JobSubmissionRecord
  pub state : JobState
  pub work_units_consumed : ℕ
  pub message : Bytes

pub record RecoveryReport : Type 0 where
  pub jobs : List RecoveredJob
  pub ignored_incomplete_tail : Bool

unfoldable pub hex_decode : Bytes → Result Bytes
hex_decode =
    hex_decode_with (runtime_error (text "WAL contains an invalid hex field"))
      (runtime_error (text "WAL contains an invalid hex field"))

-- `from_chars` has to succeed and to end where the field ends.
parse_whole : {A : Type 0} → Bytes → Option (A × Bytes) → Result A
parse_whole field_name none = err (runtime_error (text "WAL contains an invalid " ++ field_name))
parse_whole field_name (some (parsed, rest)) =
    if is_empty rest
    then ok parsed
    else err (runtime_error (text "WAL contains an invalid " ++ field_name))

-- `parse_integer` at the unsigned types and at the signed ones.
unfoldable pub parse_integer : ℕ → Bytes → Bytes → Result ℕ
unfolding parse_whole
parse_integer max value field_name = parse_whole field_name (from_chars max value)

unfoldable pub parse_signed : ℕ → Bytes → Bytes → Result ℤ
unfolding parse_whole
parse_signed max value field_name = parse_whole field_name (from_chars_signed max value)

unfoldable pub parse_state : Bytes → Result JobState
parse_state state =
    if text_eq state (text "NEW")
    then ok JobState.new
    else if text_eq state (text "READY")
    then ok JobState.ready
    else if text_eq state (text "RUNNING")
    then ok JobState.running
    else if text_eq state (text "COMPLETED")
    then ok JobState.completed
    else if text_eq state (text "FAILED")
    then ok JobState.failed
    else if text_eq state (text "CANCELLED")
    then ok JobState.cancelled
    else err (runtime_error (text "WAL contains an unknown job state"))

-- The map from job IDs, its entries in the order in which they were made.
unfoldable pub find : ℕ → List RecoveredJob → Option RecoveredJob
find id [] = none
find id (job ∷ jobs) = if job.submission.id == id then some job else find id jobs

-- `found->second` is assigned to.
unfoldable pub update : ℕ → (RecoveredJob → RecoveredJob) → List RecoveredJob → List RecoveredJob
update id f [] = []
update id f (job ∷ jobs) = if job.submission.id == id then f job ∷ jobs else job ∷ update id f jobs

-- A submission enters the map, unless its ID is there.
unfoldable pub apply_submission :
    JobSubmissionRecord → List RecoveredJob → Result (List RecoveredJob)
apply_submission submission jobs = elim (find submission.id jobs) [
  | some job ↦ err (runtime_error (text "duplicate job submission"))
  | none ↦ ok (
      jobs
      ++ record {
        submission = submission;
        state = JobState.ready;
        work_units_consumed = 0;
        message = [];
      }
        ∷ [])
]

-- The fields behind the record type, the checksum last.
unfoldable pub recover_submission : List Bytes → List RecoveredJob → Result (List RecoveredJob)
recover_submission (f2 ∷ f3 ∷ f4 ∷ f5 ∷ f6 ∷ f7 ∷ f8 ∷ f9 ∷ f10 ∷ []) jobs = do
  timestamp ← parse_signed max_i64 f2 (text "timestamp")
  id ← parse_integer max_u64 f3 (text "job ID")
  sequence ← parse_integer max_u64 f4 (text "submission sequence")
  priority ← parse_signed max_i32 f5 (text "priority")
  estimate ← parse_integer max_u64 f6 (text "work estimate")
  name ← hex_decode f7
  type ← hex_decode f8
  payload ← hex_decode f9
  guard (not (id == 0 || estimate == 0 || is_empty type))
      (runtime_error (text "invalid submission record values"))
  apply_submission
      (record {
        id = id;
        submission_sequence = sequence;
        name = name;
        priority = priority;
        estimated_work_units = estimate;
        task = record { type = type; payload = payload };
      })
      jobs
recover_submission _ jobs = err (runtime_error (text "invalid submission record field count"))

-- The map holds the job; its fields are assigned in turn, and a field that does not parse leaves the
-- map by an exception.
unfoldable pub recover_transition : List Bytes → List RecoveredJob → Result (List RecoveredJob)
recover_transition (f2 ∷ f3 ∷ f4 ∷ f5 ∷ f6 ∷ f7 ∷ []) jobs = do
  timestamp ← parse_signed max_i64 f2 (text "timestamp")
  id ← parse_integer max_u64 f3 (text "job ID")
  found ← elim (find id jobs) [
    | none ↦ err (runtime_error (text "transition precedes submission"))
    | some job ↦ ok job
  ]
  state ← parse_state f4
  consumed ← parse_integer max_u64 f5 (text "consumed work")
  message ← hex_decode f6
  ok (
      update id
        (λ job. record job { state = state; work_units_consumed = consumed; message = message })
        jobs)
recover_transition _ jobs = err (runtime_error (text "invalid transition record field count"))

unfoldable pub recover_fields : List Bytes → List RecoveredJob → Result (List RecoveredJob)
recover_fields (version ∷ type ∷ rest) jobs =
    if not (text_eq version (text "K1"))
    then err (runtime_error (text "unsupported WAL record version"))
    else if text_eq type (text "S")
    then recover_submission rest jobs
    else if text_eq type (text "T")
    then recover_transition rest jobs
    else err (runtime_error (text "unknown WAL record type"))
recover_fields _ jobs = err (runtime_error (text "unsupported WAL record version"))

-- The body of the `try` block.
unfoldable pub recover_record : Bytes → List RecoveredJob → Result (List RecoveredJob)
recover_record line jobs = do
  let fields = split_at b'|' line
  validate_checksum line fields
  recover_fields fields jobs

-- The `catch` block.
unfoldable pub at_line : {A : Type 0} → ℕ → Result A → Result A
at_line line_number (ok a) = ok a
at_line line_number (err e) = err (
    runtime_error
      (text "invalid WAL record at line " ++ (to_string line_number ++ (text ": " ++ what e))))

unfoldable pub recover_line : ℕ → Bytes → List RecoveredJob → Result (List RecoveredJob)
recover_line line_number line jobs =
    if is_empty line
    then err (runtime_error (text "empty WAL record at line " ++ to_string line_number))
    else at_line line_number (recover_record line jobs)
