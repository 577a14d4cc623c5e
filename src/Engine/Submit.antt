-- ===== src/Engine/Submit.antt =====
-- `submit`, `restore` and `reserve_recovered_identity` of src/task_engine.cpp. `submit` and `restore`
-- are two steps here, up to the map and `push_external` with what follows, as for a client that no other
-- client interrupts before the map; `Engine.Sections` cuts them into all their critical sections.
use omni_sched.Base.{
  ℕ, Bytes, text, is_empty, true, false, Option, none, some, List, [], ◌∷◌, ◌||◌, ◌&&◌, ◌==◌, not,
  if◌then◌else◌, invalid_argument, logic_error, Result, ok, err,
}
use omni_sched.Types.{JobState, DurableTaskSpec, SubmissionOptions, JobSnapshot}
use omni_sched.Scheduler.Entry.{SchedulerEntry}
use omni_sched.Journal.{JobSubmissionRecord, IJobJournal}
use omni_sched.Engine.Queue.{push_external}
use omni_sched.Engine.Job.{JobRecord, new_record, finish_locked}
use omni_sched.Engine.Registry.{find_record}
use omni_sched.Engine.State.{Engine, Push, next, advance_counter, enter, put_record}

unfoldable pub submission_snapshot : ℕ → ℕ → SubmissionOptions → JobSnapshot
submission_snapshot id sequence options = record {
  id = id;
  name = if is_empty options.name then text "task" else options.name;
  state = JobState.ready;
  priority = options.priority;
  estimated_work_units = options.estimated_work_units;
  work_units_consumed = 0;
  submission_sequence = sequence;
  message = [];
}

unfoldable pub submission_entry : ℕ → ℕ → SubmissionOptions → SchedulerEntry
submission_entry id sequence options = record {
  id = id;
  priority = options.priority;
  estimated_work_units = options.estimated_work_units;
  submission_sequence = sequence;
}

-- The two `fetch_add`.
unfoldable pub take_identity : {J : Type 0} → Engine J → Engine J
take_identity e = record e {
  next_job_id = next e.next_job_id;
  next_sequence = next e.next_sequence;
}

-- The durable specification that a journaled submission needs.
unfoldable pub durable_spec : Option DurableTaskSpec → Result DurableTaskSpec
durable_spec none =
    err (invalid_argument (text "journaled submissions require a durable task specification"))
durable_spec (some spec) =
    if is_empty spec.type
    then err (invalid_argument (text "journaled submissions require a durable task specification"))
    else ok spec

-- The journal's answer to an append: an exception leaves the call.
unfoldable pub journaled :
    {J : Type 0} → Engine J → J × Result (Unit {0}) → Engine J × Result (Unit {0})
journaled e (j, result) = (record e { journal = some j }, result)

-- What follows the journal in `submit`, up to the map.
unfoldable pub accept :
    {J : Type 0} → Push → JobSnapshot → Engine J × Result (Unit {0}) → Engine J × Result ℕ
accept push initial (e, err error) = (e, err error)
accept push initial (e, ok _) = (enter push (new_record initial push.entry) e, ok push.entry.id)

-- What follows it in `restore`: the ID must be new, and the counters pass it.
unfoldable pub accept_restored :
    {J : Type 0} → Push → JobSnapshot → Engine J × Result (Unit {0}) → Engine J × Result ℕ
accept_restored push initial (e, err error) = (e, err error)
accept_restored push initial (e, ok _) = elim (find_record push.entry.id e.records) [
  | some old ↦ (e, err (invalid_argument (text "recovered job ID already exists")))
  | none ↦ (
    record (enter push (new_record initial push.entry) e) {
      next_job_id = advance_counter e.next_job_id (next push.entry.id);
      next_sequence = advance_counter e.next_sequence (next push.entry.submission_sequence);
    },
    ok push.entry.id,
  )
]

unfoldable pub restored_snapshot : JobSubmissionRecord → JobSnapshot
restored_snapshot submission = record {
  id = submission.id;
  name = submission.name;
  state = JobState.ready;
  priority = submission.priority;
  estimated_work_units = submission.estimated_work_units;
  work_units_consumed = 0;
  submission_sequence = submission.submission_sequence;
  message = text "recovered after restart";
}

unfoldable pub restored_entry : JobSubmissionRecord → SchedulerEntry
restored_entry submission = record {
  id = submission.id;
  priority = submission.priority;
  estimated_work_units = submission.estimated_work_units;
  submission_sequence = submission.submission_sequence;
}

unfoldable pub reserve_recovered_identity :
    {J : Type 0} → JobSubmissionRecord → Engine J → Engine J × Result (Unit {0})
reserve_recovered_identity submission e =
    if submission.id == 0
    then (e, err (invalid_argument (text "recovered job ID cannot be zero")))
    else (
      record e {
        next_job_id = advance_counter e.next_job_id (next submission.id);
        next_sequence = advance_counter e.next_sequence (next submission.submission_sequence);
      },
      ok tt,
    )

-- The pending call of `submit` or `restore` for a job ID, taken out of the others.
unfoldable pub take_pending : ℕ → List Push → Option (Push × List Push)
take_pending id [] = none
take_pending id (p ∷ ps) = elim (p.entry.id == id && not p.drained) [
  | true ↦ some (p, ps)
  | false ↦ elim (take_pending id ps) [ none ↦ none | some (q, qs) ↦ some (q, p ∷ qs) ]
]

module _ {J : Type 0} ⦃impl : IJobJournal J⦄ where
  unfoldable pub journal_with_spec :
      Result DurableTaskSpec → JobSnapshot → J → Engine J → Engine J × Result (Unit {0})
  journal_with_spec (err error) initial j e = (e, err error)
  journal_with_spec (ok spec) initial j e = journaled e (
      impl.append_submission
        (record {
          id = initial.id;
          submission_sequence = initial.submission_sequence;
          name = initial.name;
          priority = initial.priority;
          estimated_work_units = initial.estimated_work_units;
          task = spec;
        })
        j)

  -- `if (journal_) { … }` of `submit`.
  unfoldable pub journal_submission :
      Option J → JobSnapshot → SubmissionOptions → Engine J → Engine J × Result (Unit {0})
  journal_submission none initial options e = (e, ok tt)
  journal_submission (some j) initial options e =
      journal_with_spec (durable_spec options.durable_spec) initial j e

  -- `submit` up to the map; the caller holds a task. The result is the new job's ID.
  unfoldable pub submit_begin : SubmissionOptions → Engine J → Engine J × Result ℕ
  submit_begin options e =
      if options.estimated_work_units == 0
      then (e, err (invalid_argument (text "estimated work units must be greater than zero")))
      else if not e.accepting
      then (e, err (logic_error (text "task engine is not accepting submissions")))
      else (let initial = submission_snapshot e.next_job_id e.next_sequence options in
          let push : Push = record {
            entry = submission_entry e.next_job_id e.next_sequence options;
            raced = text "submission raced with engine shutdown";
            drained = false;
          } in
          accept push initial (journal_submission e.journal initial options (take_identity e)))

  unfoldable pub journal_restore :
      Option J → JobSubmissionRecord → Engine J → Engine J × Result (Unit {0})
  journal_restore none submission e = (e, ok tt)
  journal_restore (some j) submission e = journaled e (
      impl.append_transition
        (record {
          id = submission.id;
          state = JobState.ready;
          work_units_consumed = 0;
          message = text "recovered after restart";
        })
        j)

  -- `restore` up to the counters.
  unfoldable pub restore_begin : JobSubmissionRecord → Engine J → Engine J × Result ℕ
  restore_begin submission e =
      if submission.id == 0 || submission.estimated_work_units == 0 || is_empty submission.task.type
      then (e, err (invalid_argument (text "invalid recovered submission")))
      else if not e.accepting
      then (e, err (logic_error (text "task engine is not accepting recovered jobs")))
      else (let push : Push = record {
        entry = restored_entry submission;
        raced = text "recovery raced with engine shutdown";
        drained = false;
      } in
          accept_restored push (restored_snapshot submission)
            (journal_restore e.journal submission e))

  -- The job ends where it is, if the map has it.
  unfoldable pub finish_in : ℕ → JobState → Bytes → Option JobRecord → Engine J → Engine J
  finish_in id state message none e = e
  finish_in id state message (some r) e = put_record id e (finish_locked r state message e.journal)

  -- `if (!queue_.push_external(entry)) finish_locked(…)`, the end of both.
  unfoldable pub push_pending : Push → Engine J → Engine J
  push_pending p e =
      let (queue, pushed) = push_external e.queue p.entry in
      if pushed
      then record e { queue = queue }
      else finish_in p.entry.id JobState.cancelled p.raced (find_record p.entry.id e.records) e

  -- The second step of the call for a job ID.
  unfoldable pub submit_end : ℕ → Engine J → Engine J
  submit_end id e = elim (take_pending id e.pending) [
    | none ↦ e
    | some (p, ps) ↦ push_pending p (record e { pending = ps })
  ]
