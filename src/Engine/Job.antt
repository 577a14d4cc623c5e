-- ===== src/Engine/Job.antt =====
-- `JobRecord` of src/task_engine.cpp and the functions that change one under the registry lock.
use omni_sched.Base.{
  Bytes, text, Bool, true, false, Option, none, some, List, [], ◌∷◌, ◌++◌, if◌then◌else◌, what,
  Result, ok, err,
}
use omni_sched.Types.{JobState, JobSnapshot, JobResult}
use omni_sched.Scheduler.Entry.{SchedulerEntry}
use omni_sched.Journal.{JobTransitionRecord, IJobJournal}

-- `promise` holds the values that `set_value` was called with. The task itself is not in the record:
-- what a slice of it returns is an argument of the step.
pub record JobRecord : Type 0 where
  pub snapshot : JobSnapshot
  pub entry : SchedulerEntry
  pub stop_requested : Bool
  pub promise : List JobResult
  pub result_published : Bool

-- `JobRecord::JobRecord`.
unfoldable pub new_record : JobSnapshot → SchedulerEntry → JobRecord
new_record initial_snapshot scheduler_entry = record {
  snapshot = initial_snapshot;
  entry = scheduler_entry;
  stop_requested = false;
  promise = [];
  result_published = false;
}

-- The state, the message and the result of a job that ends.
unfoldable pub publish : JobRecord → JobState → Bytes → JobRecord
publish r state message = record r {
  snapshot = record (r.snapshot) { state = state; message = message };
  result_published = true;
  promise =
      r.promise
      ++ record {
        id = r.snapshot.id;
        state = state;
        message = message;
        work_units_consumed = r.snapshot.work_units_consumed;
      }
        ∷ [];
}

unfoldable pub fail_without_journal_locked : JobRecord → Bytes → JobRecord
fail_without_journal_locked r message =
    if r.result_published then r else publish r JobState.failed message

unfoldable pub transition_record : JobRecord → JobState → Bytes → JobTransitionRecord
transition_record r state message = record {
  id = r.snapshot.id;
  state = state;
  work_units_consumed = r.snapshot.work_units_consumed;
  message = message;
}

-- The outcome of an append: on an exception the job fails and the transition does not take place.
unfoldable pub after_append :
    {J : Type 0} → JobRecord → J × Result (Unit {0}) → Bool × JobRecord × Option J
after_append r (j, ok _) = (true, r, some j)
after_append r (j, err e) =
    (false, fail_without_journal_locked r (text "write-ahead log failure: " ++ what e), some j)

module _ {J : Type 0} ⦃impl : IJobJournal J⦄ where
  unfoldable pub persist_transition_locked :
      JobRecord → JobState → Bytes → Option J → Bool × JobRecord × Option J
  persist_transition_locked r state message none = (true, r, none)
  persist_transition_locked r state message (some j) =
      after_append r (impl.append_transition (transition_record r state message) j)

  unfoldable pub finish_after :
      JobState → Bytes → Bool × JobRecord × Option J → JobRecord × Option J
  finish_after state message (true, r, journal) = (publish r state message, journal)
  finish_after state message (false, r, journal) = (r, journal)

  unfoldable pub finish_locked : JobRecord → JobState → Bytes → Option J → JobRecord × Option J
  finish_locked r state message journal =
      if r.result_published
      then (r, journal)
      else finish_after state message (persist_transition_locked r state message journal)
