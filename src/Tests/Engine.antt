-- ===== src/Tests/Engine.antt =====
-- The scheduler of a small engine of src/task_engine.cpp is changed, and a job is cancelled before and
-- during its slice.
use omni_sched.Base.{ℕ, get_elem?, pos, text, true, false, some, [], ◌∷◌, ◌≡◌, refl}
use omni_sched.Types.{JobState, SchedulerKind, SchedulerConfig, slice_yielded, unlimited_work}
use omni_sched.Scheduler
use omni_sched.Scheduler.{make_scheduler, push, drain, empty, slice_budget}
use omni_sched.Scheduler.Fifo
use omni_sched.Wal.Append.{WalManager, wal_journal}
use omni_sched.Engine.Job.{JobRecord, new_record, persist_transition_locked}
use omni_sched.Engine.Registry.{find_record, emplace, store}
use omni_sched.Engine.Queue
use omni_sched.Engine.Queue.{push_external, close_and_drain_pending}
use omni_sched.Engine.State.{Engine, Worker, enter, put_record}
use omni_sched.Engine.Control.{cancel, cancel_found, cancel_live, is_waiting}
use omni_sched.Engine.Worker.{returns, fetch, after_pop, start, start_found, is_ready, finish_slice}
use omni_sched.Engine.Worker
use omni_sched.Engine.Step.{Action, step, work, place, worker_step, fetched}
use omni_sched.Engine.Submit.{
  submit_begin, accept, take_identity, journal_submission, submission_snapshot, submission_entry,
  submit_end, take_pending, push_pending,
}
use omni_sched.Engine.Cancelled.{Cancels, EndsAt, cancel-Cancels, finish_slice-EndsAt}
use omni_sched.Engine.Replaced.{Replaces, set_scheduler-Replaces}
use omni_sched.Engine.StepPlaces.{Accounted}
use omni_sched.Engine.Sections.{Move, move}
use omni_sched.Engine.Reached.{Reachable, Reachable-Accounted}
use omni_sched.Tests.Threads.{pushed, pushed-Accounted, served, sliced-Reachable}

-- Two waiting jobs change to a round-robin.
abbrev waiting_queue : Queue.TaskQueue
waiting_queue = record {
  scheduler = Scheduler.priority (record {
    entries =
        record { id = 1; priority = pos 4; estimated_work_units = 2; submission_sequence = 0 }
        ∷ record { id = 2; priority = pos 7; estimated_work_units = 9; submission_sequence = 1 }
        ∷ [];
  });
  config = record { kind = SchedulerKind.priority; quantum = 1 };
  closed = false;
}

abbrev in_turns : SchedulerConfig
in_turns = record { kind = SchedulerKind.round_robin; quantum = 3 }

set_scheduler-Replaces_example :
    Replaces in_turns waiting_queue (Queue.set_scheduler in_turns waiting_queue)
set_scheduler-Replaces_example = set_scheduler-Replaces in_turns waiting_queue

cancel-Cancels_example : Cancels 1 (find_record 1 pushed.records) pushed (cancel 1 pushed)
cancel-Cancels_example = cancel-Cancels 1 pushed pushed-Accounted

-- The worker is in a slice of the job when the job is cancelled.
abbrev sliced : Engine WalManager
sliced = step (Action.works 0 (returns (slice_yielded 1))) served

abbrev stopping : Engine WalManager
stopping = step (Action.cancels 1) sliced

stopping-Accounted : (x : ℕ) → Accounted x stopping
unfolding move
stopping-Accounted x =
    Reachable-Accounted (Reachable.after (Move.whole (Action.cancels 1)) tt sliced-Reachable) x

abbrev stopping_record : JobRecord
stopping_record = record {
  snapshot = record {
    id = 1;
    name = text "two";
    state = JobState.running;
    priority = pos 0;
    estimated_work_units = 2;
    work_units_consumed = 0;
    submission_sequence = 0;
    message = [];
  };
  entry = record { id = 1; priority = pos 0; estimated_work_units = 2; submission_sequence = 0 };
  stop_requested = true;
  promise = [];
  result_published = false;
}

stopping_lem :
    (get_elem? stopping.workers 0 ≡ some (Worker.running 1 unlimited_work))
    × (find_record 1 stopping.records ≡ some stopping_record)
unfolding step submit_begin accept enter emplace find_record take_identity journal_submission
    submission_snapshot submission_entry submit_end take_pending push_pending push_external work
    place worker_step fetched fetch after_pop Queue.pop Queue.dispatch Scheduler.push Scheduler.pop
    Scheduler.empty Scheduler.slice_budget Fifo.push Fifo.pop Fifo.empty Fifo.slice_budget start
    start_found Worker.started is_ready cancel cancel_found cancel_live put_record store
    persist_transition_locked new_record is_waiting text
stopping_lem = (refl, refl)

finish_slice-EndsAt_example :
    EndsAt (find_record 1 (finish_slice 1 (returns (slice_yielded 1)) stopping).0.records)
finish_slice-EndsAt_example =
    finish_slice-EndsAt 0 1 unlimited_work (returns (slice_yielded 1)) stopping stopping_record
      stopping-Accounted stopping_lem.0 stopping_lem.1 refl
