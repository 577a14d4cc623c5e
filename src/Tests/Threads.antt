-- ===== src/Tests/Threads.antt =====
-- Small engines of src/task_engine.cpp with one worker: a job is submitted, pushed and fetched; one is
-- drained by a shutdown while the worker leaves; and one is cancelled between the halves of its
-- submission while the engine shuts down.
use omni_sched.Base.{arith, ℕ, List, ok, pos, text, true, false, none, some, [], ◌∷◌, ◌≡◌, refl}
use omni_sched.Types.{
  JobState, ShutdownMode, SchedulerKind, SchedulerConfig, SubmissionOptions, slice_yielded,
}
use omni_sched.Scheduler
use omni_sched.Scheduler.{make_scheduler, push, drain, empty, slice_budget}
use omni_sched.Scheduler.Fifo
use omni_sched.Scheduler.Entry.{drain_container}
use omni_sched.Scheduler.Contract.{contents}
use omni_sched.Wal.Append.{WalManager, wal_journal}
use omni_sched.Engine.Job.{
  JobRecord, new_record, finish_locked, finish_after, persist_transition_locked, publish,
}
use omni_sched.Engine.Registry.{find_record, emplace, store}
use omni_sched.Engine.Queue
use omni_sched.Engine.Queue.{push_external, close_and_drain_pending}
use omni_sched.Engine.State
use omni_sched.Engine.State.{Engine, Worker, enter, put_record}
use omni_sched.Engine.Control.{
  all_exited, cancel, cancel_found, cancel_live, is_waiting, shutdown_begin, cancels_pending,
  cancel_all, cancel_pending,
}
use omni_sched.Engine.Worker.{returns, fetch, after_pop}
use omni_sched.Engine.Step.{Action, step, work, place, worker_step, fetched}
use omni_sched.Engine.Submit.{
  submit_begin, accept, take_identity, journal_submission, submission_snapshot, submission_entry,
  submit_end, take_pending, push_pending, finish_in,
}
use omni_sched.Engine.Outcome.{IsEnded}
use omni_sched.Engine.Moves.{Changes, Lifts}
use omni_sched.Engine.Final.{move-Changes, run-final}
use omni_sched.Engine.StepPlaces.{Accounted}
use omni_sched.Engine.Ended.{run-IsEnded}
use omni_sched.Engine.Invariant.{RunsAlone}
use omni_sched.Engine.Sections.{
  System, Move, submit_draw, behind_journal, close_queue, drained_pushes, drained_entries,
  undrained, without, begun, followed_by, cancel_drained, proceed, proceed_at, move, run_moves,
}
use omni_sched.Engine.Reached.{
  AdmitsAll, Reachable, Reachable-Accounted, Reachable-RunsAlone, run_moves-Reachable,
}

abbrev plain : SchedulerConfig
plain = record { kind = SchedulerKind.fifo; quantum = 1 }

abbrev started_queue : Queue.TaskQueue
started_queue = record {
  scheduler = Scheduler.fifo (record { entries = [] });
  config = plain;
  closed = false;
}

abbrev pub started : Engine WalManager
started = record {
  queue = started_queue;
  records = [];
  next_job_id = 1;
  next_sequence = 0;
  accepting = true;
  journal = none;
  workers = Worker.idle ∷ [];
  pending = [];
}

started_lem : State.init plain 1 none ≡ ok started
unfolding State.init Queue.init make_scheduler Fifo.init State.idle_workers
started_lem = refl

abbrev at_start : System WalManager
at_start = record { engine = started; calls = [] }

at_start-Reachable : Reachable at_start
at_start-Reachable = Reachable.initially plain 1 none started_lem

abbrev two_units : SubmissionOptions
two_units = record {
  name = text "two";
  priority = pos 0;
  estimated_work_units = 2;
  durable_spec = none;
}

abbrev submitted : Engine WalManager
submitted = step (Action.submits two_units) started

abbrev pub pushed : Engine WalManager
pushed = step (Action.pushes 1) submitted

pushed-Reachable : Reachable (record { engine = pushed; calls = [] })
unfolding move
pushed-Reachable =
    Reachable.after (Move.whole (Action.pushes 1)) tt (
      Reachable.after (Move.whole (Action.submits two_units)) (omega arith, refl)
        at_start-Reachable)

pub pushed-Accounted : (x : ℕ) → Accounted x pushed
pushed-Accounted x = Reachable-Accounted pushed-Reachable x

abbrev works : Move
works = Move.whole (Action.works 0 (returns (slice_yielded 1)))

abbrev pub served : Engine WalManager
served = step (Action.works 0 (returns (slice_yielded 1))) pushed

abbrev sliced : System WalManager
sliced = record { engine = step (Action.works 0 (returns (slice_yielded 1))) served; calls = [] }

pub sliced-Reachable : Reachable sliced
unfolding move
sliced-Reachable = Reachable.after works tt (Reachable.after works tt pushed-Reachable)

-- The worker is in its slice.
Reachable-RunsAlone_example : RunsAlone 1 sliced.engine
Reachable-RunsAlone_example = Reachable-RunsAlone sliced-Reachable 1

-- `submit` in its sections, and a shutdown that drains the job.
abbrev drains : List Move
drains =
    Move.draws two_units
    ∷ Move.proceeds 0
    ∷ Move.proceeds 0
    ∷ Move.whole (Action.pushes 1)
    ∷ Move.closes ShutdownMode.cancel_pending
    ∷ []

abbrev drained : System WalManager
drained = run_moves drains at_start

drains_admitted : AdmitsAll drains at_start
unfolding move submit_draw take_identity begun followed_by proceed proceed_at without behind_journal
    journal_submission
drains_admitted = (omega arith, (tt, (tt, (tt, (tt, tt)))))

drained-Reachable : Reachable drained
drained-Reachable = run_moves-Reachable drains at_start drains_admitted at_start-Reachable

-- The drained job waits for the loop of the shutdown.
Reachable-Accounted_example : Accounted 1 drained.engine
Reachable-Accounted_example = Reachable-Accounted drained-Reachable 1

-- The loop cancels it.
move-Changes_example :
    Lifts Changes
      (find_record 1 drained.engine.records)
      (find_record 1 (move Move.cancels_drained drained).engine.records)
move-Changes_example =
    move-Changes Move.cancels_drained drained (Reachable-Accounted drained-Reachable) 1

-- The worker leaves before the loop.
abbrev all_moves : List Move
all_moves =
    Move.draws two_units
    ∷ Move.proceeds 0
    ∷ Move.proceeds 0
    ∷ Move.whole (Action.pushes 1)
    ∷ Move.closes ShutdownMode.cancel_pending
    ∷ works
    ∷ Move.cancels_drained
    ∷ []

abbrev drained_record : JobRecord
drained_record = record {
  snapshot = record {
    id = 1;
    name = text "two";
    state = JobState.cancelled;
    priority = pos 0;
    estimated_work_units = 2;
    work_units_consumed = 0;
    submission_sequence = 0;
    message = text "cancelled during engine shutdown";
  };
  entry = record { id = 1; priority = pos 0; estimated_work_units = 2; submission_sequence = 0 };
  stop_requested = true;
  promise =
      record {
        id = 1;
        state = JobState.cancelled;
        message = text "cancelled during engine shutdown";
        work_units_consumed = 0;
      }
      ∷ [];
  result_published = true;
}

abbrev at_end : Engine WalManager
at_end = (run_moves all_moves at_start).engine

moves_admitted : AdmitsAll all_moves at_start
unfolding move submit_draw take_identity begun followed_by proceed proceed_at without behind_journal
    journal_submission
moves_admitted = (omega arith, (tt, (tt, (tt, (tt, (tt, (tt, tt)))))))

at_end_lem :
    (at_end.pending ≡ [])
    × (all_exited at_end.workers ≡ true)
    × (find_record 1 at_end.records ≡ some drained_record)
unfolding step submit_begin accept enter emplace find_record take_identity journal_submission
    submission_snapshot submission_entry submit_end take_pending push_pending push_external work
    place worker_step fetched fetch after_pop Queue.pop Scheduler.empty Fifo.empty cancel
    cancel_found cancel_live put_record store finish_in finish_locked persist_transition_locked
    finish_after publish new_record is_waiting shutdown_begin cancels_pending
    close_and_drain_pending cancel_all all_exited text run_moves move submit_draw begun followed_by
    proceed proceed_at without behind_journal close_queue drained_pushes drained_entries undrained
    cancel_drained Scheduler.push Scheduler.drain Fifo.push Fifo.drain drain_container
    cancel_pending
at_end_lem = (refl, refl, refl)

run-IsEnded_example :
    (contents at_end.queue.scheduler ≡ [])
    × ((x : ℕ) (r : JobRecord) → find_record x at_end.records ≡ some r → IsEnded r)
run-IsEnded_example =
    run-IsEnded plain 0 none started all_moves started_lem moves_admitted at_end_lem.0 at_end_lem.1

-- Between the two halves of its submission a job is cancelled.
abbrev cancelled_early : Engine WalManager
cancelled_early = step (Action.cancels 1) submitted

abbrev the_record : JobRecord
the_record = record {
  snapshot = record {
    id = 1;
    name = text "two";
    state = JobState.cancelled;
    priority = pos 0;
    estimated_work_units = 2;
    work_units_consumed = 0;
    submission_sequence = 0;
    message = text "cancelled before execution";
  };
  entry = record { id = 1; priority = pos 0; estimated_work_units = 2; submission_sequence = 0 };
  stop_requested = true;
  promise =
      record {
        id = 1;
        state = JobState.cancelled;
        message = text "cancelled before execution";
        work_units_consumed = 0;
      }
      ∷ [];
  result_published = true;
}

-- The cancelled job keeps its record through the shutdown.
cancelled-Reachable : Reachable (record { engine = cancelled_early; calls = [] })
unfolding move
cancelled-Reachable =
    Reachable.after (Move.whole (Action.cancels 1)) tt (
      Reachable.after (Move.whole (Action.submits two_units)) (omega arith, refl)
        at_start-Reachable)

abbrev closing : List Move
closing =
    Move.closes ShutdownMode.cancel_pending
    ∷ Move.whole (Action.pushes 1)
    ∷ Move.cancels_drained
    ∷ works
    ∷ []

cancelled_lem : find_record 1 cancelled_early.records ≡ some the_record
unfolding step submit_begin accept enter emplace find_record take_identity journal_submission
    submission_snapshot submission_entry cancel cancel_found cancel_live put_record store
    finish_locked persist_transition_locked finish_after publish new_record is_waiting text
cancelled_lem = refl

run-final_example :
    find_record 1
      (run_moves closing (record { engine = cancelled_early; calls = [] })).engine.records
    ≡ some the_record
run-final_example =
    run-final closing (record { engine = cancelled_early; calls = [] }) 1 the_record
      cancelled-Reachable (tt, (tt, (tt, (tt, tt)))) cancelled_lem refl
