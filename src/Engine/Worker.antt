-- ===== src/Engine/Worker.antt =====
-- `worker_loop` of src/task_engine.cpp, cut where another thread may act: a critical section is one
-- step, and so is the return of a slice.
use omni_sched.Base.{
  ℕ, ◌+◌, ◌%◌, ◌^◌, Bytes, text, is_empty, Bool, true, false, Option, none, some, [], if◌then◌else◌,
}
use omni_sched.Types.{JobState, SliceStatus, SliceResult, slice_failed}
use omni_sched.Scheduler.Entry.{SchedulerEntry}
use omni_sched.Journal.{IJobJournal}
use omni_sched.Engine.Queue
use omni_sched.Engine.Queue.{Dispatch, TaskQueue, requeue}
use omni_sched.Engine.Job.{JobRecord, persist_transition_locked, finish_locked}
use omni_sched.Engine.Registry.{find_record}
use omni_sched.Engine.State.{Engine, Worker, put_record}

-- What a call of `run_slice` does. The task is code of the engine's clients.
pub data Slice : Type 0 where
  returns : SliceResult → Slice
  throws : Bytes → Slice
  throws_unknown : Slice

-- The `try` block around the slice.
unfoldable pub slice_result : Slice → SliceResult
slice_result (returns result) = result
slice_result (throws error) = slice_failed error 0
slice_result throws_unknown = slice_failed (text "task threw an unknown exception") 0

unfoldable pub is_ready : JobState → Bool
is_ready JobState.ready = true
is_ready _ = false

-- `queue_.pop`; `none` while the worker waits. No stop is requested while a worker runs: its thread
-- is joined first.
unfoldable pub after_pop : {J : Type 0} → Engine J → Option Dispatch × TaskQueue → Engine J × Worker
after_pop e (none, queue) = (record e { queue = queue }, Worker.exited)
after_pop e (some d, queue) = (record e { queue = queue }, Worker.fetched d.entry d.budget)

unfoldable pub fetch : {J : Type 0} → Engine J → Option (Engine J × Worker)
unfolding after_pop
fetch e = elim (Queue.pop false e.queue) [ none ↦ none | some r ↦ some (after_pop e r) ]

-- The work is counted in 64 bits.
unfoldable pub consume : JobRecord → ℕ → JobRecord
consume r units = record r {
  snapshot = record (r.snapshot) {
    work_units_consumed = (r.snapshot.work_units_consumed + units) % 2 ^ 64;
  };
}

module _ {J : Type 0} ⦃impl : IJobJournal J⦄ where
  unfoldable pub started :
      SchedulerEntry → ℕ → Engine J → Bool × JobRecord × Option J → Engine J × Worker
  started entry budget e (false, r, journal) = (put_record entry.id e (r, journal), Worker.idle)
  started entry budget e (true, r, journal) = (
    put_record entry.id e
        (record r { snapshot = record (r.snapshot) { state = JobState.running } }, journal),
    Worker.running entry.id budget,
  )

  unfoldable pub start_found : SchedulerEntry → ℕ → Option JobRecord → Engine J → Engine J × Worker
  start_found entry budget none e = (e, Worker.idle)
  start_found entry budget (some r) e =
      if is_ready r.snapshot.state
      then started entry budget e (persist_transition_locked r JobState.running [] e.journal)
      else (e, Worker.idle)

  -- From `find_record` to the call of the slice.
  unfoldable pub start : SchedulerEntry → ℕ → Engine J → Engine J × Worker
  unfolding start_found
  start entry budget e = start_found entry budget (find_record entry.id e.records) e

  -- A job that yields is ready again, once the journal has it.
  unfoldable pub yielded : ℕ → Bytes → Engine J → Bool × JobRecord × Option J → Engine J × Worker
  yielded id message e (false, r, journal) = (put_record id e (r, journal), Worker.idle)
  yielded id message e (true, r, journal) = (
    put_record id e (
      record r { snapshot = record (r.snapshot) { state = JobState.ready; message = message } },
      journal,
    ),
    Worker.requeues r.entry,
  )

  -- `finish_locked`, and back to the queue.
  unfoldable pub ended : ℕ → JobRecord → JobState → Bytes → Engine J → Engine J × Worker
  ended id r state message e =
      (put_record id e (finish_locked r state message e.journal), Worker.idle)

  -- The `switch` on the status of the result.
  unfoldable pub settle : ℕ → JobRecord → SliceStatus → Bytes → Engine J → Engine J × Worker
  settle id r SliceStatus.yielded message e =
      if r.stop_requested
      then ended id r JobState.cancelled
          (if is_empty message then text "cancellation requested" else message) e
      else yielded id message e (persist_transition_locked r JobState.ready message e.journal)
  settle id r SliceStatus.completed message e = ended id r JobState.completed message e
  settle id r SliceStatus.failed message e = ended id r JobState.failed message e
  settle id r SliceStatus.cancelled message e = ended id r JobState.cancelled message e

  unfoldable pub finish_found : ℕ → SliceResult → Option JobRecord → Engine J → Engine J × Worker
  finish_found id result none e = (e, Worker.idle)
  finish_found id result (some r) e =
      settle id (consume r result.work_units_consumed) result.status result.message e

  -- The slice has returned.
  unfoldable pub finish_slice : ℕ → Slice → Engine J → Engine J × Worker
  unfolding finish_found
  finish_slice id slice e = finish_found id (slice_result slice) (find_record id e.records) e
