-- ===== src/Engine/State.antt =====
-- `TaskEngine::Impl` of src/task_engine.cpp: its state.
use omni_sched.Base.{
  ℕ, zero, suc, ◌+◌, ◌%◌, ◌^◌, Bytes, Bool, true, Option, List, [], ◌∷◌, ◌==◌, not, ltb,
  if◌then◌else◌, Result, ok, ◌>>=◌,
}
use omni_sched.Types.{SchedulerConfig}
use omni_sched.Scheduler.Entry.{SchedulerEntry}
use omni_sched.Engine.Queue
use omni_sched.Engine.Queue.{TaskQueue}
use omni_sched.Engine.Job.{JobRecord}
use omni_sched.Engine.Registry.{Registry, store, emplace}

-- Where a worker thread is in `worker_loop`.
pub data Worker : Type 0 where
  -- before `queue_.pop`
  idle : Worker
  -- it has a dispatch and has not looked at the record
  fetched : SchedulerEntry → ℕ → Worker
  -- it runs a slice of the job with this ID
  running : ℕ → ℕ → Worker
  -- it is about to requeue
  requeues : SchedulerEntry → Worker
  exited : Worker

-- What a call has still to do with an entry that is in nobody's hands. A call of `submit` or `restore`
-- is about to push it, and notes `raced` on the job if the queue is closed by then; or `shutdown` has
-- drained it, and its loop has still to cancel the job.
pub record Push : Type 0 where
  pub entry : SchedulerEntry
  pub raced : Bytes
  pub drained : Bool

-- `pending` holds the calls of `submit` and `restore` that have put their record into the map and have
-- not come to `push_external`, and the entries that `shutdown` has drained and not come to cancel.
pub record Engine (J : Type 0) : Type 0 where
  pub queue : TaskQueue
  pub records : Registry
  pub next_job_id : ℕ
  pub next_sequence : ℕ
  pub accepting : Bool
  pub journal : Option J
  pub workers : List Worker
  pub pending : List Push

-- The counters are 64 bits wide.
abbrev pub next : ℕ → ℕ
next n = (n + 1) % 2 ^ 64

-- A loop of `compare_exchange_weak`: the counter is not lowered.
unfoldable pub advance_counter : ℕ → ℕ → ℕ
advance_counter current desired = if ltb current desired then desired else current

unfoldable pub resolved_worker_count : ℕ → ℕ → ℕ
resolved_worker_count requested detected =
    if not (requested == 0) then requested else if detected == 0 then 1 else detected

unfoldable pub idle_workers : ℕ → List Worker
idle_workers zero = []
idle_workers (suc n) = idle ∷ idle_workers n

unfoldable pub init : {J : Type 0} → SchedulerConfig → ℕ → Option J → Result (Engine J)
init config worker_count journal = do
  queue ← Queue.init config
  ok (record {
    queue = queue;
    records = [];
    next_job_id = 1;
    next_sequence = 0;
    accepting = true;
    journal = journal;
    workers = idle_workers worker_count;
    pending = [];
  })

-- The record of an accepted job enters the map, and its entry waits for `push_external`. An ID that
-- is there keeps its record.
unfoldable pub enter : {J : Type 0} → Push → JobRecord → Engine J → Engine J
enter push r e = record e {
  records = (emplace push.entry.id r e.records).0;
  pending = push ∷ e.pending;
}

-- A record of the map was changed under the registry lock, and the journal with it.
unfoldable pub put_record : {J : Type 0} → ℕ → Engine J → JobRecord × Option J → Engine J
put_record id e (r, journal) = record e { records = store id r e.records; journal = journal }
