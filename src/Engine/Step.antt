-- ===== src/Engine/Step.antt =====
-- The threads of src/task_engine.cpp as steps: what a client calls and what a worker does next.
use omni_sched.Base.{ℕ, Option, none, some, get_elem?, set}
use omni_sched.Types.{ShutdownMode, SchedulerConfig, SubmissionOptions}
use omni_sched.Journal.{JobSubmissionRecord, IJobJournal}
use omni_sched.Engine.Queue.{requeue}
use omni_sched.Engine.State.{Engine, Worker}
use omni_sched.Engine.Submit.{submit_begin, restore_begin, submit_end, reserve_recovered_identity}
use omni_sched.Engine.Control.{cancel, set_scheduler, shutdown_begin, join_workers}
use omni_sched.Engine.Worker.{Slice, fetch, start, finish_slice}

pub data Action : Type 0 where
  submits : SubmissionOptions → Action
  restores : JobSubmissionRecord → Action
  reserves : JobSubmissionRecord → Action
  -- the `push_external` of the call for a job
  pushes : ℕ → Action
  cancels : ℕ → Action
  sets_scheduler : SchedulerConfig → Action
  shuts_down : ShutdownMode → Action
  -- `join_workers`, if no thread is left
  joins : Action
  -- the next step of a worker thread, and how a slice ends if it is in one
  works : ℕ → Slice → Action

unfoldable pub joined : {J : Type 0} → Engine J → Option (Engine J) → Engine J
joined e none = e
joined e (some e') = e'

unfoldable pub fetched : {J : Type 0} → Engine J → Option (Engine J × Worker) → Engine J × Worker
fetched e none = (e, Worker.idle)
fetched e (some r) = r

-- The worker's place afterwards.
unfoldable pub place : {J : Type 0} → ℕ → Engine J × Worker → Engine J
place k (e, w) = record e { workers = set e.workers k w }

module _ {J : Type 0} ⦃impl : IJobJournal J⦄ where
  unfoldable pub worker_step : Worker → Slice → Engine J → Engine J × Worker
  worker_step Worker.idle slice e = fetched e (fetch e)
  worker_step (Worker.fetched entry budget) slice e = start entry budget e
  worker_step (Worker.running id budget) slice e = finish_slice id slice e
  worker_step (Worker.requeues entry) slice e =
      (record e { queue = requeue e.queue entry }, Worker.idle)
  worker_step Worker.exited slice e = (e, Worker.exited)

  unfoldable pub work : ℕ → Slice → Option Worker → Engine J → Engine J
  work k slice none e = e
  work k slice (some w) e = place k (worker_step w slice e)

  unfoldable pub step : Action → Engine J → Engine J
  step (submits options) e = (submit_begin options e).0
  step (restores submission) e = (restore_begin submission e).0
  step (reserves submission) e = (reserve_recovered_identity submission e).0
  step (pushes id) e = submit_end id e
  step (cancels id) e = (cancel id e).0
  step (sets_scheduler config) e = (set_scheduler config e).0
  step (shuts_down mode) e = shutdown_begin mode e
  step joins e = joined e (join_workers e)
  step (works k slice) e = work k slice (get_elem? e.workers k) e
