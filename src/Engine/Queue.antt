-- ===== src/Engine/Queue.antt =====
-- `TaskQueue` of src/task_engine.cpp: the scheduler behind its mutex. Each function is one critical
-- section; the notifications only wake threads that then look at the state themselves.
use omni_sched.Base.{
  ℕ, Bool, true, false, Option, none, some, List, [], ◌∷◌, ◌||◌, not, if◌then◌else◌, text, Result,
  ok, logic_error, ◌>>=◌, ◌>>◌, guard,
}
use omni_sched.Types.{SchedulerConfig}
use omni_sched.Scheduler
use omni_sched.Scheduler.{IScheduler, push, drain, empty, slice_budget, make_scheduler}
use omni_sched.Scheduler.Entry.{SchedulerEntry}

pub record Dispatch : Type 0 where
  pub entry : SchedulerEntry
  pub budget : ℕ

pub record TaskQueue : Type 0 where
  pub scheduler : IScheduler
  pub config : SchedulerConfig
  pub closed : Bool

unfoldable pub init : SchedulerConfig → Result TaskQueue
init config = do
  scheduler ← make_scheduler config
  ok (record { scheduler = scheduler; config = config; closed = false })

-- The push is refused once the queue is closed.
unfoldable pub push_external : TaskQueue → SchedulerEntry → TaskQueue × Bool
push_external q entry =
    if q.closed then (q, false) else (record q { scheduler = push q.scheduler entry }, true)

unfoldable pub requeue : TaskQueue → SchedulerEntry → TaskQueue
requeue q entry = record q { scheduler = push q.scheduler entry }

-- After the wait.
unfoldable pub dispatch :
    TaskQueue → Option SchedulerEntry × IScheduler → Option Dispatch × TaskQueue
dispatch q (none, scheduler) = (none, record q { scheduler = scheduler })
dispatch q (some entry, scheduler) = (
  some (record { entry = entry; budget = slice_budget scheduler }),
  record q { scheduler = scheduler },
)

-- `none` while the thread waits: the queue is open and empty and no stop was requested.
unfoldable pub pop : Bool → TaskQueue → Option (Option Dispatch × TaskQueue)
pop stop_requested q =
    if not (stop_requested || (q.closed || not (empty q.scheduler)))
    then none
    else if empty q.scheduler
    then some (none, q)
    else some (dispatch q (Scheduler.pop q.scheduler))

unfoldable pub push_all : IScheduler → List SchedulerEntry → IScheduler
push_all scheduler [] = scheduler
push_all scheduler (entry ∷ entries) = push_all (push scheduler entry) entries

-- The replacement is built before the lock is taken.
unfoldable pub set_scheduler : SchedulerConfig → TaskQueue → Result TaskQueue
set_scheduler config q = do
  replacement ← make_scheduler config
  guard (not q.closed) (logic_error (text "cannot change scheduler after shutdown"))
  ok (record q { scheduler = push_all replacement (drain q.scheduler).0; config = config })

unfoldable pub close_and_drain_pending : Bool → TaskQueue → List SchedulerEntry × TaskQueue
close_and_drain_pending drain_pending q =
    if drain_pending
    then (let (entries, scheduler) = drain q.scheduler in
        (entries, record q { scheduler = scheduler; closed = true }))
    else ([], record q { closed = true })
