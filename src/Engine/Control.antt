-- ===== src/Engine/Control.antt =====
-- `cancel`, `get_job`, `snapshot`, `set_scheduler` and `shutdown` of src/task_engine.cpp.
use omni_sched.Base.{
  ℕ, text, Bool, true, false, Option, none, some, List, [], ◌∷◌, not, if◌then◌else◌, logic_error,
  Result, ok, err, map, sort_by,
}
use omni_sched.Types.{JobState, ShutdownMode, SchedulerConfig, JobSnapshot, is_terminal}
use omni_sched.Scheduler.Entry.{SchedulerEntry}
use omni_sched.Journal.{IJobJournal}
use omni_sched.Engine.Queue
use omni_sched.Engine.Queue.{close_and_drain_pending}
use omni_sched.Engine.Job.{JobRecord, finish_locked}
use omni_sched.Engine.Registry.{find_record}
use omni_sched.Engine.State.{Engine, Worker, put_record}

unfoldable pub is_waiting : JobState → Bool
is_waiting JobState.new = true
is_waiting JobState.ready = true
is_waiting _ = false

unfoldable pub get_job : {J : Type 0} → ℕ → Engine J → Option JobSnapshot
get_job id e = elim (find_record id e.records) [ none ↦ none | some r ↦ some r.snapshot ]

unfoldable pub snapshot : {J : Type 0} → Engine J → List JobSnapshot
snapshot e = sort_by (λ s. s.submission_sequence) (map (λ kr. kr.1.snapshot) e.records)

unfoldable pub set_scheduler :
    {J : Type 0} → SchedulerConfig → Engine J → Engine J × Result (Unit {0})
set_scheduler config e =
    if not e.accepting
    then (e, err (logic_error (text "cannot change scheduler after shutdown")))
    else elim (Queue.set_scheduler config e.queue) [
      | err error ↦ (e, err error)
      | ok queue ↦ (record e { queue = queue }, ok tt)
    ]

unfoldable pub all_exited : List Worker → Bool
all_exited [] = true
all_exited (Worker.exited ∷ workers) = all_exited workers
all_exited (_ ∷ workers) = false

-- The end of `shutdown`; `none` while it waits for a thread.
unfoldable pub join_workers : {J : Type 0} → Engine J → Option (Engine J)
join_workers e = if all_exited e.workers then some (record e { workers = [] }) else none

unfoldable pub cancels_pending : ShutdownMode → Bool
cancels_pending ShutdownMode.drain = false
cancels_pending ShutdownMode.cancel_pending = true

module _ {J : Type 0} ⦃impl : IJobJournal J⦄ where
  -- `cancel` at a record that is not terminal.
  unfoldable pub cancel_live : ℕ → JobRecord → Engine J → Engine J
  cancel_live id r e =
      let stopped = record r { stop_requested = true } in
      put_record id e (
        if is_waiting r.snapshot.state
        then finish_locked stopped JobState.cancelled (text "cancelled before execution") e.journal
        else (stopped, e.journal))

  unfoldable pub cancel_found : ℕ → Option JobRecord → Engine J → Engine J × Bool
  cancel_found id none e = (e, false)
  cancel_found id (some r) e =
      if is_terminal r.snapshot.state then (e, false) else (cancel_live id r e, true)

  unfoldable pub cancel : ℕ → Engine J → Engine J × Bool
  unfolding cancel_found
  cancel id e = cancel_found id (find_record id e.records) e

  -- One round of the loop of `shutdown` over the entries that were drained.
  unfoldable pub cancel_pending : ℕ → Option JobRecord → Engine J → Engine J
  cancel_pending id none e = e
  cancel_pending id (some r) e =
      if is_terminal r.snapshot.state
      then e
      else put_record id e (
          finish_locked (record r { stop_requested = true }) JobState.cancelled
            (text "cancelled during engine shutdown") e.journal)

  unfoldable pub cancel_all : List SchedulerEntry → Engine J → Engine J
  cancel_all [] e = e
  cancel_all (entry ∷ entries) e =
      cancel_all entries (cancel_pending entry.id (find_record entry.id e.records) e)

  -- `shutdown` up to `join_workers`, if no other thread comes between the close and the loop;
  -- `Engine.Sections` has the two apart. With no worker left it was done before.
  unfoldable pub shutdown_begin : ShutdownMode → Engine J → Engine J
  shutdown_begin mode e = elim e.workers [
    | [] ↦ e
    | worker ∷ workers ↦
        (let (entries, queue) = close_and_drain_pending (cancels_pending mode) e.queue in
          cancel_all entries (record e { accepting = false; queue = queue }))
  ]
