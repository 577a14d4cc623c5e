-- ===== src/Engine/Keys.antt =====
-- The keys of the map of records in src/task_engine.cpp and the counter of IDs, under every operation.
use omni_sched.Base.{
  ℕ, Bytes, Bool, true, false, Option, none, some, List, [], ◌∷◌, ◌≡◌, refl, ◌∙◌, not,
  if◌then◌else◌, Result, ok, err, arith,
}
use omni_sched.Types.{
  JobState, SliceStatus, SliceResult, ShutdownMode, SchedulerConfig, is_terminal,
}
use omni_sched.Scheduler.Entry.{SchedulerEntry}
use omni_sched.Journal.{IJobJournal}
use omni_sched.Engine.Job.{JobRecord}
use omni_sched.Engine.Registry.{Registry, find_record, store}
use omni_sched.Engine.Queue
use omni_sched.Engine.Queue.{
  TaskQueue, Dispatch, dispatch, push_external, requeue, close_and_drain_pending,
}
use omni_sched.Engine.State.{Engine, Worker, Push, put_record}
use omni_sched.Engine.Submit.{take_pending, finish_in, push_pending, submit_end}
use omni_sched.Engine.Control.{
  cancel_live, cancel_found, cancel, set_scheduler, shutdown_begin, all_exited, join_workers,
  cancels_pending, cancel_pending, cancel_all,
}
use omni_sched.Engine.Worker.{
  Slice, slice_result, is_ready, after_pop, fetch, started, start_found, start, yielded, ended,
  settle, finish_found, finish_slice,
}
use omni_sched.Engine.Step.{joined, fetched, place, worker_step, work}

abbrev pub keys : Registry → List ℕ
keys [] = []
keys ((key, r) ∷ records) = key ∷ keys records

keys-store :
    (id : ℕ) (r : JobRecord) (records : Registry) → keys (store id r records) ≡ keys records
unfolding store
keys-store id r [] = refl
keys-store id r ((key, old) ∷ records) = ground (arith, keys-store id r records)

-- The same keys and the same counter.
abbrev pub KeepsKeys : {J : Type 0} → Engine J → Engine J → Type 0
KeepsKeys e e' = (keys e'.records ≡ keys e.records) × (e'.next_job_id ≡ e.next_job_id)

abbrev same : {J : Type 0} (e : Engine J) → KeepsKeys e e
same e = (refl, refl)

put-KeepsKeys :
    {J : Type 0} (id : ℕ) (e : Engine J) (p : JobRecord × Option J)
    → KeepsKeys e (put_record id e p)
unfolding put_record
put-KeepsKeys id e (r, j) = (keys-store id r e.records, refl)

either-KeepsKeys :
    {J : Type 0} (e : Engine J) (b : Bool) (e' e'' : Engine J)
    → KeepsKeys e e'
    → KeepsKeys e e''
    → KeepsKeys e (if b then e' else e'')
either-KeepsKeys e true e' e'' p q = p
either-KeepsKeys e false e' e'' p q = q

first-KeepsKeys :
    {J : Type 0} {A : Type 0} (e : Engine J) (b : Bool) (out out' : Engine J × A)
    → KeepsKeys e out.0
    → KeepsKeys e out'.0
    → KeepsKeys e (if b then out else out').0
first-KeepsKeys e true out out' p q = p
first-KeepsKeys e false out out' p q = q

pub join-KeepsKeys : {J : Type 0} (e : Engine J) → KeepsKeys e (joined e (join_workers e))
unfolding joined join_workers
join-KeepsKeys {J} e = go (all_exited e.workers)
  where
    go : (b : Bool) → KeepsKeys e (joined e (if b then some (record e { workers = [] }) else none))
    go true = same e
    go false = same e

pub set_scheduler-KeepsKeys :
    {J : Type 0} (config : SchedulerConfig) (e : Engine J) → KeepsKeys e (set_scheduler config e).0
unfolding set_scheduler
set_scheduler-KeepsKeys {J} config e =
    first-KeepsKeys e (not e.accepting) _ _ (same e) (go (Queue.set_scheduler config e.queue))
  where
    go :
        (r : Result TaskQueue)
        → KeepsKeys e
            (elim r as (λ _. Engine J × Result (Unit {0})) [
              | err error ↦ (e, err error)
              | ok queue ↦ (record e { queue = queue }, ok tt)
            ]).0
    go (err error) = same e
    go (ok queue) = same e

fetch-KeepsKeys : {J : Type 0} (e : Engine J) → KeepsKeys e (fetched e (fetch e)).0
unfolding fetch fetched after_pop
fetch-KeepsKeys {J} e = go (Queue.pop false e.queue)
  where
    go :
        (o : Option (Option Dispatch × TaskQueue))
        → KeepsKeys e
            (fetched e (elim o as (λ _. Option (Engine J × Worker)) [
              | none ↦ none
              | some r ↦ some (after_pop e r)
            ])).0
    go none = same e
    go (some (none, queue)) = same e
    go (some (some d, queue)) = same e

module _ {J : Type 0} ⦃impl : IJobJournal J⦄ where
  finish_in-KeepsKeys :
      (id : ℕ) (state : JobState) (message : Bytes) (o : Option JobRecord) (e : Engine J)
      → KeepsKeys e (finish_in id state message o e)
  unfolding finish_in
  finish_in-KeepsKeys id state message none e = same e
  finish_in-KeepsKeys id state message (some r) e = put-KeepsKeys id e _

  push_pending-KeepsKeys : (p : Push) (e : Engine J) → KeepsKeys e (push_pending p e)
  unfolding push_pending
  push_pending-KeepsKeys p e =
      either-KeepsKeys e (push_external e.queue p.entry).1 _ _ (same e)
        (finish_in-KeepsKeys p.entry.id JobState.cancelled p.raced _ e)

  pub submit_end-KeepsKeys : (id : ℕ) (e : Engine J) → KeepsKeys e (submit_end id e)
  unfolding submit_end
  submit_end-KeepsKeys id e = go (take_pending id e.pending)
    where
      go :
          (o : Option (Push × List Push))
          → KeepsKeys e
              (elim o [ none ↦ e | some (q, qs) ↦ push_pending q (record e { pending = qs }) ])
      go none = same e
      go (some (q, qs)) = push_pending-KeepsKeys q (record e { pending = qs })

  cancel_found-KeepsKeys :
      (id : ℕ) (o : Option JobRecord) (e : Engine J) → KeepsKeys e (cancel_found id o e).0
  unfolding cancel_found cancel_live
  cancel_found-KeepsKeys id none e = same e
  cancel_found-KeepsKeys id (some r) e =
      first-KeepsKeys e (is_terminal r.snapshot.state) _ _ (same e) (put-KeepsKeys id e _)

  pub cancel-KeepsKeys : (id : ℕ) (e : Engine J) → KeepsKeys e (cancel id e).0
  unfolding cancel
  cancel-KeepsKeys id e = cancel_found-KeepsKeys id _ e

  cancel_pending-KeepsKeys :
      (id : ℕ) (o : Option JobRecord) (e : Engine J) → KeepsKeys e (cancel_pending id o e)
  unfolding cancel_pending
  cancel_pending-KeepsKeys id none e = same e
  cancel_pending-KeepsKeys id (some r) e =
      either-KeepsKeys e (is_terminal r.snapshot.state) _ _ (same e) (put-KeepsKeys id e _)

  pub cancel_all-KeepsKeys :
      (entries : List SchedulerEntry) (e : Engine J) → KeepsKeys e (cancel_all entries e)
  unfolding cancel_all
  cancel_all-KeepsKeys [] e = same e
  cancel_all-KeepsKeys (entry ∷ entries) e =
      let (p, q) = cancel_pending-KeepsKeys entry.id (find_record entry.id e.records) e in
      let (p', q') =
        cancel_all-KeepsKeys entries (cancel_pending entry.id (find_record entry.id e.records) e) in
      (p' ∙ p, q' ∙ q)

  pub shutdown-KeepsKeys :
      (mode : ShutdownMode) (e : Engine J) → KeepsKeys e (shutdown_begin mode e)
  unfolding shutdown_begin
  shutdown-KeepsKeys mode e = go e.workers
    where
      go :
          (ws : List Worker)
          → KeepsKeys e (elim ws [
            | [] ↦ e
            | worker ∷ workers ↦
                (let (entries, queue) = close_and_drain_pending (cancels_pending mode) e.queue in
                  cancel_all entries (record e { accepting = false; queue = queue }))
          ])
      go [] = same e
      go (w ∷ ws) = cancel_all-KeepsKeys _ (record e {
        accepting = false;
        queue = (close_and_drain_pending (cancels_pending mode) e.queue).1;
      })

  started-KeepsKeys :
      (entry : SchedulerEntry) (budget : ℕ) (e : Engine J) (out : Bool × JobRecord × Option J)
      → KeepsKeys e (started entry budget e out).0
  unfolding started
  started-KeepsKeys entry budget e (true, r, j) = put-KeepsKeys entry.id e _
  started-KeepsKeys entry budget e (false, r, j) = put-KeepsKeys entry.id e _

  start-KeepsKeys :
      (entry : SchedulerEntry) (budget : ℕ) (o : Option JobRecord) (e : Engine J)
      → KeepsKeys e (start_found entry budget o e).0
  unfolding start_found
  start-KeepsKeys entry budget none e = same e
  start-KeepsKeys entry budget (some r) e =
      first-KeepsKeys e (is_ready r.snapshot.state) _ _ (started-KeepsKeys entry budget e _)
        (same e)

  ended-KeepsKeys :
      (id : ℕ) (r : JobRecord) (state : JobState) (message : Bytes) (e : Engine J)
      → KeepsKeys e (ended id r state message e).0
  unfolding ended
  ended-KeepsKeys id r state message e = put-KeepsKeys id e _

  yielded-KeepsKeys :
      (id : ℕ) (message : Bytes) (e : Engine J) (out : Bool × JobRecord × Option J)
      → KeepsKeys e (yielded id message e out).0
  unfolding yielded
  yielded-KeepsKeys id message e (true, r, j) = put-KeepsKeys id e _
  yielded-KeepsKeys id message e (false, r, j) = put-KeepsKeys id e _

  settle-KeepsKeys :
      (id : ℕ) (r : JobRecord) (status : SliceStatus) (message : Bytes) (e : Engine J)
      → KeepsKeys e (settle id r status message e).0
  unfolding settle
  settle-KeepsKeys id r SliceStatus.completed message e = ended-KeepsKeys id r _ message e
  settle-KeepsKeys id r SliceStatus.failed message e = ended-KeepsKeys id r _ message e
  settle-KeepsKeys id r SliceStatus.cancelled message e = ended-KeepsKeys id r _ message e
  settle-KeepsKeys id r SliceStatus.yielded message e =
      first-KeepsKeys e r.stop_requested _ _ (ended-KeepsKeys id r _ _ e)
        (yielded-KeepsKeys id message e _)

  finish-KeepsKeys :
      (id : ℕ) (result : SliceResult) (o : Option JobRecord) (e : Engine J)
      → KeepsKeys e (finish_found id result o e).0
  unfolding finish_found
  finish-KeepsKeys id result none e = same e
  finish-KeepsKeys id result (some r) e = settle-KeepsKeys id _ result.status result.message e

  worker_step-KeepsKeys :
      (w : Worker) (slice : Slice) (e : Engine J) → KeepsKeys e (worker_step w slice e).0
  unfolding worker_step
  worker_step-KeepsKeys Worker.idle slice e = fetch-KeepsKeys e
  worker_step-KeepsKeys (Worker.fetched entry budget) slice e =
      unfold start in start-KeepsKeys entry budget (find_record entry.id e.records) e
  worker_step-KeepsKeys (Worker.running id budget) slice e =
      unfold finish_slice in finish-KeepsKeys id (slice_result slice) (find_record id e.records) e
  worker_step-KeepsKeys (Worker.requeues entry) slice e = same e
  worker_step-KeepsKeys Worker.exited slice e = same e

  pub work-KeepsKeys :
      (k : ℕ) (slice : Slice) (o : Option Worker) (e : Engine J) → KeepsKeys e (work k slice o e)
  unfolding work place
  work-KeepsKeys k slice none e = same e
  work-KeepsKeys k slice (some w) e = worker_step-KeepsKeys w slice e
