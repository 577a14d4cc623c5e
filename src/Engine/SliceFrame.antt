-- ===== src/Engine/SliceFrame.antt =====
-- `start` and `finish_slice` of `worker_loop` in src/task_engine.cpp: the queue, the pending pushes and
-- the workers.
use omni_sched.Base.{ℕ, Bytes, Bool, true, false, Option, none, some, ◌≡◌, refl, if◌then◌else◌}
use omni_sched.Types.{JobState, SliceStatus, SliceResult}
use omni_sched.Scheduler.Entry.{SchedulerEntry}
use omni_sched.Journal.{IJobJournal}
use omni_sched.Engine.Job.{JobRecord}
use omni_sched.Engine.State.{Engine, Worker, put_record}
use omni_sched.Engine.Worker.{is_ready, start_found, started, yielded, ended, settle, finish_found}

abbrev pub Keeps : {J : Type 0} → Engine J → Engine J → Type 0
Keeps e e' = (e'.queue ≡ e.queue) × (e'.pending ≡ e.pending) × (e'.workers ≡ e.workers)

put-Keeps :
    {J : Type 0} (id : ℕ) (e : Engine J) (p : JobRecord × Option J) → Keeps e (put_record id e p)
unfolding put_record
put-Keeps id e (r, j) = (refl, refl, refl)

either-Keeps :
    {J : Type 0} (e : Engine J) (b : Bool) (out out' : Engine J × Worker)
    → Keeps e out.0
    → Keeps e out'.0
    → Keeps e (if b then out else out').0
either-Keeps e true out out' p q = p
either-Keeps e false out out' p q = q

module _ {J : Type 0} ⦃impl : IJobJournal J⦄ where
  started-Keeps :
      (entry : SchedulerEntry) (budget : ℕ) (e : Engine J) (out : Bool × JobRecord × Option J)
      → Keeps e (started entry budget e out).0
  unfolding started
  started-Keeps entry budget e (true, r, j) = put-Keeps entry.id e _
  started-Keeps entry budget e (false, r, j) = put-Keeps entry.id e _

  pub start-Keeps :
      (entry : SchedulerEntry) (budget : ℕ) (o : Option JobRecord) (e : Engine J)
      → Keeps e (start_found entry budget o e).0
  unfolding start_found
  start-Keeps entry budget none e = (refl, refl, refl)
  start-Keeps entry budget (some r) e =
      either-Keeps e (is_ready r.snapshot.state) _ _ (started-Keeps entry budget e _)
        (refl, refl, refl)

  ended-Keeps :
      (id : ℕ) (r : JobRecord) (state : JobState) (message : Bytes) (e : Engine J)
      → Keeps e (ended id r state message e).0
  unfolding ended
  ended-Keeps id r state message e = put-Keeps id e _

  yielded-Keeps :
      (id : ℕ) (message : Bytes) (e : Engine J) (out : Bool × JobRecord × Option J)
      → Keeps e (yielded id message e out).0
  unfolding yielded
  yielded-Keeps id message e (true, r, j) = put-Keeps id e _
  yielded-Keeps id message e (false, r, j) = put-Keeps id e _

  settle-Keeps :
      (id : ℕ) (r : JobRecord) (status : SliceStatus) (message : Bytes) (e : Engine J)
      → Keeps e (settle id r status message e).0
  unfolding settle
  settle-Keeps id r SliceStatus.completed message e = ended-Keeps id r _ message e
  settle-Keeps id r SliceStatus.failed message e = ended-Keeps id r _ message e
  settle-Keeps id r SliceStatus.cancelled message e = ended-Keeps id r _ message e
  settle-Keeps id r SliceStatus.yielded message e =
      either-Keeps e r.stop_requested _ _ (ended-Keeps id r _ _ e) (yielded-Keeps id message e _)

  pub finish-Keeps :
      (id : ℕ) (result : SliceResult) (o : Option JobRecord) (e : Engine J)
      → Keeps e (finish_found id result o e).0
  unfolding finish_found
  finish-Keeps id result none e = (refl, refl, refl)
  finish-Keeps id result (some r) e = settle-Keeps id _ result.status result.message e
