-- ===== src/Engine/SliceAside.antt =====
-- `start` and `finish_slice` of `worker_loop` in src/task_engine.cpp: the other jobs.
use omni_sched.Base.{
  ℕ, suc, Bytes, Bool, true, false, Bool-cases, Option, none, some, ◌≡◌, refl, sym, ◌∙◌, subst, inl,
  inr, ◌==◌, if◌then◌else◌, arith,
}
use omni_sched.Types.{JobState, SliceStatus, SliceResult}
use omni_sched.Scheduler.Entry.{SchedulerEntry}
use omni_sched.Journal.{IJobJournal}
use omni_sched.Engine.Job.{JobRecord, persist_transition_locked}
use omni_sched.Engine.Registry.{find_record, find_record-store}
use omni_sched.Engine.State.{Engine, Worker, put_record}
use omni_sched.Engine.Worker.{
  is_ready, start_found, started, consume, yielded, ended, settle, finish_found,
}
use omni_sched.Engine.Count.{carries, runs}
use omni_sched.Engine.Outcome.{IsOpen, Persists, persist-Persists}
use omni_sched.Engine.Accounting.{IsAt}
use omni_sched.Engine.SlicePlaces.{running_of}
use omni_sched.Engine.Placed.{Placed, IsAt-places}

put-other :
    {J : Type 0} (y id : ℕ) (e : Engine J) (r : JobRecord) (j : Option J)
    → (id == y) ≡ false
    → find_record y (put_record id e (r, j)).records ≡ find_record y e.records
unfolding put_record
put-other y id e r j p = find_record-store y id r e.records ∙ rw p refl

-- A job that the step is not about.
pub Aside : {J : Type 0} → ℕ → Engine J → Engine J × Worker → Type 0
Aside y e (e', w) =
    (find_record y e'.records ≡ find_record y e.records) × (carries y w ≡ 0) × (runs y w ≡ 0)

pub Aside-Placed :
    {J : Type 0} (y h n : ℕ) (e : Engine J) (out : Engine J × Worker)
    → Aside y e out
    → IsAt y (find_record y e.records) h n
    → Placed y h n out
unfolding Aside
Aside-Placed y h n e (e', w) (f, c, r) p =
    IsAt-places y _ (omega arith) (omega arith) (subst (λ o. IsAt y o h n) (sym f) p)

either-Aside :
    {J : Type 0} (y : ℕ) (e : Engine J) (b : Bool) (out out' : Engine J × Worker)
    → Aside y e out
    → Aside y e out'
    → Aside y e (if b then out else out')
either-Aside y e true out out' p q = p
either-Aside y e false out out' p q = q

persisted-other :
    {J : Type 0} (y : ℕ) (r : JobRecord) (out : Bool × JobRecord × Option J)
    → Persists r out
    → (r.entry.id == y) ≡ false
    → (out.1.entry.id == y) ≡ false
persisted-other y r (b, r', j) (inl (_, e)) q = rw e q
persisted-other y r (b, r', j) (inr (_, e, _)) q = rw (e.1) q

module _ {J : Type 0} ⦃impl : IJobJournal J⦄ where
  started-Aside :
      (y : ℕ) (entry : SchedulerEntry) (budget : ℕ) (e : Engine J)
      (out : Bool × JobRecord × Option J)
      → (entry.id == y) ≡ false
      → Aside y e (started entry budget e out)
  unfolding Aside started
  started-Aside y entry budget e (true, r, j) p =
      (put-other y entry.id e _ j p, rw p refl, rw p refl)
  started-Aside y entry budget e (false, r, j) p = (put-other y entry.id e r j p, refl, refl)

  pub start-Aside :
      (y : ℕ) (entry : SchedulerEntry) (budget : ℕ) (o : Option JobRecord) (e : Engine J)
      → (entry.id == y) ≡ false
      → Aside y e (start_found entry budget o e)
  unfolding start_found
  start-Aside y entry budget none e p = unfold Aside in (refl, refl, refl)
  start-Aside y entry budget (some r) e p = elim (Bool-cases (is_ready r.snapshot.state)) [
    | inl q ↦ rw q (started-Aside y entry budget e _ p)
    | inr q ↦ rw q (unfold Aside in (refl, refl, refl))
  ]

  ended-Aside :
      (y id : ℕ) (r : JobRecord) (state : JobState) (message : Bytes) (e : Engine J)
      → (id == y) ≡ false
      → Aside y e (ended id r state message e)
  unfolding Aside ended
  ended-Aside y id r state message e p = (put-other y id e _ _ p, refl, refl)

  yielded-Aside :
      (y id : ℕ) (message : Bytes) (e : Engine J) (out : Bool × JobRecord × Option J)
      → (id == y) ≡ false
      → (out.1.entry.id == y) ≡ false
      → Aside y e (yielded id message e out)
  unfolding Aside yielded
  yielded-Aside y id message e (true, r, j) p q = (put-other y id e _ j p, rw q refl, refl)
  yielded-Aside y id message e (false, r, j) p q = (put-other y id e r j p, refl, refl)

  settle-Aside :
      (y id : ℕ) (r : JobRecord) (status : SliceStatus) (message : Bytes) (e : Engine J)
      → (id == y) ≡ false
      → IsOpen r
      → (r.entry.id == y) ≡ false
      → Aside y e (settle id r status message e)
  unfolding settle
  settle-Aside y id r SliceStatus.completed message e p o q = ended-Aside y id r _ message e p
  settle-Aside y id r SliceStatus.failed message e p o q = ended-Aside y id r _ message e p
  settle-Aside y id r SliceStatus.cancelled message e p o q = ended-Aside y id r _ message e p
  settle-Aside y id r SliceStatus.yielded message e p o q =
      either-Aside y e r.stop_requested _ _ (ended-Aside y id r _ _ e p) (
        yielded-Aside y id message e _ p (
          persisted-other y r (persist_transition_locked r JobState.ready message e.journal)
            (persist-Persists r JobState.ready message e.journal o) q))

  pub finish-Aside :
      (y id : ℕ) (result : SliceResult) (o : Option JobRecord) (e : Engine J) (h n : ℕ)
      → (id == y) ≡ false
      → IsAt id o (suc h) (suc n)
      → Aside y e (finish_found id result o e)
  unfolding finish_found
  finish-Aside y id result none e h n p d = unfold Aside in (refl, refl, refl)
  finish-Aside y id result (some r) e h n p (q, q', d) =
      let (a, b, o) = running_of r.snapshot.state r h n d in
      settle-Aside y id (consume r result.work_units_consumed) result.status result.message e p
        (unfold consume in o) (unfold consume in rw q p)
