-- ===== src/Engine/QueuePlaces.antt =====
-- `set_scheduler`, `join_workers` and the pending pushes of src/task_engine.cpp, on the places of every
-- job.
use omni_sched.Base.{
  ℕ, ◌+◌, text, Bool, true, false, Bool-cases, Option, none, some, List, [], ◌∷◌, ◌≡◌, refl, sym,
  ap, ◌∙◌, inl, inr, ◌==◌, ◌&&◌, not, if◌then◌else◌, logic_error, Result, ok, err, ok-injective,
  ◌>>=◌, ◌>>◌, guard, arith,
}
use omni_sched.Types.{SchedulerConfig}
use omni_sched.Scheduler.{IScheduler, drain, make_scheduler}
use omni_sched.Scheduler.Contract.{contents}
use omni_sched.Engine.Queue
use omni_sched.Engine.Queue.{TaskQueue, push_external, push_all, close_and_drain_pending}
use omni_sched.Engine.State.{Engine, Worker, Push}
use omni_sched.Engine.Submit.{take_pending}
use omni_sched.Engine.Control.{set_scheduler, all_exited, join_workers}
use omni_sched.Engine.Step.{joined}
use omni_sched.Engine.Count.{
  queued, waiting, carries, runs, one, total, queued-drain, queued-push_all,
  contents-make_scheduler,
}
use omni_sched.Engine.Placed.{IsAt-places}
use omni_sched.Engine.StepPlaces.{Accounted}

abbrev pub Taken : ℕ → List Push → Option (Push × List Push) → Type 0
Taken x ps none = Unit {0}
Taken x ps (some (q, qs)) = waiting x ps ≡ one x q.entry.id + waiting x qs

pub take_pending-Taken : (x id : ℕ) (ps : List Push) → Taken x ps (take_pending id ps)
unfolding take_pending
take_pending-Taken x id [] = tt
take_pending-Taken x id (p ∷ ps) =
    go (p.entry.id == id && not p.drained) (take_pending id ps) (take_pending-Taken x id ps)
  where
    go :
        (b : Bool) (o : Option (Push × List Push))
        → Taken x ps o
        → Taken x (p ∷ ps) (elim b [
          | true ↦ some (p, ps)
          | false ↦ elim o [ none ↦ none | some (q, qs) ↦ some (q, p ∷ qs) ]
        ])
    go true o h = refl
    go false none h = tt
    go false (some (q, qs)) h = omega (arith, h)

pub all_exited-total :
    (x : ℕ) (ws : List Worker)
    → all_exited ws ≡ true
    → (total (carries x) ws ≡ 0) × (total (runs x) ws ≡ 0)
unfolding all_exited
all_exited-total x [] h = (refl, refl)
all_exited-total x (Worker.exited ∷ ws) h =
    let (a, b) = all_exited-total x ws h in (omega arith, omega arith)
all_exited-total x (Worker.idle ∷ ws) h = cc
all_exited-total x (Worker.fetched entry budget ∷ ws) h = cc
all_exited-total x (Worker.running id budget ∷ ws) h = cc
all_exited-total x (Worker.requeues entry ∷ ws) h = cc

pub join-Accounted :
    {J : Type 0} (x : ℕ) (e : Engine J) → Accounted x e → Accounted x (joined e (join_workers e))
unfolding joined join_workers
join-Accounted x e p = elim (Bool-cases (all_exited e.workers)) [
  | inr q ↦ rw q p
  | inl q ↦
      let (a, b) = all_exited-total x e.workers q in
      rw q (IsAt-places x _ (omega arith) (omega arith) p)
]

set_queued :
    (x : ℕ) (config : SchedulerConfig) (q q' : TaskQueue)
    → Queue.set_scheduler config q ≡ ok q'
    → queued x (contents q'.scheduler) ≡ queued x (contents q.scheduler)
unfolding Queue.set_scheduler
set_queued x config q q' h = go (make_scheduler config) q.closed refl h
  where
    empty : (s : IScheduler) → make_scheduler config ≡ ok s → queued x (contents s) ≡ 0
    empty s m = rw (contents-make_scheduler config m) (unfold queued in refl)

    go :
        (r : Result IScheduler) (closed : Bool)
        → make_scheduler config ≡ r
        → (r >>= λ s.
            guard (not closed) (logic_error (text "cannot change scheduler after shutdown"))
            >> ok (record q { scheduler = push_all s (drain q.scheduler).0; config = config }))
          ≡ ok q'
        → queued x (contents q'.scheduler) ≡ queued x (contents q.scheduler)
    go (err e) c m h = absurd (cc)
    go (ok s) true m h = absurd (cc)
    go (ok s) false m h =
        sym (ap (λ (k : TaskQueue). queued x (contents k.scheduler)) (ok-injective h))
        ∙ omega (
          arith,
          queued-push_all x s (drain q.scheduler).0,
          (queued-drain x q.scheduler).0,
          empty s m,
        )

pub set_scheduler-Accounted :
    {J : Type 0} (x : ℕ) (config : SchedulerConfig) (e : Engine J)
    → Accounted x e
    → Accounted x (set_scheduler config e).0
unfolding set_scheduler
set_scheduler-Accounted {J} x config e p = go e.accepting (Queue.set_scheduler config e.queue) refl
  where
    go :
        (accepting : Bool) (r : Result TaskQueue)
        → Queue.set_scheduler config e.queue ≡ r
        → Accounted x
            (if not accepting
              then (e, err (logic_error (text "cannot change scheduler after shutdown")))
              else (elim r as (λ _. Engine J × Result (Unit {0})) [
                | err error ↦ (e, err error)
                | ok queue ↦ (record e { queue = queue }, ok tt)
              ])).0
    go false r h = p
    go true (err error) h = p
    go true (ok q') h = IsAt-places x _ (omega (arith, set_queued x config e.queue q' h)) refl p
