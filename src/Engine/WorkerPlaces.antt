-- ===== src/Engine/WorkerPlaces.antt =====
-- The steps of a worker of src/task_engine.cpp, on the places of every job.
use omni_sched.Base.{
  ℕ, suc, ◌+◌, ◌≤◌, Bool, true, false, Bool-cases, Option, none, some, ◌≡◌, refl, sym, ap, subst,
  inl, inr, ◌==◌, ==_iff, if◌then◌else◌, arith,
}
use omni_sched.Scheduler
use omni_sched.Scheduler.{IScheduler, push, empty, slice_budget}
use omni_sched.Scheduler.Entry.{SchedulerEntry}
use omni_sched.Scheduler.Contract.{contents}
use omni_sched.Journal.{IJobJournal}
use omni_sched.Engine.Registry.{find_record}
use omni_sched.Engine.Queue
use omni_sched.Engine.Queue.{TaskQueue, Dispatch, dispatch, requeue}
use omni_sched.Engine.State.{Engine, Worker}
use omni_sched.Engine.Worker.{
  Slice, slice_result, after_pop, fetch, start, start_found, finish_slice, finish_found,
}
use omni_sched.Engine.Step.{worker_step, fetched}
use omni_sched.Engine.Count.{queued, waiting, carries, one, queued-push, queued-pop, popped}
use omni_sched.Engine.Accounting.{IsAt}
use omni_sched.Engine.Placed.{Placed, IsAt-places, one_self}
use omni_sched.Engine.SlicePlaces.{start-Own, finish-Own}
use omni_sched.Engine.SliceAside.{Aside-Placed, start-Aside, finish-Aside}
use omni_sched.Engine.SliceFrame.{Keeps, start-Keeps, finish-Keeps}

-- The places outside the hands of the workers.
abbrev pub outside : {J : Type 0} → ℕ → Engine J → ℕ
outside x e = queued x (contents e.queue.scheduler) + waiting x e.pending

-- The record of `x` stands where the queue, the pending pushes, a worker and the others have it.
abbrev pub Accounts : {J : Type 0} → ℕ → ℕ → ℕ → Engine J × Worker → Type 0
Accounts x b m (e, w) = Placed x (outside x e + b) m (e, w)

Keeps-outside : {J : Type 0} (x : ℕ) (e e' : Engine J) → Keeps e e' → outside x e' ≡ outside x e
Keeps-outside x e e' (p, q, _) = rw (p, q) refl

after_keeping :
    {J : Type 0} (x b m : ℕ) (e : Engine J) (out : Engine J × Worker)
    → Keeps e out.0
    → Placed x (outside x e + b) m out
    → Accounts x b m out
after_keeping x b m e (e', w) k p =
    IsAt-places x _ (ap (λ n. carries x w + (n + b)) (sym (Keeps-outside x e e' k))) refl p

pub one-other : (x id : ℕ) → (id == x) ≡ false → one x id ≡ 0
one-other x id h = rw h refl

popped-Accounts :
    {J : Type 0} (x b m : ℕ) (e : Engine J) (r : Option SchedulerEntry × IScheduler)
    → queued x (contents e.queue.scheduler) ≡ popped x r
    → Accounts x b m (e, Worker.idle)
    → Accounts x b m (after_pop e (dispatch e.queue r))
unfolding after_pop dispatch
popped-Accounts x b m e (none, s) h p = IsAt-places x _ (omega arith) refl p
popped-Accounts x b m e (some entry, s) h p = IsAt-places x _ (omega arith) refl p

-- `pop` on its two tests.
pop-Accounts :
    {J : Type 0} (x b m : ℕ) (e : Engine J) (waits is_empty : Bool)
    → Accounts x b m (e, Worker.idle)
    → Accounts x b m (
        fetched e
          (elim (if waits
            then none
            else if is_empty
            then some (none, e.queue)
            else some (dispatch e.queue (Scheduler.pop e.queue.scheduler))) [
              | none ↦ none
              | some r ↦ some (after_pop e r)
            ]))
unfolding fetched
pop-Accounts x b m e true is_empty p = p
pop-Accounts x b m e false true p = unfold after_pop in p
pop-Accounts x b m e false false p = popped-Accounts x b m e _ (queued-pop x e.queue.scheduler) p

-- A worker that waits or takes the next entry.
fetch-Accounts :
    {J : Type 0} (x b m : ℕ) (e : Engine J)
    → Accounts x b m (e, Worker.idle)
    → Accounts x b m (fetched e (fetch e))
unfolding fetch Queue.pop
fetch-Accounts x b m e p = pop-Accounts x b m e _ (empty e.queue.scheduler) p

module _ {J : Type 0} ⦃impl : IJobJournal J⦄ where
  start-Accounts :
      (x : ℕ) (b m : ℕ → ℕ) (entry : SchedulerEntry) (budget : ℕ) (e : Engine J)
      → m entry.id ≤ b entry.id
      → ((y : ℕ) → Accounts y (b y) (m y) (e, Worker.fetched entry budget))
      → Accounts x (b x) (m x) (start entry budget e)
  unfolding start
  start-Accounts x b m entry budget e l p =
      after_keeping x (b x) (m x) e (start entry budget e) (start-Keeps entry budget _ e)
        (elim (Bool-cases (entry.id == x)) [
          | inr q ↦
              Aside-Placed x _ (m x) e _ (start-Aside x entry budget _ e q)
                (IsAt-places x _ (omega (arith, one-other x entry.id q)) (omega arith) (p x))
          | inl q ↦
              subst
                (λ y.
                  Placed y (outside y e + b y) (m y)
                    (start_found entry budget (find_record entry.id e.records) e))
                ((==_iff entry.id x).0 q)
                (start-Own entry budget _ _ _ e (omega (arith, l)) refl (
                  IsAt-places entry.id _ (omega (arith, one_self entry.id)) (omega arith)
                    (p entry.id)))
        ])

  finish-Accounts :
      (x : ℕ) (b m : ℕ → ℕ) (id budget : ℕ) (slice : Slice) (e : Engine J)
      → ((y : ℕ) → Accounts y (b y) (m y) (e, Worker.running id budget))
      → Accounts x (b x) (m x) (finish_slice id slice e)
  unfolding finish_slice
  finish-Accounts x b m id budget slice e p =
      after_keeping x (b x) (m x) e (finish_slice id slice e)
        (finish-Keeps id (slice_result slice) _ e)
        (elim (Bool-cases (id == x)) [
          | inr q ↦
              Aside-Placed x _ (m x) e _ (finish-Aside x id (slice_result slice) _ e _ _ q own) (
                IsAt-places x _ (omega (arith, one-other x id q)) (omega (arith, one-other x id q))
                  (p x))
          | inl q ↦
              subst
                (λ y.
                  Placed y (outside y e + b y) (m y)
                    (finish_found id (slice_result slice) (find_record id e.records) e))
                ((==_iff id x).0 q) (finish-Own id _ _ (slice_result slice) _ e refl own)
        ])
    where
      own : IsAt id (find_record id e.records) (suc (outside id e + b id)) (suc (m id))
      own = IsAt-places id _ (omega (arith, one_self id)) (omega (arith, one_self id)) (p id)

  pub worker_step-Accounts :
      (x : ℕ) (b m : ℕ → ℕ) (w : Worker) (slice : Slice) (e : Engine J)
      → ((y : ℕ) → m y ≤ b y)
      → ((y : ℕ) → Accounts y (b y) (m y) (e, w))
      → Accounts x (b x) (m x) (worker_step w slice e)
  unfolding worker_step
  worker_step-Accounts x b m Worker.idle slice e l p = fetch-Accounts x (b x) (m x) e (p x)
  worker_step-Accounts x b m (Worker.fetched entry budget) slice e l p =
      start-Accounts x b m entry budget e (l entry.id) p
  worker_step-Accounts x b m (Worker.running id budget) slice e l p =
      finish-Accounts x b m id budget slice e p
  worker_step-Accounts x b m (Worker.requeues entry) slice e l p =
      unfold requeue in
      IsAt-places x _ (omega (arith, queued-push x e.queue.scheduler entry)) refl (p x)
  worker_step-Accounts x b m Worker.exited slice e l p = p x

  fetched-workers :
      (e : Engine J) (waits is_empty : Bool)
      → (fetched e
          (elim (if waits
            then none
            else if is_empty
            then some (none, e.queue)
            else some (dispatch e.queue (Scheduler.pop e.queue.scheduler))) [
              | none ↦ none
              | some r ↦ some (after_pop e r)
            ])).0.workers
        ≡ e.workers
  unfolding fetched after_pop dispatch
  fetched-workers e true is_empty = refl
  fetched-workers e false true = refl
  fetched-workers e false false = dispatched (Scheduler.pop e.queue.scheduler)
    where
      dispatched :
          (r : Option SchedulerEntry × IScheduler)
          → (after_pop e (dispatch e.queue r)).0.workers ≡ e.workers
      dispatched (none, s) = refl
      dispatched (some entry, s) = refl

  pub worker_step-workers :
      (w : Worker) (slice : Slice) (e : Engine J) → (worker_step w slice e).0.workers ≡ e.workers
  unfolding worker_step
  worker_step-workers Worker.idle slice e =
      unfold fetch Queue.pop in fetched-workers e _ (empty e.queue.scheduler)
  worker_step-workers (Worker.fetched entry budget) slice e =
      unfold start in (start-Keeps entry budget (find_record entry.id e.records) e).2
  worker_step-workers (Worker.running id budget) slice e =
      unfold finish_slice in (finish-Keeps id (slice_result slice) (find_record id e.records) e).2
  worker_step-workers (Worker.requeues entry) slice e = refl
  worker_step-workers Worker.exited slice e = refl
