-- ===== src/Engine/Popping.antt =====
-- When a worker of src/task_engine.cpp may leave: a queue that is closed and empty.
use omni_sched.Base.{
  ℕ, zero, suc, Bool, true, false, Option, none, some, List, [], ◌∷◌, ◌||◌, ◌≡◌, refl, sym, subst,
  ◌⊎◌, not, if◌then◌else◌, get_elem?, set,
}
use omni_sched.Scheduler
use omni_sched.Scheduler.{IScheduler, make_scheduler, drain, empty}
use omni_sched.Scheduler.Entry.{SchedulerEntry}
use omni_sched.Scheduler.Contract.{contents, Pops, pop-Pops, empty-cons, empty-nil}
use omni_sched.Engine.Queue
use omni_sched.Engine.Queue.{
  TaskQueue, Dispatch, dispatch, push_external, requeue, push_all, close_and_drain_pending,
}
use omni_sched.Engine.State.{Engine, Worker}
use omni_sched.Engine.Control.{all_exited}

-- Nothing waits and nothing more is accepted.
abbrev pub IsDrained : TaskQueue → Type 0
IsDrained q = (q.closed ≡ true) × (contents q.scheduler ≡ [])

-- Some worker has not exited, or the queue is drained.
abbrev pub IsServed : {J : Type 0} → Engine J → Type 0
IsServed e = (all_exited e.workers ≡ false) ⊎ IsDrained e.queue

-- A worker that is not at its end.
abbrev pub IsLive : Worker → Type 0
IsLive Worker.exited = ⊥
IsLive _ = Unit {0}

pub all_exited-set :
    (ws : List Worker) (k : ℕ) (w w' : Worker)
    → get_elem? ws k ≡ some w
    → IsLive w'
    → all_exited (set ws k w') ≡ false
unfolding all_exited
all_exited-set [] k w w' h l = absurd (cc)
all_exited-set (x ∷ ws) zero w Worker.exited h l = absurd l
all_exited-set (x ∷ ws) zero w Worker.idle h l = refl
all_exited-set (x ∷ ws) zero w (Worker.fetched entry budget) h l = refl
all_exited-set (x ∷ ws) zero w (Worker.running id budget) h l = refl
all_exited-set (x ∷ ws) zero w (Worker.requeues entry) h l = refl
all_exited-set (Worker.exited ∷ ws) (suc k) w w' h l = all_exited-set ws k w w' h l
all_exited-set (Worker.idle ∷ ws) (suc k) w w' h l = refl
all_exited-set (Worker.fetched entry budget ∷ ws) (suc k) w w' h l = refl
all_exited-set (Worker.running id budget ∷ ws) (suc k) w w' h l = refl
all_exited-set (Worker.requeues entry ∷ ws) (suc k) w w' h l = refl

empty-contents : (s : IScheduler) → empty s ≡ true → contents s ≡ []
empty-contents s h = go (contents s) refl
  where
    go : (es : List SchedulerEntry) → contents s ≡ es → es ≡ []
    go [] p = refl
    go (x ∷ es) p = absurd (cc (empty-cons s x es p))

-- A `pop` that sends a worker to its end finds the queue drained.
abbrev pub PopsServed : Option (Option Dispatch × TaskQueue) → Type 0
PopsServed none = Unit {0}
PopsServed (some (some d, q)) = Unit {0}
PopsServed (some (none, q)) = IsDrained q

dispatch-PopsServed :
    (q : TaskQueue) (out : Option SchedulerEntry × IScheduler)
    → empty q.scheduler ≡ false
    → out ≡ Scheduler.pop q.scheduler
    → PopsServed (some (dispatch q out))
unfolding dispatch
dispatch-PopsServed q (none, s) h p =
    let (e, _) = subst (λ out. Pops (contents q.scheduler) out) (sym p) (pop-Pops q.scheduler) in
    absurd (cc (empty-nil q.scheduler e))
dispatch-PopsServed q (some entry, s) h p = tt

pub pop-PopsServed : (q : TaskQueue) → PopsServed (Queue.pop false q)
unfolding Queue.pop
pop-PopsServed q = go q.closed (empty q.scheduler) refl refl
  where
    go :
        (c b : Bool)
        → q.closed ≡ c
        → empty q.scheduler ≡ b
        → PopsServed (
            if not (false || (c || not b))
            then none
            else if b
            then some (none, q)
            else some (dispatch q (Scheduler.pop q.scheduler)))
    go true true p e = (p, empty-contents q.scheduler e)
    go false true p e = tt
    go true false p e = dispatch-PopsServed q _ e refl
    go false false p e = dispatch-PopsServed q _ e refl
