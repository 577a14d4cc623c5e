-- ===== src/Engine/Invariant.antt =====
-- Where every job stands in the steps of src/task_engine.cpp, and in a new engine.
use omni_sched.Base.{
  ℕ, zero, suc, ◌+◌, true, false, Option, none, some, [], ◌≡◌, refl, ◌⊎◌, inl, inr, subst, ◌>>=◌,
  Result, ok, err, ok-injective, arith,
}
use omni_sched.Types.{SchedulerConfig, JobState}
use omni_sched.Scheduler.Contract.{contents}
use omni_sched.Journal.{IJobJournal}
use omni_sched.Engine.Job.{JobRecord}
use omni_sched.Engine.Registry.{find_record}
use omni_sched.Engine.State
use omni_sched.Engine.State.{Engine, Worker, idle_workers}
use omni_sched.Engine.Queue
use omni_sched.Engine.Queue.{TaskQueue}
use omni_sched.Scheduler.{IScheduler, make_scheduler}
use omni_sched.Engine.Control.{all_exited}
use omni_sched.Engine.Step.{Action, step}
use omni_sched.Engine.Count.{queued, carries, runs, total, contents-make_scheduler}
use omni_sched.Engine.Outcome.{IsEnded}
use omni_sched.Engine.Accounting.{IsAt, Stands}
use omni_sched.Engine.WorkerPlaces.{outside}
use omni_sched.Engine.StepPlaces.{Accounted, work-Accounted}
use omni_sched.Engine.QueuePlaces.{all_exited-total, join-Accounted, set_scheduler-Accounted}
use omni_sched.Engine.ClientPlaces.{submit_end-Accounted, cancel-Accounted, shutdown-Accounted}
use omni_sched.Engine.Fresh.{IsFresh}
use omni_sched.Engine.SubmitPlaces.{
  submit_begin-Accounted, restore_begin-Accounted, reserve-Accounted,
}

-- The ID that `fetch_add` gives is not in the map.
abbrev pub HasFreshId : {J : Type 0} → Engine J → Type 0
HasFreshId e = find_record e.next_job_id e.records ≡ none

module _ {J : Type 0} ⦃impl : IJobJournal J⦄ where
  -- Whatever happens next (a client's call that no other thread interrupts, the push behind it, a worker's step with any outcome of
  -- the slice and any answer of the journal), if every job is in account and the next ID is not in the
  -- map, every job is in account afterwards: a ready job has exactly one place among the queue, the
  -- pending pushes and the workers, a running one is in the hands of exactly one worker and nowhere
  -- else, and one that has ended had its promise set once, to the state, message and work of its
  -- snapshot, and is run by no worker.
  pub step-Accounted :
      (a : Action) (e : Engine J)
      → HasFreshId e
      → ((y : ℕ) → Accounted y e)
      → (x : ℕ) → Accounted x (step a e)
  unfolding step
  step-Accounted (Action.submits options) e f p x = submit_begin-Accounted x options e f (p x)
  step-Accounted (Action.restores submission) e f p x = restore_begin-Accounted x submission e (p x)
  step-Accounted (Action.reserves submission) e f p x = reserve-Accounted x submission e (p x)
  step-Accounted (Action.pushes id) e f p x = submit_end-Accounted x id e (p x)
  step-Accounted (Action.cancels id) e f p x = cancel-Accounted x id e (p x)
  step-Accounted (Action.sets_scheduler config) e f p x = set_scheduler-Accounted x config e (p x)
  step-Accounted (Action.shuts_down mode) e f p x = shutdown-Accounted x mode e (p x)
  step-Accounted Action.joins e f p x = join-Accounted x e (p x)
  step-Accounted (Action.works k slice) e f p x = work-Accounted x k slice _ e refl p

idle-total :
    (x n : ℕ) → (total (carries x) (idle_workers n) ≡ 0) × (total (runs x) (idle_workers n) ≡ 0)
unfolding idle_workers
idle-total x zero = (refl, refl)
idle-total x (suc n) = let (a, b) = idle-total x n in (omega arith, omega arith)

empty_start :
    {J : Type 0} (x n : ℕ) (e : Engine J)
    → e.records ≡ []
    → contents e.queue.scheduler ≡ []
    → e.pending ≡ []
    → e.workers ≡ idle_workers n
    → Accounted x e
empty_start x n e r q p w =
    rw (r, q, p, w)
      (unfold find_record queued in (omega (arith, (idle-total x n).0), (idle-total x n).1))

pub init-Accounted :
    {J : Type 0} (x : ℕ) (config : SchedulerConfig) (n : ℕ) (journal : Option J) (e : Engine J)
    → State.init config n journal ≡ ok e
    → Accounted x e
unfolding State.init Queue.init
init-Accounted {J} x config n journal e h = go (make_scheduler config) refl h
  where
    begin : TaskQueue → Engine J
    begin q = record {
      queue = q;
      records = [];
      next_job_id = 1;
      next_sequence = 0;
      accepting = true;
      journal = journal;
      workers = idle_workers n;
      pending = [];
    }

    go :
        (r : Result IScheduler)
        → make_scheduler config ≡ r
        → ((r >>= λ s. ok (record { scheduler = s; config = config; closed = false })) >>= λ q.
            ok (begin q))
          ≡ ok e
        → Accounted x e
    go (err error) m h = absurd (cc)
    go (ok s) m h =
        subst (λ k. Accounted x k) (ok-injective h)
          (empty_start x n (begin (record { scheduler = s; config = config; closed = false })) refl
            (contents-make_scheduler config m) refl refl)

pub init-IsFresh :
    {J : Type 0} (config : SchedulerConfig) (n : ℕ) (journal : Option J) (e : Engine J)
    → State.init config n journal ≡ ok e
    → IsFresh e
unfolding State.init
init-IsFresh {J} config n journal e h = go (Queue.init config) h
  where
    begin : TaskQueue → Engine J
    begin q = record {
      queue = q;
      records = [];
      next_job_id = 1;
      next_sequence = 0;
      accepting = true;
      journal = journal;
      workers = idle_workers n;
      pending = [];
    }

    go : (r : Result TaskQueue) → (r >>= λ q. ok (begin q)) ≡ ok e → IsFresh e
    go (err error) h = absurd (cc)
    go (ok q) h = subst (λ k. IsFresh k) (ok-injective h) tt

-- Not more than one worker runs the job, and then it has no other place.
abbrev pub RunsAlone : {J : Type 0} → ℕ → Engine J → Type 0
RunsAlone x e =
    (total (runs x) e.workers ≡ 0)
    ⊎ ((total (runs x) e.workers ≡ 1) × (outside x e + total (carries x) e.workers ≡ 1))

stands_alone :
    (s : JobState) (r : JobRecord) (h n : ℕ) → Stands s r h n → (n ≡ 0) ⊎ ((n ≡ 1) × (h ≡ 1))
stands_alone JobState.new r h n d = absurd d
stands_alone JobState.ready r h n (a, b, o) = inl b
stands_alone JobState.running r h n (a, b, o) = inr (b, a)
stands_alone JobState.completed r h n (a, b, o) = inl b
stands_alone JobState.failed r h n (a, b, o) = inl b
stands_alone JobState.cancelled r h n (a, b, o) = inl b

pub runs_alone : {J : Type 0} (x : ℕ) (e : Engine J) → Accounted x e → RunsAlone x e
runs_alone x e p = go (find_record x e.records) p
  where
    go :
        (o : Option JobRecord)
        → IsAt x o (outside x e + total (carries x) e.workers) (total (runs x) e.workers)
        → RunsAlone x e
    go none d = inl d.1
    go (some r) (_, _, d) = stands_alone r.snapshot.state r _ _ d

IsEnded-of : (s : JobState) (r : JobRecord) (h n : ℕ) → h ≡ 0 → Stands s r h n → IsEnded r
IsEnded-of JobState.new r h n z d = absurd d
IsEnded-of JobState.ready r h n z (a, b, o) = absurd (omega arith)
IsEnded-of JobState.running r h n z (a, b, o) = absurd (omega arith)
IsEnded-of JobState.completed r h n z d = d.2
IsEnded-of JobState.failed r h n z d = d.2
IsEnded-of JobState.cancelled r h n z d = d.2

-- A job that is in account and has no place left has ended.
pub Accounted-IsEnded :
    {J : Type 0} (x : ℕ) (e : Engine J) (r : JobRecord)
    → Accounted x e
    → contents e.queue.scheduler ≡ []
    → e.pending ≡ []
    → all_exited e.workers ≡ true
    → find_record x e.records ≡ some r
    → IsEnded r
Accounted-IsEnded x e r a q p w f =
    IsEnded-of r.snapshot.state r (outside x e + total (carries x) e.workers)
      (total (runs x) e.workers) nowhere
      (subst (λ o. IsAt x o (outside x e + total (carries x) e.workers) (total (runs x) e.workers))
        f a).2
  where
    nowhere : outside x e + total (carries x) e.workers ≡ 0
    nowhere = rw (q, p, (all_exited-total x e.workers w).0) (unfold queued in omega arith)
