-- ===== src/Engine/Ended.antt =====
-- An engine of src/task_engine.cpp that was shut down and joined.
use omni_sched.Base.{
  ℕ, suc, true, Option, some, List, [], ◌≡◌, refl, subst, inl, inr, Result, ok, err, ok-injective,
  ◌>>=◌,
}
use omni_sched.Types.{SchedulerConfig}
use omni_sched.Journal.{IJobJournal}
use omni_sched.Engine.Job.{JobRecord}
use omni_sched.Engine.Registry.{find_record}
use omni_sched.Engine.Queue
use omni_sched.Engine.Queue.{TaskQueue}
use omni_sched.Engine.State
use omni_sched.Engine.State.{Engine, Worker, idle_workers}
use omni_sched.Engine.Control.{all_exited}
use omni_sched.Engine.Outcome.{IsEnded}
use omni_sched.Engine.StepPlaces.{Accounted}
use omni_sched.Engine.Popping.{IsServed}
use omni_sched.Scheduler.Contract.{contents}
use omni_sched.Engine.Invariant.{Accounted-IsEnded}
use omni_sched.Engine.Sections.{System, Move, run_moves}
use omni_sched.Engine.Reached.{AdmitsAll, Reachable, Reachable-Accounted, run_moves-Reachable}
use omni_sched.Engine.SectionServed.{run_moves-IsServed}

-- A served engine whose workers have all exited, with no submission pending, has only ended jobs.
pub served-IsEnded :
    {J : Type 0} (x : ℕ) (e : Engine J) (r : JobRecord)
    → Accounted x e
    → IsServed e
    → e.pending ≡ []
    → all_exited e.workers ≡ true
    → find_record x e.records ≡ some r
    → IsEnded r
served-IsEnded x e r a (inl l) p w f = absurd (cc)
served-IsEnded x e r a (inr (c, n)) p w f = Accounted-IsEnded x e r a n p w f

served-contents :
    {J : Type 0} (e : Engine J)
    → IsServed e
    → all_exited e.workers ≡ true
    → contents e.queue.scheduler ≡ []
served-contents e (inl l) w = absurd (cc)
served-contents e (inr (c, n)) w = n

pub init-IsServed :
    {J : Type 0} (config : SchedulerConfig) (n : ℕ) (journal : Option J) (e : Engine J)
    → State.init config (suc n) journal ≡ ok e
    → IsServed e
unfolding State.init idle_workers all_exited
init-IsServed {J} config n journal e h = go (Queue.init config) h
  where
    begin : TaskQueue → Engine J
    begin q = record {
      queue = q;
      records = [];
      next_job_id = 1;
      next_sequence = 0;
      accepting = true;
      journal = journal;
      workers = idle_workers (suc n);
      pending = [];
    }

    go : (r : Result TaskQueue) → (r >>= λ q. ok (begin q)) ≡ ok e → IsServed e
    go (err error) h = absurd (cc)
    go (ok q) h = subst (λ k. IsServed k) (ok-injective h) (inl refl)

module _ {J : Type 0} ⦃impl : IJobJournal J⦄ where
  -- An engine with at least one worker, after any moves of clients and workers, between the sections
  -- of `submit`, `restore` and `shutdown` too, in any order that `Admits` allows (the counter of IDs
  -- does not wrap around, a `restore` in sections enters an ID that is below the counter while no
  -- `submit` is between drawing that ID and its own entry into the map, and a `submit` or `restore`
  -- that is one move begins while no other call of the two is between its sections): once every
  -- worker has exited, no submission that is in the map is still to be pushed and no drained entry is
  -- still to be cancelled, nothing was left behind in the queue, and every job has ended with its
  -- promise set exactly once, to what its snapshot says.
  pub run-IsEnded :
      (config : SchedulerConfig) (n : ℕ) (journal : Option J) (e : Engine J) (moves : List Move)
      → State.init config (suc n) journal ≡ ok e
      → AdmitsAll moves (record { engine = e; calls = [] })
      → (run_moves moves (record { engine = e; calls = [] })).engine.pending ≡ []
      → all_exited (run_moves moves (record { engine = e; calls = [] })).engine.workers ≡ true
      → (contents (run_moves moves (record { engine = e; calls = [] })).engine.queue.scheduler ≡ [])
        × ((x : ℕ) (r : JobRecord)
            → find_record x (run_moves moves (record { engine = e; calls = [] })).engine.records
              ≡ some r
            → IsEnded r)
  run-IsEnded config n journal e moves i f p w = (
    served-contents s.engine served w,
    λ x r q.
        served-IsEnded x s.engine r
          (Reachable-Accounted
            (run_moves-Reachable moves start f (Reachable.initially config (suc n) journal i)) x)
          served p w q,
  )
    where
      start : System J
      start = record { engine = e; calls = [] }

      s : System J
      s = run_moves moves start

      served : IsServed s.engine
      served = run_moves-IsServed moves start (init-IsServed config n journal e i)
