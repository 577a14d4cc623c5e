-- ===== src/Engine/StepPlaces.antt =====
-- A worker's step among the other workers of src/task_engine.cpp, on the places of every job.
use omni_sched.Base.{
  ℕ, zero, suc, ◌+◌, ◌-◌, ◌≤◌, Option, none, some, List, [], ◌∷◌, ◌≡◌, get_elem?, set, arith,
}
use omni_sched.Journal.{IJobJournal}
use omni_sched.Engine.Registry.{find_record}
use omni_sched.Engine.State.{Engine, Worker}
use omni_sched.Engine.Worker.{Slice}
use omni_sched.Engine.Step.{worker_step, place, work}
use omni_sched.Engine.Count.{carries, runs, total, total-set, runs_others}
use omni_sched.Engine.Accounting.{IsAt}
use omni_sched.Engine.Placed.{IsAt-places}
use omni_sched.Engine.WorkerPlaces.{outside, Accounts, worker_step-Accounts, worker_step-workers}

-- The job `x` stands where the queue, the pending pushes and the workers have it.
abbrev pub Accounted : {J : Type 0} → ℕ → Engine J → Type 0
Accounted x e =
    IsAt x (find_record x e.records) (outside x e + total (carries x) e.workers)
      (total (runs x) e.workers)

pub total_at :
    (f : Worker → ℕ) (ws : List Worker) (k : ℕ) (w : Worker)
    → get_elem? ws k ≡ some w
    → f w ≤ total f ws
total_at f [] k w h = cc
total_at f (v ∷ ws) zero w h = ground arith
total_at f (v ∷ ws) (suc k) w h = omega (arith, total_at f ws k w h)

module _ {J : Type 0} ⦃impl : IJobJournal J⦄ where
  place-Accounted :
      (x k : ℕ) (e : Engine J) (w : Worker) (out : Engine J × Worker)
      → get_elem? e.workers k ≡ some w
      → out.0.workers ≡ e.workers
      → Accounts x
          (total (carries x) e.workers - carries x w)
          (total (runs x) e.workers - runs x w)
          out
      → Accounted x (place k out)
  unfolding place
  place-Accounted x k e w (e', w') h q p =
      IsAt-places x _ (omega (arith, total_at (carries x) e.workers k w h, moved (carries x)))
        (omega (arith, total_at (runs x) e.workers k w h, moved (runs x))) p
    where
      moved : (f : Worker → ℕ) → total f (set e'.workers k w') + f w ≡ total f e.workers + f w'
      moved f = rw q (total-set f e.workers k w w' h)

  work-some :
      (x k : ℕ) (slice : Slice) (w : Worker) (e : Engine J)
      → get_elem? e.workers k ≡ some w
      → ((y : ℕ) → Accounted y e)
      → Accounted x (place k (worker_step w slice e))
  work-some x k slice w e h p =
      place-Accounted x k e w _ h (worker_step-workers w slice e)
        (worker_step-Accounts x _ _ w slice e fewer before)
    where
      fewer :
          (y : ℕ) → total (runs y) e.workers - runs y w ≤ total (carries y) e.workers - carries y w
      fewer y = omega (arith, runs_others y e.workers k w h)

      before :
          (y : ℕ)
          → Accounts y
              (total (carries y) e.workers - carries y w)
              (total (runs y) e.workers - runs y w)
              (e, w)
      before y =
          IsAt-places y _ (omega (arith, total_at (carries y) e.workers k w h))
            (omega (arith, total_at (runs y) e.workers k w h)) (p y)

  pub work-Accounted :
      (x k : ℕ) (slice : Slice) (o : Option Worker) (e : Engine J)
      → get_elem? e.workers k ≡ o
      → ((y : ℕ) → Accounted y e)
      → Accounted x (work k slice o e)
  unfolding work
  work-Accounted x k slice none e h p = p x
  work-Accounted x k slice (some w) e h p = work-some x k slice w e h p
