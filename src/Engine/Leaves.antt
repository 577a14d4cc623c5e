-- ===== src/Engine/Leaves.antt =====
-- Steps of src/task_engine.cpp that leave the queue and the workers, and those that change the queue alone.
use omni_sched.Base.{
  ℕ, text, Bool, true, false, Option, none, some, [], ◌≡◌, refl, sym, subst, ap, ◌∙◌, inl, inr, not,
  if◌then◌else◌, Error, logic_error, invalid_argument, Result, ok, err, ◌>>=◌, ◌>>◌, guard,
}
use omni_sched.Types.{SchedulerConfig, JobSnapshot}
use omni_sched.Scheduler.{IScheduler, make_scheduler, drain, push}
use omni_sched.Scheduler.Contract.{drain-perm}
use omni_sched.Engine.Queue
use omni_sched.Engine.Queue.{TaskQueue, push_external, push_all, close_and_drain_pending}
use omni_sched.Engine.Job.{JobRecord, new_record}
use omni_sched.Engine.Registry.{find_record}
use omni_sched.Engine.State.{Engine, Push, enter, advance_counter, next}
use omni_sched.Engine.Submit.{accept, accept_restored}
use omni_sched.Engine.Control.{set_scheduler, all_exited, join_workers}
use omni_sched.Engine.Step.{joined}
use omni_sched.Engine.Popping.{IsDrained, IsServed}

-- The queue and the workers are as they were.
abbrev pub Leaves : {J : Type 0} → Engine J → Engine J → Type 0
Leaves e e' = (e'.queue ≡ e.queue) × (e'.workers ≡ e.workers)

pub left-IsServed : {J : Type 0} (e e' : Engine J) → Leaves e e' → IsServed e → IsServed e'
left-IsServed e e' (p, q) (inl l) = inl (ap all_exited q ∙ l)
left-IsServed e e' (p, q) (inr d) = inr (subst (λ k. IsDrained k) (sym p) d)

-- While the queue is open a worker is left.
pub open_live :
    {J : Type 0} (e : Engine J) → IsServed e → e.queue.closed ≡ false → all_exited e.workers ≡ false
open_live e (inl l) c = l
open_live e (inr (d, _)) c = absurd (cc)

pub two_guards :
    {J : Type 0} (a b : Bool) (e : Engine J) (error error' : Error) (out : Engine J × Result ℕ)
    → Leaves e out.0
    → Leaves e (if a then (e, err error) else if b then (e, err error') else out).0
two_guards true b e error error' out p = (refl, refl)
two_guards false true e error error' out p = (refl, refl)
two_guards false false e error error' out p = p

pub accept-Leaves :
    {J : Type 0} (push : Push) (initial : JobSnapshot) (e : Engine J)
    (out : Engine J × Result (Unit {0}))
    → Leaves e out.0
    → Leaves e (accept push initial out).0
unfolding accept enter
accept-Leaves push initial e (e', err error) p = p
accept-Leaves push initial e (e', ok u) p = p

pub accept_restored-Leaves :
    {J : Type 0} (push : Push) (initial : JobSnapshot) (e : Engine J)
    (out : Engine J × Result (Unit {0}))
    → Leaves e out.0
    → Leaves e (accept_restored push initial out).0
unfolding accept_restored enter
accept_restored-Leaves push initial e (e', err error) p = p
accept_restored-Leaves {J} push initial e (e', ok u) p = go (find_record push.entry.id e'.records)
  where
    m : ℕ
    m = advance_counter e'.next_job_id (next push.entry.id)

    n : ℕ
    n = advance_counter e'.next_sequence (next push.entry.submission_sequence)

    go :
        (o : Option JobRecord)
        → Leaves e
            (elim o as (λ _. Engine J × Result ℕ) [
              | some old ↦ (e', err (invalid_argument (text "recovered job ID already exists")))
              | none ↦ (
                record (enter push (new_record initial push.entry) e') {
                  next_job_id = m;
                  next_sequence = n;
                },
                ok push.entry.id,
              )
            ]).0
    go none = p
    go (some old) = p

pub set_scheduler-IsServed :
    {J : Type 0} (config : SchedulerConfig) (e : Engine J)
    → IsServed e
    → IsServed (set_scheduler config e).0
unfolding set_scheduler Queue.set_scheduler
set_scheduler-IsServed {J} config e s =
    go (not e.accepting) (make_scheduler config) e.queue.closed refl
  where
    replaced : IScheduler → TaskQueue
    replaced replacement = record (e.queue) {
      scheduler = push_all replacement (drain e.queue.scheduler).0;
      config = config;
    }

    open_served :
        (replacement : IScheduler)
        → e.queue.closed ≡ false
        → IsServed (record e { queue = replaced replacement })
    open_served replacement c = inl (open_live e s c)

    go :
        (b : Bool) (m : Result IScheduler) (c : Bool)
        → e.queue.closed ≡ c
        → IsServed
            (if b
              then (e, err (logic_error (text "cannot change scheduler after shutdown")))
              else elim (m >>= λ replacement.
                    guard (not c) (logic_error (text "cannot change scheduler after shutdown"))
                    >> ok (replaced replacement))
                  as (λ _. Engine J × Result (Unit {0})) [
                    | err error ↦ (e, err error)
                    | ok queue ↦ (record e { queue = queue }, ok tt)
                  ]).0
    go true m c q = s
    go false (err error) c q = s
    go false (ok replacement) true q = s
    go false (ok replacement) false q = open_served replacement q

pub shut_IsServed :
    (b : Bool) (q : TaskQueue) → IsDrained q → IsDrained (close_and_drain_pending b q).1
unfolding close_and_drain_pending
shut_IsServed true q (c, n) = (refl, (drain-perm q.scheduler).1)
shut_IsServed false q (c, n) = (refl, n)

pub join-IsServed : {J : Type 0} (e : Engine J) → IsServed e → IsServed (joined e (join_workers e))
unfolding joined join_workers
join-IsServed {J} e s = go (all_exited e.workers) refl s
  where
    go :
        (b : Bool)
        → all_exited e.workers ≡ b
        → IsServed e
        → IsServed (joined e (if b then some (record e { workers = [] }) else none))
    go false p s = s
    go true p (inl l) = absurd (cc)
    go true p (inr d) = inr d
