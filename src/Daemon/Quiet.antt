-- ===== src/Daemon/Quiet.antt =====
-- The engine between two requests of apps/kronos_engine.cpp, and the calls that a request makes of it.
use omni_sched.Base.{
  ℕ, ◌<◌, text, Bool-cases, Option, none, some, [], ◌∷◌, not, ◌≡◌, refl, ◌∙◌, subst, inl, inr,
  get_elem?, logic_error, Result, ok, err,
}
use omni_sched.Types.{unlimited_work, is_terminal, SchedulerConfig}
use omni_sched.Factory.Create.{CreatedTask}
use omni_sched.Wal.Append.{WalManager, wal_journal}
use omni_sched.Wal.Parse.{RecoveryReport}
use omni_sched.Wal.Recover.{recover}
use omni_sched.Engine.State.{Engine, put_record}
use omni_sched.Engine.Submit.{submit_begin, submit_end}
use omni_sched.Engine.Control.{cancel_found, cancel_live, set_scheduler}
use omni_sched.Engine.Job.{JobRecord}
use omni_sched.Engine.Queue
use omni_sched.Engine.Queue.{TaskQueue}
use omni_sched.Engine.Step.{Action, step, work}
use omni_sched.Engine.StepPlaces.{Accounted}
use omni_sched.Engine.Fresh.{IsFresh, Fits, IsFresh-find_record, step-IsFresh}
use omni_sched.Engine.Pending.{Enters, submit_begin-Enters, submit_end-pending, work-pending}
use omni_sched.Engine.Popping.{IsServed}
use omni_sched.Engine.Drain.{step-IsServed}
use omni_sched.Engine.Invariant.{step-Accounted}
use omni_sched.Daemon.State.{Daemon, Works, work_all, recover_log, observe}
use omni_sched.Daemon.Request.{Answer, failed, submitted, submit_created}

-- Every job is in account, every ID in the map below the counter, and a worker is left while something
-- waits or may come.
abbrev pub IsSound : {J : Type 0} → Engine J → Type 0
IsSound e = ((x : ℕ) → Accounted x e) × IsFresh e × IsServed e

-- Nor is a submission pending: so the engine stands between two requests.
abbrev pub IsQuiet : {J : Type 0} → Engine J → Type 0
IsQuiet e = IsSound e × (e.pending ≡ [])

pub step-IsSound : (a : Action) (e : Engine WalManager) → Fits a e → IsSound e → IsSound (step a e)
step-IsSound a e f (p, q, s) =
    (step-Accounted a e (IsFresh-find_record e q) p, step-IsFresh a e f q, step-IsServed a e s)

pub work_all-IsSound :
    (works : Works) (e : Engine WalManager) → IsSound e → IsSound (work_all works e)
unfolding work_all
work_all-IsSound [] e h = h
work_all-IsSound ((k, slice) ∷ works) e h =
    work_all-IsSound works (work k slice (get_elem? e.workers k) e)
      (unfold step in step-IsSound (Action.works k slice) e tt h)

pub work_all-pending :
    (works : Works) (e : Engine WalManager) → (work_all works e).pending ≡ e.pending
unfolding work_all
work_all-pending [] e = refl
work_all-pending ((k, slice) ∷ works) e =
    work_all-pending works (work k slice (get_elem? e.workers k) e)
    ∙ work-pending k slice (get_elem? e.workers k) e

-- A submission that was entered ends after the workers have acted, and leaves none pending.
pub entered-IsQuiet :
    (works : Works) (id : ℕ) (e : Engine WalManager)
    → IsSound e
    → Enters [] (e, ok id)
    → IsQuiet (submit_end id (work_all works e))
entered-IsQuiet works id e h (push, p, q, d) = (
  unfold step in step-IsSound (Action.pushes id) (work_all works e) tt (work_all-IsSound works e h),
  submit_end-pending push id (work_all works e) (work_all-pending works e ∙ p) q d,
)

abbrev pub LeavesQuiet : Answer → Type 0
LeavesQuiet a = IsQuiet a.0.engine

submitted-IsQuiet :
    (works : Works) (d : Daemon) (out : Engine WalManager × Result ℕ)
    → IsSound out.0
    → Enters [] out
    → LeavesQuiet (submitted works d out)
unfolding submitted observe
submitted-IsQuiet works d (e, err error) h n = (h, n)
submitted-IsQuiet works d (e, ok id) h n = entered-IsQuiet works id e h n

pub submit-IsQuiet :
    (works : Works) (d : Daemon) (created : Result CreatedTask)
    → d.engine.next_job_id < unlimited_work
    → IsQuiet d.engine
    → LeavesQuiet (submit_created works d created)
unfolding submit_created failed
submit-IsQuiet works d (err error) l h = h
submit-IsQuiet works d (ok created) l (h, p) =
    submitted-IsQuiet works d (submit_begin created.options d.engine)
      (unfold step in step-IsSound (Action.submits created.options) d.engine l h)
      (subst (λ ps. Enters ps (submit_begin created.options d.engine)) p
        (submit_begin-Enters created.options d.engine))

pub recover_log-IsQuiet :
    (repair : Result (Unit {0})) (e : Engine WalManager)
    → IsQuiet e
    → IsQuiet (recover_log repair e).0
unfolding recover_log
recover_log-IsQuiet repair e h = go e.journal
  where
    go :
        (o : Option WalManager)
        → IsQuiet
            (elim o as (λ _. Engine WalManager × Result RecoveryReport) [
              | none ↦ (e, err (logic_error (text "no journal")))
              | some wal ↦
                  (let (file, report) = recover repair wal.file in
                    (record e { journal = some (record wal { file = file }) }, report))
            ]).0
    go none = h
    go (some wal) = h

pub cancel-pending :
    (id : ℕ) (o : Option JobRecord) (e : Engine WalManager)
    → (cancel_found id o e).0.pending ≡ e.pending
unfolding cancel_found cancel_live put_record
cancel-pending id none e = refl
cancel-pending id (some r) e = elim (Bool-cases (is_terminal r.snapshot.state)) [
  | inl q ↦ rw q
  | inr q ↦ rw q
]

pub set_scheduler-pending :
    (config : SchedulerConfig) (e : Engine WalManager)
    → (set_scheduler config e).0.pending ≡ e.pending
unfolding set_scheduler
set_scheduler-pending config e = elim (Bool-cases (not e.accepting)) [
  | inl q ↦ rw q
  | inr q ↦ rw q (go (Queue.set_scheduler config e.queue))
]
  where
    go :
        (r : Result TaskQueue)
        → (elim r as (λ _. Engine WalManager × Result (Unit {0})) [
          | err error ↦ (e, err error)
          | ok queue ↦ (record e { queue = queue }, ok tt)
        ]).0.pending
          ≡ e.pending
    go (err error) = refl
    go (ok queue) = refl
