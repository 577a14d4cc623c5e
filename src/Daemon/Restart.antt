-- ===== src/Daemon/Restart.antt =====
-- The second loop of the constructor of `Daemon` in apps/kronos_engine.cpp: restored jobs.
use omni_sched.Base.{
  ℕ, ◌≤◌, ◌<◌, Bool, true, false, Option, none, some, List, [], ◌∷◌, ◌++◌, if◌then◌else◌, ◌≡◌, refl,
  sym, ap, subst, ◌∙◌, ◌⊎◌, inl, inr, Error, Result, ok, err, append-nil, append_assoc, arith,
  get_elem?,
}
use omni_sched.Types.{unlimited_work, is_terminal}
use omni_sched.Journal.{JobTransitionRecord}
use omni_sched.Factory.Create
use omni_sched.Factory.Create.{Task}
use omni_sched.Wal.Append.{WalManager, wal_journal}
use omni_sched.Wal.Parse.{RecoveredJob}
use omni_sched.Engine.State.{Engine}
use omni_sched.Engine.Submit.{restore_begin}
use omni_sched.Engine.Step.{Action, step, work}
use omni_sched.Engine.Keys.{keys, KeepsKeys, work-KeepsKeys, submit_end-KeepsKeys}
use omni_sched.Engine.Pending.{restore_begin-Enters, Enters}
use omni_sched.Engine.Restoring.{AddsKey, restore_begin-AddsKey}
use omni_sched.Daemon.State.{Daemon, Works, work_all, observe}
use omni_sched.Daemon.Quiet.{
  IsSound, IsQuiet, step-IsSound, work_all-IsSound, work_all-pending, entered-IsQuiet,
}
use omni_sched.Daemon.Reserve.{Fitting}
use omni_sched.Daemon.Recovery.{
  Outcome, journal_failure, give_up, restored, restore_with, restore_job, restore_all, with_works,
  failure_record,
}

work_all-KeepsKeys : (works : Works) (e : Engine WalManager) → KeepsKeys e (work_all works e)
unfolding work_all
work_all-KeepsKeys [] e = (refl, refl)
work_all-KeepsKeys ((k, slice) ∷ works) e =
    let (p, q) = work-KeepsKeys k slice (get_elem? e.workers k) e in
    let (p', q') = work_all-KeepsKeys works (work k slice (get_elem? e.workers k) e) in
    (p' ∙ p, q' ∙ q)

-- The IDs are those of some of the jobs that have not ended, in the order of the jobs.
pub data Restores : List RecoveredJob → List ℕ → Type 0 where
  all_done : Restores [] []
  restores :
      (job : RecoveredJob) {jobs : List RecoveredJob} {ids : List ℕ}
      → is_terminal job.state ≡ false
      → Restores jobs ids
      → Restores (job ∷ jobs) (job.submission.id ∷ ids)
  leaves_out :
      (job : RecoveredJob) {jobs : List RecoveredJob} {ids : List ℕ}
      → Restores jobs ids
      → Restores (job ∷ jobs) ids

-- One round: the job is left out, or has not ended and is the last in the map and of those observed.
abbrev Follows : RecoveredJob → Daemon → Daemon → Type 0
Follows job d d' =
    ((d'.observers ≡ d.observers) × (keys d'.engine.records ≡ keys d.engine.records))
    ⊎ ((is_terminal job.state ≡ false)
        × (d'.observers ≡ d.observers ++ job.submission.id ∷ [])
        × (keys d'.engine.records ≡ keys d.engine.records ++ job.submission.id ∷ []))

abbrev Round : RecoveredJob → Daemon → Outcome → Type 0
Round job d (d', r) =
    IsQuiet d'.engine × (d.engine.next_job_id ≤ d'.engine.next_job_id) × Follows job d d'

journal_failure-Keeps :
    (journal : Option WalManager) (failure : JobTransitionRecord) (d : Daemon)
    → IsQuiet d.engine
    → IsQuiet (journal_failure journal failure d).0.engine
      × ((journal_failure journal failure d).0.engine.next_job_id ≡ d.engine.next_job_id)
      × ((journal_failure journal failure d).0.observers ≡ d.observers)
      × ((journal_failure journal failure d).0.engine.records ≡ d.engine.records)
unfolding journal_failure
journal_failure-Keeps none failure d h = (h, refl, refl, refl)
journal_failure-Keeps (some wal) failure d h = (h, refl, refl, refl)

give_up-Round :
    (job : RecoveredJob) (error : Error) (d d1 : Daemon)
    → IsQuiet d1.engine
    → KeepsKeys d.engine d1.engine
    → d1.observers ≡ d.observers
    → Round job d (give_up job error d1)
unfolding give_up
give_up-Round job error d d1 h (k, n) o =
    let (q, m, b, r) = journal_failure-Keeps d1.engine.journal (failure_record job error) d1 h in
    (q, omega arith, inl (b ∙ o, ap keys r ∙ k))

restored-Round :
    (works : Works) (job : RecoveredJob) (d : Daemon) (out : Engine WalManager × Result ℕ)
    → is_terminal job.state ≡ false
    → IsSound out.0
    → Enters [] out
    → AddsKey job.submission.id d.engine out
    → Round job d (restored works job d out)
unfolding restored observe
restored-Round works job d (e, err error) t s n k =
    give_up-Round job error d (record d { engine = e }) (s, n) k refl
restored-Round works job d (e, ok id) t s n (i, k, m) =
    let (p, q) = work_all-KeepsKeys works e in
    let (p', q') = submit_end-KeepsKeys id (work_all works e) in
    (
      entered-IsQuiet works id e s n,
      omega arith,
      inr (t, ap (λ x. d.observers ++ x ∷ []) i, p' ∙ p ∙ k),
    )

restore_with-Round :
    (works : Works) (job : RecoveredJob) (d : Daemon) (task : Result Task)
    → is_terminal job.state ≡ false
    → job.submission.id < unlimited_work
    → IsQuiet d.engine
    → Round job d (restore_with works job d task)
unfolding restore_with
restore_with-Round works job d (err error) t l h = give_up-Round job error d d h (refl, refl) refl
restore_with-Round works job d (ok task) t l (s, p) =
    restored-Round works job d (restore_begin job.submission d.engine) t
      (unfold step in step-IsSound (Action.restores job.submission) d.engine l s)
      (subst (λ ps. Enters ps (restore_begin job.submission d.engine)) p
        (restore_begin-Enters job.submission d.engine))
      (restore_begin-AddsKey job.submission d.engine)

restore_job-Round :
    (works : Works) (job : RecoveredJob) (d : Daemon)
    → job.submission.id < unlimited_work
    → IsQuiet d.engine
    → Round job d (restore_job works job d)
unfolding restore_job
restore_job-Round works job d l h = go (is_terminal job.state) refl
  where
    go :
        (b : Bool)
        → is_terminal job.state ≡ b
        → Round job d (
            if b then (d, ok tt) else restore_with works job d (Create.restore job.submission.task))
    go true q = (h, omega arith, inl (refl, refl))
    go false q = restore_with-Round works job d _ q l h

-- The second loop.
abbrev pub Restarted : List RecoveredJob → Daemon → Outcome → Type 0
Restarted jobs d (d', err error) = Unit {0}
Restarted jobs d (d', ok done) =
    IsQuiet d'.engine
    × (d.engine.next_job_id ≤ d'.engine.next_job_id)
    × ((ids : List ℕ) × Restores jobs ids
        × (d'.observers ≡ d.observers ++ ids)
        × (keys d'.engine.records ≡ keys d.engine.records ++ ids))

followed :
    (job : RecoveredJob) (jobs : List RecoveredJob) (d d1 d2 : Daemon) (out : Outcome)
    → Round job d (d1, ok tt)
    → d2.observers ≡ d1.observers
    → KeepsKeys d1.engine d2.engine
    → Restarted jobs d2 out
    → Restarted (job ∷ jobs) d out
followed job jobs d d1 d2 (d', err error) r o k h = tt
followed job jobs d d1 d2 (d', ok done) (q, m, inl (b, c)) o (k, n) (q', m', (ids, s, b', c')) = (
  q',
  omega arith,
  (ids, leaves_out job s, b' ∙ ap (λ x. x ++ ids) (o ∙ b), c' ∙ ap (λ x. x ++ ids) (k ∙ c)),
)
followed job jobs d d1 d2 (d', ok done) (q, m, inr (t, b, c)) o (k, n) (q', m', (ids, s, b', c')) =
    (
      q',
      omega arith,
      (
        job.submission.id ∷ ids,
        restores job t s,
        b' ∙ ap (λ x. x ++ ids) (o ∙ b) ∙ append_assoc d.observers (job.submission.id ∷ []) ids,
        c'
            ∙ ap (λ x. x ++ ids) (k ∙ c)
            ∙ append_assoc (keys d.engine.records) (job.submission.id ∷ []) ids,
      ),
    )

behind_round : Works → Daemon → Daemon
behind_round works d = record d { engine = work_all works d.engine }

behind-IsQuiet :
    (works : Works) (d : Daemon) → IsQuiet d.engine → IsQuiet (behind_round works d).engine
unfolding behind_round
behind-IsQuiet works d (s, p) =
    (work_all-IsSound works d.engine s, work_all-pending works d.engine ∙ p)

Round-Restarted :
    (job : RecoveredJob) (jobs : List RecoveredJob) (works : List (Works × Works)) (behind : Works)
    (d : Daemon) (out : Outcome)
    → Round job d out
    → (IsQuiet (behind_round behind out.0).engine
        → Restarted jobs
            (behind_round behind out.0)
            (restore_all (with_works jobs works) (behind_round behind out.0)))
    → Restarted (job ∷ jobs) d (elim (out.1) as (λ _. Outcome) [
      | err error ↦ (out.0, err error)
      | ok done ↦ restore_all (with_works jobs works) (behind_round behind out.0)
    ])
Round-Restarted job jobs works behind d (d1, err error) r ih = tt
Round-Restarted job jobs works behind d (d1, ok done) r ih =
    followed job jobs d d1 (behind_round behind d1)
      (restore_all (with_works jobs works) (behind_round behind d1)) r (unfold behind_round in refl)
      (unfold behind_round in work_all-KeepsKeys behind d1.engine)
      (ih (behind-IsQuiet behind d1 r.0))

pub restore_all-Restarted :
    (jobs : List RecoveredJob) (works : List (Works × Works)) (d : Daemon)
    → Fitting jobs
    → IsQuiet d.engine
    → Restarted jobs d (restore_all (with_works jobs works) d)
unfolding restore_all with_works behind_round
restore_all-Restarted [] works d f h =
    (h, omega arith, ([], all_done, sym (append-nil _), sym (append-nil _)))
restore_all-Restarted (job ∷ jobs) [] d (l, f) h =
    Round-Restarted job jobs [] [] d (restore_job [] job d) (restore_job-Round [] job d l h)
      (restore_all-Restarted jobs [] (behind_round [] (restore_job [] job d).0) f)
restore_all-Restarted (job ∷ jobs) ((inside, behind) ∷ works) d (l, f) h =
    Round-Restarted job jobs works behind d (restore_job inside job d)
      (restore_job-Round inside job d l h)
      (restore_all-Restarted jobs works (behind_round behind (restore_job inside job d).0) f)
