-- ===== src/Daemon/Reserve.antt =====
-- The first loop of the constructor of `Daemon` in apps/kronos_engine.cpp: reserved identities.
use omni_sched.Base.{
  ℕ, ◌≤◌, ◌<◌, Bool-cases, List, [], ◌∷◌, ◌==◌, ◌≡◌, refl, ◌∙◌, inl, inr, Result, ok, err, All,
  All-mono, arith,
}
use omni_sched.Types.{unlimited_work}
use omni_sched.Wal.Append.{WalManager, wal_journal}
use omni_sched.Wal.Parse.{RecoveredJob}
use omni_sched.Engine.State.{Engine}
use omni_sched.Engine.Submit.{reserve_recovered_identity}
use omni_sched.Engine.Step.{Action, step}
use omni_sched.Engine.Restoring.{advanced}
use omni_sched.Daemon.Quiet.{IsSound, step-IsSound}
use omni_sched.Daemon.Recovery.{reserve_all}

-- The IDs of the log leave room in the counter.
abbrev pub Fitting : List RecoveredJob → Type 0
Fitting jobs = All (λ job. job.submission.id < unlimited_work) jobs

-- The counter has passed the IDs.
abbrev pub Reserved : ℕ → List RecoveredJob → Type 0
Reserved n jobs = All (λ job. job.submission.id < n) jobs

pub Reserved-mono : (n m : ℕ) (jobs : List RecoveredJob) → n ≤ m → Reserved n jobs → Reserved m jobs
Reserved-mono n m jobs l h =
    All-mono (λ job. job.submission.id < n) (λ job. job.submission.id < m) (λ job p. omega arith)
      jobs h

-- An identity is reserved: the map and the pending calls are as before, the counter is past the ID.
abbrev Reserves : ℕ → Engine WalManager → Engine WalManager × Result (Unit {0}) → Type 0
Reserves id e (e', err error) = e' ≡ e
Reserves id e (e', ok done) =
    (e'.records ≡ e.records)
    × (e'.pending ≡ e.pending)
    × (e.next_job_id ≤ e'.next_job_id)
    × (id < e'.next_job_id)

reserve-Reserves :
    (job : RecoveredJob) (e : Engine WalManager)
    → job.submission.id < unlimited_work
    → Reserves job.submission.id e (reserve_recovered_identity job.submission e)
unfolding reserve_recovered_identity
reserve-Reserves job e l = elim (Bool-cases (job.submission.id == 0)) [
  | inl q ↦ rw q refl
  | inr q ↦ rw q (let (a, b) = advanced e.next_job_id job.submission.id l in (refl, refl, a, b))
]

-- The first loop.
abbrev pub ReservesAll :
    List RecoveredJob → Engine WalManager → Engine WalManager × Result (Unit {0}) → Type 0
ReservesAll jobs e (e', err error) = Unit {0}
ReservesAll jobs e (e', ok done) =
    IsSound e'
    × (e'.records ≡ e.records)
    × (e'.pending ≡ e.pending)
    × (e.next_job_id ≤ e'.next_job_id)
    × Reserved e'.next_job_id jobs

reserved_on :
    (job : RecoveredJob) (jobs : List RecoveredJob) (e e1 : Engine WalManager) (done : Unit {0})
    (out : Engine WalManager × Result (Unit {0}))
    → Reserves job.submission.id e (e1, ok done)
    → ReservesAll jobs e1 out
    → ReservesAll (job ∷ jobs) e out
reserved_on job jobs e e1 done (e', err error) r h = tt
reserved_on job jobs e e1 done (e', ok done') (p, q, m, k) (s', p', q', m', k') =
    (s', p' ∙ p, q' ∙ q, omega arith, (omega arith, k'))

pub reserve_all-ReservesAll :
    (jobs : List RecoveredJob) (e : Engine WalManager)
    → IsSound e
    → Fitting jobs
    → ReservesAll jobs e (reserve_all jobs e)
unfolding reserve_all
reserve_all-ReservesAll [] e s f = (s, refl, refl, omega arith, tt)
reserve_all-ReservesAll (job ∷ jobs) e s (l, f) =
    go (reserve_recovered_identity job.submission e).1 (reserve-Reserves job e l) (
      reserve_all-ReservesAll jobs (reserve_recovered_identity job.submission e).0
        (unfold step in step-IsSound (Action.reserves job.submission) e l s) f)
  where
    e1 : Engine WalManager
    e1 = (reserve_recovered_identity job.submission e).0

    go :
        (r : Result (Unit {0}))
        → Reserves job.submission.id e (e1, r)
        → ReservesAll jobs e1 (reserve_all jobs e1)
        → ReservesAll (job ∷ jobs) e (elim r as (λ _. Engine WalManager × Result (Unit {0})) [
          | err error ↦ (e1, err error)
          | ok done ↦ reserve_all jobs e1
        ])
    go (err error) p h = tt
    go (ok done) p h = reserved_on job jobs e e1 done (reserve_all jobs e1) p h
