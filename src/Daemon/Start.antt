-- ===== src/Daemon/Start.antt =====
-- The daemon of apps/kronos_engine.cpp as it starts: its engine against the log that it found.
use omni_sched.Base.{
  ℕ, suc, text, true, Option, none, some, List, [], ◌++◌, ◌≡◌, refl, sym, ap, subst, ◌∙◌,
  logic_error, Result, ok, err, ok-injective, ◌>>=◌,
}
use omni_sched.Types.{SchedulerConfig}
use omni_sched.Transport.Endpoint.{Outlet}
use omni_sched.Wal.Append.{WalManager, wal_journal}
use omni_sched.Wal.Parse.{RecoveryReport}
use omni_sched.Wal.Recover.{recover}
use omni_sched.Engine.State
use omni_sched.Engine.State.{Engine, idle_workers}
use omni_sched.Engine.Queue
use omni_sched.Engine.Queue.{TaskQueue}
use omni_sched.Engine.Keys.{keys}
use omni_sched.Engine.Invariant.{init-Accounted, init-IsFresh}
use omni_sched.Engine.Ended.{init-IsServed}
use omni_sched.Daemon.State.{Daemon, Works, recover_log}
use omni_sched.Daemon.Quiet.{IsSound, IsQuiet}
use omni_sched.Daemon.Reserve.{
  Fitting, Reserved, Reserved-mono, ReservesAll, reserve_all-ReservesAll,
}
use omni_sched.Daemon.Restart.{Restores, Restarted, restore_all-Restarted}
use omni_sched.Daemon.Recovery.{
  Outcome, reserve_all, restore_all, with_works, fresh_daemon, recover_jobs, recover_report,
  construct,
}

-- An engine that was made and has done nothing.
abbrev IsNew : WalManager → Engine WalManager → Type 0
IsNew wal e = IsSound e × (e.records ≡ []) × (e.pending ≡ []) × (e.journal ≡ some wal)

init-fields :
    (config : SchedulerConfig) (n : ℕ) (wal : WalManager) (e : Engine WalManager)
    → State.init config n (some wal) ≡ ok e
    → (e.records ≡ []) × (e.pending ≡ []) × (e.journal ≡ some wal)
unfolding State.init
init-fields config n wal e h = go (Queue.init config) h
  where
    begin : TaskQueue → Engine WalManager
    begin q = record {
      queue = q;
      records = [];
      next_job_id = 1;
      next_sequence = 0;
      accepting = true;
      journal = some wal;
      workers = idle_workers n;
      pending = [];
    }

    go :
        (r : Result TaskQueue)
        → (r >>= λ q. ok (begin q)) ≡ ok e
        → (e.records ≡ []) × (e.pending ≡ []) × (e.journal ≡ some wal)
    go (err error) h = absurd (cc)
    go (ok q) h =
        subst (λ k. (k.records ≡ []) × (k.pending ≡ []) × (k.journal ≡ some wal)) (ok-injective h)
          (refl, refl, refl)

init-IsNew :
    (config : SchedulerConfig) (n : ℕ) (wal : WalManager) (e : Engine WalManager)
    → State.init config (suc n) (some wal) ≡ ok e
    → IsNew wal e
init-IsNew config n wal e h =
    let (r, p, j) = init-fields config (suc n) wal e h in
    let s : IsSound e = (
      λ x. init-Accounted x config (suc n) (some wal) e h,
      init-IsFresh config (suc n) (some wal) e h,
      init-IsServed config n (some wal) e h,
    ) in
    (s, r, p, j)

-- The log was read: nothing else of the engine has changed.
abbrev Read : Engine WalManager → Engine WalManager → Type 0
Read e e' = (e'.records ≡ e.records) × (e'.pending ≡ e.pending) × (IsSound e → IsSound e')

recover_log-Read :
    (repair : Result (Unit {0})) (wal : WalManager) (e : Engine WalManager)
    → e.journal ≡ some wal
    → (e' : Engine WalManager) × (recover_log repair e ≡ (e', (recover repair wal.file).1))
      × Read e e'
unfolding recover_log
recover_log-Read repair wal e h = go e.journal h
  where
    go :
        (o : Option WalManager)
        → o ≡ some wal
        → (e' : Engine WalManager) × ((elim o as (λ _. Engine WalManager × Result RecoveryReport) [
          | none ↦ (e, err (logic_error (text "no journal")))
          | some w ↦
              (let (file, report) = recover repair w.file in
                (record e { journal = some (record w { file = file }) }, report))
        ])
            ≡ (e', (recover repair wal.file).1))
          × Read e e'
    go none p = absurd (cc)
    go (some w) p =
        let e' : Engine WalManager = record e {
          journal = some (record w { file = (recover repair w.file).0 });
        } in
        let q : w ≡ wal = cc in
        (e', ap (λ v. (e', (recover repair v.file).1)) q, (refl, refl, λ s. s))

-- What the constructor leaves.
pub record Recovers (report : RecoveryReport) (d : Daemon) : Type 0 where
  pub quiet : IsQuiet d.engine
  pub reserved : Reserved d.engine.next_job_id report.jobs
  pub observed : Restores report.jobs d.observers
  pub stored : keys d.engine.records ≡ d.observers

abbrev Constructs : RecoveryReport → Outcome → Type 0
Constructs report (d, err error) = Unit {0}
Constructs report (d, ok done) = Recovers report d

Restarted-Recovers :
    (report : RecoveryReport) (server : Outlet) (e e1 : Engine WalManager) (out : Outcome)
    → e1.records ≡ []
    → Reserved e1.next_job_id report.jobs
    → Restarted report.jobs (record (fresh_daemon server e) { engine = e1 }) out
    → Constructs report out
unfolding fresh_daemon
Restarted-Recovers report server e e1 (d, err error) r k h = tt
Restarted-Recovers report server e e1 (d, ok done) r k (q, m, (ids, s, b, c)) = record {
  quiet = q;
  reserved = Reserved-mono e1.next_job_id d.engine.next_job_id report.jobs m k;
  observed = subst (λ xs. Restores report.jobs xs) (sym b) s;
  stored = c ∙ ap (λ x. keys x ++ ids) r ∙ sym b;
}

recover_jobs-Constructs :
    (works : List (Works × Works)) (report : RecoveryReport) (server : Outlet)
    (e : Engine WalManager)
    → Fitting report.jobs
    → IsSound e
    → e.records ≡ []
    → e.pending ≡ []
    → Constructs report (recover_jobs works report.jobs (fresh_daemon server e))
unfolding recover_jobs fresh_daemon
recover_jobs-Constructs works report server e f s r p =
    go (reserve_all report.jobs e).1 (reserve_all-ReservesAll report.jobs e s f)
  where
    e1 : Engine WalManager
    e1 = (reserve_all report.jobs e).0

    d1 : Daemon
    d1 = record (fresh_daemon server e) { engine = e1 }

    go :
        (result : Result (Unit {0}))
        → ReservesAll report.jobs e (e1, result)
        → Constructs report (elim result as (λ _. Outcome) [
          | err error ↦ (d1, err error)
          | ok done ↦ restore_all (with_works report.jobs works) d1
        ])
    go (err error) h = tt
    go (ok done) (s', r', p', m, k) =
        Restarted-Recovers report server e e1 (restore_all (with_works report.jobs works) d1)
          (r' ∙ r) k (restore_all-Restarted report.jobs works d1 f (s', p' ∙ p))

-- A daemon that starts with a worker over a log with IDs below the largest 64-bit number, whatever the workers do
-- meanwhile and whatever the log answers: the counter of IDs is past every ID of the log, so that no
-- job submitted later takes one; the map of jobs holds the jobs that are observed and no others, some
-- of those that have not ended and in the order of the log; every job is in account, a worker is left
-- while something waits or may come, and no submission is pending.
pub construct-Recovers :
    (config : SchedulerConfig) (n : ℕ) (wal : WalManager) (repair : Result (Unit {0}))
    (works : List (Works × Works)) (server : Outlet) (e : Engine WalManager)
    (report : RecoveryReport) (d : Daemon)
    → State.init config (suc n) (some wal) ≡ ok e
    → (recover repair wal.file).1 ≡ ok report
    → Fitting report.jobs
    → construct repair works server e ≡ (d, ok tt)
    → Recovers report d
unfolding construct recover_report
construct-Recovers config n wal repair works server e report d i c f h =
    let (s, r, p, j) = init-IsNew config n wal e i in
    let (e', q, (r', p', s')) = recover_log-Read repair wal e j in
    subst (λ out. Constructs report out)
      (sym (ap (recover_report works server) (q ∙ ap (λ x. (e', x)) c)) ∙ h)
      (recover_jobs-Constructs works report server e' f (s' s) (r' ∙ r) (p' ∙ p))
