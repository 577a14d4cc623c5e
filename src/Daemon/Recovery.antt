-- ===== src/Daemon/Recovery.antt =====
-- The constructor of `Daemon` in apps/kronos_engine.cpp: what is recovered from the log.
use omni_sched.Base.{
  ℕ, ◌+◌, text, false, Option, none, some, List, [], ◌∷◌, ◌++◌, if◌then◌else◌, Error, what, Result,
  ok, err,
}
use omni_sched.Types.{JobState, is_terminal}
use omni_sched.Journal.{JobTransitionRecord}
use omni_sched.Factory.Create
use omni_sched.Factory.Create.{Task}
use omni_sched.Transport.Endpoint.{Outlet}
use omni_sched.Wal.Append.{WalManager, wal_journal, append_transition}
use omni_sched.Wal.Parse.{RecoveredJob, RecoveryReport}
use omni_sched.Engine.State.{Engine}
use omni_sched.Engine.Submit.{restore_begin, submit_end, reserve_recovered_identity}
use omni_sched.Daemon.State.{Daemon, Works, work_all, recover_log, observe}

-- The first loop: an exception leaves the constructor.
unfoldable pub reserve_all :
    List RecoveredJob → Engine WalManager → Engine WalManager × Result (Unit {0})
reserve_all [] e = (e, ok tt)
reserve_all (job ∷ jobs) e =
    let (e', result) = reserve_recovered_identity job.submission e in
    elim result [ err error ↦ (e', err error) | ok done ↦ reserve_all jobs e' ]

unfoldable pub failure_record : RecoveredJob → Error → JobTransitionRecord
failure_record job error = record {
  id = job.submission.id;
  state = JobState.failed;
  work_units_consumed = job.work_units_consumed;
  message = text "recovery failed: " ++ what error;
}

-- A daemon, and whether an exception leaves the call.
abbrev pub Outcome : Type 0
Outcome = Daemon × Result (Unit {0})

unfoldable pub journal_failure : Option WalManager → JobTransitionRecord → Daemon → Outcome
journal_failure none failure d = (d, ok tt)
journal_failure (some wal) failure d =
    let (wal', result) = append_transition failure wal in
    (record d { engine = record (d.engine) { journal = some wal' } }, result)

-- The `catch` block: the log gets the failure. What this append throws is not caught.
unfoldable pub give_up : RecoveredJob → Error → Daemon → Outcome
give_up job error d = journal_failure d.engine.journal (failure_record job error) d

-- What follows `engine_.restore` in the `try` block, or catches its exception.
unfoldable pub restored : Works → RecoveredJob → Daemon → Engine WalManager × Result ℕ → Outcome
restored works job d (e, err error) = give_up job error (record d { engine = e })
restored works job d (e, ok id) = (
  record (observe id (record d { engine = submit_end id (work_all works e) })) {
    recovered_count = d.recovered_count + 1;
  },
  ok tt,
)

unfoldable pub restore_with : Works → RecoveredJob → Daemon → Result Task → Outcome
restore_with works job d (err error) = give_up job error d
restore_with works job d (ok task) = restored works job d (restore_begin job.submission d.engine)

-- The body of the second loop.
unfoldable pub restore_job : Works → RecoveredJob → Daemon → Outcome
restore_job works job d =
    if is_terminal job.state
    then (d, ok tt)
    else restore_with works job d (Create.restore job.submission.task)

-- The workers act inside each round and behind it.
unfoldable pub restore_all : List (RecoveredJob × Works × Works) → Daemon → Outcome
restore_all [] d = (d, ok tt)
restore_all ((job, inside, behind) ∷ jobs) d =
    let (d', result) = restore_job inside job d in
    elim result [
      | err error ↦ (d', err error)
      | ok done ↦ restore_all jobs (record d' { engine = work_all behind d'.engine })
    ]

-- What the workers do while a job is restored and behind it, one after the other.
unfoldable pub with_works :
    List RecoveredJob → List (Works × Works) → List (RecoveredJob × Works × Works)
with_works [] works = []
with_works (job ∷ jobs) [] = (job, [], []) ∷ with_works jobs []
with_works (job ∷ jobs) ((inside, behind) ∷ works) = (job, inside, behind) ∷ with_works jobs works

unfoldable pub fresh_daemon : Outlet → Engine WalManager → Daemon
fresh_daemon server e = record {
  server = server;
  engine = e;
  observers = [];
  recovered_count = 0;
  stop_requested = false;
}

unfoldable pub recover_jobs : List (Works × Works) → List RecoveredJob → Daemon → Outcome
recover_jobs works jobs d =
    let (e, result) = reserve_all jobs d.engine in
    elim result [
      | err error ↦ (record d { engine = e }, err error)
      | ok done ↦ restore_all (with_works jobs works) (record d { engine = e })
    ]

unfoldable pub recover_report :
    List (Works × Works) → Outlet → Engine WalManager × Result RecoveryReport → Outcome
recover_report works server (e, err error) = (fresh_daemon server e, err error)
recover_report works server (e, ok report) = recover_jobs works report.jobs (fresh_daemon server e)

-- The constructor behind the members: the server, the log and the engine over it are made.
unfoldable pub construct :
    Result (Unit {0}) → List (Works × Works) → Outlet → Engine WalManager → Outcome
construct repair works server e = recover_report works server (recover_log repair e)
