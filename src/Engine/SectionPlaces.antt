-- ===== src/Engine/SectionPlaces.antt =====
-- The sections of `submit`, `restore` and `shutdown` of src/task_engine.cpp, on the places of every job.
use omni_sched.Base.{
  ℕ, ◌+◌, text, is_empty, Bool, true, false, Option, none, some, List, [], ◌∷◌, ◌++◌, ◌||◌, ◌≡◌,
  refl, ◌==◌, not, if◌then◌else◌, invalid_argument, logic_error, Result, ok, err, arith,
}
use omni_sched.Types.{SubmissionOptions, ShutdownMode}
use omni_sched.Scheduler.Entry.{SchedulerEntry}
use omni_sched.Scheduler.Contract.{contents}
use omni_sched.Journal.{JobSubmissionRecord, IJobJournal}
use omni_sched.Engine.Job.{JobRecord, new_record}
use omni_sched.Engine.Registry.{find_record}
use omni_sched.Engine.Queue.{TaskQueue, close_and_drain_pending}
use omni_sched.Engine.State.{Engine, Worker, Push, enter}
use omni_sched.Engine.Submit.{
  submission_snapshot, submission_entry, take_identity, journal_submission, restored_snapshot,
  restored_entry, journal_restore,
}
use omni_sched.Engine.Control.{cancels_pending}
use omni_sched.Engine.Count.{queued, waiting, carries, one, total}
use omni_sched.Engine.Placed.{IsAt-places}
use omni_sched.Engine.WorkerPlaces.{outside}
use omni_sched.Engine.StepPlaces.{Accounted}
use omni_sched.Engine.ClientPlaces.{cancel_all-Accounted, close-queued}
use omni_sched.Engine.SubmitPlaces.{
  enter-Accounted, Same, Same-Accounted, submission-Same, restore-Same,
}
use omni_sched.Engine.Sections.{
  Call, to_journal, to_emplace, to_restore, to_advance, submission_push, restored_push, submit_draw,
  behind_journal, restore_start, advance_counters, emplace_restored, close_queue, cancel_drained,
  drained_pushes, drained_entries, undrained, begun, followed_by, proceed,
}

pub draw-Accounted :
    {J : Type 0} (x : ℕ) (options : SubmissionOptions) (calls : List Call) (e : Engine J)
    → Accounted x e
    → Accounted x (begun calls (submit_draw options e)).engine
unfolding submit_draw begun
draw-Accounted {J} x options calls e p = go (options.estimated_work_units == 0) (not e.accepting)
  where
    drawn : Accounted x (take_identity e)
    drawn = unfold take_identity in p

    go :
        (a b : Bool)
        → Accounted x
            (begun calls (
              if a
              then (
                e,
                err (invalid_argument (text "estimated work units must be greater than zero")),
              )
              else if b
              then (e, err (logic_error (text "task engine is not accepting submissions")))
              else (take_identity e, ok (to_journal e.next_job_id e.next_sequence options)))).engine
    go true b = p
    go false true = p
    go false false = drawn

pub followed-Accounted :
    {J : Type 0} (x : ℕ) (calls : List Call) (out : Engine J × List Call)
    → Accounted x out.0
    → Accounted x (followed_by calls out).engine
unfolding followed_by
followed-Accounted x calls (e, more) p = p

behind-Accounted :
    {J : Type 0} (x : ℕ) (call : Call) (e : Engine J) (out : Engine J × Result (Unit {0}))
    → Same e out.0
    → Accounted x e
    → Accounted x (behind_journal call out).0
unfolding behind_journal
behind-Accounted x call e (e', err error) k p = Same-Accounted x e e' k p
behind-Accounted x call e (e', ok u) k p = Same-Accounted x e e' k p

restored-Accounted :
    {J : Type 0} (x : ℕ) (submission : JobSubmissionRecord) (e : Engine J)
    → Accounted x e
    → Accounted x (emplace_restored submission e).0
unfolding emplace_restored restored_snapshot restored_entry
restored-Accounted {J} x submission e p = go (find_record submission.id e.records) refl
  where
    go :
        (o : Option JobRecord)
        → find_record submission.id e.records ≡ o
        → Accounted x
            (elim o as (λ _. Engine J × List Call) [
              | some old ↦ (e, [])
              | none ↦ (
                enter
                    (restored_push submission)
                    (new_record (restored_snapshot submission) (restored_entry submission))
                    e,
                to_advance submission ∷ [],
              )
            ]).0
    go (some old) f = p
    go none f =
        enter-Accounted x (restored_push submission) (restored_snapshot submission) e f refl refl p

waiting-drained :
    (x : ℕ) (es : List SchedulerEntry) (ps : List Push)
    → waiting x (drained_pushes es ++ ps) ≡ queued x es + waiting x ps
unfolding drained_pushes queued
waiting-drained x [] ps = omega arith
waiting-drained x (e ∷ es) ps = omega (arith, waiting-drained x es ps)

waiting-split :
    (x : ℕ) (ps : List Push)
    → waiting x ps ≡ queued x (drained_entries ps) + waiting x (undrained ps)
unfolding drained_entries undrained queued
waiting-split x [] = omega arith
waiting-split x (p ∷ ps) = go p.drained (waiting-split x ps)
  where
    go :
        (b : Bool)
        → waiting x ps ≡ queued x (drained_entries ps) + waiting x (undrained ps)
        → one x p.entry.id + waiting x ps
          ≡ queued x (if b then p.entry ∷ drained_entries ps else drained_entries ps)
            + waiting x (if b then undrained ps else p ∷ undrained ps)
    go true h = omega (arith, h)
    go false h = omega (arith, h)

-- The drained entries move from the queue to the client that cancels them.
pub close-Accounted :
    {J : Type 0} (x : ℕ) (mode : ShutdownMode) (e : Engine J)
    → Accounted x e
    → Accounted x (close_queue mode e)
unfolding close_queue
close-Accounted {J} x mode e p = go e.workers
  where
    shut : List SchedulerEntry × TaskQueue
    shut = close_and_drain_pending (cancels_pending mode) e.queue

    closed : Engine J
    closed = record e {
      accepting = false;
      queue = shut.1;
      pending = drained_pushes shut.0 ++ e.pending;
    }

    moved : Accounted x closed
    moved =
        IsAt-places x (find_record x e.records) {h = outside x e + total (carries x) e.workers}
          {h' = outside x closed + total (carries x) e.workers}
          (omega (
            arith,
            close-queued x (cancels_pending mode) e.queue,
            waiting-drained x shut.0 e.pending,
          ))
          refl p

    go :
        (ws : List Worker)
        → Accounted x (elim ws as (λ _. Engine J) [ [] ↦ e | worker ∷ workers ↦ closed ])
    go [] = p
    go (w ∷ ws) = moved

module _ {J : Type 0} ⦃impl : IJobJournal J⦄ where
  pub cancel_drained-Accounted :
      (x : ℕ) (e : Engine J) → Accounted x e → Accounted x (cancel_drained e)
  unfolding cancel_drained
  cancel_drained-Accounted x e p =
      cancel_all-Accounted x (drained_entries e.pending)
        (record e { pending = undrained e.pending })
        (IsAt-places x (find_record x e.records) {h = outside x e + total (carries x) e.workers}
          {h' = queued x (drained_entries e.pending)
            + (queued x (contents e.queue.scheduler)
                + waiting x (undrained e.pending)
                + total (carries x) e.workers)}
          (omega (arith, waiting-split x e.pending)) refl p)

  pub restore_start-Accounted :
      (x : ℕ) (submission : JobSubmissionRecord) (e : Engine J)
      → Accounted x e
      → Accounted x (restore_start submission e).0
  unfolding restore_start
  restore_start-Accounted x submission e p =
      go
        (submission.id == 0
          || submission.estimated_work_units == 0
          || is_empty submission.task.type)
        (not e.accepting)
    where
      go :
          (a b : Bool)
          → Accounted x
              (if a
                then (e, [])
                else if b
                then (e, [])
                else behind_journal
                    (to_restore submission)
                    (journal_restore e.journal submission e)).0
      go true b = p
      go false true = p
      go false false =
          behind-Accounted x (to_restore submission) e (journal_restore e.journal submission e)
            (restore-Same e.journal submission e) p

  -- A section keeps the account, `emplace` of `submit` if its ID is new.
  pub proceed-Accounted :
      (x : ℕ) (c : Call) (e : Engine J)
      → ((id sequence : ℕ) (options : SubmissionOptions)
          → c ≡ to_emplace id sequence options
          → find_record id e.records ≡ none)
      → Accounted x e
      → Accounted x (proceed c e).0
  unfolding proceed
  proceed-Accounted x (to_journal id sequence options) e n p =
      behind-Accounted x (to_emplace id sequence options) e
        (journal_submission e.journal (submission_snapshot id sequence options) options e)
        (submission-Same e.journal (submission_snapshot id sequence options) options e e
          (unfold Same in (refl, (refl, refl, refl))))
        p
  proceed-Accounted x (to_emplace id sequence options) e n p =
      unfold submission_snapshot submission_entry in
      enter-Accounted x (submission_push id sequence options)
        (submission_snapshot id sequence options) e (n id sequence options refl) refl refl p
  proceed-Accounted x (to_restore submission) e n p = restored-Accounted x submission e p
  proceed-Accounted x (to_advance submission) e n p = unfold advance_counters in p
