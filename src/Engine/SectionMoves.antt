-- ===== src/Engine/SectionMoves.antt =====
-- What the sections of src/task_engine.cpp make of each record.
use omni_sched.Base.{
  ℕ, text, Bool, true, false, Option, none, some, List, [], ◌∷◌, ◌++◌, ◌≡◌, ◌==◌, not,
  if◌then◌else◌, invalid_argument, logic_error, Result, ok, err,
}
use omni_sched.Types.{SubmissionOptions, ShutdownMode}
use omni_sched.Journal.{JobSubmissionRecord}
use omni_sched.Engine.Job.{JobRecord, new_record}
use omni_sched.Engine.Registry.{find_record}
use omni_sched.Engine.Queue.{close_and_drain_pending}
use omni_sched.Engine.State.{Engine, Worker, enter}
use omni_sched.Engine.Submit.{take_identity, restored_snapshot, restored_entry}
use omni_sched.Engine.Control.{cancels_pending}
use omni_sched.Engine.Moving.{Moving, same}
use omni_sched.Engine.StepMoves.{moved_to, enter-Moving}
use omni_sched.Engine.Sections.{
  Call, to_journal, to_advance, restored_push, submit_draw, behind_journal, emplace_restored,
  close_queue, drained_pushes, begun, followed_by,
}

pub draw-Moving :
    {J : Type 0} (x : ℕ) (options : SubmissionOptions) (calls : List Call) (e : Engine J)
    → Moving x e (begun calls (submit_draw options e)).engine
unfolding submit_draw begun
draw-Moving {J} x options calls e = go (options.estimated_work_units == 0) (not e.accepting)
  where
    drawn : Moving x e (take_identity e)
    drawn = unfold take_identity in same x e

    go :
        (a b : Bool)
        → Moving x e
            (begun calls (
              if a
              then (
                e,
                err (invalid_argument (text "estimated work units must be greater than zero")),
              )
              else if b
              then (e, err (logic_error (text "task engine is not accepting submissions")))
              else (take_identity e, ok (to_journal e.next_job_id e.next_sequence options)))).engine
    go true b = same x e
    go false true = same x e
    go false false = drawn

pub followed-Moving :
    {J : Type 0} (x : ℕ) (e : Engine J) (calls : List Call) (out : Engine J × List Call)
    → Moving x e out.0
    → Moving x e (followed_by calls out).engine
unfolding followed_by
followed-Moving x e calls (e', more) p = p

pub behind-Moving :
    {J : Type 0} (x : ℕ) (call : Call) (e : Engine J) (out : Engine J × Result (Unit {0}))
    → out.0.records ≡ e.records
    → Moving x e (behind_journal call out).0
unfolding behind_journal
behind-Moving x call e (e', err error) p = moved_to x e e' e' p (same x e')
behind-Moving x call e (e', ok u) p = moved_to x e e' e' p (same x e')

pub restored-Moving :
    {J : Type 0} (x : ℕ) (submission : JobSubmissionRecord) (e : Engine J)
    → Moving x e (emplace_restored submission e).0
unfolding emplace_restored
restored-Moving {J} x submission e = go (find_record submission.id e.records)
  where
    go :
        (o : Option JobRecord)
        → Moving x e
            (elim o as (λ _. Engine J × List Call) [
              | some old ↦ (e, [])
              | none ↦ (
                enter
                    (restored_push submission)
                    (new_record (restored_snapshot submission) (restored_entry submission))
                    e,
                to_advance submission ∷ [],
              )
            ]).0
    go (some old) = same x e
    go none =
        enter-Moving x (restored_push submission)
          (new_record (restored_snapshot submission) (restored_entry submission)) e

pub close-Moving :
    {J : Type 0} (x : ℕ) (mode : ShutdownMode) (e : Engine J) → Moving x e (close_queue mode e)
unfolding close_queue
close-Moving {J} x mode e = go e.workers
  where
    go :
        (ws : List Worker)
        → Moving x e (elim ws as (λ _. Engine J) [
          | [] ↦ e
          | worker ∷ workers ↦
              (let (entries, queue) = close_and_drain_pending (cancels_pending mode) e.queue in
                record e {
                  accepting = false;
                  queue = queue;
                  pending = drained_pushes entries ++ e.pending;
                })
        ])
    go [] = same x e
    go (w ∷ ws) = same x e
