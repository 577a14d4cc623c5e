-- ===== src/Engine/SectionServed.antt =====
-- The sections of the calls of src/task_engine.cpp leave nothing behind in the queue.
use omni_sched.Base.{
  ℕ, text, is_empty, Bool, true, false, Option, none, some, List, [], ◌∷◌, ◌++◌, ◌||◌, refl, inl,
  inr, ◌==◌, not, if◌then◌else◌, get_elem?, invalid_argument, logic_error, Result, ok, err,
}
use omni_sched.Types.{SubmissionOptions, ShutdownMode}
use omni_sched.Scheduler.Entry.{SchedulerEntry}
use omni_sched.Journal.{JobSubmissionRecord, IJobJournal}
use omni_sched.Engine.Job.{JobRecord, new_record}
use omni_sched.Engine.Registry.{find_record}
use omni_sched.Engine.Queue.{TaskQueue, close_and_drain_pending}
use omni_sched.Engine.State.{Engine, Worker, enter}
use omni_sched.Engine.Submit.{
  take_identity, journal_submission, submission_snapshot, restored_snapshot, restored_entry,
  journal_restore,
}
use omni_sched.Engine.Control.{cancels_pending}
use omni_sched.Engine.GiveUp.{cancel_all-Keeps}
use omni_sched.Engine.Popping.{IsServed}
use omni_sched.Engine.Leaves.{Leaves, left-IsServed, shut_IsServed}
use omni_sched.Engine.Drain.{submission-Leaves, restore-Leaves, step-IsServed}
use omni_sched.Engine.Sections.{
  Call, to_journal, to_emplace, to_restore, to_advance, System, restored_push, submit_draw,
  behind_journal, restore_start, advance_counters, emplace_restored, close_queue, cancel_drained,
  drained_pushes, drained_entries, undrained, begun, followed_by, without, proceed, proceed_at,
  Move, move, run_moves,
}

draw-Leaves :
    {J : Type 0} (options : SubmissionOptions) (calls : List Call) (e : Engine J)
    → Leaves e (begun calls (submit_draw options e)).engine
unfolding submit_draw begun
draw-Leaves {J} options calls e = go (options.estimated_work_units == 0) (not e.accepting)
  where
    drawn : Leaves e (take_identity e)
    drawn = unfold take_identity in (refl, refl)

    go :
        (a b : Bool)
        → Leaves e
            (begun calls (
              if a
              then (
                e,
                err (invalid_argument (text "estimated work units must be greater than zero")),
              )
              else if b
              then (e, err (logic_error (text "task engine is not accepting submissions")))
              else (take_identity e, ok (to_journal e.next_job_id e.next_sequence options)))).engine
    go true b = (refl, refl)
    go false true = (refl, refl)
    go false false = drawn

followed-Leaves :
    {J : Type 0} (e : Engine J) (calls : List Call) (out : Engine J × List Call)
    → Leaves e out.0
    → Leaves e (followed_by calls out).engine
unfolding followed_by
followed-Leaves e calls (e', more) p = p

behind-Leaves :
    {J : Type 0} (call : Call) (e : Engine J) (out : Engine J × Result (Unit {0}))
    → Leaves e out.0
    → Leaves e (behind_journal call out).0
unfolding behind_journal
behind-Leaves call e (e', err error) p = p
behind-Leaves call e (e', ok u) p = p

restored-Leaves :
    {J : Type 0} (submission : JobSubmissionRecord) (e : Engine J)
    → Leaves e (emplace_restored submission e).0
unfolding emplace_restored enter
restored-Leaves {J} submission e = go (find_record submission.id e.records)
  where
    go :
        (o : Option JobRecord)
        → Leaves e
            (elim o as (λ _. Engine J × List Call) [
              | some old ↦ (e, [])
              | none ↦ (
                enter
                    (restored_push submission)
                    (new_record (restored_snapshot submission) (restored_entry submission))
                    e,
                to_advance submission ∷ [],
              )
            ]).0
    go (some old) = (refl, refl)
    go none = (refl, refl)

close-IsServed :
    {J : Type 0} (mode : ShutdownMode) (e : Engine J) → IsServed e → IsServed (close_queue mode e)
unfolding close_queue
close-IsServed {J} mode e s = go e.workers
  where
    shut : List SchedulerEntry × TaskQueue
    shut = close_and_drain_pending (cancels_pending mode) e.queue

    closed : Engine J
    closed = record e {
      accepting = false;
      queue = shut.1;
      pending = drained_pushes shut.0 ++ e.pending;
    }

    served : IsServed e → IsServed closed
    served (inl l) = inl l
    served (inr d) = inr (shut_IsServed (cancels_pending mode) e.queue d)

    go :
        (ws : List Worker)
        → IsServed (elim ws as (λ _. Engine J) [ [] ↦ e | worker ∷ workers ↦ closed ])
    go [] = s
    go (w ∷ ws) = served s

module _ {J : Type 0} ⦃impl : IJobJournal J⦄ where
  cancel_drained-Leaves : (e : Engine J) → Leaves e (cancel_drained e)
  unfolding cancel_drained
  cancel_drained-Leaves e =
      let (q, _, w) =
        cancel_all-Keeps (drained_entries e.pending) (record e { pending = undrained e.pending }) in
      (q, w)

  restore_start-Leaves :
      (submission : JobSubmissionRecord) (e : Engine J) → Leaves e (restore_start submission e).0
  unfolding restore_start
  restore_start-Leaves submission e =
      go
        (submission.id == 0
          || submission.estimated_work_units == 0
          || is_empty submission.task.type)
        (not e.accepting)
    where
      go :
          (a b : Bool)
          → Leaves e
              (if a
                then (e, [])
                else if b
                then (e, [])
                else behind_journal
                    (to_restore submission)
                    (journal_restore e.journal submission e)).0
      go true b = (refl, refl)
      go false true = (refl, refl)
      go false false =
          behind-Leaves (to_restore submission) e (journal_restore e.journal submission e)
            (restore-Leaves e.journal submission e)

  proceed-Leaves : (c : Call) (e : Engine J) → Leaves e (proceed c e).0
  unfolding proceed
  proceed-Leaves (to_journal id sequence options) e =
      behind-Leaves (to_emplace id sequence options) e
        (journal_submission e.journal (submission_snapshot id sequence options) options e)
        (submission-Leaves e.journal (submission_snapshot id sequence options) options e)
  proceed-Leaves (to_emplace id sequence options) e = unfold enter in (refl, refl)
  proceed-Leaves (to_restore submission) e = restored-Leaves submission e
  proceed-Leaves (to_advance submission) e = unfold advance_counters in (refl, refl)

  proceed_at-Leaves :
      (k : ℕ) (o : Option Call) (s : System J) → Leaves s.engine (proceed_at k o s).engine
  unfolding proceed_at
  proceed_at-Leaves k none s = (refl, refl)
  proceed_at-Leaves k (some call) s =
      followed-Leaves s.engine (without k s.calls) (proceed call s.engine)
        (proceed-Leaves call s.engine)

  -- Whatever move is made next, if a worker has not exited or the queue is closed and empty, so it is
  -- afterwards.
  move-IsServed : (m : Move) (s : System J) → IsServed s.engine → IsServed (move m s).engine
  unfolding move
  move-IsServed (Move.whole a) s h = step-IsServed a s.engine h
  move-IsServed (Move.draws options) s h =
      left-IsServed s.engine (begun s.calls (submit_draw options s.engine)).engine
        (draw-Leaves options s.calls s.engine) h
  move-IsServed (Move.begins_restore submission) s h =
      left-IsServed s.engine (followed_by s.calls (restore_start submission s.engine)).engine
        (followed-Leaves s.engine s.calls (restore_start submission s.engine)
          (restore_start-Leaves submission s.engine))
        h
  move-IsServed (Move.proceeds k) s h =
      left-IsServed s.engine (proceed_at k (get_elem? s.calls k) s).engine
        (proceed_at-Leaves k (get_elem? s.calls k) s) h
  move-IsServed (Move.closes mode) s h = close-IsServed mode s.engine h
  move-IsServed Move.cancels_drained s h =
      left-IsServed s.engine (cancel_drained s.engine) (cancel_drained-Leaves s.engine) h

  pub run_moves-IsServed :
      (moves : List Move) (s : System J) → IsServed s.engine → IsServed (run_moves moves s).engine
  unfolding run_moves
  run_moves-IsServed [] s h = h
  run_moves-IsServed (m ∷ moves) s h = run_moves-IsServed moves (move m s) (move-IsServed m s h)
