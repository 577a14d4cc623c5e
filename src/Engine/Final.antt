-- ===== src/Engine/Final.antt =====
-- The sections of src/task_engine.cpp as a state machine of each job, and what is final in it.
use omni_sched.Base.{
  ℕ, is_empty, Bool, true, false, Option, none, some, List, [], ◌∷◌, ◌||◌, ◌≡◌, ap, subst, inl, inr,
  ◌==◌, not, if◌then◌else◌, get_elem?,
}
use omni_sched.Types.{is_terminal}
use omni_sched.Journal.{JobSubmissionRecord, IJobJournal}
use omni_sched.Engine.Job.{JobRecord, new_record}
use omni_sched.Engine.Registry.{find_record}
use omni_sched.Engine.State.{Engine}
use omni_sched.Engine.Submit.{
  journal_submission, submission_snapshot, submission_entry, journal_restore,
}
use omni_sched.Engine.StepPlaces.{Accounted}
use omni_sched.Engine.Moves.{Changes, Lifts, Lifts-Changes}
use omni_sched.Engine.Moving.{Moving, same, cancel_all-Halting}
use omni_sched.Engine.WorkerMoves.{Accounted-IsSound}
use omni_sched.Engine.StepMoves.{enter-Moving, submission-records, restore-records, step-Changes}
use omni_sched.Engine.Sections.{
  Call, to_journal, to_emplace, to_restore, to_advance, System, submission_push, behind_journal,
  restore_start, advance_counters, cancel_drained, drained_entries, undrained, without, proceed,
  proceed_at, Move, move, run_moves,
}
use omni_sched.Engine.Reached.{Reachable, Reachable-Accounted, AdmitsAll}
use omni_sched.Engine.SectionMoves.{
  draw-Moving, followed-Moving, behind-Moving, restored-Moving, close-Moving,
}

final_kept :
    (o : Option JobRecord) (r : JobRecord)
    → is_terminal r.snapshot.state ≡ true
    → Lifts Changes (some r) o
    → o ≡ some r
final_kept none r t c = absurd c
final_kept (some r') r t (inl p) = ap some p
final_kept (some r') r t (inr (inl (f, _))) = absurd (cc (t, ap is_terminal f))
final_kept (some r') r t (inr (inr (f, _, _, _))) = absurd (cc (t, f))

module _ {J : Type 0} ⦃impl : IJobJournal J⦄ where
  cancel_drained-Moving :
      (x : ℕ) (e : Engine J) → ((y : ℕ) → Accounted y e) → Moving x e (cancel_drained e)
  unfolding cancel_drained
  cancel_drained-Moving x e p = Lifts-Changes _ _ (
      cancel_all-Halting x (drained_entries e.pending) (record e { pending = undrained e.pending })
        (Accounted-IsSound e p))

  restore_start-Moving :
      (x : ℕ) (submission : JobSubmissionRecord) (e : Engine J)
      → Moving x e (restore_start submission e).0
  unfolding restore_start
  restore_start-Moving x submission e =
      go
        (submission.id == 0
          || submission.estimated_work_units == 0
          || is_empty submission.task.type)
        (not e.accepting)
    where
      go :
          (a b : Bool)
          → Moving x e
              (if a
                then (e, [])
                else if b
                then (e, [])
                else behind_journal
                    (to_restore submission)
                    (journal_restore e.journal submission e)).0
      go true b = same x e
      go false true = same x e
      go false false =
          behind-Moving x (to_restore submission) e (journal_restore e.journal submission e)
            (restore-records e.journal submission e)

  proceed-Moving : (x : ℕ) (c : Call) (e : Engine J) → Moving x e (proceed c e).0
  unfolding proceed
  proceed-Moving x (to_journal id sequence options) e =
      behind-Moving x (to_emplace id sequence options) e
        (journal_submission e.journal (submission_snapshot id sequence options) options e)
        (submission-records e.journal (submission_snapshot id sequence options) options e)
  proceed-Moving x (to_emplace id sequence options) e =
      enter-Moving x (submission_push id sequence options)
        (new_record (submission_snapshot id sequence options)
          (submission_entry id sequence options))
        e
  proceed-Moving x (to_restore submission) e = restored-Moving x submission e
  proceed-Moving x (to_advance submission) e = unfold advance_counters in same x e

  proceed_at-Moving :
      (x k : ℕ) (o : Option Call) (s : System J) → Moving x s.engine (proceed_at k o s).engine
  unfolding proceed_at
  proceed_at-Moving x k none s = same x s.engine
  proceed_at-Moving x k (some call) s =
      followed-Moving x s.engine (without k s.calls) (proceed call s.engine)
        (proceed-Moving x call s.engine)

  -- Every move (a section of `submit`, `restore` or `shutdown`, such a call uninterrupted, any other
  -- call of a client, or a step of a worker), from a state in which every job is in account: a job that
  -- has ended keeps its record, its result included. Any other keeps its record; or it is run and asked
  -- to stop, and nothing else of its record changes; or it takes one edge of the state machine (it
  -- starts, yields or completes while it runs, fails or is cancelled) and keeps its ID and its
  -- scheduling entry. No job leaves the map.
  pub move-Changes :
      (m : Move) (s : System J)
      → ((y : ℕ) → Accounted y s.engine)
      → (x : ℕ)
      → Lifts Changes (find_record x s.engine.records) (find_record x (move m s).engine.records)
  unfolding move
  move-Changes (Move.whole a) s p x = step-Changes a s.engine p x
  move-Changes (Move.draws options) s p x = draw-Moving x options s.calls s.engine
  move-Changes (Move.begins_restore submission) s p x =
      followed-Moving x s.engine s.calls (restore_start submission s.engine)
        (restore_start-Moving x submission s.engine)
  move-Changes (Move.proceeds k) s p x = proceed_at-Moving x k (get_elem? s.calls k) s
  move-Changes (Move.closes mode) s p x = close-Moving x mode s.engine
  move-Changes Move.cancels_drained s p x = cancel_drained-Moving x s.engine p

  -- A job that has ended in a reachable state keeps its record, with its state, message, work and
  -- result, whatever moves clients, workers, tasks and the journal make afterwards, in any order that
  -- `Admits` allows: the counter of IDs does not wrap around, a `restore` in sections enters an ID
  -- that is below the counter while no `submit` is between drawing that ID and its own entry into the
  -- map, and a `submit` or `restore` that is one move begins while no other call of the two is
  -- between its sections.
  pub run-final :
      (moves : List Move) (s : System J) (x : ℕ) (r : JobRecord)
      → Reachable s
      → AdmitsAll moves s
      → find_record x s.engine.records ≡ some r
      → is_terminal r.snapshot.state ≡ true
      → find_record x (run_moves moves s).engine.records ≡ some r
  unfolding run_moves
  run-final [] s x r h fits f t = f
  run-final (m ∷ moves) s x r h (fit, fits) f t =
      run-final moves (move m s) x r (Reachable.after m fit h) fits
        (final_kept _ r t (
          subst (λ o. Lifts Changes o (find_record x (move m s).engine.records)) f
            (move-Changes m s (Reachable-Accounted h) x)))
        t
