-- ===== src/Engine/Admitted.antt =====
-- Under which conditions the IDs of src/task_engine.cpp stay apart, whatever the threads do between the
-- sections of a call.
use omni_sched.Base.{
  ℕ, ◌+◌, is_empty, Bool, true, false, Option, none, some, List, [], ◌∷◌, ◌++◌, ◌||◌, ◌≡◌, refl,
  sym, subst, ◌==◌, not, if◌then◌else◌, get_elem?,
}
use omni_sched.Types.{ShutdownMode}
use omni_sched.Journal.{JobSubmissionRecord, IJobJournal}
use omni_sched.Engine.Queue.{close_and_drain_pending}
use omni_sched.Engine.State.{Engine, Worker}
use omni_sched.Engine.Submit.{journal_restore}
use omni_sched.Engine.Control.{cancels_pending}
use omni_sched.Engine.Step.{Action, step}
use omni_sched.Engine.Keys.{
  KeepsKeys, join-KeepsKeys, set_scheduler-KeepsKeys, submit_end-KeepsKeys, cancel-KeepsKeys,
  shutdown-KeepsKeys, cancel_all-KeepsKeys, work-KeepsKeys,
}
use omni_sched.Engine.Fresh.{IsFresh, step-IsFresh, restore-KeepsKeys}
use omni_sched.Engine.Sections.{
  Call, to_restore, System, behind_journal, restore_start, close_queue, cancel_drained,
  drained_pushes, drained_entries, undrained, without, followed_by, proceed, proceed_at, Move, move,
}
use omni_sched.Engine.Held.{held, held-append, Clear, zero_more}
use omni_sched.Engine.Calls.{behind-Clear, behind-IsFresh, proceed-Clear, proceed-IsFresh}
use omni_sched.Engine.Apart.{
  AdmitsAt, Admits, IsApart, keeping-IsApart, none-IsApart, reserve-IsApart, draw-IsApart,
}

followed-IsApart :
    {J : Type 0} (calls : List Call) (out : Engine J × List Call)
    → IsFresh out.0
    → ((x : ℕ) → Clear x out.0 (held x out.1 + held x calls))
    → IsApart (followed_by calls out)
unfolding followed_by
followed-IsApart calls (e, more) h c =
    (h, λ x. subst (λ n. Clear x e n) (sym (held-append x more calls)) (c x))

close-KeepsKeys :
    {J : Type 0} (mode : ShutdownMode) (e : Engine J) → KeepsKeys e (close_queue mode e)
unfolding close_queue
close-KeepsKeys {J} mode e = go e.workers
  where
    go :
        (ws : List Worker)
        → KeepsKeys e (elim ws as (λ _. Engine J) [
          | [] ↦ e
          | worker ∷ workers ↦
              (let (entries, queue) = close_and_drain_pending (cancels_pending mode) e.queue in
                record e {
                  accepting = false;
                  queue = queue;
                  pending = drained_pushes entries ++ e.pending;
                })
        ])
    go [] = (refl, refl)
    go (w ∷ ws) = (refl, refl)

module _ {J : Type 0} ⦃impl : IJobJournal J⦄ where
  cancel_drained-KeepsKeys : (e : Engine J) → KeepsKeys e (cancel_drained e)
  unfolding cancel_drained
  cancel_drained-KeepsKeys e =
      cancel_all-KeepsKeys (drained_entries e.pending) (record e { pending = undrained e.pending })

  restore_start-IsApart :
      (submission : JobSubmissionRecord) (e : Engine J) (calls : List Call)
      → IsApart (record { engine = e; calls = calls })
      → IsApart (followed_by calls (restore_start submission e))
  unfolding restore_start
  restore_start-IsApart submission e calls (h, c) =
      go
        (submission.id == 0
          || submission.estimated_work_units == 0
          || is_empty submission.task.type)
        (not e.accepting)
    where
      stays : IsApart (followed_by calls (e, []))
      stays = followed-IsApart calls (e, []) h (λ x. zero_more x e (held x calls) (c x))

      goes_on : IsApart (
          followed_by calls
            (behind_journal (to_restore submission) (journal_restore e.journal submission e)))
      goes_on =
          followed-IsApart calls _
            (behind-IsFresh (to_restore submission) e _ (restore-KeepsKeys e.journal submission e)
              h)
            (λ x.
              behind-Clear x (to_restore submission) e _ (held x calls)
                (restore-KeepsKeys e.journal submission e) (zero_more x e (held x calls) (c x)))

      go :
          (a b : Bool)
          → IsApart (
              followed_by calls (
                if a
                then (e, [])
                else if b
                then (e, [])
                else behind_journal
                    (to_restore submission)
                    (journal_restore e.journal submission e)))
      go true b = stays
      go false true = stays
      go false false = goes_on

  whole-IsApart :
      (a : Action) (s : System J)
      → Admits (Move.whole a) s
      → IsApart s
      → IsApart (record s { engine = step a s.engine })
  unfolding step
  whole-IsApart (Action.submits options) s (l, z) (h, c) =
      none-IsApart (step (Action.submits options) s.engine) s.calls z
        (step-IsFresh (Action.submits options) s.engine l h)
  whole-IsApart (Action.restores submission) s (l, z) (h, c) =
      none-IsApart (step (Action.restores submission) s.engine) s.calls z
        (step-IsFresh (Action.restores submission) s.engine l h)
  whole-IsApart (Action.reserves submission) s l h = reserve-IsApart submission s.engine s.calls h
  whole-IsApart (Action.pushes id) s l h =
      keeping-IsApart s.engine (step (Action.pushes id) s.engine) s.calls
        (submit_end-KeepsKeys id s.engine) h
  whole-IsApart (Action.cancels id) s l h =
      keeping-IsApart s.engine (step (Action.cancels id) s.engine) s.calls
        (cancel-KeepsKeys id s.engine) h
  whole-IsApart (Action.sets_scheduler config) s l h =
      keeping-IsApart s.engine (step (Action.sets_scheduler config) s.engine) s.calls
        (set_scheduler-KeepsKeys config s.engine) h
  whole-IsApart (Action.shuts_down mode) s l h =
      keeping-IsApart s.engine (step (Action.shuts_down mode) s.engine) s.calls
        (shutdown-KeepsKeys mode s.engine) h
  whole-IsApart Action.joins s l h =
      keeping-IsApart s.engine (step Action.joins s.engine) s.calls (join-KeepsKeys s.engine) h
  whole-IsApart (Action.works k slice) s l h =
      keeping-IsApart s.engine (step (Action.works k slice) s.engine) s.calls
        (work-KeepsKeys k slice _ s.engine) h

  proceed_at-IsApart :
      (k : ℕ) (o : Option Call) (s : System J)
      → get_elem? s.calls k ≡ o
      → AdmitsAt o s
      → IsApart s
      → IsApart (proceed_at k o s)
  unfolding proceed_at
  proceed_at-IsApart k none s g a h = h
  proceed_at-IsApart k (some call) s g a (h, c) =
      followed-IsApart (without k s.calls) (proceed call s.engine)
        (proceed-IsFresh k call s g a c h) (λ x. proceed-Clear x k call s g a (c x))

  -- A move that is admitted keeps the IDs apart.
  pub move-IsApart : (m : Move) (s : System J) → Admits m s → IsApart s → IsApart (move m s)
  unfolding move
  move-IsApart (Move.whole a) s l h = whole-IsApart a s l h
  move-IsApart (Move.draws options) s l h = draw-IsApart options s.engine s.calls l h
  move-IsApart (Move.begins_restore submission) s l h =
      restore_start-IsApart submission s.engine s.calls h
  move-IsApart (Move.proceeds k) s l h = proceed_at-IsApart k (get_elem? s.calls k) s refl l h
  move-IsApart (Move.closes mode) s l h =
      keeping-IsApart s.engine (close_queue mode s.engine) s.calls (close-KeepsKeys mode s.engine) h
  move-IsApart Move.cancels_drained s l h =
      keeping-IsApart s.engine (cancel_drained s.engine) s.calls (cancel_drained-KeepsKeys s.engine)
        h
