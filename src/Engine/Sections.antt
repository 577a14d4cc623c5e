-- ===== src/Engine/Sections.antt =====
-- `submit`, `restore` and `shutdown` of src/task_engine.cpp cut into their critical sections, between
-- which any other thread may act.
use omni_sched.Base.{
  ℕ, suc, zero, text, is_empty, true, false, Option, none, some, List, [], ◌∷◌, ◌++◌, ◌||◌, ◌==◌,
  not, if◌then◌else◌, invalid_argument, logic_error, Result, ok, err, get_elem?,
}
use omni_sched.Types.{SubmissionOptions, ShutdownMode}
use omni_sched.Scheduler.Entry.{SchedulerEntry}
use omni_sched.Journal.{JobSubmissionRecord, IJobJournal}
use omni_sched.Engine.Queue.{close_and_drain_pending}
use omni_sched.Engine.Job.{new_record}
use omni_sched.Engine.Registry.{find_record}
use omni_sched.Engine.State.{Engine, Push, next, advance_counter, enter}
use omni_sched.Engine.Submit.{
  submission_snapshot, submission_entry, take_identity, journal_submission, restored_snapshot,
  restored_entry, journal_restore,
}
use omni_sched.Engine.Control.{cancels_pending, cancel_all}
use omni_sched.Engine.Step.{Action, step}

-- Where a client stands in a call, up to its entry in the map and the counters.
pub data Call : Type 0 where
  -- `submit` has drawn its ID and its sequence number; the journal is next
  to_journal : ℕ → ℕ → SubmissionOptions → Call
  -- the journal has the submission; `emplace` is next
  to_emplace : ℕ → ℕ → SubmissionOptions → Call
  -- the journal has the transition of `restore`; `emplace` is next
  to_restore : JobSubmissionRecord → Call
  -- the record is in the map; `advance_counter` is next
  to_advance : JobSubmissionRecord → Call

-- The engine, and the clients in calls.
pub record System (J : Type 0) : Type 0 where
  pub engine : Engine J
  pub calls : List Call

abbrev pub submission_push : ℕ → ℕ → SubmissionOptions → Push
submission_push id sequence options = record {
  entry = submission_entry id sequence options;
  raced = text "submission raced with engine shutdown";
  drained = false;
}

abbrev pub restored_push : JobSubmissionRecord → Push
restored_push submission = record {
  entry = restored_entry submission;
  raced = text "recovery raced with engine shutdown";
  drained = false;
}

-- `submit` up to the two `fetch_add`.
unfoldable pub submit_draw : {J : Type 0} → SubmissionOptions → Engine J → Engine J × Result Call
submit_draw options e =
    if options.estimated_work_units == 0
    then (e, err (invalid_argument (text "estimated work units must be greater than zero")))
    else if not e.accepting
    then (e, err (logic_error (text "task engine is not accepting submissions")))
    else (take_identity e, ok (to_journal e.next_job_id e.next_sequence options))

-- The call goes on behind the journal, or an exception leaves it.
unfoldable pub behind_journal :
    {J : Type 0} → Call → Engine J × Result (Unit {0}) → Engine J × List Call
behind_journal call (e, err error) = (e, [])
behind_journal call (e, ok _) = (e, call ∷ [])

-- The counters pass a restored identity.
unfoldable pub advance_counters : {J : Type 0} → JobSubmissionRecord → Engine J → Engine J
advance_counters submission e = record e {
  next_job_id = advance_counter e.next_job_id (next submission.id);
  next_sequence = advance_counter e.next_sequence (next submission.submission_sequence);
}

-- `emplace` of `restore`: the ID must be new.
unfoldable pub emplace_restored :
    {J : Type 0} → JobSubmissionRecord → Engine J → Engine J × List Call
emplace_restored submission e = elim (find_record submission.id e.records) [
  | some old ↦ (e, [])
  | none ↦ (
    enter (restored_push submission)
        (new_record (restored_snapshot submission) (restored_entry submission)) e,
    to_advance submission ∷ [],
  )
]

-- The entries that were drained and wait for the loop.
unfoldable pub drained_pushes : List SchedulerEntry → List Push
drained_pushes [] = []
drained_pushes (entry ∷ entries) =
    record { entry = entry; raced = []; drained = true } ∷ drained_pushes entries

unfoldable pub drained_entries : List Push → List SchedulerEntry
drained_entries [] = []
drained_entries (p ∷ ps) = if p.drained then p.entry ∷ drained_entries ps else drained_entries ps

unfoldable pub undrained : List Push → List Push
undrained [] = []
undrained (p ∷ ps) = if p.drained then undrained ps else p ∷ undrained ps

-- `shutdown` up to `close_and_drain_pending`.
unfoldable pub close_queue : {J : Type 0} → ShutdownMode → Engine J → Engine J
close_queue mode e = elim e.workers [
  | [] ↦ e
  | worker ∷ workers ↦
      (let (entries, queue) = close_and_drain_pending (cancels_pending mode) e.queue in
        record e {
          accepting = false;
          queue = queue;
          pending = drained_pushes entries ++ e.pending;
        })
]

unfoldable pub without : ℕ → List Call → List Call
without k [] = []
without zero (c ∷ calls) = calls
without (suc k) (c ∷ calls) = c ∷ without k calls

-- What a client, or a worker, does next. `submits`, `restores` and `shuts_down` of `Action` are calls
-- that no other thread interrupts.
pub data Move : Type 0 where
  whole : Action → Move
  draws : SubmissionOptions → Move
  begins_restore : JobSubmissionRecord → Move
  -- the next section of a call
  proceeds : ℕ → Move
  closes : ShutdownMode → Move
  -- the loop of `shutdown` over the drained entries
  cancels_drained : Move

-- A call has begun, or an exception has left it.
unfoldable pub begun : {J : Type 0} → List Call → Engine J × Result Call → System J
begun calls (e, err error) = record { engine = e; calls = calls }
begun calls (e, ok call) = record { engine = e; calls = call ∷ calls }

unfoldable pub followed_by : {J : Type 0} → List Call → Engine J × List Call → System J
followed_by calls (e, more) = record { engine = e; calls = more ++ calls }

module _ {J : Type 0} ⦃impl : IJobJournal J⦄ where
  -- `restore` up to the journal.
  unfoldable pub restore_start : JobSubmissionRecord → Engine J → Engine J × List Call
  restore_start submission e =
      if submission.id == 0 || submission.estimated_work_units == 0 || is_empty submission.task.type
      then (e, [])
      else if not e.accepting
      then (e, [])
      else behind_journal (to_restore submission) (journal_restore e.journal submission e)

  -- The next section of a call, and what is left of it.
  unfoldable pub proceed : Call → Engine J → Engine J × List Call
  proceed (to_journal id sequence options) e =
      behind_journal (to_emplace id sequence options)
        (journal_submission e.journal (submission_snapshot id sequence options) options e)
  proceed (to_emplace id sequence options) e = (
    enter (submission_push id sequence options)
        (new_record (submission_snapshot id sequence options)
          (submission_entry id sequence options))
        e,
    [],
  )
  proceed (to_restore submission) e = emplace_restored submission e
  proceed (to_advance submission) e = (advance_counters submission e, [])

  -- The loop of `shutdown`, under the registry lock.
  unfoldable pub cancel_drained : Engine J → Engine J
  cancel_drained e =
      cancel_all (drained_entries e.pending) (record e { pending = undrained e.pending })

  unfoldable pub proceed_at : ℕ → Option Call → System J → System J
  proceed_at k none s = s
  proceed_at k (some call) s = followed_by (without k s.calls) (proceed call s.engine)

  unfoldable pub move : Move → System J → System J
  move (whole a) s = record s { engine = step a s.engine }
  move (draws options) s = begun s.calls (submit_draw options s.engine)
  move (begins_restore submission) s = followed_by s.calls (restore_start submission s.engine)
  move (proceeds k) s = proceed_at k (get_elem? s.calls k) s
  move (closes mode) s = record s { engine = close_queue mode s.engine }
  move cancels_drained s = record s { engine = cancel_drained s.engine }

  unfoldable pub run_moves : List Move → System J → System J
  run_moves [] s = s
  run_moves (m ∷ moves) s = run_moves moves (move m s)
