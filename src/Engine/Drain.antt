-- ===== src/Engine/Drain.antt =====
-- The calls of src/task_engine.cpp around its workers: what waits is not left behind.
use omni_sched.Base.{
  ℕ, text, is_empty, Bool, true, false, Bool-cases, Option, none, some, List, [], ◌∷◌, ◌||◌, ◌≡◌,
  refl, inl, inr, ◌==◌, not, if◌then◌else◌, logic_error, invalid_argument, Result, ok, err,
}
use omni_sched.Types.{
  JobState, ShutdownMode, DurableTaskSpec, SubmissionOptions, JobSnapshot, is_terminal,
}
use omni_sched.Scheduler.{push}
use omni_sched.Scheduler.Entry.{SchedulerEntry}
use omni_sched.Journal.{JobSubmissionRecord, IJobJournal}
use omni_sched.Engine.Queue.{TaskQueue, push_external, close_and_drain_pending}
use omni_sched.Engine.Job.{JobRecord}
use omni_sched.Engine.Registry.{find_record}
use omni_sched.Engine.State.{Engine, Worker, Push, put_record}
use omni_sched.Engine.Submit.{
  take_identity, submission_snapshot, submission_entry, journaled, accept, accept_restored,
  restored_snapshot, restored_entry, journal_with_spec, journal_submission, submit_begin,
  journal_restore, restore_begin, reserve_recovered_identity, take_pending, finish_in, push_pending,
  submit_end,
}
use omni_sched.Engine.Control.{
  cancel_live, cancel_found, cancel, shutdown_begin, cancels_pending, cancel_all,
}
use omni_sched.Engine.Step.{Action, step}
use omni_sched.Engine.GiveUp.{finish_in-Keeps, cancel_all-Keeps}
use omni_sched.Engine.Popping.{IsServed}
use omni_sched.Engine.Served.{work-IsServed}
use omni_sched.Engine.Leaves.{
  Leaves, left-IsServed, open_live, two_guards, accept-Leaves, accept_restored-Leaves,
  set_scheduler-IsServed, shut_IsServed, join-IsServed,
}

module _ {J : Type 0} ⦃impl : IJobJournal J⦄ where
  with_spec-Leaves :
      (spec : Result DurableTaskSpec) (initial : JobSnapshot) (j : J) (e : Engine J)
      → Leaves e (journal_with_spec spec initial j e).0
  unfolding journal_with_spec journaled
  with_spec-Leaves (err error) initial j e = (refl, refl)
  with_spec-Leaves (ok spec) initial j e = (refl, refl)

  pub submission-Leaves :
      (journal : Option J) (initial : JobSnapshot) (options : SubmissionOptions) (e : Engine J)
      → Leaves e (journal_submission journal initial options e).0
  unfolding journal_submission
  submission-Leaves none initial options e = (refl, refl)
  submission-Leaves (some j) initial options e = with_spec-Leaves _ initial j e

  pub restore-Leaves :
      (journal : Option J) (submission : JobSubmissionRecord) (e : Engine J)
      → Leaves e (journal_restore journal submission e).0
  unfolding journal_restore journaled
  restore-Leaves none submission e = (refl, refl)
  restore-Leaves (some j) submission e = (refl, refl)

  submit_begin-Leaves :
      (options : SubmissionOptions) (e : Engine J) → Leaves e (submit_begin options e).0
  unfolding submit_begin take_identity
  submit_begin-Leaves options e =
      two_guards (options.estimated_work_units == 0) (not e.accepting) e
        (invalid_argument (text "estimated work units must be greater than zero"))
        (logic_error (text "task engine is not accepting submissions"))
        (accept push initial (journal_submission e.journal initial options (take_identity e)))
        (accept-Leaves push initial e
          (journal_submission e.journal initial options (take_identity e))
          (submission-Leaves e.journal initial options (take_identity e)))
    where
      initial : JobSnapshot
      initial = submission_snapshot e.next_job_id e.next_sequence options

      push : Push
      push = record {
        entry = submission_entry e.next_job_id e.next_sequence options;
        raced = text "submission raced with engine shutdown";
        drained = false;
      }

  restore_begin-Leaves :
      (submission : JobSubmissionRecord) (e : Engine J) → Leaves e (restore_begin submission e).0
  unfolding restore_begin
  restore_begin-Leaves submission e =
      two_guards
        (submission.id == 0
          || submission.estimated_work_units == 0
          || is_empty submission.task.type)
        (not e.accepting) e (invalid_argument (text "invalid recovered submission"))
        (logic_error (text "task engine is not accepting recovered jobs"))
        (accept_restored push (restored_snapshot submission)
          (journal_restore e.journal submission e))
        (accept_restored-Leaves push (restored_snapshot submission) e
          (journal_restore e.journal submission e) (restore-Leaves e.journal submission e))
    where
      push : Push
      push = record {
        entry = restored_entry submission;
        raced = text "recovery raced with engine shutdown";
        drained = false;
      }

  reserve-Leaves :
      (submission : JobSubmissionRecord) (e : Engine J)
      → Leaves e (reserve_recovered_identity submission e).0
  unfolding reserve_recovered_identity
  reserve-Leaves submission e = elim (Bool-cases (submission.id == 0)) [
    | inl q ↦ rw q (refl, refl)
    | inr q ↦ rw q (refl, refl)
  ]

  cancel-Leaves : (id : ℕ) (o : Option JobRecord) (e : Engine J) → Leaves e (cancel_found id o e).0
  unfolding cancel_found cancel_live put_record
  cancel-Leaves id none e = (refl, refl)
  cancel-Leaves id (some r) e = elim (Bool-cases (is_terminal r.snapshot.state)) [
    | inl q ↦ rw q (refl, refl)
    | inr q ↦ rw q (refl, refl)
  ]

  push_pending-IsServed : (p : Push) (e : Engine J) → IsServed e → IsServed (push_pending p e)
  unfolding push_pending push_external
  push_pending-IsServed p e s = go e.queue.closed refl
    where
      refused : Engine J
      refused = finish_in p.entry.id JobState.cancelled p.raced (find_record p.entry.id e.records) e

      go :
          (c : Bool)
          → e.queue.closed ≡ c
          → IsServed (
              let (queue, pushed) : TaskQueue × Bool =
                if c
                then (e.queue, false)
                else (record (e.queue) { scheduler = push (e.queue.scheduler) p.entry }, true) in
              if pushed then record e { queue = queue } else refused)
      go true c =
          let (q, _, w) = finish_in-Keeps p.entry.id JobState.cancelled p.raced _ e in
          left-IsServed e refused (q, w) s
      go false c = inl (open_live e s c)

  submit_end-IsServed : (id : ℕ) (e : Engine J) → IsServed e → IsServed (submit_end id e)
  unfolding submit_end
  submit_end-IsServed id e s = go (take_pending id e.pending)
    where
      go :
          (o : Option (Push × List Push))
          → IsServed (elim o as (λ _. Engine J) [
            | none ↦ e
            | some (p, ps) ↦ push_pending p (record e { pending = ps })
          ])
      go none = s
      go (some (p, ps)) = push_pending-IsServed p (record e { pending = ps }) s

  shutdown-IsServed :
      (mode : ShutdownMode) (e : Engine J) → IsServed e → IsServed (shutdown_begin mode e)
  unfolding shutdown_begin
  shutdown-IsServed mode e s = go e.workers refl
    where
      shut : List SchedulerEntry × TaskQueue
      shut = close_and_drain_pending (cancels_pending mode) e.queue

      closed : Engine J
      closed = record e { accepting = false; queue = shut.1 }

      served : IsServed e → IsServed closed
      served (inl l) = inl l
      served (inr d) = inr (shut_IsServed (cancels_pending mode) e.queue d)

      go :
          (ws : List Worker)
          → e.workers ≡ ws
          → IsServed
              (elim ws as (λ _. Engine J) [ [] ↦ e | worker ∷ workers ↦ cancel_all shut.0 closed ])
      go [] p = s
      go (w ∷ ws) p =
          let (q, _, r) = cancel_all-Keeps shut.0 closed in
          left-IsServed closed (cancel_all shut.0 closed) (q, r) (served s)

  -- Whatever happens next, if a worker has not exited or the queue is closed and empty, so it is
  -- afterwards.
  pub step-IsServed : (a : Action) (e : Engine J) → IsServed e → IsServed (step a e)
  unfolding step
  step-IsServed (Action.submits options) e s =
      left-IsServed e (submit_begin options e).0 (submit_begin-Leaves options e) s
  step-IsServed (Action.restores submission) e s =
      left-IsServed e (restore_begin submission e).0 (restore_begin-Leaves submission e) s
  step-IsServed (Action.reserves submission) e s =
      left-IsServed e (reserve_recovered_identity submission e).0 (reserve-Leaves submission e) s
  step-IsServed (Action.pushes id) e s = submit_end-IsServed id e s
  step-IsServed (Action.cancels id) e s =
      left-IsServed e (cancel id e).0
        (unfold cancel in cancel-Leaves id (find_record id e.records) e) s
  step-IsServed (Action.sets_scheduler config) e s = set_scheduler-IsServed config e s
  step-IsServed (Action.shuts_down mode) e s = shutdown-IsServed mode e s
  step-IsServed Action.joins e s = join-IsServed e s
  step-IsServed (Action.works k slice) e s = work-IsServed k slice _ e refl s
