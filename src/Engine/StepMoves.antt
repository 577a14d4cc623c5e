-- ===== src/Engine/StepMoves.antt =====
-- The steps of src/task_engine.cpp as a state machine of each job.
use omni_sched.Base.{
  ℕ, text, invalid_argument, Bool, true, false, Bool-cases, Option, none, some, [], ◌≡◌, refl,
  subst, inl, inr, ◌==◌, not, if◌then◌else◌, Result, ok, err, arith, Option-cases,
}
use omni_sched.Types.{DurableTaskSpec, SubmissionOptions, JobSnapshot, SchedulerConfig}
use omni_sched.Journal.{JobSubmissionRecord, IJobJournal}
use omni_sched.Engine.Job.{JobRecord, new_record}
use omni_sched.Engine.Registry.{Registry, find_record, emplace, find_record_end}
use omni_sched.Engine.Queue
use omni_sched.Engine.Queue.{TaskQueue}
use omni_sched.Engine.State.{Engine, Push, enter, next, advance_counter}
use omni_sched.Engine.Submit.{
  take_identity, journaled, journal_with_spec, journal_submission, accept, submit_begin,
  journal_restore, accept_restored, restore_begin, reserve_recovered_identity,
}
use omni_sched.Engine.Control.{set_scheduler, all_exited, join_workers}
use omni_sched.Engine.Step.{Action, joined, step}
use omni_sched.Engine.StepPlaces.{Accounted}
use omni_sched.Engine.Moves.{Changes, Lifts, Changes-same}
use omni_sched.Engine.Moving.{
  Moving, same, first-Moving, submit_end-Moving, cancel-Moving, shutdown-Moving,
}
use omni_sched.Engine.WorkerMoves.{Accounted-IsSound, work-Moving}

emplace-Lifts :
    (x id : ℕ) (r : JobRecord) (records : Registry)
    → Lifts Changes (find_record x records) (find_record x (emplace id r records).0)
unfolding emplace find_record
emplace-Lifts x id r records = elim (Option-cases (find_record id records)) [
  | inl n ↦
      rw (emplace, n)
        (elim (Bool-cases (id == x)) [
          | inl e ↦ rw (find_record_end x id r records n, e, absent e n) tt
          | inr e ↦ rw (find_record_end x id r records n, e) (Changes-same (find_record x records))
        ])
  | inr (old, s) ↦ rw (emplace, s) (Changes-same (find_record x records))
]
  where
    absent : (id == x) ≡ true → find_record id records ≡ none → find_record x records ≡ none
    absent e n = subst (λ k. find_record k records ≡ none) (ground arith) n

-- The records are those of before.
pub moved_to :
    {J : Type 0} (x : ℕ) (e e' e'' : Engine J)
    → e'.records ≡ e.records
    → Moving x e' e''
    → Moving x e e''
moved_to x e e' e'' p m =
    subst (λ rs. Lifts Changes (find_record x rs) (find_record x e''.records)) p m

pub enter-Moving :
    {J : Type 0} (x : ℕ) (push : Push) (r : JobRecord) (e : Engine J) → Moving x e (enter push r e)
unfolding enter
enter-Moving x push r e = emplace-Lifts x push.entry.id r e.records

accept-Moving :
    {J : Type 0} (x : ℕ) (push : Push) (initial : JobSnapshot) (e : Engine J)
    (out : Engine J × Result (Unit {0}))
    → out.0.records ≡ e.records
    → Moving x e (accept push initial out).0
unfolding accept
accept-Moving x push initial e (e', err error) p = moved_to x e e' e' p (same x e')
accept-Moving x push initial e (e', ok u) p =
    moved_to x e e' (enter push (new_record initial push.entry) e') p
      (enter-Moving x push (new_record initial push.entry) e')

accept_restored-Moving :
    {J : Type 0} (x : ℕ) (push : Push) (initial : JobSnapshot) (e : Engine J)
    (out : Engine J × Result (Unit {0}))
    → out.0.records ≡ e.records
    → Moving x e (accept_restored push initial out).0
unfolding accept_restored
accept_restored-Moving {J} x push initial e (e', err error) p = moved_to x e e' e' p (same x e')
accept_restored-Moving {J} x push initial e (e', ok u) p =
    moved_to x e e' (accept_restored push initial (e', ok u)).0 p
      (go (find_record push.entry.id e'.records))
  where
    go :
        (o : Option JobRecord)
        → Moving x e'
            (elim o as (λ _. Engine J × Result ℕ) [
              | some old ↦ (e', err (invalid_argument (text "recovered job ID already exists")))
              | none ↦ (
                record (enter push (new_record initial push.entry) e') {
                  next_job_id = advance_counter e'.next_job_id (next push.entry.id);
                  next_sequence =
                      advance_counter e'.next_sequence (next push.entry.submission_sequence);
                },
                ok push.entry.id,
              )
            ]).0
    go none = enter-Moving x push (new_record initial push.entry) e'
    go (some old) = same x e'

journaled-records :
    {J : Type 0} (e : Engine J) (out : J × Result (Unit {0}))
    → (journaled e out).0.records ≡ e.records
unfolding journaled
journaled-records e (j, result) = refl

two_guards-Moving :
    {J : Type 0} {A : Type 0} (x : ℕ) (a b : Bool) (e : Engine J) (out out' out'' : Engine J × A)
    → Moving x e out.0
    → Moving x e out'.0
    → Moving x e out''.0
    → Moving x e (if a then out else if b then out' else out'').0
two_guards-Moving x true b e out out' out'' p q r = p
two_guards-Moving x false true e out out' out'' p q r = q
two_guards-Moving x false false e out out' out'' p q r = r

join-Moving : {J : Type 0} (x : ℕ) (e : Engine J) → Moving x e (joined e (join_workers e))
unfolding joined join_workers
join-Moving {J} x e = go (all_exited e.workers)
  where
    go : (b : Bool) → Moving x e (joined e (if b then some (record e { workers = [] }) else none))
    go true = same x e
    go false = same x e

set_scheduler-Moving :
    {J : Type 0} (x : ℕ) (config : SchedulerConfig) (e : Engine J)
    → Moving x e (set_scheduler config e).0
unfolding set_scheduler
set_scheduler-Moving {J} x config e =
    first-Moving x e (not e.accepting) _ _ (λ t. same x e)
      (λ t. go (Queue.set_scheduler config e.queue))
  where
    go :
        (r : Result TaskQueue)
        → Moving x e
            (elim r as (λ _. Engine J × Result (Unit {0})) [
              | err error ↦ (e, err error)
              | ok queue ↦ (record e { queue = queue }, ok tt)
            ]).0
    go (err error) = same x e
    go (ok queue) = same x e

reserve-Moving :
    {J : Type 0} (x : ℕ) (submission : JobSubmissionRecord) (e : Engine J)
    → Moving x e (reserve_recovered_identity submission e).0
unfolding reserve_recovered_identity
reserve-Moving x submission e =
    first-Moving x e (submission.id == 0) _ _ (λ t. same x e) (λ t. same x e)

module _ {J : Type 0} ⦃impl : IJobJournal J⦄ where
  with_spec-records :
      (spec : Result DurableTaskSpec) (initial : JobSnapshot) (j : J) (e : Engine J)
      → (journal_with_spec spec initial j e).0.records ≡ e.records
  unfolding journal_with_spec
  with_spec-records (err error) initial j e = refl
  with_spec-records (ok spec) initial j e = journaled-records e _

  pub submission-records :
      (journal : Option J) (initial : JobSnapshot) (options : SubmissionOptions) (e : Engine J)
      → (journal_submission journal initial options e).0.records ≡ e.records
  unfolding journal_submission
  submission-records none initial options e = refl
  submission-records (some j) initial options e = with_spec-records _ initial j e

  pub restore-records :
      (journal : Option J) (submission : JobSubmissionRecord) (e : Engine J)
      → (journal_restore journal submission e).0.records ≡ e.records
  unfolding journal_restore
  restore-records none submission e = refl
  restore-records (some j) submission e = journaled-records e _

  submit_begin-Moving :
      (x : ℕ) (options : SubmissionOptions) (e : Engine J) → Moving x e (submit_begin options e).0
  unfolding submit_begin take_identity
  submit_begin-Moving x options e =
      two_guards-Moving x (options.estimated_work_units == 0) (not e.accepting) e _ _ _ (same x e)
        (same x e)
        (accept-Moving x _ _ e _ (submission-records e.journal _ options (take_identity e)))

  restore_begin-Moving :
      (x : ℕ) (submission : JobSubmissionRecord) (e : Engine J)
      → Moving x e (restore_begin submission e).0
  unfolding restore_begin
  restore_begin-Moving x submission e =
      two_guards-Moving x _ (not e.accepting) e _ _ _ (same x e) (same x e)
        (accept_restored-Moving x _ _ e _ (restore-records e.journal submission e))

  -- Each step changes a record as the state machine allows.
  pub step-Changes :
      (a : Action) (e : Engine J)
      → ((y : ℕ) → Accounted y e)
      → (x : ℕ) → Lifts Changes (find_record x e.records) (find_record x (step a e).records)
  unfolding step
  step-Changes (Action.submits options) e p x = submit_begin-Moving x options e
  step-Changes (Action.restores submission) e p x = restore_begin-Moving x submission e
  step-Changes (Action.reserves submission) e p x = reserve-Moving x submission e
  step-Changes (Action.pushes id) e p x = submit_end-Moving x id e (Accounted-IsSound e p)
  step-Changes (Action.cancels id) e p x = cancel-Moving x id e (Accounted-IsSound e p)
  step-Changes (Action.sets_scheduler config) e p x = set_scheduler-Moving x config e
  step-Changes (Action.shuts_down mode) e p x = shutdown-Moving x mode e (Accounted-IsSound e p)
  step-Changes Action.joins e p x = join-Moving x e
  step-Changes (Action.works k slice) e p x = work-Moving x k slice _ e refl p
