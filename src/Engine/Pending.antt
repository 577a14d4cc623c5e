-- ===== src/Engine/Pending.antt =====
-- The calls of src/task_engine.cpp between the map and `push_external`: a call that comes to its end
-- leaves none behind.
use omni_sched.Base.{
  ℕ, Bytes, text, is_empty, Bool, true, false, Option, none, some, List, [], ◌∷◌, ◌||◌, ◌==◌, ◌&&◌,
  ==_iff, not, if◌then◌else◌, ◌≡◌, refl, ap, ◌∙◌, Error, invalid_argument, logic_error, Result, ok,
  err,
}
use omni_sched.Types.{JobState, DurableTaskSpec, SubmissionOptions, JobSnapshot}
use omni_sched.Journal.{JobSubmissionRecord, IJobJournal}
use omni_sched.Engine.Queue
use omni_sched.Engine.Queue.{TaskQueue, Dispatch, push_external}
use omni_sched.Engine.Job.{JobRecord, new_record}
use omni_sched.Engine.Registry.{find_record}
use omni_sched.Engine.State.{Engine, Worker, Push, enter, put_record, advance_counter, next}
use omni_sched.Engine.Submit.{
  take_identity, submission_snapshot, submission_entry, journaled, accept, accept_restored,
  restored_snapshot, restored_entry, journal_with_spec, journal_submission, submit_begin,
  journal_restore, restore_begin, take_pending, finish_in, push_pending, submit_end,
}
use omni_sched.Engine.Worker.{Slice, slice_result, after_pop, fetch, start, finish_slice}
use omni_sched.Engine.Step.{fetched, place, worker_step, work}
use omni_sched.Engine.SliceFrame.{start-Keeps, finish-Keeps}

-- A call that gives an ID has put it in front of the pending ones; one that throws has not.
abbrev pub Enters : {J : Type 0} → List Push → Engine J × Result ℕ → Type 0
Enters ps (e, err error) = e.pending ≡ ps
Enters ps (e, ok id) =
    (push : Push) × (e.pending ≡ push ∷ ps) × (push.entry.id ≡ id) × (push.drained ≡ false)

two_guards :
    {J : Type 0} (a b : Bool) (e : Engine J) (error error' : Error) (out : Engine J × Result ℕ)
    → Enters e.pending out
    → Enters e.pending (if a then (e, err error) else if b then (e, err error') else out)
two_guards true b e error error' out p = refl
two_guards false true e error error' out p = refl
two_guards false false e error error' out p = p

accept-Enters :
    {J : Type 0} (push : Push) (initial : JobSnapshot) (ps : List Push)
    (out : Engine J × Result (Unit {0}))
    → push.drained ≡ false
    → out.0.pending ≡ ps
    → Enters ps (accept push initial out)
unfolding accept enter
accept-Enters push initial ps (e, err error) d p = p
accept-Enters push initial ps (e, ok u) d p = (push, ap (λ qs. push ∷ qs) p, refl, d)

accept_restored-Enters :
    {J : Type 0} (push : Push) (initial : JobSnapshot) (ps : List Push)
    (out : Engine J × Result (Unit {0}))
    → push.drained ≡ false
    → out.0.pending ≡ ps
    → Enters ps (accept_restored push initial out)
unfolding accept_restored enter
accept_restored-Enters push initial ps (e, err error) d p = p
accept_restored-Enters {J} push initial ps (e, ok u) d p = go (find_record push.entry.id e.records)
  where
    m : ℕ
    m = advance_counter e.next_job_id (next push.entry.id)

    n : ℕ
    n = advance_counter e.next_sequence (next push.entry.submission_sequence)

    go :
        (o : Option JobRecord)
        → Enters ps (elim o as (λ _. Engine J × Result ℕ) [
          | some old ↦ (e, err (invalid_argument (text "recovered job ID already exists")))
          | none ↦ (
            record (enter push (new_record initial push.entry) e) {
              next_job_id = m;
              next_sequence = n;
            },
            ok push.entry.id,
          )
        ])
    go none = (push, ap (λ qs. push ∷ qs) p, refl, d)
    go (some old) = p

take_only :
    (push : Push) (id : ℕ)
    → push.entry.id ≡ id
    → push.drained ≡ false
    → take_pending id (push ∷ []) ≡ some (push, [])
unfolding take_pending
take_only push id q d =
    go (push.entry.id == id && not push.drained)
      (taken (push.entry.id == id) push.drained ((==_iff push.entry.id id).1 q) d)
  where
    taken : (a b : Bool) → a ≡ true → b ≡ false → (a && not b) ≡ true
    taken a b p q = rw (p, q)

    go :
        (b : Bool)
        → b ≡ true
        → (elim b as (λ _. Option (Push × List Push)) [ true ↦ some (push, []) | false ↦ none ])
          ≡ some (push, [])
    go true p = refl
    go false p = absurd (cc)

module _ {J : Type 0} ⦃impl : IJobJournal J⦄ where
  with_spec-pending :
      (spec : Result DurableTaskSpec) (initial : JobSnapshot) (j : J) (e : Engine J)
      → (journal_with_spec spec initial j e).0.pending ≡ e.pending
  unfolding journal_with_spec journaled
  with_spec-pending (err error) initial j e = refl
  with_spec-pending (ok spec) initial j e = refl

  submission-pending :
      (journal : Option J) (initial : JobSnapshot) (options : SubmissionOptions) (e : Engine J)
      → (journal_submission journal initial options e).0.pending ≡ e.pending
  unfolding journal_submission
  submission-pending none initial options e = refl
  submission-pending (some j) initial options e = with_spec-pending _ initial j e

  restore-pending :
      (journal : Option J) (submission : JobSubmissionRecord) (e : Engine J)
      → (journal_restore journal submission e).0.pending ≡ e.pending
  unfolding journal_restore journaled
  restore-pending none submission e = refl
  restore-pending (some j) submission e = refl

  pub submit_begin-Enters :
      (options : SubmissionOptions) (e : Engine J) → Enters e.pending (submit_begin options e)
  unfolding submit_begin take_identity
  submit_begin-Enters options e =
      two_guards (options.estimated_work_units == 0) (not e.accepting) e
        (invalid_argument (text "estimated work units must be greater than zero"))
        (logic_error (text "task engine is not accepting submissions"))
        (accept push initial (journal_submission e.journal initial options (take_identity e)))
        (accept-Enters push initial e.pending
          (journal_submission e.journal initial options (take_identity e)) refl
          (submission-pending e.journal initial options (take_identity e)))
    where
      initial : JobSnapshot
      initial = submission_snapshot e.next_job_id e.next_sequence options

      push : Push
      push = record {
        entry = submission_entry e.next_job_id e.next_sequence options;
        raced = text "submission raced with engine shutdown";
        drained = false;
      }

  pub restore_begin-Enters :
      (submission : JobSubmissionRecord) (e : Engine J)
      → Enters e.pending (restore_begin submission e)
  unfolding restore_begin
  restore_begin-Enters submission e =
      two_guards
        (submission.id == 0
          || submission.estimated_work_units == 0
          || is_empty submission.task.type)
        (not e.accepting) e (invalid_argument (text "invalid recovered submission"))
        (logic_error (text "task engine is not accepting recovered jobs"))
        (accept_restored push (restored_snapshot submission)
          (journal_restore e.journal submission e))
        (accept_restored-Enters push (restored_snapshot submission) e.pending
          (journal_restore e.journal submission e) refl (restore-pending e.journal submission e))
    where
      push : Push
      push = record {
        entry = restored_entry submission;
        raced = text "recovery raced with engine shutdown";
        drained = false;
      }

  finish_in-pending :
      (id : ℕ) (state : JobState) (message : Bytes) (o : Option JobRecord) (e : Engine J)
      → (finish_in id state message o e).pending ≡ e.pending
  unfolding finish_in put_record
  finish_in-pending id state message none e = refl
  finish_in-pending id state message (some r) e = refl

  push_pending-pending : (p : Push) (e : Engine J) → (push_pending p e).pending ≡ e.pending
  unfolding push_pending
  push_pending-pending p e = go (push_external e.queue p.entry).1
    where
      go :
          (b : Bool)
          → (if b
              then record e { queue = (push_external e.queue p.entry).0 }
              else finish_in p.entry.id JobState.cancelled p.raced
                  (find_record p.entry.id e.records)
                  e).pending
            ≡ e.pending
      go true = refl
      go false = finish_in-pending p.entry.id JobState.cancelled p.raced _ e

  -- The second half of the only pending call leaves none.
  pub submit_end-pending :
      (push : Push) (id : ℕ) (e : Engine J)
      → e.pending ≡ push ∷ []
      → push.entry.id ≡ id
      → push.drained ≡ false
      → (submit_end id e).pending ≡ []
  unfolding submit_end
  submit_end-pending push id e p q d =
      go (take_pending id e.pending) (ap (take_pending id) p ∙ take_only push id q d)
    where
      go :
          (o : Option (Push × List Push))
          → o ≡ some (push, [])
          → (elim o as (λ _. Engine J) [
            | none ↦ e
            | some (p, ps) ↦ push_pending p (record e { pending = ps })
          ]).pending
            ≡ []
      go none h = absurd (cc)
      go (some (p, ps)) h = push_pending-pending p (record e { pending = ps }) ∙ cc

  fetch-pending : (e : Engine J) → (fetched e (fetch e)).0.pending ≡ e.pending
  unfolding fetch fetched after_pop
  fetch-pending e = go (Queue.pop false e.queue)
    where
      go :
          (o : Option (Option Dispatch × TaskQueue))
          → (fetched e (elim o as (λ _. Option (Engine J × Worker)) [
            | none ↦ none
            | some r ↦ some (after_pop e r)
          ])).0.pending
            ≡ e.pending
      go none = refl
      go (some (none, queue)) = refl
      go (some (some dispatch, queue)) = refl

  worker_step-pending :
      (w : Worker) (slice : Slice) (e : Engine J) → (worker_step w slice e).0.pending ≡ e.pending
  unfolding worker_step
  worker_step-pending Worker.idle slice e = fetch-pending e
  worker_step-pending (Worker.fetched entry budget) slice e =
      unfold start in (start-Keeps entry budget (find_record entry.id e.records) e).1
  worker_step-pending (Worker.running id budget) slice e =
      unfold finish_slice in (finish-Keeps id (slice_result slice) (find_record id e.records) e).1
  worker_step-pending (Worker.requeues entry) slice e = refl
  worker_step-pending Worker.exited slice e = refl

  pub work-pending :
      (k : ℕ) (slice : Slice) (o : Option Worker) (e : Engine J)
      → (work k slice o e).pending ≡ e.pending
  unfolding work place
  work-pending k slice none e = refl
  work-pending k slice (some w) e = worker_step-pending w slice e
