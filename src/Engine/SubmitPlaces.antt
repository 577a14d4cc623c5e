-- ===== src/Engine/SubmitPlaces.antt =====
-- `submit` and `restore` of src/task_engine.cpp up to the map, on the places of every job.
use omni_sched.Base.{
  ℕ, ◌+◌, text, is_empty, Bool, true, false, Bool-cases, Option, none, some, ◌||◌, ◌≡◌, refl, sym,
  ap, ◌∙◌, subst, inl, inr, ◌==◌, ==_iff, not, if◌then◌else◌, Error, invalid_argument, logic_error,
  Result, ok, err, arith,
}
use omni_sched.Types.{JobState, JobSnapshot, DurableTaskSpec, SubmissionOptions}
use omni_sched.Journal.{JobSubmissionRecord, IJobJournal}
use omni_sched.Engine.Job.{JobRecord, new_record}
use omni_sched.Engine.Registry.{Registry, find_record, emplace, find_record_end}
use omni_sched.Engine.State.{Engine, Push, next, advance_counter, enter}
use omni_sched.Engine.Submit.{
  submission_snapshot, submission_entry, take_identity, journaled, accept, accept_restored,
  restored_snapshot, restored_entry, reserve_recovered_identity, journal_with_spec,
  journal_submission, submit_begin, journal_restore, restore_begin,
}
use omni_sched.Engine.Count.{carries, runs, total}
use omni_sched.Engine.Accounting.{IsAt}
use omni_sched.Engine.Placed.{IsAt-places, stands_in}
use omni_sched.Engine.SliceFrame.{Keeps}
use omni_sched.Engine.WorkerPlaces.{outside}
use omni_sched.Engine.StepPlaces.{Accounted}
use omni_sched.Engine.ClientPlaces.{keeping}

emplaced :
    (x id : ℕ) (r : JobRecord) (records : Registry)
    → find_record id records ≡ none
    → find_record x (emplace id r records).0 ≡ (if id == x then some r else find_record x records)
unfolding emplace
emplaced x id r records f = rw (emplace, f) (find_record_end x id r records f)

-- A new job enters.
pub enter-Accounted :
    {J : Type 0} (x : ℕ) (push : Push) (initial : JobSnapshot) (e : Engine J)
    → find_record push.entry.id e.records ≡ none
    → initial.id ≡ push.entry.id
    → initial.state ≡ JobState.ready
    → Accounted x e
    → Accounted x (enter push (new_record initial push.entry) e)
unfolding enter new_record
enter-Accounted x push initial e f i s p = elim (Bool-cases (push.entry.id == x)) [
  | inr q ↦
      rw (emplaced x push.entry.id (new_record initial push.entry) e.records f, q)
        (IsAt-places x _ (omega arith) refl p)
  | inl q ↦
      let eq = (==_iff push.entry.id x).0 q in
      let (a, b) =
        subst (λ o. IsAt x o (outside x e + total (carries x) e.workers) (total (runs x) e.workers))
          (ap (λ y. find_record y e.records) (sym eq) ∙ f) p in
      rw (emplaced x push.entry.id (new_record initial push.entry) e.records f, q)
        (eq, i ∙ eq, stands_in (sym s) _ _ _ (omega arith, b, (refl, refl)))
]

-- Neither the records nor anything that has a place was changed.
unfoldable pub Same : {J : Type 0} → Engine J → Engine J → Type 0
Same e e' = (e'.records ≡ e.records) × Keeps e e'

pub Same-Accounted :
    {J : Type 0} (x : ℕ) (e e' : Engine J) → Same e e' → Accounted x e → Accounted x e'
unfolding Same
Same-Accounted x e e' (r, k) p = keeping x e e' k (
    subst
      (λ records.
        IsAt x (find_record x records) (outside x e + total (carries x) e.workers)
          (total (runs x) e.workers))
      (sym r) p)

Same-records :
    {J : Type 0} (id : ℕ) (e e' : Engine J)
    → Same e e'
    → find_record id e.records ≡ none
    → find_record id e'.records ≡ none
unfolding Same
Same-records id e e' (r, k) f = ap (λ records. find_record id records) r ∙ f

journaled-Same :
    {J : Type 0} (e e0 : Engine J) (out : J × Result (Unit {0}))
    → Same e0 e
    → Same e0 (journaled e out).0
unfolding journaled Same
journaled-Same e e0 (j, result) p = p

accept-Accounted :
    {J : Type 0} (x : ℕ) (push : Push) (initial : JobSnapshot) (e : Engine J)
    (out : Engine J × Result (Unit {0}))
    → find_record push.entry.id e.records ≡ none
    → initial.id ≡ push.entry.id
    → initial.state ≡ JobState.ready
    → Same e out.0
    → Accounted x e
    → Accounted x (accept push initial out).0
unfolding accept
accept-Accounted x push initial e (e', err error) f i s k p = Same-Accounted x e e' k p
accept-Accounted x push initial e (e', ok u) f i s k p =
    enter-Accounted x push initial e' (Same-records push.entry.id e e' k f) i s
      (Same-Accounted x e e' k p)

accept_restored-Accounted :
    {J : Type 0} (x : ℕ) (push : Push) (initial : JobSnapshot) (e : Engine J)
    (out : Engine J × Result (Unit {0}))
    → initial.id ≡ push.entry.id
    → initial.state ≡ JobState.ready
    → Same e out.0
    → Accounted x e
    → Accounted x (accept_restored push initial out).0
unfolding accept_restored
accept_restored-Accounted x push initial e (e', err error) i s k p = Same-Accounted x e e' k p
accept_restored-Accounted {J} x push initial e (e', ok u) i s k p =
    go (find_record push.entry.id e'.records) refl
  where
    go :
        (o : Option JobRecord)
        → find_record push.entry.id e'.records ≡ o
        → Accounted x
            (elim o as (λ _. Engine J × Result ℕ) [
              | some old ↦ (e', err (invalid_argument (text "recovered job ID already exists")))
              | none ↦ (
                record (enter push (new_record initial push.entry) e') {
                  next_job_id = advance_counter e'.next_job_id (next push.entry.id);
                  next_sequence =
                      advance_counter e'.next_sequence (next push.entry.submission_sequence);
                },
                ok push.entry.id,
              )
            ]).0
    go none f = enter-Accounted x push initial e' f i s (Same-Accounted x e e' k p)
    go (some old) f = Same-Accounted x e e' k p

two_guards :
    {J : Type 0} (x : ℕ) (a b : Bool) (e : Engine J) (error error' : Error)
    (out : Engine J × Result ℕ)
    → Accounted x e
    → Accounted x out.0
    → Accounted x (if a then (e, err error) else if b then (e, err error') else out).0
two_guards x true b e error error' out p q = p
two_guards x false true e error error' out p q = p
two_guards x false false e error error' out p q = q

module _ {J : Type 0} ⦃impl : IJobJournal J⦄ where
  with_spec-Same :
      (spec : Result DurableTaskSpec) (initial : JobSnapshot) (j : J) (e e0 : Engine J)
      → Same e0 e
      → Same e0 (journal_with_spec spec initial j e).0
  unfolding journal_with_spec
  with_spec-Same (err error) initial j e e0 p = p
  with_spec-Same (ok spec) initial j e e0 p = journaled-Same e e0 _ p

  pub submission-Same :
      (journal : Option J) (initial : JobSnapshot) (options : SubmissionOptions) (e e0 : Engine J)
      → Same e0 e
      → Same e0 (journal_submission journal initial options e).0
  unfolding journal_submission
  submission-Same none initial options e e0 p = p
  submission-Same (some j) initial options e e0 p = with_spec-Same _ initial j e e0 p

  pub restore-Same :
      (journal : Option J) (submission : JobSubmissionRecord) (e : Engine J)
      → Same e (journal_restore journal submission e).0
  unfolding journal_restore
  restore-Same none submission e = unfold Same in (refl, (refl, refl, refl))
  restore-Same (some j) submission e =
      journaled-Same e e _ (unfold Same in (refl, (refl, refl, refl)))

  pub submit_begin-Accounted :
      (x : ℕ) (options : SubmissionOptions) (e : Engine J)
      → find_record e.next_job_id e.records ≡ none
      → Accounted x e
      → Accounted x (submit_begin options e).0
  unfolding submit_begin submission_snapshot submission_entry
  submit_begin-Accounted x options e f p =
      two_guards x (options.estimated_work_units == 0) (not e.accepting) e
        (invalid_argument (text "estimated work units must be greater than zero"))
        (logic_error (text "task engine is not accepting submissions"))
        (accept push initial (journal_submission e.journal initial options (take_identity e))) p
        (accept-Accounted x push initial (take_identity e) _ (unfold take_identity in f) refl refl
          (submission-Same e.journal initial options (take_identity e) (take_identity e)
            (unfold Same in (refl, (refl, refl, refl))))
          (unfold take_identity in p))
    where
      initial : JobSnapshot
      initial = submission_snapshot e.next_job_id e.next_sequence options

      push : Push
      push = record {
        entry = submission_entry e.next_job_id e.next_sequence options;
        raced = text "submission raced with engine shutdown";
        drained = false;
      }

  pub restore_begin-Accounted :
      (x : ℕ) (submission : JobSubmissionRecord) (e : Engine J)
      → Accounted x e
      → Accounted x (restore_begin submission e).0
  unfolding restore_begin restored_snapshot restored_entry
  restore_begin-Accounted x submission e p =
      two_guards x
        (submission.id == 0
          || submission.estimated_work_units == 0
          || is_empty submission.task.type)
        (not e.accepting) e (invalid_argument (text "invalid recovered submission"))
        (logic_error (text "task engine is not accepting recovered jobs"))
        (accept_restored push (restored_snapshot submission)
          (journal_restore e.journal submission e))
        p
        (accept_restored-Accounted x push (restored_snapshot submission) e _ refl refl
          (restore-Same e.journal submission e) p)
    where
      push : Push
      push = record {
        entry = restored_entry submission;
        raced = text "recovery raced with engine shutdown";
        drained = false;
      }

pub reserve-Accounted :
    {J : Type 0} (x : ℕ) (submission : JobSubmissionRecord) (e : Engine J)
    → Accounted x e
    → Accounted x (reserve_recovered_identity submission e).0
unfolding reserve_recovered_identity
reserve-Accounted x submission e p = elim (Bool-cases (submission.id == 0)) [
  | inl q ↦ rw q p
  | inr q ↦ rw q p
]
