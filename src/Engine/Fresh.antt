-- ===== src/Engine/Fresh.antt =====
-- The counter of IDs in src/task_engine.cpp against the IDs in the map.
use omni_sched.Base.{
  ℕ, ◌≤◌, ◌<◌, text, is_empty, Bool, true, false, Bool-cases, Option, none, some, List, [], ◌∷◌,
  ◌++◌, ◌||◌, ◌≡◌, refl, inl, inr, ◌==◌, not, if◌then◌else◌, Error, invalid_argument, logic_error,
  Result, ok, err, All, All-mono, arith,
}
use omni_sched.Types.{unlimited_work, JobSnapshot, DurableTaskSpec, SubmissionOptions}
use omni_sched.Journal.{JobSubmissionRecord, IJobJournal}
use omni_sched.Engine.Job.{JobRecord, new_record}
use omni_sched.Engine.Registry.{Registry, find_record, emplace}
use omni_sched.Engine.State.{Engine, Push, next, advance_counter, enter}
use omni_sched.Engine.Submit.{
  submission_snapshot, submission_entry, take_identity, journaled, accept, accept_restored,
  restored_snapshot, restored_entry, reserve_recovered_identity, journal_with_spec,
  journal_submission, submit_begin, journal_restore, restore_begin,
}
use omni_sched.Engine.Step.{Action, step}
use omni_sched.Engine.Keys.{
  keys, KeepsKeys, join-KeepsKeys, set_scheduler-KeepsKeys, submit_end-KeepsKeys, cancel-KeepsKeys,
  shutdown-KeepsKeys, work-KeepsKeys,
}

-- Every ID in the map is below the counter.
abbrev pub IsFresh : {J : Type 0} → Engine J → Type 0
IsFresh e = All (λ k. k < e.next_job_id) (keys e.records)

-- The step does not wrap the counter around.
abbrev pub Fits : {J : Type 0} → Action → Engine J → Type 0
Fits (Action.submits options) e = e.next_job_id < unlimited_work
Fits (Action.restores submission) e = submission.id < unlimited_work
Fits (Action.reserves submission) e = submission.id < unlimited_work
Fits _ e = Unit {0}

below_none :
    (n : ℕ) (records : Registry) → All (λ k. k < n) (keys records) → find_record n records ≡ none
unfolding find_record
below_none n [] h = refl
below_none n ((key, r) ∷ records) h = ground (arith, below_none n records h.1, h.0)

pub IsFresh-find_record :
    {J : Type 0} (e : Engine J) → IsFresh e → find_record e.next_job_id e.records ≡ none
IsFresh-find_record e h = below_none e.next_job_id e.records h

pub below_mono : (n m : ℕ) (ks : List ℕ) → n ≤ m → All (λ k. k < n) ks → All (λ k. k < m) ks
below_mono n m ks l h = All-mono (λ k. k < n) (λ k. k < m) (λ k p. omega arith) ks h

pub kept : {J : Type 0} (e e' : Engine J) → KeepsKeys e e' → IsFresh e → IsFresh e'
kept e e' (p, q) h = rw (p, q) h

pub emplaced_below :
    (m id : ℕ) (r : JobRecord) (records : Registry)
    → id < m
    → All (λ k. k < m) (keys records)
    → All (λ k. k < m) (keys (emplace id r records).0)
unfolding emplace
emplaced_below m id r records l h = go (find_record id records)
  where
    at_end :
        (rs : Registry) → All (λ k. k < m) (keys rs) → All (λ k. k < m) (keys (rs ++ (id, r) ∷ []))
    at_end [] h = (l, tt)
    at_end ((key, old) ∷ rs) h = (h.0, at_end rs h.1)

    go :
        (o : Option JobRecord)
        → All
            (λ k. k < m)
            (keys
              (elim o as (λ _. Registry × Bool) [
                | some old ↦ (records, false)
                | none ↦ (records ++ (id, r) ∷ [], true)
              ]).0)
    go none = at_end records h
    go (some old) = h

pub advanced :
    (current desired : ℕ)
    → (current ≤ advance_counter current desired) × (desired ≤ advance_counter current desired)
unfolding advance_counter
advanced current desired = ground arith

two_guards :
    {J : Type 0} (a b : Bool) (e : Engine J) (error error' : Error) (out : Engine J × Result ℕ)
    → IsFresh e
    → IsFresh out.0
    → IsFresh (if a then (e, err error) else if b then (e, err error') else out).0
two_guards true b e error error' out p q = p
two_guards false true e error error' out p q = p
two_guards false false e error error' out p q = q

journaled-KeepsKeys :
    {J : Type 0} (e : Engine J) (out : J × Result (Unit {0})) → KeepsKeys e (journaled e out).0
unfolding journaled
journaled-KeepsKeys e (j, result) = (refl, refl)

accept-IsFresh :
    {J : Type 0} (push : Push) (initial : JobSnapshot) (e : Engine J)
    (out : Engine J × Result (Unit {0}))
    → KeepsKeys e out.0
    → push.entry.id < e.next_job_id
    → IsFresh e
    → IsFresh (accept push initial out).0
unfolding accept enter
accept-IsFresh push initial e (e', err error) k l h = kept e e' k h
accept-IsFresh push initial e (e', ok u) (p, q) l h =
    emplaced_below e'.next_job_id push.entry.id _ e'.records (omega arith) (kept e e' (p, q) h)

accept_restored-IsFresh :
    {J : Type 0} (push : Push) (initial : JobSnapshot) (e : Engine J)
    (out : Engine J × Result (Unit {0}))
    → KeepsKeys e out.0
    → push.entry.id < unlimited_work
    → IsFresh e
    → IsFresh (accept_restored push initial out).0
unfolding accept_restored enter
accept_restored-IsFresh push initial e (e', err error) k l h = kept e e' k h
accept_restored-IsFresh {J} push initial e (e', ok u) k l h =
    go (find_record push.entry.id e'.records)
  where
    m : ℕ
    m = advance_counter e'.next_job_id (next push.entry.id)

    go :
        (o : Option JobRecord)
        → IsFresh
            (elim o as (λ _. Engine J × Result ℕ) [
              | some old ↦ (e', err (invalid_argument (text "recovered job ID already exists")))
              | none ↦ (
                record (enter push (new_record initial push.entry) e') {
                  next_job_id = advance_counter e'.next_job_id (next push.entry.id);
                  next_sequence =
                      advance_counter e'.next_sequence (next push.entry.submission_sequence);
                },
                ok push.entry.id,
              )
            ]).0
    go (some old) = kept e e' k h
    go none =
        let (a, b) = advanced e'.next_job_id (next push.entry.id) in
        emplaced_below _ push.entry.id _ e'.records (omega arith)
          (below_mono _ _ _ a (kept e e' k h))

module _ {J : Type 0} ⦃impl : IJobJournal J⦄ where
  with_spec-KeepsKeys :
      (spec : Result DurableTaskSpec) (initial : JobSnapshot) (j : J) (e : Engine J)
      → KeepsKeys e (journal_with_spec spec initial j e).0
  unfolding journal_with_spec
  with_spec-KeepsKeys (err error) initial j e = (refl, refl)
  with_spec-KeepsKeys (ok spec) initial j e = journaled-KeepsKeys e _

  pub submission-KeepsKeys :
      (journal : Option J) (initial : JobSnapshot) (options : SubmissionOptions) (e : Engine J)
      → KeepsKeys e (journal_submission journal initial options e).0
  unfolding journal_submission
  submission-KeepsKeys none initial options e = (refl, refl)
  submission-KeepsKeys (some j) initial options e = with_spec-KeepsKeys _ initial j e

  pub restore-KeepsKeys :
      (journal : Option J) (submission : JobSubmissionRecord) (e : Engine J)
      → KeepsKeys e (journal_restore journal submission e).0
  unfolding journal_restore
  restore-KeepsKeys none submission e = (refl, refl)
  restore-KeepsKeys (some j) submission e = journaled-KeepsKeys e _

  submit_begin-IsFresh :
      (options : SubmissionOptions) (e : Engine J)
      → e.next_job_id < unlimited_work
      → IsFresh e
      → IsFresh (submit_begin options e).0
  unfolding submit_begin submission_entry take_identity
  submit_begin-IsFresh options e l h =
      two_guards (options.estimated_work_units == 0) (not e.accepting) e
        (invalid_argument (text "estimated work units must be greater than zero"))
        (logic_error (text "task engine is not accepting submissions"))
        (accept push initial (journal_submission e.journal initial options (take_identity e))) h
        (accept-IsFresh push initial (take_identity e) _
          (submission-KeepsKeys e.journal initial options (take_identity e)) (omega arith)
          (below_mono _ _ _ (omega arith) h))
    where
      initial : JobSnapshot
      initial = submission_snapshot e.next_job_id e.next_sequence options

      push : Push
      push = record {
        entry = submission_entry e.next_job_id e.next_sequence options;
        raced = text "submission raced with engine shutdown";
        drained = false;
      }

  restore_begin-IsFresh :
      (submission : JobSubmissionRecord) (e : Engine J)
      → submission.id < unlimited_work
      → IsFresh e
      → IsFresh (restore_begin submission e).0
  unfolding restore_begin restored_entry
  restore_begin-IsFresh submission e l h =
      two_guards
        (submission.id == 0
          || submission.estimated_work_units == 0
          || is_empty submission.task.type)
        (not e.accepting) e (invalid_argument (text "invalid recovered submission"))
        (logic_error (text "task engine is not accepting recovered jobs"))
        (accept_restored push (restored_snapshot submission)
          (journal_restore e.journal submission e))
        h
        (accept_restored-IsFresh push (restored_snapshot submission) e _
          (restore-KeepsKeys e.journal submission e) l h)
    where
      push : Push
      push = record {
        entry = restored_entry submission;
        raced = text "recovery raced with engine shutdown";
        drained = false;
      }

  reserve-IsFresh :
      (submission : JobSubmissionRecord) (e : Engine J)
      → IsFresh e
      → IsFresh (reserve_recovered_identity submission e).0
  unfolding reserve_recovered_identity
  reserve-IsFresh submission e h = elim (Bool-cases (submission.id == 0)) [
    | inl q ↦ rw q h
    | inr q ↦ rw q (below_mono _ _ _ (advanced e.next_job_id (next submission.id)).0 h)
  ]

  -- A step that does not wrap the counter around leaves it ahead of every ID in the map.
  pub step-IsFresh : (a : Action) (e : Engine J) → Fits a e → IsFresh e → IsFresh (step a e)
  unfolding step
  step-IsFresh (Action.submits options) e l h = submit_begin-IsFresh options e l h
  step-IsFresh (Action.restores submission) e l h = restore_begin-IsFresh submission e l h
  step-IsFresh (Action.reserves submission) e l h = reserve-IsFresh submission e h
  step-IsFresh (Action.pushes id) e l h =
      kept e (step (Action.pushes id) e) (submit_end-KeepsKeys id e) h
  step-IsFresh (Action.cancels id) e l h =
      kept e (step (Action.cancels id) e) (cancel-KeepsKeys id e) h
  step-IsFresh (Action.sets_scheduler config) e l h =
      kept e (step (Action.sets_scheduler config) e) (set_scheduler-KeepsKeys config e) h
  step-IsFresh (Action.shuts_down mode) e l h =
      kept e (step (Action.shuts_down mode) e) (shutdown-KeepsKeys mode e) h
  step-IsFresh Action.joins e l h = kept e (step Action.joins e) (join-KeepsKeys e) h
  step-IsFresh (Action.works k slice) e l h =
      kept e (step (Action.works k slice) e) (work-KeepsKeys k slice _ e) h
