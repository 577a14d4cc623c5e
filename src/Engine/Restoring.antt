-- ===== src/Engine/Restoring.antt =====
-- The IDs that `restore` and `reserve_recovered_identity` of src/task_engine.cpp take.
use omni_sched.Base.{
  ℕ, ◌≤◌, ◌<◌, text, is_empty, Bool, true, false, Option, none, some, [], ◌∷◌, ◌++◌, ◌||◌, ◌≡◌,
  refl, ap, ◌∙◌, ◌==◌, not, if◌then◌else◌, Error, invalid_argument, logic_error, Result, ok, err,
  arith,
}
use omni_sched.Types.{unlimited_work, JobSnapshot}
use omni_sched.Journal.{JobSubmissionRecord, IJobJournal}
use omni_sched.Engine.Job.{JobRecord, new_record}
use omni_sched.Engine.Registry.{Registry, find_record, emplace}
use omni_sched.Engine.State.{Engine, Push, next, advance_counter, enter}
use omni_sched.Engine.Submit.{
  journaled, accept_restored, restored_snapshot, restored_entry, journal_restore, restore_begin,
}
use omni_sched.Engine.Keys.{keys, KeepsKeys}

-- A call that gives an ID has put it behind the others in the map and has not lowered the counter; one
-- that throws has changed neither.
abbrev pub AddsKey : {J : Type 0} → ℕ → Engine J → Engine J × Result ℕ → Type 0
AddsKey i e (e', err error) = KeepsKeys e e'
AddsKey i e (e', ok id) =
    (id ≡ i) × (keys e'.records ≡ keys e.records ++ i ∷ []) × (e.next_job_id ≤ e'.next_job_id)

two_guards :
    {J : Type 0} (i : ℕ) (a b : Bool) (e : Engine J) (error error' : Error)
    (out : Engine J × Result ℕ)
    → AddsKey i e out
    → AddsKey i e (if a then (e, err error) else if b then (e, err error') else out)
two_guards i true b e error error' out p = (refl, refl)
two_guards i false true e error error' out p = (refl, refl)
two_guards i false false e error error' out p = p

keys_end :
    (id : ℕ) (r : JobRecord) (records : Registry)
    → keys (records ++ (id, r) ∷ []) ≡ keys records ++ id ∷ []
keys_end id r [] = refl
keys_end id r ((key, old) ∷ records) = ap (λ ks. key ∷ ks) (keys_end id r records)

emplace_new :
    (id : ℕ) (r : JobRecord) (records : Registry)
    → find_record id records ≡ none
    → (emplace id r records).0 ≡ records ++ (id, r) ∷ []
unfolding emplace
emplace_new id r records h = rw (emplace, h)

keys-emplace :
    (id : ℕ) (r : JobRecord) (records : Registry)
    → find_record id records ≡ none
    → keys (emplace id r records).0 ≡ keys records ++ id ∷ []
keys-emplace id r records h = ap keys (emplace_new id r records h) ∙ keys_end id r records

pub advanced :
    (current id : ℕ)
    → id < unlimited_work
    → (current ≤ advance_counter current (next id)) × (id < advance_counter current (next id))
unfolding advance_counter
advanced current id h = ground arith

not_lowered : (current desired : ℕ) → current ≤ advance_counter current desired
unfolding advance_counter
not_lowered current desired = ground arith

accept_restored-AddsKey :
    {J : Type 0} (push : Push) (initial : JobSnapshot) (e : Engine J)
    (out : Engine J × Result (Unit {0}))
    → KeepsKeys e out.0
    → AddsKey push.entry.id e (accept_restored push initial out)
unfolding accept_restored enter
accept_restored-AddsKey push initial e (e', err error) k = k
accept_restored-AddsKey {J} push initial e (e', ok u) (p, q) =
    go (find_record push.entry.id e'.records) refl
  where
    m : ℕ
    m = advance_counter e'.next_job_id (next push.entry.id)

    n : ℕ
    n = advance_counter e'.next_sequence (next push.entry.submission_sequence)

    go :
        (o : Option JobRecord)
        → find_record push.entry.id e'.records ≡ o
        → AddsKey push.entry.id e (elim o as (λ _. Engine J × Result ℕ) [
          | some old ↦ (e', err (invalid_argument (text "recovered job ID already exists")))
          | none ↦ (
            record (enter push (new_record initial push.entry) e') {
              next_job_id = m;
              next_sequence = n;
            },
            ok push.entry.id,
          )
        ])
    go none f = (
      refl,
      keys-emplace push.entry.id _ e'.records f ∙ ap (λ ks. ks ++ push.entry.id ∷ []) p,
      omega (arith, q, not_lowered e'.next_job_id (next push.entry.id)),
    )
    go (some old) f = (p, q)

module _ {J : Type 0} ⦃impl : IJobJournal J⦄ where
  restore-KeepsKeys :
      (journal : Option J) (submission : JobSubmissionRecord) (e : Engine J)
      → KeepsKeys e (journal_restore journal submission e).0
  unfolding journal_restore journaled
  restore-KeepsKeys none submission e = (refl, refl)
  restore-KeepsKeys (some j) submission e = (refl, refl)

  pub restore_begin-AddsKey :
      (submission : JobSubmissionRecord) (e : Engine J)
      → AddsKey submission.id e (restore_begin submission e)
  unfolding restore_begin restored_entry
  restore_begin-AddsKey submission e =
      two_guards submission.id
        (submission.id == 0
          || submission.estimated_work_units == 0
          || is_empty submission.task.type)
        (not e.accepting) e (invalid_argument (text "invalid recovered submission"))
        (logic_error (text "task engine is not accepting recovered jobs"))
        (accept_restored push (restored_snapshot submission)
          (journal_restore e.journal submission e))
        (accept_restored-AddsKey push (restored_snapshot submission) e
          (journal_restore e.journal submission e) (restore-KeepsKeys e.journal submission e))
    where
      push : Push
      push = record {
        entry = restored_entry submission;
        raced = text "recovery raced with engine shutdown";
        drained = false;
      }
