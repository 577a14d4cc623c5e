-- ===== src/Engine/Outcome.antt =====
-- What the functions of src/task_engine.cpp under the registry lock make of a job record.
use omni_sched.Base.{
  Bytes, Bool, true, false, Option, none, some, [], ◌∷◌, ◌≡◌, refl, ◌⊎◌, inl, inr, Result, ok, err,
  arith,
}
use omni_sched.Types.{JobState, JobResult, is_terminal}
use omni_sched.Journal.{IJobJournal}
use omni_sched.Engine.Job.{
  JobRecord, publish, fail_without_journal_locked, after_append, persist_transition_locked,
  finish_after, finish_locked,
}

-- The result that a client gets of a job as it stands.
abbrev pub result_of : JobRecord → JobResult
result_of r = record {
  id = r.snapshot.id;
  state = r.snapshot.state;
  message = r.snapshot.message;
  work_units_consumed = r.snapshot.work_units_consumed;
}

-- The job goes on.
abbrev pub IsOpen : JobRecord → Type 0
IsOpen r = (r.result_published ≡ false) × (r.promise ≡ [])

-- The job has ended, its promise was set once, and to what the record says.
abbrev pub IsEnded : JobRecord → Type 0
IsEnded r =
    (is_terminal r.snapshot.state ≡ true)
    × (r.result_published ≡ true)
    × (r.promise ≡ result_of r ∷ [])

-- Of a job that goes on, `r'` has ended and differs in nothing but its end.
abbrev pub Ends : JobRecord → JobRecord → Type 0
Ends r r' =
    IsEnded r'
    × (r'.entry ≡ r.entry)
    × (r'.snapshot.id ≡ r.snapshot.id)
    × (r'.snapshot.work_units_consumed ≡ r.snapshot.work_units_consumed)

publish-Ends :
    (r : JobRecord) (state : JobState) (message : Bytes)
    → IsOpen r
    → is_terminal state ≡ true
    → Ends r (publish r state message)
unfolding publish
publish-Ends r state message (p, q) t = ((t, refl, rw q), refl, refl, refl)

publish-state :
    (r : JobRecord) (state : JobState) (message : Bytes)
    → (publish r state message).snapshot.state ≡ state
unfolding publish
publish-state r state message = refl

fail-publish :
    (r : JobRecord) (message : Bytes)
    → r.result_published ≡ false
    → fail_without_journal_locked r message ≡ publish r JobState.failed message
unfolding fail_without_journal_locked
fail-publish r message h = ground arith

-- The journal took the transition and the record is as it was, or the job has failed.
abbrev pub Persists : {J : Type 0} → JobRecord → Bool × JobRecord × Option J → Type 0
Persists r out =
    ((out.0 ≡ true) × (out.1 ≡ r))
    ⊎ ((out.0 ≡ false) × Ends r out.1 × (out.1.snapshot.state ≡ JobState.failed))

after_append-Persists :
    {J : Type 0} (r : JobRecord) (out : J × Result (Unit {0}))
    → IsOpen r
    → Persists r (after_append r out)
unfolding after_append
after_append-Persists r (j, ok u) o = inl (refl, refl)
after_append-Persists r (j, err e) o = inr (
    rw (fail-publish r _ o.0)
      (refl, publish-Ends r JobState.failed _ o refl, publish-state r JobState.failed _))

abbrev pub Finishes : JobRecord → JobState → JobRecord → Type 0
Finishes r state r' =
    Ends r r' × ((r'.snapshot.state ≡ state) ⊎ (r'.snapshot.state ≡ JobState.failed))

module _ {J : Type 0} ⦃impl : IJobJournal J⦄ where
  pub persist-Persists :
      (r : JobRecord) (state : JobState) (message : Bytes) (journal : Option J)
      → IsOpen r
      → Persists r (persist_transition_locked r state message journal)
  unfolding persist_transition_locked
  persist-Persists r state message none o = inl (refl, refl)
  persist-Persists r state message (some j) o = after_append-Persists r _ o

  finish-open :
      (r : JobRecord) (state : JobState) (message : Bytes) (journal : Option J)
      → r.result_published ≡ false
      → finish_locked r state message journal
        ≡ finish_after state message (persist_transition_locked r state message journal)
  unfolding finish_locked
  finish-open r state message journal h = ground arith

  finish_after-Finishes :
      (r : JobRecord) (state : JobState) (message : Bytes) (out : Bool × JobRecord × Option J)
      → IsOpen r
      → is_terminal state ≡ true
      → Persists r out
      → Finishes r state (finish_after state message out).0
  unfolding finish_after
  finish_after-Finishes r state message (true, r', j) o t (inl (_, e)) =
      rw e (publish-Ends r state message o t, inl (publish-state r state message))
  finish_after-Finishes r state message (true, r', j) o t (inr (e, _, _)) = absurd (cc)
  finish_after-Finishes r state message (false, r', j) o t (inl (e, _)) = absurd (cc)
  finish_after-Finishes r state message (false, r', j) o t (inr (_, e, f)) = (e, inr f)

  -- A job that goes on and is finished has ended, in the state asked for or as failed.
  pub finish-Finishes :
      (r : JobRecord) (state : JobState) (message : Bytes) (journal : Option J)
      → IsOpen r
      → is_terminal state ≡ true
      → Finishes r state (finish_locked r state message journal).0
  finish-Finishes r state message journal o t =
      rw (finish-open r state message journal o.0)
        (finish_after-Finishes r state message _ o t (persist-Persists r state message journal o))

  -- A job that has ended stays as it is.
  pub finish-ended :
      (r : JobRecord) (state : JobState) (message : Bytes) (journal : Option J)
      → r.result_published ≡ true
      → finish_locked r state message journal ≡ (r, journal)
  unfolding finish_locked
  finish-ended r state message journal h = ground arith
