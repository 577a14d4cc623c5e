-- ===== src/Engine/Cancelled.antt =====
-- `cancel` of src/task_engine.cpp and the slice that is stopped by it.
use omni_sched.Base.{
  ℕ, Bytes, text, is_empty, Bool, true, false, Bool-cases, Option, none, some, ◌≡◌, refl, subst,
  ◌⊎◌, inl, inr, if◌then◌else◌, get_elem?,
}
use omni_sched.Types.{JobState, SliceStatus, is_terminal}
use omni_sched.Journal.{IJobJournal}
use omni_sched.Engine.Job.{JobRecord, persist_transition_locked, finish_locked}
use omni_sched.Engine.Registry.{find_record}
use omni_sched.Engine.State.{Engine, Worker}
use omni_sched.Engine.Control.{is_waiting, cancel_live, cancel_found, cancel}
use omni_sched.Engine.Worker.{
  Slice, slice_result, consume, yielded, ended, settle, finish_found, finish_slice,
}
use omni_sched.Engine.Outcome.{IsOpen, IsEnded, finish-Finishes}
use omni_sched.Engine.Placed.{put-own}
use omni_sched.Engine.StepPlaces.{Accounted}
use omni_sched.Engine.Moves.{IsSane, IsSaneAt}
use omni_sched.Engine.WorkerMoves.{IsRunning, Accounted-IsSound, run-IsRunning}

-- The map holds the job, and it has ended.
abbrev pub EndsAt : Option JobRecord → Type 0
EndsAt none = ⊥
EndsAt (some r) = IsEnded r

-- A job that waits has ended; one that is run is asked to stop, and that is all.
abbrev pub Stops : JobRecord → Option JobRecord → Type 0
Stops r none = ⊥
Stops r (some r') =
    ((is_waiting r.snapshot.state ≡ true) × IsEnded r')
    ⊎ ((is_waiting r.snapshot.state ≡ false) × (r' ≡ record r { stop_requested = true }))

-- From what the map holds of the job, and what `cancel` leaves and returns.
abbrev pub Cancels : {J : Type 0} → ℕ → Option JobRecord → Engine J → Engine J × Bool → Type 0
Cancels id none e (e', answer) = (answer ≡ false) × (e' ≡ e)
Cancels id (some r) e (e', false) = (is_terminal r.snapshot.state ≡ true) × (e' ≡ e)
Cancels id (some r) e (e', true) =
    (is_terminal r.snapshot.state ≡ false) × Stops r (find_record id e'.records)

module _ {J : Type 0} ⦃impl : IJobJournal J⦄ where
  cancel_live-Stops :
      (id : ℕ) (r : JobRecord) (e : Engine J)
      → find_record id e.records ≡ some r
      → IsOpen r
      → Stops r (find_record id (cancel_live id r e).records)
  unfolding cancel_live
  cancel_live-Stops id r e f o = elim (Bool-cases (is_waiting r.snapshot.state)) [
    | inl w ↦ rw (w, put-own id e r finished.0 finished.1 f) (inl (w, over))
    | inr w ↦ rw (w, put-own id e r stopped e.journal f) (inr (w, refl))
  ]
    where
      stopped : JobRecord
      stopped = record r { stop_requested = true }

      finished : JobRecord × Option J
      finished =
          finish_locked (record r { stop_requested = true }) JobState.cancelled
            (text "cancelled before execution") e.journal

      over : IsEnded finished.0
      over =
          (finish-Finishes (record r { stop_requested = true }) JobState.cancelled
            (text "cancelled before execution") e.journal o refl).0.0

  cancel_found-Cancels :
      (id : ℕ) (o : Option JobRecord) (e : Engine J)
      → find_record id e.records ≡ o
      → IsSaneAt o
      → Cancels id o e (cancel_found id o e)
  unfolding cancel_found
  cancel_found-Cancels id none e f h = (refl, refl)
  cancel_found-Cancels id (some r) e f h = go (is_terminal r.snapshot.state) refl h
    where
      go :
          (b : Bool)
          → is_terminal r.snapshot.state ≡ b
          → IsSane r
          → Cancels id (some r) e (if b then (e, false) else (cancel_live id r e, true))
      go true t h = (t, refl)
      go false t (inl (_, o)) = (t, cancel_live-Stops id r e f o)
      go false t (inr ended) = absurd (cc (ended.0, t))

  -- From a state in which every job is in account: `cancel` says false of a job that is unknown or has
  -- ended, and changes nothing; it says true of any other, which has ended afterwards if it waited, and
  -- if it is run is asked to stop and otherwise as it was.
  pub cancel-Cancels :
      (id : ℕ) (e : Engine J)
      → ((y : ℕ) → Accounted y e)
      → Cancels id (find_record id e.records) e (cancel id e)
  unfolding cancel
  cancel-Cancels id e p =
      cancel_found-Cancels id (find_record id e.records) e refl (Accounted-IsSound e p id)

  ended-IsEnded :
      (id : ℕ) (e : Engine J) (r c : JobRecord) (state : JobState) (message : Bytes)
      → find_record id e.records ≡ some r
      → IsOpen c
      → is_terminal state ≡ true
      → EndsAt (find_record id (ended id c state message e).0.records)
  unfolding ended
  ended-IsEnded id e r c state message f o t =
      rw
        (put-own id e r (finish_locked c state message e.journal).0
          (finish_locked c state message e.journal).1 f)
        (finish-Finishes c state message e.journal o t).0.0

  settle-EndsAt :
      (id : ℕ) (e : Engine J) (r c : JobRecord) (status : SliceStatus) (message : Bytes)
      → find_record id e.records ≡ some r
      → IsOpen c
      → c.stop_requested ≡ true
      → EndsAt (find_record id (settle id c status message e).0.records)
  unfolding settle
  settle-EndsAt id e r c SliceStatus.completed message f o s =
      ended-IsEnded id e r c _ message f o refl
  settle-EndsAt id e r c SliceStatus.failed message f o s =
      ended-IsEnded id e r c _ message f o refl
  settle-EndsAt id e r c SliceStatus.cancelled message f o s =
      ended-IsEnded id e r c _ message f o refl
  settle-EndsAt id e r c SliceStatus.yielded message f o s = go c.stop_requested s
    where
      go :
          (b : Bool)
          → b ≡ true
          → EndsAt (
              find_record id
                (if b
                  then ended id c JobState.cancelled
                      (if is_empty message then text "cancellation requested" else message)
                      e
                  else yielded id message e
                      (persist_transition_locked c JobState.ready message e.journal)).0.records)
      go true q = ended-IsEnded id e r c JobState.cancelled _ f o refl
      go false q = absurd (cc)

  -- Of a job that a worker runs and that was asked to stop, the slice that is under way is the last:
  -- whatever it returns or throws, and whatever the journal says, the job has ended behind it.
  pub finish_slice-EndsAt :
      (k id budget : ℕ) (slice : Slice) (e : Engine J) (r : JobRecord)
      → ((y : ℕ) → Accounted y e)
      → get_elem? e.workers k ≡ some (Worker.running id budget)
      → find_record id e.records ≡ some r
      → r.stop_requested ≡ true
      → EndsAt (find_record id (finish_slice id slice e).0.records)
  unfolding finish_slice finish_found consume
  finish_slice-EndsAt k id budget slice e r p g f s = rw f (
      settle-EndsAt id e r (consume r (slice_result slice).work_units_consumed)
        (slice_result slice).status (slice_result slice).message f
        (subst (λ o. IsRunning o) f (run-IsRunning k id budget e g (p id))).1 s)
