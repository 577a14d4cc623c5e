-- ===== src/Engine/WorkerMoves.antt =====
-- What a worker of src/task_engine.cpp makes of each record: the edges out of `ready` and `running`.
use omni_sched.Base.{
  ℕ, ◌≤◌, Bytes, Bool, true, false, Option, none, some, [], ◌≡◌, refl, ap, ◌⊎◌, inl, inr, get_elem?,
  arith,
}
use omni_sched.Types.{JobState, SliceStatus, SliceResult, is_terminal}
use omni_sched.Scheduler.Entry.{SchedulerEntry}
use omni_sched.Journal.{IJobJournal}
use omni_sched.Engine.Job.{JobRecord, persist_transition_locked, finish_locked}
use omni_sched.Engine.Registry.{find_record}
use omni_sched.Engine.Queue
use omni_sched.Engine.Queue.{TaskQueue, Dispatch}
use omni_sched.Engine.State.{Engine, Worker}
use omni_sched.Engine.Worker.{
  Slice, slice_result, is_ready, consume, after_pop, fetch, started, start_found, start, yielded,
  ended, settle, finish_found, finish_slice,
}
use omni_sched.Engine.Step.{fetched, place, worker_step, work}
use omni_sched.Engine.Count.{runs}
use omni_sched.Engine.Accounting.{IsAt}
use omni_sched.Engine.Placed.{one_self}
use omni_sched.Engine.StepPlaces.{Accounted, total_at}
use omni_sched.Engine.Outcome.{IsOpen, Ends, Persists, persist-Persists, finish-Finishes}
use omni_sched.Engine.Moves.{
  Edge, Moves, IsSane, IsSaneAt, Edge-between, Halts-Moves, stands-IsSane, stands_running,
}
use omni_sched.Engine.Moving.{Moving, IsSound, same, put-Moving, first-Moving}

-- A job that a worker runs.
abbrev pub IsRunning : Option JobRecord → Type 0
IsRunning none = Unit
IsRunning (some r) = (r.snapshot.state ≡ JobState.running) × IsOpen r

pub Accounted-IsSound : {J : Type 0} (e : Engine J) → ((x : ℕ) → Accounted x e) → IsSound e
Accounted-IsSound e p x = go (find_record x e.records) _ _ (p x)
  where
    go : (o : Option JobRecord) (h n : ℕ) → IsAt x o h n → IsSaneAt o
    go none h n d = tt
    go (some r) h n (_, _, d) = stands-IsSane r h n d

pub run-IsRunning :
    {J : Type 0} (k id budget : ℕ) (e : Engine J)
    → get_elem? e.workers k ≡ some (Worker.running id budget)
    → Accounted id e
    → IsRunning (find_record id e.records)
run-IsRunning k id budget e g p =
    go (find_record id e.records) _ _
      (omega (arith, one_self id, total_at (runs id) e.workers k (Worker.running id budget) g)) p
  where
    go : (o : Option JobRecord) (h n : ℕ) → 1 ≤ n → IsAt id o h n → IsRunning o
    go none h n l d = tt
    go (some r) h n l (_, _, d) = stands_running r.snapshot.state r h n l d

ready_state : (s : JobState) → is_ready s ≡ true → s ≡ JobState.ready
unfolding is_ready
ready_state JobState.ready h = refl
ready_state JobState.new h = absurd (cc)
ready_state JobState.running h = absurd (cc)
ready_state JobState.completed h = absurd (cc)
ready_state JobState.failed h = absurd (cc)
ready_state JobState.cancelled h = absurd (cc)

sane-IsOpen : (r : JobRecord) → is_terminal r.snapshot.state ≡ false → IsSane r → IsOpen r
sane-IsOpen r t (inl (_, o)) = o
sane-IsOpen r t (inr e) = absurd (cc (e.0, t))

fetch-Moving : {J : Type 0} (x : ℕ) (e : Engine J) → Moving x e (fetched e (fetch e)).0
unfolding fetch fetched after_pop
fetch-Moving {J} x e = go (Queue.pop false e.queue)
  where
    go :
        (o : Option (Option Dispatch × TaskQueue))
        → Moving x e
            (fetched e (elim o as (λ _. Option (Engine J × Worker)) [
              | none ↦ none
              | some r ↦ some (after_pop e r)
            ])).0
    go none = same x e
    go (some (none, queue)) = same x e
    go (some (some d, queue)) = same x e

module _ {J : Type 0} ⦃impl : IJobJournal J⦄ where
  started-Moving :
      (x : ℕ) (entry : SchedulerEntry) (budget : ℕ) (e : Engine J) (r : JobRecord)
      (out : Bool × JobRecord × Option J)
      → find_record entry.id e.records ≡ some r
      → r.snapshot.state ≡ JobState.ready
      → Persists r out
      → Moving x e (started entry budget e out).0
  unfolding started
  started-Moving x entry budget e r (true, r', j) f s (inl (_, p)) =
      put-Moving x entry.id e r _ f
        (rw p (inr (inr (ap is_terminal s, refl, refl, Edge-between s refl Edge.starts))))
  started-Moving x entry budget e r (true, r', j) f s (inr (p, _, _)) = absurd (cc)
  started-Moving x entry budget e r (false, r', j) f s (inl (p, _)) = absurd (cc)
  started-Moving x entry budget e r (false, r', j) f s (inr (_, p, q)) =
      put-Moving x entry.id e r _ f (inr (inr (Halts-Moves r r' (ap is_terminal s) p (inr q))))

  start-Moving :
      (x : ℕ) (entry : SchedulerEntry) (budget : ℕ) (o : Option JobRecord) (e : Engine J)
      → find_record entry.id e.records ≡ o
      → IsSaneAt o
      → Moving x e (start_found entry budget o e).0
  unfolding start_found
  start-Moving x entry budget none e f h = same x e
  start-Moving x entry budget (some r) e f h =
      first-Moving x e (is_ready r.snapshot.state) _ _ (λ t. begun (ready_state _ t))
        (λ t. same x e)
    where
      begun :
          r.snapshot.state ≡ JobState.ready
          → Moving x e
              (started entry budget e (persist_transition_locked r JobState.running [] e.journal)).0
      begun s =
          started-Moving x entry budget e r _ f s
            (persist-Persists r JobState.running [] e.journal (sane-IsOpen r (ap is_terminal s) h))

  -- The end of a slice, of the record `r` with its work counted in `c`.
  module _ (x id : ℕ) (e : Engine J) (r c : JobRecord) (f : find_record id e.records ≡ some r)
      (move : (r' : JobRecord) → Moves c r' → Moves r r') (s : c.snapshot.state ≡ JobState.running)
      (o : IsOpen c) where
    ended-Moving :
        (state : JobState) (message : Bytes)
        → is_terminal state ≡ true
        → Edge JobState.running state
        → Moving x e (ended id c state message e).0
    unfolding ended
    ended-Moving state message t edge =
        let (p, q) = finish-Finishes c state message e.journal o t in
        put-Moving x id e r _ f (
          inr (
            inr (
              move (finish_locked c state message e.journal).0
                (go (finish_locked c state message e.journal).0 p q))))
      where
        go :
            (r' : JobRecord)
            → Ends c r'
            → (r'.snapshot.state ≡ state) ⊎ (r'.snapshot.state ≡ JobState.failed)
            → Moves c r'
        go r' (_, p, q, _) (inl u) = (ap is_terminal s, p, q, Edge-between s u edge)
        go r' p (inr u) = Halts-Moves c r' (ap is_terminal s) p (inr u)

    yielded-Moving :
        (message : Bytes) (out : Bool × JobRecord × Option J)
        → Persists c out
        → Moving x e (yielded id message e out).0
    unfolding yielded
    yielded-Moving message (true, r', j) (inl (_, p)) = put-Moving x id e r _ f (
        rw p (
          inr (
            inr (
              move
                (record c {
                  snapshot = record (c.snapshot) { state = JobState.ready; message = message };
                })
                (ap is_terminal s, refl, refl, Edge-between s refl Edge.yields)))))
    yielded-Moving message (true, r', j) (inr (p, _, _)) = absurd (cc)
    yielded-Moving message (false, r', j) (inl (p, _)) = absurd (cc)
    yielded-Moving message (false, r', j) (inr (_, p, q)) =
        put-Moving x id e r _ f
          (inr (inr (move r' (Halts-Moves c r' (ap is_terminal s) p (inr q)))))

    settle-Moving :
        (status : SliceStatus) (message : Bytes) → Moving x e (settle id c status message e).0
    unfolding settle
    settle-Moving SliceStatus.completed message = ended-Moving _ message refl Edge.completes
    settle-Moving SliceStatus.failed message = ended-Moving _ message refl Edge.fails
    settle-Moving SliceStatus.cancelled message = ended-Moving _ message refl Edge.is_cancelled
    settle-Moving SliceStatus.yielded message =
        first-Moving x e c.stop_requested _ _ (λ t. ended-Moving _ _ refl Edge.is_cancelled)
          (λ t. yielded-Moving message _ (persist-Persists c JobState.ready message e.journal o))

  finish-Moving :
      (x id : ℕ) (result : SliceResult) (o : Option JobRecord) (e : Engine J)
      → find_record id e.records ≡ o
      → IsRunning o
      → Moving x e (finish_found id result o e).0
  unfolding finish_found
  finish-Moving x id result none e f h = same x e
  finish-Moving x id result (some r) e f (s, o) =
      unfold consume in
      settle-Moving x id e r (consume r result.work_units_consumed) f (λ r' p. p) s o result.status
        result.message

  worker_step-Moving :
      (x k : ℕ) (w : Worker) (slice : Slice) (e : Engine J)
      → get_elem? e.workers k ≡ some w
      → ((y : ℕ) → Accounted y e)
      → Moving x e (worker_step w slice e).0
  unfolding worker_step
  worker_step-Moving x k Worker.idle slice e g p = fetch-Moving x e
  worker_step-Moving x k (Worker.fetched entry budget) slice e g p =
      unfold start in
      start-Moving x entry budget (find_record entry.id e.records) e refl
        (Accounted-IsSound e p entry.id)
  worker_step-Moving x k (Worker.running id budget) slice e g p =
      unfold finish_slice in
      finish-Moving x id (slice_result slice) (find_record id e.records) e refl
        (run-IsRunning k id budget e g (p id))
  worker_step-Moving x k (Worker.requeues entry) slice e g p = same x e
  worker_step-Moving x k Worker.exited slice e g p = same x e

  pub work-Moving :
      (x k : ℕ) (slice : Slice) (o : Option Worker) (e : Engine J)
      → get_elem? e.workers k ≡ o
      → ((y : ℕ) → Accounted y e)
      → Moving x e (work k slice o e)
  unfolding work place
  work-Moving x k slice none e g p = same x e
  work-Moving x k slice (some w) e g p = worker_step-Moving x k w slice e g p
