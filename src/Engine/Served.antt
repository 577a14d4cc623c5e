-- ===== src/Engine/Served.antt =====
-- The ends of the workers of src/task_engine.cpp: a worker is left, or the queue is closed and empty.
use omni_sched.Base.{
  ℕ, zero, suc, Bytes, text, is_empty, Bool, true, false, Option, none, some, List, [], ◌∷◌, ◌≡◌,
  refl, sym, subst, ap, ◌∙◌, ◌⊎◌, inl, inr, if◌then◌else◌, get_elem?, set,
}
use omni_sched.Types.{JobState, SliceStatus, SliceResult}
use omni_sched.Scheduler.Entry.{SchedulerEntry}
use omni_sched.Journal.{IJobJournal}
use omni_sched.Engine.Queue
use omni_sched.Engine.Queue.{
  TaskQueue, Dispatch, dispatch, push_external, requeue, push_all, close_and_drain_pending,
}
use omni_sched.Engine.Job.{JobRecord, persist_transition_locked}
use omni_sched.Engine.Registry.{find_record}
use omni_sched.Engine.State.{Engine, Worker}
use omni_sched.Engine.Control.{all_exited}
use omni_sched.Engine.Worker.{
  Slice, slice_result, after_pop, fetch, start, is_ready, started, start_found, yielded, ended,
  settle, finish_slice, finish_found,
}
use omni_sched.Engine.Step.{fetched, place, worker_step, work}
use omni_sched.Engine.SliceFrame.{start-Keeps, finish-Keeps}
use omni_sched.Engine.Popping.{
  IsDrained, IsServed, IsLive, all_exited-set, PopsServed, pop-PopsServed,
}

-- A step of a worker ends in a live one, or the queue is drained.
abbrev StepServed : {J : Type 0} → Engine J → Engine J × Worker → Type 0
StepServed e (e', w) = (e'.workers ≡ e.workers) × (IsLive w ⊎ IsDrained e'.queue)

fetched-StepServed :
    {J : Type 0} (e : Engine J) (o : Option (Option Dispatch × TaskQueue))
    → PopsServed o
    → StepServed e (
        fetched e (elim o as (λ _. Option (Engine J × Worker)) [
          | none ↦ none
          | some r ↦ some (after_pop e r)
        ]))
unfolding fetched after_pop
fetched-StepServed e none h = (refl, inl tt)
fetched-StepServed e (some (none, q)) h = (refl, inr h)
fetched-StepServed e (some (some d, q)) h = (refl, inl tt)

module _ {J : Type 0} ⦃impl : IJobJournal J⦄ where
  start-IsLive :
      (entry : SchedulerEntry) (budget : ℕ) (o : Option JobRecord) (e : Engine J)
      → IsLive (start_found entry budget o e).1
  unfolding start_found
  start-IsLive entry budget none e = tt
  start-IsLive entry budget (some r) e =
      go (is_ready r.snapshot.state) (persist_transition_locked r JobState.running [] e.journal)
    where
      go :
          (b : Bool) (out : Bool × JobRecord × Option J)
          → IsLive (if b then started entry budget e out else (e, Worker.idle)).1
      go false out = tt
      go true (true, r, j) = unfold started in tt
      go true (false, r, j) = unfold started in tt

  yielded-IsLive :
      (id : ℕ) (message : Bytes) (e : Engine J) (out : Bool × JobRecord × Option J)
      → IsLive (yielded id message e out).1
  unfolding yielded
  yielded-IsLive id message e (true, r, j) = tt
  yielded-IsLive id message e (false, r, j) = tt

  settle-IsLive :
      (id : ℕ) (r : JobRecord) (status : SliceStatus) (message : Bytes) (e : Engine J)
      → IsLive (settle id r status message e).1
  unfolding settle ended
  settle-IsLive id r SliceStatus.completed message e = tt
  settle-IsLive id r SliceStatus.failed message e = tt
  settle-IsLive id r SliceStatus.cancelled message e = tt
  settle-IsLive id r SliceStatus.yielded message e =
      go r.stop_requested (persist_transition_locked r JobState.ready message e.journal)
    where
      reason : Bytes
      reason = if is_empty message then text "cancellation requested" else message

      go :
          (b : Bool) (out : Bool × JobRecord × Option J)
          → IsLive
              (if b then ended id r JobState.cancelled reason e else yielded id message e out).1
      go true out = unfold ended in tt
      go false out = yielded-IsLive id message e out

  finish-IsLive :
      (id : ℕ) (result : SliceResult) (o : Option JobRecord) (e : Engine J)
      → IsLive (finish_found id result o e).1
  unfolding finish_found
  finish-IsLive id result none e = tt
  finish-IsLive id result (some r) e = settle-IsLive id _ result.status result.message e

  worker_step-StepServed :
      (w : Worker) (slice : Slice) (e : Engine J)
      → StepServed e (worker_step w slice e) ⊎ (worker_step w slice e ≡ (e, w))
  unfolding worker_step
  worker_step-StepServed Worker.idle slice e =
      inl (unfold fetch in fetched-StepServed e (Queue.pop false e.queue) (pop-PopsServed e.queue))
  worker_step-StepServed (Worker.fetched entry budget) slice e = inl (
      unfold start in
      (
        (start-Keeps entry budget (find_record entry.id e.records) e).2,
        inl (start-IsLive entry budget (find_record entry.id e.records) e),
      ))
  worker_step-StepServed (Worker.running id budget) slice e = inl (
      unfold finish_slice in
      (
        (finish-Keeps id (slice_result slice) (find_record id e.records) e).2,
        inl (finish-IsLive id (slice_result slice) (find_record id e.records) e),
      ))
  worker_step-StepServed (Worker.requeues entry) slice e = inl (refl, inl tt)
  worker_step-StepServed Worker.exited slice e = inr refl

set_same : (ws : List Worker) (k : ℕ) (w : Worker) → get_elem? ws k ≡ some w → set ws k w ≡ ws
set_same [] k w h = refl
set_same (x ∷ ws) zero w h = cc
set_same (x ∷ ws) (suc k) w h = ap (λ xs. x ∷ xs) (set_same ws k w h)

place-IsServed :
    {J : Type 0} (k : ℕ) (w : Worker) (e : Engine J) (out : Engine J × Worker)
    → get_elem? e.workers k ≡ some w
    → StepServed e out
    → IsServed (place k out)
unfolding place
place-IsServed k w e (e', w') h (p, inl l) =
    inl (ap (λ ws. all_exited (set ws k w')) p ∙ all_exited-set e.workers k w w' h l)
place-IsServed k w e (e', w') h (p, inr d) = inr d

place_same-IsServed :
    {J : Type 0} (k : ℕ) (w : Worker) (e : Engine J) (out : Engine J × Worker)
    → get_elem? e.workers k ≡ some w
    → out ≡ (e, w)
    → IsServed e
    → IsServed (place k out)
unfolding place
place_same-IsServed k w e out h p (inl l) =
    inl (
      ap (λ r. all_exited (set r.0.workers k r.1)) p ∙ ap all_exited (set_same e.workers k w h) ∙ l)
place_same-IsServed k w e out h p (inr d) = inr (subst (λ r. IsDrained r.0.queue) (sym p) d)

pub work-IsServed :
    {J : Type 0} ⦃impl : IJobJournal J⦄ (k : ℕ) (slice : Slice) (o : Option Worker) (e : Engine J)
    → get_elem? e.workers k ≡ o
    → IsServed e
    → IsServed (work k slice o e)
unfolding work
work-IsServed k slice none e h s = s
work-IsServed k slice (some w) e h s = elim (worker_step-StepServed w slice e) [
  | inl p ↦ place-IsServed k w e (worker_step w slice e) h p
  | inr p ↦ place_same-IsServed k w e (worker_step w slice e) h p s
]
