-- ===== src/Engine/ClientPlaces.antt =====
-- `submit` behind the map, `cancel` and `shutdown` of src/task_engine.cpp, on the places of every job.
use omni_sched.Base.{
  ℕ, ◌+◌, ◌≤◌, text, Bool, true, false, Bool-cases, Option, none, some, List, [], ◌∷◌, ◌≡◌, refl,
  sym, ap, ◌∙◌, subst, inl, inr, if◌then◌else◌, arith,
}
use omni_sched.Types.{JobState, ShutdownMode, is_terminal}
use omni_sched.Scheduler.{push}
use omni_sched.Scheduler.Entry.{SchedulerEntry}
use omni_sched.Scheduler.Contract.{contents}
use omni_sched.Journal.{IJobJournal}
use omni_sched.Engine.Job.{JobRecord, finish_locked}
use omni_sched.Engine.Registry.{find_record}
use omni_sched.Engine.Queue.{TaskQueue, push_external, close_and_drain_pending}
use omni_sched.Engine.State.{Engine, Worker, Push, put_record}
use omni_sched.Engine.Submit.{take_pending, finish_in, push_pending, submit_end}
use omni_sched.Engine.Control.{
  is_waiting, cancel_live, cancel_found, cancel, shutdown_begin, cancels_pending, cancel_all,
}
use omni_sched.Engine.Count.{
  queued, waiting, carries, runs, one, total, total-runs-le, queued-push, queued-drain,
}
use omni_sched.Engine.Outcome.{finish-Finishes}
use omni_sched.Engine.Accounting.{IsAt, IsAt-store, Stands, Ends-IsAt}
use omni_sched.Engine.Placed.{IsAt-places, stands_in}
use omni_sched.Engine.WorkerPlaces.{outside}
use omni_sched.Engine.StepPlaces.{Accounted}
use omni_sched.Engine.SliceFrame.{Keeps}
use omni_sched.Engine.GiveUp.{
  finish_in-IsAt, finish_in-Keeps, cancel_all-IsAt, cancel_all-Keeps, stopped,
}
use omni_sched.Engine.QueuePlaces.{Taken, take_pending-Taken}

-- Only records were changed.
pub keeping :
    {J : Type 0} (x : ℕ) (e e' : Engine J)
    → Keeps e e'
    → IsAt x
        (find_record x e'.records)
        (outside x e + total (carries x) e.workers)
        (total (runs x) e.workers)
    → Accounted x e'
keeping x e e' (p, q, r) d =
    IsAt-places x _
      (ap (λ k. queued x (contents k.scheduler) + waiting x e.pending + total (carries x) e.workers)
          (sym p)
        ∙ ap
            (λ k.
              queued x (contents e'.queue.scheduler) + waiting x k + total (carries x) e.workers)
            (sym q)
        ∙ ap (λ k. outside x e' + total (carries x) k) (sym r))
      (ap (λ k. total (runs x) k) (sym r)) d

runs_inside :
    {J : Type 0} (x : ℕ) (e : Engine J)
    → total (runs x) e.workers ≤ outside x e + total (carries x) e.workers
runs_inside x e = omega (arith, total-runs-le x e.workers)

-- What `close_and_drain_pending` hands over, it takes from the queue.
pub close-queued :
    (x : ℕ) (b : Bool) (q : TaskQueue)
    → queued x (close_and_drain_pending b q).0
        + queued x (contents (close_and_drain_pending b q).1.scheduler)
      ≡ queued x (contents q.scheduler)
unfolding close_and_drain_pending queued
close-queued x false q = omega arith
close-queued x true q = let (a, b) = queued-drain x q.scheduler in rw b (omega (arith, a))

module _ {J : Type 0} ⦃impl : IJobJournal J⦄ where
  -- `push_external` on the test of `closed_`, once the call is no longer pending.
  push_pending-Accounted :
      (x : ℕ) (p : Push) (e : Engine J)
      → IsAt x
          (find_record x e.records)
          (one x p.entry.id + (outside x e + total (carries x) e.workers))
          (total (runs x) e.workers)
      → Accounted x (push_pending p e)
  unfolding push_pending push_external
  push_pending-Accounted x p e h = go e.queue.closed
    where
      refused : Engine J
      refused = finish_in p.entry.id JobState.cancelled p.raced (find_record p.entry.id e.records) e

      go :
          (closed : Bool)
          → Accounted x (
              let (queue, pushed) : TaskQueue × Bool =
                if closed
                then (e.queue, false)
                else (record (e.queue) { scheduler = push e.queue.scheduler p.entry }, true) in
              if pushed then record e { queue = queue } else refused)
      go false = IsAt-places x _ (omega (arith, queued-push x e.queue.scheduler p.entry)) refl h
      go true = keeping x e refused (finish_in-Keeps p.entry.id JobState.cancelled p.raced _ e) (
          finish_in-IsAt x p.entry.id _ _ JobState.cancelled p.raced _ e refl refl (runs_inside x e)
            h)

  pub submit_end-Accounted :
      (x id : ℕ) (e : Engine J) → Accounted x e → Accounted x (submit_end id e)
  unfolding submit_end
  submit_end-Accounted x id e p = go (take_pending id e.pending) (take_pending-Taken x id e.pending)
    where
      go :
          (o : Option (Push × List Push))
          → Taken x e.pending o
          → Accounted x
              (elim o [ none ↦ e | some (q, qs) ↦ push_pending q (record e { pending = qs }) ])
      go none h = p
      go (some (q, qs)) h =
          push_pending-Accounted x q (record e { pending = qs })
            (IsAt-places x (find_record x e.records) (omega (arith, h)) refl p)

  cancelled_own :
      (x h n : ℕ) (r : JobRecord) (s : JobState) (journal : Option J)
      → r.snapshot.id ≡ x
      → r.entry.id ≡ x
      → Stands s r h n
      → r.snapshot.state ≡ s
      → IsAt x
          (some
            (if is_waiting s
              then finish_locked
                  (record r { stop_requested = true })
                  JobState.cancelled
                  (text "cancelled before execution")
                  journal
              else (record r { stop_requested = true }, journal)).0)
          h
          n
  unfolding is_waiting
  cancelled_own x h n r JobState.new journal p q d e = absurd d
  cancelled_own x h n r JobState.ready journal p q (a, b, o) e =
      Ends-IsAt x (record r { stop_requested = true }) _ h n q p
        (finish-Finishes (record r { stop_requested = true }) JobState.cancelled _ journal o refl).0
        (omega arith) b
  cancelled_own x h n r JobState.running journal p q d e =
      (q, p, stands_in (sym e) _ _ _ (stopped r true JobState.running h n d))
  cancelled_own x h n r JobState.completed journal p q d e =
      (q, p, stands_in (sym e) _ _ _ (stopped r true JobState.completed h n d))
  cancelled_own x h n r JobState.failed journal p q d e =
      (q, p, stands_in (sym e) _ _ _ (stopped r true JobState.failed h n d))
  cancelled_own x h n r JobState.cancelled journal p q d e =
      (q, p, stands_in (sym e) _ _ _ (stopped r true JobState.cancelled h n d))

  cancel_live-Accounted :
      (x id : ℕ) (r : JobRecord) (e : Engine J)
      → find_record id e.records ≡ some r
      → Accounted x e
      → Accounted x (cancel_live id r e)
  unfolding cancel_live put_record
  cancel_live-Accounted x id r e f p =
      IsAt-store x id e.records r _ (outside x e + total (carries x) e.workers)
        (total (runs x) e.workers) f
        (λ q.
          let (a, b, d) = at_id q in cancelled_own x _ _ r r.snapshot.state e.journal b a d refl)
        (λ q. p)
    where
      at_id :
          id ≡ x
          → IsAt x (some r) (outside x e + total (carries x) e.workers) (total (runs x) e.workers)
      at_id q =
          subst
            (λ o. IsAt x o (outside x e + total (carries x) e.workers) (total (runs x) e.workers))
            (ap (λ y. find_record y e.records) (sym q) ∙ f) p

  cancel_found-Accounted :
      (x id : ℕ) (o : Option JobRecord) (e : Engine J)
      → find_record id e.records ≡ o
      → Accounted x e
      → Accounted x (cancel_found id o e).0
  unfolding cancel_found
  cancel_found-Accounted x id none e f p = p
  cancel_found-Accounted x id (some r) e f p = elim (Bool-cases (is_terminal r.snapshot.state)) [
    | inl q ↦ rw q p
    | inr q ↦ rw q (cancel_live-Accounted x id r e f p)
  ]

  pub cancel-Accounted : (x id : ℕ) (e : Engine J) → Accounted x e → Accounted x (cancel id e).0
  unfolding cancel
  cancel-Accounted x id e p = cancel_found-Accounted x id (find_record id e.records) e refl p

  pub cancel_all-Accounted :
      (x : ℕ) (entries : List SchedulerEntry) (e : Engine J)
      → IsAt x
          (find_record x e.records)
          (queued x entries + (outside x e + total (carries x) e.workers))
          (total (runs x) e.workers)
      → Accounted x (cancel_all entries e)
  cancel_all-Accounted x entries e p =
      keeping x e (cancel_all entries e) (cancel_all-Keeps entries e)
        (cancel_all-IsAt x _ _ entries e (runs_inside x e) p)

  shut-Accounted :
      (x : ℕ) (b : Bool) (e : Engine J)
      → Accounted x e
      → Accounted x (
          cancel_all
            (close_and_drain_pending b e.queue).0
            (record e { accepting = false; queue = (close_and_drain_pending b e.queue).1 }))
  shut-Accounted x b e p =
      cancel_all-Accounted x (close_and_drain_pending b e.queue).0
        (record e { accepting = false; queue = (close_and_drain_pending b e.queue).1 })
        (IsAt-places x (find_record x e.records) {h = outside x e + total (carries x) e.workers}
          {h' = queued x (close_and_drain_pending b e.queue).0
            + (queued x (contents (close_and_drain_pending b e.queue).1.scheduler)
                + waiting x e.pending
                + total (carries x) e.workers)}
          (omega (arith, close-queued x b e.queue)) refl p)

  pub shutdown-Accounted :
      (x : ℕ) (mode : ShutdownMode) (e : Engine J)
      → Accounted x e
      → Accounted x (shutdown_begin mode e)
  unfolding shutdown_begin
  shutdown-Accounted x mode e p = go e.workers
    where
      go :
          (ws : List Worker)
          → Accounted x (elim ws [
            | [] ↦ e
            | worker ∷ workers ↦
                (let (entries, queue) = close_and_drain_pending (cancels_pending mode) e.queue in
                  cancel_all entries (record e { accepting = false; queue = queue }))
          ])
      go [] = p
      go (w ∷ ws) = shut-Accounted x (cancels_pending mode) e p
