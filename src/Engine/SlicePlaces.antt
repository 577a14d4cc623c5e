-- ===== src/Engine/SlicePlaces.antt =====
-- `start` and `finish_slice` of `worker_loop` in src/task_engine.cpp: the worker's own job.
use omni_sched.Base.{
  ℕ, suc, ◌≤◌, Bytes, Bool, true, false, Bool-cases, Option, none, some, ◌≡◌, refl, sym, ap, ◌∙◌,
  subst, inl, inr, arith,
}
use omni_sched.Types.{JobState, SliceStatus, SliceResult, is_terminal}
use omni_sched.Scheduler.Entry.{SchedulerEntry}
use omni_sched.Journal.{IJobJournal}
use omni_sched.Engine.Job.{JobRecord, finish_locked}
use omni_sched.Engine.Registry.{find_record}
use omni_sched.Engine.State.{Engine}
use omni_sched.Engine.Worker.{
  is_ready, start_found, started, consume, yielded, ended, settle, finish_found,
}
use omni_sched.Engine.Outcome.{IsOpen, finish-Finishes, Persists, persist-Persists}
use omni_sched.Engine.Accounting.{IsAt, Stands, Ends-IsAt, drop_place}
use omni_sched.Engine.Placed.{Placed, IsAt-places, stands_in, put-own, one_self, one-at, either}

is_ready_sound : (s : JobState) → is_ready s ≡ true → s ≡ JobState.ready
unfolding is_ready
is_ready_sound JobState.new h = cc
is_ready_sound JobState.ready h = refl
is_ready_sound JobState.running h = cc
is_ready_sound JobState.completed h = cc
is_ready_sound JobState.failed h = cc
is_ready_sound JobState.cancelled h = cc

-- The record of a job that a worker runs, with the places that the others have.
abbrev IsRunning : ℕ → ℕ → ℕ → JobRecord → Type 0
IsRunning id h n r = (r.entry.id ≡ id) × (r.snapshot.id ≡ id) × (h ≡ 0) × (n ≡ 0) × IsOpen r

pub running_of :
    (s : JobState) (r : JobRecord) (h n : ℕ)
    → Stands s r (suc h) (suc n)
    → (h ≡ 0) × (n ≡ 0) × IsOpen r
running_of JobState.new r h n d = absurd d
running_of JobState.ready r h n (a, b, o) = absurd (omega arith)
running_of JobState.running r h n (a, b, o) = (omega arith, omega arith, o)
running_of JobState.completed r h n (a, b, o) = absurd (omega arith)
running_of JobState.failed r h n (a, b, o) = absurd (omega arith)
running_of JobState.cancelled r h n (a, b, o) = absurd (omega arith)

module _ {J : Type 0} ⦃impl : IJobJournal J⦄ where
  started-Own :
      (entry : SchedulerEntry) (budget h n : ℕ) (r : JobRecord) (e : Engine J)
      (out : Bool × JobRecord × Option J)
      → find_record entry.id e.records ≡ some r
      → r.snapshot.state ≡ JobState.ready
      → IsAt entry.id (some r) (suc h) n
      → Persists r out
      → Placed entry.id h n (started entry budget e out)
  unfolding started
  started-Own entry budget h n r e (true, r', j) f s (p, p', d) (inl (_, q)) =
      let (a, b, o) = stands_in s r _ _ d in
      let (c, c') = q-open q o in
      rw (put-own entry.id e r _ j f) (
        ap (λ (k : JobRecord). k.entry.id) q ∙ p,
        ap (λ (k : JobRecord). k.snapshot.id) q ∙ p',
        (omega (arith, one_self entry.id), omega (arith, one_self entry.id), (c, c')),
      )
    where
      q-open : r' ≡ r → IsOpen r → IsOpen r'
      q-open q o = subst IsOpen (sym q) o
  started-Own entry budget h n r e (true, r', j) f s p (inr (q, _, _)) = absurd (cc)
  started-Own entry budget h n r e (false, r', j) f s p (inl (q, _)) = absurd (cc)
  started-Own entry budget h n r e (false, r', j) f s (p, p', d) (inr (_, q, _)) =
      let (a, b, o) = stands_in s r _ _ d in
      rw (put-own entry.id e r r' j f)
        (Ends-IsAt entry.id r r' _ _ p p' q (omega arith) (omega arith))

  pub start-Own :
      (entry : SchedulerEntry) (budget h n : ℕ) (o : Option JobRecord) (e : Engine J)
      → n ≤ h
      → find_record entry.id e.records ≡ o
      → IsAt entry.id o (suc h) n
      → Placed entry.id h n (start_found entry budget o e)
  unfolding start_found
  start-Own entry budget h n none e l f p = absurd (omega (arith, p.0))
  start-Own entry budget h n (some r) e l f (p, p', d) =
      elim (Bool-cases (is_ready r.snapshot.state)) [
        | inl q ↦ rw q (
            started-Own entry budget h n r e _ f (is_ready_sound _ q) (p, p', d)
              (persist-Persists r _ _ _ (stands_in (is_ready_sound _ q) r _ _ d).2))
        | inr q ↦
            rw (q, f)
              (IsAt-places entry.id (some r) (omega arith) (omega arith)
                (p, p', drop_place _ r h n l q d))
      ]

  ended-Own :
      (id h n : ℕ) (r r0 : JobRecord) (state : JobState) (message : Bytes) (e : Engine J)
      → is_terminal state ≡ true
      → find_record id e.records ≡ some r0
      → IsRunning id h n r
      → Placed id h n (ended id r state message e)
  unfolding ended
  ended-Own id h n r r0 state message e t f (p, p', a, b, o) =
      rw
        (put-own id e r0 (finish_locked r state message e.journal).0
          (finish_locked r state message e.journal).1 f)
        (Ends-IsAt id r _ _ _ p p' (finish-Finishes r state message e.journal o t).0 (omega arith)
          (omega arith))

  yielded-Own :
      (id h n : ℕ) (r r0 : JobRecord) (message : Bytes) (e : Engine J)
      (out : Bool × JobRecord × Option J)
      → find_record id e.records ≡ some r0
      → IsRunning id h n r
      → Persists r out
      → Placed id h n (yielded id message e out)
  unfolding yielded
  yielded-Own id h n r r0 message e (true, r', j) f (p, p', a, b, o) (inl (_, q)) =
      rw (put-own id e r0 _ j f, q) (p, p', (omega (arith, one-at p), omega arith, o))
  yielded-Own id h n r r0 message e (true, r', j) f s (inr (q, _, _)) = absurd (cc)
  yielded-Own id h n r r0 message e (false, r', j) f s (inl (q, _)) = absurd (cc)
  yielded-Own id h n r r0 message e (false, r', j) f (p, p', a, b, o) (inr (_, q, _)) =
      rw (put-own id e r0 r' j f) (Ends-IsAt id r r' _ _ p p' q (omega arith) (omega arith))

  settle-Own :
      (id h n : ℕ) (r r0 : JobRecord) (status : SliceStatus) (message : Bytes) (e : Engine J)
      → find_record id e.records ≡ some r0
      → IsRunning id h n r
      → Placed id h n (settle id r status message e)
  unfolding settle
  settle-Own id h n r r0 SliceStatus.completed message e f s =
      ended-Own id h n r r0 _ message e refl f s
  settle-Own id h n r r0 SliceStatus.failed message e f s =
      ended-Own id h n r r0 _ message e refl f s
  settle-Own id h n r r0 SliceStatus.cancelled message e f s =
      ended-Own id h n r r0 _ message e refl f s
  settle-Own id h n r r0 SliceStatus.yielded message e f s =
      either id h n r.stop_requested _ _ (ended-Own id h n r r0 _ _ e refl f s) (
        yielded-Own id h n r r0 message e _ f s
          (persist-Persists r JobState.ready message e.journal s.4))

  pub finish-Own :
      (id h n : ℕ) (result : SliceResult) (o : Option JobRecord) (e : Engine J)
      → find_record id e.records ≡ o
      → IsAt id o (suc h) (suc n)
      → Placed id h n (finish_found id result o e)
  unfolding finish_found
  finish-Own id h n result none e f p = absurd (omega (arith, p.0))
  finish-Own id h n result (some r) e f (p, p', d) =
      settle-Own id h n (consume r result.work_units_consumed) r result.status result.message e f
        (unfold consume in let (a, b, o) = running_of r.snapshot.state r h n d in (p, p', a, b, o))
