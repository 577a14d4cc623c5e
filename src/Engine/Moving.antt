-- ===== src/Engine/Moving.antt =====
-- The state machine of a job in src/task_engine.cpp: what each step makes of each record.
use omni_sched.Base.{
  ℕ, Bytes, text, Bool, true, false, Bool-cases, Option, none, some, List, [], ◌∷◌, ◌≡◌, refl,
  subst, inl, inr, if◌then◌else◌,
}
use omni_sched.Types.{JobState, ShutdownMode, is_terminal}
use omni_sched.Scheduler.Entry.{SchedulerEntry}
use omni_sched.Journal.{IJobJournal}
use omni_sched.Engine.Job.{JobRecord, finish_locked}
use omni_sched.Engine.Registry.{find_record}
use omni_sched.Engine.Queue.{push_external, close_and_drain_pending}
use omni_sched.Engine.State.{Engine, Worker, Push, put_record}
use omni_sched.Engine.Submit.{take_pending, finish_in, push_pending, submit_end}
use omni_sched.Engine.Control.{
  is_waiting, cancel_live, cancel_found, cancel, shutdown_begin, cancels_pending, cancel_pending,
  cancel_all,
}
use omni_sched.Engine.Moves.{
  Changes, Halts, Lifts, IsSane, IsSaneAt, Halts-IsSane, Lifts-trans, Lifts-Changes, Changes-same,
  Halts-same, store-at, finish-Halts, finish_stopped,
}

-- What the map holds of the job `x` before and after.
abbrev pub Moving : {J : Type 0} → ℕ → Engine J → Engine J → Type 0
Moving x e e' = Lifts Changes (find_record x e.records) (find_record x e'.records)

abbrev Halting : {J : Type 0} → ℕ → Engine J → Engine J → Type 0
Halting x e e' = Lifts Halts (find_record x e.records) (find_record x e'.records)

abbrev pub IsSound : {J : Type 0} → Engine J → Type 0
IsSound e = (x : ℕ) → IsSaneAt (find_record x e.records)

abbrev pub same : {J : Type 0} (x : ℕ) (e : Engine J) → Moving x e e
same x e = Changes-same (find_record x e.records)

pub put-Moving :
    {J : Type 0} (x id : ℕ) (e : Engine J) (r : JobRecord) (out : JobRecord × Option J)
    → find_record id e.records ≡ some r
    → Changes r out.0
    → Moving x e (put_record id e out)
unfolding put_record
put-Moving x id e r (r', j) f c =
    store-at (λ o. Lifts Changes (find_record x e.records) o) x id e.records r r' f (λ g. rw g c)
      (same x e)

put-Halting :
    {J : Type 0} (x id : ℕ) (e : Engine J) (r : JobRecord) (out : JobRecord × Option J)
    → find_record id e.records ≡ some r
    → Halts r out.0
    → Halting x e (put_record id e out)
unfolding put_record
put-Halting x id e r (r', j) f c =
    store-at (λ o. Lifts Halts (find_record x e.records) o) x id e.records r r' f (λ g. rw g c)
      (Halts-same (find_record x e.records))

put-IsSound :
    {J : Type 0} (id : ℕ) (e : Engine J) (r : JobRecord) (out : JobRecord × Option J)
    → find_record id e.records ≡ some r
    → Halts r out.0
    → IsSound e
    → IsSound (put_record id e out)
unfolding put_record
put-IsSound id e r (r', j) f c h x =
    store-at (λ o. IsSaneAt o) x id e.records r r' f
      (λ g. Halts-IsSane r r' c (subst (λ o. IsSaneAt o) f (h id))) (h x)

pub first-Moving :
    {J : Type 0} {A : Type 0} (x : ℕ) (e : Engine J) (b : Bool) (out out' : Engine J × A)
    → (b ≡ true → Moving x e out.0)
    → (b ≡ false → Moving x e out'.0)
    → Moving x e (if b then out else out').0
first-Moving x e true out out' p q = p refl
first-Moving x e false out out' p q = q refl

-- A job that neither has ended nor waits is run.
run_state : (s : JobState) → is_terminal s ≡ false → is_waiting s ≡ false → s ≡ JobState.running
unfolding is_waiting
run_state JobState.new t w = absurd (cc)
run_state JobState.ready t w = absurd (cc)
run_state JobState.running t w = refl
run_state JobState.completed t w = absurd (cc)
run_state JobState.failed t w = absurd (cc)
run_state JobState.cancelled t w = absurd (cc)

module _ {J : Type 0} ⦃impl : IJobJournal J⦄ where
  finish_in-Moving :
      (x id : ℕ) (message : Bytes) (o : Option JobRecord) (e : Engine J)
      → find_record id e.records ≡ o
      → IsSaneAt o
      → Moving x e (finish_in id JobState.cancelled message o e)
  unfolding finish_in
  finish_in-Moving x id message none e f h = same x e
  finish_in-Moving x id message (some r) e f h =
      Lifts-Changes _ _ (put-Halting x id e r _ f (finish-Halts r message e.journal h))

  push_pending-Moving :
      (x : ℕ) (p : Push) (e : Engine J) → IsSound e → Moving x e (push_pending p e)
  unfolding push_pending
  push_pending-Moving x p e h = elim (Bool-cases (push_external e.queue p.entry).1) [
    | inl q ↦ rw q (same x e)
    | inr q ↦ rw q (finish_in-Moving x p.entry.id p.raced _ e refl (h p.entry.id))
  ]

  pub submit_end-Moving : (x id : ℕ) (e : Engine J) → IsSound e → Moving x e (submit_end id e)
  unfolding submit_end
  submit_end-Moving x id e h = go (take_pending id e.pending)
    where
      go :
          (o : Option (Push × List Push))
          → Moving x e
              (elim o [ none ↦ e | some (q, qs) ↦ push_pending q (record e { pending = qs }) ])
      go none = same x e
      go (some (q, qs)) = push_pending-Moving x q (record e { pending = qs }) h

  cancel_live-Moving :
      (x id : ℕ) (r : JobRecord) (e : Engine J)
      → find_record id e.records ≡ some r
      → IsSane r
      → is_terminal r.snapshot.state ≡ false
      → Moving x e (cancel_live id r e)
  unfolding cancel_live
  cancel_live-Moving x id r e f h t = elim (Bool-cases (is_waiting r.snapshot.state)) [
    | inl q ↦ rw q (Lifts-Changes _ _ (put-Halting x id e r _ f (finish_stopped r _ e.journal t h)))
    | inr q ↦ rw q (put-Moving x id e r _ f (inr (inl (run_state r.snapshot.state t q, refl))))
  ]

  cancel_found-Moving :
      (x id : ℕ) (o : Option JobRecord) (e : Engine J)
      → find_record id e.records ≡ o
      → IsSaneAt o
      → Moving x e (cancel_found id o e).0
  unfolding cancel_found
  cancel_found-Moving x id none e f h = same x e
  cancel_found-Moving x id (some r) e f h =
      first-Moving x e (is_terminal r.snapshot.state) _ _ (λ t. same x e)
        (λ t. cancel_live-Moving x id r e f h t)

  pub cancel-Moving : (x id : ℕ) (e : Engine J) → IsSound e → Moving x e (cancel id e).0
  unfolding cancel
  cancel-Moving x id e h = cancel_found-Moving x id (find_record id e.records) e refl (h id)

  cancel_pending-Halting :
      (id : ℕ) (o : Option JobRecord) (e : Engine J)
      → find_record id e.records ≡ o
      → IsSound e
      → IsSound (cancel_pending id o e) × ((x : ℕ) → Halting x e (cancel_pending id o e))
  unfolding cancel_pending
  cancel_pending-Halting id none e f h = (h, λ x. Halts-same (find_record x e.records))
  cancel_pending-Halting id (some r) e f h = elim (Bool-cases (is_terminal r.snapshot.state)) [
    | inl t ↦ rw t (h, λ x. Halts-same (find_record x e.records))
    | inr t ↦ rw t (put-IsSound id e r _ f (halted t) h, λ x. put-Halting x id e r _ f (halted t))
  ]
    where
      halted :
          is_terminal r.snapshot.state ≡ false
          → Halts r
              (finish_locked
                (record r { stop_requested = true })
                JobState.cancelled
                (text "cancelled during engine shutdown")
                e.journal).0
      halted t = finish_stopped r _ e.journal t (subst (λ o. IsSaneAt o) f (h id))

  pub cancel_all-Halting :
      (x : ℕ) (entries : List SchedulerEntry) (e : Engine J)
      → IsSound e
      → Halting x e (cancel_all entries e)
  unfolding cancel_all
  cancel_all-Halting x [] e h = Halts-same (find_record x e.records)
  cancel_all-Halting x (entry ∷ entries) e h =
      let next = cancel_pending entry.id (find_record entry.id e.records) e in
      let (h', p) = cancel_pending-Halting entry.id (find_record entry.id e.records) e refl h in
      Lifts-trans (find_record x e.records) (find_record x next.records) _ (p x)
        (cancel_all-Halting x entries next h')

  pub shutdown-Moving :
      (x : ℕ) (mode : ShutdownMode) (e : Engine J) → IsSound e → Moving x e (shutdown_begin mode e)
  unfolding shutdown_begin
  shutdown-Moving x mode e h = go e.workers
    where
      go :
          (ws : List Worker)
          → Moving x e (elim ws [
            | [] ↦ e
            | worker ∷ workers ↦
                (let (entries, queue) = close_and_drain_pending (cancels_pending mode) e.queue in
                  cancel_all entries (record e { accepting = false; queue = queue }))
          ])
      go [] = same x e
      go (w ∷ ws) = Lifts-Changes _ _ (
          cancel_all-Halting x _
            (record e {
              accepting = false;
              queue = (close_and_drain_pending (cancels_pending mode) e.queue).1;
            })
            h)
