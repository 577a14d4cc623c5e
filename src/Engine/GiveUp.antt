-- ===== src/Engine/GiveUp.antt =====
-- Places that are given up in src/task_engine.cpp: the push of a submission that the queue refuses,
-- and the entries that `shutdown` takes out of the queue.
use omni_sched.Base.{
  ℕ, suc, ◌+◌, ◌≤◌, Bytes, text, Bool, true, false, Bool-cases, Option, none, some, List, [], ◌∷◌,
  ◌≡◌, refl, sym, ap, ◌∙◌, subst, inl, inr, ◌==◌, ==_iff, if◌then◌else◌, arith,
}
use omni_sched.Types.{JobState, is_terminal}
use omni_sched.Scheduler.Entry.{SchedulerEntry}
use omni_sched.Journal.{IJobJournal}
use omni_sched.Engine.Job.{JobRecord, finish_locked}
use omni_sched.Engine.Registry.{Registry, find_record, store}
use omni_sched.Engine.State.{Engine, put_record}
use omni_sched.Engine.Submit.{finish_in}
use omni_sched.Engine.Control.{cancel_pending, cancel_all}
use omni_sched.Engine.Worker.{is_ready}
use omni_sched.Engine.Count.{queued, one}
use omni_sched.Engine.Accounting.{IsAt, IsAt-store, drop_place, finish_place, Stands}
use omni_sched.Engine.Placed.{IsAt-places, one-at}
use omni_sched.Engine.WorkerPlaces.{one-other}
use omni_sched.Engine.SliceFrame.{Keeps}

-- Nothing in the map, and a place: that cannot be.
give_up_none :
    (x id h n : ℕ) (records : Registry)
    → find_record id records ≡ none
    → IsAt x (find_record x records) (one x id + h) n
    → IsAt x (find_record x records) h n
give_up_none x id h n records f p = elim (Bool-cases (id == x)) [
  | inr q ↦ IsAt-places x _ (omega (arith, one-other x id q)) refl p
  | inl q ↦
      let e = (==_iff id x).0 q in
      let (a, b) =
        subst (λ o. IsAt x o (one x id + h) n) (ap (λ y. find_record y records) (sym e) ∙ f) p in
      absurd (omega (arith, one-at e))
]

terminal_not_ready : (s : JobState) → is_terminal s ≡ true → is_ready s ≡ false
unfolding is_ready
terminal_not_ready JobState.new t = refl
terminal_not_ready JobState.ready t = cc
terminal_not_ready JobState.running t = refl
terminal_not_ready JobState.completed t = refl
terminal_not_ready JobState.failed t = refl
terminal_not_ready JobState.cancelled t = refl

drop_own :
    (x h n : ℕ) (r : JobRecord)
    → is_terminal r.snapshot.state ≡ true
    → n ≤ h
    → IsAt x (some r) (suc h) n
    → IsAt x (some r) h n
drop_own x h n r t l (p, q, d) =
    (p, q, drop_place r.snapshot.state r h n l (terminal_not_ready _ t) d)

-- The place of a job that has ended.
give_up_ended :
    (x id h n : ℕ) (records : Registry) (r : JobRecord)
    → find_record id records ≡ some r
    → is_terminal r.snapshot.state ≡ true
    → n ≤ h
    → IsAt x (find_record x records) (one x id + h) n
    → IsAt x (find_record x records) h n
give_up_ended x id h n records r f t l p = elim (Bool-cases (id == x)) [
  | inr q ↦ IsAt-places x _ (omega (arith, one-other x id q)) refl p
  | inl q ↦
      let e = (==_iff id x).0 q in
      let same = ap (λ y. find_record y records) (sym e) ∙ f in
      subst (λ o. IsAt x o h n) (sym same)
        (drop_own x h n r t l (
          IsAt-places x (some r) {h = one x id + h} {h' = suc h} (omega (arith, one-at e)) refl
            (subst (λ o. IsAt x o (one x id + h) n) same p)))
]

-- The record `r` of a job is replaced by `r'`, and one of its places is given up.
give_up_some :
    (x id h n : ℕ) (records : Registry) (r r' : JobRecord)
    → find_record id records ≡ some r
    → ((k : ℕ) → IsAt x (some r) (suc k) n → n ≤ k → IsAt x (some r') k n)
    → n ≤ h
    → IsAt x (find_record x records) (one x id + h) n
    → IsAt x (find_record x (store id r' records)) h n
give_up_some x id h n records r r' f own l p =
    IsAt-store x id records r r' h n f
      (λ e.
        own h
          (IsAt-places x (some r) {h = one x id + h} {h' = suc h} (omega (arith, one-at e)) refl (
            subst (λ o. IsAt x o (one x id + h) n) (ap (λ y. find_record y records) (sym e) ∙ f) p))
          l)
      (λ q. IsAt-places x _ (omega (arith, one-other x id q)) refl p)

-- A request to stop moves nothing.
pub stopped :
    (r : JobRecord) (stop : Bool) (s : JobState) (h n : ℕ)
    → Stands s r h n
    → Stands s (record r { stop_requested = stop }) h n
stopped r stop JobState.new h n d = d
stopped r stop JobState.ready h n d = d
stopped r stop JobState.running h n d = d
stopped r stop JobState.completed h n d = d
stopped r stop JobState.failed h n d = d
stopped r stop JobState.cancelled h n d = d

module _ {J : Type 0} ⦃impl : IJobJournal J⦄ where
  finish_own :
      (x n : ℕ) (r : JobRecord) (stop : Bool) (state : JobState) (message : Bytes)
      (journal : Option J)
      → is_terminal state ≡ true
      → (k : ℕ) → IsAt x (some r) (suc k) n
      → n ≤ k
      → IsAt x
          (some (finish_locked (record r { stop_requested = stop }) state message journal).0)
          k
          n
  finish_own x n r stop state message journal t k (p, q, d) l =
      finish_place r.snapshot.state x (record r { stop_requested = stop }) k n state message journal
        t l refl p q (stopped r stop r.snapshot.state (suc k) n d)

  pub finish_in-IsAt :
      (x id h n : ℕ) (state : JobState) (message : Bytes) (o : Option JobRecord) (e : Engine J)
      → is_terminal state ≡ true
      → find_record id e.records ≡ o
      → n ≤ h
      → IsAt x (find_record x e.records) (one x id + h) n
      → IsAt x (find_record x (finish_in id state message o e).records) h n
  unfolding finish_in put_record
  finish_in-IsAt x id h n state message none e t f l p = give_up_none x id h n e.records f p
  finish_in-IsAt x id h n state message (some r) e t f l p =
      give_up_some x id h n e.records r _ f
        (finish_own x n r r.stop_requested state message e.journal t) l p

  pub finish_in-Keeps :
      (id : ℕ) (state : JobState) (message : Bytes) (o : Option JobRecord) (e : Engine J)
      → Keeps e (finish_in id state message o e)
  unfolding finish_in put_record
  finish_in-Keeps id state message none e = (refl, refl, refl)
  finish_in-Keeps id state message (some r) e = (refl, refl, refl)

  cancel_pending-IsAt :
      (x id h n : ℕ) (o : Option JobRecord) (e : Engine J)
      → find_record id e.records ≡ o
      → n ≤ h
      → IsAt x (find_record x e.records) (one x id + h) n
      → IsAt x (find_record x (cancel_pending id o e).records) h n
  unfolding cancel_pending
  cancel_pending-IsAt x id h n none e f l p = give_up_none x id h n e.records f p
  cancel_pending-IsAt x id h n (some r) e f l p = elim (Bool-cases (is_terminal r.snapshot.state)) [
    | inl t ↦ rw t (give_up_ended x id h n e.records r f t l p)
    | inr t ↦ rw t (
        unfold put_record in
        give_up_some x id h n e.records r _ f
          (finish_own x n r true JobState.cancelled _ e.journal refl) l p)
  ]

  pending-Keeps : (id : ℕ) (o : Option JobRecord) (e : Engine J) → Keeps e (cancel_pending id o e)
  unfolding cancel_pending
  pending-Keeps id none e = (refl, refl, refl)
  pending-Keeps id (some r) e = either (is_terminal r.snapshot.state)
    where
      either :
          (b : Bool)
          → Keeps e (
              if b
              then e
              else put_record id e (
                  finish_locked
                    (record r { stop_requested = true })
                    JobState.cancelled
                    (text "cancelled during engine shutdown")
                    e.journal))
      either true = (refl, refl, refl)
      either false = unfold put_record in (refl, refl, refl)

  pub cancel_all-IsAt :
      (x h n : ℕ) (entries : List SchedulerEntry) (e : Engine J)
      → n ≤ h
      → IsAt x (find_record x e.records) (queued x entries + h) n
      → IsAt x (find_record x (cancel_all entries e).records) h n
  unfolding cancel_all
  cancel_all-IsAt x h n [] e l p =
      IsAt-places x (find_record x e.records) {h = queued x [] + h} {h' = h}
        (unfold queued in omega arith) refl p
  cancel_all-IsAt x h n (entry ∷ entries) e l p = cancel_all-IsAt x h n entries _ l (
      cancel_pending-IsAt x entry.id (queued x entries + h) n _ e refl (omega (arith, l)) (
        IsAt-places x (find_record x e.records) {h = queued x (entry ∷ entries) + h}
          {h' = one x entry.id + (queued x entries + h)} (unfold queued in omega arith) refl p))

  pub cancel_all-Keeps :
      (entries : List SchedulerEntry) (e : Engine J) → Keeps e (cancel_all entries e)
  unfolding cancel_all
  cancel_all-Keeps [] e = (refl, refl, refl)
  cancel_all-Keeps (entry ∷ entries) e =
      let (p, q, r) = pending-Keeps entry.id (find_record entry.id e.records) e in
      let (p', q', r') =
        cancel_all-Keeps entries (cancel_pending entry.id (find_record entry.id e.records) e) in
      (p' ∙ p, q' ∙ q, r' ∙ r)
