-- ===== src/Engine/Accounting.antt =====
-- Where a job of src/task_engine.cpp can stand: the places that its state allows.
use omni_sched.Base.{
  ℕ, suc, ◌≤◌, Bytes, true, false, Bool-cases, Option, none, some, ◌≡◌, ap, ◌∙◌, inl, inr, ◌==◌,
  ==_iff, arith,
}
use omni_sched.Types.{JobState, is_terminal}
use omni_sched.Scheduler.Entry.{SchedulerEntry}
use omni_sched.Journal.{IJobJournal}
use omni_sched.Engine.Job.{JobRecord, finish_locked}
use omni_sched.Engine.Registry.{Registry, find_record, store, find_record-store}
use omni_sched.Engine.Worker.{is_ready}
use omni_sched.Engine.Outcome.{IsOpen, IsEnded, Ends, finish-Finishes, finish-ended}

-- A record in the given state, with so many places, of which so many are running workers.
abbrev pub Stands : JobState → JobRecord → ℕ → ℕ → Type 0
Stands JobState.new r h n = ⊥
Stands JobState.ready r h n = (h ≡ 1) × (n ≡ 0) × IsOpen r
Stands JobState.running r h n = (h ≡ 1) × (n ≡ 1) × IsOpen r
Stands JobState.completed r h n = (h ≤ 1) × (n ≡ 0) × IsEnded r
Stands JobState.failed r h n = (h ≤ 1) × (n ≡ 0) × IsEnded r
Stands JobState.cancelled r h n = (h ≤ 1) × (n ≡ 0) × IsEnded r

-- The job `x`, of which the map holds `o`. What is not in the map has no place.
abbrev pub IsAt : ℕ → Option JobRecord → ℕ → ℕ → Type 0
IsAt x none h n = (h ≡ 0) × (n ≡ 0)
IsAt x (some r) h n = (r.entry.id ≡ x) × (r.snapshot.id ≡ x) × Stands r.snapshot.state r h n

Stands_ended :
    (s : JobState) (r : JobRecord) (h n : ℕ)
    → is_terminal s ≡ true
    → IsEnded r
    → h ≤ 1
    → n ≡ 0
    → Stands s r h n
Stands_ended JobState.new r h n t e p q = cc
Stands_ended JobState.ready r h n t e p q = cc
Stands_ended JobState.running r h n t e p q = cc
Stands_ended JobState.completed r h n t e p q = (p, q, e)
Stands_ended JobState.failed r h n t e p q = (p, q, e)
Stands_ended JobState.cancelled r h n t e p q = (p, q, e)

-- A job that goes on has ended.
pub Ends-IsAt :
    (x : ℕ) (r r' : JobRecord) (h n : ℕ)
    → r.entry.id ≡ x
    → r.snapshot.id ≡ x
    → Ends r r'
    → h ≤ 1
    → n ≡ 0
    → IsAt x (some r') h n
Ends-IsAt x r r' h n p q (e, f, g, _) a b =
    (ap (λ (s : SchedulerEntry). s.id) f ∙ p, g ∙ q, Stands_ended _ r' h n e.0 e a b)

-- One place of a job that is not ready is given up.
pub drop_place :
    (s : JobState) (r : JobRecord) (h n : ℕ)
    → n ≤ h
    → is_ready s ≡ false
    → Stands s r (suc h) n
    → Stands s r h n
unfolding is_ready
drop_place JobState.new r h n l e p = p
drop_place JobState.ready r h n l e p = cc
drop_place JobState.running r h n l e (p, q, o) = absurd (omega arith)
drop_place JobState.completed r h n l e (p, q, o) = (omega arith, q, o)
drop_place JobState.failed r h n l e (p, q, o) = (omega arith, q, o)
drop_place JobState.cancelled r h n l e (p, q, o) = (omega arith, q, o)

module _ {J : Type 0} ⦃impl : IJobJournal J⦄ where
  ended_place :
      (x : ℕ) (r : JobRecord) (h n : ℕ) (state : JobState) (message : Bytes) (journal : Option J)
      → r.entry.id ≡ x
      → r.snapshot.id ≡ x
      → h ≤ 1
      → n ≡ 0
      → IsEnded r
      → IsAt x (some (finish_locked r state message journal).0) h n
  ended_place x r h n state message journal p q l b o =
      rw (finish-ended r state message journal o.1) (p, q, Stands_ended _ r h n o.0 o l b)

  -- The last place of a job is given up and the job is finished; one that has ended stays as it is.
  pub finish_place :
      (s : JobState) (x : ℕ) (r : JobRecord) (h n : ℕ) (state : JobState) (message : Bytes)
      (journal : Option J)
      → is_terminal state ≡ true
      → n ≤ h
      → r.snapshot.state ≡ s
      → r.entry.id ≡ x
      → r.snapshot.id ≡ x
      → Stands s r (suc h) n
      → IsAt x (some (finish_locked r state message journal).0) h n
  finish_place JobState.new x r h n state message journal t l e p q d = absurd d
  finish_place JobState.ready x r h n state message journal t l e p q (a, b, o) =
      Ends-IsAt x r _ h n p q (finish-Finishes r state message journal o t).0 (omega arith) b
  finish_place JobState.running x r h n state message journal t l e p q (a, b, o) =
      absurd (omega arith)
  finish_place JobState.completed x r h n state message journal t l e p q (a, b, o) =
      ended_place x r h n state message journal p q (omega arith) b o
  finish_place JobState.failed x r h n state message journal t l e p q (a, b, o) =
      ended_place x r h n state message journal p q (omega arith) b o
  finish_place JobState.cancelled x r h n state message journal t l e p q (a, b, o) =
      ended_place x r h n state message journal p q (omega arith) b o

-- A store at `y` is seen at `y` alone.
pub IsAt-store :
    (x y : ℕ) (records : Registry) (r r' : JobRecord) (h n : ℕ)
    → find_record y records ≡ some r
    → (y ≡ x → IsAt x (some r') h n)
    → ((y == x) ≡ false → IsAt x (find_record x records) h n)
    → IsAt x (find_record x (store y r' records)) h n
IsAt-store x y records r r' h n f a b = elim (Bool-cases (y == x)) [
  | inl e ↦ rw (find_record-store x y r' records, f, e) (a ((==_iff y x).0 e))
  | inr e ↦ rw (find_record-store x y r' records, f, e) (b e)
]
