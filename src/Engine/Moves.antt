-- ===== src/Engine/Moves.antt =====
-- How a job record of src/task_engine.cpp may change: the transitions between its states.
use omni_sched.Base.{
  ℕ, ◌≤◌, Bytes, true, false, Bool-cases, Option, none, some, ◌≡◌, refl, sym, ap, ◌∙◌, subst, ◌⊎◌,
  inl, inr, ◌==◌, ==_iff, arith,
}
use omni_sched.Types.{JobState, is_terminal}
use omni_sched.Journal.{IJobJournal}
use omni_sched.Engine.Job.{JobRecord, finish_locked}
use omni_sched.Engine.Registry.{Registry, find_record, store, find_record-store}
use omni_sched.Engine.Outcome.{IsOpen, IsEnded, Ends, finish-Finishes, finish-ended}
use omni_sched.Engine.Accounting.{Stands}

-- From one state of a job to the next. Any job that has not ended may fail or be cancelled.
pub data Edge : JobState → JobState → Type 0 where
  starts : Edge JobState.ready JobState.running
  yields : Edge JobState.running JobState.ready
  completes : Edge JobState.running JobState.completed
  fails : {s : JobState} → Edge s JobState.failed
  is_cancelled : {s : JobState} → Edge s JobState.cancelled

-- A job that has not ended takes an edge and keeps its ID and its entry.
abbrev pub Moves : JobRecord → JobRecord → Type 0
Moves r r' =
    (is_terminal r.snapshot.state ≡ false)
    × (r'.entry ≡ r.entry)
    × (r'.snapshot.id ≡ r.snapshot.id)
    × Edge r.snapshot.state r'.snapshot.state

-- A job that is run is asked to stop, and nothing else of its record changes.
abbrev pub IsAskedToStop : JobRecord → JobRecord → Type 0
IsAskedToStop r r' =
    (r.snapshot.state ≡ JobState.running) × (r' ≡ record r { stop_requested = true })

abbrev pub Changes : JobRecord → JobRecord → Type 0
Changes r r' = (r' ≡ r) ⊎ (IsAskedToStop r r' ⊎ Moves r r')

-- The record stays, or the job goes on and is cancelled or fails.
abbrev pub Halts : JobRecord → JobRecord → Type 0
Halts r r' =
    (r' ≡ r)
    ⊎ ((is_terminal r.snapshot.state ≡ false)
        × Ends r r'
        × ((r'.snapshot.state ≡ JobState.cancelled) ⊎ (r'.snapshot.state ≡ JobState.failed)))

-- What a relation on records says of what a key holds before and after. A new key may hold anything.
abbrev pub Lifts : (JobRecord → JobRecord → Type 0) → Option JobRecord → Option JobRecord → Type 0
Lifts R none o' = Unit
Lifts R (some r) none = ⊥
Lifts R (some r) (some r') = R r r'

-- The record says consistently whether its job has ended.
abbrev pub IsSane : JobRecord → Type 0
IsSane r = ((is_terminal r.snapshot.state ≡ false) × IsOpen r) ⊎ IsEnded r

abbrev pub IsSaneAt : Option JobRecord → Type 0
IsSaneAt none = Unit
IsSaneAt (some r) = IsSane r

pub Edge-between : {s s' t t' : JobState} → s ≡ s' → t ≡ t' → Edge s' t' → Edge s t
Edge-between {s} {s'} {t} {t'} p q e =
    subst (λ a. Edge a t) (sym p) (subst (λ b. Edge s' b) (sym q) e)

end-Edge : {s t : JobState} → (t ≡ JobState.cancelled) ⊎ (t ≡ JobState.failed) → Edge s t
end-Edge (inl p) = Edge-between refl p Edge.is_cancelled
end-Edge (inr p) = Edge-between refl p Edge.fails

pub Halts-Moves :
    (r r' : JobRecord)
    → is_terminal r.snapshot.state ≡ false
    → Ends r r'
    → (r'.snapshot.state ≡ JobState.cancelled) ⊎ (r'.snapshot.state ≡ JobState.failed)
    → Moves r r'
Halts-Moves r r' t (_, p, q, _) s = (t, p, q, end-Edge s)

pub Halts-Changes : (r r' : JobRecord) → Halts r r' → Changes r r'
Halts-Changes r r' (inl p) = inl p
Halts-Changes r r' (inr (t, e, s)) = inr (inr (Halts-Moves r r' t e s))

pub Halts-IsSane : (r r' : JobRecord) → Halts r r' → IsSane r → IsSane r'
Halts-IsSane r r' (inl p) h = subst (λ x. IsSane x) (sym p) h
Halts-IsSane r r' (inr (t, e, s)) h = inr e.0

Halts-trans : (r r' r'' : JobRecord) → Halts r r' → Halts r' r'' → Halts r r''
Halts-trans r r' r'' (inl p) h = subst (λ x. Halts x r'') p h
Halts-trans r r' r'' (inr g) (inl q) = subst (λ x. Halts r x) (sym q) (inr g)
Halts-trans r r' r'' (inr (t, e, s)) (inr (t', _, _)) = absurd (cc (e.0.0, t'))

pub Lifts-trans :
    (o o' o'' : Option JobRecord) → Lifts Halts o o' → Lifts Halts o' o'' → Lifts Halts o o''
Lifts-trans none o' o'' p q = tt
Lifts-trans (some r) none o'' p q = absurd p
Lifts-trans (some r) (some r') none p q = absurd q
Lifts-trans (some r) (some r') (some r'') p q = Halts-trans r r' r'' p q

pub Lifts-Changes : (o o' : Option JobRecord) → Lifts Halts o o' → Lifts Changes o o'
Lifts-Changes none o' p = tt
Lifts-Changes (some r) none p = p
Lifts-Changes (some r) (some r') p = Halts-Changes r r' p

pub Changes-same : (o : Option JobRecord) → Lifts Changes o o
Changes-same none = tt
Changes-same (some r) = inl refl

pub Halts-same : (o : Option JobRecord) → Lifts Halts o o
Halts-same none = tt
Halts-same (some r) = inl refl

-- A store at `id` is seen at `id` alone.
pub store-at :
    (P : Option JobRecord → Type 0) (x id : ℕ) (records : Registry) (r r' : JobRecord)
    → find_record id records ≡ some r
    → (find_record x records ≡ some r → P (some r'))
    → P (find_record x records)
    → P (find_record x (store id r' records))
store-at P x id records r r' f a b = elim (Bool-cases (id == x)) [
  | inl e ↦ rw (find_record-store x id r' records, f, e) (a (moved ((==_iff id x).0 e)))
  | inr e ↦ rw (find_record-store x id r' records, f, e) b
]
  where
    moved : id ≡ x → find_record x records ≡ some r
    moved e = ap (λ k. find_record k records) (sym e) ∙ f

Stands-IsSane :
    (s : JobState) (r : JobRecord) (h n : ℕ) → r.snapshot.state ≡ s → Stands s r h n → IsSane r
Stands-IsSane JobState.new r h n e d = absurd d
Stands-IsSane JobState.ready r h n e (_, _, o) = inl (ap is_terminal e, o)
Stands-IsSane JobState.running r h n e (_, _, o) = inl (ap is_terminal e, o)
Stands-IsSane JobState.completed r h n e (_, _, o) = inr o
Stands-IsSane JobState.failed r h n e (_, _, o) = inr o
Stands-IsSane JobState.cancelled r h n e (_, _, o) = inr o

pub stands-IsSane : (r : JobRecord) (h n : ℕ) → Stands r.snapshot.state r h n → IsSane r
stands-IsSane r h n d = Stands-IsSane r.snapshot.state r h n refl d

-- A job in the hands of a worker that runs it is running.
pub stands_running :
    (s : JobState) (r : JobRecord) (h n : ℕ)
    → 1 ≤ n
    → Stands s r h n
    → (s ≡ JobState.running) × IsOpen r
stands_running JobState.new r h n l d = absurd d
stands_running JobState.ready r h n l (_, z, o) = absurd (omega arith)
stands_running JobState.running r h n l (_, _, o) = (refl, o)
stands_running JobState.completed r h n l (_, z, o) = absurd (omega arith)
stands_running JobState.failed r h n l (_, z, o) = absurd (omega arith)
stands_running JobState.cancelled r h n l (_, z, o) = absurd (omega arith)

module _ {J : Type 0} ⦃impl : IJobJournal J⦄ where
  pub finish-Halts :
      (r : JobRecord) (message : Bytes) (journal : Option J)
      → IsSane r
      → Halts r (finish_locked r JobState.cancelled message journal).0
  finish-Halts r message journal (inl (t, o)) =
      let (e, s) = finish-Finishes r JobState.cancelled message journal o refl in inr (t, e, s)
  finish-Halts r message journal (inr e) =
      inl (ap (λ p. p.0) (finish-ended r JobState.cancelled message journal e.1))

  -- The same after a request to stop.
  pub finish_stopped :
      (r : JobRecord) (message : Bytes) (journal : Option J)
      → is_terminal r.snapshot.state ≡ false
      → IsSane r
      → Halts r
          (finish_locked (record r { stop_requested = true }) JobState.cancelled message journal).0
  finish_stopped r message journal t (inl (_, o)) =
      let (e, s) =
        finish-Finishes (record r { stop_requested = true }) JobState.cancelled message journal o
          refl in
      inr (t, e, s)
  finish_stopped r message journal t (inr e) = absurd (cc (e.0, t))
