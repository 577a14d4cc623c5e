-- ===== src/Engine/Replaced.antt =====
-- `TaskQueue::set_scheduler` of src/task_engine.cpp: the entries that wait change hands.
use mathlib.Core.List.Perm
use mathlib.Core.List.{Perm, perm_middle}
use omni_sched.Base.{
  ℕ, text, Bool, true, false, Bool-cases, List, [], ◌∷◌, ◌++◌, ◌==◌, ==_iff, ◌≡◌, refl, ◌∙◌, subst,
  ◌⊎◌, inl, inr, not, logic_error, Result, ok, err, ◌>>=◌, ◌>>◌, guard,
}
use omni_sched.Types.{SchedulerKind, SchedulerConfig, unlimited_work}
use omni_sched.Scheduler.{IScheduler, push, drain, kind, slice_budget, make_scheduler}
use omni_sched.Scheduler.Entry.{SchedulerEntry}
use omni_sched.Scheduler.Fifo
use omni_sched.Scheduler.Priority
use omni_sched.Scheduler.Sjf
use omni_sched.Scheduler.RoundRobin
use omni_sched.Scheduler.Contract.{contents, push-perm, drain-perm}
use omni_sched.Engine.Queue.{TaskQueue, push_all, set_scheduler}
use omni_sched.Engine.Count.{contents-make_scheduler}

-- The budget that a configuration asks for.
abbrev pub budget_of : SchedulerKind → ℕ → ℕ
budget_of SchedulerKind.round_robin quantum = quantum
budget_of _ quantum = unlimited_work

-- The waiting entries are the same ones, under the strategy and with the budget of the configuration.
-- An exception means a closed queue, or a round-robin without a quantum.
abbrev pub Replaces : SchedulerConfig → TaskQueue → Result TaskQueue → Type 0
Replaces config q (err error) =
    (q.closed ≡ true) ⊎ ((config.kind ≡ SchedulerKind.round_robin) × (config.quantum ≡ 0))
Replaces config q (ok q') =
    Perm (contents q'.scheduler) (contents q.scheduler)
    × (kind q'.scheduler ≡ config.kind)
    × (slice_budget q'.scheduler ≡ budget_of config.kind config.quantum)
    × (q'.config ≡ config)
    × (q.closed ≡ false)
    × (q'.closed ≡ false)

push_all-perm :
    (s : IScheduler) (entries : List SchedulerEntry)
    → Perm (contents (push_all s entries)) (entries ++ contents s)
      × (kind (push_all s entries) ≡ kind s)
      × (slice_budget (push_all s entries) ≡ slice_budget s)
unfolding push_all
push_all-perm s [] = (Perm.refl _, refl, refl)
push_all-perm s (entry ∷ entries) =
    let (p, k, b) = push_all-perm (push s entry) entries in
    let (p', k', b') = push-perm s entry in
    (
      Perm.trans p (Perm.trans (Perm.append_left entries p') (perm_middle entries (contents s))),
      k ∙ k',
      b ∙ b',
    )

-- What `make_scheduler` makes.
abbrev Makes : SchedulerKind → ℕ → Result IScheduler → Type 0
Makes k quantum (err error) = (k ≡ SchedulerKind.round_robin) × (quantum ≡ 0)
Makes k quantum (ok s) = (kind s ≡ k) × (slice_budget s ≡ budget_of k quantum)

make_scheduler-Makes :
    (k : SchedulerKind) (quantum : ℕ)
    → Makes k quantum (make_scheduler (record { kind = k; quantum = quantum }))
unfolding make_scheduler Fifo.init Priority.init Sjf.init RoundRobin.init kind slice_budget
    Fifo.kind Priority.kind Sjf.kind RoundRobin.kind Fifo.slice_budget Priority.slice_budget
    Sjf.slice_budget RoundRobin.slice_budget
make_scheduler-Makes SchedulerKind.fifo quantum = (refl, refl)
make_scheduler-Makes SchedulerKind.priority quantum = (refl, refl)
make_scheduler-Makes SchedulerKind.shortest_job_first quantum = (refl, refl)
make_scheduler-Makes SchedulerKind.round_robin quantum = elim (Bool-cases (quantum == 0)) [
  | inl z ↦ rw z (refl, (==_iff quantum 0).0 z)
  | inr z ↦ rw z (refl, refl)
]

-- Whatever strategy runs and whatever is asked for: a change of the scheduler loses and adds no
-- waiting entry, and leaves the strategy, the budget and the configuration that were asked for; it
-- throws only when the queue is closed or a round-robin is asked for without a quantum.
pub set_scheduler-Replaces :
    (config : SchedulerConfig) (q : TaskQueue) → Replaces config q (set_scheduler config q)
unfolding set_scheduler
set_scheduler-Replaces config q =
    go (make_scheduler config) q.closed refl refl (make_scheduler-Makes config.kind config.quantum)
  where
    go :
        (r : Result IScheduler) (closed : Bool)
        → make_scheduler config ≡ r
        → q.closed ≡ closed
        → Makes config.kind config.quantum r
        → Replaces config q (
            r >>= λ s.
            guard (not closed) (logic_error (text "cannot change scheduler after shutdown"))
            >> ok (record q { scheduler = push_all s (drain q.scheduler).0; config = config }))
    go (err error) closed m c p = inr p
    go (ok s) true m c p = inl c
    go (ok s) false m c (k, b) =
        let (p, k', b') = push_all-perm s (drain q.scheduler).0 in
        (
          Perm.trans
              (subst
                (λ es.
                  Perm (contents (push_all s (drain q.scheduler).0)) ((drain q.scheduler).0 ++ es))
                (contents-make_scheduler config m) p)
              (Perm.trans (nothing (drain q.scheduler).0) (Perm.symm (drain-perm q.scheduler).0)),
          k' ∙ k,
          b' ∙ b,
          refl,
          c,
          c,
        )
      where
        nothing : (es : List SchedulerEntry) → Perm (es ++ []) es
        nothing [] = Perm.refl _
        nothing (e ∷ es) = Perm.cons e (nothing es)
