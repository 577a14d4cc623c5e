-- ===== src/Scheduler/Contract.antt =====
-- What `IScheduler` promises of every strategy: a bag of waiting entries.
use mathlib.Core.List.Perm
use mathlib.Core.List.{Perm, perm_append_singleton}
use omni_sched.Base.{ℕ, Bool, true, false, Option, none, some, List, [], ◌∷◌, ◌≡◌, refl}
use omni_sched.Scheduler.{
  IScheduler, fifo, priority, sjf, round_robin, push, pop, drain, empty, kind, slice_budget,
}
use omni_sched.Scheduler.PriorityQueue.{
  pop_priority_queue, take_top-perm, drain_priority_queue, drain_priority_queue-lem,
  drain_priority_queue-cons,
}
use omni_sched.Scheduler.Entry.{
  SchedulerEntry, priority_compare, sjf_compare, priority_compare-IsStrictWeak,
  sjf_compare-IsStrictWeak, drain_container_lem,
}
use omni_sched.Scheduler.Fifo
use omni_sched.Scheduler.Priority
use omni_sched.Scheduler.Sjf
use omni_sched.Scheduler.RoundRobin

-- The waiting entries.
abbrev pub contents : IScheduler → List SchedulerEntry
contents (fifo s) = s.entries
contents (priority s) = s.entries
contents (sjf s) = s.entries
contents (round_robin s) = s.entries

-- `push` adds its entry to those that wait, and changes neither the strategy nor the budget.
pub push-perm :
    (s : IScheduler) (e : SchedulerEntry)
    → Perm (contents (push s e)) (e ∷ contents s)
      × (kind (push s e) ≡ kind s)
      × (slice_budget (push s e) ≡ slice_budget s)
unfolding push Fifo.push Priority.push Sjf.push RoundRobin.push kind slice_budget Fifo.kind
    Priority.kind Sjf.kind RoundRobin.kind Fifo.slice_budget Priority.slice_budget Sjf.slice_budget
    RoundRobin.slice_budget
push-perm (fifo s) e = (perm_append_singleton e s.entries, refl, refl)
push-perm (priority s) e = (Perm.refl _, refl, refl)
push-perm (sjf s) e = (Perm.refl _, refl, refl)
push-perm (round_robin s) e = (perm_append_singleton e s.entries, refl, refl)

-- The two outcomes of a `pop` from `xs`: nothing of nothing, or one of the entries and the rest.
abbrev pub Pops : List SchedulerEntry → Option SchedulerEntry × IScheduler → Type 0
Pops xs (none, s) = (xs ≡ []) × (contents s ≡ [])
Pops xs (some e, s) = Perm xs (e ∷ contents s)

pop_queue-Pops :
    (less : SchedulerEntry → SchedulerEntry → Bool) (wrap : List SchedulerEntry → IScheduler)
    → ((xs : List SchedulerEntry) → contents (wrap xs) ≡ xs)
    → (xs : List SchedulerEntry)
    → let (e, left) = pop_priority_queue less xs in Pops xs (e, wrap left)
unfolding pop_priority_queue
pop_queue-Pops less wrap h [] = (refl, h [])
pop_queue-Pops less wrap h (x ∷ xs) = rw h (take_top-perm less x xs)

fifo-Pops : (xs : List SchedulerEntry) → Pops xs (pop (fifo (record { entries = xs })))
unfolding pop Fifo.pop
fifo-Pops [] = (refl, refl)
fifo-Pops (x ∷ xs) = Perm.refl _

round_robin-Pops :
    (q : ℕ) (xs : List SchedulerEntry)
    → Pops xs (pop (round_robin (record { entries = xs; quantum = q })))
unfolding pop RoundRobin.pop
round_robin-Pops q [] = (refl, refl)
round_robin-Pops q (x ∷ xs) = Perm.refl _

-- `pop` returns nothing exactly of an empty scheduler, and else removes one waiting entry.
pub pop-Pops : (s : IScheduler) → Pops (contents s) (pop s)
unfolding pop Fifo.pop Priority.pop Sjf.pop RoundRobin.pop
pop-Pops (fifo s) = fifo-Pops s.entries
pop-Pops (priority s) =
    pop_queue-Pops priority_compare (λ xs. priority (record { entries = xs })) (λ xs. refl)
      s.entries
pop-Pops (sjf s) =
    pop_queue-Pops sjf_compare (λ xs. sjf (record { entries = xs })) (λ xs. refl) s.entries
pop-Pops (round_robin s) = round_robin-Pops s.quantum s.entries

-- `drain` returns all that waits and leaves nothing.
pub drain-perm : (s : IScheduler) → let r = drain s in Perm (contents s) r.0 × (contents r.1 ≡ [])
unfolding drain Fifo.drain Priority.drain Sjf.drain RoundRobin.drain
drain-perm (fifo s) = rw (drain_container_lem s.entries) (Perm.refl _, refl)
drain-perm (priority s) =
    let (e, p, _) = drain_priority_queue-lem _ priority_compare-IsStrictWeak s.entries in (p, e)
drain-perm (sjf s) =
    let (e, p, _) = drain_priority_queue-lem _ sjf_compare-IsStrictWeak s.entries in (p, e)
drain-perm (round_robin s) = rw (drain_container_lem s.entries) (Perm.refl _, refl)

-- What a `pop` and a drain after it return.
abbrev pub pop_then_drain : Option SchedulerEntry × IScheduler → List SchedulerEntry
pop_then_drain (none, s) = []
pop_then_drain (some e, s) = e ∷ (drain s).0

drain_queue-pop :
    (less : SchedulerEntry → SchedulerEntry → Bool) (wrap : List SchedulerEntry → IScheduler)
    → ((xs : List SchedulerEntry) → (drain (wrap xs)).0 ≡ (drain_priority_queue less xs).0)
    → (xs : List SchedulerEntry)
    → let (e, left) = pop_priority_queue less xs in
      (drain_priority_queue less xs).0 ≡ pop_then_drain (e, wrap left)
unfolding pop_priority_queue
drain_queue-pop less wrap h [] = unfold drain_priority_queue in refl
drain_queue-pop less wrap h (x ∷ xs) = rw h (drain_priority_queue-cons less x xs)

fifo-pop_then_drain :
    (xs : List SchedulerEntry) → xs ≡ pop_then_drain (pop (fifo (record { entries = xs })))
unfolding drain pop Fifo.drain Fifo.pop
fifo-pop_then_drain [] = refl
fifo-pop_then_drain (x ∷ xs) = rw (drain_container_lem xs)

round_robin-pop_then_drain :
    (q : ℕ) (xs : List SchedulerEntry)
    → xs ≡ pop_then_drain (pop (round_robin (record { entries = xs; quantum = q })))
unfolding drain pop RoundRobin.drain RoundRobin.pop
round_robin-pop_then_drain q [] = refl
round_robin-pop_then_drain q (x ∷ xs) = rw (drain_container_lem xs)

-- `drain` returns the entries in the order in which `pop` would, for every strategy.
pub drain-pop : (s : IScheduler) → (drain s).0 ≡ pop_then_drain (pop s)
unfolding drain pop Fifo.drain Priority.drain Sjf.drain RoundRobin.drain Fifo.pop Priority.pop
    Sjf.pop RoundRobin.pop
drain-pop (fifo s) = rw (drain_container_lem s.entries) (fifo-pop_then_drain s.entries)
drain-pop (priority s) =
    drain_queue-pop priority_compare (λ xs. priority (record { entries = xs })) (λ xs. refl)
      s.entries
drain-pop (sjf s) =
    drain_queue-pop sjf_compare (λ xs. sjf (record { entries = xs })) (λ xs. refl) s.entries
drain-pop (round_robin s) =
    rw (drain_container_lem s.entries) (round_robin-pop_then_drain s.quantum s.entries)

-- `empty` answers whether an entry waits.
pub empty-cons :
    (s : IScheduler) (e : SchedulerEntry) (es : List SchedulerEntry)
    → contents s ≡ e ∷ es
    → empty s ≡ false
unfolding empty Fifo.empty Priority.empty Sjf.empty RoundRobin.empty
empty-cons (fifo s) e es h = rw h
empty-cons (priority s) e es h = rw h
empty-cons (sjf s) e es h = rw h
empty-cons (round_robin s) e es h = rw h

pub empty-nil : (s : IScheduler) → contents s ≡ [] → empty s ≡ true
unfolding empty Fifo.empty Priority.empty Sjf.empty RoundRobin.empty
empty-nil (fifo s) h = rw h
empty-nil (priority s) h = rw h
empty-nil (sjf s) h = rw h
empty-nil (round_robin s) h = rw h
