-- ===== src/Scheduler/Order.antt =====
-- The order in which the strategies return entries.
use mathlib.Core.List.{Perm}
use omni_sched.Base.{
  ◌<◌, ◌≤◌, ◌<ℤ◌, false, List, [], ◌∷◌, ◌++◌, ◌≡◌, ◌⊎◌, All-mono, InOrder, eq_of_parts, append-nil,
  append_assoc, ◌∙◌, arith,
}
use omni_sched.Scheduler.{IScheduler, fifo, round_robin, push, drain}
use omni_sched.Scheduler.PriorityQueue.{drain_priority_queue-lem}
use omni_sched.Scheduler.Entry.{
  SchedulerEntry, priority_compare, sjf_compare, priority_compare-IsStrictWeak,
  sjf_compare-IsStrictWeak, drain_container_lem,
}
use omni_sched.Scheduler.Fifo
use omni_sched.Scheduler.Fifo.{FifoScheduler}
use omni_sched.Scheduler.Priority
use omni_sched.Scheduler.Priority.{PriorityScheduler}
use omni_sched.Scheduler.Sjf
use omni_sched.Scheduler.Sjf.{SjfScheduler}
use omni_sched.Scheduler.RoundRobin
use omni_sched.Scheduler.RoundRobin.{RoundRobinScheduler}

-- `a` is served before `b`: a higher priority first, the earlier submission among equals.
abbrev pub HigherPriority : SchedulerEntry → SchedulerEntry → Type 0
HigherPriority a b =
    (b.priority <ℤ a.priority)
    ⊎ ((a.priority ≡ b.priority) × (a.submission_sequence ≤ b.submission_sequence))

-- The shorter estimate first, the earlier submission among equals.
abbrev pub ShorterJob : SchedulerEntry → SchedulerEntry → Type 0
ShorterJob a b =
    (a.estimated_work_units < b.estimated_work_units)
    ⊎ ((a.estimated_work_units ≡ b.estimated_work_units)
        × (a.submission_sequence ≤ b.submission_sequence))

not_below-HigherPriority :
    (a b : SchedulerEntry) → priority_compare a b ≡ false → HigherPriority a b
unfolding priority_compare
not_below-HigherPriority a b h = ground (arith, eq_of_parts a.priority b.priority)

not_below-ShorterJob : (a b : SchedulerEntry) → sjf_compare a b ≡ false → ShorterJob a b
unfolding sjf_compare
not_below-ShorterJob a b h = ground arith

InOrder-mono :
    (R S : SchedulerEntry → SchedulerEntry → Type 0)
    → ((a b : SchedulerEntry) → R a b → S a b)
    → (xs : List SchedulerEntry) → InOrder R xs
    → InOrder S xs
InOrder-mono R S f [] h = tt
InOrder-mono R S f (x ∷ xs) h = (All-mono (R x) (S x) (f x) xs h.0, InOrder-mono R S f xs h.1)

-- The priority scheduler returns the entries that wait, each before those of lower priority and,
-- among equal priorities, in the order of submission.
pub priority_drain_order :
    (s : PriorityScheduler)
    → let entries = (Priority.drain s).0 in Perm s.entries entries × InOrder HigherPriority entries
unfolding Priority.drain
priority_drain_order s =
    let (_, perm, order) = drain_priority_queue-lem _ priority_compare-IsStrictWeak s.entries in
    (perm, InOrder-mono _ HigherPriority not_below-HigherPriority _ order)

-- The shortest-job-first scheduler returns the entries that wait by their estimates and, among equal
-- estimates, in the order of submission.
pub sjf_drain_order :
    (s : SjfScheduler)
    → let entries = (Sjf.drain s).0 in Perm s.entries entries × InOrder ShorterJob entries
unfolding Sjf.drain
sjf_drain_order s =
    let (_, perm, order) = drain_priority_queue-lem _ sjf_compare-IsStrictWeak s.entries in
    (perm, InOrder-mono _ ShorterJob not_below-ShorterJob _ order)

pub push_all : IScheduler → List SchedulerEntry → IScheduler
push_all s [] = s
push_all s (e ∷ es) = push_all (push s e) es

-- The fifo and the round-robin scheduler return what waited and then what was pushed, in the order
-- of arrival.
pub queue_drain_order :
    (f : FifoScheduler) (r : RoundRobinScheduler) (es : List SchedulerEntry)
    → ((drain (push_all (fifo f) es)).0 ≡ f.entries ++ es)
      × ((drain (push_all (round_robin r) es)).0 ≡ r.entries ++ es)
unfolding push_all push drain Fifo.push RoundRobin.push Fifo.drain RoundRobin.drain
queue_drain_order f r [] =
    (rw (drain_container_lem f.entries, append-nil), rw (drain_container_lem r.entries, append-nil))
queue_drain_order f r (e ∷ es) =
    let (p, q) = queue_drain_order (Fifo.push f e) (RoundRobin.push r e) es in
    (p ∙ append_assoc f.entries (e ∷ []) es, q ∙ append_assoc r.entries (e ∷ []) es)
