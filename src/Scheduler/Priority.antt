-- ===== src/Scheduler/Priority.antt =====
-- `PriorityScheduler` of src/scheduler.cpp.
use omni_sched.Base.{ℕ, Bool, true, false, Option, List, [], ◌∷◌, length}
use omni_sched.Types.{SchedulerKind, unlimited_work}
use omni_sched.Scheduler.Entry.{SchedulerEntry, priority_compare}
use omni_sched.Scheduler.PriorityQueue.{pop_priority_queue, drain_priority_queue}

-- The container of the `std::priority_queue` under `PriorityCompare`.
pub record PriorityScheduler : Type 0 where
  pub entries : List SchedulerEntry

unfoldable pub init : PriorityScheduler
init = record { entries = [] }

unfoldable pub push : PriorityScheduler → SchedulerEntry → PriorityScheduler
push s entry = record { entries = entry ∷ s.entries }

unfoldable pub pop : PriorityScheduler → Option SchedulerEntry × PriorityScheduler
pop s =
    let (entry, left) = pop_priority_queue priority_compare s.entries in
    (entry, record { entries = left })

unfoldable pub drain : PriorityScheduler → List SchedulerEntry × PriorityScheduler
drain s =
    let (entries, left) = drain_priority_queue priority_compare s.entries in
    (entries, record { entries = left })

unfoldable pub size : PriorityScheduler → ℕ
size s = length s.entries

is_empty : List SchedulerEntry → Bool
is_empty [] = true
is_empty (entry ∷ rest) = false

unfoldable pub empty : PriorityScheduler → Bool
unfolding is_empty
empty s = is_empty s.entries

unfoldable pub slice_budget : PriorityScheduler → ℕ
slice_budget s = unlimited_work

unfoldable pub kind : PriorityScheduler → SchedulerKind
kind s = SchedulerKind.priority
