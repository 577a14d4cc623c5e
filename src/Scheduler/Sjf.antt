-- ===== src/Scheduler/Sjf.antt =====
-- `SjfScheduler` of src/scheduler.cpp.
use omni_sched.Base.{ℕ, Bool, true, false, Option, List, [], ◌∷◌, length}
use omni_sched.Types.{SchedulerKind, unlimited_work}
use omni_sched.Scheduler.Entry.{SchedulerEntry, sjf_compare}
use omni_sched.Scheduler.PriorityQueue.{pop_priority_queue, drain_priority_queue}

-- The container of the `std::priority_queue` under `SjfCompare`.
pub record SjfScheduler : Type 0 where
  pub entries : List SchedulerEntry

unfoldable pub init : SjfScheduler
init = record { entries = [] }

unfoldable pub push : SjfScheduler → SchedulerEntry → SjfScheduler
push s entry = record { entries = entry ∷ s.entries }

unfoldable pub pop : SjfScheduler → Option SchedulerEntry × SjfScheduler
pop s =
    let (entry, left) = pop_priority_queue sjf_compare s.entries in
    (entry, record { entries = left })

unfoldable pub drain : SjfScheduler → List SchedulerEntry × SjfScheduler
drain s =
    let (entries, left) = drain_priority_queue sjf_compare s.entries in
    (entries, record { entries = left })

unfoldable pub size : SjfScheduler → ℕ
size s = length s.entries

is_empty : List SchedulerEntry → Bool
is_empty [] = true
is_empty (entry ∷ rest) = false

unfoldable pub empty : SjfScheduler → Bool
unfolding is_empty
empty s = is_empty s.entries

unfoldable pub slice_budget : SjfScheduler → ℕ
slice_budget s = unlimited_work

unfoldable pub kind : SjfScheduler → SchedulerKind
kind s = SchedulerKind.shortest_job_first
