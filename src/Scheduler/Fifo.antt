-- ===== src/Scheduler/Fifo.antt =====
-- `FifoScheduler` of src/scheduler.cpp.
use omni_sched.Base.{ℕ, Bool, true, false, Option, none, some, List, [], ◌∷◌, ◌++◌, length}
use omni_sched.Types.{SchedulerKind, unlimited_work}
use omni_sched.Scheduler.Entry.{SchedulerEntry, drain_container}

-- The deque, its front first.
pub record FifoScheduler : Type 0 where
  pub entries : List SchedulerEntry

unfoldable pub init : FifoScheduler
init = record { entries = [] }

unfoldable pub push : FifoScheduler → SchedulerEntry → FifoScheduler
push s entry = record { entries = s.entries ++ entry ∷ [] }

pop_front : List SchedulerEntry → Option SchedulerEntry × FifoScheduler
pop_front [] = (none, record { entries = [] })
pop_front (entry ∷ rest) = (some entry, record { entries = rest })

unfoldable pub pop : FifoScheduler → Option SchedulerEntry × FifoScheduler
unfolding pop_front
pop s = pop_front s.entries

unfoldable pub drain : FifoScheduler → List SchedulerEntry × FifoScheduler
drain s = let (entries, left) = drain_container s.entries in (entries, record { entries = left })

unfoldable pub size : FifoScheduler → ℕ
size s = length s.entries

is_empty : List SchedulerEntry → Bool
is_empty [] = true
is_empty (entry ∷ rest) = false

unfoldable pub empty : FifoScheduler → Bool
unfolding is_empty
empty s = is_empty s.entries

unfoldable pub slice_budget : FifoScheduler → ℕ
slice_budget s = unlimited_work

unfoldable pub kind : FifoScheduler → SchedulerKind
kind s = SchedulerKind.fifo
