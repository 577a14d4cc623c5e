-- ===== src/Scheduler/RoundRobin.antt =====
-- `RoundRobinScheduler` of src/scheduler.cpp.
use omni_sched.Base.{
  ℕ, Bool, true, false, Option, none, some, List, [], ◌∷◌, ◌++◌, length, Result, ok, err,
  invalid_argument, text, ◌==◌, if◌then◌else◌,
}
use omni_sched.Types.{SchedulerKind}
use omni_sched.Scheduler.Entry.{SchedulerEntry, drain_container}

-- The deque, its front first, and the work budget of a slice.
pub record RoundRobinScheduler : Type 0 where
  pub entries : List SchedulerEntry
  pub quantum : ℕ

-- The constructor's check stands in its body, after the members are built.
unfoldable pub init : ℕ → Result RoundRobinScheduler
init quantum =
    if quantum == 0
    then err (invalid_argument (text "round-robin quantum must be greater than zero"))
    else ok (record { entries = []; quantum = quantum })

unfoldable pub push : RoundRobinScheduler → SchedulerEntry → RoundRobinScheduler
push s entry = record s { entries = s.entries ++ entry ∷ [] }

pop_front : RoundRobinScheduler → List SchedulerEntry → Option SchedulerEntry × RoundRobinScheduler
pop_front s [] = (none, s)
pop_front s (entry ∷ rest) = (some entry, record s { entries = rest })

unfoldable pub pop : RoundRobinScheduler → Option SchedulerEntry × RoundRobinScheduler
unfolding pop_front
pop s = pop_front s s.entries

unfoldable pub drain : RoundRobinScheduler → List SchedulerEntry × RoundRobinScheduler
drain s = let (entries, left) = drain_container s.entries in (entries, record s { entries = left })

unfoldable pub size : RoundRobinScheduler → ℕ
size s = length s.entries

is_empty : List SchedulerEntry → Bool
is_empty [] = true
is_empty (entry ∷ rest) = false

unfoldable pub empty : RoundRobinScheduler → Bool
unfolding is_empty
empty s = is_empty s.entries

unfoldable pub slice_budget : RoundRobinScheduler → ℕ
slice_budget s = s.quantum

unfoldable pub kind : RoundRobinScheduler → SchedulerKind
kind s = SchedulerKind.round_robin
