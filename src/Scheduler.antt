-- ===== src/Scheduler.antt =====
-- src/scheduler.cpp and include/kronos/scheduler.hpp: the four strategies behind `IScheduler`, and
-- `make_scheduler`. A virtual call is a match on the class.
pub mod PriorityQueue
pub mod Entry
pub mod Fifo
pub mod Priority
pub mod Sjf
pub mod RoundRobin
pub mod Contract
pub mod Order
use omni_sched.Base.{ℕ, Bool, Option, List, Result, ok, ◌>>=◌}
use omni_sched.Types.{SchedulerKind, SchedulerConfig}
use Entry.{SchedulerEntry}
use Fifo.{FifoScheduler}
use Priority.{PriorityScheduler}
use Sjf.{SjfScheduler}
use RoundRobin.{RoundRobinScheduler}

pub data IScheduler : Type 0 where
  fifo : FifoScheduler → IScheduler
  priority : PriorityScheduler → IScheduler
  sjf : SjfScheduler → IScheduler
  round_robin : RoundRobinScheduler → IScheduler

unfoldable pub push : IScheduler → SchedulerEntry → IScheduler
push (fifo s) entry = fifo (Fifo.push s entry)
push (priority s) entry = priority (Priority.push s entry)
push (sjf s) entry = sjf (Sjf.push s entry)
push (round_robin s) entry = round_robin (RoundRobin.push s entry)

unfoldable pub pop : IScheduler → Option SchedulerEntry × IScheduler
pop (fifo s) = let (entry, s') = Fifo.pop s in (entry, fifo s')
pop (priority s) = let (entry, s') = Priority.pop s in (entry, priority s')
pop (sjf s) = let (entry, s') = Sjf.pop s in (entry, sjf s')
pop (round_robin s) = let (entry, s') = RoundRobin.pop s in (entry, round_robin s')

unfoldable pub drain : IScheduler → List SchedulerEntry × IScheduler
drain (fifo s) = let (entries, s') = Fifo.drain s in (entries, fifo s')
drain (priority s) = let (entries, s') = Priority.drain s in (entries, priority s')
drain (sjf s) = let (entries, s') = Sjf.drain s in (entries, sjf s')
drain (round_robin s) = let (entries, s') = RoundRobin.drain s in (entries, round_robin s')

unfoldable pub size : IScheduler → ℕ
size (fifo s) = Fifo.size s
size (priority s) = Priority.size s
size (sjf s) = Sjf.size s
size (round_robin s) = RoundRobin.size s

unfoldable pub empty : IScheduler → Bool
empty (fifo s) = Fifo.empty s
empty (priority s) = Priority.empty s
empty (sjf s) = Sjf.empty s
empty (round_robin s) = RoundRobin.empty s

unfoldable pub slice_budget : IScheduler → ℕ
slice_budget (fifo s) = Fifo.slice_budget s
slice_budget (priority s) = Priority.slice_budget s
slice_budget (sjf s) = Sjf.slice_budget s
slice_budget (round_robin s) = RoundRobin.slice_budget s

unfoldable pub kind : IScheduler → SchedulerKind
kind (fifo s) = Fifo.kind s
kind (priority s) = Priority.kind s
kind (sjf s) = Sjf.kind s
kind (round_robin s) = RoundRobin.kind s

make : SchedulerKind → ℕ → Result IScheduler
make SchedulerKind.fifo quantum = ok (fifo Fifo.init)
make SchedulerKind.priority quantum = ok (priority Priority.init)
make SchedulerKind.shortest_job_first quantum = ok (sjf Sjf.init)
make SchedulerKind.round_robin quantum = do s ← RoundRobin.init quantum; ok (round_robin s)

unfoldable pub make_scheduler : SchedulerConfig → Result IScheduler
unfolding make
make_scheduler config = make config.kind config.quantum
