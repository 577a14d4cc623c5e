-- ===== src/Tests/Scheduler.antt =====
-- The schedulers of src/scheduler.cpp at a few entries.
use omni_sched.Base.{ℕ, pos, List, [], ◌∷◌, ◌++◌, ◌≡◌, InOrder}
use mathlib.Core.List.{Perm}
use omni_sched.Scheduler.{IScheduler, fifo, priority, sjf, push, pop, drain, kind, slice_budget}
use omni_sched.Scheduler.Entry.{SchedulerEntry}
use omni_sched.Scheduler.Fifo.{FifoScheduler}
use omni_sched.Scheduler.Priority
use omni_sched.Scheduler.Priority.{PriorityScheduler}
use omni_sched.Scheduler.Sjf
use omni_sched.Scheduler.Sjf.{SjfScheduler}
use omni_sched.Scheduler.RoundRobin.{RoundRobinScheduler}
use omni_sched.Scheduler.Contract.{contents, Pops, pop-Pops, push-perm, drain-pop, pop_then_drain}
use omni_sched.Scheduler.Order.{
  HigherPriority, ShorterJob, priority_drain_order, sjf_drain_order, queue_drain_order, push_all,
}

abbrev job : ℕ → ℕ → ℕ → SchedulerEntry
job id urgency work = record {
  id = id;
  priority = pos urgency;
  estimated_work_units = work;
  submission_sequence = id;
}

abbrev three : List SchedulerEntry
three = job 1 5 30 ∷ job 2 9 10 ∷ job 3 9 20 ∷ []

abbrev urgent : PriorityScheduler
urgent = record { entries = three }

abbrev short : SjfScheduler
short = record { entries = three }

abbrev waiting : RoundRobinScheduler
waiting = record { quantum = 4; entries = three }

abbrev arrived : FifoScheduler
arrived = record { entries = three }

priority_drain_order_example :
    Perm three (Priority.drain urgent).0 × InOrder HigherPriority (Priority.drain urgent).0
priority_drain_order_example = priority_drain_order urgent

sjf_drain_order_example : Perm three (Sjf.drain short).0 × InOrder ShorterJob (Sjf.drain short).0
sjf_drain_order_example = sjf_drain_order short

queue_drain_order_example :
    ((drain (push_all (fifo arrived) three)).0 ≡ three ++ three)
    × ((drain (push_all (IScheduler.round_robin waiting) three)).0 ≡ three ++ three)
queue_drain_order_example = queue_drain_order arrived waiting three

pop-Pops_example : Pops three (pop (priority urgent))
pop-Pops_example = pop-Pops (priority urgent)

push-perm_example :
    Perm (contents (push (sjf short) (job 4 1 1))) (job 4 1 1 ∷ three)
    × (kind (push (sjf short) (job 4 1 1)) ≡ kind (sjf short))
    × (slice_budget (push (sjf short) (job 4 1 1)) ≡ slice_budget (sjf short))
push-perm_example = push-perm (sjf short) (job 4 1 1)

drain-pop_example : (drain (priority urgent)).0 ≡ pop_then_drain (pop (priority urgent))
drain-pop_example = drain-pop (priority urgent)
