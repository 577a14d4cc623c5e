-- ===== src/Scheduler/Entry.antt =====
-- `SchedulerEntry` of include/kronos/scheduler.hpp, the two comparators of src/scheduler.cpp and
-- `drain_container` there.
use omni_sched.Base.{
  ℕ, ℤ, Bool, List, [], ◌∷◌, ◌++◌, ◌≡◌, ltb, ◌==◌, ltb_ℤ, eqb_ℤ, if◌then◌else◌, append-nil,
  append_assoc, arith,
}
use omni_sched.Scheduler.PriorityQueue.{IsStrictWeak}

pub record SchedulerEntry : Type 0 where
  pub id : ℕ
  pub priority : ℤ
  pub estimated_work_units : ℕ
  pub submission_sequence : ℕ

-- `PriorityCompare`: the left entry ranks below the right one.
unfoldable pub priority_compare : SchedulerEntry → SchedulerEntry → Bool
priority_compare lhs rhs =
    if eqb_ℤ lhs.priority rhs.priority
    then ltb rhs.submission_sequence lhs.submission_sequence
    else ltb_ℤ lhs.priority rhs.priority

-- `SjfCompare`.
unfoldable pub sjf_compare : SchedulerEntry → SchedulerEntry → Bool
sjf_compare lhs rhs =
    if lhs.estimated_work_units == rhs.estimated_work_units
    then ltb rhs.submission_sequence lhs.submission_sequence
    else ltb rhs.estimated_work_units lhs.estimated_work_units

pub priority_compare-IsStrictWeak : IsStrictWeak priority_compare
unfolding priority_compare
priority_compare-IsStrictWeak = record {
  asymmetric = λ a b h. ground arith;
  not_less_trans = λ a b c h k. ground arith;
}

pub sjf_compare-IsStrictWeak : IsStrictWeak sjf_compare
unfolding sjf_compare
sjf_compare-IsStrictWeak = record {
  asymmetric = λ a b h. ground arith;
  not_less_trans = λ a b c h k. ground arith;
}

-- `while (!container.empty())`: what was read so far, and what is left in the container.
drain_loop : List SchedulerEntry → List SchedulerEntry → List SchedulerEntry × List SchedulerEntry
drain_loop [] entries = (entries, [])
drain_loop (front ∷ rest) entries = drain_loop rest (entries ++ front ∷ [])

unfoldable pub drain_container : List SchedulerEntry → List SchedulerEntry × List SchedulerEntry
unfolding drain_loop
drain_container container = drain_loop container []

drain_loop_lem : (xs entries : List SchedulerEntry) → drain_loop xs entries ≡ (entries ++ xs, [])
unfolding drain_loop
drain_loop_lem [] entries = rw append-nil
drain_loop_lem (x ∷ xs) entries = rw (drain_loop_lem xs, append_assoc)

-- The container is emptied in its own order.
pub drain_container_lem : (xs : List SchedulerEntry) → drain_container xs ≡ (xs, [])
unfolding drain_container
drain_container_lem xs = drain_loop_lem xs []
