-- ===== src/Tasks/Budget.antt =====
-- What the two tasks of src/example_tasks.cpp share.
use omni_sched.Base.{ℕ, ◌+◌, ◌%◌, ◌^◌, Bool, ltb, ◌==◌, if◌then◌else◌}
use omni_sched.Types.{unlimited_work}

-- `std::min`.
unfoldable pub min : ℕ → ℕ → ℕ
min a b = if ltb b a then b else a

unfoldable pub effective_budget : ℕ → ℕ → ℕ
effective_budget requested remaining =
    if requested == unlimited_work then remaining else min requested remaining

-- `++` on 64 bits.
abbrev pub increment : ℕ → ℕ
increment n = (n + 1) % 2 ^ 64

-- `TaskContext` of include/kronos/task.hpp. `stop_requested k` is the answer of the token to the
-- `k`-th question of a slice.
pub record TaskContext : Type 0 where
  pub max_work_units : ℕ
  pub stop_requested : ℕ → Bool
