-- ===== src/Tasks.antt =====
-- The built-in tasks: src/example_tasks.cpp.
pub mod Budget
pub mod Step
pub mod Prime
pub mod PrimeTest
pub mod PrimeEndless
pub mod Progress
pub mod PrimeProgress
