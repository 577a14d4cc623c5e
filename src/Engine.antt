-- ===== src/Engine.antt =====
-- src/task_engine.cpp and include/kronos/task_engine.hpp: the task engine.
pub mod Queue
pub mod Job
pub mod Registry
pub mod State
pub mod Submit
pub mod Control
pub mod Worker
pub mod Step
pub mod Sections
pub mod Count
pub mod Outcome
pub mod Accounting
pub mod Placed
pub mod SlicePlaces
pub mod SliceAside
pub mod SliceFrame
pub mod WorkerPlaces
pub mod StepPlaces
pub mod GiveUp
pub mod QueuePlaces
pub mod ClientPlaces
pub mod SubmitPlaces
pub mod Replaced
pub mod Keys
pub mod Fresh
pub mod Held
pub mod Calls
pub mod Apart
pub mod Admitted
pub mod SectionPlaces
pub mod Popping
pub mod Served
pub mod Leaves
pub mod Drain
pub mod Pending
pub mod Restoring
pub mod Invariant
pub mod Reached
pub mod SectionServed
pub mod Moves
pub mod Moving
pub mod WorkerMoves
pub mod StepMoves
pub mod Ended
pub mod SectionMoves
pub mod Final
pub mod Cancelled
