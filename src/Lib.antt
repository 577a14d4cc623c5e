-- ===== src/Lib.antt =====
-- A verification library for Omni-sched, a cooperative job scheduler with a write-ahead log and a
-- command protocol (namespace `kronos`).
--
-- The program. Clients submit jobs to a `TaskEngine` (src/task_engine.cpp), which keeps a record of
-- each job and a queue of the jobs that are ready. Worker threads take jobs from the queue, run one
-- slice of each and put it back or finish it. The queue is one of four schedulers
-- (src/scheduler.cpp). Every accepted job and every change of a job's state is first appended to a
-- log (src/wal.cpp), from which a restarted engine recovers. Tasks are made from the words of a
-- command and again from the log by src/task_factory.cpp, and are those of src/example_tasks.cpp.
-- Shell and engine exchange the one-line messages of src/protocol.cpp over the named pipes of
-- src/fifo.cpp: apps/kronos_engine.cpp recovers the jobs of the log, answers requests and sends an
-- event for each change of a job's state; apps/kronos_shell.cpp turns command lines into requests
-- and waits for the answer to each.
--
-- The files.
--   Base, Base/*: what all share: tests on numbers, lists, integers, exceptions as `Result`, byte
--     strings, sorting.
--   Types: include/kronos/types.hpp and src/types.cpp.
--   Scheduler, Scheduler/*: src/scheduler.cpp. One module per strategy, `IScheduler` as the sum of
--     them with the virtual calls as functions, `PriorityQueue` for the two helpers over
--     `std::priority_queue`, `Entry` for the entry and the comparisons. `Contract` states what each
--     strategy promises, `Order` the order in which it serves.
--   Codec, Codec/*: what the log and the protocol share: the hex functions and the splitting at a
--     separator, which the source has twice or three times, and the numbers of `std::to_string` and
--     `std::from_chars`.
--   Protocol, Protocol/*: src/protocol.cpp, `Message` for the codec, `Token` for `tokenize_command`.
--   Journal: include/kronos/journal.hpp. `IJobJournal` is the interface between engine and log: a
--     class over the type of the journal's state. `Wal.Append` has its instance for the log.
--   Wal, Wal/*: src/wal.cpp. `Line`, `Checksum` and `Append` write, `Parse` and `Recover` read,
--     `Replay` says what a log means without its text.
--   Engine, Engine/*: src/task_engine.cpp. `Queue` is `TaskQueue`, `Job` the `JobRecord` with the
--     functions under the registry lock, `Registry` the map of records, `State` the engine's
--     members, `Submit`, `Control` and `Worker` its operations, `Step` the actions of all threads,
--     `Sections` those of them that another thread may interrupt. `Count`, `Outcome`, `Accounting`
--     and the modules named for places carry the invariant of `Invariant`, which `SectionPlaces`
--     and `Reached` state of the sections. `Keys`, `Fresh`, `Held`, `Calls`, `Apart` and `Admitted`
--     are about the IDs, `SectionServed`, `Drain`, `Served`, `Pending` and `Ended` about the end of
--     a run, `Restoring` about restored jobs, `Replaced` about a change of the scheduler, `Moves`,
--     `Moving`, `WorkerMoves`, `StepMoves`, `SectionMoves` and `Final` about the state machine of a
--     job, `Cancelled` about a job that is cancelled.
--   Tasks, Tasks/*: src/example_tasks.cpp. Factory, Factory/*: src/task_factory.cpp.
--   Transport, Transport/*: src/fifo.cpp. `Line` has `receive_line` and `send_line`, `Endpoint` the
--     functions of both ends over them, `Paths` the names, `Server` and `Client` the making, opening
--     and closing of the pipes over a file system of two paths, a lock and the open descriptors with
--     their paths (`Ipc`). `Arrived` says what the reads bring.
--   Daemon, Daemon/*: apps/kronos_engine.cpp. `Options`, `Report`, `State` (the members, `respond`
--     and `notify`), `Request` (`handle_request` with its commands), `Recovery` (the constructor),
--     `Loop` (`run`).
--   Shell, Shell/*: apps/kronos_shell.cpp. `Options`, `Session` (`ShellSession` with its listener),
--     `Command` (`run_command`, `run_shell`).
--   Tests: runs at concrete values.
--
-- Threads. A critical section is a step, and any thread may act between two steps. `Move` has them
-- all. `submit` is cut behind its guards and the two `fetch_add` (`draws`), behind the journal and
-- behind `emplace` (`proceeds`), with `push_external` as a step of its own (`pushes`); `restore`
-- behind its guards and the journal (`begins_restore`), behind `emplace` and behind
-- `advance_counter` (`proceeds`). What a call still has to do is a `Call` of `System`; that its
-- push may come before its `advance_counter` only adds orders. `shutdown` is cut behind
-- `close_and_drain_pending` (`closes`) and behind the loop over the drained entries
-- (`cancels_drained`), which stand in `pending` between the two, marked `drained`; the end of
-- `join_workers` is a step too. The store to `accepting_` is one step with the close, and the test
-- of `accepting_` one with what follows it: whoever reads the flag between the two is refused
-- either way. A step draws, or advances, both counters, of IDs and of sequence numbers. `whole` is
-- what no other thread interrupts: a section that the source has as one, and the calls of `submit`,
-- `restore` and `shutdown` of a client that is alone, as the daemon makes them. A worker has a step
-- for `queue_.pop`, one for the section that marks a job as running, one for the section after the
-- slice, and one for `requeue`. The map lookups before a section are part of it, since no record is
-- ever removed. What a slice returns or throws, the answers of the journal and the outcomes of the
-- calls of the operating system are inputs, without restriction. In the daemon one thread makes the
-- calls of the engine, so that between two of them only workers act: what they do is a list of
-- their actions (`Works`) for each gap, `Meanwhile` for the gap inside a request. The observer only
-- sends events.
--
-- Bounds. Counters of 64 bits wrap around as written, `% 2 ^ 64`. `Admits` is the condition on a
-- move: a submission and a reserved identity do not wrap the counter of IDs around, `emplace` of
-- `restore` takes an ID below the counter, as `reserve_recovered_identity` leaves it, that no
-- `submit` has drawn and not yet put into the map, and an uninterrupted `submit` or `restore` is
-- made while no other is between its sections. Without the condition on `restore`, two jobs could
-- have one ID. `Fitting` asks it of the jobs of a log, `HasRoom` of the requests of a daemon. The
-- loops over bytes, words, lines, entries and write calls are recursions on a list. The loops of a
-- slice recurse on the budget that is left. `no_divisor_from` has the value as its fuel, enough
-- since each round raises the divisor, and a divisor past the value ends the loop. `to_string` has
-- one more than the number as its fuel.
--
-- From the standard. `std::priority_queue` is a list of which `top` is an element with none above
-- it, the first such. `std::sort` is insertion into a sorted list, which keeps the order of equal
-- keys, on which the standard is silent. `std::unordered_map` is an association list.
-- `std::isspace` is that of the "C" locale.
--
-- From the operating system. A descriptor is gone after `close`, whatever that returns, and a lock
-- with its last descriptor. `unlink` and `flock` with LOCK_UN may fail without notice
-- (`CleanupCalls`). A repair of the log that fails leaves the file as it was; that `ftruncate` cut
-- the tail off before `fsync` failed is not modelled.
--
-- Not modelled: apps/kronos_demo.cpp and the benchmark, `main`, the usage texts and signal handlers
-- of the programs, what is drawn on the terminal, the time stamps, the opening of the log file, and
-- what only observes (`JobHandle`, `worker_count`, `scheduler_config`).
pub mod Base
pub mod Types
pub mod Scheduler
pub mod Codec
pub mod Protocol
pub mod Journal
pub mod Wal
pub mod Engine
pub mod Daemon
pub mod Shell
pub mod Tasks
pub mod Factory
pub mod Transport
mod Tests
