-- ===== src/Daemon/Loop.antt =====
-- `run` of apps/kronos_engine.cpp.
use omni_sched.Base.{
  Bool, true, false, Option, none, some, List, [], ◌∷◌, if◌then◌else◌, ◌&&◌, ◌||◌, Error,
}
use omni_sched.Types.{ShutdownMode, JobResult}
use omni_sched.Protocol.Message.{ProtocolMessage}
use omni_sched.Wal.Append.{wal_journal}
use omni_sched.Engine.Control.{shutdown_begin, join_workers}
use omni_sched.Daemon.State.{Daemon, Works, Meanwhile, work_all, notify}
use omni_sched.Daemon.Request.{handle_request}

-- What happens next around the loop's thread.
pub data Event : Type 0 where
  -- `receive` returns a request
  requests : Meanwhile → ProtocolMessage → Event
  -- it returns nothing in time, or throws
  times_out : Event
  fails : Error → Event
  -- SIGINT or SIGTERM
  signals : Event
  -- worker threads go on
  proceeds : Works → Event
  -- an observer's job has its result
  announces : JobResult → Event

-- The loop's thread and the signal flag.
unfoldable pub serve : Event → Daemon × Bool → Daemon × Bool
serve (requests meanwhile request) (d, signal) = ((handle_request meanwhile request d).0, signal)
serve times_out (d, signal) = (d, signal)
serve (fails error) (d, signal) = (d, signal)
serve signals (d, signal) = (d, true)
serve (proceeds works) (d, signal) = (record d { engine = work_all works d.engine }, signal)
serve (announces result) (d, signal) = (notify result d, signal)

-- The end of a round: `receive` came back, and what it returned was handled.
unfoldable pub ends_round : Event → Bool
ends_round (requests meanwhile request) = true
ends_round times_out = true
ends_round (fails error) = true
ends_round _ = false

unfoldable pub stopped : Daemon × Bool → Bool
stopped (d, signal) = d.stop_requested || signal

-- The rounds over what happens: the state in which the loop is left, or in which it waits for more.
-- The condition is looked at between two rounds only.
unfoldable pub serve_all : List Event → Daemon × Bool → Daemon × Bool
serve_all [] s = s
serve_all (event ∷ events) s = elim (ends_round event && stopped (serve event s)) [
  | true ↦ serve event s
  | false ↦ serve_all events (serve event s)
]

-- `while (!stop_requested_ && signal_requested == 0)`.
unfoldable pub serve_loop : List Event → Daemon × Bool → Daemon × Bool
serve_loop events s = if stopped s then s else serve_all events s

-- `engine_.shutdown(Drain)` up to the join, and the workers until it.
unfoldable pub shut_down : Works → Daemon → Daemon
shut_down works d = record d {
  engine = work_all works (shutdown_begin ShutdownMode.drain d.engine);
}

-- The join; `none` while a worker is not gone.
unfoldable pub join : Daemon → Option Daemon
join d = elim (join_workers d.engine) [ none ↦ none | some e ↦ some (record d { engine = e }) ]
