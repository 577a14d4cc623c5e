-- ===== src/Daemon/State.antt =====
-- `Daemon` of apps/kronos_engine.cpp: its state, the answers and the waiting for results.
use omni_sched.Base.{
  ℕ, Bytes, text, Bool, none, some, List, [], ◌∷◌, ◌++◌, logic_error, Result, err, get_elem?,
}
use omni_sched.Types.{JobResult, state_to_string}
use omni_sched.Codec.Number.{to_string}
use omni_sched.Protocol.Message.{ProtocolMessage}
use omni_sched.Transport.Endpoint.{Outlet, send}
use omni_sched.Wal.Append.{WalManager, wal_journal}
use omni_sched.Wal.Parse.{RecoveryReport}
use omni_sched.Wal.Recover.{recover}
use omni_sched.Engine.State.{Engine}
use omni_sched.Engine.Worker.{Slice}
use omni_sched.Engine.Step.{work}

-- The log is the engine's journal. `observers` holds the jobs for which a thread waits.
pub record Daemon : Type 0 where
  pub server : Outlet
  pub engine : Engine WalManager
  pub observers : List ℕ
  pub recovered_count : ℕ
  pub stop_requested : Bool

-- The steps of worker threads, the only other threads that act on the engine: which worker, and how
-- its slice ends if it is in one.
abbrev pub Works : Type 0
Works = List (ℕ × Slice)

unfoldable pub work_all : Works → Engine WalManager → Engine WalManager
work_all [] e = e
work_all ((k, slice) ∷ works) e = work_all works (work k slice (get_elem? e.workers k) e)

-- What a request meets: what the workers do between two calls of the engine, and the outcome of the
-- repair that a reading of the log may need.
pub record Meanwhile : Type 0 where
  pub works : Works
  pub repair : Result (Unit {0})

-- `wal_->recover()`. The engine of a daemon has a journal.
unfoldable pub recover_log :
    Result (Unit {0}) → Engine WalManager → Engine WalManager × Result RecoveryReport
recover_log repair e = elim (e.journal) [
  | none ↦ (e, err (logic_error (text "no journal")))
  | some wal ↦
      (let (file, report) = recover repair wal.file in
        (record e { journal = some (record wal { file = file }) }, report))
]

unfoldable pub response : ℕ → Bytes → Bytes → ProtocolMessage
response request_id kind message = record {
  request_id = request_id;
  kind = kind;
  fields = message ∷ [];
}

unfoldable pub respond : ℕ → Bytes → Bytes → Daemon → Daemon × Result (Unit {0})
respond request_id kind message d =
    let (server, result) = send (response request_id kind message) d.server in
    (record d { server = server }, result)

-- `observe`: a thread waits for the job's result.
unfoldable pub observe : ℕ → Daemon → Daemon
observe id d = record d { observers = d.observers ++ id ∷ [] }

unfoldable pub event : JobResult → ProtocolMessage
event result = record {
  request_id = 0;
  kind = text "EVENT";
  fields =
      (text "job "
        ++ (to_string result.id
            ++ (text " " ++ (state_to_string result.state ++ (text ": " ++ result.message)))))
      ∷ [];
}

-- An observer whose job has its result announces it; an exception is only reported.
unfoldable pub notify : JobResult → Daemon → Daemon
notify result d = record d { server = (send (event result) d.server).0 }
