-- ===== src/Tests/Daemon.antt =====
-- A daemon of apps/kronos_engine.cpp with one worker: it starts over a log, serves requests and stops.
use omni_sched.Base.{
  Bytes, text, text_eq, true, false, some, List, [], ◌∷◌, ◌≡◌, refl, inl, ok, arith,
}
use omni_sched.Types.{SchedulerKind, SchedulerConfig}
use omni_sched.Scheduler
use omni_sched.Scheduler.{make_scheduler}
use omni_sched.Scheduler.Fifo
use omni_sched.Protocol.Message.{ProtocolMessage}
use omni_sched.Wal.Append.{WalManager, wal_journal}
use omni_sched.Engine.Queue
use omni_sched.Engine.State
use omni_sched.Engine.State.{Engine, Worker}
use omni_sched.Engine.Control.{all_exited}
use omni_sched.Engine.Invariant.{init-Accounted}
use omni_sched.Daemon.State.{Daemon, Meanwhile}
use omni_sched.Daemon.Request.{handle_request}
use omni_sched.Daemon.Options.{
  DaemonOptions, default_options, parse_options, completed, parse_arguments, apply_option,
  require_value, parse_positive_size, parse_integer, parsed, parse_scheduler, with_wal_path,
}
use omni_sched.Codec.Number.{from_chars, is_digit, scan_digits, to_string}
use omni_sched.Transport.Paths.{default_ipc_directory, join_path, ends_open}
use omni_sched.Daemon.Bounds.{IsUsable, parse_options-IsUsable}
use omni_sched.Daemon.Reply.{Answered, reply, handle_request-Answered}
use omni_sched.Daemon.Quiet.{IsQuiet}
use omni_sched.Daemon.Sound.{handle_request-IsQuiet}

abbrev plain : SchedulerConfig
plain = record { kind = SchedulerKind.fifo; quantum = 100 }

abbrev empty_log : WalManager
empty_log = record { file = []; calls = [] }

abbrev started : Engine WalManager
started = record {
  queue = record {
    scheduler = Scheduler.fifo (record { entries = [] });
    config = plain;
    closed = false;
  };
  records = [];
  next_job_id = 1;
  next_sequence = 0;
  accepting = true;
  journal = some empty_log;
  workers = Worker.idle ∷ [];
  pending = [];
}

started_lem : State.init plain 1 (some empty_log) ≡ ok started
unfolding State.init Queue.init make_scheduler Fifo.init State.idle_workers
started_lem = refl

started-IsQuiet : IsQuiet started
started-IsQuiet = (
  (
    λ x. init-Accounted x plain 1 (some empty_log) started started_lem,
    tt,
    inl (unfold all_exited in refl),
  ),
  refl,
)

abbrev daemon : Daemon
daemon = record {
  server = record { pipe = []; calls = [] };
  engine = started;
  observers = [];
  recovered_count = 0;
  stop_requested = false;
}

abbrev submit : ProtocolMessage
submit = record {
  request_id = 7;
  kind = text "REQUEST";
  fields = text "submit" ∷ text "step" ∷ text "1" ∷ text "0" ∷ [];
}

abbrev meanwhile : Meanwhile
meanwhile = record { works = []; repair = ok tt }

handle_request-Answered_example :
    Answered 7 (reply meanwhile submit daemon) [] (handle_request meanwhile submit daemon)
handle_request-Answered_example = handle_request-Answered meanwhile submit daemon tt

handle_request-IsQuiet_example : IsQuiet (handle_request meanwhile submit daemon).0.engine
handle_request-IsQuiet_example =
    handle_request-IsQuiet meanwhile submit daemon (omega arith) started-IsQuiet

abbrev arguments : List Bytes
arguments = text "--workers" ∷ text "4" ∷ text "--scheduler" ∷ text "rr" ∷ []

abbrev options : DaemonOptions
options = record {
  ipc_directory = text "/tmp/kronos-1000";
  wal_path = some (text "/tmp/kronos-1000/kronos.wal");
  workers = 4;
  scheduler = record { kind = SchedulerKind.round_robin; quantum = 100 };
}

parsed_arguments : parse_options (default_options (text "/tmp") 1000) arguments ≡ ok (some options)
unfolding parse_options completed parse_arguments apply_option text_eq text require_value
    parse_positive_size parse_integer parsed from_chars is_digit scan_digits parse_scheduler
    with_wal_path default_options default_ipc_directory join_path ends_open to_string
parsed_arguments = refl

parse_options-IsUsable_example : IsUsable options
parse_options-IsUsable_example =
    parse_options-IsUsable (text "/tmp") 1000 arguments options parsed_arguments
