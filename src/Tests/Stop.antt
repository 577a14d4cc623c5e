-- ===== src/Tests/Stop.antt =====
-- A daemon of apps/kronos_engine.cpp that is given a job, is asked to stop and drains.
use omni_sched.Daemon.Loop.{serve_all, serve, ends_round, stopped}
use omni_sched.Daemon.Request.{
  handle_request, handle_fields, execute, handle_submit, parse_submit, required_arguments,
  submit_priority, submit_created, submitted, handle_shutdown, answer, caught, after_response,
}
use omni_sched.Daemon.State.{respond, response, observe, work_all}
use omni_sched.Transport.Endpoint.{send, send_encoded, next_outcomes}
use omni_sched.Transport.Line.{send_line, write_loop}
use omni_sched.Protocol.Message.{encode_message, encode_fields, holds_line_byte, protocol_version}
use omni_sched.Codec.Hex.{hex_encode, hex_digit}
use omni_sched.Codec.Number.{to_string, int_to_string, from_chars, is_digit, scan_digits}
use omni_sched.Factory.Create.{
  create_for_submission, create_step, make_step, parse_positive, parsed_positive, parse_nonnegative,
  parsed_nonnegative, step_created, step_payload,
}
use omni_sched.Engine.Submit.{
  submit_begin, submission_snapshot, submission_entry, take_identity, durable_spec, journaled,
  accept, journal_with_spec, journal_submission, submit_end, take_pending, push_pending, finish_in,
}
use omni_sched.Engine.State.{enter, put_record}
use omni_sched.Engine.Registry.{store, emplace}
use omni_sched.Engine.Job.{
  publish, transition_record, after_append, persist_transition_locked, finish_after, finish_locked,
}
use omni_sched.Engine.Queue.{push_external, dispatch, close_and_drain_pending}
use omni_sched.Engine.Control.{shutdown_begin, cancels_pending, cancel_all, join_workers}
use omni_sched.Engine.Worker.{
  slice_result, is_ready, after_pop, fetch, consume, started as started_slice, start_found, start,
  ended, settle, finish_found, finish_slice,
}
use omni_sched.Engine.Step.{fetched, place, worker_step, work}
use omni_sched.Wal.Append.{append_submission, append_transition, append}
use omni_sched.Wal.Line.{submission_line, transition_line, submission_prefix, transition_prefix}
use omni_sched.Wal.Checksum.{with_checksum, checksum_text, crc32}
use omni_sched.Types.{state_to_string}
use omni_sched.Base.{text_eq}
use omni_sched.Base.{text, pos, true, false, some, List, [], ◌∷◌, ◌≡◌, refl, inl, ok, arith}
use omni_sched.Types.{JobState, SchedulerKind, SchedulerConfig, slice_completed}
use omni_sched.Scheduler
use omni_sched.Scheduler.{make_scheduler}
use omni_sched.Scheduler.Fifo
use omni_sched.Wal.Append.{WalManager, wal_journal}
use omni_sched.Engine.Queue
use omni_sched.Engine.Job.{JobRecord, new_record}
use omni_sched.Engine.Registry.{find_record}
use omni_sched.Engine.State
use omni_sched.Engine.State.{Engine, Worker}
use omni_sched.Engine.Control.{all_exited}
use omni_sched.Engine.Worker.{returns}
use omni_sched.Engine.Outcome.{IsEnded}
use omni_sched.Engine.Invariant.{init-Accounted}
use omni_sched.Daemon.State.{Daemon, Works, Meanwhile}
use omni_sched.Daemon.Quiet.{IsQuiet}
use omni_sched.Daemon.Loop.{Event, requests, times_out, serve_loop, shut_down, join}
use omni_sched.Daemon.Stop.{HasRoom, join-IsEnded}

abbrev plain : SchedulerConfig
plain = record { kind = SchedulerKind.fifo; quantum = 100 }

-- The engine has taken a job into its queue.
abbrev started : Engine WalManager
started = record {
  queue = record {
    scheduler = Scheduler.fifo (record { entries = [] });
    config = plain;
    closed = false;
  };
  records = [];
  next_job_id = 1;
  next_sequence = 0;
  accepting = true;
  journal = some (record { file = []; calls = [] });
  workers = Worker.idle ∷ [];
  pending = [];
}

started_lem : State.init plain 1 (some (record { file = []; calls = [] })) ≡ ok started
unfolding State.init Queue.init make_scheduler Fifo.init State.idle_workers
started_lem = refl

started-IsQuiet : IsQuiet started
started-IsQuiet = (
  (
    λ x. init-Accounted x plain 1 (some (record { file = []; calls = [] })) started started_lem,
    tt,
    inl (unfold all_exited in refl),
  ),
  refl,
)

abbrev daemon : Daemon
daemon = record {
  server = record { pipe = []; calls = [] };
  engine = started;
  observers = [];
  recovered_count = 0;
  stop_requested = false;
}

abbrev meanwhile : Meanwhile
meanwhile = record { works = []; repair = ok tt }

abbrev events : List Event
events =
    requests meanwhile (record {
      request_id = 1;
      kind = text "REQUEST";
      fields = text "submit" ∷ text "step" ∷ text "1" ∷ text "0" ∷ [];
    })
    ∷ times_out
    ∷ requests meanwhile
        (record { request_id = 2; kind = text "REQUEST"; fields = text "shutdown" ∷ [] })
    ∷ []

-- The worker fetches the job, runs its slice, and finds the queue drained.
abbrev works : Works
works =
    (0, returns (slice_completed (text "done") 1))
    ∷ (0, returns (slice_completed (text "done") 1))
    ∷ (0, returns (slice_completed (text "done") 1))
    ∷ (0, returns (slice_completed (text "done") 1))
    ∷ []

abbrev drained : Daemon
drained = shut_down works (serve_loop events (daemon, false)).0

abbrev finished : Daemon
finished = record drained { engine = record (drained.engine) { workers = [] } }

all_gone : all_exited drained.engine.workers ≡ true
unfolding join shut_down serve_loop serve_all serve ends_round stopped handle_request handle_fields
    execute handle_submit parse_submit required_arguments submit_priority submit_created submitted
    handle_shutdown answer caught after_response respond response observe work_all send send_encoded
    next_outcomes send_line write_loop encode_message encode_fields holds_line_byte protocol_version
    hex_encode hex_digit to_string int_to_string from_chars is_digit scan_digits
    create_for_submission create_step make_step parse_positive parsed_positive parse_nonnegative
    parsed_nonnegative step_created step_payload submit_begin submission_snapshot submission_entry
    take_identity durable_spec journaled accept journal_with_spec journal_submission submit_end
    take_pending push_pending finish_in enter put_record find_record store emplace new_record
    publish transition_record after_append persist_transition_locked finish_after finish_locked
    push_external dispatch close_and_drain_pending shutdown_begin cancels_pending cancel_all
    all_exited join_workers slice_result is_ready after_pop fetch consume started_slice start_found
    start ended settle finish_found finish_slice fetched place worker_step work append_submission
    append_transition append submission_line transition_line submission_prefix transition_prefix
    with_checksum checksum_text crc32 slice_completed state_to_string text text_eq Scheduler.push
    Scheduler.pop Scheduler.empty Scheduler.slice_budget Queue.pop Fifo.push Fifo.pop Fifo.empty
    Fifo.slice_budget
all_gone = refl

join_returns : join drained ≡ some finished
unfolding join join_workers
join_returns = rw (join, join_workers, all_gone)

has_room : HasRoom events (daemon, false)
unfolding join shut_down serve_loop serve_all serve ends_round stopped handle_request handle_fields
    execute handle_submit parse_submit required_arguments submit_priority submit_created submitted
    handle_shutdown answer caught after_response respond response observe work_all send send_encoded
    next_outcomes send_line write_loop encode_message encode_fields holds_line_byte protocol_version
    hex_encode hex_digit to_string int_to_string from_chars is_digit scan_digits
    create_for_submission create_step make_step parse_positive parsed_positive parse_nonnegative
    parsed_nonnegative step_created step_payload submit_begin submission_snapshot submission_entry
    take_identity durable_spec journaled accept journal_with_spec journal_submission submit_end
    take_pending push_pending finish_in enter put_record find_record store emplace new_record
    publish transition_record after_append persist_transition_locked finish_after finish_locked
    push_external dispatch close_and_drain_pending shutdown_begin cancels_pending cancel_all
    all_exited join_workers slice_result is_ready after_pop fetch consume started_slice start_found
    start ended settle finish_found finish_slice fetched place worker_step work append_submission
    append_transition append submission_line transition_line submission_prefix transition_prefix
    with_checksum checksum_text crc32 slice_completed state_to_string text text_eq Scheduler.push
    Scheduler.pop Scheduler.empty Scheduler.slice_budget Queue.pop Fifo.push Fifo.pop Fifo.empty
    Fifo.slice_budget
has_room = (omega arith, (omega arith, (omega arith, tt)))

abbrev job : JobRecord
job = record {
  snapshot = record {
    id = 1;
    name = text "step-1";
    state = JobState.completed;
    priority = pos 0;
    estimated_work_units = 1;
    work_units_consumed = 1;
    submission_sequence = 0;
    message = text "done";
  };
  entry = record { id = 1; priority = pos 0; estimated_work_units = 1; submission_sequence = 0 };
  stop_requested = false;
  promise =
      record { id = 1; state = JobState.completed; message = text "done"; work_units_consumed = 1 }
      ∷ [];
  result_published = true;
}

job_found : find_record 1 finished.engine.records ≡ some job
unfolding join shut_down serve_loop serve_all serve ends_round stopped handle_request handle_fields
    execute handle_submit parse_submit required_arguments submit_priority submit_created submitted
    handle_shutdown answer caught after_response respond response observe work_all send send_encoded
    next_outcomes send_line write_loop encode_message encode_fields holds_line_byte protocol_version
    hex_encode hex_digit to_string int_to_string from_chars is_digit scan_digits
    create_for_submission create_step make_step parse_positive parsed_positive parse_nonnegative
    parsed_nonnegative step_created step_payload submit_begin submission_snapshot submission_entry
    take_identity durable_spec journaled accept journal_with_spec journal_submission submit_end
    take_pending push_pending finish_in enter put_record find_record store emplace new_record
    publish transition_record after_append persist_transition_locked finish_after finish_locked
    push_external dispatch close_and_drain_pending shutdown_begin cancels_pending cancel_all
    all_exited join_workers slice_result is_ready after_pop fetch consume started_slice start_found
    start ended settle finish_found finish_slice fetched place worker_step work append_submission
    append_transition append submission_line transition_line submission_prefix transition_prefix
    with_checksum checksum_text crc32 slice_completed state_to_string text text_eq Scheduler.push
    Scheduler.pop Scheduler.empty Scheduler.slice_budget Queue.pop Fifo.push Fifo.pop Fifo.empty
    Fifo.slice_budget
job_found = refl

join-IsEnded_example : IsEnded job
join-IsEnded_example =
    join-IsEnded events false works daemon finished started-IsQuiet has_room join_returns 1 job
      job_found
