-- ===== src/Tests/Restart.antt =====
-- A daemon of apps/kronos_engine.cpp that starts over a log with two jobs, one of them ended.
use omni_sched.Daemon.State.{recover_log, observe, work_all}
use omni_sched.Daemon.Recovery.{
  recover_report, recover_jobs, reserve_all, fresh_daemon, restore_all, with_works, restore_job,
  restore_with, restored,
}
use omni_sched.Engine.Submit.{
  reserve_recovered_identity, restore_begin, accept_restored, restored_entry, restored_snapshot,
  journal_restore, journaled,
}
use omni_sched.Engine.State.{advance_counter, enter}
use omni_sched.Engine.Registry.{find_record, emplace}
use omni_sched.Engine.Job.{new_record}
use omni_sched.Factory.Create.{
  restore, restore_step, make_step, split_payload, parse_positive, parsed_positive,
  parse_nonnegative, parsed_nonnegative, task_of, step_created,
}
use omni_sched.Wal.Append.{append_transition, append}
use omni_sched.Wal.Line.{transition_line}
use omni_sched.Base.{sort_by, text_eq, what}
use omni_sched.Codec.Hex.{hex_byte, hex_decode_with, hex_digit, hex_encode, hex_pairs, hex_value}
use omni_sched.Codec.Number.{
  from_chars, from_chars_signed, int_to_string, is_digit, scan_digits, to_string,
}
use omni_sched.Codec.Split.{before_last, split_at}
use omni_sched.Types.{state_to_string}
use omni_sched.Wal.Checksum.{back, checksum_text, crc32, validate_checksum, with_checksum}
use omni_sched.Wal.Line.{submission_prefix, transition_prefix}
use omni_sched.Wal.Parse.{
  apply_submission, at_line, find, hex_decode, parse_integer, parse_signed, parse_state,
  recover_fields, recover_line, recover_record, recover_submission, recover_transition, update,
}
use omni_sched.Wal.Recover.{complete_lines, has_incomplete_tail, make_report, recover_loop}
use omni_sched.Base.{text, pos, true, false, some, [], ◌∷◌, ◌≡◌, refl, ap, ok, arith}
use omni_sched.Types.{JobState, SchedulerKind, SchedulerConfig}
use omni_sched.Scheduler
use omni_sched.Scheduler.{make_scheduler}
use omni_sched.Scheduler.Fifo
use omni_sched.Wal.Append.{WalManager, wal_journal}
use omni_sched.Wal.Parse.{RecoveryReport}
use omni_sched.Wal.Recover.{recover}
use omni_sched.Wal.Replay.{WalRecord, submission, transition, log_of}
use omni_sched.Transport.Endpoint.{Outlet}
use omni_sched.Engine.Queue
use omni_sched.Engine.State
use omni_sched.Engine.State.{Engine, Worker}
use omni_sched.Daemon.State.{Daemon}
use omni_sched.Daemon.Recovery.{construct}
use omni_sched.Daemon.Start.{Recovers, construct-Recovers}

abbrev plain : SchedulerConfig
plain = record { kind = SchedulerKind.fifo; quantum = 100 }

abbrev old : WalRecord
old = submission (pos 5) (record {
  id = 4;
  submission_sequence = 0;
  name = text "a";
  priority = pos 0;
  estimated_work_units = 9;
  task = record { type = text "step"; payload = text "9,0" };
})

abbrev old_end : WalRecord
old_end =
    transition (pos 6) (record {
      id = 4;
      state = JobState.completed;
      work_units_consumed = 9;
      message = text "done";
    })

abbrev young : WalRecord
young = submission (pos 7) (record {
  id = 5;
  submission_sequence = 1;
  name = text "b";
  priority = pos 0;
  estimated_work_units = 1;
  task = record { type = text "step"; payload = text "1,0" };
})

abbrev wal : WalManager
wal = record { file = log_of (old ∷ old_end ∷ young ∷ []); calls = [] }

abbrev started : Engine WalManager
started = record {
  queue = record {
    scheduler = Scheduler.fifo (record { entries = [] });
    config = plain;
    closed = false;
  };
  records = [];
  next_job_id = 1;
  next_sequence = 0;
  accepting = true;
  journal = some wal;
  workers = Worker.idle ∷ [];
  pending = [];
}

started_lem : State.init plain 1 (some wal) ≡ ok started
unfolding State.init Queue.init make_scheduler Fifo.init State.idle_workers
started_lem = refl

abbrev report : RecoveryReport
report = record {
  jobs =
      record {
        submission = record {
          id = 4;
          submission_sequence = 0;
          name = text "a";
          priority = pos 0;
          estimated_work_units = 9;
          task = record { type = text "step"; payload = text "9,0" };
        };
        state = JobState.completed;
        work_units_consumed = 9;
        message = text "done";
      }
      ∷ record {
        submission = record {
          id = 5;
          submission_sequence = 1;
          name = text "b";
          priority = pos 0;
          estimated_work_units = 1;
          task = record { type = text "step"; payload = text "1,0" };
        };
        state = JobState.ready;
        work_units_consumed = 0;
        message = [];
      }
      ∷ [];
  ignored_incomplete_tail = false;
}

recovered : (recover (ok tt) (log_of (old ∷ old_end ∷ young ∷ []))).1 ≡ ok report
unfolding recover sort_by text_eq what hex_byte hex_decode_with hex_digit hex_encode hex_pairs
    hex_value from_chars from_chars_signed int_to_string is_digit scan_digits to_string before_last
    split_at state_to_string back checksum_text crc32 validate_checksum with_checksum
    submission_prefix transition_prefix apply_submission at_line find hex_decode parse_integer
    parse_signed parse_state recover_fields recover_line recover_record recover_submission
    recover_transition update complete_lines has_incomplete_tail make_report recover_loop text
    log_of
recovered = refl

abbrev server : Outlet
server = record { pipe = []; calls = [] }

abbrev restarted : Daemon
restarted = (construct (ok tt) [] server started).0

no_exception : (construct (ok tt) [] server started).1 ≡ ok tt
unfolding recover sort_by text_eq what hex_byte hex_decode_with hex_digit hex_encode hex_pairs
    hex_value from_chars from_chars_signed int_to_string is_digit scan_digits to_string before_last
    split_at state_to_string back checksum_text crc32 validate_checksum with_checksum
    submission_prefix transition_prefix apply_submission at_line find hex_decode parse_integer
    parse_signed parse_state recover_fields recover_line recover_record recover_submission
    recover_transition update complete_lines has_incomplete_tail make_report recover_loop text
    log_of construct recover_report recover_log recover_jobs reserve_all reserve_recovered_identity
    advance_counter fresh_daemon restore_all with_works restore_job restore_with restored observe
    restore restore_step make_step split_payload parse_positive parsed_positive parse_nonnegative
    parsed_nonnegative task_of step_created restore_begin accept_restored restored_entry
    restored_snapshot journal_restore journaled find_record enter emplace new_record
    append_transition transition_line append work_all
no_exception = refl

construct-Recovers_example : Recovers report restarted
construct-Recovers_example =
    construct-Recovers plain 0 wal (ok tt) [] server started report restarted started_lem recovered
      (omega arith) (ap (λ r. (restarted, r)) no_exception)
