-- ===== src/Tests/Log.antt =====
-- A log of src/wal.cpp with a submission and a transition.
use omni_sched.Base.{
  pos, negsuc, true, false, [], ◌∷◌, ◌++◌, ◌≡◌, refl, ok, runtime_error, All, arith,
}
use omni_sched.Types.{JobState}
use omni_sched.Wal.Append.{
  Os, wrote, interrupted, failed, append, Appends, append-Appends, append_succeeds,
}
use omni_sched.Wal.Parse.{recover_record}
use omni_sched.Wal.Recover.{recover}
use omni_sched.Wal.Replay.{WalRecord, submission, transition, line_of, log_of, IsWalRecord, apply}
use omni_sched.Wal.LineRoundTrip.{inner_of, recover_record-apply}
use omni_sched.Wal.LogRoundTrip.{report_of, recover-log_of, recover_torn}
use omni_sched.Wal.Crash.{IsAtomic, append-IsAtomic}

abbrev accepted : WalRecord
accepted = submission (pos 1000) (record {
  id = 7;
  submission_sequence = 0;
  name = b'a' ∷ [];
  priority = negsuc 2;
  estimated_work_units = 9;
  task = record { type = b's' ∷ []; payload = b'|' ∷ b'\n' ∷ [] };
})

abbrev done : WalRecord
done =
    transition (pos 1001)
      (record { id = 7; state = JobState.completed; work_units_consumed = 9; message = b'|' ∷ [] })

accepted-IsWalRecord : IsWalRecord accepted
accepted-IsWalRecord = (
  omega arith,
  record {
    id_fits = omega arith;
    id_set = λ e. omega arith;
    sequence_fits = omega arith;
    priority_fits = omega arith;
    estimate_fits = omega arith;
    estimate_set = λ e. omega arith;
    name_bytes = (omega arith, tt);
    type_bytes = (omega arith, tt);
    type_set = λ e. cc;
    payload_bytes = (omega arith, (omega arith, tt));
  },
)

done-IsWalRecord : IsWalRecord done
done-IsWalRecord = (
  omega arith,
  record {
    id_fits = omega arith;
    id_set = λ e. omega arith;
    consumed_fits = omega arith;
    message_bytes = (omega arith, tt);
  },
)

-- Both records are fit for the log.
both-IsWalRecord : All IsWalRecord (accepted ∷ done ∷ [])
both-IsWalRecord = (accepted-IsWalRecord, (done-IsWalRecord, tt))

-- A short write, an interrupted one, and a failure.
abbrev disk_full : Os
disk_full = record {
  now = pos 1001;
  writes = wrote 3 ∷ interrupted ∷ failed (runtime_error []) ∷ [];
  fsync = ok tt;
}

append-IsAtomic_example :
    IsAtomic (accepted ∷ []) done (append disk_full (line_of done) (log_of (accepted ∷ [])))
append-IsAtomic_example =
    append-IsAtomic disk_full (accepted ∷ []) done (accepted-IsWalRecord, tt) done-IsWalRecord

recover_torn_example :
    recover (ok tt) (log_of (accepted ∷ done ∷ []) ++ b'K' ∷ b'1' ∷ [])
    ≡ (log_of (accepted ∷ done ∷ []), report_of true (accepted ∷ done ∷ []))
recover_torn_example =
    recover_torn (accepted ∷ done ∷ []) (b'K' ∷ b'1' ∷ []) both-IsWalRecord (λ e. cc)
      (λ e. omega arith, (λ e. omega arith, tt))

recover-log_of_example :
    recover (ok tt) (log_of (accepted ∷ done ∷ []))
    ≡ (log_of (accepted ∷ done ∷ []), report_of false (accepted ∷ done ∷ []))
recover-log_of_example = recover-log_of (ok tt) (accepted ∷ done ∷ []) both-IsWalRecord

recover_record-apply_example : recover_record (inner_of accepted) [] ≡ apply accepted []
recover_record-apply_example = recover_record-apply accepted [] accepted-IsWalRecord

append-Appends_example : Appends (line_of done) [] (append disk_full (line_of done) [])
append-Appends_example = append-Appends disk_full (line_of done) []

-- A short write and an interrupted one.
abbrev slow_disk : Os
slow_disk = record { now = pos 1001; writes = wrote 3 ∷ interrupted ∷ []; fsync = ok tt }

append_succeeds_example : append slow_disk (line_of done) [] ≡ ([] ++ line_of done, ok tt)
append_succeeds_example = append_succeeds slow_disk (line_of done) [] tt refl
