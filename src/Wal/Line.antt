-- ===== src/Wal/Line.antt =====
-- The lines of the log: what `append_submission` and `append_transition` of src/wal.cpp write.
use omni_sched.Base.{
  ℤ, Bytes, text, is_empty, ◌∷◌, ◌++◌, ◌||◌, ◌==◌, not, invalid_argument, Result, ok, ◌>>◌, guard,
}
use omni_sched.Types.{state_to_string}
use omni_sched.Journal.{JobSubmissionRecord, JobTransitionRecord}
use omni_sched.Codec.Hex.{hex_encode}
use omni_sched.Codec.Number.{to_string, int_to_string}
use omni_sched.Wal.Checksum.{with_checksum}

-- `now` is `current_unix_milliseconds()`.
unfoldable pub submission_prefix : ℤ → JobSubmissionRecord → Bytes
submission_prefix now record' =
    text "K1"
    ++ b'|'
      ∷ (text "S"
          ++ b'|'
            ∷ (int_to_string now
                ++ b'|'
                  ∷ (to_string record'.id
                      ++ b'|'
                        ∷ (to_string record'.submission_sequence
                            ++ b'|'
                              ∷ (int_to_string record'.priority
                                  ++ b'|'
                                    ∷ (to_string record'.estimated_work_units
                                        ++ b'|'
                                          ∷ (hex_encode record'.name
                                              ++ b'|'
                                                ∷ (hex_encode record'.task.type
                                                    ++ b'|'
                                                      ∷ hex_encode record'.task.payload))))))))

unfoldable pub transition_prefix : ℤ → JobTransitionRecord → Bytes
transition_prefix now record' =
    text "K1"
    ++ b'|'
      ∷ (text "T"
          ++ b'|'
            ∷ (int_to_string now
                ++ b'|'
                  ∷ (to_string record'.id
                      ++ b'|'
                        ∷ (state_to_string record'.state
                            ++ b'|'
                              ∷ (to_string record'.work_units_consumed
                                  ++ b'|' ∷ hex_encode record'.message)))))

-- The line of a submission, or the exception for a record that recovery would refuse.
unfoldable pub submission_line : ℤ → JobSubmissionRecord → Result Bytes
submission_line now record' = do
  guard (not (record'.id == 0 || record'.estimated_work_units == 0 || is_empty record'.task.type))
      (invalid_argument (text "invalid durable submission record"))
  ok (with_checksum (submission_prefix now record'))

unfoldable pub transition_line : ℤ → JobTransitionRecord → Result Bytes
transition_line now record' = do
  guard (not (record'.id == 0)) (invalid_argument (text "invalid durable transition record"))
  ok (with_checksum (transition_prefix now record'))
