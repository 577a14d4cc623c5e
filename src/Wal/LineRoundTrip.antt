-- ===== src/Wal/LineRoundTrip.antt =====
-- What `recover` of src/wal.cpp makes of a line that was written for a record.
use omni_sched.Base.{
  ℕ, ◌≤◌, ℤ, Bytes, text, text_eq, is_empty, true, List, [], ◌∷◌, ◌++◌, ◌≡◌, ◌≢◌, refl, ap, ◌∙◌,
  ◌||◌, ◌==◌, not, Option-cases, inl, inr, ok, All, arith,
}
use omni_sched.Types.{JobState, state_to_string}
use omni_sched.Journal.{JobSubmissionRecord, JobTransitionRecord}
use omni_sched.Codec.Hex.{hex_encode, IsByte, hex_decode-hex_encode}
use omni_sched.Codec.Split.{split_at}
use omni_sched.Codec.Number.{
  max_u64, to_string, int_to_string, from_chars-to_string, from_chars_signed-int_to_string, InRange,
}
use omni_sched.Wal.Checksum.{checksum_text, back, validate_checksum_lem}
use omni_sched.Wal.Line.{submission_prefix, transition_prefix}
use omni_sched.Wal.Parse.{
  RecoveredJob, max_i32, max_i64, hex_decode, parse_integer, parse_signed, parse_state, find,
  apply_submission, recover_submission, recover_transition, recover_fields, recover_record,
}
use omni_sched.Wal.Replay.{
  WalRecord, submission, transition, prefix_of, IsSubmission, IsTransition, IsWalRecord, apply,
  apply_transition,
}
use omni_sched.Wal.Field.{
  IsField, join, split_at-join, checksum-IsField, submission_fields, transition_fields,
  submission_prefix-join, transition_prefix-join, submission_fields-IsField,
  transition_fields-IsField,
}

parse_integer-to_string :
    (max n : ℕ) (name : Bytes) → n ≤ max → parse_integer max (to_string n) name ≡ ok n
unfolding parse_integer
parse_integer-to_string max n name h = rw (from_chars-to_string max n h)

parse_signed-int_to_string :
    (max : ℕ) (z : ℤ) (name : Bytes)
    → InRange max z
    → parse_signed max (int_to_string z) name ≡ ok z
unfolding parse_signed
parse_signed-int_to_string max z name h = rw (from_chars_signed-int_to_string max z h)

parse_state-state_to_string : (s : JobState) → parse_state (state_to_string s) ≡ ok s
unfolding parse_state state_to_string text text_eq
parse_state-state_to_string JobState.new = refl
parse_state-state_to_string JobState.ready = refl
parse_state-state_to_string JobState.running = refl
parse_state-state_to_string JobState.completed = refl
parse_state-state_to_string JobState.failed = refl
parse_state-state_to_string JobState.cancelled = refl

hex_decode-encoded : (s : Bytes) → All IsByte s → hex_decode (hex_encode s) ≡ ok s
unfolding hex_decode
hex_decode-encoded s h = hex_decode-hex_encode _ _ s h

values_set :
    (a b : ℕ) (s : Bytes) → a ≢ 0 → b ≢ 0 → s ≢ [] → not (a == 0 || b == 0 || is_empty s) ≡ true
values_set a b [] h k n = absurd (n refl)
values_set a b (c ∷ s) h k n = ground arith

recover_submission_lem :
    (now : ℤ) (r : JobSubmissionRecord) (last : Bytes) (jobs : List RecoveredJob)
    → InRange max_i64 now
    → IsSubmission r
    → recover_submission (submission_fields now r ++ last ∷ []) jobs ≡ apply_submission r jobs
unfolding recover_submission
recover_submission_lem now r last jobs t w = rw (
  parse_signed-int_to_string max_i64 now _ t,
  parse_integer-to_string max_u64 r.id _ w.id_fits,
  parse_integer-to_string max_u64 r.submission_sequence _ w.sequence_fits,
  parse_signed-int_to_string max_i32 r.priority _ w.priority_fits,
  parse_integer-to_string max_u64 r.estimated_work_units _ w.estimate_fits,
  hex_decode-encoded r.name w.name_bytes,
  hex_decode-encoded r.task.type w.type_bytes,
  hex_decode-encoded r.task.payload w.payload_bytes,
  values_set r.id r.estimated_work_units r.task.type w.id_set w.estimate_set w.type_set,
)

recover_transition_lem :
    (now : ℤ) (r : JobTransitionRecord) (last : Bytes) (jobs : List RecoveredJob)
    → InRange max_i64 now
    → IsTransition r
    → recover_transition (transition_fields now r ++ last ∷ []) jobs ≡ apply_transition r jobs
unfolding recover_transition apply_transition
recover_transition_lem now r last jobs t w =
    rw
      (parse_signed-int_to_string max_i64 now _ t, parse_integer-to_string max_u64 r.id _ w.id_fits)
      (elim (Option-cases (find r.id jobs)) [
        | inl e ↦ rw (e, apply_transition)
        | inr (job, e) ↦ rw (
          e,
          apply_transition,
          parse_state-state_to_string r.state,
          parse_integer-to_string max_u64 r.work_units_consumed _ w.consumed_fits,
          hex_decode-encoded r.message w.message_bytes,
        )
      ])

-- The record without its line feed.
abbrev pub inner_of : WalRecord → Bytes
inner_of r = prefix_of r ++ b'|' ∷ checksum_text (prefix_of r)

back-append :
    (field : Bytes) (fields : List Bytes) (last : Bytes)
    → back (field ∷ (fields ++ last ∷ [])) ≡ last
unfolding back
back-append field [] last = refl
back-append field (f ∷ fields) last = back-append f fields last

-- A line passes the checksum, and the fields that were written are those that are read.
recover_record-join :
    (prefix : Bytes) (field : Bytes) (fields : List Bytes) (jobs : List RecoveredJob)
    → prefix ++ b'|' ∷ checksum_text prefix ≡ join (field ∷ fields) (checksum_text prefix)
    → All (All IsField) (field ∷ fields)
    → recover_record (prefix ++ b'|' ∷ checksum_text prefix) jobs
      ≡ recover_fields (field ∷ (fields ++ checksum_text prefix ∷ [])) jobs
unfolding recover_record
recover_record-join prefix field fields jobs e h =
    let checksum = checksum_text prefix in
    let split =
      ap (split_at b'|') e ∙ split_at-join (field ∷ fields) checksum h (checksum-IsField prefix) in
    rw (
      split,
      validate_checksum_lem prefix (field ∷ (fields ++ checksum ∷ [])) (λ n. cc)
          (back-append field fields checksum),
    )

recover_submission_fields :
    (rest : List Bytes) (jobs : List RecoveredJob)
    → recover_fields (text "K1" ∷ text "S" ∷ rest) jobs ≡ recover_submission rest jobs
unfolding recover_fields text text_eq
recover_submission_fields rest jobs = refl

recover_transition_fields :
    (rest : List Bytes) (jobs : List RecoveredJob)
    → recover_fields (text "K1" ∷ text "T" ∷ rest) jobs ≡ recover_transition rest jobs
unfolding recover_fields text text_eq
recover_transition_fields rest jobs = refl

-- A line that was written for a record has the effect of the record, its failures included.
pub recover_record-apply :
    (r : WalRecord) (jobs : List RecoveredJob)
    → IsWalRecord r
    → recover_record (inner_of r) jobs ≡ apply r jobs
unfolding apply
recover_record-apply (submission now r) jobs (t, w) =
    recover_record-join (submission_prefix now r) (text "K1") (text "S" ∷ submission_fields now r)
      jobs (submission_prefix-join now r _) (submission_fields-IsField now r w)
    ∙ recover_submission_fields _ jobs
    ∙ recover_submission_lem now r _ jobs t w
recover_record-apply (transition now r) jobs (t, w) =
    recover_record-join (transition_prefix now r) (text "K1") (text "T" ∷ transition_fields now r)
      jobs (transition_prefix-join now r _) (transition_fields-IsField now r w)
    ∙ recover_transition_fields _ jobs
    ∙ recover_transition_lem now r _ jobs t w
