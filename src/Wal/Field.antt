-- ===== src/Wal/Field.antt =====
-- The fields of a line of the log in src/wal.cpp, joined by separators.
use omni_sched.Base.{
  ℕ, suc, ℤ, pos, negsuc, Bytes, text, List, [], ◌∷◌, ◌++◌, ◌≡◌, ◌≢◌, All, All-mono, append_assoc,
  arith,
}
use omni_sched.Types.{JobState, state_to_string}
use omni_sched.Journal.{JobSubmissionRecord, JobTransitionRecord}
use omni_sched.Codec.Hex.{hex_encode, IsByte, IsHexDigit, hex_encode-IsHexDigit}
use omni_sched.Codec.Split.{split_at, Lacks, split_at-append, split_at_last}
use omni_sched.Codec.Number.{to_string, int_to_string, IsDigit, to_string-IsDigit}
use omni_sched.Wal.Checksum.{checksum_text, checksum_text-IsHexDigit}
use omni_sched.Wal.Line.{submission_prefix, transition_prefix}
use omni_sched.Wal.Replay.{IsSubmission, IsTransition}

-- A byte that neither separates fields nor ends a line.
abbrev pub IsField : ℕ → Type 0
IsField c = (c ≢ b'|') × (c ≢ b'\n')

pub no_bar : (s : Bytes) → All IsField s → Lacks b'|' s
no_bar = All-mono IsField (λ c. c ≢ b'|') (λ c d. d.0)

-- Fields with a bar behind each, and the last one.
abbrev pub join : List Bytes → Bytes → Bytes
join [] last = last
join (field ∷ fields) last = field ++ b'|' ∷ join fields last

pub split_at-join :
    (fields : List Bytes) (last : Bytes)
    → All (All IsField) fields
    → All IsField last
    → split_at b'|' (join fields last) ≡ fields ++ last ∷ []
split_at-join [] last h l = split_at_last b'|' last (no_bar last l)
split_at-join (f ∷ fields) last h l =
    rw (split_at-append b'|' f (join fields last) (no_bar f h.0), split_at-join fields last h.1 l)

to_string-IsField : (n : ℕ) → All IsField (to_string n)
to_string-IsField n = All-mono IsDigit IsField (λ c d. ground arith) _ (to_string-IsDigit n)

int_to_string-IsField : (z : ℤ) → All IsField (int_to_string z)
unfolding int_to_string
int_to_string-IsField (pos n) = to_string-IsField n
int_to_string-IsField (negsuc n) = (omega arith, to_string-IsField (suc n))

hex_encode-IsField : (s : Bytes) → All IsByte s → All IsField (hex_encode s)
hex_encode-IsField s h =
    All-mono IsHexDigit IsField (λ c d. ground arith) _ (hex_encode-IsHexDigit s h)

pub checksum-IsField : (value : Bytes) → All IsField (checksum_text value)
checksum-IsField value =
    All-mono IsHexDigit IsField (λ c d. ground arith) _ (checksum_text-IsHexDigit value)

state_to_string-IsField : (s : JobState) → All IsField (state_to_string s)
unfolding state_to_string text
state_to_string-IsField JobState.new = omega arith
state_to_string-IsField JobState.ready = omega arith
state_to_string-IsField JobState.running = omega arith
state_to_string-IsField JobState.completed = omega arith
state_to_string-IsField JobState.failed = omega arith
state_to_string-IsField JobState.cancelled = omega arith

abbrev pub submission_fields : ℤ → JobSubmissionRecord → List Bytes
submission_fields now r =
    int_to_string now
    ∷ to_string r.id
    ∷ to_string r.submission_sequence
    ∷ int_to_string r.priority
    ∷ to_string r.estimated_work_units
    ∷ hex_encode r.name
    ∷ hex_encode r.task.type
    ∷ hex_encode r.task.payload
    ∷ []

abbrev pub transition_fields : ℤ → JobTransitionRecord → List Bytes
transition_fields now r =
    int_to_string now
    ∷ to_string r.id
    ∷ state_to_string r.state
    ∷ to_string r.work_units_consumed
    ∷ hex_encode r.message
    ∷ []

pub submission_prefix-join :
    (now : ℤ) (r : JobSubmissionRecord) (last : Bytes)
    → submission_prefix now r ++ b'|' ∷ last
      ≡ join (text "K1" ∷ text "S" ∷ submission_fields now r) last
unfolding submission_prefix
submission_prefix-join now r last = simp append_assoc

pub transition_prefix-join :
    (now : ℤ) (r : JobTransitionRecord) (last : Bytes)
    → transition_prefix now r ++ b'|' ∷ last
      ≡ join (text "K1" ∷ text "T" ∷ transition_fields now r) last
unfolding transition_prefix
transition_prefix-join now r last = simp append_assoc

pub submission_fields-IsField :
    (now : ℤ) (r : JobSubmissionRecord)
    → IsSubmission r
    → All (All IsField) (text "K1" ∷ text "S" ∷ submission_fields now r)
unfolding text
submission_fields-IsField now r w = (
  omega arith,
  (
    omega arith,
    (
      int_to_string-IsField now,
      (
        to_string-IsField r.id,
        (
          to_string-IsField r.submission_sequence,
          (
            int_to_string-IsField r.priority,
            (
              to_string-IsField r.estimated_work_units,
              (
                hex_encode-IsField r.name w.name_bytes,
                (
                  hex_encode-IsField r.task.type w.type_bytes,
                  (hex_encode-IsField r.task.payload w.payload_bytes, tt),
                ),
              ),
            ),
          ),
        ),
      ),
    ),
  ),
)

pub transition_fields-IsField :
    (now : ℤ) (r : JobTransitionRecord)
    → IsTransition r
    → All (All IsField) (text "K1" ∷ text "T" ∷ transition_fields now r)
unfolding text
transition_fields-IsField now r w = (
  omega arith,
  (
    omega arith,
    (
      int_to_string-IsField now,
      (
        to_string-IsField r.id,
        (
          state_to_string-IsField r.state,
          (
            to_string-IsField r.work_units_consumed,
            (hex_encode-IsField r.message w.message_bytes, tt),
          ),
        ),
      ),
    ),
  ),
)
