-- ===== src/Daemon/Report.antt =====
-- The tables of apps/kronos_engine.cpp: `format_snapshots` and `format_history`.
use omni_sched.Base.{
  ℕ, zero, suc, ◌+◌, ◌-◌, Bytes, text, Bool, true, false, List, [], ◌∷◌, ◌++◌, length, ◌==◌, not,
  if◌then◌else◌,
}
use omni_sched.Types.{JobSnapshot, is_terminal, state_to_string}
use omni_sched.Codec.Number.{to_string, int_to_string}
use omni_sched.Wal.Parse.{RecoveredJob, RecoveryReport}

unfoldable pub spaces : ℕ → Bytes
spaces zero = []
spaces (suc n) = b' ' ∷ spaces n

-- `std::left << std::setw(width) << value`.
unfoldable pub setw : ℕ → Bytes → Bytes
setw width value = value ++ spaces (width - length value)

abbrev pub same : Bool → Bool → Bool
same true b = b
same false b = not b

unfoldable pub snapshot_header : Bytes
snapshot_header =
    setw 6 (text "ID")
    ++ (setw 20 (text "NAME")
        ++ (setw 12 (text "STATE") ++ (setw 10 (text "PRIORITY") ++ text "WORK\n")))

unfoldable pub snapshot_row : JobSnapshot → Bytes
snapshot_row job =
    setw 6 (to_string job.id)
    ++ (setw 20 job.name
        ++ (setw 12 (state_to_string job.state)
            ++ (setw 10 (int_to_string job.priority)
                ++ (to_string job.work_units_consumed
                    ++ b'/' ∷ (to_string job.estimated_work_units ++ b'\n' ∷ [])))))

-- The loop: the number of rows and the text.
unfoldable pub snapshot_loop : Bool → List JobSnapshot → ℕ → Bytes → ℕ × Bytes
snapshot_loop terminal [] count output = (count, output)
snapshot_loop terminal (job ∷ jobs) count output = elim (same (is_terminal job.state) terminal) [
  | false ↦ snapshot_loop terminal jobs count output
  | true ↦ snapshot_loop terminal jobs (count + 1) (output ++ snapshot_row job)
]

unfoldable pub format_snapshots : List JobSnapshot → Bool → Bytes
format_snapshots jobs terminal =
    let (count, output) = snapshot_loop terminal jobs 0 snapshot_header in
    if count == 0
    then (if terminal then text "No completed jobs." else text "No active jobs.")
    else output

unfoldable pub history_header : Bytes
history_header =
    setw 6 (text "ID") ++ (setw 20 (text "NAME") ++ (setw 12 (text "STATE") ++ text "RESULT\n"))

unfoldable pub history_row : RecoveredJob → Bytes
history_row job =
    setw 6 (to_string job.submission.id)
    ++ (setw 20 job.submission.name
        ++ (setw 12 (state_to_string job.state) ++ (job.message ++ b'\n' ∷ [])))

unfoldable pub history_loop : List RecoveredJob → ℕ → Bytes → ℕ × Bytes
history_loop [] count output = (count, output)
history_loop (job ∷ jobs) count output = elim (is_terminal job.state) [
  | false ↦ history_loop jobs count output
  | true ↦ history_loop jobs (count + 1) (output ++ history_row job)
]

unfoldable pub format_history : RecoveryReport → Bytes
format_history report =
    let (count, output) = history_loop report.jobs 0 history_header in
    if count == 0 then text "No completed jobs." else output
