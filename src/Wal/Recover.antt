-- ===== src/Wal/Recover.antt =====
-- `recover` of src/wal.cpp over the whole file.
use omni_sched.Base.{
  ℕ, ◌+◌, Bytes, Bool, true, false, List, [], ◌∷◌, ◌++◌, none, some, ◌==◌, not, if◌then◌else◌,
  Result, ok, err, ◌>>=◌, sort_by,
}
use omni_sched.Codec.Split.{before_last}
use omni_sched.Wal.Parse.{RecoveredJob, RecoveryReport, recover_line}

-- `!contents.empty() && contents.back() != '\n'`.
unfoldable pub has_incomplete_tail : Bytes → Bool
has_incomplete_tail [] = false
has_incomplete_tail (c ∷ []) = not (c == b'\n')
has_incomplete_tail (c ∷ d ∷ s) = has_incomplete_tail (d ∷ s)

-- `contents.resize(valid_size)`: up to the last line feed.
unfoldable pub complete_lines : Bytes → Bytes
complete_lines contents = elim (before_last b'\n' contents) [
  | none ↦ []
  | some lines ↦ lines ++ b'\n' ∷ []
]

-- The loop over the lines. `line` is what was read of the current one; after the repair the last
-- line is complete, so nothing of it is left at the end.
unfoldable pub recover_loop : Bytes → Bytes → ℕ → List RecoveredJob → Result (List RecoveredJob)
recover_loop [] line line_number jobs = ok jobs
recover_loop (c ∷ contents) line line_number jobs = elim (c == b'\n') [
  | false ↦ recover_loop contents (line ++ c ∷ []) line_number jobs
  | true ↦ (do
    jobs' ← recover_line line_number line jobs
    recover_loop contents [] (line_number + 1) jobs')
]

-- The report of the loop's map: `std::sort` by submission sequence.
unfoldable pub make_report : Bool → List RecoveredJob → RecoveryReport
make_report ignored jobs = record {
  jobs = sort_by (λ job. job.submission.submission_sequence) jobs;
  ignored_incomplete_tail = ignored;
}

-- The file is opened and read, `repair` is the outcome of `ftruncate` and `fsync`. The result is the
-- file afterwards and the report. A failed repair leaves the file as it was.
unfoldable pub recover : Result (Unit {0}) → Bytes → Bytes × Result RecoveryReport
recover repair file =
    if has_incomplete_tail file
    then (elim repair [
      | err e ↦ (file, err e)
      | ok u ↦ (
        complete_lines file,
        (do jobs ← recover_loop (complete_lines file) [] 1 []; ok (make_report true jobs)),
      )
    ])
    else (file, (do jobs ← recover_loop file [] 1 []; ok (make_report false jobs)))
