-- ===== src/Daemon/Options.antt =====
-- The command line of apps/kronos_engine.cpp.
use omni_sched.Base.{
  ℕ, ℤ, Bytes, text, text_eq, is_empty, Option, none, some, List, [], ◌∷◌, ◌++◌, ◌||◌, ◌==◌,
  if◌then◌else◌, invalid_argument, Result, ok, err, ◌>>=◌, ◌>>◌, guard, not,
}
use omni_sched.Types.{SchedulerKind, SchedulerConfig}
use omni_sched.Codec.Number.{max_u64, from_chars, from_chars_signed}
use omni_sched.Wal.Parse.{max_i32}
use omni_sched.Transport.Paths.{default_ipc_directory, join_path}

pub record DaemonOptions : Type 0 where
  pub ipc_directory : Bytes
  pub wal_path : Option Bytes
  pub workers : ℕ
  pub scheduler : SchedulerConfig

-- The defaults, below the directory for temporary files and for a user.
unfoldable pub default_options : Bytes → ℕ → DaemonOptions
default_options temporary uid = record {
  ipc_directory = default_ipc_directory temporary uid;
  wal_path = none;
  workers = 0;
  scheduler = record { kind = SchedulerKind.fifo; quantum = 100 };
}

-- `parse_integer`: `from_chars` has to succeed and to end where the text ends.
unfoldable pub parsed : {A : Type 0} → Bytes → Option (A × Bytes) → Result A
parsed label none = err (invalid_argument (label ++ text " must be an integer"))
parsed label (some (value, rest)) =
    if is_empty rest then ok value else err (invalid_argument (label ++ text " must be an integer"))

-- At `std::uint64_t` and `JobId`, and at `int`.
unfoldable pub parse_integer : Bytes → Bytes → Result ℕ
parse_integer value label = parsed label (from_chars max_u64 value)

unfoldable pub parse_int : Bytes → Bytes → Result ℤ
parse_int value label = parsed label (from_chars_signed max_i32 value)

unfoldable pub parse_positive_size : Bytes → Bytes → Result ℕ
parse_positive_size value label = do
  size ← parse_integer value label
  guard (not (size == 0)) (invalid_argument (label ++ text " must be greater than zero"))
  ok size

unfoldable pub parse_scheduler : Bytes → Result SchedulerKind
parse_scheduler value =
    if text_eq value (text "fifo")
    then ok SchedulerKind.fifo
    else if text_eq value (text "priority")
    then ok SchedulerKind.priority
    else if text_eq value (text "sjf")
    then ok SchedulerKind.shortest_job_first
    else if text_eq value (text "rr") || text_eq value (text "round-robin")
    then ok SchedulerKind.round_robin
    else err (invalid_argument (text "unknown scheduler: " ++ value))

-- The argument behind an option.
unfoldable pub require_value : Bytes → List Bytes → Result Bytes
require_value option [] = err (invalid_argument (option ++ text " requires a value"))
require_value option (value ∷ arguments) = ok value

-- The body of the loop at one argument, with those behind it; `none` if the usage is printed and the
-- program left.
unfoldable pub apply_option : Bytes → List Bytes → DaemonOptions → Result (Option DaemonOptions)
apply_option argument arguments options =
    if text_eq argument (text "--ipc-dir")
    then (do
      value ← require_value argument arguments
      ok (some (record options { ipc_directory = value })))
    else if text_eq argument (text "--wal")
    then (do
      value ← require_value argument arguments
      ok (some (record options { wal_path = some value })))
    else if text_eq argument (text "--workers")
    then (do
      value ← require_value argument arguments
      workers ← parse_positive_size value argument
      ok (some (record options { workers = workers })))
    else if text_eq argument (text "--scheduler")
    then (do
      value ← require_value argument arguments
      kind ← parse_scheduler value
      ok (
          some (record options {
            scheduler = record { kind = kind; quantum = options.scheduler.quantum };
          })))
    else if text_eq argument (text "--quantum")
    then (do
      value ← require_value argument arguments
      quantum ← parse_positive_size value argument
      ok (
          some (record options {
            scheduler = record { kind = options.scheduler.kind; quantum = quantum };
          })))
    else if text_eq argument (text "--help") || text_eq argument (text "-h")
    then ok none
    else err (invalid_argument (text "unknown option: " ++ argument))

-- The loop over the arguments: each option that does not leave it takes a value.
unfoldable pub parse_arguments : List Bytes → DaemonOptions → Result (Option DaemonOptions)
parse_arguments [] options = ok (some options)
parse_arguments (argument ∷ []) options = apply_option argument [] options
parse_arguments (argument ∷ value ∷ arguments) options =
    elim (apply_option argument (value ∷ arguments) options) [
      | err error ↦ err error
      | ok none ↦ ok none
      | ok (some options') ↦ parse_arguments arguments options'
    ]

-- `if (!options.wal_path)`.
unfoldable pub with_wal_path : DaemonOptions → DaemonOptions
with_wal_path options = elim (options.wal_path) [
  | some path ↦ options
  | none ↦ record options { wal_path = some (join_path options.ipc_directory (text "kronos.wal")) }
]

unfoldable pub completed : Result (Option DaemonOptions) → Result (Option DaemonOptions)
completed (err error) = err error
completed (ok none) = ok none
completed (ok (some options)) = ok (some (with_wal_path options))

-- `parse_options` without the program's name.
unfoldable pub parse_options : DaemonOptions → List Bytes → Result (Option DaemonOptions)
parse_options defaults arguments = completed (parse_arguments arguments defaults)
