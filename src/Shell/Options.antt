-- ===== src/Shell/Options.antt =====
-- The command line of apps/kronos_shell.cpp.
use omni_sched.Base.{
  ℕ, Bytes, text, text_eq, Bool, true, false, Option, none, some, List, [], ◌∷◌, ◌++◌, ◌||◌,
  if◌then◌else◌, invalid_argument, Result, ok, err,
}
use omni_sched.Transport.Paths.{default_ipc_directory}

pub record ShellOptions : Type 0 where
  pub ipc_directory : Bytes
  pub command : Option Bytes

unfoldable pub default_options : Bytes → ℕ → ShellOptions
default_options temporary uid = record {
  ipc_directory = default_ipc_directory temporary uid;
  command = none;
}

unfoldable pub asks_for_help : Bytes → Bool
asks_for_help argument = text_eq argument (text "--help") || text_eq argument (text "-h")

-- An option with its value.
unfoldable pub set_option : Bytes → Bytes → ShellOptions → Result ShellOptions
set_option argument value options =
    if text_eq argument (text "--ipc-dir")
    then ok (record options { ipc_directory = value })
    else if text_eq argument (text "--command")
    then ok (record options { command = some value })
    else err (invalid_argument (text "unknown option: " ++ argument))

-- `parse_options` without the program's name; `none` if the usage is printed and the program left.
unfoldable pub parse_options : List Bytes → ShellOptions → Result (Option ShellOptions)
parse_options [] options = ok (some options)
parse_options (argument ∷ []) options =
    if asks_for_help argument
    then ok none
    else err (invalid_argument (argument ++ text " requires a value"))
parse_options (argument ∷ value ∷ arguments) options = elim (asks_for_help argument) [
  | true ↦ ok none
  | false ↦ elim (set_option argument value options) [
    | err error ↦ err error
    | ok options' ↦ parse_options arguments options'
  ]
]
