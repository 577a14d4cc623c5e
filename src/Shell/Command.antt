-- ===== src/Shell/Command.antt =====
-- `run_command` and `run_shell` of apps/kronos_shell.cpp.
use omni_sched.Base.{
  Bytes, text, text_eq, Bool, true, false, Option, none, some, List, [], ◌∷◌, ◌++◌, ◌||◌,
  if◌then◌else◌, what, Result, ok, err,
}
use omni_sched.Protocol.Message.{ProtocolMessage}
use omni_sched.Protocol.Token.{tokenize_command}
use omni_sched.Shell.Session.{ShellSession, Arrival, print, execute}

-- `EXIT_SUCCESS` and `EXIT_FAILURE`.
pub data Status : Type 0 where
  success failure : Status

unfoldable pub leaves : Bytes → Bool
leaves command = text_eq command (text "quit") || text_eq command (text "exit")

unfoldable pub print_front : List Bytes → ShellSession → ShellSession
print_front [] s = s
print_front (field ∷ fields) s = print (field ++ text "\n") s

unfoldable pub show : ShellSession × Result ProtocolMessage → ShellSession × Result Status
show (s, err error) = (s, err error)
show (s, ok response) = (
  print_front response.fields s,
  ok (if text_eq response.kind (text "OK") then success else failure),
)

unfoldable pub run_tokens :
    List Arrival → Result (List Bytes) → ShellSession → ShellSession × Result Status
run_tokens arrivals (err error) s = (s, err error)
run_tokens arrivals (ok []) s = (s, ok success)
run_tokens arrivals (ok (command ∷ tokens)) s =
    if leaves command then (s, ok success) else show (execute arrivals (command ∷ tokens) s)

unfoldable pub run_command : List Arrival → Bytes → ShellSession → ShellSession × Result Status
run_command arrivals command s = run_tokens arrivals (tokenize_command command) s

-- Whether the loop ends behind a command that did not throw.
unfoldable pub ends_session : Result (List Bytes) → Bool
ends_session (err error) = false
ends_session (ok []) = false
ends_session (ok (command ∷ tokens)) = leaves command || text_eq command (text "shutdown")

-- The `try` block and the `catch` block: the state, and whether the loop ends.
unfoldable pub after_command : Bytes → ShellSession × Result Status → ShellSession × Bool
after_command line (s, err error) = (print (text "error: " ++ (what error ++ text "\n")) s, false)
after_command line (s, ok status) = (s, ends_session (tokenize_command line))

-- The loop over the lines that are read, each with what the listener hears while it is executed. It
-- ends with the input as well.
unfoldable pub run_lines : List (Bytes × List Arrival) → ShellSession → ShellSession
run_lines [] s = print (text "kronos> ") s
run_lines ((line, arrivals) ∷ lines) s =
    let (s', ends) = after_command line (run_command arrivals line (print (text "kronos> ") s)) in
    elim ends [ true ↦ s' | false ↦ run_lines lines s' ]

unfoldable pub run_shell :
    Option (List Arrival × Bytes)
    → List (Bytes × List Arrival)
    → ShellSession
    → ShellSession × Result Status
run_shell (some (arrivals, command)) lines s = run_command arrivals command s
run_shell none lines s = (
  run_lines lines (print (text "Kronos shell connected. Type 'help' for commands.\n") s),
  ok success,
)
