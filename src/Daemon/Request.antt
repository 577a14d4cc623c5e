-- ===== src/Daemon/Request.antt =====
-- `handle_request` of apps/kronos_engine.cpp.
use omni_sched.Base.{
  ℕ, ◌+◌, ℤ, pos, Bytes, text, text_eq, Bool, true, false, Option, none, some, List, [], ◌∷◌, ◌++◌,
  length, take, ◌||◌, ◌==◌, not, if◌then◌else◌, Error, invalid_argument, what, Result, ok, err,
  ◌>>=◌, ◌>>◌, guard,
}
use omni_sched.Types.{SchedulerConfig, JobSnapshot, kind_to_string}
use omni_sched.Codec.Number.{to_string}
use omni_sched.Protocol.Message.{ProtocolMessage}
use omni_sched.Factory.Create.{CreatedTask, create_for_submission}
use omni_sched.Wal.Append.{WalManager, wal_journal}
use omni_sched.Wal.Parse.{RecoveryReport}
use omni_sched.Engine.State.{Engine}
use omni_sched.Engine.Submit.{submit_begin, submit_end}
use omni_sched.Engine.Control.{cancel, get_job, snapshot, set_scheduler}
use omni_sched.Daemon.Options.{parse_integer, parse_int, parse_positive_size, parse_scheduler}
use omni_sched.Daemon.Report.{format_snapshots, format_history}
use omni_sched.Daemon.State.{Daemon, Works, Meanwhile, work_all, recover_log, respond, observe}

unfoldable pub help_text : Bytes
help_text =
    text
      "submit prime <upper-bound> [priority]\nsubmit step <steps> <delay-ms> [priority]\nps\nkill <job-id>\nhistory\nscheduler <fifo|priority|sjf|rr> [quantum]\nping\nshutdown\nquit"

unfoldable pub submit_usage : Error
submit_usage = invalid_argument (
    text "usage: submit prime <upper-bound> [priority] | submit step <steps> <delay-ms> [priority]")

-- `fields.back()` of a list that is not empty.
unfoldable pub back : Bytes → List Bytes → Bytes
back field [] = field
back field (next ∷ fields) = back next fields

unfoldable pub required_arguments : Bytes → ℕ
required_arguments type = if text_eq type (text "prime") then 1 else 2

unfoldable pub submit_priority : ℕ → Bytes → List Bytes → Result ℤ
submit_priority required argument arguments =
    if length (argument ∷ arguments) == required + 1
    then parse_int (back argument arguments) (text "priority")
    else ok (pos 0)

-- `handle_submit` up to the engine: the words behind the command become a task.
unfoldable pub parse_submit : List Bytes → Result CreatedTask
parse_submit (command ∷ type ∷ argument ∷ arguments) = do
  let required = required_arguments type
  let given = length (argument ∷ arguments)
  guard (given == required || given == required + 1) submit_usage
  priority ← submit_priority required argument arguments
  create_for_submission type (take required (argument ∷ arguments)) priority
parse_submit _ = err submit_usage

-- What a command leaves and what it answers: the kind and the message, or an exception.
abbrev pub Answer : Type 0
Answer = Daemon × Result (Bytes × Bytes)

unfoldable pub failed : Error → Daemon → Answer
failed error d = (d, err error)

unfoldable pub submitted : Works → Daemon → Engine WalManager × Result ℕ → Answer
submitted works d (e, err error) = (record d { engine = e }, err error)
submitted works d (e, ok id) = (
  observe id (record d { engine = submit_end id (work_all works e) }),
  ok (text "OK", text "submitted job " ++ to_string id),
)

unfoldable pub submit_created : Works → Daemon → Result CreatedTask → Answer
submit_created works d (err error) = failed error d
submit_created works d (ok created) = submitted works d (submit_begin created.options d.engine)

unfoldable pub handle_submit : Meanwhile → List Bytes → Daemon → Answer
handle_submit meanwhile fields d = submit_created meanwhile.works d (parse_submit fields)

unfoldable pub handle_ps : List Bytes → Daemon → Answer
handle_ps (command ∷ []) d = (d, ok (text "OK", format_snapshots (snapshot d.engine) false))
handle_ps _ d = failed (invalid_argument (text "usage: ps")) d

unfoldable pub history_of : Result RecoveryReport → Result (Bytes × Bytes)
history_of (err error) = err error
history_of (ok report) = ok (text "OK", format_history report)

unfoldable pub handle_history : Meanwhile → List Bytes → Daemon → Answer
handle_history meanwhile (command ∷ []) d =
    let (e, report) = recover_log meanwhile.repair d.engine in
    (record d { engine = e }, history_of report)
handle_history meanwhile _ d = failed (invalid_argument (text "usage: history")) d

-- What `kill` answers, from `cancel` and from `get_job` before it.
unfoldable pub kill_answer : ℕ → Bool → Option JobSnapshot → Bytes × Bytes
kill_answer id true job = (text "OK", text "cancellation requested for job " ++ to_string id)
kill_answer id false (some snapshot) = (text "ERROR", text "job is already terminal")
kill_answer id false none = (text "ERROR", text "job not found")

unfoldable pub kill : Works → ℕ → Daemon → Answer
kill works id d =
    let job = get_job id d.engine in
    let (e, cancelled) = cancel id (work_all works d.engine) in
    (record d { engine = e }, ok (kill_answer id cancelled job))

unfoldable pub kill_parsed : Works → Daemon → Result ℕ → Answer
kill_parsed works d (err error) = failed error d
kill_parsed works d (ok id) = kill works id d

unfoldable pub handle_kill : Meanwhile → List Bytes → Daemon → Answer
handle_kill meanwhile (command ∷ id ∷ []) d =
    kill_parsed meanwhile.works d (parse_integer id (text "job ID"))
handle_kill meanwhile _ d = failed (invalid_argument (text "usage: kill <job-id>")) d

-- The configuration that the words behind the command ask for.
unfoldable pub parse_config : SchedulerConfig → List Bytes → Result SchedulerConfig
parse_config config (command ∷ kind_text ∷ []) = do
  kind ← parse_scheduler kind_text
  ok (record { kind = kind; quantum = config.quantum })
parse_config config (command ∷ kind_text ∷ quantum_text ∷ []) = do
  kind ← parse_scheduler kind_text
  quantum ← parse_positive_size quantum_text (text "quantum")
  ok (record { kind = kind; quantum = quantum })
parse_config config _ =
    err (invalid_argument (text "usage: scheduler <fifo|priority|sjf|rr> [quantum]"))

unfoldable pub changed : SchedulerConfig → Result (Unit {0}) → Result (Bytes × Bytes)
changed config (err error) = err error
changed config (ok done) =
    ok (text "OK", text "scheduler changed to " ++ kind_to_string config.kind)

unfoldable pub change_scheduler : Works → Daemon → Result SchedulerConfig → Answer
change_scheduler works d (err error) = failed error d
change_scheduler works d (ok config) =
    let (e, result) = set_scheduler config (work_all works d.engine) in
    (record d { engine = e }, changed config result)

unfoldable pub handle_scheduler : Meanwhile → List Bytes → Daemon → Answer
handle_scheduler meanwhile fields d =
    change_scheduler meanwhile.works d (parse_config d.engine.queue.config fields)

unfoldable pub handle_shutdown : List Bytes → Daemon → Answer
handle_shutdown (command ∷ []) d = (d, ok (text "OK", text "engine shutdown started"))
handle_shutdown _ d = failed (invalid_argument (text "usage: shutdown")) d

-- The `try` block up to the answer.
unfoldable pub execute : Meanwhile → Bytes → List Bytes → Daemon → Answer
execute meanwhile command fields d =
    if text_eq command (text "submit")
    then handle_submit meanwhile fields d
    else if text_eq command (text "ps")
    then handle_ps fields d
    else if text_eq command (text "history")
    then handle_history meanwhile fields d
    else if text_eq command (text "kill")
    then handle_kill meanwhile fields d
    else if text_eq command (text "scheduler")
    then handle_scheduler meanwhile fields d
    else if text_eq command (text "ping")
    then (d, ok (text "OK", text "pong"))
    else if text_eq command (text "help")
    then (d, ok (text "OK", help_text))
    else if text_eq command (text "shutdown")
    then handle_shutdown fields d
    else failed (invalid_argument (text "unknown command: " ++ command)) d

-- `stop_requested_ = true`, once the shutdown was answered.
unfoldable pub after_response : Bytes → Daemon → Daemon
after_response command d =
    if text_eq command (text "shutdown") then record d { stop_requested = true } else d

-- The `catch` block.
unfoldable pub caught : ℕ → Bytes → Daemon × Result (Unit {0}) → Daemon × Result (Unit {0})
caught request_id command (d, err error) = respond request_id (text "ERROR") (what error) d
caught request_id command (d, ok done) = (after_response command d, ok tt)

-- The answer is sent, or the exception is answered.
unfoldable pub answer : ℕ → Bytes → Answer → Daemon × Result (Unit {0})
answer request_id command (d, err error) = respond request_id (text "ERROR") (what error) d
answer request_id command (d, ok (kind, message)) =
    caught request_id command (respond request_id kind message d)

unfoldable pub handle_fields : Meanwhile → ℕ → List Bytes → Daemon → Daemon × Result (Unit {0})
handle_fields meanwhile request_id [] d =
    respond request_id (text "ERROR") (text "invalid request") d
handle_fields meanwhile request_id (command ∷ fields) d =
    answer request_id command (execute meanwhile command (command ∷ fields) d)

unfoldable pub handle_request : Meanwhile → ProtocolMessage → Daemon → Daemon × Result (Unit {0})
handle_request meanwhile request d =
    if not (text_eq request.kind (text "REQUEST"))
    then respond request.request_id (text "ERROR") (text "invalid request") d
    else handle_fields meanwhile request.request_id request.fields d
