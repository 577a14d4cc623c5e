-- ===== src/Daemon/Answers.antt =====
-- What the commands of apps/kronos_engine.cpp answer and what they leave of the pipe.
use omni_sched.Base.{
  ℕ, Bytes, text, Bool, true, false, Option, none, some, List, [], ◌∷◌, ◌++◌, ◌≡◌, refl, ◌⊎◌, inl,
  inr, Result, ok, err,
}
use omni_sched.Protocol.Message.{encode_message, encode_fields, holds_line_byte, protocol_version}
use omni_sched.Codec.Number.{to_string}
use omni_sched.Factory.Create.{CreatedTask}
use omni_sched.Types.{SchedulerConfig, JobSnapshot}
use omni_sched.Wal.Parse.{RecoveryReport}
use omni_sched.Engine.Submit.{submit_begin}
use omni_sched.Engine.Control.{set_scheduler}
use omni_sched.Wal.Append.{WalManager, wal_journal}
use omni_sched.Engine.State.{Engine}
use omni_sched.Daemon.State.{Daemon, Works, Meanwhile, response, observe, work_all, recover_log}
use omni_sched.Daemon.Dispatch.{execute_cases}
use omni_sched.Daemon.Request.{
  Answer, failed, submitted, submit_created, handle_submit, handle_ps, handle_history, history_of,
  kill_answer, kill, kill_parsed, handle_kill, changed, change_scheduler, handle_scheduler,
  handle_shutdown, execute, parse_submit, parse_config,
}

-- The two kinds of an answer.
abbrev pub IsAnswerKind : Bytes → Type 0
IsAnswerKind kind = (kind ≡ text "OK") ⊎ (kind ≡ text "ERROR")

-- The line of an answer.
unfoldable pub response_line : ℕ → Bytes → Bytes → Bytes
response_line request_id kind message =
    protocol_version
    ++ b'\t'
      ∷ (to_string request_id ++ b'\t' ∷ (kind ++ (encode_fields (message ∷ []) ++ b'\n' ∷ [])))

pub encode-response :
    (request_id : ℕ) (kind message : Bytes)
    → IsAnswerKind kind
    → encode_message (response request_id kind message) ≡ ok (response_line request_id kind message)
unfolding encode_message response response_line holds_line_byte text
encode-response request_id kind message (inl k) = rw k
encode-response request_id kind message (inr k) = rw k

-- What a command makes of the daemon leaves the pipe alone, and what it answers is of one of the two
-- kinds.
abbrev pub AnswersLater : Daemon → Answer → Type 0
AnswersLater d (d', err error) = d'.server ≡ d.server
AnswersLater d (d', ok (kind, message)) = (d'.server ≡ d.server) × IsAnswerKind kind

submit-AnswersLater :
    (works : Works) (d : Daemon) (created : Result CreatedTask)
    → AnswersLater d (submit_created works d created)
unfolding submit_created submitted failed observe
submit-AnswersLater works d (err error) = refl
submit-AnswersLater works d (ok created) = go (submit_begin created.options d.engine)
  where
    go : (out : Engine WalManager × Result ℕ) → AnswersLater d (submitted works d out)
    go (e, err error) = refl
    go (e, ok id) = (refl, inl refl)

kill-IsAnswerKind :
    (id : ℕ) (cancelled : Bool) (job : Option JobSnapshot)
    → IsAnswerKind (kill_answer id cancelled job).0
unfolding kill_answer
kill-IsAnswerKind id true job = inl refl
kill-IsAnswerKind id false none = inr refl
kill-IsAnswerKind id false (some job) = inr refl

kill-AnswersLater :
    (works : Works) (d : Daemon) (id : Result ℕ) → AnswersLater d (kill_parsed works d id)
unfolding kill_parsed kill failed
kill-AnswersLater works d (err error) = refl
kill-AnswersLater works d (ok id) = (refl, kill-IsAnswerKind id _ _)

scheduler-AnswersLater :
    (works : Works) (d : Daemon) (config : Result SchedulerConfig)
    → AnswersLater d (change_scheduler works d config)
unfolding change_scheduler failed changed
scheduler-AnswersLater works d (err error) = refl
scheduler-AnswersLater works d (ok config) = go (set_scheduler config (work_all works d.engine))
  where
    go :
        (out : Engine WalManager × Result (Unit {0}))
        → AnswersLater d (record d { engine = out.0 }, changed config out.1)
    go (e, err error) = refl
    go (e, ok done) = (refl, inl refl)

history-AnswersLater :
    (meanwhile : Meanwhile) (fields : List Bytes) (d : Daemon)
    → AnswersLater d (handle_history meanwhile fields d)
unfolding handle_history failed history_of
history-AnswersLater meanwhile [] d = refl
history-AnswersLater meanwhile (command ∷ []) d = go (recover_log meanwhile.repair d.engine)
  where
    go :
        (out : Engine WalManager × Result RecoveryReport)
        → AnswersLater d (record d { engine = out.0 }, history_of out.1)
    go (e, err error) = refl
    go (e, ok report) = (refl, inl refl)
history-AnswersLater meanwhile (command ∷ field ∷ fields) d = refl

handle_kill-AnswersLater :
    (meanwhile : Meanwhile) (fields : List Bytes) (d : Daemon)
    → AnswersLater d (handle_kill meanwhile fields d)
unfolding handle_kill failed
handle_kill-AnswersLater meanwhile [] d = refl
handle_kill-AnswersLater meanwhile (command ∷ []) d = refl
handle_kill-AnswersLater meanwhile (command ∷ id ∷ []) d = kill-AnswersLater meanwhile.works d _
handle_kill-AnswersLater meanwhile (command ∷ id ∷ field ∷ fields) d = refl

ps-AnswersLater : (fields : List Bytes) (d : Daemon) → AnswersLater d (handle_ps fields d)
unfolding handle_ps failed
ps-AnswersLater [] d = refl
ps-AnswersLater (command ∷ []) d = (refl, inl refl)
ps-AnswersLater (command ∷ field ∷ fields) d = refl

shutdown-AnswersLater :
    (fields : List Bytes) (d : Daemon) → AnswersLater d (handle_shutdown fields d)
unfolding handle_shutdown failed
shutdown-AnswersLater [] d = refl
shutdown-AnswersLater (command ∷ []) d = (refl, inl refl)
shutdown-AnswersLater (command ∷ field ∷ fields) d = refl

pub execute-AnswersLater :
    (meanwhile : Meanwhile) (command : Bytes) (fields : List Bytes) (d : Daemon)
    → AnswersLater d (execute meanwhile command fields d)
unfolding handle_submit handle_scheduler failed
execute-AnswersLater meanwhile command fields d =
    execute_cases (λ a. AnswersLater d a) meanwhile command fields d
      (submit-AnswersLater meanwhile.works d (parse_submit fields)) (ps-AnswersLater fields d)
      (history-AnswersLater meanwhile fields d) (handle_kill-AnswersLater meanwhile fields d)
      (scheduler-AnswersLater meanwhile.works d (parse_config d.engine.queue.config fields))
      (shutdown-AnswersLater fields d) (λ message. (refl, inl refl)) refl
