-- ===== src/Daemon/Sound.antt =====
-- The engine under the requests of apps/kronos_engine.cpp.
use omni_sched.Base.{
  ℕ, ◌<◌, Bytes, text, Bool-cases, text_eq, List, [], ◌∷◌, not, ◌≡◌, refl, ◌∙◌, sym, subst, inl,
  inr, Result, ok, err,
}
use omni_sched.Types.{unlimited_work, SchedulerConfig}
use omni_sched.Protocol.Message.{ProtocolMessage}
use omni_sched.Wal.Append.{wal_journal}
use omni_sched.Engine.Control.{cancel}
use omni_sched.Engine.Registry.{find_record}
use omni_sched.Engine.Step.{Action, step}
use omni_sched.Daemon.State.{Daemon, Works, Meanwhile, work_all, respond}
use omni_sched.Daemon.Dispatch.{execute_cases}
use omni_sched.Daemon.Request.{
  Answer, failed, handle_submit, handle_ps, handle_history, kill, kill_parsed, handle_kill,
  change_scheduler, handle_scheduler, handle_shutdown, execute, after_response, caught, answer,
  handle_fields, handle_request, parse_submit, parse_config,
}
use omni_sched.Daemon.Quiet.{
  IsQuiet, step-IsSound, work_all-IsSound, work_all-pending, LeavesQuiet, submit-IsQuiet,
  recover_log-IsQuiet, cancel-pending, set_scheduler-pending,
}

kill-IsQuiet :
    (works : Works) (d : Daemon) (id : Result ℕ)
    → IsQuiet d.engine
    → LeavesQuiet (kill_parsed works d id)
unfolding kill_parsed kill failed
kill-IsQuiet works d (err error) h = h
kill-IsQuiet works d (ok id) (h, p) =
    let e = work_all works d.engine in
    (
      unfold step in step-IsSound (Action.cancels id) e tt (work_all-IsSound works d.engine h),
      unfold cancel in
          cancel-pending id (find_record id e.records) e ∙ work_all-pending works d.engine ∙ p,
    )

scheduler-IsQuiet :
    (works : Works) (d : Daemon) (config : Result SchedulerConfig)
    → IsQuiet d.engine
    → LeavesQuiet (change_scheduler works d config)
unfolding change_scheduler failed
scheduler-IsQuiet works d (err error) h = h
scheduler-IsQuiet works d (ok config) (h, p) =
    let e = work_all works d.engine in
    (
      unfold step in
          step-IsSound (Action.sets_scheduler config) e tt (work_all-IsSound works d.engine h),
      set_scheduler-pending config e ∙ work_all-pending works d.engine ∙ p,
    )

history-IsQuiet :
    (meanwhile : Meanwhile) (fields : List Bytes) (d : Daemon)
    → IsQuiet d.engine
    → LeavesQuiet (handle_history meanwhile fields d)
unfolding handle_history failed
history-IsQuiet meanwhile [] d h = h
history-IsQuiet meanwhile (command ∷ []) d h = recover_log-IsQuiet meanwhile.repair d.engine h
history-IsQuiet meanwhile (command ∷ field ∷ fields) d h = h

handle_kill-IsQuiet :
    (meanwhile : Meanwhile) (fields : List Bytes) (d : Daemon)
    → IsQuiet d.engine
    → LeavesQuiet (handle_kill meanwhile fields d)
unfolding handle_kill failed
handle_kill-IsQuiet meanwhile [] d h = h
handle_kill-IsQuiet meanwhile (command ∷ []) d h = h
handle_kill-IsQuiet meanwhile (command ∷ id ∷ []) d h = kill-IsQuiet meanwhile.works d _ h
handle_kill-IsQuiet meanwhile (command ∷ id ∷ field ∷ fields) d h = h

ps-IsQuiet :
    (fields : List Bytes) (d : Daemon) → IsQuiet d.engine → LeavesQuiet (handle_ps fields d)
unfolding handle_ps failed
ps-IsQuiet [] d h = h
ps-IsQuiet (command ∷ []) d h = h
ps-IsQuiet (command ∷ field ∷ fields) d h = h

shutdown-IsQuiet :
    (fields : List Bytes) (d : Daemon) → IsQuiet d.engine → LeavesQuiet (handle_shutdown fields d)
unfolding handle_shutdown failed
shutdown-IsQuiet [] d h = h
shutdown-IsQuiet (command ∷ []) d h = h
shutdown-IsQuiet (command ∷ field ∷ fields) d h = h

execute-IsQuiet :
    (meanwhile : Meanwhile) (command : Bytes) (fields : List Bytes) (d : Daemon)
    → d.engine.next_job_id < unlimited_work
    → IsQuiet d.engine
    → LeavesQuiet (execute meanwhile command fields d)
unfolding handle_submit handle_scheduler failed
execute-IsQuiet meanwhile command fields d l h =
    execute_cases (λ a. LeavesQuiet a) meanwhile command fields d
      (submit-IsQuiet meanwhile.works d (parse_submit fields) l h) (ps-IsQuiet fields d h)
      (history-IsQuiet meanwhile fields d h) (handle_kill-IsQuiet meanwhile fields d h)
      (scheduler-IsQuiet meanwhile.works d (parse_config d.engine.queue.config fields) h)
      (shutdown-IsQuiet fields d h) (λ message. h) h

-- What is sent leaves the engine alone.
respond-engine :
    (request_id : ℕ) (kind message : Bytes) (d : Daemon)
    → (respond request_id kind message d).0.engine ≡ d.engine
unfolding respond
respond-engine request_id kind message d = refl

caught-engine :
    (request_id : ℕ) (command : Bytes) (out : Daemon × Result (Unit {0}))
    → (caught request_id command out).0.engine ≡ out.0.engine
unfolding caught after_response
caught-engine request_id command (d, err error) = respond-engine request_id _ _ d
caught-engine request_id command (d, ok done) =
    elim (Bool-cases (text_eq command (text "shutdown"))) [ inl q ↦ rw q | inr q ↦ rw q ]

answer-engine :
    (request_id : ℕ) (command : Bytes) (a : Answer)
    → (answer request_id command a).0.engine ≡ a.0.engine
unfolding answer
answer-engine request_id command (d, err error) = respond-engine request_id _ _ d
answer-engine request_id command (d, ok (kind, message)) =
    caught-engine request_id command (respond request_id kind message d)
    ∙ respond-engine request_id kind message d

-- Whatever the request, what the workers do while it is handled, the answers of the log and the
-- outcomes of the calls that write: if every job is in account, the counter of IDs is ahead of the map
-- and has not come to its end, a worker is left or the queue closed and empty, and no submission is
-- pending, all of this holds again after the request, the counter's end left aside.
pub handle_request-IsQuiet :
    (meanwhile : Meanwhile) (request : ProtocolMessage) (d : Daemon)
    → d.engine.next_job_id < unlimited_work
    → IsQuiet d.engine
    → IsQuiet (handle_request meanwhile request d).0.engine
unfolding handle_request handle_fields respond
handle_request-IsQuiet meanwhile request d l h =
    elim (Bool-cases (not (text_eq request.kind (text "REQUEST")))) [
      | inl q ↦ rw q h
      | inr q ↦ rw q (go request.fields)
    ]
  where
    go :
        (fields : List Bytes)
        → IsQuiet (handle_fields meanwhile request.request_id fields d).0.engine
    go [] = h
    go (command ∷ fields) =
        subst (λ e. IsQuiet e) (sym (answer-engine request.request_id command _))
          (execute-IsQuiet meanwhile command (command ∷ fields) d l h)
