-- ===== src/Daemon/Dispatch.antt =====
-- The commands of `handle_request` in apps/kronos_engine.cpp: what holds of each, holds of all.
use omni_sched.Base.{
  Bytes, text, Bool, true, false, List, ◌++◌, if◌then◌else◌, invalid_argument, ok,
}
use omni_sched.Daemon.State.{Daemon, Meanwhile}
use omni_sched.Daemon.Request.{
  Answer, failed, handle_submit, handle_ps, handle_history, handle_kill, handle_scheduler,
  handle_shutdown, help_text, execute,
}

chosen : (P : Answer → Type 0) (b : Bool) {x y : Answer} → P x → P y → P (if b then x else y)
chosen P true p q = p
chosen P false p q = q

module _ (P : Answer → Type 0) (meanwhile : Meanwhile) (command : Bytes) (fields : List Bytes)
    (d : Daemon) where
  pub execute_cases :
      P (handle_submit meanwhile fields d)
      → P (handle_ps fields d)
      → P (handle_history meanwhile fields d)
      → P (handle_kill meanwhile fields d)
      → P (handle_scheduler meanwhile fields d)
      → P (handle_shutdown fields d)
      → ((message : Bytes) → P (d, ok (text "OK", message)))
      → P (failed (invalid_argument (text "unknown command: " ++ command)) d)
      → P (execute meanwhile command fields d)
  unfolding execute
  execute_cases submit ps history kill scheduler shutdown says unknown = chosen P _ submit (
      chosen P _ ps (
        chosen P _ history (
          chosen P _ kill (
            chosen P _ scheduler (
              chosen P _ (says (text "pong"))
                (chosen P _ (says help_text) (chosen P _ shutdown unknown)))))))
