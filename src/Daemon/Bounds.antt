-- ===== src/Daemon/Bounds.antt =====
-- The ranges of the numbers that `parse_options` of apps/kronos_engine.cpp accepts.
use omni_sched.Base.{
  ℕ, zero, suc, ◌<◌, Bytes, text, text_eq, Bool, true, false, Option, none, some, List, [], ◌∷◌,
  ◌++◌, ◌||◌, if◌then◌else◌, ◌≡◌, refl, subst, invalid_argument, Result, ok, err, ◌>>=◌, arith,
}
use omni_sched.Types.{SchedulerKind}
use omni_sched.Scheduler
use omni_sched.Scheduler.{make_scheduler}
use omni_sched.Scheduler.RoundRobin
use omni_sched.Engine.Queue
use omni_sched.Engine.Queue.{TaskQueue}
use omni_sched.Transport.Paths.{join_path}
use omni_sched.Daemon.Options.{
  DaemonOptions, default_options, parse_positive_size, parse_scheduler, require_value, apply_option,
  parse_arguments, with_wal_path, completed, parse_options,
}
use omni_sched.Daemon.Sizes.{IsBounded, AllowsOptions, IsSize, parse_positive_size-IsSize}

chosen :
    (P : Result (Option DaemonOptions) → Type 0) (b : Bool) {x y : Result (Option DaemonOptions)}
    → P x
    → P y
    → P (if b then x else y)
chosen P true p q = p
chosen P false p q = q

-- An option whose value is stored as it is, or is read by `read` and then stored.
plain-AllowsOptions :
    (value : Result Bytes) (store : Bytes → DaemonOptions)
    → ((word : Bytes) → IsBounded (store word))
    → AllowsOptions (do word ← value; ok (some (store word)))
plain-AllowsOptions (err error) store h = tt
plain-AllowsOptions (ok word) store h = h word

stored-AllowsOptions :
    {A : Type 0} (value : Result Bytes) (read : Bytes → Result A) (store : A → DaemonOptions)
    (Q : Result A → Type 0)
    → ((word : Bytes) → Q (read word))
    → ((a : A) → Q (ok a) → IsBounded (store a))
    → AllowsOptions (do word ← value; a ← read word; ok (some (store a)))
stored-AllowsOptions (err error) read store Q q s = tt
stored-AllowsOptions {A} (ok word) read store Q q s = go (read word) (q word)
  where
    go : (r : Result A) → Q r → AllowsOptions (r >>= λ a. ok (some (store a)))
    go (err error) h = tt
    go (ok a) h = s a h

module _ (argument : Bytes) (arguments : List Bytes) (options : DaemonOptions)
    (h : IsBounded options) where
  abbrev value : Result Bytes
  value = require_value argument arguments

  size : Bytes → Result ℕ
  size word = parse_positive_size word argument

  apply_option-AllowsOptions : AllowsOptions (apply_option argument arguments options)
  unfolding apply_option size
  apply_option-AllowsOptions =
      chosen (λ r. AllowsOptions r) (text_eq argument (text "--ipc-dir"))
        (plain-AllowsOptions value (λ word. record options { ipc_directory = word }) (λ word. h))
        (chosen (λ r. AllowsOptions r) (text_eq argument (text "--wal"))
          (plain-AllowsOptions value (λ word. record options { wal_path = some word }) (λ word. h))
          (chosen (λ r. AllowsOptions r) (text_eq argument (text "--workers"))
            (stored-AllowsOptions value size (λ n. record options { workers = n }) (λ r. IsSize r)
              (λ word. parse_positive_size-IsSize word argument) (λ n s. (h.0, h.1, s.1)))
            (chosen (λ r. AllowsOptions r) (text_eq argument (text "--scheduler"))
              (stored-AllowsOptions value parse_scheduler
                (λ kind. record options {
                  scheduler = record { kind = kind; quantum = options.scheduler.quantum };
                })
                (λ _. Unit {0}) (λ word. tt) (λ kind s. h))
              (chosen (λ r. AllowsOptions r) (text_eq argument (text "--quantum"))
                (stored-AllowsOptions value size
                  (λ n. record options {
                    scheduler = record { kind = options.scheduler.kind; quantum = n };
                  })
                  (λ r. IsSize r) (λ word. parse_positive_size-IsSize word argument)
                  (λ n s. (s.0, s.1, h.2)))
                (chosen (λ r. AllowsOptions r)
                  (text_eq argument (text "--help") || text_eq argument (text "-h")) {x = ok none}
                  {y = err (invalid_argument (text "unknown option: " ++ argument))} tt tt)))))

parse_arguments-AllowsOptions :
    (arguments : List Bytes) (options : DaemonOptions)
    → IsBounded options
    → AllowsOptions (parse_arguments arguments options)
unfolding parse_arguments
parse_arguments-AllowsOptions [] options h = h
parse_arguments-AllowsOptions (argument ∷ []) options h =
    apply_option-AllowsOptions argument [] options h
parse_arguments-AllowsOptions (argument ∷ value ∷ arguments) options h =
    go (apply_option argument (value ∷ arguments) options)
      (apply_option-AllowsOptions argument (value ∷ arguments) options h)
      (λ options'. parse_arguments-AllowsOptions arguments options')
  where
    go :
        (r : Result (Option DaemonOptions))
        → AllowsOptions r
        → ((options' : DaemonOptions)
            → IsBounded options'
            → AllowsOptions (parse_arguments arguments options'))
        → AllowsOptions (elim r as (λ _. Result (Option DaemonOptions)) [
          | err error ↦ err error
          | ok none ↦ ok none
          | ok (some options') ↦ parse_arguments arguments options'
        ])
    go (err error) p ih = tt
    go (ok none) p ih = tt
    go (ok (some options')) p ih = ih options' p

-- The options as `Daemon` needs them: the path of the log is there, and the scheduler can be made.
abbrev pub IsUsable : DaemonOptions → Type 0
IsUsable options =
    IsBounded options
    × ((path : Bytes) × (options.wal_path ≡ some path))
    × ((queue : TaskQueue) × (Queue.init options.scheduler ≡ ok queue))

init-queue :
    (kind : SchedulerKind) (quantum : ℕ)
    → 0 < quantum
    → (queue : TaskQueue) × (Queue.init (record { kind = kind; quantum = quantum }) ≡ ok queue)
unfolding Queue.init make_scheduler RoundRobin.init
init-queue SchedulerKind.fifo quantum h = (_, refl)
init-queue SchedulerKind.priority quantum h = (_, refl)
init-queue SchedulerKind.shortest_job_first quantum h = (_, refl)
init-queue SchedulerKind.round_robin zero h = absurd (omega arith)
init-queue SchedulerKind.round_robin (suc quantum) h = (
  record {
    scheduler = Scheduler.round_robin (record { entries = []; quantum = suc quantum });
    config = record { kind = SchedulerKind.round_robin; quantum = suc quantum };
    closed = false;
  },
  ground arith,
)

with_wal_path-IsUsable :
    (options : DaemonOptions) → IsBounded options → IsUsable (with_wal_path options)
unfolding with_wal_path
with_wal_path-IsUsable options h = go options.wal_path refl
  where
    made : (queue : TaskQueue) × (Queue.init options.scheduler ≡ ok queue)
    made = init-queue options.scheduler.kind options.scheduler.quantum h.0

    go :
        (o : Option Bytes)
        → options.wal_path ≡ o
        → IsUsable (elim o as (λ _. DaemonOptions) [
          | some path ↦ options
          | none ↦ record options {
            wal_path = some (join_path options.ipc_directory (text "kronos.wal"));
          }
        ])
    go (some path) p = (h, (path, p), made)
    go none p = (h, (join_path options.ipc_directory (text "kronos.wal"), refl), made)

-- Options that the program goes on with, whatever the arguments, from the defaults: the quantum is
-- between 1 and the largest 64-bit number and the number of workers not above it, the path of the log
-- is set, and the engine's queue can be made with the scheduler and the quantum.
pub parse_options-IsUsable :
    (temporary : Bytes) (uid : ℕ) (arguments : List Bytes) (options : DaemonOptions)
    → parse_options (default_options temporary uid) arguments ≡ ok (some options)
    → IsUsable options
unfolding parse_options default_options
parse_options-IsUsable temporary uid arguments options h =
    go (parse_arguments arguments (default_options temporary uid))
      (parse_arguments-AllowsOptions arguments (default_options temporary uid) (omega arith)) h
  where
    go :
        (r : Result (Option DaemonOptions))
        → AllowsOptions r
        → completed r ≡ ok (some options)
        → IsUsable options
    go (err error) a p = unfold completed in cc
    go (ok none) a p = unfold completed in cc
    go (ok (some o)) a p =
        let e : with_wal_path o ≡ options = unfold completed in cc in
        subst (λ x. IsUsable x) e (with_wal_path-IsUsable o a)
