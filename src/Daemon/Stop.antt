-- ===== src/Daemon/Stop.antt =====
-- `run` of apps/kronos_engine.cpp to its end: the loop, the shutdown and the join.
use omni_sched.Base.{
  ℕ, ◌<◌, Bool, true, false, Option, none, some, List, [], ◌∷◌, ◌&&◌, if◌then◌else◌, ◌≡◌, refl, sym,
  ap, subst, ◌∙◌,
}
use omni_sched.Types.{unlimited_work, ShutdownMode}
use omni_sched.Scheduler.Entry.{SchedulerEntry}
use omni_sched.Wal.Append.{WalManager, wal_journal}
use omni_sched.Engine.Queue.{TaskQueue, close_and_drain_pending}
use omni_sched.Engine.Job.{JobRecord}
use omni_sched.Engine.Registry.{find_record}
use omni_sched.Engine.State.{Engine, Worker}
use omni_sched.Engine.Control.{
  shutdown_begin, cancels_pending, cancel_all, all_exited, join_workers,
}
use omni_sched.Engine.Step.{Action, step}
use omni_sched.Engine.GiveUp.{cancel_all-Keeps}
use omni_sched.Engine.Outcome.{IsEnded}
use omni_sched.Engine.Ended.{served-IsEnded}
use omni_sched.Daemon.State.{Daemon, Works, notify}
use omni_sched.Daemon.Quiet.{IsQuiet, step-IsSound, work_all-IsSound, work_all-pending}
use omni_sched.Daemon.Sound.{handle_request-IsQuiet}
use omni_sched.Daemon.Loop.{
  Event, requests, times_out, fails, signals, proceeds, announces, serve, ends_round, stopped,
  serve_all, serve_loop, shut_down, join,
}

-- The counter of IDs does not come to its end while these events are served.
abbrev pub HasRoom : List Event → Daemon × Bool → Type 0
HasRoom [] s = Unit {0}
HasRoom (event ∷ events) s =
    (s.0.engine.next_job_id < unlimited_work) × HasRoom events (serve event s)

serve-IsQuiet :
    (event : Event) (s : Daemon × Bool)
    → s.0.engine.next_job_id < unlimited_work
    → IsQuiet s.0.engine
    → IsQuiet (serve event s).0.engine
unfolding serve notify
serve-IsQuiet (requests meanwhile request) (d, signal) l h =
    handle_request-IsQuiet meanwhile request d l h
serve-IsQuiet times_out (d, signal) l h = h
serve-IsQuiet (fails error) (d, signal) l h = h
serve-IsQuiet signals (d, signal) l h = h
serve-IsQuiet (proceeds works) (d, signal) l (s, p) =
    (work_all-IsSound works d.engine s, work_all-pending works d.engine ∙ p)
serve-IsQuiet (announces result) (d, signal) l h = h

serve_all-IsQuiet :
    (events : List Event) (s : Daemon × Bool)
    → HasRoom events s
    → IsQuiet s.0.engine
    → IsQuiet (serve_all events s).0.engine
unfolding serve_all
serve_all-IsQuiet [] s r h = h
serve_all-IsQuiet (event ∷ events) s (l, r) h =
    go (ends_round event && stopped (serve event s)) (serve-IsQuiet event s l h)
      (serve_all-IsQuiet events (serve event s) r (serve-IsQuiet event s l h))
  where
    go :
        (b : Bool)
        → IsQuiet (serve event s).0.engine
        → IsQuiet (serve_all events (serve event s)).0.engine
        → IsQuiet
            (elim b as (λ _. Daemon × Bool) [
              | true ↦ serve event s
              | false ↦ serve_all events (serve event s)
            ]).0.engine
    go true p q = p
    go false p q = q

serve_loop-IsQuiet :
    (events : List Event) (s : Daemon × Bool)
    → HasRoom events s
    → IsQuiet s.0.engine
    → IsQuiet (serve_loop events s).0.engine
unfolding serve_loop
serve_loop-IsQuiet events s r h = go (stopped s)
  where
    go : (b : Bool) → IsQuiet (if b then s else serve_all events s).0.engine
    go true = h
    go false = serve_all-IsQuiet events s r h

shutdown-pending :
    (mode : ShutdownMode) (e : Engine WalManager) → (shutdown_begin mode e).pending ≡ e.pending
unfolding shutdown_begin
shutdown-pending mode e = go e.workers
  where
    shut : List SchedulerEntry × TaskQueue
    shut = close_and_drain_pending (cancels_pending mode) e.queue

    closed : Engine WalManager
    closed = record e { accepting = false; queue = shut.1 }

    go :
        (ws : List Worker)
        → (elim ws as (λ _. Engine WalManager) [
          | [] ↦ e
          | w ∷ ws ↦ cancel_all shut.0 closed
        ]).pending
          ≡ e.pending
    go [] = refl
    go (w ∷ ws) = (cancel_all-Keeps shut.0 closed).1

shut_down-IsQuiet :
    (works : Works) (d : Daemon) → IsQuiet d.engine → IsQuiet (shut_down works d).engine
unfolding shut_down
shut_down-IsQuiet works d (s, p) = (
  work_all-IsSound works (shutdown_begin ShutdownMode.drain d.engine)
      (unfold step in step-IsSound (Action.shuts_down ShutdownMode.drain) d.engine tt s),
  work_all-pending works (shutdown_begin ShutdownMode.drain d.engine)
      ∙ shutdown-pending ShutdownMode.drain d.engine
      ∙ p,
)

-- A join that returns found every worker at its end, and leaves the map as it was.
joined_ended :
    (d d' : Daemon)
    → join d ≡ some d'
    → (all_exited d.engine.workers ≡ true) × (d'.engine.records ≡ d.engine.records)
unfolding join join_workers
joined_ended d d' h = go (all_exited d.engine.workers) h
  where
    without : Engine WalManager
    without = record (d.engine) { workers = [] }

    kept : Option Daemon → Type 0
    kept none = Unit {0}
    kept (some c) = c.engine.records ≡ d.engine.records

    go :
        (b : Bool)
        → (elim (if b then some without else none) as (λ _. Option Daemon) [
          | none ↦ none
          | some e ↦ some (record d { engine = e })
        ])
          ≡ some d'
        → (b ≡ true) × (d'.engine.records ≡ d.engine.records)
    go false p = absurd (cc)
    go true p = (refl, subst kept p refl)

-- A daemon that serves any events, drains its engine and joins its workers, from a state in account
-- with no submission pending and while the counter of IDs has room: if the join returns, every job in
-- its map has ended, with its promise set exactly once, to what its snapshot says.
pub join-IsEnded :
    (events : List Event) (signal : Bool) (works : Works) (d d' : Daemon)
    → IsQuiet d.engine
    → HasRoom events (d, signal)
    → join (shut_down works (serve_loop events (d, signal)).0) ≡ some d'
    → (x : ℕ) (r : JobRecord) → find_record x d'.engine.records ≡ some r
    → IsEnded r
join-IsEnded events signal works d d' h room j x r f =
    let served = (serve_loop events (d, signal)).0 in
    let (sound, p) =
      shut_down-IsQuiet works served (serve_loop-IsQuiet events (d, signal) room h) in
    let (w, m) = joined_ended (shut_down works served) d' j in
    let (a, _, alive) = sound in
    served-IsEnded x (shut_down works served).engine r (a x) alive p w
      (ap (find_record x) (sym m) ∙ f)
