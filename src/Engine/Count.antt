-- ===== src/Engine/Count.antt =====
-- How often a job stands in the queue, in a pending push and in the hands of the workers.
use mathlib.Core.Logic.{∥∥₁_elim}
use mathlib.Core.List.{Perm, Permᴰ}
use native.Mathlib.Nat.{ℕ_set}
use omni_sched.Base.{
  ℕ, zero, suc, ◌+◌, ◌≤◌, Option, none, some, List, [], ◌∷◌, ◌≡◌, refl, sym, ◌∙◌, ◌==◌,
  if◌then◌else◌, get_elem?, set, ok, arith,
}
use omni_sched.Scheduler.{IScheduler, push, pop, drain, make_scheduler}
use omni_sched.Scheduler.Entry.{SchedulerEntry}
use omni_sched.Scheduler.Contract.{contents, push-perm, pop-Pops, Pops, drain-perm}
use omni_sched.Scheduler.Fifo
use omni_sched.Scheduler.Priority
use omni_sched.Scheduler.Sjf
use omni_sched.Scheduler.RoundRobin
use omni_sched.Engine.State.{Worker, Push}
use omni_sched.Engine.Queue.{push_all}
use omni_sched.Types.{SchedulerConfig, SchedulerKind}

abbrev pub one : ℕ → ℕ → ℕ
one x id = if id == x then 1 else 0

unfoldable pub queued : ℕ → List SchedulerEntry → ℕ
queued x [] = 0
queued x (e ∷ es) = one x e.id + queued x es

abbrev pub waiting : ℕ → List Push → ℕ
waiting x [] = 0
waiting x (p ∷ ps) = one x p.entry.id + waiting x ps

abbrev pub carries : ℕ → Worker → ℕ
carries x Worker.idle = 0
carries x (Worker.fetched entry budget) = one x entry.id
carries x (Worker.running id budget) = one x id
carries x (Worker.requeues entry) = one x entry.id
carries x Worker.exited = 0

abbrev pub runs : ℕ → Worker → ℕ
runs x (Worker.running id budget) = one x id
runs x _ = 0

abbrev pub is_live : Worker → ℕ
is_live Worker.exited = 0
is_live _ = 1

abbrev pub total : (Worker → ℕ) → List Worker → ℕ
total f [] = 0
total f (w ∷ ws) = f w + total f ws

pub total-set :
    (f : Worker → ℕ) (ws : List Worker) (k : ℕ) (w w' : Worker)
    → get_elem? ws k ≡ some w
    → total f (set ws k w') + f w ≡ total f ws + f w'
total-set f [] k w w' h = cc
total-set f (v ∷ ws) zero w w' h = ground arith
total-set f (v ∷ ws) (suc k) w w' h = omega (arith, total-set f ws k w w' h)

runs-le : (x : ℕ) (w : Worker) → runs x w ≤ carries x w
runs-le x (Worker.running id budget) = omega arith
runs-le x _ = omega arith

pub total-runs-le : (x : ℕ) (ws : List Worker) → total (runs x) ws ≤ total (carries x) ws
total-runs-le x [] = omega arith
total-runs-le x (w ∷ ws) = omega (arith, runs-le x w, total-runs-le x ws)

-- A job that a worker runs, the worker carries.
pub runs_others :
    (x : ℕ) (ws : List Worker) (k : ℕ) (w : Worker)
    → get_elem? ws k ≡ some w
    → total (runs x) ws + carries x w ≤ total (carries x) ws + runs x w
runs_others x [] k w h = cc
runs_others x (v ∷ ws) zero w h = ground (arith, total-runs-le x ws)
runs_others x (v ∷ ws) (suc k) w h = omega (arith, runs-le x v, runs_others x ws k w h)

queued-perm : (x : ℕ) {es fs : List SchedulerEntry} → Permᴰ es fs → queued x es ≡ queued x fs
unfolding queued
queued-perm x Permᴰ.nil = refl
queued-perm x (Permᴰ.cons e p) = ground (arith, queued-perm x p)
queued-perm x (Permᴰ.swap e f) = ground arith
queued-perm x (Permᴰ.trans p q) = queued-perm x p ∙ queued-perm x q

pub queued-Perm : (x : ℕ) {es fs : List SchedulerEntry} → Perm es fs → queued x es ≡ queued x fs
queued-Perm x p = ∥∥₁_elim p (ℕ_set _ _) (queued-perm x)

pub queued-push :
    (x : ℕ) (s : IScheduler) (e : SchedulerEntry)
    → queued x (contents (push s e)) ≡ one x e.id + queued x (contents s)
queued-push x s e = queued-Perm x (push-perm s e).0 ∙ unfold queued in refl

-- What a `pop` takes away.
abbrev pub popped : ℕ → Option SchedulerEntry × IScheduler → ℕ
popped x (none, s) = queued x (contents s)
popped x (some e, s) = one x e.id + queued x (contents s)

pub queued-pop : (x : ℕ) (s : IScheduler) → queued x (contents s) ≡ popped x (pop s)
queued-pop x s = go (pop s) (pop-Pops s)
  where
    go :
        (r : Option SchedulerEntry × IScheduler)
        → Pops (contents s) r
        → queued x (contents s) ≡ popped x r
    go (none, s') (e, e') = rw (e, e')
    go (some e, s') p = queued-Perm x p ∙ unfold queued in refl

pub queued-drain :
    (x : ℕ) (s : IScheduler)
    → (queued x (drain s).0 ≡ queued x (contents s)) × (contents (drain s).1 ≡ [])
queued-drain x s = let (p, e) = drain-perm s in (sym (queued-Perm x p), e)

pub queued-push_all :
    (x : ℕ) (s : IScheduler) (es : List SchedulerEntry)
    → queued x (contents (push_all s es)) ≡ queued x es + queued x (contents s)
unfolding queued push_all
queued-push_all x s [] = omega arith
queued-push_all x s (e ∷ es) = omega (arith, queued-push_all x (push s e) es, queued-push x s e)

contents-make :
    (k : SchedulerKind) (q : ℕ) {s : IScheduler}
    → make_scheduler (record { kind = k; quantum = q }) ≡ ok s
    → contents s ≡ []
unfolding make_scheduler Fifo.init Priority.init Sjf.init RoundRobin.init
contents-make SchedulerKind.fifo q h = ground arith
contents-make SchedulerKind.priority q h = ground arith
contents-make SchedulerKind.shortest_job_first q h = ground arith
contents-make SchedulerKind.round_robin q h = ground arith

-- A new scheduler is empty.
pub contents-make_scheduler :
    (config : SchedulerConfig) {s : IScheduler} → make_scheduler config ≡ ok s → contents s ≡ []
contents-make_scheduler config h = contents-make config.kind config.quantum h
