-- ===== src/Engine/Reached.antt =====
-- The states that src/task_engine.cpp comes to, its calls cut into their sections, and where every job
-- stands in them.
use omni_sched.Base.{ℕ, Option, none, some, List, [], ◌∷◌, ◌≡◌, refl, inl, ap, ◌∙◌, ok, get_elem?}
use omni_sched.Types.{SchedulerConfig}
use omni_sched.Journal.{IJobJournal}
use omni_sched.Engine.State
use omni_sched.Engine.State.{Engine}
use omni_sched.Engine.StepPlaces.{Accounted}
use omni_sched.Engine.Fresh.{IsFresh-find_record}
use omni_sched.Engine.Invariant.{
  step-Accounted, init-Accounted, init-IsFresh, RunsAlone, runs_alone,
}
use omni_sched.Engine.Sections.{
  Call, System, restore_start, without, proceed, proceed_at, Move, move, run_moves,
}
use omni_sched.Engine.Held.{IsClear}
use omni_sched.Engine.Calls.{drawn_new}
use omni_sched.Engine.Apart.{Admits, IsApart}
use omni_sched.Engine.Admitted.{move-IsApart}
use omni_sched.Engine.SectionPlaces.{
  draw-Accounted, followed-Accounted, close-Accounted, cancel_drained-Accounted,
  restore_start-Accounted, proceed-Accounted,
}

-- Each of the moves is admitted where it is made.
abbrev pub AdmitsAll : {J : Type 0} ⦃impl : IJobJournal J⦄ → List Move → System J → Type 0
AdmitsAll [] s = Unit {0}
AdmitsAll (m ∷ moves) s = Admits m s × AdmitsAll moves (move m s)

-- A new engine and any admitted moves.
pub data Reachable {J : Type 0} ⦃impl : IJobJournal J⦄ : System J → Type 0 where
  initially :
      (config : SchedulerConfig) (n : ℕ) (journal : Option J) {e : Engine J}
      → State.init config n journal ≡ ok e
      → Reachable (record { engine = e; calls = [] })
  after : (m : Move) {s : System J} → Admits m s → Reachable s → Reachable (move m s)

module _ {J : Type 0} ⦃impl : IJobJournal J⦄ where
  proceed_at-Accounted :
      (x k : ℕ) (o : Option Call) (s : System J)
      → get_elem? s.calls k ≡ o
      → IsClear s
      → Accounted x s.engine
      → Accounted x (proceed_at k o s).engine
  unfolding proceed_at
  proceed_at-Accounted x k none s g c p = p
  proceed_at-Accounted x k (some call) s g c p =
      followed-Accounted x (without k s.calls) (proceed call s.engine) (
        proceed-Accounted x call s.engine
          (λ id sequence options q. (drawn_new k id sequence options s (g ∙ ap some q) c).1) p)

  -- A move keeps every job in account if the IDs are apart.
  move-Accounted :
      (m : Move) (s : System J)
      → IsApart s
      → ((y : ℕ) → Accounted y s.engine)
      → (x : ℕ) → Accounted x (move m s).engine
  unfolding move
  move-Accounted (Move.whole a) s (f, c) p x =
      step-Accounted a s.engine (IsFresh-find_record s.engine f) p x
  move-Accounted (Move.draws options) s h p x = draw-Accounted x options s.calls s.engine (p x)
  move-Accounted (Move.begins_restore submission) s h p x =
      followed-Accounted x s.calls (restore_start submission s.engine)
        (restore_start-Accounted x submission s.engine (p x))
  move-Accounted (Move.proceeds k) s (f, c) p x =
      proceed_at-Accounted x k (get_elem? s.calls k) s refl c (p x)
  move-Accounted (Move.closes mode) s h p x = close-Accounted x mode s.engine (p x)
  move-Accounted Move.cancels_drained s h p x = cancel_drained-Accounted x s.engine (p x)

  Reachable-IsApart : {s : System J} → Reachable s → IsApart s
  Reachable-IsApart (Reachable.initially config n journal {e} h) =
      (init-IsFresh config n journal e h, λ x. inl refl)
  Reachable-IsApart (Reachable.after m {s} a r) = move-IsApart m s a (Reachable-IsApart r)

  -- In every reachable state, the states between the sections of `submit`, `restore` and `shutdown`
  -- included, every job is in account: ready in exactly one place (the queue, a submission that is to
  -- be pushed, the entries that a `shutdown` drained, or a worker), running in the hands of exactly
  -- one worker, or ended with its promise set exactly once, to what its snapshot says. A state is
  -- reached from a new engine by any moves of the clients, the workers, the tasks and the journal
  -- that `Admits` allows: the counter of IDs does not wrap around, a `restore` in sections enters an
  -- ID that is below the counter while no `submit` is between drawing that ID and its own entry into
  -- the map, and a `submit` or `restore` that is one move begins while no other call of the two is
  -- between its sections.
  pub Reachable-Accounted : {s : System J} → Reachable s → (x : ℕ) → Accounted x s.engine
  Reachable-Accounted (Reachable.initially config n journal h) x = init-Accounted x _ _ _ _ h
  Reachable-Accounted (Reachable.after m {s} a r) x =
      move-Accounted m s (Reachable-IsApart r) (λ y. Reachable-Accounted r y) x

  -- In a reachable state no job is run by two workers at once, or is anywhere else (in the queue, in a
  -- submission that is to be pushed, among the entries that a `shutdown` drained, or with another
  -- worker) while one runs it. Reachable states are those that moves which `Admits` allows lead to.
  pub Reachable-RunsAlone : {s : System J} → Reachable s → (x : ℕ) → RunsAlone x s.engine
  Reachable-RunsAlone {s} r x = runs_alone x s.engine (Reachable-Accounted r x)

  pub run_moves-Reachable :
      (moves : List Move) (s : System J)
      → AdmitsAll moves s
      → Reachable s
      → Reachable (run_moves moves s)
  unfolding run_moves
  run_moves-Reachable [] s f r = r
  run_moves-Reachable (m ∷ moves) s (f, fs) r =
      run_moves-Reachable moves (move m s) fs (Reachable.after m f r)
