-- ===== src/Engine/Apart.antt =====
-- Under which conditions the IDs of src/task_engine.cpp stay apart; what keeps them so.
use omni_sched.Base.{
  ℕ, ◌+◌, ◌<◌, text, Bool, true, false, Bool-cases, Option, none, some, List, [], ◌≡◌, ap, subst,
  ◌⊎◌, inl, inr, ◌==◌, ==_iff, not, if◌then◌else◌, get_elem?, invalid_argument, logic_error, ok,
  err, arith,
}
use omni_sched.Types.{unlimited_work, SubmissionOptions}
use omni_sched.Journal.{JobSubmissionRecord}
use omni_sched.Engine.Registry.{find_record}
use omni_sched.Engine.State.{Engine, next, advance_counter}
use omni_sched.Engine.Submit.{take_identity, reserve_recovered_identity}
use omni_sched.Engine.Step.{Action}
use omni_sched.Engine.Keys.{KeepsKeys}
use omni_sched.Engine.Fresh.{IsFresh, IsFresh-find_record, advanced, kept, below_mono}
use omni_sched.Engine.Sections.{Call, to_journal, System, submit_draw, begun, Move}
use omni_sched.Engine.Held.{hold, held, Clear, IsClear, Clear-frame, Clear-KeepsKeys, zero_more}
use omni_sched.Engine.Calls.{AdmitsCall}

-- The call at a place, if there is one, may go on.
abbrev pub AdmitsAt : {J : Type 0} → Option Call → System J → Type 0
AdmitsAt none s = Unit {0}
AdmitsAt (some call) s = AdmitsCall call s

-- The move does not wrap the counter of IDs around. An uninterrupted call that enters a job is made
-- while no other call is in its sections, and a restored job takes an identity that was reserved and
-- that no call of `submit` holds.
abbrev pub Admits : {J : Type 0} → Move → System J → Type 0
Admits (Move.whole (Action.submits options)) s =
    (s.engine.next_job_id < unlimited_work) × (s.calls ≡ [])
Admits (Move.whole (Action.restores submission)) s =
    (submission.id < unlimited_work) × (s.calls ≡ [])
Admits (Move.whole (Action.reserves submission)) s = submission.id < unlimited_work
Admits (Move.draws options) s = s.engine.next_job_id < unlimited_work
Admits (Move.proceeds k) s = AdmitsAt (get_elem? s.calls k) s
Admits _ s = Unit {0}

-- The IDs of the map are below the counter, and those that calls hold are apart from them.
abbrev pub IsApart : {J : Type 0} → System J → Type 0
IsApart s = IsFresh s.engine × IsClear s

pub keeping-IsApart :
    {J : Type 0} (e e' : Engine J) (calls : List Call)
    → KeepsKeys e e'
    → IsApart (record { engine = e; calls = calls })
    → IsApart (record { engine = e'; calls = calls })
keeping-IsApart e e' calls k (h, c) = (kept e e' k h, λ x. Clear-KeepsKeys x e e' _ k (c x))

pub none-IsApart :
    {J : Type 0} (e : Engine J) (calls : List Call)
    → calls ≡ []
    → IsFresh e
    → IsApart (record { engine = e; calls = calls })
none-IsApart e calls z h = (h, λ x. inl (ap (held x) z))

pub reserve-IsApart :
    {J : Type 0} (submission : JobSubmissionRecord) (e : Engine J) (calls : List Call)
    → IsApart (record { engine = e; calls = calls })
    → IsApart (record { engine = (reserve_recovered_identity submission e).0; calls = calls })
unfolding reserve_recovered_identity
reserve-IsApart submission e calls (h, c) = elim (Bool-cases (submission.id == 0)) [
  | inl q ↦ rw q (h, c)
  | inr q ↦
      let l = (advanced e.next_job_id (next submission.id)).0 in
      rw q (
        below_mono _ _ _ l h,
        λ x.
            Clear-frame x e
              (record e {
                next_job_id = advance_counter e.next_job_id (next submission.id);
                next_sequence =
                    advance_counter e.next_sequence (next submission.submission_sequence);
              })
              (held x calls) (λ n. n) l (c x),
      )
]

drawn-Clear :
    {J : Type 0} (x : ℕ) (options : SubmissionOptions) (e : Engine J) (h : ℕ)
    → e.next_job_id < unlimited_work
    → IsFresh e
    → Clear x e h
    → Clear x (take_identity e) (hold x (to_journal e.next_job_id e.next_sequence options) + h)
unfolding take_identity
drawn-Clear x options e h l f c = elim (Bool-cases (e.next_job_id == x)) [
  | inl t ↦ rw t (own ((==_iff e.next_job_id x).0 t) c)
  | inr t ↦ rw t (
      zero_more x (take_identity e) h
        (Clear-frame x e (take_identity e) h (λ n. n) (omega arith) c))
]
  where
    own :
        e.next_job_id ≡ x
        → Clear x e h
        → (1 + h ≡ 0) ⊎ ((1 + h ≡ 1) × (x < next e.next_job_id) × (find_record x e.records ≡ none))
    own q (inl z) = inr (
      omega arith,
      omega arith,
      subst (λ y. find_record y e.records ≡ none) q (IsFresh-find_record e f),
    )
    own q (inr (o, b, n)) = absurd (omega arith)

pub draw-IsApart :
    {J : Type 0} (options : SubmissionOptions) (e : Engine J) (calls : List Call)
    → e.next_job_id < unlimited_work
    → IsApart (record { engine = e; calls = calls })
    → IsApart (begun calls (submit_draw options e))
unfolding submit_draw begun
draw-IsApart {J} options e calls l (h, c) = go (options.estimated_work_units == 0) (not e.accepting)
  where
    drawn : System J
    drawn = begun calls (take_identity e, ok (to_journal e.next_job_id e.next_sequence options))

    apart : IsApart drawn
    apart = (
      unfold take_identity in below_mono e.next_job_id (next e.next_job_id) _ (omega arith) h,
      λ x. drawn-Clear x options e (held x calls) l h (c x),
    )

    go :
        (a b : Bool)
        → IsApart (
            begun calls (
              if a
              then (
                e,
                err (invalid_argument (text "estimated work units must be greater than zero")),
              )
              else if b
              then (e, err (logic_error (text "task engine is not accepting submissions")))
              else (take_identity e, ok (to_journal e.next_job_id e.next_sequence options))))
    go true b = (h, c)
    go false true = (h, c)
    go false false = apart
