-- ===== src/Engine/Calls.antt =====
-- The IDs that the calls of clients hold, over one section of src/task_engine.cpp.
use omni_sched.Base.{
  ℕ, ◌+◌, ◌≤◌, ◌<◌, Bool-cases, Option, none, some, List, [], ◌∷◌, ◌≡◌, refl, sym, ap, ◌∙◌, subst,
  inl, inr, ◌==◌, ==_iff, get_elem?, Result, ok, err, arith,
}
use omni_sched.Types.{SubmissionOptions}
use omni_sched.Journal.{JobSubmissionRecord, IJobJournal}
use omni_sched.Engine.Job.{JobRecord, new_record}
use omni_sched.Engine.Registry.{find_record}
use omni_sched.Engine.State.{Engine, next, enter}
use omni_sched.Engine.Submit.{
  submission_snapshot, submission_entry, restored_snapshot, restored_entry,
}
use omni_sched.Engine.Count.{one}
use omni_sched.Engine.Keys.{KeepsKeys}
use omni_sched.Engine.Fresh.{
  IsFresh, emplaced_below, below_mono, advanced, kept, submission-KeepsKeys,
}
use omni_sched.Engine.Sections.{
  Call, to_journal, to_emplace, to_restore, to_advance, System, restored_push, behind_journal,
  advance_counters, emplace_restored, without, proceed,
}
use omni_sched.Engine.Held.{
  hold, held, held-without, Clear, IsClear, Clear-frame, Clear-fewer, zero_more, Clear-KeepsKeys,
  emplaced_none, entered-Clear,
}

pub behind-Clear :
    {J : Type 0} (x : ℕ) (call : Call) (e : Engine J) (out : Engine J × Result (Unit {0})) (h : ℕ)
    → KeepsKeys e out.0
    → Clear x e (hold x call + h)
    → Clear x (behind_journal call out).0 (held x (behind_journal call out).1 + h)
unfolding behind_journal
behind-Clear x call e (e', err error) h k c =
    zero_more x e' h (Clear-KeepsKeys x e e' h k (Clear-fewer x e (hold x call) h c))
behind-Clear x call e (e', ok u) h k c =
    subst (λ n. Clear x e' (n + h)) (omega arith) (Clear-KeepsKeys x e e' (hold x call + h) k c)

-- The next section of a call may be run: the wrap of the counter is excluded, and a restored job takes
-- an identity that was reserved and that no call of `submit` holds.
abbrev pub AdmitsCall : {J : Type 0} → Call → System J → Type 0
AdmitsCall (to_restore submission) s =
    (submission.id < s.engine.next_job_id) × (held submission.id s.calls ≡ 0)
AdmitsCall _ s = Unit {0}

zero_sum : (n : ℕ) → 0 + n ≡ n
zero_sum n = omega arith

pub behind-IsFresh :
    {J : Type 0} (call : Call) (e : Engine J) (out : Engine J × Result (Unit {0}))
    → KeepsKeys e out.0
    → IsFresh e
    → IsFresh (behind_journal call out).0
unfolding behind_journal
behind-IsFresh call e (e', err error) k h = kept e e' k h
behind-IsFresh call e (e', ok u) k h = kept e e' k h

restored-IsFresh :
    {J : Type 0} (submission : JobSubmissionRecord) (e : Engine J)
    → submission.id < e.next_job_id
    → IsFresh e
    → IsFresh (emplace_restored submission e).0
unfolding emplace_restored enter restored_entry
restored-IsFresh {J} submission e l h = go (find_record submission.id e.records)
  where
    r : JobRecord
    r = new_record (restored_snapshot submission) (restored_entry submission)

    go :
        (o : Option JobRecord)
        → IsFresh
            (elim o as (λ _. Engine J × List Call) [
              | some old ↦ (e, [])
              | none ↦ (enter (restored_push submission) r e, to_advance submission ∷ [])
            ]).0
    go (some old) = h
    go none = emplaced_below e.next_job_id submission.id r e.records l h

one_is : (x : ℕ) → one x x ≡ 1
one_is x = ground arith

-- An ID that a call has drawn is below the counter and not in the map.
pub drawn_new :
    {J : Type 0} (k id sequence : ℕ) (options : SubmissionOptions) (s : System J)
    → get_elem? s.calls k ≡ some (to_emplace id sequence options)
    → IsClear s
    → (id < s.engine.next_job_id) × (find_record id s.engine.records ≡ none)
drawn_new k id sequence options s g c = go (c id)
  where
    some_held : 1 ≤ held id s.calls
    some_held =
        omega (arith, one_is id, held-without id k (to_emplace id sequence options) s.calls g)

    go :
        Clear id s.engine (held id s.calls)
        → (id < s.engine.next_job_id) × (find_record id s.engine.records ≡ none)
    go (inl z) = absurd (omega (arith, some_held))
    go (inr (o, b, n)) = (b, n)

module _ {J : Type 0} ⦃impl : IJobJournal J⦄ where
  restored-Clear :
      (x : ℕ) (submission : JobSubmissionRecord) (e : Engine J) (h : ℕ)
      → (submission.id ≡ x → h ≡ 0)
      → Clear x e h
      → Clear x (emplace_restored submission e).0 (held x (emplace_restored submission e).1 + h)
  unfolding emplace_restored enter restored_entry
  restored-Clear x submission e h q c = go (find_record submission.id e.records)
    where
      r : JobRecord
      r = new_record (restored_snapshot submission) (restored_entry submission)

      go :
          (o : Option JobRecord)
          → let out : Engine J × List Call = elim o as (λ _. Engine J × List Call) [
            | some old ↦ (e, [])
            | none ↦ (enter (restored_push submission) r e, to_advance submission ∷ [])
          ] in
            Clear x out.0 (held x out.1 + h)
      go (some old) = zero_more x e h c
      go none =
          zero_more x (enter (restored_push submission) r e) h
            (elim (Bool-cases (submission.id == x)) [
              | inl t ↦ inl (q ((==_iff submission.id x).0 t))
              | inr t ↦
                  Clear-frame x e (enter (restored_push submission) r e) h
                    (emplaced_none x submission.id r e.records t) (omega arith) c
            ])

  pub proceed-Clear :
      (x k : ℕ) (c : Call) (s : System J)
      → get_elem? s.calls k ≡ some c
      → AdmitsCall c s
      → Clear x s.engine (held x s.calls)
      → Clear x (proceed c s.engine).0 (held x (proceed c s.engine).1 + held x (without k s.calls))
  unfolding proceed
  proceed-Clear x k (to_journal id sequence options) s g a c =
      behind-Clear x (to_emplace id sequence options) s.engine _ (held x (without k s.calls))
        (submission-KeepsKeys s.engine.journal _ options s.engine)
        (subst (λ n. Clear x s.engine n)
          (sym (held-without x k (to_journal id sequence options) s.calls g)) c)
  proceed-Clear x k (to_emplace id sequence options) s g a c =
      zero_more x (proceed (to_emplace id sequence options) s.engine).0 (held x (without k s.calls))
        (entered-Clear x id
          (new_record (submission_snapshot id sequence options)
            (submission_entry id sequence options))
          s.engine (proceed (to_emplace id sequence options) s.engine).0
          (held x (without k s.calls)) (unfold enter submission_entry in refl)
          (unfold enter in refl)
          (subst (λ n. Clear x s.engine n)
            (sym (held-without x k (to_emplace id sequence options) s.calls g)) c))
  proceed-Clear x k (to_restore submission) s g (l, z) c =
      restored-Clear x submission s.engine (held x (without k s.calls))
        (λ q.
          sym (zero_sum _)
          ∙ held-without x k (to_restore submission) s.calls g
          ∙ ap (λ y. held y s.calls) (sym q)
          ∙ z)
        (Clear-fewer x s.engine 0 (held x (without k s.calls)) (
          subst (λ n. Clear x s.engine n) (sym (held-without x k (to_restore submission) s.calls g))
            c))
  proceed-Clear x k (to_advance submission) s g a c =
      Clear-frame x s.engine (proceed (to_advance submission) s.engine).0
        (0 + held x (without k s.calls)) (unfold advance_counters in λ n. n)
        (unfold advance_counters in (advanced s.engine.next_job_id (next submission.id)).0)
        (subst (λ n. Clear x s.engine n) (sym (held-without x k (to_advance submission) s.calls g))
          c)

  pub proceed-IsFresh :
      (k : ℕ) (c : Call) (s : System J)
      → get_elem? s.calls k ≡ some c
      → AdmitsCall c s
      → IsClear s
      → IsFresh s.engine
      → IsFresh (proceed c s.engine).0
  unfolding proceed
  proceed-IsFresh k (to_journal id sequence options) s g a c h =
      behind-IsFresh (to_emplace id sequence options) s.engine _
        (submission-KeepsKeys s.engine.journal _ options s.engine) h
  proceed-IsFresh k (to_emplace id sequence options) s g a c h =
      unfold enter submission_entry in
      emplaced_below s.engine.next_job_id id _ s.engine.records
        (drawn_new k id sequence options s g c).0 h
  proceed-IsFresh k (to_restore submission) s g (l, z) c h =
      restored-IsFresh submission s.engine l h
  proceed-IsFresh k (to_advance submission) s g a c h =
      unfold advance_counters in
      below_mono _ _ _ (advanced s.engine.next_job_id (next submission.id)).0 h
