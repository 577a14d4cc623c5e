-- ===== src/Engine/Placed.antt =====
-- Where a job of src/task_engine.cpp is after a step of a worker.
use omni_sched.Base.{
  ℕ, ◌+◌, Bool, true, false, Option, some, ◌≡◌, refl, ◌∙◌, subst, ◌==◌, if◌then◌else◌, arith,
}
use omni_sched.Types.{JobState}
use omni_sched.Engine.Job.{JobRecord}
use omni_sched.Engine.Registry.{find_record, find_record-store}
use omni_sched.Engine.State.{Engine, Worker, put_record}
use omni_sched.Engine.Count.{carries, runs, one}
use omni_sched.Engine.Accounting.{IsAt, Stands}

-- Where the job `y` is after a step of a worker that leaves so many other places.
abbrev pub Placed : {J : Type 0} → ℕ → ℕ → ℕ → Engine J × Worker → Type 0
Placed y h n (e, w) = IsAt y (find_record y e.records) (carries y w + h) (runs y w + n)

pub IsAt-places :
    (y : ℕ) (o : Option JobRecord) {h h' n n' : ℕ} → h ≡ h' → n ≡ n' → IsAt y o h n → IsAt y o h' n'
IsAt-places y o {h} {h'} {n} {n'} p q d =
    subst (λ k. IsAt y o k n') p (subst (λ k. IsAt y o h k) q d)

pub stands_in :
    {s t : JobState} → s ≡ t → (r : JobRecord) (h n : ℕ) → Stands s r h n → Stands t r h n
stands_in e r h n d = subst (λ u. Stands u r h n) e d

pub one_self : (y : ℕ) → one y y ≡ 1
one_self y = ground arith

pub one-at : {x y : ℕ} → x ≡ y → one y x ≡ 1
one-at h = ground arith

pub either :
    {J : Type 0} (y h n : ℕ) (b : Bool) (out out' : Engine J × Worker)
    → Placed y h n out
    → Placed y h n out'
    → Placed y h n (if b then out else out')
either y h n true out out' p q = p
either y h n false out out' p q = q

pub put-own :
    {J : Type 0} (id : ℕ) (e : Engine J) (r r' : JobRecord) (j : Option J)
    → find_record id e.records ≡ some r
    → find_record id (put_record id e (r', j)).records ≡ some r'
unfolding put_record
put-own id e r r' j f = find_record-store id id r' e.records ∙ rw (same, f) refl
  where
    same : (id == id) ≡ true
    same = ground arith
