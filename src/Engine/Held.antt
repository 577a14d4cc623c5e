-- ===== src/Engine/Held.antt =====
-- The IDs that the calls of clients hold between the sections of src/task_engine.cpp.
use omni_sched.Base.{
  ℕ, zero, suc, ◌+◌, ◌≤◌, ◌<◌, false, Bool-cases, none, some, Option-cases, List, [], ◌∷◌, ◌++◌,
  ◌≡◌, refl, ap, ◌∙◌, subst, ◌⊎◌, inl, inr, ◌==◌, if◌then◌else◌, get_elem?, arith,
}
use omni_sched.Engine.Job.{JobRecord}
use omni_sched.Engine.Registry.{Registry, find_record, emplace, find_record_end}
use omni_sched.Engine.State.{Engine}
use omni_sched.Engine.Count.{one}
use omni_sched.Engine.Keys.{keys, KeepsKeys}
use omni_sched.Engine.Sections.{Call, to_journal, to_emplace, System, without}

-- The ID that a call of `submit` has drawn and not put into the map.
abbrev pub hold : ℕ → Call → ℕ
hold x (to_journal id sequence options) = one x id
hold x (to_emplace id sequence options) = one x id
hold x _ = 0

abbrev pub held : ℕ → List Call → ℕ
held x [] = 0
held x (c ∷ calls) = hold x c + held x calls

pub held-without :
    (x k : ℕ) (c : Call) (calls : List Call)
    → get_elem? calls k ≡ some c
    → hold x c + held x (without k calls) ≡ held x calls
unfolding without
held-without x k c [] h = cc
held-without x zero c (d ∷ calls) h = ground arith
held-without x (suc k) c (d ∷ calls) h = omega (arith, held-without x k c calls h)

pub held-append : (x : ℕ) (cs ds : List Call) → held x (cs ++ ds) ≡ held x cs + held x ds
held-append x [] ds = omega arith
held-append x (c ∷ cs) ds = omega (arith, held-append x cs ds)

-- So many calls hold the ID: none, or one, and then the counter is past it and the map has it not.
abbrev pub Clear : {J : Type 0} → ℕ → Engine J → ℕ → Type 0
Clear x e h = (h ≡ 0) ⊎ ((h ≡ 1) × (x < e.next_job_id) × (find_record x e.records ≡ none))

abbrev pub IsClear : {J : Type 0} → System J → Type 0
IsClear s = (x : ℕ) → Clear x s.engine (held x s.calls)

pub Clear-frame :
    {J : Type 0} (x : ℕ) (e e' : Engine J) (h : ℕ)
    → (find_record x e.records ≡ none → find_record x e'.records ≡ none)
    → e.next_job_id ≤ e'.next_job_id
    → Clear x e h
    → Clear x e' h
Clear-frame x e e' h f l (inl z) = inl z
Clear-frame x e e' h f l (inr (o, b, n)) = inr (o, omega arith, f n)

pub Clear-fewer : {J : Type 0} (x : ℕ) (e : Engine J) (a h : ℕ) → Clear x e (a + h) → Clear x e h
Clear-fewer x e a zero p = inl refl
Clear-fewer x e a (suc h) (inl z) = absurd (omega arith)
Clear-fewer x e a (suc h) (inr (o, b, n)) = inr (omega arith, b, n)

pub zero_more : {J : Type 0} (x : ℕ) (e : Engine J) (h : ℕ) → Clear x e h → Clear x e (0 + h)
zero_more x e h c = subst (λ n. Clear x e n) (omega arith) c

keys-none :
    (x : ℕ) (rs rs' : Registry)
    → keys rs' ≡ keys rs
    → find_record x rs ≡ none
    → find_record x rs' ≡ none
unfolding find_record
keys-none x [] [] q h = refl
keys-none x [] ((k', r') ∷ rs') q h = absurd (cc)
keys-none x ((k, r) ∷ rs) [] q h = refl
keys-none x ((k, r) ∷ rs) ((k', r') ∷ rs') q h =
    let a : k' ≡ k = cc in
    let b : keys rs' ≡ keys rs = cc in
    elim (Bool-cases (k == x)) [
      | inl e ↦ absurd (ground arith)
      | inr e ↦ let c : find_record x rs ≡ none = ground arith in rw (a, e) (keys-none x rs rs' b c)
    ]

pub Clear-KeepsKeys :
    {J : Type 0} (x : ℕ) (e e' : Engine J) (h : ℕ) → KeepsKeys e e' → Clear x e h → Clear x e' h
Clear-KeepsKeys x e e' h (p, q) c =
    Clear-frame x e e' h (keys-none x e.records e'.records p) (omega (arith, q)) c

pub emplaced_none :
    (x id : ℕ) (r : JobRecord) (records : Registry)
    → (id == x) ≡ false
    → find_record x records ≡ none
    → find_record x (emplace id r records).0 ≡ none
unfolding emplace find_record
emplaced_none x id r records e h = elim (Option-cases (find_record id records)) [
  | inl n ↦ rw (emplace, n, find_record_end x id r records n, e) h
  | inr (old, s) ↦ rw (emplace, s) h
]

-- A record enters under an ID that no other call holds.
pub entered-Clear :
    {J : Type 0} (x id : ℕ) (r : JobRecord) (e e' : Engine J) (h : ℕ)
    → e'.records ≡ (emplace id r e.records).0
    → e'.next_job_id ≡ e.next_job_id
    → Clear x e (one x id + h)
    → Clear x e' h
entered-Clear x id r e e' h p q c = elim (Bool-cases (id == x)) [
  | inl t ↦ inl (only (subst (λ b. Clear x e ((if b then 1 else 0) + h)) t c))
  | inr t ↦
      Clear-frame x e e' h (λ n. ap (find_record x) p ∙ emplaced_none x id r e.records t n)
        (omega (arith, q)) (Clear-fewer x e (one x id) h c)
]
  where
    only : Clear x e (1 + h) → h ≡ 0
    only (inl z) = absurd (omega arith)
    only (inr (o, _, _)) = omega arith
