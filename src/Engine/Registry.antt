-- ===== src/Engine/Registry.antt =====
-- `records_` of src/task_engine.cpp, the map from job IDs to records, as an association list.
use omni_sched.Base.{
  ℕ, Bool, true, false, Option, none, some, List, [], ◌∷◌, ◌++◌, ◌≡◌, refl, ◌==◌, if◌then◌else◌,
  arith,
}
use omni_sched.Engine.Job.{JobRecord}

abbrev pub Registry : Type 0
Registry = List (ℕ × JobRecord)

unfoldable pub find_record : ℕ → Registry → Option JobRecord
find_record id [] = none
find_record id ((key, r) ∷ records) = if key == id then some r else find_record id records

-- The record that `find_record` returns is shared: assigning to it changes the map's.
unfoldable pub store : ℕ → JobRecord → Registry → Registry
store id r [] = []
store id r ((key, old) ∷ records) =
    if key == id then (key, r) ∷ records else (key, old) ∷ store id r records

-- `emplace`: a key that is there keeps its record.
unfoldable pub emplace : ℕ → JobRecord → Registry → Registry × Bool
emplace id r records = elim (find_record id records) [
  | some old ↦ (records, false)
  | none ↦ (records ++ (id, r) ∷ [], true)
]

pub find_record-store :
    (x id : ℕ) (r : JobRecord) (records : Registry)
    → find_record x (store id r records) ≡ (
        if id == x
        then (elim (find_record id records) [ none ↦ none | some old ↦ some r ])
        else find_record x records)
unfolding find_record store
find_record-store x id r [] = ground arith
find_record-store x id r ((key, old) ∷ records) = ground (arith, find_record-store x id r records)

pub find_record_end :
    (x id : ℕ) (r : JobRecord) (records : Registry)
    → find_record id records ≡ none
    → find_record x (records ++ (id, r) ∷ []) ≡ (if id == x then some r else find_record x records)
unfolding find_record
find_record_end x id r [] h = refl
find_record_end x id r ((key, old) ∷ records) h = ground (arith, find_record_end x id r records)
