-- ===== src/Codec/Split.antt =====
-- Fields between separators: `split` of src/wal.cpp, `split_tabs` of src/protocol.cpp and
-- `split_payload` of src/task_factory.cpp are this function at three separators.
use omni_sched.Base.{
  ℕ, Bytes, List, [], ◌∷◌, ◌++◌, Option, none, some, ◌≡◌, ◌≢◌, refl, ◌==◌, if◌then◌else◌, All,
  arith,
}

-- A byte in front of the first field.
cons_head : ℕ → List Bytes → List Bytes
cons_head c [] = (c ∷ []) ∷ []
cons_head c (field ∷ fields) = (c ∷ field) ∷ fields

-- The loop over `find(separator, begin)`: the bytes before each separator, and those after the last.
unfoldable pub split_at : ℕ → Bytes → List Bytes
unfolding cons_head
split_at sep [] = [] ∷ []
split_at sep (c ∷ s) =
    let fields = split_at sep s in if c == sep then [] ∷ fields else cons_head c fields

-- `line.substr(0, line.rfind(separator))`; `none` for `npos`.
unfoldable pub before_last : ℕ → Bytes → Option Bytes
before_last sep [] = none
before_last sep (c ∷ s) = elim (before_last sep s) [
  | none ↦ if c == sep then some [] else none
  | some p ↦ some (c ∷ p)
]

abbrev pub Lacks : ℕ → Bytes → Type 0
Lacks b = All (λ c. c ≢ b)

pub split_at-append :
    (sep : ℕ) (p rest : Bytes)
    → Lacks sep p
    → split_at sep (p ++ sep ∷ rest) ≡ p ∷ split_at sep rest
unfolding split_at
split_at-append sep [] rest h = ground arith
split_at-append sep (c ∷ p) rest h = ground (arith, split_at-append sep p rest h.1)

pub split_at_last : (sep : ℕ) (p : Bytes) → Lacks sep p → split_at sep p ≡ p ∷ []
unfolding split_at
split_at_last sep [] h = refl
split_at_last sep (c ∷ p) h = ground (arith, split_at_last sep p h.1)

pub before_last-none : (sep : ℕ) (q : Bytes) → Lacks sep q → before_last sep q ≡ none
unfolding before_last
before_last-none sep [] h = refl
before_last-none sep (c ∷ q) h = ground (arith, before_last-none sep q h.1)

pub before_last-append :
    (sep : ℕ) (p q : Bytes) → Lacks sep q → before_last sep (p ++ sep ∷ q) ≡ some p
unfolding before_last
before_last-append sep [] q h = ground (arith, before_last-none sep q h)
before_last-append sep (c ∷ p) q h = ground (arith, before_last-append sep p q h)

-- A text holds at least one field.
pub split_at-ne-nil : (sep : ℕ) (s : Bytes) → split_at sep s ≢ []
unfolding split_at
split_at-ne-nil sep [] = λ e. cc
split_at-ne-nil sep (c ∷ s) = ground (arith, split_at-ne-nil sep s)
