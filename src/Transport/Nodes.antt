-- ===== src/Transport/Nodes.antt =====
-- `create_fifo` of src/fifo.cpp: which paths it replaces.
use omni_sched.Base.{
  ℕ, Bytes, text, Bool, true, false, Option, none, some, List, ◌∷◌, ◌++◌, ◌==◌, ==_iff, not,
  if◌then◌else◌, ◌≡◌, refl, ◌⊎◌, inl, inr, Error, runtime_error, Result, ok, err,
}
use omni_sched.Transport.Server.{
  Node, missing, fifo, other, close, CreateCalls, make_fifo, replace_stale, replace_inspected,
  create_fifo, Descriptor, unlink_if,
}

-- A path that may be replaced: it names nothing, or a FIFO of the user.
abbrev pub IsOurs : ℕ → Node → Type 0
IsOurs uid missing = Unit {0}
IsOurs uid (fifo owner) = owner ≡ uid
IsOurs uid other = ⊥

-- A path was left alone, or could be replaced and names nothing.
abbrev pub Spared : ℕ → Node → Node → Type 0
Spared uid before after = (after ≡ before) ⊎ (IsOurs uid before × (after ≡ missing))

abbrev pub Creates : ℕ → Node → Node × Result (Unit {0}) → Type 0
Creates uid before (node, err error) = Spared uid before node
Creates uid before (node, ok done) = IsOurs uid before × (node ≡ fifo uid)

make_fifo-Creates :
    (uid : ℕ) (calls : CreateCalls) (before : Node)
    → IsOurs uid before
    → Creates uid before (make_fifo uid calls)
unfolding make_fifo
make_fifo-Creates uid calls before h = go calls.mkfifo
  where
    go :
        (o : Option Error)
        → Creates uid before (elim o as (λ _. Node × Result (Unit {0})) [
          | some error ↦ (missing, err error)
          | none ↦ (fifo uid, ok tt)
        ])
    go none = (h, refl)
    go (some error) = inr (h, refl)

replace_stale-Creates :
    (uid : ℕ) (calls : CreateCalls) (node : Node)
    → IsOurs uid node
    → Creates uid node (replace_stale uid calls node)
unfolding replace_stale
replace_stale-Creates uid calls node h = go calls.unlink
  where
    go :
        (o : Option Error)
        → Creates uid node (elim o as (λ _. Node × Result (Unit {0})) [
          | some error ↦ (node, err error)
          | none ↦ make_fifo uid calls
        ])
    go none = make_fifo-Creates uid calls node h
    go (some error) = inl refl

replace_inspected-Creates :
    (uid : ℕ) (calls : CreateCalls) (path : Bytes) (node : Node)
    → Creates uid node (replace_inspected uid calls path node)
unfolding replace_inspected
replace_inspected-Creates uid calls path missing = make_fifo-Creates uid calls missing tt
replace_inspected-Creates uid calls path other = inl refl
replace_inspected-Creates uid calls path (fifo owner) = go (owner == uid) refl
  where
    go :
        (b : Bool)
        → (owner == uid) ≡ b
        → Creates uid (fifo owner) (
            if not b
            then (
              fifo owner,
              err (runtime_error (text "refusing to replace unsafe IPC path: " ++ path)),
            )
            else replace_stale uid calls (fifo owner))
    go true p = replace_stale-Creates uid calls (fifo owner) ((==_iff owner uid).0 p)
    go false p = inl refl

pub create_fifo-Creates :
    (uid : ℕ) (calls : CreateCalls) (path : Bytes) (node : Node)
    → Creates uid node (create_fifo uid calls path node)
unfolding create_fifo
create_fifo-Creates uid calls path node = go calls.lstat
  where
    go :
        (o : Option Error)
        → Creates uid node (elim o as (λ _. Node × Result (Unit {0})) [
          | some error ↦ (node, err error)
          | none ↦ replace_inspected uid calls path node
        ])
    go none = replace_inspected-Creates uid calls path node
    go (some error) = inl refl

-- What `unlink` leaves of a FIFO that was made: nothing, or the FIFO if it failed.
abbrev pub Left : ℕ → Bool → Node → Node → Type 0
Left uid succeeds before after =
    Spared uid before after ⊎ (IsOurs uid before × (after ≡ fifo uid) × (succeeds ≡ false))

pub unlink-Left :
    (uid : ℕ) (succeeds : Bool) (before after : Node)
    → IsOurs uid before
    → after ≡ fifo uid
    → Left uid succeeds before (unlink_if true succeeds after)
unfolding unlink_if
unlink-Left uid true before after h p = inl (inr (h, refl))
unlink-Left uid false before after h p = inr (h, p, refl)

-- The descriptor in front is closed.
pub close_front : (d : Descriptor) (ds : List Descriptor) → close d.number (d ∷ ds) ≡ ds
unfolding close
close_front d ds = rw ((==_iff d.number d.number).1 refl)
