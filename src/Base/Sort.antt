-- ===== src/Base/Sort.antt =====
-- `std::sort` by a numeric key. The standard leaves the order of equal keys open; here it is the
-- order in which they stand.
use Prim.Native.Nat.{ℕ, ◌≤◌}
use mathlib.Core.Logic.{inl, inr}
use mathlib.Core.List.{List, [], ◌∷◌, Perm}
use mathlib.Core.List.Perm
use native.Mathlib.Omega.{arith}
use omni_sched.Base.Tests.{leb, if◌then◌else◌, Bool-cases}
use omni_sched.Base.Predicates.{All, All-mono, InOrder}

module _ {A : Type 0} (key : A → ℕ) where
  insert : A → List A → List A
  insert a [] = a ∷ []
  insert a (b ∷ bs) = let rest = insert a bs in if leb (key a) (key b) then a ∷ b ∷ bs else b ∷ rest

  unfoldable pub sort_by : List A → List A
  unfolding insert
  sort_by [] = []
  sort_by (a ∷ xs) = insert a (sort_by xs)

  insert-perm : (a : A) (bs : List A) → Perm (a ∷ bs) (insert a bs)
  unfolding insert
  insert-perm a [] = Perm.refl _
  insert-perm a (b ∷ bs) = elim (Bool-cases (leb (key a) (key b))) [
    | inl e ↦ rw e (Perm.refl _)
    | inr e ↦ rw e (Perm.trans (Perm.swap b a bs) (Perm.cons b (insert-perm a bs)))
  ]

  pub sort_by-perm : (xs : List A) → Perm xs (sort_by xs)
  unfolding sort_by
  sort_by-perm [] = Perm.refl _
  sort_by-perm (a ∷ xs) = Perm.trans (Perm.cons a (sort_by-perm xs)) (insert-perm a (sort_by xs))

  abbrev pub KeyLe : A → A → Type 0
  KeyLe a b = key a ≤ key b

  insert-All : (P : A → Type 0) (a : A) (bs : List A) → P a → All P bs → All P (insert a bs)
  unfolding insert
  insert-All P a [] pa h = (pa, tt)
  insert-All P a (b ∷ bs) pa h = elim (Bool-cases (leb (key a) (key b))) [
    | inl e ↦ rw e (pa, (h.0, h.1))
    | inr e ↦ rw e (h.0, insert-All P a bs pa h.1)
  ]

  insert-InOrder : (a : A) (bs : List A) → InOrder KeyLe bs → InOrder KeyLe (insert a bs)
  unfolding insert
  insert-InOrder a [] h = (tt, tt)
  insert-InOrder a (b ∷ bs) h = elim (Bool-cases (leb (key a) (key b))) [
    | inl e ↦ rw e ((ground arith, All-mono (KeyLe b) (KeyLe a) (λ c k. ground arith) bs h.0), h)
    | inr e ↦ rw e (insert-All (KeyLe b) a bs (ground arith) h.0, insert-InOrder a bs h.1)
  ]

  pub sort_by-InOrder : (xs : List A) → InOrder KeyLe (sort_by xs)
  unfolding sort_by
  sort_by-InOrder [] = tt
  sort_by-InOrder (a ∷ xs) = insert-InOrder a (sort_by xs) (sort_by-InOrder xs)
