-- ===== src/Scheduler/PriorityQueue.antt =====
-- `std::priority_queue` as the language's standard describes it: `less a b` says that `a` ranks
-- below `b`; `top` is an element that ranks below no other, and `pop` removes it. Here is also the
-- code over it in src/scheduler.cpp. The container is a list in no particular order.
use mathlib.Core.List.Perm
use mathlib.Core.List.{Perm}
use omni_sched.Base.{
  ℕ, zero, suc, ◌≤◌, Bool, true, false, Bool-cases, Option, none, some, List, [], ◌∷◌, ◌≡◌, refl,
  inl, inr, if◌then◌else◌, length, All, InOrder, arith,
}

module _ {A : Type 0} (less : A → A → Bool) where
  -- The top of a queue that holds `x` and `xs`, and the other elements.
  pub take_top : A → List A → A × List A
  take_top x [] = (x, [])
  take_top x (y ∷ ys) =
      let below = less x y in
      let (t, rest) = take_top (if below then y else x) ys in (t, (if below then x else y) ∷ rest)

  unfoldable pub pop_priority_queue : List A → Option A × List A
  unfolding take_top
  pop_priority_queue [] = (none, [])
  pop_priority_queue (x ∷ xs) = let (t, rest) = take_top x xs in (some t, rest)

  -- `while (!queue.empty())` with fuel: what was read, and what is left in the queue.
  drain_loop : ℕ → List A → List A × List A
  unfolding take_top
  drain_loop zero xs = ([], xs)
  drain_loop (suc fuel) [] = ([], [])
  drain_loop (suc fuel) (x ∷ xs) =
      let (t, rest) = take_top x xs in
      let (entries, left) = drain_loop fuel rest in (t ∷ entries, left)

  unfoldable pub drain_priority_queue : List A → List A × List A
  unfolding drain_loop
  drain_priority_queue xs = drain_loop (length xs) xs

  length-take_top : (x : A) (xs : List A) → length (take_top x xs).1 ≡ length xs
  unfolding take_top
  length-take_top x [] = refl
  length-take_top x (y ∷ ys) = ground (arith, length-take_top (if less x y then y else x) ys)

  pub take_top-perm : (x : A) (xs : List A) → Perm (x ∷ xs) ((take_top x xs).0 ∷ (take_top x xs).1)
  unfolding take_top
  take_top-perm x [] = Perm.refl _
  take_top-perm x (y ∷ ys) = elim (Bool-cases (less x y)) [
    | inl e ↦ rw e (Perm.trans (Perm.cons x (take_top-perm y ys)) (Perm.swap _ _ _))
    | inr e ↦ rw e (
        Perm.trans (Perm.swap _ _ _)
          (Perm.trans (Perm.cons y (take_top-perm x ys)) (Perm.swap _ _ _)))
  ]

  -- What holds of every element holds of the top and of the rest.
  take_top-All {κ} :
      (P : A → Type κ) (x : A) (xs : List A)
      → P x
      → All P xs
      → P (take_top x xs).0 × All P (take_top x xs).1
  unfolding take_top
  take_top-All P x [] px h = (px, tt)
  take_top-All P x (y ∷ ys) px h = elim (Bool-cases (less x y)) [
    | inl e ↦ rw e (let (t, r) = take_top-All P y ys h.0 h.1 in (t, (px, r)))
    | inr e ↦ rw e (let (t, r) = take_top-All P x ys px h.1 in (t, (h.0, r)))
  ]

-- `less` is a strict weak ordering, as the standard asks of a comparator.
pub record IsStrictWeak {A : Type 0} (less : A → A → Bool) : Type 0 where
  pub asymmetric : (a b : A) → less a b ≡ true → less b a ≡ false
  pub not_less_trans : (a b c : A) → less a b ≡ false → less b c ≡ false → less a c ≡ false

module _ {A : Type 0} (less : A → A → Bool) (order : IsStrictWeak less) where
  abbrev pub NotBelow : A → A → Type 0
  NotBelow a b = less a b ≡ false

  NotBelow-refl : (a : A) → NotBelow a a
  NotBelow-refl a = elim (Bool-cases (less a a)) [ inl e ↦ order.asymmetric a a e | inr e ↦ e ]

  abbrev IsTopOf : A × List A → A → Type 0
  IsTopOf r x = NotBelow r.0 x × All (NotBelow r.0) r.1

  -- One round, for the outcome `b` of the comparison of `x` with `y`.
  round-IsTopOf :
      (x y : A) (ys : List A) (b : Bool)
      → less x y ≡ b
      → IsTopOf (take_top less y ys) y
      → IsTopOf (take_top less x ys) x
      → let (t, rest) = take_top less (if b then y else x) ys in
        IsTopOf (t, (if b then x else y) ∷ rest) x
  round-IsTopOf x y ys true e (hy, r) _ =
      let hx = order.not_less_trans _ y x hy (order.asymmetric x y e) in (hx, (hx, r))
  round-IsTopOf x y ys false e _ (hx, r) = (hx, (order.not_less_trans _ x y hx e, r))

  -- The top ranks below no element of the queue.
  pub take_top-IsTopOf : (x : A) (xs : List A) → IsTopOf (take_top less x xs) x
  unfolding take_top
  take_top-IsTopOf x [] = (NotBelow-refl x, tt)
  take_top-IsTopOf x (y ∷ ys) =
      round-IsTopOf x y ys (less x y) refl (take_top-IsTopOf y ys) (take_top-IsTopOf x ys)

  -- With as much fuel as the queue has elements it is emptied, in order.
  drain_loop-lem :
      (fuel : ℕ) (xs : List A)
      → length xs ≤ fuel
      → let r = drain_loop less fuel xs in
        (r.1 ≡ []) × Perm xs r.0 × InOrder NotBelow r.0 × ((P : A → Type 0) → All P xs → All P r.0)
  unfolding drain_loop
  drain_loop-lem zero [] h = (refl, Perm.refl [], tt, λ P a. a)
  drain_loop-lem zero (x ∷ xs) h = absurd (omega arith)
  drain_loop-lem (suc fuel) [] h = (refl, Perm.refl [], tt, λ P a. a)
  drain_loop-lem (suc fuel) (x ∷ xs) h =
      let rest = (take_top less x xs).1 in
      let (empty, perm, order', keeps) =
        drain_loop-lem fuel rest (omega (arith, length-take_top less x xs)) in
      (
        empty,
        Perm.trans (take_top-perm less x xs) (Perm.cons _ perm),
        (keeps _ (take_top-IsTopOf x xs).1, order'),
        λ P a. let (t, r) = take_top-All less P x xs a.0 a.1 in (t, keeps P r),
      )

  pub drain_priority_queue-lem :
      (xs : List A)
      → let r = drain_priority_queue less xs in (r.1 ≡ []) × Perm xs r.0 × InOrder NotBelow r.0
  unfolding drain_priority_queue
  drain_priority_queue-lem xs =
      let (e, p, o, _) = drain_loop-lem (length xs) xs (omega arith) in (e, p, o)

module _ {A : Type 0} (less : A → A → Bool) where
  -- Draining is popping until nothing is left.
  pub drain_priority_queue-cons :
      (x : A) (xs : List A)
      → (drain_priority_queue less (x ∷ xs)).0
        ≡ (take_top less x xs).0 ∷ (drain_priority_queue less (take_top less x xs).1).0
  unfolding drain_priority_queue
  drain_priority_queue-cons x xs = rw (length-take_top less x xs)
