-- ===== src/Tasks/PrimeProgress.antt =====
-- The slices of `PrimeCountTask` of src/example_tasks.cpp.
use omni_sched.Base.{
  ℕ, zero, suc, ◌+◌, ◌-◌, ◌≤◌, ◌<◌, Bool, true, false, Bool-cases, ◌≡◌, refl, ◌∙◌, ap, leb,
  if◌then◌else◌, ◌⊎◌, inl, inr, arith,
}
use omni_sched.Types.{
  SliceStatus, SliceResult, unlimited_work, slice_yielded, slice_completed, slice_cancelled,
}
use omni_sched.Tasks.Budget.{increment, effective_budget, TaskContext}
use omni_sched.Tasks.Prime
use omni_sched.Tasks.Prime.{
  PrimeCountTask, is_prime, advance, prime_loop, prime_result, primes_output, remaining,
}
use omni_sched.Tasks.Progress.{increment-suc, Budgets, effective_budget-Budgets}

-- How many of the `n` numbers from `low` on pass the test.
pub count_primes : ℕ → ℕ → ℕ
count_primes low zero = 0
count_primes low (suc n) = (if is_prime low then 1 else 0) + count_primes (suc low) n

-- From `t`, with `consumed` units spent, the loop of a slice with `left` units has come to an end.
LoopsTo : ℕ → ℕ → PrimeCountTask → PrimeCountTask × ℕ × Bool → Type 0
LoopsTo left consumed t (t', c, stopped) =
    (t'.upper_bound ≡ t.upper_bound)
    × (t'.candidate + consumed ≡ t.candidate + c)
    × (t'.prime_count ≡ t.prime_count + count_primes t.candidate (c - consumed))
    × (consumed ≤ c)
    × (c ≤ consumed + left)
    × ((stopped ≡ true) ⊎ (c ≡ consumed + left))

count_step :
    (t : PrimeCountTask) (c consumed : ℕ)
    → suc consumed ≤ c
    → (if is_prime t.candidate then suc t.prime_count else t.prime_count)
        + count_primes (suc t.candidate) (c - suc consumed)
      ≡ t.prime_count + count_primes t.candidate (c - consumed)
count_step t c consumed h = rw (split) (unfold count_primes in ground arith)
  where
    split : c - consumed ≡ suc (c - suc consumed)
    split = omega arith

-- The body of the loop, below the largest number.
abbrev advanced : PrimeCountTask → PrimeCountTask
advanced t = record t {
  candidate = suc t.candidate;
  prime_count = if is_prime t.candidate then suc t.prime_count else t.prime_count;
}

advance-advanced :
    (t : PrimeCountTask)
    → t.candidate < unlimited_work
    → t.prime_count < unlimited_work
    → advance t ≡ advanced t
unfolding advance
advance-advanced t h l = rw (increment-suc t.candidate h, increment-suc t.prime_count l) refl

LoopsTo-next :
    (left consumed : ℕ) (t : PrimeCountTask) (out : PrimeCountTask × ℕ × Bool)
    → LoopsTo left (suc consumed) (advanced t) out
    → LoopsTo (suc left) consumed t out
unfolding LoopsTo
LoopsTo-next left consumed t (t', c, stopped) (e, f, p, a, b, inl d) =
    (e, omega arith, p ∙ count_step t c consumed a, omega arith, omega arith, inl d)
LoopsTo-next left consumed t (t', c, stopped) (e, f, p, a, b, inr d) =
    (e, omega arith, p ∙ count_step t c consumed a, omega arith, omega arith, inr (omega arith))

LoopsTo-here :
    (left consumed : ℕ) (t : PrimeCountTask) (stopped : Bool)
    → (stopped ≡ true) ⊎ (left ≡ 0)
    → LoopsTo left consumed t (t, consumed, stopped)
unfolding LoopsTo
LoopsTo-here left consumed t stopped d = (refl, refl, none_counted, omega arith, omega arith, end d)
  where
    nothing : consumed - consumed ≡ 0
    nothing = omega arith

    none_counted : t.prime_count ≡ t.prime_count + count_primes t.candidate (consumed - consumed)
    none_counted = rw nothing (unfold count_primes in omega arith)

    end : (stopped ≡ true) ⊎ (left ≡ 0) → (stopped ≡ true) ⊎ (consumed ≡ consumed + left)
    end (inl e) = inl e
    end (inr e) = inr (omega arith)

prime_loop_stopped :
    (stop : ℕ → Bool) (left consumed : ℕ) (t : PrimeCountTask)
    → t.candidate ≤ t.upper_bound
    → stop (suc consumed) ≡ true
    → prime_loop stop (suc left) consumed t ≡ (t, consumed, true)
unfolding prime_loop
prime_loop_stopped stop left consumed t h e = ground arith

prime_loop_next :
    (stop : ℕ → Bool) (left consumed : ℕ) (t : PrimeCountTask)
    → t.candidate ≤ t.upper_bound
    → stop (suc consumed) ≡ false
    → prime_loop stop (suc left) consumed t ≡ prime_loop stop left (increment consumed) (advance t)
unfolding prime_loop
prime_loop_next stop left consumed t h e = ground arith

count_le :
    (t : PrimeCountTask) → t.prime_count ≤ t.candidate → (advanced t).prime_count ≤ suc t.candidate
count_le t h = ground arith

prime_loop-LoopsTo :
    (stop : ℕ → Bool) (left consumed : ℕ) (t : PrimeCountTask)
    → t.upper_bound < unlimited_work
    → t.prime_count ≤ t.candidate
    → t.candidate + left ≤ suc t.upper_bound
    → consumed + left ≤ unlimited_work
    → LoopsTo left consumed t (prime_loop stop left consumed t)
prime_loop-LoopsTo stop zero consumed t a p b c =
    unfold prime_loop in LoopsTo-here 0 consumed t false (inr refl)
prime_loop-LoopsTo stop (suc left) consumed t a p b c = elim (Bool-cases (stop (suc consumed))) [
  | inl e ↦
      rw (prime_loop_stopped stop left consumed t (omega arith) e)
        (LoopsTo-here (suc left) consumed t true (inl refl))
  | inr e ↦
      rw
        (
          prime_loop_next stop left consumed t (omega arith) e,
          increment-suc consumed (omega arith),
          advance-advanced t (omega arith) (omega arith),
        )
        (LoopsTo-next left consumed t _ (
          prime_loop-LoopsTo stop left (suc consumed) (advanced t) a (count_le t p) (omega arith)
            (omega arith)))
]

-- What a slice of a prime count does: it goes on by as many candidates as it reports, counts the primes
-- among them, and ends cancelled, completed past the bound, or with the budget used up.
abbrev pub PrimeSlice : TaskContext → PrimeCountTask → SliceResult × PrimeCountTask → Type 0
PrimeSlice context t (r, t') =
    (t'.upper_bound ≡ t.upper_bound)
    × (t'.candidate ≡ t.candidate + r.work_units_consumed)
    × (t'.prime_count ≡ t.prime_count + count_primes t.candidate r.work_units_consumed)
    × (t'.candidate ≤ suc t.upper_bound)
    × (r.work_units_consumed ≤ context.max_work_units)
    × ((r.status ≡ SliceStatus.cancelled)
        ⊎ ((r.status ≡ SliceStatus.completed)
            × (t'.candidate ≡ suc t.upper_bound)
            × (r.message ≡ primes_output t'))
        ⊎ ((r.status ≡ SliceStatus.yielded)
            × (r.work_units_consumed ≡ context.max_work_units)
            × (t'.candidate ≤ t.upper_bound)))

counted :
    (t : PrimeCountTask) (c : ℕ)
    → t.prime_count + count_primes t.candidate (c - 0) ≡ t.prime_count + count_primes t.candidate c
counted t c = ap (λ n. t.prime_count + count_primes t.candidate n) (omega arith)

prime_result-PrimeSlice :
    (context : TaskContext) (budget : ℕ) (t : PrimeCountTask) (out : PrimeCountTask × ℕ × Bool)
    → t.candidate ≤ t.upper_bound
    → Budgets context.max_work_units (t.upper_bound - t.candidate + 1) budget
    → LoopsTo budget 0 t out
    → PrimeSlice context t (prime_result out)
unfolding prime_result LoopsTo slice_cancelled slice_completed slice_yielded
prime_result-PrimeSlice context budget t (t', c, true) h (b, b', _) (e, f, p, l, m, d) =
    (e, omega arith, p ∙ counted t c, omega arith, omega arith, inl refl)
prime_result-PrimeSlice context budget t (t', c, false) h (b, b', _) (e, f, p, l, m, inl d) =
    absurd (cc)
prime_result-PrimeSlice context budget t (t', c, false) h (b, b', b'') (e, f, p, l, m, inr d) =
    ground (arith, p ∙ counted t c)

PrimeSlice-stopped :
    (context : TaskContext) (t : PrimeCountTask)
    → t.candidate ≤ suc t.upper_bound
    → context.stop_requested 0 ≡ true
    → PrimeSlice context t (Prime.run_slice context t)
unfolding Prime.run_slice slice_cancelled count_primes
PrimeSlice-stopped context t l e = rw e (refl, omega arith, omega arith, l, omega arith, inl refl)

PrimeSlice-done :
    (context : TaskContext) (t : PrimeCountTask)
    → t.candidate ≡ suc t.upper_bound
    → context.stop_requested 0 ≡ false
    → PrimeSlice context t (Prime.run_slice context t)
unfolding Prime.run_slice slice_completed count_primes
PrimeSlice-done context t l e = ground arith

prime_slice_open :
    (context : TaskContext) (t : PrimeCountTask)
    → t.candidate ≤ t.upper_bound
    → context.stop_requested 0 ≡ false
    → Prime.run_slice context t
      ≡ prime_result (
          prime_loop context.stop_requested
            (effective_budget context.max_work_units (remaining t))
            0
            t)
unfolding Prime.run_slice
prime_slice_open context t l e = ground arith

remaining_lem :
    (t : PrimeCountTask)
    → t.upper_bound < unlimited_work
    → remaining t ≡ t.upper_bound - t.candidate + 1
unfolding remaining
remaining_lem t h = omega arith

PrimeSlice-loop :
    (context : TaskContext) (t : PrimeCountTask)
    → t.upper_bound < unlimited_work
    → t.prime_count ≤ t.candidate
    → t.candidate ≤ t.upper_bound
    → context.stop_requested 0 ≡ false
    → PrimeSlice context t (Prime.run_slice context t)
PrimeSlice-loop context t h p l e =
    let b =
      effective_budget-Budgets context.max_work_units (t.upper_bound - t.candidate + 1)
        (omega arith) in
    rw (prime_slice_open context t l e, remaining_lem t h)
      (prime_result-PrimeSlice context _ t _ l b (
        prime_loop-LoopsTo context.stop_requested _ 0 t h p (omega (arith, b.1))
          (omega (arith, b.1))))

-- A slice of a prime count whose bound is below the largest 64-bit number and whose candidate is at
-- most one past the bound goes on by as many candidates as it reports, adds the number of those that
-- `is_prime` accepts to the count, keeps within the budget, and ends cancelled, completed past the
-- bound with the count as its message, or yielded with the whole budget used and candidates left.
pub run_slice-PrimeSlice :
    (context : TaskContext) (t : PrimeCountTask)
    → t.upper_bound < unlimited_work
    → t.prime_count ≤ t.candidate
    → t.candidate ≤ suc t.upper_bound
    → PrimeSlice context t (Prime.run_slice context t)
run_slice-PrimeSlice context t h p l = elim (Bool-cases (context.stop_requested 0)) [
  | inl e ↦ PrimeSlice-stopped context t l e
  | inr e ↦ elim (Bool-cases (leb t.candidate t.upper_bound)) [
    | inl f ↦ PrimeSlice-loop context t h p (ground arith) e
    | inr f ↦ PrimeSlice-done context t (ground arith) e
  ]
]
