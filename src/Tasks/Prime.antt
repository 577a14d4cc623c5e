-- ===== src/Tasks/Prime.antt =====
-- `PrimeCountTask` of src/example_tasks.cpp.
use omni_sched.Base.{
  ℕ, zero, suc, ◌+◌, ◌-◌, ◌/◌, ◌%◌, ◌^◌, Bytes, Bool, true, false, ◌++◌, leb, ltb, ◌==◌,
  if◌then◌else◌, text,
}
use omni_sched.Types.{SliceResult, slice_yielded, slice_completed, slice_cancelled}
use omni_sched.Codec.Number.{to_string}
use omni_sched.Tasks.Budget.{effective_budget, increment, TaskContext}

-- The loop over the divisors. Each round lowers the fuel and raises the divisor, and the loop ends
-- once the divisor has passed the value.
unfoldable pub no_divisor_from : ℕ → ℕ → ℕ → Bool
no_divisor_from zero divisor value = true
no_divisor_from (suc fuel) divisor value = elim (leb divisor (value / divisor)) [
  | false ↦ true
  | true ↦ elim (value % divisor == 0) [
    | true ↦ false
    | false ↦ no_divisor_from fuel (suc divisor) value
  ]
]

unfoldable pub is_prime : ℕ → Bool
is_prime value = if ltb value 2 then false else no_divisor_from value 2 value

pub record PrimeCountTask : Type 0 where
  pub upper_bound : ℕ
  pub candidate : ℕ
  pub prime_count : ℕ

unfoldable pub init : ℕ → PrimeCountTask
init upper_bound = record { upper_bound = upper_bound; candidate = 2; prime_count = 0 }

-- The body of the loop.
unfoldable pub advance : PrimeCountTask → PrimeCountTask
advance t = record t {
  candidate = increment t.candidate;
  prime_count = if is_prime t.candidate then increment t.prime_count else t.prime_count;
}

-- The loop of a slice; `left` is the budget less what was consumed. The flag says that the slice was
-- cancelled.
unfoldable pub prime_loop : (ℕ → Bool) → ℕ → ℕ → PrimeCountTask → PrimeCountTask × ℕ × Bool
prime_loop stop zero consumed t = (t, consumed, false)
prime_loop stop (suc left) consumed t = elim (leb t.candidate t.upper_bound) [
  | false ↦ (t, consumed, false)
  | true ↦ elim (stop (suc consumed)) [
    | true ↦ (t, consumed, true)
    | false ↦ prime_loop stop left (increment consumed) (advance t)
  ]
]

unfoldable pub primes_output : PrimeCountTask → Bytes
primes_output t = text "primes found: " ++ to_string t.prime_count

-- What the slice returns after the loop.
unfoldable pub prime_result : PrimeCountTask × ℕ × Bool → SliceResult × PrimeCountTask
prime_result (t, consumed, true) = (slice_cancelled (text "prime-count task cancelled") consumed, t)
prime_result (t, consumed, false) = (
  if ltb t.upper_bound t.candidate
      then slice_completed (primes_output t) consumed
      else slice_yielded consumed,
  t,
)

-- `upper_bound_ - candidate_ + 1` on 64 bits, where the candidate is not past the bound.
unfoldable pub remaining : PrimeCountTask → ℕ
remaining t = (t.upper_bound - t.candidate + 1) % 2 ^ 64

unfoldable pub run_slice : TaskContext → PrimeCountTask → SliceResult × PrimeCountTask
run_slice context t =
    if context.stop_requested 0
    then (slice_cancelled (text "prime-count task cancelled") 0, t)
    else if ltb t.upper_bound t.candidate
    then (slice_completed (primes_output t) 0, t)
    else prime_result (
        prime_loop context.stop_requested (effective_budget context.max_work_units (remaining t)) 0
          t)
