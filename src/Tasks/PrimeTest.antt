-- ===== src/Tasks/PrimeTest.antt =====
-- `is_prime` of src/example_tasks.cpp against products.
use native.Mathlib.Nat.{mul_comm, mul-mod_right, le-div_iff_mul-le, mul-le-mul, le-mul_of_pos_right}
use native.Mathlib.Omega.{div_any}
use omni_sched.Base.{
  ℕ, zero, suc, ◌+◌, ◌*◌, ◌/◌, ◌%◌, ◌≤◌, ◌<◌, true, false, Bool-cases, ◌≡◌, refl, sym, ◌∙◌, subst,
  ◌↔◌, leb, ◌==◌, ==_iff, inl, inr, arith,
}
use omni_sched.Tasks.Prime.{no_divisor_from, is_prime}

loop_found :
    (fuel c v : ℕ) → c ≤ v / c → (v % c == 0) ≡ true → no_divisor_from (suc fuel) c v ≡ false
unfolding no_divisor_from
loop_found fuel c v h e = ground arith

loop_next :
    (fuel c v : ℕ)
    → c ≤ v / c
    → (v % c == 0) ≡ false
    → no_divisor_from (suc fuel) c v ≡ no_divisor_from fuel (suc c) v
unfolding no_divisor_from
loop_next fuel c v h e = ground arith

loop_end : (fuel c v : ℕ) → v / c < c → no_divisor_from (suc fuel) c v ≡ true
unfolding no_divisor_from
loop_end fuel c v h = ground arith

-- From a divisor that is not past the smaller factor on, the loop finds one.
finds_factor :
    (fuel c d e : ℕ) → 2 ≤ c → c ≤ d → d ≤ e → d < c + fuel → no_divisor_from fuel c (d * e) ≡ false
finds_factor zero c d e a b l f = absurd (omega arith)
finds_factor (suc fuel) c d e a b l f = elim (Bool-cases (d * e % c == 0)) [
  | inl z ↦ loop_found fuel c (d * e) goes_on z
  | inr z ↦
      loop_next fuel c (d * e) goes_on z
      ∙ finds_factor fuel (suc c) d e (omega arith) (other z) l (omega arith)
]
  where
    goes_on : c ≤ d * e / c
    goes_on = (le-div_iff_mul-le (omega arith)).1 (mul-le-mul b (omega (arith, b, l)))

    at_d : (d * e % d == 0) ≡ true
    at_d = rw (mul-mod_right d e) refl

    clash : c ≡ d → (d * e % c == 0) ≡ true
    clash p = rw p at_d

    other : (d * e % c == 0) ≡ false → suc c ≤ d
    other z = elim (Bool-cases (c == d)) [
      | inl p ↦ let q = clash ((==_iff c d).0 p) in absurd (cc)
      | inr p ↦ ground arith
    ]

exact_quotient : (v c : ℕ) → (v % c == 0) ≡ true → v ≡ c * (v / c)
exact_quotient v c z = let r = (==_iff (v % c) 0).0 z in omega (arith, div_any v c)

-- What the loop finds divides the value.
found_factor :
    (fuel c v : ℕ)
    → 2 ≤ c
    → no_divisor_from fuel c v ≡ false
    → ((d : ℕ) × (2 ≤ d) × (2 ≤ v / d) × (v ≡ d * (v / d)))
unfolding no_divisor_from
found_factor zero c v a h = absurd (cc)
found_factor (suc fuel) c v a h = elim (Bool-cases (leb c (v / c))) [
  | inr l ↦ let q = loop_end fuel c v (ground arith) in absurd (cc)
  | inl l ↦ elim (Bool-cases (v % c == 0)) [
    | inl z ↦ (c, a, ground arith, exact_quotient v c z)
    | inr z ↦
        found_factor fuel (suc c) v (omega arith) (sym (loop_next fuel c v (ground arith) z) ∙ h)
  ]
]

product_has : (d e : ℕ) → 2 ≤ d → 2 ≤ e → no_divisor_from (d * e) 2 (d * e) ≡ false
product_has d e a b = elim (Bool-cases (leb d e)) [
  | inl l ↦
      finds_factor (d * e) 2 d e (omega arith) a (ground arith)
        (omega (arith, le-mul_of_pos_right d e_pos))
  | inr l ↦ rw (mul_comm d e) (
      finds_factor (e * d) 2 e d (omega arith) b (ground arith)
        (omega (arith, le-mul_of_pos_right e d_pos)))
]
  where
    e_pos : 0 < e
    e_pos = omega arith

    d_pos : 0 < d
    d_pos = omega arith

-- `is_prime` refuses every product of two numbers that are at least two.
is_prime-product : (d e : ℕ) → 2 ≤ d → 2 ≤ e → is_prime (d * e) ≡ false
unfolding is_prime
is_prime-product d e a b = let h = product_has d e a b in ground arith

-- A number of at least two that `is_prime` refuses is a product of two numbers of at least two.
is_prime_factors :
    (v : ℕ) → 2 ≤ v → is_prime v ≡ false → ((d : ℕ) × (2 ≤ d) × (2 ≤ v / d) × (v ≡ d * (v / d)))
is_prime_factors v h e = found_factor v 2 v (omega arith) (sym (past_two h) ∙ e)
  where
    past_two : 2 ≤ v → is_prime v ≡ no_divisor_from v 2 v
    past_two h = unfold is_prime in ground arith

-- Of the numbers of at least two, `is_prime` refuses exactly the products of two numbers of at least
-- two.
pub is_prime_composite :
    (v : ℕ) → 2 ≤ v → (is_prime v ≡ false) ↔ ((d : ℕ) × (e : ℕ) × (2 ≤ d) × (2 ≤ e) × (v ≡ d * e))
is_prime_composite v h = (
  λ p. let (d, a, b, q) = is_prime_factors v h p in (d, v / d, a, b, q),
  λ r.
      let (d, e, a, b, q) = r in subst (λ k. is_prime k ≡ false) (sym q) (is_prime-product d e a b),
)
