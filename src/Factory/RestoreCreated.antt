-- ===== src/Factory/RestoreCreated.antt =====
-- The durable specification that src/task_factory.cpp writes, and what `restore` reads of it.
use omni_sched.Base.{
  ℕ, ◌<◌, ◌≤◌, ℤ, Bytes, text, text_eq, Bool, true, false, Option, none, some, List, [], ◌∷◌, ◌++◌,
  ◌≡◌, refl, ap, subst, ◌∙◌, leb, if◌then◌else◌, invalid_argument, Result, ok, err, ok-injective,
  ◌>>=◌, ◌>>◌, guard, All-mono, arith,
}
use omni_sched.Types.{DurableTaskSpec}
use omni_sched.Codec.Number.{
  max_u64, to_string, from_chars, from_chars-to_string, to_string-IsDigit,
}
use omni_sched.Codec.Split.{Lacks, split_at-append, split_at_last}
use omni_sched.Factory.Create.{
  CreatedTask, parsed_positive, parse_positive, parsed_nonnegative, parse_nonnegative,
  split_payload, prime_created, make_prime, max_milliseconds, step_payload, step_created, make_step,
  create_prime, create_step, create_for_submission, task_of, restore_step, restore,
}

from_chars-le :
    (max : ℕ) (s : Bytes) (n : ℕ) (rest : Bytes) → from_chars max s ≡ some (n, rest) → n ≤ max
unfolding from_chars
from_chars-le max [] n rest h = cc
from_chars-le max (c ∷ s) n rest h = ground arith

-- What `parse_positive` accepts.
parsed_positive_ok :
    (label : Bytes) (o : Option (ℕ × Bytes)) (n : ℕ)
    → parsed_positive label o ≡ ok n
    → (0 < n) × (o ≡ some (n, []))
unfolding parsed_positive
parsed_positive_ok label none n h = cc
parsed_positive_ok label (some (m, c ∷ rest)) n h = cc
parsed_positive_ok label (some (m, [])) n h = grind (arith, ok-injective)

parse_positive_ok :
    (value label : Bytes) (n : ℕ) → parse_positive value label ≡ ok n → (0 < n) × (n ≤ max_u64)
unfolding parse_positive
parse_positive_ok value label n h =
    let (p, e) = parsed_positive_ok label _ n h in (p, from_chars-le max_u64 value n [] e)

parse_positive-to_string :
    (n : ℕ) (label : Bytes) → 0 < n → n ≤ max_u64 → parse_positive (to_string n) label ≡ ok n
unfolding parse_positive parsed_positive
parse_positive-to_string n label p l = rw (from_chars-to_string max_u64 n l) (ground arith)

parsed_nonnegative_ok :
    (label : Bytes) (o : Option (ℕ × Bytes)) (n : ℕ)
    → parsed_nonnegative label o ≡ ok n
    → o ≡ some (n, [])
unfolding parsed_nonnegative
parsed_nonnegative_ok label none n h = cc
parsed_nonnegative_ok label (some (m, c ∷ rest)) n h = cc
parsed_nonnegative_ok label (some (m, [])) n h = ap (λ x. some (x, [])) (ok-injective h)

parse_nonnegative-to_string :
    (n : ℕ) (label : Bytes) → n ≤ max_u64 → parse_nonnegative (to_string n) label ≡ ok n
unfolding parse_nonnegative parsed_nonnegative
parse_nonnegative-to_string n label l = rw (from_chars-to_string max_u64 n l) refl

split_payload-step_payload :
    (count delay : ℕ)
    → split_payload (step_payload count delay) ≡ to_string count ∷ to_string delay ∷ []
unfolding split_payload step_payload
split_payload-step_payload count delay =
    split_at-append b',' (to_string count) (to_string delay) (no_comma count)
    ∙ ap (λ fields. to_string count ∷ fields)
        (split_at_last b',' (to_string delay) (no_comma delay))
  where
    no_comma : (n : ℕ) → Lacks b',' (to_string n)
    no_comma n = All-mono _ _ (λ c h e. omega arith) (to_string n) (to_string-IsDigit n)

-- The specification of a created task, from which the same task is made.
abbrev pub Restorable : CreatedTask → Type 0
Restorable created =
    (0 < created.options.estimated_work_units)
    × ((spec : DurableTaskSpec) × (created.options.durable_spec ≡ some spec)
        × (restore spec ≡ ok created.task))

prime-Restorable :
    (n : ℕ) (priority : ℤ) → 0 < n → n ≤ max_u64 → Restorable (prime_created priority n)
unfolding prime_created restore make_prime task_of text_eq text
prime-Restorable n priority p l =
    (ground arith, (_, refl, rw (parse_positive-to_string n _ p l) refl))

step-Restorable :
    (n delay : ℕ) (priority : ℤ)
    → 0 < n
    → n ≤ max_u64
    → delay ≤ max_milliseconds
    → Restorable (step_created priority n delay)
unfolding step_created restore make_step task_of restore_step text_eq text
step-Restorable n delay priority p l m = (
  p,
  (
    _,
    refl,
    rw
        (
          split_payload-step_payload n delay,
          parse_positive-to_string n _ p l,
          parse_nonnegative-to_string delay _ (omega arith),
        )
        (ground arith),
  ),
)

make_prime-Restorable :
    (value : Bytes) (priority : ℤ) (created : CreatedTask)
    → make_prime value priority ≡ ok created
    → Restorable created
unfolding make_prime
make_prime-Restorable value priority created h =
    go (parse_positive value (text "upper bound")) refl h
  where
    go :
        (r : Result ℕ)
        → parse_positive value (text "upper bound") ≡ r
        → (r >>= λ n. ok (prime_created priority n)) ≡ ok created
        → Restorable created
    go (err e) q h = absurd (cc)
    go (ok n) q h =
        let (p, l) = parse_positive_ok value (text "upper bound") n q in
        subst Restorable (ok-injective h) (prime-Restorable n priority p l)

make_step-Restorable :
    (count delay : Bytes) (priority : ℤ) (created : CreatedTask)
    → make_step count delay priority ≡ ok created
    → Restorable created
unfolding make_step
make_step-Restorable count delay priority created h =
    go (parse_positive count (text "step count")) refl h
  where
    last :
        (n d : ℕ) (b : Bool)
        → parse_positive count (text "step count") ≡ ok n
        → leb d max_milliseconds ≡ b
        → (guard b (invalid_argument (text "delay milliseconds is too large"))
            >> ok (step_created priority n d))
          ≡ ok created
        → Restorable created
    last n d false q e h = absurd (cc)
    last n d true q e h =
        let (p, l) = parse_positive_ok count (text "step count") n q in
        subst Restorable (ok-injective h) (step-Restorable n d priority p l (ground arith))

    then_delay :
        (n : ℕ) (r : Result ℕ)
        → parse_positive count (text "step count") ≡ ok n
        → (r >>= λ d.
            guard
              (leb d max_milliseconds)
              (invalid_argument (text "delay milliseconds is too large"))
            >> ok (step_created priority n d))
          ≡ ok created
        → Restorable created
    then_delay n (err e) q h = absurd (cc)
    then_delay n (ok d) q h = last n d (leb d max_milliseconds) q refl h

    go :
        (r : Result ℕ)
        → parse_positive count (text "step count") ≡ r
        → (r >>= λ n. parse_nonnegative delay (text "delay milliseconds") >>= λ d.
            guard
              (leb d max_milliseconds)
              (invalid_argument (text "delay milliseconds is too large"))
            >> ok (step_created priority n d))
          ≡ ok created
        → Restorable created
    go (err e) q h = absurd (cc)
    go (ok n) q h = then_delay n (parse_nonnegative delay (text "delay milliseconds")) q h

create_prime-Restorable :
    (arguments : List Bytes) (priority : ℤ) (created : CreatedTask)
    → create_prime arguments priority ≡ ok created
    → Restorable created
unfolding create_prime
create_prime-Restorable [] priority created h = absurd (cc)
create_prime-Restorable (a ∷ []) priority created h = make_prime-Restorable a priority created h
create_prime-Restorable (a ∷ b ∷ rest) priority created h = absurd (cc)

create_step-Restorable :
    (arguments : List Bytes) (priority : ℤ) (created : CreatedTask)
    → create_step arguments priority ≡ ok created
    → Restorable created
unfolding create_step
create_step-Restorable [] priority created h = absurd (cc)
create_step-Restorable (a ∷ []) priority created h = absurd (cc)
create_step-Restorable (a ∷ b ∷ []) priority created h = make_step-Restorable a b priority created h
create_step-Restorable (a ∷ b ∷ c ∷ rest) priority created h = absurd (cc)

-- `create_for_submission` on the two comparisons of the type.
created_by :
    (is_prime is_step : Bool) (type : Bytes) (arguments : List Bytes) (priority : ℤ)
    (created : CreatedTask)
    → (if is_prime
        then create_prime arguments priority
        else if is_step
        then create_step arguments priority
        else err (invalid_argument (text "unknown task type: " ++ type)))
      ≡ ok created
    → Restorable created
created_by true s type arguments priority created h =
    create_prime-Restorable arguments priority created h
created_by false true type arguments priority created h =
    create_step-Restorable arguments priority created h
created_by false false type arguments priority created h = absurd (cc)

-- A task that is created for a submission has a positive estimate and a durable specification, and
-- `restore` makes the same task from it.
pub create_for_submission-Restorable :
    (type : Bytes) (arguments : List Bytes) (priority : ℤ) (created : CreatedTask)
    → create_for_submission type arguments priority ≡ ok created
    → Restorable created
unfolding create_for_submission
create_for_submission-Restorable type arguments priority created h =
    created_by _ _ type arguments priority created h
