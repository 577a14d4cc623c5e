-- ===== src/Daemon/Sizes.antt =====
-- The numbers among the options of apps/kronos_engine.cpp.
use omni_sched.Base.{
  ℕ, ◌≤◌, ◌<◌, Bytes, text, is_empty, Bool, true, false, Bool-cases, Option, none, some, [], ◌∷◌,
  ◌++◌, ◌==◌, leb, leb→le, not, if◌then◌else◌, ◌≡◌, refl, inl, inr, invalid_argument, Result, ok,
  err, ◌>>=◌, ◌>>◌, guard, arith,
}
use omni_sched.Codec.Number.{max_u64, from_chars, scan_digits, is_digit}
use omni_sched.Daemon.Options.{DaemonOptions, parsed, parse_integer, parse_positive_size}

-- The quantum is a positive `size_t`, and the number of workers a `size_t`.
abbrev pub IsBounded : DaemonOptions → Type 0
IsBounded options =
    (0 < options.scheduler.quantum)
    × (options.scheduler.quantum ≤ max_u64)
    × (options.workers ≤ max_u64)

abbrev pub AllowsOptions : Result (Option DaemonOptions) → Type 0
AllowsOptions (err error) = Unit {0}
AllowsOptions (ok none) = Unit {0}
AllowsOptions (ok (some options)) = IsBounded options

abbrev FitsMax : Option (ℕ × Bytes) → Type 0
FitsMax none = Unit {0}
FitsMax (some (n, rest)) = n ≤ max_u64

from_chars-FitsMax : (s : Bytes) → FitsMax (from_chars max_u64 s)
unfolding from_chars
from_chars-FitsMax [] = tt
from_chars-FitsMax (c ∷ s) = go (is_digit c) (leb value max_u64) refl
  where
    value : ℕ
    value = (scan_digits 0 (c ∷ s)).0

    rest : Bytes
    rest = (scan_digits 0 (c ∷ s)).1

    go :
        (a b : Bool)
        → leb value max_u64 ≡ b
        → FitsMax (if a then (if b then some (value, rest) else none) else none)
    go false b q = tt
    go true false q = tt
    go true true q = leb→le value max_u64 q

parsed-bounds :
    (label : Bytes) (o : Option (ℕ × Bytes)) {n : ℕ}
    → FitsMax o
    → parsed label o ≡ ok n
    → n ≤ max_u64
unfolding parsed
parsed-bounds label none f h = absurd (cc)
parsed-bounds label (some (value, rest)) f h = elim (Bool-cases (is_empty rest)) [
  | inl q ↦ ground (arith, q)
  | inr q ↦ absurd (ground (arith, q))
]

abbrev pub IsSize : Result ℕ → Type 0
IsSize (err error) = Unit {0}
IsSize (ok n) = (0 < n) × (n ≤ max_u64)

pub parse_positive_size-IsSize : (value label : Bytes) → IsSize (parse_positive_size value label)
unfolding parse_positive_size
parse_positive_size-IsSize value label = go (parse_integer value label) refl
  where
    go :
        (r : Result ℕ)
        → parse_integer value label ≡ r
        → IsSize (
            r >>= λ size.
            guard (not (size == 0)) (invalid_argument (label ++ text " must be greater than zero"))
            >> ok size)
    go (err error) p = tt
    go (ok n) p = zero_or (n == 0) refl (
        parsed-bounds label (from_chars max_u64 value) (from_chars-FitsMax value)
          (unfold parse_integer in p))
      where
        zero_or :
            (b : Bool)
            → (n == 0) ≡ b
            → n ≤ max_u64
            → IsSize (
                guard (not b) (invalid_argument (label ++ text " must be greater than zero"))
                >> ok n)
        zero_or true q l = tt
        zero_or false q l = (ground arith, l)
