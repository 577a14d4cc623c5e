-- ===== src/Codec/Number.antt =====
-- The decimal numbers of the standard library, as the code uses them: `std::to_string`, `<<` on an
-- integer and `std::from_chars`.
use omni_sched.Base.{
  ℕ, zero, suc, ◌+◌, ◌-◌, ◌*◌, ◌/◌, ◌%◌, ◌≤◌, ◌<◌, ◌^◌, ℤ, pos, negsuc, Bytes, Bool, true, false,
  [], ◌∷◌, Option, none, some, ◌≡◌, ◌≢◌, refl, ap, ◌&&◌, ◌||◌, ltb, leb, ◌==◌, if◌then◌else◌, All,
  arith,
}

abbrev pub max_u64 : ℕ
max_u64 = 2 ^ 64 - 1

-- The digits of a positive number in front of `out`; the fuel is above the number.
digits : ℕ → ℕ → Bytes → Bytes
digits zero n out = out
digits (suc fuel) n out = elim (n == 0) [
  | true ↦ out
  | false ↦ digits fuel (n / 10) ((b'0' + n % 10) ∷ out)
]

unfoldable pub to_string : ℕ → Bytes
unfolding digits
to_string n = if n == 0 then b'0' ∷ [] else digits (suc n) n []

unfoldable pub int_to_string : ℤ → Bytes
int_to_string (pos n) = to_string n
int_to_string (negsuc n) = b'-' ∷ to_string (suc n)

-- The longest run of digits: its value behind `n`, and what follows it.
unfoldable pub scan_digits : ℕ → Bytes → ℕ × Bytes
scan_digits n [] = (n, [])
scan_digits n (c ∷ s) = elim (ltb c b'0' || ltb b'9' c) [
  | true ↦ (n, c ∷ s)
  | false ↦ scan_digits (n * 10 + (c - b'0')) s
]

unfoldable pub is_digit : ℕ → Bool
is_digit c = leb b'0' c && leb c b'9'

-- `std::from_chars` into an unsigned type with the given maximum: the value and the text from `ptr`
-- on, or `none` for an `ec` other than success (no digit, or a value out of range).
unfoldable pub from_chars : ℕ → Bytes → Option (ℕ × Bytes)
from_chars max [] = none
from_chars max (c ∷ s) =
    let (value, rest) = scan_digits 0 (c ∷ s) in
    if is_digit c then (if leb value max then some (value, rest) else none) else none

negate : Option (ℕ × Bytes) → Option (ℤ × Bytes)
negate none = none
negate (some (zero, rest)) = some (pos 0, rest)
negate (some (suc n, rest)) = some (negsuc n, rest)

unsigned : Option (ℕ × Bytes) → Option (ℤ × Bytes)
unsigned none = none
unsigned (some (n, rest)) = some (pos n, rest)

-- The same into a signed type whose minimum is -(max + 1).
unfoldable pub from_chars_signed : ℕ → Bytes → Option (ℤ × Bytes)
unfolding negate unsigned
from_chars_signed max [] = none
from_chars_signed max (c ∷ s) =
    if c == b'-' then negate (from_chars (max + 1) s) else unsigned (from_chars max (c ∷ s))

abbrev pub IsDigit : ℕ → Type 0
IsDigit c = (b'0' ≤ c) × (c ≤ b'9')

digit_step :
    (fuel n : ℕ) (out : Bytes)
    → 0 < n
    → digits (suc fuel) n out ≡ digits fuel (n / 10) ((b'0' + n % 10) ∷ out)
unfolding digits
digit_step fuel n out h = ground arith

scan_digit :
    (m c : ℕ) (s : Bytes) → IsDigit c → scan_digits m (c ∷ s) ≡ scan_digits (m * 10 + (c - b'0')) s
unfolding scan_digits
scan_digit m c s h = ground arith

-- Reading the printed digits of `n` gives `n`, whatever follows.
scan_digits-digits :
    (fuel n : ℕ) (out : Bytes) → n < fuel → scan_digits 0 (digits fuel n out) ≡ scan_digits n out
scan_digits-digits zero n out h = absurd (omega arith)
scan_digits-digits (suc fuel) zero out h = unfold digits in refl
scan_digits-digits (suc fuel) (suc n) out h =
    let m = suc n in
    rw
      (
        digit_step fuel m out (omega arith),
        scan_digits-digits fuel (m / 10) ((b'0' + m % 10) ∷ out) (omega arith),
        scan_digit (m / 10) (b'0' + m % 10) out (omega arith),
      )
      (ap (λ k. scan_digits k out) (omega arith))

All-digits : (fuel n : ℕ) (out : Bytes) → All IsDigit out → All IsDigit (digits fuel n out)
All-digits zero n out h = unfold digits in h
All-digits (suc fuel) zero out h = unfold digits in h
All-digits (suc fuel) (suc n) out h =
    rw (digit_step fuel (suc n) out (omega arith)) (All-digits fuel (suc n / 10) _ (omega arith, h))

to_string-zero : to_string 0 ≡ b'0' ∷ []
unfolding to_string
to_string-zero = refl

to_string-suc : (n : ℕ) → to_string (suc n) ≡ digits (suc (suc n)) (suc n) []
unfolding to_string
to_string-suc n = ground arith

pub to_string-IsDigit : (n : ℕ) → All IsDigit (to_string n)
to_string-IsDigit zero = rw to_string-zero (omega arith)
to_string-IsDigit (suc n) = rw (to_string-suc n) (All-digits (suc (suc n)) (suc n) [] tt)

digits-ne-nil : (fuel n : ℕ) (out : Bytes) → out ≢ [] → digits fuel n out ≢ []
digits-ne-nil zero n out h = unfold digits in h
digits-ne-nil (suc fuel) zero out h = unfold digits in h
digits-ne-nil (suc fuel) (suc n) out h =
    rw (digit_step fuel (suc n) out (omega arith)) (digits-ne-nil fuel (suc n / 10) _ (λ e. cc))

pub to_string-ne-nil : (n : ℕ) → to_string n ≢ []
to_string-ne-nil zero = rw to_string-zero (λ e. cc)
to_string-ne-nil (suc n) =
    rw (to_string-suc n, digit_step (suc n) (suc n) [] (omega arith))
      (digits-ne-nil (suc n) (suc n / 10) _ (λ e. cc))

scan_digits_end : {n : ℕ} → scan_digits n [] ≡ (n, [])
unfolding scan_digits
scan_digits_end = refl

scan_digits-to_string : (n : ℕ) → scan_digits 0 (to_string n) ≡ (n, [])
scan_digits-to_string zero = rw to_string-zero (unfold scan_digits in refl)
scan_digits-to_string (suc n) =
    rw (to_string-suc n, scan_digits-digits (suc (suc n)) (suc n) [] (omega arith)) scan_digits_end

from_chars-scan :
    (max : ℕ) (s : Bytes) {n : ℕ}
    → s ≢ []
    → All IsDigit s
    → scan_digits 0 s ≡ (n, [])
    → n ≤ max
    → from_chars max s ≡ some (n, [])
unfolding from_chars is_digit
from_chars-scan max [] h d e b = absurd (h refl)
from_chars-scan max (c ∷ s) h d e b = rw e (ground arith)

-- A printed number in the range of the type is read back, to the end of the text.
pub from_chars-to_string : (max n : ℕ) → n ≤ max → from_chars max (to_string n) ≡ some (n, [])
from_chars-to_string max n h =
    from_chars-scan max (to_string n) (to_string-ne-nil n) (to_string-IsDigit n)
      (scan_digits-to_string n) h

-- The range of a signed type with the given maximum.
abbrev pub InRange : ℕ → ℤ → Type 0
InRange max (pos n) = n ≤ max
InRange max (negsuc n) = n ≤ max

from_chars_signed_pos :
    (max n : ℕ) (s : Bytes)
    → All IsDigit s
    → from_chars max s ≡ some (n, [])
    → from_chars_signed max s ≡ some (pos n, [])
unfolding from_chars_signed unsigned
from_chars_signed_pos max n [] d e = unfold from_chars in cc
from_chars_signed_pos max n (c ∷ s) d e = ground arith

pub from_chars_signed-int_to_string :
    (max : ℕ) (z : ℤ) → InRange max z → from_chars_signed max (int_to_string z) ≡ some (z, [])
unfolding int_to_string from_chars_signed
from_chars_signed-int_to_string max (pos n) h =
    from_chars_signed_pos max n (to_string n) (to_string-IsDigit n) (from_chars-to_string max n h)
from_chars_signed-int_to_string max (negsuc n) h =
    rw (from_chars-to_string (max + 1) (suc n) (omega arith))
