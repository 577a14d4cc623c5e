-- ===== src/Wal/Checksum.antt =====
-- `crc32`, `checksum_text`, `with_checksum` and `validate_checksum` of src/wal.cpp.
use Prim.Native.Nat.{bit_and, bit_xor}
use omni_sched.Base.{
  ℕ, zero, suc, ◌-◌, ◌/◌, ◌%◌, ◌^◌, ◌<◌, Bytes, text, text_eq, text_eq_refl, true, false,
  Bool-cases, inl, inr, List, [], ◌∷◌, ◌++◌, none, some, ◌≡◌, ◌≢◌, subst, refl, ◌==◌, if◌then◌else◌,
  length, replicate, runtime_error, Result, ok, err, guard, All, All-append, All-mono, arith,
}
use omni_sched.Codec.Hex.{hex_digit, IsHexDigit, hex_digit-IsHexDigit}
use omni_sched.Codec.Split.{before_last, before_last-append, Lacks}

-- `mask` is 0 or all ones, by the lowest bit of the checksum.
crc_bit : ℕ → ℕ
crc_bit checksum =
    let mask = (2 ^ 32 - checksum % 2) % 2 ^ 32 in bit_xor (checksum / 2) (bit_and 0xEDB88320 mask)

crc_bits : ℕ → ℕ → ℕ
crc_bits zero checksum = checksum
crc_bits (suc bits) checksum = crc_bits bits (crc_bit checksum)

crc_bytes : ℕ → Bytes → ℕ
crc_bytes checksum [] = checksum
crc_bytes checksum (byte ∷ value) = crc_bytes (crc_bits 8 (bit_xor checksum byte)) value

unfoldable pub crc32 : Bytes → ℕ
unfolding crc_bit crc_bits crc_bytes
crc32 value = bit_xor (crc_bytes 0xFFFFFFFF value) 0xFFFFFFFF

-- The hex digits of a positive number in front of `out`; the fuel is above the number.
hex_digits : ℕ → ℕ → Bytes → Bytes
hex_digits zero n out = out
hex_digits (suc fuel) n out = elim (n == 0) [
  | true ↦ out
  | false ↦ hex_digits fuel (n / 16) (hex_digit (n % 16) ∷ out)
]

-- `std::hex << std::uppercase`.
hex_number : ℕ → Bytes
hex_number n = if n == 0 then b'0' ∷ [] else hex_digits (suc n) n []

-- `std::setw(8) << std::setfill('0')`.
unfoldable pub checksum_text : Bytes → Bytes
unfolding hex_number hex_digits
checksum_text value =
    let output = hex_number (crc32 value) in replicate (8 - length output) b'0' ++ output

unfoldable pub with_checksum : Bytes → Bytes
with_checksum prefix = prefix ++ b'|' ∷ (checksum_text prefix ++ b'\n' ∷ [])

-- `fields.back()`, of fields that are not empty.
unfoldable pub back : List Bytes → Bytes
back [] = []
back (field ∷ []) = field
back (field ∷ next ∷ fields) = back (next ∷ fields)

unfoldable pub validate_checksum : Bytes → List Bytes → Result (Unit {0})
validate_checksum line [] = err (runtime_error (text "WAL record has no fields"))
validate_checksum line (field ∷ fields) = elim (before_last b'|' line) [
  | none ↦ err (runtime_error (text "WAL checksum mismatch"))
  | some prefix ↦
      guard (text_eq (checksum_text prefix) (back (field ∷ fields)))
        (runtime_error (text "WAL checksum mismatch"))
]

-- The check value of this CRC.
crc32_check : crc32 (text "123456789") ≡ 0xCBF43926
unfolding crc32 text
crc32_check = refl

checksum_text_check : checksum_text (text "123456789") ≡ text "CBF43926"
unfolding checksum_text crc32 text hex_digit
checksum_text_check = refl

hex_digit_step :
    (fuel n : ℕ) (out : Bytes)
    → 0 < n
    → hex_digits (suc fuel) n out ≡ hex_digits fuel (n / 16) (hex_digit (n % 16) ∷ out)
unfolding hex_digits
hex_digit_step fuel n out h = ground arith

hex_digits-IsHexDigit :
    (fuel n : ℕ) (out : Bytes) → All IsHexDigit out → All IsHexDigit (hex_digits fuel n out)
hex_digits-IsHexDigit zero n out h = unfold hex_digits in h
hex_digits-IsHexDigit (suc fuel) zero out h = unfold hex_digits in h
hex_digits-IsHexDigit (suc fuel) (suc n) out h =
    rw (hex_digit_step fuel (suc n) out (omega arith)) (
      hex_digits-IsHexDigit fuel (suc n / 16) _
        (hex_digit-IsHexDigit (suc n % 16) (omega arith), h))

hex_number-IsHexDigit : (n : ℕ) → All IsHexDigit (hex_number n)
unfolding hex_number
hex_number-IsHexDigit n = elim (Bool-cases (n == 0)) [
  | inl e ↦ rw e (omega arith)
  | inr e ↦ rw e (hex_digits-IsHexDigit (suc n) n [] tt)
]

zeros-IsHexDigit : (n : ℕ) → All IsHexDigit (replicate n b'0')
zeros-IsHexDigit zero = tt
zeros-IsHexDigit (suc n) = (omega arith, zeros-IsHexDigit n)

pub checksum_text-IsHexDigit : (value : Bytes) → All IsHexDigit (checksum_text value)
unfolding checksum_text
checksum_text-IsHexDigit value =
    All-append IsHexDigit (replicate (8 - length (hex_number (crc32 value))) b'0')
      (hex_number (crc32 value)) (zeros-IsHexDigit _) (hex_number-IsHexDigit (crc32 value))

hex_digits-Lacks : (b : ℕ) (s : Bytes) → ¬ IsHexDigit b → All IsHexDigit s → Lacks b s
hex_digits-Lacks b s h d = All-mono IsHexDigit (λ c. c ≢ b) (λ c k e. h (subst IsHexDigit e k)) s d

pub checksum_text-Lacks : (value : Bytes) → Lacks b'|' (checksum_text value)
checksum_text-Lacks value = hex_digits-Lacks b'|' _ (ground arith) (checksum_text-IsHexDigit value)

-- The prefix that was given a checksum passes the check.
pub validate_checksum_lem :
    (prefix : Bytes) (fields : List Bytes)
    → fields ≢ []
    → back fields ≡ checksum_text prefix
    → validate_checksum (prefix ++ b'|' ∷ checksum_text prefix) fields ≡ ok tt
unfolding validate_checksum
validate_checksum_lem prefix [] h e = absurd (h refl)
validate_checksum_lem prefix (f ∷ fields) h e = rw (
  before_last-append b'|' prefix (checksum_text prefix) (checksum_text-Lacks prefix),
  validate_checksum,
  e,
  text_eq_refl (checksum_text prefix),
)
