-- ===== src/Codec/Hex.antt =====
-- The hex coding of text fields in src/wal.cpp. src/protocol.cpp holds a copy of the same three
-- functions, with other messages.
use Prim.Native.Nat.{bit_or}
use omni_sched.Base.{
  ℕ, zero, suc, ◌+◌, ◌-◌, ◌*◌, ◌/◌, ◌%◌, ◌≤◌, ◌<◌, Bytes, text, Bool, true, false, [], ◌∷◌, Option,
  none, some, ◌≡◌, refl, ◌⊎◌, inl, inr, Bool-cases, ◌&&◌, ◌||◌, leb, ◌==◌, ==_iff, if◌then◌else◌,
  get_or, length, All, Error, Result, ok, err, or_throw, arith,
}

-- A `char` of the source, read as `unsigned char`.
abbrev pub IsByte : ℕ → Type 0
IsByte c = c < 256

-- `digits[index]`. Both uses have an index below 16.
unfoldable pub hex_digit : ℕ → ℕ
hex_digit index = get_or (text "0123456789ABCDEF") index 0

unfoldable pub hex_encode : Bytes → Bytes
hex_encode [] = []
hex_encode (byte ∷ value) = hex_digit (byte / 16) ∷ hex_digit (byte % 16) ∷ hex_encode value

-- `none` stands for -1.
unfoldable pub hex_value : ℕ → Option ℕ
hex_value value =
    if leb b'0' value && leb value b'9'
    then some (value - b'0')
    else if leb b'A' value && leb value b'F'
    then some (value - b'A' + 10)
    else if leb b'a' value && leb value b'f'
    then some (value - b'a' + 10)
    else none

-- `(high << 4) | low`, unless one of the two is -1.
unfoldable pub hex_byte : ℕ → ℕ → Option ℕ
unfolding hex_value
hex_byte a b = elim (hex_value a) [
  | none ↦ none
  | some high ↦ elim (hex_value b) [ none ↦ none | some low ↦ some (bit_or (high * 16) low) ]
]

-- The loop over the pairs of digits; an odd digit at the end is not met.
unfoldable pub hex_pairs : Bytes → Option Bytes
hex_pairs [] = some []
hex_pairs (a ∷ []) = none
hex_pairs (a ∷ b ∷ rest) = elim (hex_byte a b) [
  | none ↦ none
  | some byte ↦ elim (hex_pairs rest) [ none ↦ none | some decoded ↦ some (byte ∷ decoded) ]
]

-- `hex_decode`, with the exception for an odd length and the one for a byte that is no hex digit.
unfoldable pub hex_decode_with : Error → Error → Bytes → Result Bytes
hex_decode_with odd invalid value =
    if length value % 2 == 0 then or_throw (hex_pairs value) invalid else err odd

-- A property of all bytes is checked at each.
every : (ℕ → Bool) → ℕ → Bool
every test zero = true
every test (suc k) = every test k && test k

and_left : (a b : Bool) → (a && b) ≡ true → a ≡ true
and_left true b h = refl
and_left false b h = h

and_right : (a b : Bool) → (a && b) ≡ true → b ≡ true
and_right true b h = h
and_right false b h = cc

every_below : (test : ℕ → Bool) (k : ℕ) → every test k ≡ true → (c : ℕ) → c < k → test c ≡ true
unfolding every
every_below test zero h c l = absurd (omega arith)
every_below test (suc k) h c l = elim (Bool-cases (c == k)) [
  | inl e ↦ rw ((==_iff c k).0 e) (and_right _ _ h)
  | inr e ↦ every_below test k (and_left _ _ h) c (ground arith)
]

is_some_of : ℕ → Option ℕ → Bool
is_some_of n none = false
is_some_of n (some m) = m == n

is_some_of_sound : (n : ℕ) (o : Option ℕ) → is_some_of n o ≡ true → o ≡ some n
unfolding is_some_of
is_some_of_sound n o h = ground arith

byte_table :
    every (λ b. is_some_of b (hex_byte (hex_digit (b / 16)) (hex_digit (b % 16)))) 256 ≡ true
unfolding every is_some_of hex_byte hex_digit text
byte_table = refl

hex_byte-hex_digit :
    (b : ℕ) → IsByte b → hex_byte (hex_digit (b / 16)) (hex_digit (b % 16)) ≡ some b
hex_byte-hex_digit b h = is_some_of_sound b _ (every_below _ 256 byte_table b h)

hex_pairs-hex_encode : (s : Bytes) → All IsByte s → hex_pairs (hex_encode s) ≡ some s
unfolding hex_pairs hex_encode
hex_pairs-hex_encode [] h = refl
hex_pairs-hex_encode (b ∷ s) h =
    ground (arith, hex_byte-hex_digit b h.0, hex_pairs-hex_encode s h.1)

length-hex_encode : (s : Bytes) → length (hex_encode s) ≡ 2 * length s
unfolding hex_encode
length-hex_encode [] = refl
length-hex_encode (b ∷ s) = omega (arith, length-hex_encode s)

even-length : (s : Bytes) → (length (hex_encode s) % 2 == 0) ≡ true
even-length s = ground (arith, length-hex_encode s)

-- Decoding undoes encoding, for every text.
pub hex_decode-hex_encode :
    (odd invalid : Error) (s : Bytes)
    → All IsByte s
    → hex_decode_with odd invalid (hex_encode s) ≡ ok s
unfolding hex_decode_with
hex_decode-hex_encode odd invalid s h = rw (even-length s, hex_pairs-hex_encode s h)

abbrev pub IsHexDigit : ℕ → Type 0
IsHexDigit c = ((b'0' ≤ c) × (c ≤ b'9')) ⊎ ((b'A' ≤ c) × (c ≤ b'F'))

is_hex_digit : ℕ → Bool
is_hex_digit c = (leb b'0' c && leb c b'9') || (leb b'A' c && leb c b'F')

is_hex_digit_sound : (c : ℕ) → is_hex_digit c ≡ true → IsHexDigit c
unfolding is_hex_digit
is_hex_digit_sound c h = ground arith

digit_table : every (λ n. is_hex_digit (hex_digit n)) 16 ≡ true
unfolding every is_hex_digit hex_digit text
digit_table = refl

pub hex_digit-IsHexDigit : (n : ℕ) → n < 16 → IsHexDigit (hex_digit n)
hex_digit-IsHexDigit n h = is_hex_digit_sound _ (every_below _ 16 digit_table n h)

-- Encoded text holds hex digits only, so no separator and no line end.
pub hex_encode-IsHexDigit : (s : Bytes) → All IsByte s → All IsHexDigit (hex_encode s)
unfolding hex_encode
hex_encode-IsHexDigit [] h = tt
hex_encode-IsHexDigit (b ∷ s) h = (
  hex_digit-IsHexDigit (b / 16) (omega arith),
  (hex_digit-IsHexDigit (b % 16) (omega arith), hex_encode-IsHexDigit s h.1),
)
