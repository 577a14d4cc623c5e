-- ===== src/Protocol/RoundTrip.antt =====
-- `encode_message` and `decode_message` of src/protocol.cpp one after the other.
use omni_sched.Base.{
  ℕ, ◌≤◌, Bytes, text_eq_refl, is_empty, Bool-cases, false, List, [], ◌∷◌, ◌++◌, ◌≡◌, ◌≢◌, refl, ap,
  ◌||◌, ok, ◌↔◌, inl, inr, All, All-append, All-mono, map, append_assoc, append-nil, arith,
}
use omni_sched.Codec.Hex.{
  hex_encode, hex_decode-hex_encode, IsByte, IsHexDigit, hex_encode-IsHexDigit,
}
use omni_sched.Codec.Split.{split_at, Lacks, split_at-append, split_at_last}
use omni_sched.Codec.Number.{max_u64, to_string, from_chars-to_string, to_string-IsDigit, IsDigit}
use omni_sched.Protocol.Message.{
  ProtocolMessage, protocol_version, holds_line_byte, encode_fields, encode_message, strip_back,
  hex_decode, decode_fields, parse_request_id, decode_split, decode_message,
}

-- A byte that neither separates fields nor ends a line.
abbrev pub IsPlain : ℕ → Type 0
IsPlain c = (c ≢ b'\t') × (c ≢ b'\r') × (c ≢ b'\n')

-- A byte that does not end a line.
abbrev pub IsInline : ℕ → Type 0
IsInline c = (c ≢ b'\r') × (c ≢ b'\n')

-- The field values are bytes, the request ID fits its type.
pub record IsMessage (m : ProtocolMessage) : Type 0 where
  pub id_fits : m.request_id ≤ max_u64
  pub fields_bytes : All (All IsByte) m.fields

-- The line without its end.
abbrev body : ProtocolMessage → Bytes
body m =
    protocol_version
    ++ b'\t' ∷ (to_string m.request_id ++ b'\t' ∷ (m.kind ++ encode_fields m.fields))

IsPlain-kind : (s : Bytes) → holds_line_byte s ≡ false → All IsPlain s
unfolding holds_line_byte
IsPlain-kind [] h = tt
IsPlain-kind (c ∷ s) h = ground (arith, IsPlain-kind s)

kind_plain : (s : Bytes) → All IsPlain s → holds_line_byte s ≡ false
unfolding holds_line_byte
kind_plain [] h = refl
kind_plain (c ∷ s) h = ground (arith, kind_plain s h.1)

is_empty-ne-nil : (s : Bytes) → is_empty s ≡ false → s ≢ []
is_empty-ne-nil [] h = cc
is_empty-ne-nil (c ∷ s) h = λ e. cc

ne-nil-is_empty : (s : Bytes) → s ≢ [] → is_empty s ≡ false
ne-nil-is_empty [] h = absurd (h refl)
ne-nil-is_empty (c ∷ s) h = refl

body_line :
    (m : ProtocolMessage)
    → protocol_version
        ++ b'\t'
          ∷ (to_string m.request_id ++ b'\t' ∷ (m.kind ++ (encode_fields m.fields ++ b'\n' ∷ [])))
      ≡ body m ++ b'\n' ∷ []
body_line m = simp append_assoc

-- A message is encoded exactly if its kind is a plain text and not empty.
encode_message-eq-ok :
    (m : ProtocolMessage) {line : Bytes}
    → encode_message m ≡ ok line
    → (m.kind ≢ []) × All IsPlain m.kind × (line ≡ body m ++ b'\n' ∷ [])
unfolding encode_message
encode_message-eq-ok m {line} h = elim (Bool-cases (is_empty m.kind || holds_line_byte m.kind)) [
  | inl e ↦ absurd (cc (rw e at h))
  | inr e ↦ (
    is_empty-ne-nil m.kind (ground arith),
    IsPlain-kind m.kind (ground arith),
    ground (arith, body_line m),
  )
]

encode_message-plain :
    (m : ProtocolMessage)
    → m.kind ≢ []
    → All IsPlain m.kind
    → encode_message m ≡ ok (body m ++ b'\n' ∷ [])
unfolding encode_message
encode_message-plain m k p =
    rw (ne-nil-is_empty m.kind k, kind_plain m.kind p) (ap ok (body_line m))

strip_back_none : (c : ℕ) (s : Bytes) → Lacks c s → strip_back c s ≡ s
unfolding strip_back
strip_back_none c [] h = refl
strip_back_none c (b ∷ []) h = ground arith
strip_back_none c (b ∷ b' ∷ s) h = ap (◌∷◌ b) (strip_back_none c (b' ∷ s) h.1)

strip_back_last : (c : ℕ) (s : Bytes) → strip_back c (s ++ c ∷ []) ≡ s
unfolding strip_back
strip_back_last c [] = ground arith
strip_back_last c (b ∷ []) = ground arith
strip_back_last c (b ∷ b' ∷ s) = ap (◌∷◌ b) (strip_back_last c (b' ∷ s))

encode_fields-IsInline : (fs : List Bytes) → All (All IsByte) fs → All IsInline (encode_fields fs)
unfolding encode_fields
encode_fields-IsInline [] h = tt
encode_fields-IsInline (f ∷ fs) h = (
  omega arith,
  All-append IsInline (hex_encode f) (encode_fields fs)
      (All-mono IsHexDigit IsInline (λ c d. ground arith) _ (hex_encode-IsHexDigit f h.0))
      (encode_fields-IsInline fs h.1),
)

split_at-encode_fields :
    (p : Bytes) (fs : List Bytes)
    → Lacks b'\t' p
    → All (All IsByte) fs
    → split_at b'\t' (p ++ encode_fields fs) ≡ p ∷ map hex_encode fs
unfolding encode_fields
split_at-encode_fields p [] hp h = rw append-nil (split_at_last b'\t' p hp)
split_at-encode_fields p (f ∷ fs) hp h = rw (split_at-append b'\t' p _ hp) (
    ap (◌∷◌ p) (
      split_at-encode_fields (hex_encode f) fs
        (All-mono IsHexDigit (λ c. c ≢ b'\t') (λ c d. ground arith) _ (hex_encode-IsHexDigit f h.0))
        h.1))

decode_fields-map :
    (fs : List Bytes) → All (All IsByte) fs → decode_fields (map hex_encode fs) ≡ ok fs
unfolding decode_fields hex_decode
decode_fields-map [] h = refl
decode_fields-map (f ∷ fs) h = rw (hex_decode-hex_encode _ _ f h.0, decode_fields-map fs h.1)

parse_request_id-to_string : (n : ℕ) → n ≤ max_u64 → parse_request_id (to_string n) ≡ ok n
unfolding parse_request_id
parse_request_id-to_string n h = rw (from_chars-to_string max_u64 n h, parse_request_id)

version-IsInline : All IsPlain protocol_version
unfolding protocol_version
version-IsInline = omega arith

body-IsInline : (m : ProtocolMessage) → IsMessage m → All IsPlain m.kind → All IsInline (body m)
body-IsInline m w k =
    All-append IsInline protocol_version _
      (All-mono IsPlain IsInline (λ c d. ground arith) _ version-IsInline)
      (
        omega arith,
        All-append IsInline (to_string m.request_id) _
            (All-mono IsDigit IsInline (λ c d. ground arith) _ (to_string-IsDigit m.request_id))
            (
              omega arith,
              All-append IsInline m.kind _ (All-mono IsPlain IsInline (λ c d. ground arith) _ k)
                  (encode_fields-IsInline m.fields w.fields_bytes),
            ),
      )

split_at-body :
    (m : ProtocolMessage)
    → IsMessage m
    → All IsPlain m.kind
    → split_at b'\t' (body m)
      ≡ protocol_version ∷ to_string m.request_id ∷ m.kind ∷ map hex_encode m.fields
split_at-body m w k = rw (
  split_at-append b'\t' protocol_version _ (All-mono IsPlain _ (λ c d. d.0) _ version-IsInline),
  split_at-append b'\t' (to_string m.request_id) _
      (All-mono IsDigit _ (λ c d. ground arith) _ (to_string-IsDigit m.request_id)),
  split_at-encode_fields m.kind m.fields (All-mono IsPlain _ (λ c d. d.0) _ k) w.fields_bytes,
)

decode_split_parts :
    (m : ProtocolMessage)
    → IsMessage m
    → m.kind ≢ []
    → decode_split (protocol_version ∷ to_string m.request_id ∷ m.kind ∷ map hex_encode m.fields)
      ≡ ok m
unfolding decode_split
decode_split_parts m w k = rw (
  text_eq_refl protocol_version,
  parse_request_id-to_string m.request_id w.id_fits,
  decode_fields-map m.fields w.fields_bytes,
  ne-nil-is_empty m.kind k,
)

-- A message with field values of bytes and a 64-bit request ID that is encoded is decoded to itself.
pub decode-encode :
    (m : ProtocolMessage) {line : Bytes}
    → IsMessage m
    → encode_message m ≡ ok line
    → decode_message line ≡ ok m
unfolding decode_message
decode-encode m {line} w h =
    let (k, plain, e) = encode_message-eq-ok m h in
    rw
      (
        e,
        strip_back_last b'\n' (body m),
        strip_back_none b'\r' (body m)
            (All-mono IsInline _ (λ c d. d.0) _ (body-IsInline m w plain)),
        split_at-body m w plain,
      )
      (decode_split_parts m w k)

-- An encoded message is one line: its only line feed is its last byte, and it holds no carriage
-- return.
pub encode_one_line :
    (m : ProtocolMessage) {line : Bytes}
    → IsMessage m
    → encode_message m ≡ ok line
    → (s : Bytes) × (line ≡ s ++ b'\n' ∷ []) × All IsInline s
encode_one_line m w h =
    let (_, plain, e) = encode_message-eq-ok m h in (body m, e, body-IsInline m w plain)

-- Encoding succeeds exactly if the kind is not empty and holds no tab, carriage return or line feed.
pub encode_accepts :
    (m : ProtocolMessage)
    → ((line : Bytes) × (encode_message m ≡ ok line)) ↔ ((m.kind ≢ []) × All IsPlain m.kind)
encode_accepts m = (
  (λ r. let (k, plain, _) = encode_message-eq-ok m r.1 in (k, plain)),
  λ h. (body m ++ b'\n' ∷ [], encode_message-plain m h.0 h.1),
)
