-- ===== src/Protocol/Message.antt =====
-- `encode_message` and `decode_message` of src/protocol.cpp.
use omni_sched.Base.{
  ℕ, Bytes, text, text_eq, is_empty, Bool, false, List, [], ◌∷◌, ◌++◌, none, some, ◌||◌, not, ◌==◌,
  if◌then◌else◌, invalid_argument, Result, ok, err, ◌>>=◌, ◌>>◌, guard,
}
use omni_sched.Codec.Hex.{hex_encode, hex_decode_with}
use omni_sched.Codec.Split.{split_at}
use omni_sched.Codec.Number.{max_u64, to_string, from_chars}

pub record ProtocolMessage : Type 0 where
  pub request_id : ℕ
  pub kind : Bytes
  pub fields : List Bytes

unfoldable pub protocol_version : Bytes
unfolding text
protocol_version = text "KIPC1"

-- `find_first_of("\t\r\n") != npos`.
unfoldable pub holds_line_byte : Bytes → Bool
holds_line_byte [] = false
holds_line_byte (c ∷ s) = (c == b'\t' || c == b'\r' || c == b'\n') || holds_line_byte s

unfoldable pub encode_fields : List Bytes → Bytes
encode_fields [] = []
encode_fields (field ∷ fields) = b'\t' ∷ (hex_encode field ++ encode_fields fields)

unfoldable pub encode_message : ProtocolMessage → Result Bytes
encode_message message =
    if is_empty message.kind || holds_line_byte message.kind
    then err (invalid_argument (text "protocol message kind is invalid"))
    else ok (
        protocol_version
        ++ b'\t'
          ∷ (to_string message.request_id
              ++ b'\t' ∷ (message.kind ++ (encode_fields message.fields ++ b'\n' ∷ []))))

-- `if (!s.empty() && s.back() == c) s.remove_suffix(1);`
unfoldable pub strip_back : ℕ → Bytes → Bytes
strip_back c [] = []
strip_back c (b ∷ []) = if b == c then [] else b ∷ []
strip_back c (b ∷ b' ∷ s) = b ∷ strip_back c (b' ∷ s)

unfoldable pub hex_decode : Bytes → Result Bytes
hex_decode =
    hex_decode_with (invalid_argument (text "protocol field has odd-length hex encoding"))
      (invalid_argument (text "protocol field has invalid hex encoding"))

unfoldable pub decode_fields : List Bytes → Result (List Bytes)
decode_fields [] = ok []
decode_fields (field ∷ fields) = do
  decoded ← hex_decode field
  rest ← decode_fields fields
  ok (decoded ∷ rest)

-- The text is read to its end.
unfoldable pub parse_request_id : Bytes → Result ℕ
parse_request_id field = elim (from_chars max_u64 field) [
  | none ↦ err (invalid_argument (text "invalid IPC request ID"))
  | some (value, rest) ↦
      if is_empty rest then ok value else err (invalid_argument (text "invalid IPC request ID"))
]

unfoldable pub decode_split : List Bytes → Result ProtocolMessage
decode_split (version ∷ id ∷ kind ∷ fields) = do
  guard (not (not (text_eq version protocol_version) || is_empty kind))
      (invalid_argument (text "invalid IPC protocol message"))
  request_id ← parse_request_id id
  decoded ← decode_fields fields
  ok (record { request_id = request_id; kind = kind; fields = decoded })
decode_split _ = err (invalid_argument (text "invalid IPC protocol message"))

unfoldable pub decode_message : Bytes → Result ProtocolMessage
decode_message encoded_line =
    decode_split (split_at b'\t' (strip_back b'\r' (strip_back b'\n' encoded_line)))
