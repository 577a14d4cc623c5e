-- ===== src/Tests/Protocol.antt =====
-- Messages and commands of src/protocol.cpp.
use omni_sched.Base.{Bytes, List, [], ◌∷◌, ◌++◌, ◌≡◌, ◌≢◌, ◌↔◌, refl, ok, All, arith}
use omni_sched.Protocol.Message.{
  ProtocolMessage, holds_line_byte, encode_message, decode_message, protocol_version, encode_fields,
}
use omni_sched.Protocol.RoundTrip.{IsMessage, IsPlain, decode-encode, encode_accepts}
use omni_sched.Protocol.Token.{
  scan, step, finish, flush, is_space, command_of, tokenize_command, tokenize-command_of,
}
use omni_sched.Codec.Number.{to_string}

abbrev greeting : ProtocolMessage
greeting = record { request_id = 5; kind = b'O' ∷ b'K' ∷ []; fields = (b'\t' ∷ []) ∷ [] ∷ [] }

greeting-IsMessage : IsMessage greeting
greeting-IsMessage = record { id_fits = omega arith; fields_bytes = ((omega arith, tt), (tt, tt)) }

abbrev greeting_line : Bytes
greeting_line =
    protocol_version
    ++ b'\t'
      ∷ (to_string 5 ++ b'\t' ∷ (greeting.kind ++ (encode_fields greeting.fields ++ b'\n' ∷ [])))

greeting_encoded : encode_message greeting ≡ ok greeting_line
unfolding encode_message holds_line_byte
greeting_encoded = refl

decode-encode_example : decode_message greeting_line ≡ ok greeting
decode-encode_example =
    decode-encode greeting {line = greeting_line} greeting-IsMessage greeting_encoded

encode_accepts_example :
    ((line : Bytes) × (encode_message greeting ≡ ok line))
    ↔ ((greeting.kind ≢ []) × All IsPlain greeting.kind)
encode_accepts_example = encode_accepts greeting

abbrev words : List Bytes
words = (b'a' ∷ b' ' ∷ b'"' ∷ []) ∷ (b'\\' ∷ []) ∷ []

tokenize-command_of_example : tokenize_command (command_of words) ≡ ok words
tokenize-command_of_example = tokenize-command_of words (λ e. cc, (λ e. cc, tt))

abbrev lone : List Bytes
lone = (b'a' ∷ []) ∷ []

abbrev spaced : Bytes
spaced = b' ' ∷ b'a' ∷ b' ' ∷ b'"' ∷ b'"' ∷ b' ' ∷ []

spaced_tokens : tokenize_command spaced ≡ ok lone
unfolding tokenize_command scan step finish flush is_space
spaced_tokens = refl
