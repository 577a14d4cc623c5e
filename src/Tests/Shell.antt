-- ===== src/Tests/Shell.antt =====
-- A command of apps/kronos_shell.cpp whose answer arrives between an event and a late answer.
use omni_sched.Base.{
  text, text_eq, true, false, none, [], ◌∷◌, ◌++◌, ◌≡◌, refl, inl, inr, ok, arith,
}
use omni_sched.Protocol.Message.{
  ProtocolMessage, encode_message, encode_fields, holds_line_byte, protocol_version,
}
use omni_sched.Codec.Hex.{hex_encode, hex_digit}
use omni_sched.Codec.Number.{to_string}
use omni_sched.Transport.Line.{send_line, write_loop}
use omni_sched.Transport.Endpoint.{send, send_encoded, next_outcomes}
use omni_sched.Shell.Session.{ShellSession, receives, times_out, execute, send_request, request_of}
use omni_sched.Shell.Matches.{AnswersTo, execute-AnswersTo}
use omni_sched.Shell.Returns.{execute_returns}

abbrev session : ShellSession
session = record {
  transport = record { pipe = []; calls = [] };
  next_request_id = 7;
  responses = [];
  listener_error = none;
  output = [];
}

abbrev an_event : ProtocolMessage
an_event = record {
  request_id = 0;
  kind = text "EVENT";
  fields = text "job 1 COMPLETED: done" ∷ [];
}

abbrev late : ProtocolMessage
late = record { request_id = 6; kind = text "OK"; fields = text "pong" ∷ [] }

abbrev pong : ProtocolMessage
pong = record { request_id = 7; kind = text "OK"; fields = text "pong" ∷ [] }

sends_ping : (send_request 7 (text "ping" ∷ []) session).1 ≡ ok tt
unfolding send_request request_of send send_encoded next_outcomes send_line write_loop
    encode_message encode_fields holds_line_byte protocol_version hex_encode hex_digit to_string
    text
sends_ping = refl

execute-AnswersTo_example :
    AnswersTo 7
      (execute (receives an_event ∷ times_out ∷ receives pong ∷ []) (text "ping" ∷ []) session)
execute-AnswersTo_example =
    execute-AnswersTo (receives an_event ∷ times_out ∷ receives pong ∷ []) (text "ping" ∷ [])
      session tt

not_event : text_eq pong.kind (text "EVENT") ≡ false
unfolding text_eq text
not_event = refl

is_event : text_eq an_event.kind (text "EVENT") ≡ true
unfolding text_eq text
is_event = refl

execute_returns_example :
    (execute
      ((receives an_event ∷ []) ++ receives pong ∷ (receives late ∷ []))
      (text "ping" ∷ [])
      session).1
    ≡ ok pong
execute_returns_example =
    execute_returns pong (receives an_event ∷ []) (receives late ∷ []) (text "ping") [] session refl
      sends_ping refl not_event (inl is_event, tt) (inr (λ e. absurd (omega arith)), tt)
