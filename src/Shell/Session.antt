-- ===== src/Shell/Session.antt =====
-- `ShellSession` of apps/kronos_shell.cpp: the thread that sends requests and the one that listens.
use omni_sched.Base.{
  ℕ, ◌+◌, ◌%◌, ◌^◌, Bytes, text, text_eq, Option, none, some, List, [], ◌∷◌, ◌++◌, ◌==◌,
  if◌then◌else◌, Error, invalid_argument, runtime_error, what, Result, ok, err,
}
use omni_sched.Protocol.Message.{ProtocolMessage}
use omni_sched.Transport.Endpoint.{Outlet, send}

-- `responses_`, as an association list.
abbrev pub Responses : Type 0
Responses = List (ℕ × ProtocolMessage)

-- `output` holds what was printed on either stream.
pub record ShellSession : Type 0 where
  pub transport : Outlet
  pub next_request_id : ℕ
  pub responses : Responses
  pub listener_error : Option Bytes
  pub output : List Bytes

unfoldable pub find : ℕ → Responses → Option ProtocolMessage
find id [] = none
find id ((key, m) ∷ responses) = if key == id then some m else find id responses

-- `responses_[id] = …`
unfoldable pub assign : ℕ → ProtocolMessage → Responses → Responses
assign id m [] = (id, m) ∷ []
assign id m ((key, old) ∷ responses) =
    if key == id then (key, m) ∷ responses else (key, old) ∷ assign id m responses

unfoldable pub erase : ℕ → Responses → Responses
erase id [] = []
erase id ((key, m) ∷ responses) = if key == id then responses else (key, m) ∷ erase id responses

unfoldable pub print : Bytes → ShellSession → ShellSession
print line s = record s { output = s.output ++ line ∷ [] }

-- What `receive` gives the listener.
pub data Arrival : Type 0 where
  receives : ProtocolMessage → Arrival
  times_out : Arrival
  fails : Error → Arrival

unfoldable pub event_text : List Bytes → Bytes
event_text [] = text "job update"
event_text (field ∷ fields) = field

unfoldable pub heard : ProtocolMessage → ShellSession → ShellSession
heard m s =
    if text_eq m.kind (text "EVENT")
    then print (text "\n[event] " ++ (event_text m.fields ++ text "\n")) s
    else record s { responses = assign m.request_id m s.responses }

-- A round of `listen`, while the thread has not stopped.
unfoldable pub round : Arrival → ShellSession → ShellSession
round (receives m) s = heard m s
round times_out s = s
round (fails error) s = record s {
  listener_error = some (text "IPC listener stopped: " ++ what error);
}

unfoldable pub listen : Arrival → ShellSession → ShellSession
listen arrival s = elim (s.listener_error) [ some error ↦ s | none ↦ round arrival s ]

unfoldable pub listen_all : List Arrival → ShellSession → ShellSession
listen_all [] s = s
listen_all (arrival ∷ arrivals) s = listen_all arrivals (listen arrival s)

unfoldable pub request_of : ℕ → List Bytes → ProtocolMessage
request_of request_id tokens = record {
  request_id = request_id;
  kind = text "REQUEST";
  fields = tokens;
}

-- The end of `execute`, once the wait is over.
unfoldable pub take_response :
    ℕ → ShellSession → Option Bytes → Option ProtocolMessage → ShellSession × Result ProtocolMessage
take_response request_id s (some error) response = (s, err (runtime_error error))
take_response request_id s none none =
    (s, err (runtime_error (text "timed out waiting for engine response")))
take_response request_id s none (some response) =
    (record s { responses = erase request_id s.responses }, ok response)

-- What follows the `send`. The condition of the wait does not become false again, so that it is the
-- condition after all that the listener heard before the wait was over, by it or by the time.
unfoldable pub await :
    List Arrival → ℕ → ShellSession × Result (Unit {0}) → ShellSession × Result ProtocolMessage
await arrivals request_id (s, err error) = (s, err error)
await arrivals request_id (s, ok done) =
    let s' = listen_all arrivals s in
    take_response request_id s' s'.listener_error (find request_id s'.responses)

unfoldable pub send_request : ℕ → List Bytes → ShellSession → ShellSession × Result (Unit {0})
send_request request_id tokens s =
    let (transport, result) = send (request_of request_id tokens) s.transport in
    (record s { transport = transport; next_request_id = (request_id + 1) % 2 ^ 64 }, result)

unfoldable pub execute :
    List Arrival → List Bytes → ShellSession → ShellSession × Result ProtocolMessage
execute arrivals [] s = (s, err (invalid_argument (text "empty command")))
execute arrivals (token ∷ tokens) s =
    await arrivals s.next_request_id (send_request s.next_request_id (token ∷ tokens) s)
