-- ===== src/Transport/Endpoint.antt =====
-- `Transport` of src/fifo.cpp: messages over the two pipes.
use omni_sched.Base.{Bytes, Option, none, some, List, [], ◌∷◌, Result, ok, err}
use omni_sched.Protocol.Message.{ProtocolMessage, encode_message, decode_message}
use omni_sched.Transport.Line.{SendOutcome, PollOutcome, ReadOutcome, send_line, receive_line}

-- What was written to the pipe so far, and the outcomes of the `write` calls of each send to come;
-- after those, each send writes all at once.
pub record Outlet : Type 0 where
  pub pipe : Bytes
  pub calls : List (List SendOutcome)

unfoldable pub next_outcomes : List (List SendOutcome) → List SendOutcome × List (List SendOutcome)
next_outcomes [] = ([], [])
next_outcomes (outcomes ∷ calls) = (outcomes, calls)

-- `send_line` is called with the next outcomes.
unfoldable pub send_encoded : Result Bytes → Outlet → Outlet × Result (Unit {0})
send_encoded (err error) outlet = (outlet, err error)
send_encoded (ok line) outlet =
    let (outcomes, calls) = next_outcomes outlet.calls in
    let (pipe, result) = send_line outcomes line outlet.pipe in
    (record { pipe = pipe; calls = calls }, result)

unfoldable pub send : ProtocolMessage → Outlet → Outlet × Result (Unit {0})
send message outlet = send_encoded (encode_message message) outlet

-- The reads to come and the buffer.
pub record Inlet : Type 0 where
  pub reads : List ReadOutcome
  pub read_buffer : Bytes

unfoldable pub decoded_line : Result (Option Bytes) → Result (Option ProtocolMessage)
decoded_line (err error) = err error
decoded_line (ok none) = ok none
decoded_line (ok (some line)) = elim (decode_message line) [
  | err error ↦ err error
  | ok message ↦ ok (some message)
]

unfoldable pub receive : PollOutcome → Inlet → Inlet × Result (Option ProtocolMessage)
receive poll inlet =
    let (reads, buffer, line) = receive_line poll inlet.reads inlet.read_buffer in
    (record { reads = reads; read_buffer = buffer }, decoded_line line)
