-- ===== src/Transport/Frame.antt =====
-- A message of src/protocol.cpp over the pipes of src/fifo.cpp.
use omni_sched.Base.{Bytes, length, ◌<◌, ◌⊎◌, Option, none, some, ◌++◌, ◌≡◌, Result, ok, err}
use omni_sched.Protocol.Message.{ProtocolMessage}
use omni_sched.Transport.Line.{max_message_size}
use omni_sched.Transport.Stream.{data_of}
use omni_sched.Transport.Endpoint.{Inlet}

-- What a receiver finds where a message was sent, from the bytes at hand: the message, with all that
-- stands behind it left; or nothing, if the bytes are fewer than its line has; or an exception, if they
-- are fewer or more than a message may have. Without the message no byte is lost.
abbrev pub Finds :
    ProtocolMessage → Bytes → Bytes → Bytes → Inlet × Result (Option ProtocolMessage) → Type 0
Finds m line rest bytes (inlet, err error) =
    (inlet.read_buffer ++ data_of inlet.reads ≡ line ++ rest)
    × ((length bytes < length line) ⊎ (max_message_size < length bytes))
Finds m line rest bytes (inlet, ok none) =
    (inlet.read_buffer ++ data_of inlet.reads ≡ line ++ rest) × (length bytes < length line)
Finds m line rest bytes (inlet, ok (some m')) =
    (m' ≡ m) × (inlet.read_buffer ++ data_of inlet.reads ≡ rest)
