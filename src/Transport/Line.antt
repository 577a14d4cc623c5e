-- ===== src/Transport/Line.antt =====
-- `receive_line` and `send_line` of src/fifo.cpp against the calls of the operating system.
use omni_sched.Base.{
  ℕ, suc, ◌*◌, Bytes, text, true, false, Option, none, some, List, [], ◌∷◌, ◌++◌, ltb, ◌==◌,
  if◌then◌else◌, length, take, drop, Error, invalid_argument, runtime_error, Result, ok, err,
}

abbrev pub max_message_size : ℕ
max_message_size = 1024 * 1024

-- `extract_line`: the buffer up to its first line feed, and what stands behind it.
unfoldable pub extract_line : Bytes → Option (Bytes × Bytes)
extract_line [] = none
extract_line (c ∷ buffer) = elim (c == b'\n') [
  | true ↦ some (c ∷ [], buffer)
  | false ↦ elim (extract_line buffer) [ none ↦ none | some (line, rest) ↦ some (c ∷ line, rest) ]
]

-- What `poll` says in the end, once no signal interrupts it.
pub data PollOutcome : Type 0 where
  ready timed_out unavailable : PollOutcome
  poll_failed : Error → PollOutcome

-- What a call of `read` does.
pub data ReadOutcome : Type 0 where
  -- a chunk that is not empty
  received : Bytes → ReadOutcome
  end_of_file interrupted would_block : ReadOutcome
  read_failed : Error → ReadOutcome

-- What a call leaves: the reads to come, the buffer, and its result.
abbrev pub Received : Type 0
Received = List ReadOutcome × Bytes × Result (Option Bytes)

unfoldable pub or_line : Option (Bytes × Bytes) → Received → List ReadOutcome → Received
or_line none rest reads = rest
or_line (some (line, buffer)) rest reads = (reads, buffer, ok (some line))

-- The loop over `read`. With no read to come a call would block.
unfoldable pub read_loop : List ReadOutcome → Bytes → Received
read_loop [] buffer = ([], buffer, ok none)
read_loop (received chunk ∷ reads) buffer =
    let rest = read_loop reads (buffer ++ chunk) in
    if ltb max_message_size (length (buffer ++ chunk))
    then (reads, buffer ++ chunk, err (runtime_error (text "IPC message exceeded the size limit")))
    else or_line (extract_line (buffer ++ chunk)) rest reads
read_loop (end_of_file ∷ reads) buffer = (reads, buffer, ok none)
read_loop (interrupted ∷ reads) buffer = read_loop reads buffer
read_loop (would_block ∷ reads) buffer = (reads, buffer, ok none)
read_loop (read_failed error ∷ reads) buffer = (reads, buffer, err error)

unfoldable pub after_poll : PollOutcome → List ReadOutcome → Bytes → Received
after_poll ready reads buffer = read_loop reads buffer
after_poll timed_out reads buffer = (reads, buffer, ok none)
after_poll unavailable reads buffer =
    (reads, buffer, err (runtime_error (text "IPC FIFO became unavailable")))
after_poll (poll_failed error) reads buffer = (reads, buffer, err error)

unfoldable pub receive_line : PollOutcome → List ReadOutcome → Bytes → Received
receive_line poll reads buffer = or_line (extract_line buffer) (after_poll poll reads buffer) reads

-- What a call of `write` does, with the `poll` that follows EAGAIN.
pub data SendOutcome : Type 0 where
  -- it writes one byte more than the number; a count of zero is an error
  sent : ℕ → SendOutcome
  signalled full_then_ready full_then_timed_out : SendOutcome
  send_failed : Error → SendOutcome

-- The loop of `send_line`. `pipe` is what the other side will read.
unfoldable pub write_loop : List SendOutcome → Bytes → Bytes → Bytes × Result (Unit {0})
write_loop outcomes [] pipe = (pipe, ok tt)
write_loop [] (c ∷ message) pipe = (pipe ++ c ∷ message, ok tt)
write_loop (sent n ∷ outcomes) (c ∷ message) pipe =
    write_loop outcomes (drop (suc n) (c ∷ message)) (pipe ++ take (suc n) (c ∷ message))
write_loop (signalled ∷ outcomes) (c ∷ message) pipe = write_loop outcomes (c ∷ message) pipe
write_loop (full_then_ready ∷ outcomes) (c ∷ message) pipe = write_loop outcomes (c ∷ message) pipe
write_loop (full_then_timed_out ∷ outcomes) (c ∷ message) pipe =
    (pipe, err (runtime_error (text "timed out writing to IPC FIFO")))
write_loop (send_failed error ∷ outcomes) (c ∷ message) pipe = (pipe, err error)

unfoldable pub send_line : List SendOutcome → Bytes → Bytes → Bytes × Result (Unit {0})
send_line outcomes message pipe =
    if ltb max_message_size (length message)
    then (pipe, err (invalid_argument (text "IPC message exceeded the size limit")))
    else write_loop outcomes message pipe
