-- ===== src/Tests/Transport.antt =====
-- Lines that arrive in pieces at a FIFO of src/fifo.cpp, and a message that a full pipe holds up.
use omni_sched.Base.{List, [], ◌∷◌, ◌++◌}
use omni_sched.Transport.Line.{
  PollOutcome, ReadOutcome, received, interrupted, would_block, receive_line, SendOutcome,
  send_line,
}
use omni_sched.Transport.Stream.{data_of, Conserves, receive_line-Conserves, Sends, send_line-Sends}

abbrev arriving : List ReadOutcome
arriving = received (b'b' ∷ []) ∷ interrupted ∷ received (b'\n' ∷ b'c' ∷ []) ∷ would_block ∷ []

receive_line-Conserves_example :
    Conserves
      ((b'a' ∷ []) ++ data_of arriving)
      (receive_line PollOutcome.ready arriving (b'a' ∷ []))
receive_line-Conserves_example = receive_line-Conserves PollOutcome.ready arriving (b'a' ∷ [])

abbrev busy : List SendOutcome
busy = SendOutcome.sent 0 ∷ SendOutcome.full_then_ready ∷ SendOutcome.full_then_timed_out ∷ []

send_line-Sends_example : Sends (b'a' ∷ b'\n' ∷ []) [] (send_line busy (b'a' ∷ b'\n' ∷ []) [])
send_line-Sends_example = send_line-Sends busy (b'a' ∷ b'\n' ∷ []) []
