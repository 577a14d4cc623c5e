-- ===== src/Transport/Steady.antt =====
-- `send` of src/fifo.cpp while no call of `write` fails.
use omni_sched.Base.{
  suc, ◌≤◌, ◌<◌, Bytes, take, drop, take-append-drop, append_assoc, append-nil, length, Bool-cases,
  ltb, ltb→lt, List, [], ◌∷◌, ◌++◌, ◌≡◌, refl, inl, inr, ◌⊎◌, text, Error, invalid_argument, Result,
  ok, err, All, arith,
}
use omni_sched.Protocol.Message.{ProtocolMessage, encode_message}
use omni_sched.Transport.Line.{
  SendOutcome, sent, signalled, full_then_ready, full_then_timed_out, send_failed, write_loop,
  send_line, max_message_size,
}
use omni_sched.Transport.Endpoint.{Outlet, next_outcomes, send_encoded, send}

-- No call of `write` fails but by EINTR, and a full pipe is emptied in time.
abbrev pub Flows : List SendOutcome → Type 0
Flows [] = Unit {0}
Flows (sent n ∷ outcomes) = Flows outcomes
Flows (signalled ∷ outcomes) = Flows outcomes
Flows (full_then_ready ∷ outcomes) = Flows outcomes
Flows (full_then_timed_out ∷ outcomes) = ⊥
Flows (send_failed error ∷ outcomes) = ⊥

abbrev pub Steady : Outlet → Type 0
Steady outlet = All Flows outlet.calls

write_loop-Flows :
    (outcomes : List SendOutcome) (message pipe : Bytes)
    → Flows outcomes
    → write_loop outcomes message pipe ≡ (pipe ++ message, ok tt)
unfolding write_loop
write_loop-Flows outcomes [] pipe h = rw append-nil
write_loop-Flows [] (c ∷ message) pipe h = refl
write_loop-Flows (sent n ∷ outcomes) (c ∷ message) pipe h = rw (
  write_loop-Flows outcomes (drop (suc n) (c ∷ message)) (pipe ++ take (suc n) (c ∷ message)) h,
  append_assoc pipe (take (suc n) (c ∷ message)) (drop (suc n) (c ∷ message)),
  take-append-drop (suc n) (c ∷ message),
)
write_loop-Flows (signalled ∷ outcomes) (c ∷ message) pipe h =
    write_loop-Flows outcomes (c ∷ message) pipe h
write_loop-Flows (full_then_ready ∷ outcomes) (c ∷ message) pipe h =
    write_loop-Flows outcomes (c ∷ message) pipe h
write_loop-Flows (full_then_timed_out ∷ outcomes) (c ∷ message) pipe h = absurd h
write_loop-Flows (send_failed error ∷ outcomes) (c ∷ message) pipe h = absurd h

-- What `send_line` throws at a line that is too long.
abbrev pub too_long : Error
too_long = invalid_argument (text "IPC message exceeded the size limit")

-- The line is sent whole, or is too long and nothing is sent.
abbrev pub SendsLine : Bytes → Bytes → Bytes → Result (Unit {0}) → Type 0
SendsLine line pipe pipe' result =
    ((result ≡ ok tt) × (length line ≤ max_message_size) × (pipe' ≡ pipe ++ line))
    ⊎ ((result ≡ err too_long) × (max_message_size < length line) × (pipe' ≡ pipe))

send_line-Flows :
    (outcomes : List SendOutcome) (line pipe : Bytes)
    → Flows outcomes
    → SendsLine line pipe (send_line outcomes line pipe).0 (send_line outcomes line pipe).1
unfolding send_line
send_line-Flows outcomes line pipe h = elim (Bool-cases (ltb max_message_size (length line))) [
  | inl q ↦ rw q (inr (refl, ltb→lt _ _ q, refl))
  | inr q ↦ rw (q, write_loop-Flows outcomes line pipe h) (inl (refl, ground arith, refl))
]

next-Flows :
    (calls : List (List SendOutcome))
    → All Flows calls
    → Flows (next_outcomes calls).0 × All Flows (next_outcomes calls).1
unfolding next_outcomes
next-Flows [] h = (tt, tt)
next-Flows (outcomes ∷ calls) h = h

send_encoded-Steady :
    (line : Bytes) (outlet : Outlet)
    → Steady outlet
    → SendsLine line outlet.pipe
        (send_encoded (ok line) outlet).0.pipe
        (send_encoded (ok line) outlet).1
      × Steady (send_encoded (ok line) outlet).0
unfolding send_encoded
send_encoded-Steady line outlet h =
    let (flows, steady) = next-Flows outlet.calls h in
    (send_line-Flows (next_outcomes outlet.calls).0 line outlet.pipe flows, steady)

-- A message of which the encoding is a line is sent as that line, if it is not too long.
pub send-Steady :
    (m : ProtocolMessage) (line : Bytes) (outlet : Outlet)
    → encode_message m ≡ ok line
    → Steady outlet
    → SendsLine line outlet.pipe (send m outlet).0.pipe (send m outlet).1 × Steady (send m outlet).0
unfolding send
send-Steady m line outlet e h = rw e (send_encoded-Steady line outlet h)
