-- ===== src/Transport/Stream.antt =====
-- The bytes on both sides of `receive_line` and `send_line` of src/fifo.cpp.
use omni_sched.Base.{
  suc, subst, take, drop, take-append-drop, Bytes, Bool, true, false, Bool-cases, Option, none,
  some, List, [], ◌∷◌, ◌++◌, ◌≡◌, refl, sym, ap, ◌∙◌, ltb, ◌==◌, ==_iff, length, Error, Result, ok,
  err, append_assoc, append-nil, ◌⊎◌, inl, inr, arith,
}
use omni_sched.Codec.Split.{Lacks}
use omni_sched.Transport.Line.{
  SendOutcome, write_loop, send_line, max_message_size, extract_line, PollOutcome, ReadOutcome,
  received, end_of_file, interrupted, would_block, read_failed, Received, or_line, read_loop,
  after_poll, receive_line,
}

-- The bytes of the reads to come.
abbrev pub data_of : List ReadOutcome → Bytes
data_of [] = []
data_of (received chunk ∷ reads) = chunk ++ data_of reads
data_of (_ ∷ reads) = data_of reads

-- A line: its only line feed is its last byte.
abbrev pub IsLine : Bytes → Type 0
IsLine line = (s : Bytes) × (line ≡ s ++ b'\n' ∷ []) × Lacks b'\n' s

-- What the buffer and the reads to come held is the returned line, the buffer and the reads to come.
abbrev pub Conserves : Bytes → Received → Type 0
Conserves all (reads, buffer, err error) = buffer ++ data_of reads ≡ all
Conserves all (reads, buffer, ok none) = buffer ++ data_of reads ≡ all
Conserves all (reads, buffer, ok (some line)) =
    (line ++ (buffer ++ data_of reads) ≡ all) × IsLine line

Extracts : Bytes → Option (Bytes × Bytes) → Type 0
Extracts buffer none = Unit {0}
Extracts buffer (some (line, rest)) = (line ++ rest ≡ buffer) × IsLine line

extract_line-Extracts : (buffer : Bytes) → Extracts buffer (extract_line buffer)
unfolding extract_line Extracts
extract_line-Extracts [] = tt
extract_line-Extracts (c ∷ buffer) = go (extract_line-Extracts buffer) (c == b'\n') refl
  where
    longer :
        (o : Option (Bytes × Bytes))
        → Extracts buffer o
        → (c == b'\n') ≡ false
        → Extracts (c ∷ buffer) (elim o as (λ _. Option (Bytes × Bytes)) [
          | none ↦ none
          | some (line, rest) ↦ some (c ∷ line, rest)
        ])
    longer none h e = tt
    longer (some (line, rest)) (h, (s, l, n)) e =
        (ap (λ x. c ∷ x) h, (c ∷ s, ap (λ x. c ∷ x) l, (λ q. ground arith, n)))

    go :
        Extracts buffer (extract_line buffer)
        → (b : Bool) → (c == b'\n') ≡ b
        → Extracts (c ∷ buffer) (elim b as (λ _. Option (Bytes × Bytes)) [
          | true ↦ some (c ∷ [], buffer)
          | false ↦ elim (extract_line buffer) as (λ _. Option (Bytes × Bytes)) [
            | none ↦ none
            | some (line, rest) ↦ some (c ∷ line, rest)
          ]
        ])
    go h true e = (refl, ([], ap (λ x. x ∷ []) ((==_iff c b'\n').0 e), tt))
    go h false e = longer (extract_line buffer) h e

or_line-Conserves :
    (all buffer : Bytes) (o : Option (Bytes × Bytes)) (reads : List ReadOutcome) (rest : Received)
    → Extracts buffer o
    → buffer ++ data_of reads ≡ all
    → Conserves all rest
    → Conserves all (or_line o rest reads)
unfolding or_line Extracts
or_line-Conserves all buffer none reads rest h e p = p
or_line-Conserves all buffer (some (line, left)) reads rest (h, l) e p =
    (sym (append_assoc line left (data_of reads)) ∙ ap (λ x. x ++ data_of reads) h ∙ e, l)

read_loop-Conserves :
    (all : Bytes) (reads : List ReadOutcome) (buffer : Bytes)
    → buffer ++ data_of reads ≡ all
    → Conserves all (read_loop reads buffer)
unfolding read_loop
read_loop-Conserves all [] buffer e = e
read_loop-Conserves all (received chunk ∷ reads) buffer e =
    elim (Bool-cases (ltb max_message_size (length (buffer ++ chunk)))) [
      | inl q ↦ rw q joined
      | inr q ↦ rw q (
          or_line-Conserves all (buffer ++ chunk) _ reads _
            (extract_line-Extracts (buffer ++ chunk)) joined
            (read_loop-Conserves all reads (buffer ++ chunk) joined))
    ]
  where
    joined : (buffer ++ chunk) ++ data_of reads ≡ all
    joined = append_assoc buffer chunk (data_of reads) ∙ e
read_loop-Conserves all (end_of_file ∷ reads) buffer e = e
read_loop-Conserves all (interrupted ∷ reads) buffer e = read_loop-Conserves all reads buffer e
read_loop-Conserves all (would_block ∷ reads) buffer e = e
read_loop-Conserves all (read_failed error ∷ reads) buffer e = e

after_poll-Conserves :
    (poll : PollOutcome) (reads : List ReadOutcome) (buffer : Bytes)
    → Conserves (buffer ++ data_of reads) (after_poll poll reads buffer)
unfolding after_poll
after_poll-Conserves PollOutcome.ready reads buffer = read_loop-Conserves _ reads buffer refl
after_poll-Conserves PollOutcome.timed_out reads buffer = refl
after_poll-Conserves PollOutcome.unavailable reads buffer = refl
after_poll-Conserves (PollOutcome.poll_failed error) reads buffer = refl

-- Whatever `poll` and `read` do, a call of `receive_line` loses no byte and changes no order: the line
-- that it returns, if it returns one, the buffer that it leaves and the bytes still to come are, one
-- after the other, the buffer and the bytes to come of before; and a returned line ends with its only
-- line feed.
pub receive_line-Conserves :
    (poll : PollOutcome) (reads : List ReadOutcome) (buffer : Bytes)
    → Conserves (buffer ++ data_of reads) (receive_line poll reads buffer)
unfolding receive_line
receive_line-Conserves poll reads buffer =
    or_line-Conserves (buffer ++ data_of reads) buffer _ reads _ (extract_line-Extracts buffer) refl
      (after_poll-Conserves poll reads buffer)

-- A message that was sent whole, or of which a part from its start on was sent before a failure.
abbrev pub Sends : Bytes → Bytes → Bytes × Result (Unit {0}) → Type 0
Sends message pipe out =
    ((out.1 ≡ ok tt) × (out.0 ≡ pipe ++ message))
    ⊎ ((error : Error) × (p : Bytes) × (q : Bytes) × (out.1 ≡ err error)
        × (message ≡ p ++ q)
        × (out.0 ≡ pipe ++ p))

Sends-after :
    (p q pipe : Bytes) (out : Bytes × Result (Unit {0}))
    → Sends q (pipe ++ p) out
    → Sends (p ++ q) pipe out
Sends-after p q pipe out (inl (o, f)) = inl (o, f ∙ append_assoc pipe p q)
Sends-after p q pipe out (inr (error, p', q', o, m, f)) = inr (
  error,
  p ++ p',
  q',
  o,
  ap (λ x. p ++ x) m ∙ sym (append_assoc p p' q'),
  f ∙ append_assoc pipe p p',
)

stopped-Sends : (error : Error) (message pipe : Bytes) → Sends message pipe (pipe, err error)
stopped-Sends error message pipe = inr (error, [], message, refl, refl, sym (append-nil pipe))

write_loop-Sends :
    (outcomes : List SendOutcome) (message pipe : Bytes)
    → Sends message pipe (write_loop outcomes message pipe)
unfolding write_loop
write_loop-Sends outcomes [] pipe = inl (refl, sym (append-nil pipe))
write_loop-Sends [] (c ∷ message) pipe = inl (refl, refl)
write_loop-Sends (SendOutcome.sent n ∷ outcomes) (c ∷ message) pipe =
    subst
      (λ x.
        Sends x pipe
          (write_loop outcomes (drop (suc n) (c ∷ message)) (pipe ++ take (suc n) (c ∷ message))))
      (take-append-drop (suc n) (c ∷ message))
      (Sends-after (take (suc n) (c ∷ message)) (drop (suc n) (c ∷ message)) pipe _ (
        write_loop-Sends outcomes (drop (suc n) (c ∷ message))
          (pipe ++ take (suc n) (c ∷ message))))
write_loop-Sends (SendOutcome.signalled ∷ outcomes) (c ∷ message) pipe =
    write_loop-Sends outcomes (c ∷ message) pipe
write_loop-Sends (SendOutcome.full_then_ready ∷ outcomes) (c ∷ message) pipe =
    write_loop-Sends outcomes (c ∷ message) pipe
write_loop-Sends (SendOutcome.full_then_timed_out ∷ outcomes) (c ∷ message) pipe =
    stopped-Sends _ (c ∷ message) pipe
write_loop-Sends (SendOutcome.send_failed error ∷ outcomes) (c ∷ message) pipe =
    stopped-Sends error (c ∷ message) pipe

-- Whatever `write` and `poll` do, `send_line` either sends the whole message, or throws and has sent a
-- part of it from its start on.
pub send_line-Sends :
    (outcomes : List SendOutcome) (message pipe : Bytes)
    → Sends message pipe (send_line outcomes message pipe)
unfolding send_line
send_line-Sends outcomes message pipe = elim (Bool-cases (ltb max_message_size (length message))) [
  | inl q ↦ rw q (stopped-Sends _ message pipe)
  | inr q ↦ rw q (write_loop-Sends outcomes message pipe)
]
