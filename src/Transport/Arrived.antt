-- ===== src/Transport/Arrived.antt =====
-- When `receive_line` of src/fifo.cpp comes back without a line.
use omni_sched.Base.{
  ℕ, ◌<◌, Bytes, Bool, true, false, Bool-cases, Option, none, some, List, [], ◌∷◌, ◌++◌, ◌≡◌, refl,
  ◌∙◌, subst, ltb, ltb→lt, ◌==◌, ==_iff, length, length-append, ok, err, append_assoc, append-nil,
  ◌⊎◌, inl, inr, arith,
}
use omni_sched.Transport.Line.{
  max_message_size, extract_line, PollOutcome, ReadOutcome, received, end_of_file, interrupted,
  would_block, read_failed, Received, or_line, read_loop, after_poll, receive_line,
}
use omni_sched.Transport.Stream.{data_of}

-- The bytes that the calls of `read` give until one gives none.
abbrev pub until_stop : List ReadOutcome → Bytes
until_stop [] = []
until_stop (received chunk ∷ reads) = chunk ++ until_stop reads
until_stop (interrupted ∷ reads) = until_stop reads
until_stop (_ ∷ reads) = []

-- The bytes that can arrive in a call.
abbrev pub arrived : PollOutcome → List ReadOutcome → Bytes
arrived PollOutcome.ready reads = until_stop reads
arrived _ reads = []

-- Without a line, the bytes at hand are fewer than the line has; or an exception says that they are
-- more than a message may have.
abbrev pub Lacking : ℕ → Bytes → Received → Type 0
Lacking n bytes (reads, buffer, err error) = (length bytes < n) ⊎ (max_message_size < length bytes)
Lacking n bytes (reads, buffer, ok none) = length bytes < n
Lacking n bytes (reads, buffer, ok (some line)) = Unit

extract_line_tail :
    (c : ℕ) (b : Bytes)
    → extract_line (c ∷ b) ≡ none
    → ((c == b'\n') ≡ false) × (extract_line b ≡ none)
unfolding extract_line
extract_line_tail c b h = go (c == b'\n') (extract_line b) refl refl h
  where
    go :
        (t : Bool) (o : Option (Bytes × Bytes))
        → (c == b'\n') ≡ t
        → extract_line b ≡ o
        → (elim t as (λ _. Option (Bytes × Bytes)) [
          | true ↦ some (c ∷ [], b)
          | false ↦ elim o as (λ _. Option (Bytes × Bytes)) [
            | none ↦ none
            | some (line, rest) ↦ some (c ∷ line, rest)
          ]
        ])
          ≡ none
        → ((c == b'\n') ≡ false) × (extract_line b ≡ none)
    go true o p q h = absurd (cc)
    go false none p q h = (p, q)
    go false (some (line, rest)) p q h = absurd (cc)

-- A buffer without a line is shorter than the line that it begins.
short_of_line :
    (s b x rest : Bytes)
    → extract_line b ≡ none
    → b ++ x ≡ (s ++ b'\n' ∷ []) ++ rest
    → length b < length (s ++ b'\n' ∷ [])
short_of_line [] [] x rest h e = omega arith
short_of_line (d ∷ s) [] x rest h e = omega arith
short_of_line [] (c ∷ b) x rest h e =
    let (p, q) = extract_line_tail c b h in
    let r : c ≡ b'\n' = cc in absurd (cc (p, (==_iff c b'\n').1 r))
short_of_line (d ∷ s) (c ∷ b) x rest h e =
    let (p, q) = extract_line_tail c b h in let ih = short_of_line s b x rest q (cc) in omega arith

-- The line and what stands behind it.
module _ (s rest : Bytes) where
  abbrev whole : Bytes
  whole = (s ++ b'\n' ∷ []) ++ rest

  abbrev size : ℕ
  size = length (s ++ b'\n' ∷ [])

  stopped_short :
      (reads : List ReadOutcome) (buffer : Bytes)
      → extract_line buffer ≡ none
      → buffer ++ data_of reads ≡ whole
      → length (buffer ++ []) < size
  stopped_short reads buffer h e = rw append-nil (short_of_line s buffer (data_of reads) rest h e)

  read_loop-Lacking :
      (reads : List ReadOutcome) (buffer : Bytes)
      → extract_line buffer ≡ none
      → buffer ++ data_of reads ≡ whole
      → Lacking size (buffer ++ until_stop reads) (read_loop reads buffer)
  unfolding read_loop or_line
  read_loop-Lacking [] buffer h e = stopped_short [] buffer h e
  read_loop-Lacking (received chunk ∷ reads) buffer h e =
      elim (Bool-cases (ltb max_message_size (length (buffer ++ chunk)))) [
        | inl q ↦ rw q (inr (longer (ltb→lt _ _ q)))
        | inr q ↦ rw q (
            go (extract_line (buffer ++ chunk)) refl
              (λ p. read_loop-Lacking reads (buffer ++ chunk) p joined))
      ]
    where
      joined : (buffer ++ chunk) ++ data_of reads ≡ whole
      joined = append_assoc buffer chunk (data_of reads) ∙ e

      longer :
          max_message_size < length (buffer ++ chunk)
          → max_message_size < length (buffer ++ (chunk ++ until_stop reads))
      longer l = omega (
        arith,
        length-append buffer chunk,
        length-append buffer (chunk ++ until_stop reads),
        length-append chunk (until_stop reads),
      )

      go :
          (o : Option (Bytes × Bytes))
          → extract_line (buffer ++ chunk) ≡ o
          → (extract_line (buffer ++ chunk) ≡ none
              → Lacking size
                  ((buffer ++ chunk) ++ until_stop reads)
                  (read_loop reads (buffer ++ chunk)))
          → Lacking size
              (buffer ++ (chunk ++ until_stop reads))
              (or_line o (read_loop reads (buffer ++ chunk)) reads)
      go none p ih =
          subst (λ x. Lacking size x (read_loop reads (buffer ++ chunk)))
            (append_assoc buffer chunk (until_stop reads)) (ih p)
      go (some (line, left)) p ih = tt
  read_loop-Lacking (end_of_file ∷ reads) buffer h e = stopped_short reads buffer h e
  read_loop-Lacking (interrupted ∷ reads) buffer h e = read_loop-Lacking reads buffer h e
  read_loop-Lacking (would_block ∷ reads) buffer h e = stopped_short reads buffer h e
  read_loop-Lacking (read_failed error ∷ reads) buffer h e = inl (stopped_short reads buffer h e)

  after_poll-Lacking :
      (poll : PollOutcome) (reads : List ReadOutcome) (buffer : Bytes)
      → extract_line buffer ≡ none
      → buffer ++ data_of reads ≡ whole
      → Lacking size (buffer ++ arrived poll reads) (after_poll poll reads buffer)
  unfolding after_poll
  after_poll-Lacking PollOutcome.ready reads buffer h e = read_loop-Lacking reads buffer h e
  after_poll-Lacking PollOutcome.timed_out reads buffer h e = stopped_short reads buffer h e
  after_poll-Lacking PollOutcome.unavailable reads buffer h e = inl (stopped_short reads buffer h e)
  after_poll-Lacking (PollOutcome.poll_failed error) reads buffer h e =
      inl (stopped_short reads buffer h e)

  pub receive_line-Lacking :
      (poll : PollOutcome) (reads : List ReadOutcome) (buffer : Bytes)
      → buffer ++ data_of reads ≡ whole
      → Lacking size (buffer ++ arrived poll reads) (receive_line poll reads buffer)
  unfolding receive_line or_line
  receive_line-Lacking poll reads buffer e = go (extract_line buffer) refl
    where
      go :
          (o : Option (Bytes × Bytes))
          → extract_line buffer ≡ o
          → Lacking size
              (buffer ++ arrived poll reads)
              (or_line o (after_poll poll reads buffer) reads)
      go none p = after_poll-Lacking poll reads buffer p e
      go (some (line, left)) p = tt
