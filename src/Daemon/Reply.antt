-- ===== src/Daemon/Reply.antt =====
-- The answers of apps/kronos_engine.cpp: one line for a request.
use omni_sched.Base.{
  ℕ, ◌<◌, Bytes, text, text_eq, Bool-cases, List, [], ◌∷◌, ◌++◌, length, not, if◌then◌else◌,
  runtime_error, ◌≡◌, refl, ap, ◌∙◌, sym, subst, ◌⊎◌, inl, inr, what, Result, ok, err,
}
use omni_sched.Protocol.Message.{ProtocolMessage}
use omni_sched.Wal.Append.{wal_journal}
use omni_sched.Transport.Line.{max_message_size}
use omni_sched.Transport.Steady.{Steady, SendsLine, too_long, send-Steady}
use omni_sched.Daemon.State.{Daemon, Meanwhile, response, respond}
use omni_sched.Daemon.Request.{
  Answer, execute, after_response, caught, answer, handle_fields, handle_request,
}
use omni_sched.Daemon.Answers.{
  IsAnswerKind, response_line, encode-response, AnswersLater, execute-AnswersLater,
}

-- What a request is to be answered: the kind and the message of its command, or an exception.
abbrev pub reply : Meanwhile → ProtocolMessage → Daemon → Result (Bytes × Bytes)
reply meanwhile request d =
    if not (text_eq request.kind (text "REQUEST"))
    then err (runtime_error (text "invalid request"))
    else (elim (request.fields) as (λ _. Result (Bytes × Bytes)) [
      | [] ↦ err (runtime_error (text "invalid request"))
      | command ∷ fields ↦ (execute meanwhile command (command ∷ fields) d).1
    ])

-- The kind and the message that report it: those of the command, unless their line is too long, of
-- which ERROR and the exception of `send_line` tell; ERROR and the text of any other exception.
abbrev pub Reports : ℕ → Result (Bytes × Bytes) → Bytes → Bytes → Type 0
Reports request_id (err error) kind message = (kind ≡ text "ERROR") × (message ≡ what error)
Reports request_id (ok (k, m)) kind message =
    ((kind ≡ k) × (message ≡ m))
    ⊎ ((kind ≡ text "ERROR")
        × (message ≡ what too_long)
        × (max_message_size < length (response_line request_id k m)))

-- One line is appended to the pipe, which reports the outcome of the request; or nothing is, and the
-- ERROR line that reports it is itself longer than a message may be.
abbrev pub Answered : ℕ → Result (Bytes × Bytes) → Bytes → Daemon × Result (Unit {0}) → Type 0
Answered request_id outcome pipe (d', result) =
    ((kind : Bytes) × (message : Bytes) × Reports request_id outcome kind message
      × IsAnswerKind kind
      × (result ≡ ok tt)
      × (d'.server.pipe ≡ pipe ++ response_line request_id kind message))
    ⊎ ((message : Bytes) × Reports request_id outcome (text "ERROR") message
        × (result ≡ err too_long)
        × (max_message_size < length (response_line request_id (text "ERROR") message))
        × (d'.server.pipe ≡ pipe))

-- An attempt at an answer.
respond-SendsLine :
    (request_id : ℕ) (kind message : Bytes) (d : Daemon)
    → IsAnswerKind kind
    → Steady d.server
    → SendsLine
        (response_line request_id kind message)
        d.server.pipe
        (respond request_id kind message d).0.server.pipe
        (respond request_id kind message d).1
      × Steady (respond request_id kind message d).0.server
unfolding respond
respond-SendsLine request_id kind message d k h =
    send-Steady (response request_id kind message) (response_line request_id kind message) d.server
      (encode-response request_id kind message k) h

error-Answered :
    (request_id : ℕ) (outcome : Result (Bytes × Bytes)) (message : Bytes) (d : Daemon)
    → Reports request_id outcome (text "ERROR") message
    → Steady d.server
    → Answered request_id outcome d.server.pipe (respond request_id (text "ERROR") message d)
error-Answered request_id outcome message d w h =
    go (respond-SendsLine request_id (text "ERROR") message d (inr refl) h).0
  where
    go :
        SendsLine
          (response_line request_id (text "ERROR") message)
          d.server.pipe
          (respond request_id (text "ERROR") message d).0.server.pipe
          (respond request_id (text "ERROR") message d).1
        → Answered request_id outcome d.server.pipe (respond request_id (text "ERROR") message d)
    go (inl (r, l, p)) = inl (text "ERROR", message, w, inr refl, r, p)
    go (inr (r, l, p)) = inr (message, w, r, l, p)

after_response-server :
    (command : Bytes) (d : Daemon) → (after_response command d).server ≡ d.server
unfolding after_response
after_response-server command d = elim (Bool-cases (text_eq command (text "shutdown"))) [
  | inl q ↦ rw q
  | inr q ↦ rw q
]

caught-Answered :
    (request_id : ℕ) (command kind message : Bytes) (pipe : Bytes)
    (out : Daemon × Result (Unit {0}))
    → IsAnswerKind kind
    → SendsLine (response_line request_id kind message) pipe out.0.server.pipe out.1
    → Steady out.0.server
    → Answered request_id (ok (kind, message)) pipe (caught request_id command out)
unfolding caught
caught-Answered request_id command kind message pipe (d, ok done) k (inl (r, l, p)) h = inl (
  kind,
  message,
  inl (refl, refl),
  k,
  refl,
  ap (λ s. s.pipe) (after_response-server command d) ∙ p,
)
caught-Answered request_id command kind message pipe (d, ok done) k (inr (r, l, p)) h = absurd (cc)
caught-Answered request_id command kind message pipe (d, err error) k (inl (r, l, p)) h =
    absurd (cc)
caught-Answered request_id command kind message pipe (d, err error) k (inr (r, l, p)) h =
    let q : error ≡ too_long = cc in
    subst
      (λ x.
        Answered request_id (ok (kind, message)) x
          (respond request_id (text "ERROR") (what error) d))
      p (error-Answered request_id (ok (kind, message)) (what error) d (inr (refl, ap what q, l)) h)

answer-Answered :
    (request_id : ℕ) (command : Bytes) (d : Daemon) (a : Answer)
    → Steady d.server
    → AnswersLater d a
    → Answered request_id a.1 d.server.pipe (answer request_id command a)
unfolding answer
answer-Answered request_id command d (d', err error) h q =
    subst
      (λ s.
        Answered request_id (err error) s.pipe (respond request_id (text "ERROR") (what error) d'))
      q
      (error-Answered request_id (err error) (what error) d' (refl, refl)
        (subst (λ s. Steady s) (sym q) h))
answer-Answered request_id command d (d', ok (kind, message)) h (q, k) =
    let (line, steady) =
      respond-SendsLine request_id kind message d' k (subst (λ s. Steady s) (sym q) h) in
    caught-Answered request_id command kind message d.server.pipe
      (respond request_id kind message d') k
      (subst
        (λ s.
          SendsLine (response_line request_id kind message) s.pipe
            (respond request_id kind message d').0.server.pipe
            (respond request_id kind message d').1)
        q line)
      steady

-- Every request is answered while no `write` fails: exactly one line is appended to the pipe of the
-- responses, with the ID of the request and with the kind and the message of what the command returned,
-- or with ERROR and the text of the exception: that of the command, that of a request without a command,
-- or that of `send_line` if the answer is longer than a message may be. Nothing is sent only if the
-- ERROR line is itself longer than that, and then the handler throws.
pub handle_request-Answered :
    (meanwhile : Meanwhile) (request : ProtocolMessage) (d : Daemon)
    → Steady d.server
    → Answered request.request_id
        (reply meanwhile request d)
        d.server.pipe
        (handle_request meanwhile request d)
unfolding handle_request handle_fields what text
handle_request-Answered meanwhile request d h =
    elim (Bool-cases (not (text_eq request.kind (text "REQUEST")))) [
      | inl q ↦ rw q (
          error-Answered request.request_id (err (runtime_error (text "invalid request")))
            (text "invalid request") d (refl, refl) h)
      | inr q ↦ rw q (go request.fields)
    ]
  where
    go :
        (fields : List Bytes)
        → Answered request.request_id
            (elim fields as (λ _. Result (Bytes × Bytes)) [
              | [] ↦ err (runtime_error (text "invalid request"))
              | command ∷ rest ↦ (execute meanwhile command (command ∷ rest) d).1
            ])
            d.server.pipe
            (handle_fields meanwhile request.request_id fields d)
    go [] =
        error-Answered request.request_id (err (runtime_error (text "invalid request")))
          (text "invalid request") d (refl, refl) h
    go (command ∷ fields) =
        answer-Answered request.request_id command d _ h
          (execute-AnswersLater meanwhile command (command ∷ fields) d)
