-- ===== src/Shell/Matches.antt =====
-- The responses that `execute` of apps/kronos_shell.cpp returns.
use omni_sched.Base.{
  ℕ, Bytes, text, text_eq, Bool, true, false, Bool-cases, Option, none, some, List, [], ◌∷◌, ◌==◌,
  ==_iff, if◌then◌else◌, ◌≡◌, refl, sym, subst, ◌∙◌, inl, inr, Result, ok, err, All,
}
use omni_sched.Protocol.Message.{ProtocolMessage}
use omni_sched.Shell.Session.{
  Responses, ShellSession, find, assign, erase, print, Arrival, receives, times_out, fails, heard,
  round, listen, listen_all, take_response, await, send_request, execute,
}

-- The listener keeps answers under their request ID, and no events.
abbrev IsStored : ℕ × ProtocolMessage → Type 0
IsStored (key, m) = (m.request_id ≡ key) × (text_eq m.kind (text "EVENT") ≡ false)

abbrev pub IsKeyed : ShellSession → Type 0
IsKeyed s = All IsStored s.responses

assign-IsStored :
    (id : ℕ) (m : ProtocolMessage) (rs : Responses)
    → IsStored (id, m)
    → All IsStored rs
    → All IsStored (assign id m rs)
unfolding assign
assign-IsStored id m [] k h = (k, tt)
assign-IsStored id m ((key, old) ∷ rs) k (o, h) = elim (Bool-cases (key == id)) [
  | inl q ↦ rw q ((k.0 ∙ sym ((==_iff key id).0 q), k.1), h)
  | inr q ↦ rw q (o, assign-IsStored id m rs k h)
]

erase-IsStored : (id : ℕ) (rs : Responses) → All IsStored rs → All IsStored (erase id rs)
unfolding erase
erase-IsStored id [] h = tt
erase-IsStored id ((key, m) ∷ rs) (k, h) = elim (Bool-cases (key == id)) [
  | inl q ↦ rw q h
  | inr q ↦ rw q (k, erase-IsStored id rs h)
]

find-IsStored :
    (id : ℕ) (rs : Responses) (m : ProtocolMessage)
    → All IsStored rs
    → find id rs ≡ some m
    → IsStored (id, m)
unfolding find
find-IsStored id [] m h f = absurd (cc)
find-IsStored id ((key, old) ∷ rs) m (k, h) f = go (key == id) refl f (find-IsStored id rs m h)
  where
    go :
        (b : Bool)
        → (key == id) ≡ b
        → (if b then some old else find id rs) ≡ some m
        → (find id rs ≡ some m → IsStored (id, m))
        → IsStored (id, m)
    go true q p ih =
        let e : old ≡ m = cc in subst (λ x. IsStored (id, x)) e (k.0 ∙ (==_iff key id).0 q, k.1)
    go false q p ih = ih p

heard-IsKeyed : (m : ProtocolMessage) (s : ShellSession) → IsKeyed s → IsKeyed (heard m s)
unfolding heard print
heard-IsKeyed m s h = elim (Bool-cases (text_eq m.kind (text "EVENT"))) [
  | inl q ↦ rw q h
  | inr q ↦ rw q (assign-IsStored m.request_id m s.responses (refl, q) h)
]

listen-IsKeyed : (a : Arrival) (s : ShellSession) → IsKeyed s → IsKeyed (listen a s)
unfolding listen
listen-IsKeyed a s h = go s.listener_error a
  where
    go :
        (o : Option Bytes) (a : Arrival)
        → IsKeyed (elim o as (λ _. ShellSession) [ some error ↦ s | none ↦ round a s ])
    go (some error) a = h
    go none (receives m) = unfold round in heard-IsKeyed m s h
    go none times_out = unfold round in h
    go none (fails error) = unfold round in h

listen_all-IsKeyed :
    (arrivals : List Arrival) (s : ShellSession) → IsKeyed s → IsKeyed (listen_all arrivals s)
unfolding listen_all
listen_all-IsKeyed [] s h = h
listen_all-IsKeyed (a ∷ arrivals) s h =
    listen_all-IsKeyed arrivals (listen a s) (listen-IsKeyed a s h)

-- What a call of `execute` with this ID leaves, and what it returns if it does not throw.
abbrev pub AnswersTo : ℕ → ShellSession × Result ProtocolMessage → Type 0
AnswersTo id (s, err error) = IsKeyed s
AnswersTo id (s, ok m) = IsKeyed s × (m.request_id ≡ id) × (text_eq m.kind (text "EVENT") ≡ false)

take_response-AnswersTo :
    (id : ℕ) (s : ShellSession) (error : Option Bytes) (response : Option ProtocolMessage)
    → find id s.responses ≡ response
    → IsKeyed s
    → AnswersTo id (take_response id s error response)
unfolding take_response
take_response-AnswersTo id s (some error) response f h = h
take_response-AnswersTo id s none none f h = h
take_response-AnswersTo id s none (some m) f h =
    let (i, k) = find-IsStored id s.responses m h f in (erase-IsStored id s.responses h, i, k)

await-AnswersTo :
    (arrivals : List Arrival) (id : ℕ) (out : ShellSession × Result (Unit {0}))
    → IsKeyed out.0
    → AnswersTo id (await arrivals id out)
unfolding await
await-AnswersTo arrivals id (s, err error) h = h
await-AnswersTo arrivals id (s, ok done) h =
    take_response-AnswersTo id (listen_all arrivals s) _ _ refl (listen_all-IsKeyed arrivals s h)

-- Whatever arrives while a command is executed: a message that `execute` returns carries the ID of
-- this request and is not an event, and the answers that are kept for other requests stay under their
-- IDs.
pub execute-AnswersTo :
    (arrivals : List Arrival) (tokens : List Bytes) (s : ShellSession)
    → IsKeyed s
    → AnswersTo s.next_request_id (execute arrivals tokens s)
unfolding execute send_request
execute-AnswersTo arrivals [] s h = h
execute-AnswersTo arrivals (token ∷ tokens) s h =
    await-AnswersTo arrivals s.next_request_id (send_request s.next_request_id (token ∷ tokens) s) h
