-- ===== src/Shell/Returns.antt =====
-- A response that arrives in time at `execute` of apps/kronos_shell.cpp.
use omni_sched.Base.{
  ℕ, Bytes, text, text_eq, Bool, true, false, Bool-cases, Option, none, some, List, [], ◌∷◌, ◌++◌,
  ◌==◌, ==_iff, if◌then◌else◌, ◌≡◌, ◌≢◌, refl, subst, ◌∙◌, ◌⊎◌, inl, inr, Result, ok, err, All,
  arith,
}
use omni_sched.Protocol.Message.{ProtocolMessage}
use omni_sched.Shell.Session.{
  Responses, ShellSession, find, assign, print, Arrival, receives, times_out, fails, heard, round,
  listen, listen_all, take_response, await, send_request, execute,
}

-- What arrives is no failure of the listener, and no answer to the request with this ID.
abbrev pub IsOther : ℕ → Arrival → Type 0
IsOther id (receives m) = (text_eq m.kind (text "EVENT") ≡ true) ⊎ (m.request_id ≢ id)
IsOther id times_out = Unit {0}
IsOther id (fails error) = ⊥

find-assign :
    (id key : ℕ) (m : ProtocolMessage) (rs : Responses)
    → find id (assign key m rs) ≡ (if key == id then some m else find id rs)
unfolding find assign
find-assign id key m [] = refl
find-assign id key m ((k, old) ∷ rs) = ground (arith, find-assign id key m rs)

heard-answer :
    (m : ProtocolMessage) (s : ShellSession)
    → text_eq m.kind (text "EVENT") ≡ false
    → (find m.request_id (heard m s).responses ≡ some m)
      × ((heard m s).listener_error ≡ s.listener_error)
unfolding heard
heard-answer m s q = rw q (
  find-assign m.request_id m.request_id m s.responses
      ∙ rw ((==_iff m.request_id m.request_id).1 refl),
  refl,
)

-- The answer that is stored, if any, stays, and the listener goes on.
abbrev StaysAt : ℕ → ShellSession → ShellSession → Type 0
StaysAt id s s' =
    (find id s'.responses ≡ find id s.responses) × (s'.listener_error ≡ s.listener_error)

heard-StaysAt :
    (id : ℕ) (m : ProtocolMessage) (s : ShellSession)
    → IsOther id (receives m)
    → StaysAt id s (heard m s)
unfolding heard print
heard-StaysAt id m s (inl q) = rw q (refl, refl)
heard-StaysAt id m s (inr n) = elim (Bool-cases (text_eq m.kind (text "EVENT"))) [
  | inl q ↦ rw q (refl, refl)
  | inr q ↦ rw q (find-assign id m.request_id m s.responses ∙ other (m.request_id == id) refl, refl)
]
  where
    other :
        (b : Bool)
        → (m.request_id == id) ≡ b
        → (if b then some m else find id s.responses) ≡ find id s.responses
    other true p = absurd (n ((==_iff m.request_id id).0 p))
    other false p = refl

listen-none : (a : Arrival) (s : ShellSession) → s.listener_error ≡ none → listen a s ≡ round a s
unfolding listen
listen-none a s h = go s.listener_error h
  where
    go :
        (o : Option Bytes)
        → o ≡ none
        → (elim o as (λ _. ShellSession) [ some error ↦ s | none ↦ round a s ]) ≡ round a s
    go none p = refl
    go (some error) p = absurd (cc)

listen-StaysAt :
    (id : ℕ) (a : Arrival) (s : ShellSession)
    → s.listener_error ≡ none
    → IsOther id a
    → StaysAt id s (listen a s)
listen-StaysAt id (receives m) s h o =
    rw (listen-none (receives m) s h) (unfold round in heard-StaysAt id m s o)
listen-StaysAt id times_out s h o = rw (listen-none times_out s h) (unfold round in (refl, refl))
listen-StaysAt id (fails error) s h o = absurd o

listen_all-StaysAt :
    (id : ℕ) (arrivals : List Arrival) (s : ShellSession)
    → s.listener_error ≡ none
    → All (IsOther id) arrivals
    → StaysAt id s (listen_all arrivals s)
unfolding listen_all
listen_all-StaysAt id [] s h o = (refl, refl)
listen_all-StaysAt id (a ∷ arrivals) s h (o, os) =
    let (p, q) = listen-StaysAt id a s h o in
    let (p', q') = listen_all-StaysAt id arrivals (listen a s) (q ∙ h) os in (p' ∙ p, q' ∙ q)

listen_all-append :
    (xs ys : List Arrival) (s : ShellSession)
    → listen_all (xs ++ ys) s ≡ listen_all ys (listen_all xs s)
unfolding listen_all
listen_all-append [] ys s = refl
listen_all-append (x ∷ xs) ys s = listen_all-append xs ys (listen x s)

-- The answer is stored once all has been heard.
abbrev Holds : ProtocolMessage → ShellSession → Type 0
Holds m s = (find m.request_id s.responses ≡ some m) × (s.listener_error ≡ none)

listen-Holds :
    (m : ProtocolMessage) (s : ShellSession)
    → s.listener_error ≡ none
    → text_eq m.kind (text "EVENT") ≡ false
    → Holds m (listen (receives m) s)
listen-Holds m s h k =
    rw (listen-none (receives m) s h)
      (unfold round in (let (p, q) = heard-answer m s k in (p, q ∙ h)))

listen_all-Holds :
    (m : ProtocolMessage) (before behind : List Arrival) (s : ShellSession)
    → s.listener_error ≡ none
    → text_eq m.kind (text "EVENT") ≡ false
    → All (IsOther m.request_id) before
    → All (IsOther m.request_id) behind
    → Holds m (listen_all (before ++ receives m ∷ behind) s)
unfolding listen_all
listen_all-Holds m before behind s h k b c =
    let s1 = listen_all before s in
    let (_, q1) = listen_all-StaysAt m.request_id before s h b in
    let (p2, q2) = listen-Holds m s1 (q1 ∙ h) k in
    let (p3, q3) = listen_all-StaysAt m.request_id behind (listen (receives m) s1) q2 c in
    rw (listen_all-append before (receives m ∷ behind) s) (p3 ∙ p2, q3 ∙ q2)

take_response-some :
    (m : ProtocolMessage) (s : ShellSession) (error : Option Bytes)
    (response : Option ProtocolMessage)
    → error ≡ none
    → response ≡ some m
    → (take_response m.request_id s error response).1 ≡ ok m
unfolding take_response
take_response-some m s (some error) response e r = absurd (cc)
take_response-some m s none none e r = absurd (cc)
take_response-some m s none (some m') e r = cc

await-returns :
    (m : ProtocolMessage) (before behind : List Arrival) (out : ShellSession × Result (Unit {0}))
    → out.1 ≡ ok tt
    → out.0.listener_error ≡ none
    → text_eq m.kind (text "EVENT") ≡ false
    → All (IsOther m.request_id) before
    → All (IsOther m.request_id) behind
    → (await (before ++ receives m ∷ behind) m.request_id out).1 ≡ ok m
unfolding await
await-returns m before behind (s, err error) r h k b c = absurd (cc)
await-returns m before behind (s, ok done) r h k b c =
    let (p, q) = listen_all-Holds m before behind s h k b c in
    take_response-some m (listen_all (before ++ receives m ∷ behind) s) _ _ q p

-- A command whose request could be sent, with a listener that has not stopped: if one message that is
-- not an event arrives under the ID of the request, then `execute` returns this message, whatever
-- events and whatever answers to other requests arrive before it and behind it.
pub execute_returns :
    (m : ProtocolMessage) (before behind : List Arrival) (token : Bytes) (tokens : List Bytes)
    (s : ShellSession)
    → m.request_id ≡ s.next_request_id
    → (send_request s.next_request_id (token ∷ tokens) s).1 ≡ ok tt
    → s.listener_error ≡ none
    → text_eq m.kind (text "EVENT") ≡ false
    → All (IsOther m.request_id) before
    → All (IsOther m.request_id) behind
    → (execute (before ++ receives m ∷ behind) (token ∷ tokens) s).1 ≡ ok m
unfolding execute send_request
execute_returns m before behind token tokens s i r h k b c =
    subst
      (λ id.
        (await (before ++ receives m ∷ behind) id
          (send_request s.next_request_id (token ∷ tokens) s)).1
        ≡ ok m)
      i
      (await-returns m before behind (send_request s.next_request_id (token ∷ tokens) s) r h k b c)
