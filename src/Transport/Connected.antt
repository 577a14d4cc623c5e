-- ===== src/Transport/Connected.antt =====
-- What `FifoClient::Impl` of src/fifo.cpp holds when it is made and when that throws.
use omni_sched.Base.{
  ℕ, Bytes, Bool-cases, List, ◌∷◌, ◌==◌, ==_iff, ◌≡◌, refl, ap, ◌∙◌, inl, inr, Result, ok, err,
  ◌>>◌, arith,
}
use omni_sched.Transport.Server.{
  Node, missing, fifo, other, reads, writes, Descriptor, Ipc, close, close_descriptor, opened,
}
use omni_sched.Transport.Paths.{FifoPaths}
use omni_sched.Transport.Nodes.{close_front}
use omni_sched.Transport.Client
use omni_sched.Transport.Client.{ClientCalls, validate_fifo, validate, connect, disconnect}

-- The descriptors of a client.
abbrev pub both : FifoPaths → ℕ → ℕ → List Descriptor → List Descriptor
both paths read_fd write_fd ds =
    record { number = read_fd; path = paths.responses; access = reads }
    ∷ record { number = write_fd; path = paths.requests; access = writes }
    ∷ ds

-- A client that throws has no descriptor open; one that returns found two FIFOs of the user, and has
-- that of the responses open to read and that of the requests to write, which its destructor closes.
abbrev pub Connects : ℕ → FifoPaths → Ipc → Ipc × Result (ℕ × ℕ) → Type 0
Connects uid paths before (after, err error) = after ≡ before
Connects uid paths before (after, ok (read_fd, write_fd)) =
    (before.requests ≡ fifo uid)
    × (before.responses ≡ fifo uid)
    × (after ≡ record before { descriptors = both paths read_fd write_fd before.descriptors })
    × (disconnect (read_fd, write_fd) after ≡ before)

close_both :
    (r w : Descriptor) (ds : List Descriptor) → close w.number (close r.number (r ∷ w ∷ ds)) ≡ ds
close_both r w ds = ap (close w.number) (close_front r (w ∷ ds)) ∙ close_front w ds

validate_fifo-ok :
    (uid : ℕ) (path : Bytes) (node : Node) → validate_fifo uid path node ≡ ok tt → node ≡ fifo uid
unfolding validate_fifo
validate_fifo-ok uid path missing h = absurd (cc)
validate_fifo-ok uid path other h = absurd (cc)
validate_fifo-ok uid path (fifo owner) h = elim (Bool-cases (owner == uid)) [
  | inl q ↦ ap fifo ((==_iff owner uid).0 q)
  | inr q ↦ absurd (ground arith)
]

validate-ok :
    (uid : ℕ) (paths : FifoPaths) (ipc : Ipc)
    → validate uid paths ipc ≡ ok tt
    → (ipc.requests ≡ fifo uid) × (ipc.responses ≡ fifo uid)
unfolding validate
validate-ok uid paths ipc h = go (validate_fifo uid paths.requests ipc.requests) refl h
  where
    go :
        (o : Result (Unit {0}))
        → validate_fifo uid paths.requests ipc.requests ≡ o
        → (o >> validate_fifo uid paths.responses ipc.responses) ≡ ok tt
        → (ipc.requests ≡ fifo uid) × (ipc.responses ≡ fifo uid)
    go (err error) p h = absurd (cc)
    go (ok done) p h = (
      validate_fifo-ok uid paths.requests ipc.requests p,
      validate_fifo-ok uid paths.responses ipc.responses h,
    )

open_responses-Connects :
    (uid : ℕ) (calls : ClientCalls) (paths : FifoPaths) (request : ℕ) (before : Ipc)
    → (before.requests ≡ fifo uid) × (before.responses ≡ fifo uid)
    → Connects uid paths before
        (Client.open_responses calls paths request (opened request paths.requests writes before))
unfolding Client.open_responses close_descriptor opened disconnect
open_responses-Connects uid calls paths request before (p, q) = go calls.open_responses
  where
    requested : Descriptor
    requested = record { number = request; path = paths.requests; access = writes }

    held : Ipc
    held = record before { descriptors = requested ∷ before.descriptors }

    go :
        (o : Result ℕ)
        → Connects uid paths before (elim o as (λ _. Ipc × Result (ℕ × ℕ)) [
          | err error ↦ (record held { descriptors = close request held.descriptors }, err error)
          | ok response ↦ (opened response paths.responses reads held, ok (response, request))
        ])
    go (err error) =
        ap (λ (ds : List Descriptor). let ipc : Ipc = record before { descriptors = ds } in ipc)
          (close_front requested before.descriptors)
    go (ok response) = (
      p,
      q,
      refl,
      ap (λ (ds : List Descriptor). let ipc : Ipc = record before { descriptors = ds } in ipc)
          (close_both (record { number = response; path = paths.responses; access = reads })
            requested before.descriptors),
    )

open_requests-Connects :
    (uid : ℕ) (calls : ClientCalls) (paths : FifoPaths) (before : Ipc)
    → (before.requests ≡ fifo uid) × (before.responses ≡ fifo uid)
    → Connects uid paths before (Client.open_requests calls paths before)
unfolding Client.open_requests
open_requests-Connects uid calls paths before h = go calls.open_requests
  where
    go :
        (o : Result ℕ)
        → Connects uid paths before (elim o as (λ _. Ipc × Result (ℕ × ℕ)) [
          | err error ↦ (before, err error)
          | ok request ↦
              Client.open_responses calls paths request
                (opened request paths.requests writes before)
        ])
    go (err error) = refl
    go (ok request) = open_responses-Connects uid calls paths request before h

-- Whatever `open` does, a client either throws and leaves no descriptor open, or found two FIFOs of the
-- user and has the one at the path of the responses open to read, the one at the path of the requests
-- open to write, and no other; and then its destructor leaves all as it was.
pub connect-Connects :
    (uid : ℕ) (calls : ClientCalls) (paths : FifoPaths) (before : Ipc)
    → Connects uid paths before (connect uid calls paths before)
unfolding connect
connect-Connects uid calls paths before = go (validate uid paths before) refl
  where
    go :
        (o : Result (Unit {0}))
        → validate uid paths before ≡ o
        → Connects uid paths before (elim o as (λ _. Ipc × Result (ℕ × ℕ)) [
          | err error ↦ (before, err error)
          | ok done ↦ Client.open_requests calls paths before
        ])
    go (err error) p = refl
    go (ok done) p = open_requests-Connects uid calls paths before (validate-ok uid paths before p)
