-- ===== src/Transport/Making.antt =====
-- The making and opening of the pipes in src/fifo.cpp, with the lock held.
use omni_sched.Base.{
  ℕ, Bool, true, false, Option, none, some, List, ◌∷◌, ◌≡◌, refl, sym, ap, subst, ◌∙◌, inl, Error,
  Result, ok, err, arith,
}
use omni_sched.Transport.Server
use omni_sched.Transport.Server.{
  Node, missing, fifo, other, Ipc, close, close_descriptor, opened, CreateCalls, make_fifo,
  replace_stale, replace_inspected, create_fifo, prepare_directory, Server, ServerCalls, unlink_if,
  abandon, CleanupCalls, Access, reads_writes, Descriptor, lock_path, release, responses_created,
  requests_created, lock_opened, open_lock, construct, close_transport, release_lock, destroy,
}
use omni_sched.Transport.Paths.{FifoPaths}
use omni_sched.Transport.Nodes.{
  IsOurs, Left, unlink-Left, Creates, create_fifo-Creates, close_front,
}

close_two :
    (r w : Descriptor) (ds : List Descriptor) → close w.number (close r.number (w ∷ r ∷ ds)) ≡ ds
unfolding close
close_two r w ds = ground arith

-- The descriptors of a server.
abbrev pub held : FifoPaths → ℕ → ℕ → ℕ → List Descriptor → List Descriptor
held paths lock request response ds =
    record { number = response; path = paths.responses; access = reads_writes }
    ∷ record { number = request; path = paths.requests; access = reads_writes }
    ∷ record { number = lock; path = lock_path paths; access = reads_writes }
    ∷ ds

-- After an exception nothing is held: the descriptors are those of before, the lock is free, and each
-- path was spared or has the FIFO that was made, if its `unlink` failed. After success the lock is held
-- and both paths were free to take and are FIFOs of the user, each is open under its own path, and the
-- destructor gives all back and removes the FIFOs of which the `unlink` succeeds.
abbrev pub Holds : ℕ → CleanupCalls → CleanupCalls → FifoPaths → Ipc → Ipc × Result Server → Type 0
Holds uid cleanup ending paths before (after, err error) =
    (after.descriptors ≡ before.descriptors)
    × (after.locked ≡ false)
    × Left uid cleanup.unlink_requests before.requests after.requests
    × Left uid cleanup.unlink_responses before.responses after.responses
Holds uid cleanup ending paths before (after, ok server) =
    IsOurs uid before.requests
    × IsOurs uid before.responses
    × ((lock : ℕ) × (request : ℕ) × (response : ℕ) × (server
          ≡ record { transport = some (request, response); lock_fd = some lock })
        × (after ≡ record {
          requests = fifo uid;
          responses = fifo uid;
          locked = true;
          descriptors = held paths lock request response before.descriptors;
        }))
    × (destroy ending server after ≡ record before {
      requests = unlink_if true ending.unlink_requests (fifo uid);
      responses = unlink_if true ending.unlink_responses (fifo uid);
      locked = false;
    })

close_descriptor-nodes :
    (o : Option ℕ) (ipc : Ipc)
    → ((close_descriptor o ipc).requests ≡ ipc.requests)
      × ((close_descriptor o ipc).responses ≡ ipc.responses)
unfolding close_descriptor
close_descriptor-nodes none ipc = (refl, refl)
close_descriptor-nodes (some d) ipc = (refl, refl)

-- The lock and its descriptor are given back, and nothing else changes.
release_lem :
    (unlocks : Bool) (d : Descriptor) (ds : List Descriptor) (ipc : Ipc)
    → ipc.descriptors ≡ d ∷ ds
    → release unlocks d.number ipc ≡ record ipc { locked = false; descriptors = ds }
unfolding release close_descriptor
release_lem true d ds ipc h =
    ap
      (λ (xs : List Descriptor). let i : Ipc = record ipc { locked = false; descriptors = xs } in i)
      (ap (close d.number) h ∙ close_front d ds)
release_lem false d ds ipc h =
    ap
      (λ (xs : List Descriptor). let i : Ipc = record ipc { locked = false; descriptors = xs } in i)
      (ap (close d.number) h ∙ close_front d ds)

module _ (uid : ℕ) (ending : CleanupCalls) (paths : FifoPaths) (lock : ℕ) (before : Ipc) where
  abbrev lock_descriptor : Descriptor
  lock_descriptor = record { number = lock; path = lock_path paths; access = reads_writes }

  -- The `catch` block gives all back.
  abandon-Holds :
      (cleanup : CleanupCalls) (ipc : Ipc) (request : Option ℕ)
      (request_created response_created : Bool) (error : Error)
      → (close_descriptor request ipc).descriptors ≡ lock_descriptor ∷ before.descriptors
      → Left uid cleanup.unlink_requests before.requests
          (unlink_if request_created cleanup.unlink_requests ipc.requests)
      → Left uid cleanup.unlink_responses before.responses
          (unlink_if response_created cleanup.unlink_responses ipc.responses)
      → Holds uid cleanup ending paths before
          (abandon cleanup request request_created response_created lock error ipc)
  unfolding abandon
  abandon-Holds cleanup ipc request rc sc error d p q =
      let (a, b) = close_descriptor-nodes request ipc in
      let closed = close_descriptor request ipc in
      let e =
        release_lem cleanup.unlock lock_descriptor before.descriptors
          (record closed {
            requests = unlink_if rc cleanup.unlink_requests closed.requests;
            responses = unlink_if sc cleanup.unlink_responses closed.responses;
          })
          d in
      (
        ap (λ i. i.descriptors) e,
        ap (λ i. i.locked) e,
        subst (λ n. Left uid cleanup.unlink_requests before.requests n)
            (ap (λ n. unlink_if rc cleanup.unlink_requests n) (sym a)
              ∙ sym (ap (λ i. i.requests) e))
            p,
        subst (λ n. Left uid cleanup.unlink_responses before.responses n)
            (ap (λ n. unlink_if sc cleanup.unlink_responses n) (sym b)
              ∙ sym (ap (λ i. i.responses) e))
            q,
      )

  -- The constructor behind `flock`: the lock was taken, and no other descriptor is left open.
  abbrev taken : Node → Node → Ipc
  taken requests responses = record {
    requests = requests;
    responses = responses;
    locked = true;
    descriptors = lock_descriptor ∷ before.descriptors;
  }

  -- Both pipes are open.
  abbrev full : ℕ → ℕ → Ipc
  full request response = record {
    requests = fifo uid;
    responses = fifo uid;
    locked = true;
    descriptors = held paths lock request response before.descriptors;
  }

  destroy-full :
      (request response : ℕ)
      → destroy ending
          (record { transport = some (request, response); lock_fd = some lock })
          (full request response)
        ≡ record before {
          requests = unlink_if true ending.unlink_requests (fifo uid);
          responses = unlink_if true ending.unlink_responses (fifo uid);
          locked = false;
        }
  unfolding destroy close_transport release_lock close_descriptor
  destroy-full request response = release_lem ending.unlock lock_descriptor before.descriptors _ (
      close_two (record { number = request; path = paths.requests; access = reads_writes })
        (record { number = response; path = paths.responses; access = reads_writes })
        (lock_descriptor ∷ before.descriptors))

  open_responses-Holds :
      (calls : ServerCalls) (request : ℕ) (requests responses : Node)
      → IsOurs uid before.requests × (requests ≡ fifo uid)
      → IsOurs uid before.responses × (responses ≡ fifo uid)
      → Holds uid calls.cleanup ending paths before (
          Server.open_responses calls paths lock request
            (opened request paths.requests reads_writes (taken requests responses)))
  unfolding Server.open_responses opened
  open_responses-Holds calls request requests responses (p, p') (q, q') = go calls.open_responses
    where
      requested : Descriptor
      requested = record { number = request; path = paths.requests; access = reads_writes }

      open_one : Ipc
      open_one = record {
        requests = requests;
        responses = responses;
        locked = true;
        descriptors = requested ∷ lock_descriptor ∷ before.descriptors;
      }

      nodes :
          (response : ℕ)
          → opened response paths.responses reads_writes open_one ≡ full request response
      nodes response =
          ap
            (λ (m : Node).
              let i : Ipc = record (full request response) {
                requests = m;
                responses = responses;
              } in
              i)
            p'
          ∙ ap (λ (n : Node). let i : Ipc = record (full request response) { responses = n } in i)
              q'

      go :
          (o : Result ℕ)
          → Holds uid calls.cleanup ending paths before (elim o as (λ _. Ipc × Result Server) [
            | err error ↦ abandon calls.cleanup (some request) true true lock error open_one
            | ok response ↦ (
              opened response paths.responses reads_writes open_one,
              ok (record { transport = some (request, response); lock_fd = some lock }),
            )
          ])
      go (err error) =
          abandon-Holds calls.cleanup open_one (some request) true true error
            (unfold close_descriptor in
              close_front requested (lock_descriptor ∷ before.descriptors))
            (unlink-Left uid calls.cleanup.unlink_requests before.requests requests p p')
            (unlink-Left uid calls.cleanup.unlink_responses before.responses responses q q')
      go (ok response) = (
        p,
        q,
        (lock, request, response, refl, nodes response),
        ap
              (λ i.
                destroy ending
                  (record { transport = some (request, response); lock_fd = some lock }) i)
              (nodes response)
            ∙ destroy-full request response,
      )

  open_requests-Holds :
      (calls : ServerCalls) (requests responses : Node)
      → IsOurs uid before.requests × (requests ≡ fifo uid)
      → IsOurs uid before.responses × (responses ≡ fifo uid)
      → Holds uid calls.cleanup ending paths before
          (Server.open_requests calls paths lock (taken requests responses))
  unfolding Server.open_requests
  open_requests-Holds calls requests responses p q = go calls.open_requests
    where
      go :
          (o : Result ℕ)
          → Holds uid calls.cleanup ending paths before (elim o as (λ _. Ipc × Result Server) [
            | err error ↦ abandon calls.cleanup none true true lock error (taken requests responses)
            | ok request ↦
                Server.open_responses calls paths lock request
                  (opened request paths.requests reads_writes (taken requests responses))
          ])
      go (err error) =
          abandon-Holds calls.cleanup (taken requests responses) none true true error
            (unfold close_descriptor in refl)
            (unlink-Left uid calls.cleanup.unlink_requests before.requests requests p.0 p.1)
            (unlink-Left uid calls.cleanup.unlink_responses before.responses responses q.0 q.1)
      go (ok request) = open_responses-Holds calls request requests responses p q

  responses_created-Holds :
      (calls : ServerCalls) (requests : Node) (out : Node × Result (Unit {0}))
      → IsOurs uid before.requests × (requests ≡ fifo uid)
      → Creates uid before.responses out
      → Holds uid calls.cleanup ending paths before
          (responses_created calls paths lock out (taken requests before.responses))
  unfolding responses_created
  responses_created-Holds calls requests (node, err error) p q =
      abandon-Holds calls.cleanup (taken requests node) none true false error
        (unfold close_descriptor in refl)
        (unlink-Left uid calls.cleanup.unlink_requests before.requests requests p.0 p.1)
        (unfold unlink_if in inl q)
  responses_created-Holds calls requests (node, ok done) p q =
      open_requests-Holds calls requests node p q

  pub requests_created-Holds :
      (calls : ServerCalls) (out : Node × Result (Unit {0}))
      → Creates uid before.requests out
      → Holds uid calls.cleanup ending paths before
          (requests_created uid calls paths lock out (taken before.requests before.responses))
  unfolding requests_created
  requests_created-Holds calls (node, err error) p =
      abandon-Holds calls.cleanup (taken node before.responses) none false false error
        (unfold close_descriptor in refl) (unfold unlink_if in inl p)
        (unfold unlink_if in inl (inl refl))
  requests_created-Holds calls (node, ok done) p =
      responses_created-Holds calls node
        (create_fifo uid calls.create_responses paths.responses before.responses) p
        (create_fifo-Creates uid calls.create_responses paths.responses before.responses)
