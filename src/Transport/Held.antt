-- ===== src/Transport/Held.antt =====
-- What `FifoServer::Impl` of src/fifo.cpp holds when it is made and when that throws.
use omni_sched.Base.{
  ℕ, text, false, Bool-cases, some, not, ◌≡◌, refl, inl, inr, Error, runtime_error, Result, ok, err,
}
use omni_sched.Transport.Server.{
  reads_writes, lock_path, CleanupCalls, Ipc, close_descriptor, opened, create_fifo,
  prepare_directory, Server, ServerCalls, lock_opened, open_lock, construct,
}
use omni_sched.Transport.Paths.{FifoPaths}
use omni_sched.Transport.Nodes.{create_fifo-Creates, close_front}
use omni_sched.Transport.Making.{Holds, requests_created-Holds}

module _ (uid : ℕ) (ending : CleanupCalls) (paths : FifoPaths) (before : Ipc)
    (free : before.locked ≡ false) where
  nothing-Holds :
      (cleanup : CleanupCalls) (lock : ℕ) (error : Error)
      → Holds uid cleanup ending paths before (
        close_descriptor (some lock) (opened lock (lock_path paths) reads_writes before),
        err error,
      )
  unfolding close_descriptor opened
  nothing-Holds cleanup lock error = (
    close_front (record { number = lock; path = lock_path paths; access = reads_writes })
        before.descriptors,
    free,
    inl (inl refl),
    inl (inl refl),
  )

  lock_opened-Holds :
      (lock : ℕ) (calls : ServerCalls)
      → Holds uid calls.cleanup ending paths before
          (lock_opened uid calls paths lock (opened lock (lock_path paths) reads_writes before))
  unfolding lock_opened
  lock_opened-Holds lock calls = elim (Bool-cases (not calls.lock_is_safe)) [
    | inl q ↦ rw q (
        nothing-Holds calls.cleanup lock
          (runtime_error (text "engine lock is not a safe user-owned file")))
    | inr q ↦ rw q (elim (Bool-cases (not calls.flock)) [
      | inl k ↦ rw k (
          nothing-Holds calls.cleanup lock
            (runtime_error (text "another Kronos engine is already using this IPC directory")))
      | inr k ↦ rw k (
          unfold opened in
          requests_created-Holds uid ending paths lock before calls
            (create_fifo uid calls.create_requests paths.requests before.requests)
            (create_fifo-Creates uid calls.create_requests paths.requests before.requests))
    ])
  ]

  open_lock-Holds :
      (calls : ServerCalls)
      → Holds uid calls.cleanup ending paths before (open_lock uid calls paths before)
  unfolding open_lock
  open_lock-Holds calls = go calls.open_lock
    where
      go :
          (o : Result ℕ)
          → Holds uid calls.cleanup ending paths before (elim o as (λ _. Ipc × Result Server) [
            | err error ↦ (before, err error)
            | ok lock ↦
                lock_opened uid calls paths lock (opened lock (lock_path paths) reads_writes before)
          ])
      go (err error) = (refl, free, inl (inl refl), inl (inl refl))
      go (ok lock) = lock_opened-Holds lock calls

-- Whatever the calls of the operating system do, those of the cleanup included, a server that is made
-- while the lock is free either throws and holds nothing: the descriptors are those of before, the lock
-- is free, and a path is as it was, or could be replaced and names nothing, or has the FIFO that was
-- made if its `unlink` failed. Or it has the lock and two FIFOs of the user where both paths named
-- nothing or a FIFO of the user, each opened under its own path; and then its destructor closes every
-- descriptor that it opened, frees the lock and removes each FIFO of which the `unlink` succeeds.
pub construct-Holds :
    (uid : ℕ) (calls : ServerCalls) (ending : CleanupCalls) (paths : FifoPaths) (before : Ipc)
    → before.locked ≡ false
    → Holds uid calls.cleanup ending paths before (construct uid calls paths before)
unfolding construct
construct-Holds uid calls ending paths before free = go (prepare_directory uid calls.directory)
  where
    go :
        (o : Result (Unit {0}))
        → Holds uid calls.cleanup ending paths before (elim o as (λ _. Ipc × Result Server) [
          | err error ↦ (before, err error)
          | ok done ↦ open_lock uid calls paths before
        ])
    go (err error) = (refl, free, inl (inl refl), inl (inl refl))
    go (ok done) = open_lock-Holds uid ending paths before free calls
