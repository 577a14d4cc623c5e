-- ===== src/Wal/Append.antt =====
-- `append` of src/wal.cpp against the operating system, and the two journal calls over it.
use omni_sched.Base.{
  ℕ, ℤ, pos, Bytes, List, [], ◌∷◌, ◌++◌, ◌≡◌, refl, ap, sym, subst, ◌∙◌, Error, Result, ok, err,
  take, drop, take-append-drop, append_assoc, append-nil, ◌⊎◌, inl, inr,
}
use omni_sched.Journal.{JobSubmissionRecord, JobTransitionRecord, IJobJournal}
use omni_sched.Wal.Line.{submission_line, transition_line}

-- What a call of `write` does: it writes at most so many bytes, or fails with EINTR, or fails with
-- another error.
pub data WriteOutcome : Type 0 where
  wrote : ℕ → WriteOutcome
  interrupted : WriteOutcome
  failed : Error → WriteOutcome

-- The outcomes of the calls that a single `append` makes, the clock that it reads, and the exception
-- of a failed `fsync`. After the listed outcomes a call writes all that it is given.
pub record Os : Type 0 where
  pub now : ℤ
  pub writes : List WriteOutcome
  pub fsync : Result (Unit {0})

-- `while (remaining > 0)`. The file is opened with O_APPEND, so what is written goes to its end.
write_all : List WriteOutcome → Bytes → Bytes → Bytes × Result (Unit {0})
write_all outcomes [] file = (file, ok tt)
write_all [] (b ∷ remaining) file = (file ++ b ∷ remaining, ok tt)
write_all (wrote n ∷ outcomes) (b ∷ remaining) file =
    write_all outcomes (drop n (b ∷ remaining)) (file ++ take n (b ∷ remaining))
write_all (interrupted ∷ outcomes) (b ∷ remaining) file = write_all outcomes (b ∷ remaining) file
write_all (failed e ∷ outcomes) (b ∷ remaining) file = (file, err e)

-- The `fsync` after a complete write.
sync : Result (Unit {0}) → Bytes × Result (Unit {0}) → Bytes × Result (Unit {0})
sync fsync (file, err e) = (file, err e)
sync fsync (file, ok _) = (file, fsync)

unfoldable pub append : Os → Bytes → Bytes → Bytes × Result (Unit {0})
unfolding write_all sync
append os record' file = sync os.fsync (write_all os.writes record' file)

-- An invalid record is refused before anything is written.
append_checked : Os → Result Bytes → Bytes → Bytes × Result (Unit {0})
append_checked os (err e) file = (file, err e)
append_checked os (ok line) file = append os line file

-- The log file and what the operating system does to the calls to come; after those, all succeed.
pub record WalManager : Type 0 where
  pub file : Bytes
  pub calls : List Os

abbrev pub calm : Os
calm = record { now = pos 0; writes = []; fsync = ok tt }

next_call : List Os → Os × List Os
next_call [] = (calm, [])
next_call (os ∷ calls) = (os, calls)

unfoldable pub append_submission : JobSubmissionRecord → WalManager → WalManager × Result (Unit {0})
unfolding append_checked next_call
append_submission record' wal =
    let (os, calls) = next_call wal.calls in
    let (file, result) = append_checked os (submission_line os.now record') wal.file in
    (record { file = file; calls = calls }, result)

unfoldable pub append_transition : JobTransitionRecord → WalManager → WalManager × Result (Unit {0})
unfolding append_checked next_call
append_transition record' wal =
    let (os, calls) = next_call wal.calls in
    let (file, result) = append_checked os (transition_line os.now record') wal.file in
    (record { file = file; calls = calls }, result)

-- `class WalManager final : public IJobJournal`.
instance abbrev pub wal_journal : IJobJournal WalManager
wal_journal = record {
  append_submission = append_submission;
  append_transition = append_transition;
}

-- An `append` of `record'` to `file` has either written all of it, or fails and has written a part
-- from its start on.
abbrev pub Appends : Bytes → Bytes → Bytes × Result (Unit {0}) → Type 0
Appends record' file r =
    ((r.1 ≡ ok tt) × (r.0 ≡ file ++ record'))
    ⊎ ((e : Error) × (p : Bytes) × (q : Bytes) × (r.1 ≡ err e)
        × (record' ≡ p ++ q)
        × (r.0 ≡ file ++ p))

-- A part `p` was written, and then `q` was appended.
Appends-shift :
    (p q file : Bytes) (r : Bytes × Result (Unit {0}))
    → Appends q (file ++ p) r
    → Appends (p ++ q) file r
Appends-shift p q file r (inl (o, f)) = inl (o, f ∙ append_assoc file p q)
Appends-shift p q file r (inr (e, p', q', o, s, f)) =
    inr (e, p ++ p', q', o, ap (◌++◌ p) s ∙ sym (append_assoc p p' q'), f ∙ append_assoc file p p')

write_all-Appends :
    (outcomes : List WriteOutcome) (rest file : Bytes)
    → Appends rest file (write_all outcomes rest file)
unfolding write_all
write_all-Appends outcomes [] file = inl (refl, rw append-nil)
write_all-Appends [] (b ∷ rest) file = inl (refl, refl)
write_all-Appends (wrote n ∷ outcomes) (b ∷ rest) file =
    subst (λ s. Appends s file (write_all outcomes (drop n (b ∷ rest)) (file ++ take n (b ∷ rest))))
      (take-append-drop n (b ∷ rest))
      (Appends-shift (take n (b ∷ rest)) _ file _
        (write_all-Appends outcomes (drop n (b ∷ rest)) _))
write_all-Appends (interrupted ∷ outcomes) (b ∷ rest) file =
    write_all-Appends outcomes (b ∷ rest) file
write_all-Appends (failed e ∷ outcomes) (b ∷ rest) file =
    inr (e, [], b ∷ rest, refl, refl, rw append-nil)

sync-Appends :
    (fsync : Result (Unit {0})) (record' file : Bytes) (r : Bytes × Result (Unit {0}))
    → Appends record' file r
    → Appends record' file (sync fsync r)
unfolding sync
sync-Appends (ok u) record' file (f, ok v) h = h
sync-Appends (err e) record' file (f, ok v) (inl (o, e')) =
    inr (e, record', [], refl, sym (append-nil record'), e')
sync-Appends (err e) record' file (f, ok v) (inr (_, _, _, o, _, _)) = absurd (cc)
sync-Appends fsync record' file (f, err e) h = h

-- Whatever `write` and `fsync` do, an append either succeeds and has written the whole record at the
-- end of the file, or fails and has written a part of it from its start on; nothing else changes.
pub append-Appends :
    (os : Os) (record' file : Bytes) → Appends record' file (append os record' file)
unfolding append
append-Appends os record' file =
    sync-Appends os.fsync record' file _ (write_all-Appends os.writes record' file)

-- No call of `write` fails but by EINTR.
abbrev pub NoFailure : List WriteOutcome → Type 0
NoFailure [] = Unit {0}
NoFailure (wrote n ∷ outcomes) = NoFailure outcomes
NoFailure (interrupted ∷ outcomes) = NoFailure outcomes
NoFailure (failed e ∷ outcomes) = ⊥

write_all_succeeds :
    (outcomes : List WriteOutcome) (rest file : Bytes)
    → NoFailure outcomes
    → write_all outcomes rest file ≡ (file ++ rest, ok tt)
unfolding write_all
write_all_succeeds outcomes [] file h = rw append-nil
write_all_succeeds [] (b ∷ rest) file h = refl
write_all_succeeds (wrote n ∷ outcomes) (b ∷ rest) file h = rw (
  write_all_succeeds outcomes (drop n (b ∷ rest)) (file ++ take n (b ∷ rest)) h,
  append_assoc file (take n (b ∷ rest)) (drop n (b ∷ rest)),
  take-append-drop n (b ∷ rest),
)
write_all_succeeds (interrupted ∷ outcomes) (b ∷ rest) file h =
    write_all_succeeds outcomes (b ∷ rest) file h
write_all_succeeds (failed e ∷ outcomes) (b ∷ rest) file h = absurd h

-- Short writes and interrupted ones lose nothing: unless a call fails, the record is appended whole.
pub append_succeeds :
    (os : Os) (record' file : Bytes)
    → NoFailure os.writes
    → os.fsync ≡ ok tt
    → append os record' file ≡ (file ++ record', ok tt)
unfolding append sync
append_succeeds os record' file h f = rw (write_all_succeeds os.writes record' file h, f)
