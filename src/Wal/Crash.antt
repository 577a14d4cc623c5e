-- ===== src/Wal/Crash.antt =====
-- `recover` of src/wal.cpp after an `append` that a crash or a failure cuts off.
use omni_sched.Base.{
  ℕ, Bytes, Bool, true, false, List, [], ◌∷◌, ◌++◌, ◌≡◌, refl, ap, sym, ◌∙◌, ◌⊎◌, inl, inr, Error,
  Result, ok, err, All, All-append, append_assoc, append-nil, arith,
}
use omni_sched.Codec.Split.{Lacks}
use omni_sched.Wal.Append.{Os, append, Appends, append-Appends}
use omni_sched.Wal.Recover.{recover}
use omni_sched.Wal.Replay.{WalRecord, line_of, log_of, IsWalRecord}
use omni_sched.Wal.LineRoundTrip.{inner_of}
use omni_sched.Wal.LogRoundTrip.{
  inner_of-Lacks, line_of-inner_of, report_of, recover-log_of, recover_torn,
}

pub log_of-append : (rs qs : List WalRecord) → log_of (rs ++ qs) ≡ log_of rs ++ log_of qs
unfolding log_of
log_of-append [] qs = refl
log_of-append (r ∷ rs) qs =
    ap (◌++◌ (line_of r)) (log_of-append rs qs)
    ∙ sym (append_assoc (line_of r) (log_of rs) (log_of qs))

log_of_one : (r : WalRecord) → log_of (r ∷ []) ≡ line_of r
unfolding log_of
log_of_one r = append-nil (line_of r)

log_of_end : (rs : List WalRecord) (r : WalRecord) → log_of rs ++ line_of r ≡ log_of (rs ++ r ∷ [])
log_of_end rs r = rw (log_of-append rs (r ∷ []), log_of_one r)

-- A proper part of a line, from its start on, holds no line feed.
pub part-Lacks : (b x c : ℕ) (s p q : Bytes) → Lacks b s → s ++ x ∷ [] ≡ p ++ c ∷ q → Lacks b p
part-Lacks b x c s [] q h e = tt
part-Lacks b x c [] (d ∷ []) q h e = absurd (cc)
part-Lacks b x c [] (d ∷ d' ∷ p) q h e = absurd (cc)
part-Lacks b x c (a ∷ s) (d ∷ p) q h e = (ground arith, part-Lacks b x c s p q h.1 (ground arith))

-- What recovery makes of a file: it keeps the records and reports whether it cut off a torn line.
abbrev pub RecoversTo : Bytes → List WalRecord → Type 0
RecoversTo file kept =
    (ignored : Bool) × (recover (ok tt) file ≡ (log_of kept, report_of ignored kept))

torn-RecoversTo :
    (rs : List WalRecord) (p : Bytes)
    → All IsWalRecord rs
    → Lacks b'\n' p
    → RecoversTo (log_of rs ++ p) rs
torn-RecoversTo rs [] w h = (false, rw append-nil (recover-log_of (ok tt) rs w))
torn-RecoversTo rs (c ∷ p) w h = (true, recover_torn rs (c ∷ p) w (λ e. cc) h)

whole-RecoversTo :
    (rs : List WalRecord) (r : WalRecord)
    → All IsWalRecord rs
    → IsWalRecord r
    → RecoversTo (log_of rs ++ line_of r) (rs ++ r ∷ [])
whole-RecoversTo rs r w v = (
  false,
  rw (log_of_end rs r)
      (recover-log_of (ok tt) (rs ++ r ∷ []) (All-append IsWalRecord rs (r ∷ []) w (v, tt))),
)

part-RecoversTo :
    (rs : List WalRecord) (r : WalRecord) (p q : Bytes)
    → All IsWalRecord rs
    → IsWalRecord r
    → line_of r ≡ p ++ q
    → RecoversTo (log_of rs ++ p) rs ⊎ RecoversTo (log_of rs ++ p) (rs ++ r ∷ [])
part-RecoversTo rs r p [] w v e = inr (rw (← append-nil p, ← e) (whole-RecoversTo rs r w v))
part-RecoversTo rs r p (c ∷ q) w v e = inl (
    torn-RecoversTo rs p w (
      part-Lacks b'\n' b'\n' c (inner_of r) p q (inner_of-Lacks r v)
        (sym (line_of-inner_of r) ∙ e)))

-- What an append of `r` to the log of `rs` comes to: it succeeds and recovery has the record, or it
-- fails and recovery has the record or has it not.
abbrev pub IsAtomic : List WalRecord → WalRecord → Bytes × Result (Unit {0}) → Type 0
IsAtomic rs r (file, result) =
    ((result ≡ ok tt) × RecoversTo file (rs ++ r ∷ []))
    ⊎ ((e : Error) × (result ≡ err e) × (RecoversTo file rs ⊎ RecoversTo file (rs ++ r ∷ [])))

Appends-IsAtomic :
    (rs : List WalRecord) (r : WalRecord) (x : Bytes × Result (Unit {0}))
    → All IsWalRecord rs
    → IsWalRecord r
    → Appends (line_of r) (log_of rs) x
    → IsAtomic rs r x
Appends-IsAtomic rs r x w v (inl (o, f)) = inl (o, rw f (whole-RecoversTo rs r w v))
Appends-IsAtomic rs r x w v (inr (e, p, q, o, s, f)) =
    inr (e, o, rw f (part-RecoversTo rs r p q w v s))

-- However the operating system treats an append to a log of valid records, recovery then returns the
-- state before the record or the state after it, and the state after it if the append succeeded. (A
-- process that is killed between two writes leaves the file of one whose next write fails.)
pub append-IsAtomic :
    (os : Os) (rs : List WalRecord) (r : WalRecord)
    → All IsWalRecord rs
    → IsWalRecord r
    → IsAtomic rs r (append os (line_of r) (log_of rs))
append-IsAtomic os rs r w v =
    Appends-IsAtomic rs r _ w v (append-Appends os (line_of r) (log_of rs))
