-- ===== src/Wal/LogRoundTrip.antt =====
-- A file to which records were appended, under `recover` of src/wal.cpp.
use omni_sched.Base.{
  ℕ, ◌+◌, Bytes, text, is_empty, Bool, true, false, List, [], ◌∷◌, ◌++◌, ◌≡◌, ◌≢◌, refl, ap, sym,
  ◌∙◌, fun_ext, ◌⊎◌, inl, inr, Result, ok, ◌>>=◌, All, All-mono, All-append, append_assoc,
  append-nil, arith,
}
use omni_sched.Codec.Split.{before_last-append, before_last-none, Lacks}
use omni_sched.Wal.Checksum.{checksum_text, with_checksum}
use omni_sched.Wal.Line.{submission_prefix, transition_prefix}
use omni_sched.Wal.Parse.{RecoveredJob, RecoveryReport, recover_line, at_line}
use omni_sched.Wal.Recover.{has_incomplete_tail, complete_lines, recover_loop, make_report, recover}
use omni_sched.Wal.Replay.{
  WalRecord, submission, transition, prefix_of, line_of, log_of, IsWalRecord, apply, replay,
}
use omni_sched.Wal.Field.{
  IsField, join, checksum-IsField, submission_fields, transition_fields, submission_prefix-join,
  transition_prefix-join, submission_fields-IsField, transition_fields-IsField,
}
use omni_sched.Wal.LineRoundTrip.{inner_of, recover_record-apply}

join-Lacks :
    (fields : List Bytes) (last : Bytes)
    → All (All IsField) fields
    → All IsField last
    → Lacks b'\n' (join fields last)
join-Lacks [] last h l = All-mono IsField _ (λ c d. d.1) last l
join-Lacks (f ∷ fields) last h l =
    All-append _ f (b'|' ∷ join fields last) (All-mono IsField _ (λ c d. d.1) f h.0)
      (omega arith, join-Lacks fields last h.1 l)

-- A line holds no line feed but its last byte.
pub inner_of-Lacks : (r : WalRecord) → IsWalRecord r → Lacks b'\n' (inner_of r)
inner_of-Lacks (submission now r) (t, w) = rw (submission_prefix-join now r _) (
    join-Lacks (text "K1" ∷ text "S" ∷ submission_fields now r)
      (checksum_text (submission_prefix now r)) (submission_fields-IsField now r w)
      (checksum-IsField _))
inner_of-Lacks (transition now r) (t, w) = rw (transition_prefix-join now r _) (
    join-Lacks (text "K1" ∷ text "T" ∷ transition_fields now r)
      (checksum_text (transition_prefix now r)) (transition_fields-IsField now r w)
      (checksum-IsField _))

pub line_of-inner_of : (r : WalRecord) → line_of r ≡ inner_of r ++ b'\n' ∷ []
unfolding with_checksum
line_of-inner_of r =
    sym (append_assoc (prefix_of r) (b'|' ∷ checksum_text (prefix_of r)) (b'\n' ∷ []))

recover_loop-line :
    (p rest line : Bytes) (n : ℕ) (jobs : List RecoveredJob)
    → Lacks b'\n' p
    → recover_loop (p ++ b'\n' ∷ rest) line n jobs
      ≡ (recover_line n (line ++ p) jobs >>= λ jobs'. recover_loop rest [] (n + 1) jobs')
unfolding recover_loop
recover_loop-line [] rest line n jobs h = rw append-nil
recover_loop-line (c ∷ p) rest line n jobs h =
    ground
      (arith, recover_loop-line p rest (line ++ c ∷ []) n jobs h.1, append_assoc line (c ∷ []) p)

is_empty-append : (p : Bytes) (c : ℕ) (q : Bytes) → is_empty (p ++ c ∷ q) ≡ false
is_empty-append [] c q = refl
is_empty-append (b ∷ p) c q = refl

recover_line-apply :
    (r : WalRecord) (n : ℕ) (jobs : List RecoveredJob)
    → IsWalRecord r
    → recover_line n (inner_of r) jobs ≡ at_line n (apply r jobs)
unfolding recover_line
recover_line-apply r n jobs w =
    rw (is_empty-append (prefix_of r) b'|' _, recover_record-apply r jobs w)

-- The loop over the file does what the records do, the first failure and its line number included.
recover_loop-log_of :
    (rs : List WalRecord) (n : ℕ) (jobs : List RecoveredJob)
    → All IsWalRecord rs
    → recover_loop (log_of rs) [] n jobs ≡ replay n rs jobs
unfolding log_of replay
recover_loop-log_of [] n jobs w = unfold recover_loop in refl
recover_loop-log_of (r ∷ rs) n jobs w =
    rw
      (
        line_of-inner_of r,
        append_assoc (inner_of r) (b'\n' ∷ []) (log_of rs),
        recover_loop-line (inner_of r) (log_of rs) [] n jobs (inner_of-Lacks r w.0),
        recover_line-apply r n jobs w.0,
      )
      (ap (λ f. at_line n (apply r jobs) >>= f)
        (fun_ext (λ jobs'. recover_loop-log_of rs (n + 1) jobs' w.1)))

-- The text is empty or ends in a line feed.
abbrev EndsLine : Bytes → Type 0
EndsLine s = (s ≡ []) ⊎ ((p : Bytes) × (s ≡ p ++ b'\n' ∷ []))

EndsLine-append : (p s : Bytes) → EndsLine s → EndsLine ((p ++ b'\n' ∷ []) ++ s)
EndsLine-append p s (inl e) = inr (p, rw (e, append-nil))
EndsLine-append p s (inr (q, e)) =
    inr ((p ++ b'\n' ∷ []) ++ q, rw e (sym (append_assoc (p ++ b'\n' ∷ []) q (b'\n' ∷ []))))

log_of-EndsLine : (rs : List WalRecord) → EndsLine (log_of rs)
unfolding log_of
log_of-EndsLine [] = inl refl
log_of-EndsLine (r ∷ rs) =
    rw (line_of-inner_of r) (EndsLine-append (inner_of r) (log_of rs) (log_of-EndsLine rs))

tail_of_line : (p : Bytes) → has_incomplete_tail (p ++ b'\n' ∷ []) ≡ false
unfolding has_incomplete_tail
tail_of_line [] = refl
tail_of_line (c ∷ []) = refl
tail_of_line (c ∷ d ∷ p) = tail_of_line (d ∷ p)

complete_tail : (s : Bytes) → EndsLine s → has_incomplete_tail s ≡ false
complete_tail s (inl e) = rw e (unfold has_incomplete_tail in refl)
complete_tail s (inr (p, e)) = rw e (tail_of_line p)

tail_of_cons : (c : ℕ) (t : Bytes) → t ≢ [] → has_incomplete_tail (c ∷ t) ≡ has_incomplete_tail t
unfolding has_incomplete_tail
tail_of_cons c [] h = absurd (h refl)
tail_of_cons c (d ∷ t) h = refl

append-ne-nil : (s t : Bytes) → t ≢ [] → s ++ t ≢ []
append-ne-nil [] t h = h
append-ne-nil (c ∷ s) t h = λ e. cc

incomplete_tail :
    (s tail : Bytes) → tail ≢ [] → Lacks b'\n' tail → has_incomplete_tail (s ++ tail) ≡ true
unfolding has_incomplete_tail
incomplete_tail [] [] e h = absurd (e refl)
incomplete_tail [] (c ∷ []) e h = ground arith
incomplete_tail [] (c ∷ d ∷ t) e h = incomplete_tail [] (d ∷ t) (λ k. cc) h.1
incomplete_tail (c ∷ s) tail e h =
    tail_of_cons c (s ++ tail) (append-ne-nil s tail e) ∙ incomplete_tail s tail e h

complete_lines-append :
    (s tail : Bytes) → EndsLine s → Lacks b'\n' tail → complete_lines (s ++ tail) ≡ s
unfolding complete_lines
complete_lines-append s tail (inl e) h = rw e (rw (before_last-none b'\n' tail h, complete_lines))
complete_lines-append s tail (inr (p, e)) h =
    rw e (rw (append_assoc p (b'\n' ∷ []) tail, before_last-append b'\n' p tail h, complete_lines))

-- The state that a list of records means, as `recover` reports it.
abbrev pub report_of : Bool → List WalRecord → Result RecoveryReport
report_of ignored rs = do jobs ← replay 1 rs []; ok (make_report ignored jobs)

-- A file of complete lines is recovered to what its records mean, and is left as it is: the first
-- record without a meaning fails the recovery, under the number of its line.
pub recover-log_of :
    (repair : Result (Unit {0})) (rs : List WalRecord)
    → All IsWalRecord rs
    → recover repair (log_of rs) ≡ (log_of rs, report_of false rs)
unfolding recover
recover-log_of repair rs w =
    rw (complete_tail (log_of rs) (log_of-EndsLine rs), recover_loop-log_of rs 1 [] w)

-- A torn line at the end is cut off and reported, and what stands before it is recovered.
pub recover_torn :
    (rs : List WalRecord) (tail : Bytes)
    → All IsWalRecord rs
    → tail ≢ []
    → Lacks b'\n' tail
    → recover (ok tt) (log_of rs ++ tail) ≡ (log_of rs, report_of true rs)
unfolding recover
recover_torn rs tail w e h = rw (
  incomplete_tail (log_of rs) tail e h,
  complete_lines-append (log_of rs) tail (log_of-EndsLine rs) h,
  recover_loop-log_of rs 1 [] w,
)
