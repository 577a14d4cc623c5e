-- ===== src/Protocol/Token.antt =====
-- `tokenize_command` of src/protocol.cpp, and what it makes of quoted words.
use omni_sched.Base.{
  ℕ, Bytes, text, is_empty, Bool, true, false, List, [], ◌∷◌, ◌++◌, ◌≡◌, ◌≢◌, refl, ◌||◌, ◌&&◌, not,
  leb, ◌==◌, if◌then◌else◌, All-append, Bool-cases, inl, inr, ok-injective, invalid_argument,
  Result, ok, err, All, append_assoc, append-nil, arith,
}

-- The local variables of the loop. `quote` is 0 outside quotes.
pub record Scan : Type 0 where
  pub tokens : List Bytes
  pub current : Bytes
  pub quote : ℕ
  pub escaped : Bool

-- `std::isspace` in the "C" locale.
unfoldable pub is_space : ℕ → Bool
is_space c = c == b' ' || (leb 9 c && leb c 13)

-- A word is complete, unless it is empty.
unfoldable pub flush : Scan → Scan
flush s =
    if is_empty s.current then s else record s { tokens = s.tokens ++ s.current ∷ []; current = [] }

-- One round of the loop.
unfoldable pub step : Scan → ℕ → Scan
step s value =
    if s.escaped
    then record s { current = s.current ++ value ∷ []; escaped = false }
    else if value == b'\\'
    then record s { escaped = true }
    else if not (s.quote == 0)
    then (if value == s.quote
        then record s { quote = 0 }
        else record s { current = s.current ++ value ∷ [] })
    else if value == b'\'' || value == b'"'
    then record s { quote = value }
    else if is_space value
    then flush s
    else record s { current = s.current ++ value ∷ [] }

unfoldable pub scan : Scan → Bytes → Scan
scan s [] = s
scan s (value ∷ rest) = scan (step s value) rest

-- After the loop.
unfoldable pub finish : Scan → Result (List Bytes)
finish s =
    if s.escaped || not (s.quote == 0)
    then err (invalid_argument (text "unfinished escape or quote in command"))
    else ok (flush s).tokens

unfoldable pub tokenize_command : Bytes → Result (List Bytes)
tokenize_command command_line =
    let start : Scan = record { tokens = []; current = []; quote = 0; escaped = false } in
    finish (scan start command_line)

-- Between two words.
abbrev at_rest : List Bytes → Bytes → Scan
at_rest tokens current = record { tokens = tokens; current = current; quote = 0; escaped = false }

abbrev in_quotes : List Bytes → Bytes → Scan
in_quotes tokens current = record {
  tokens = tokens;
  current = current;
  quote = b'"';
  escaped = false;
}

-- A word as a user would quote it: in double quotes, with a backslash before each double quote and
-- each backslash.
hide : ℕ → Bytes
hide c = if c == b'\\' || c == b'"' then b'\\' ∷ c ∷ [] else c ∷ []

escape : Bytes → Bytes
escape [] = []
escape (c ∷ s) = hide c ++ escape s

pub quoted : Bytes → Bytes
unfolding escape hide
quoted word = b'"' ∷ (escape word ++ b'"' ∷ [])

-- Words in quotes, each with a space behind it.
pub command_of : List Bytes → Bytes
unfolding quoted
command_of [] = []
command_of (word ∷ words) = quoted word ++ b' ' ∷ command_of words

scan-append : (s : Scan) (p q : Bytes) → scan s (p ++ q) ≡ scan (scan s p) q
unfolding scan
scan-append s [] q = refl
scan-append s (c ∷ p) q = scan-append (step s c) p q

scan-hide :
    (tokens : List Bytes) (current : Bytes) (c : ℕ)
    → scan (in_quotes tokens current) (hide c) ≡ in_quotes tokens (current ++ c ∷ [])
unfolding scan step hide
scan-hide tokens current c = ground arith

scan-escape :
    (word : Bytes) (tokens : List Bytes) (current : Bytes)
    → scan (in_quotes tokens current) (escape word) ≡ in_quotes tokens (current ++ word)
unfolding escape
scan-escape [] tokens current = rw append-nil (unfold scan in refl)
scan-escape (c ∷ word) tokens current = rw (
  scan-append _ (hide c) (escape word),
  scan-hide tokens current c,
  scan-escape word tokens (current ++ c ∷ []),
  append_assoc,
)

scan_open :
    (tokens : List Bytes) (rest : Bytes)
    → scan (at_rest tokens []) (b'"' ∷ rest) ≡ scan (in_quotes tokens []) rest
unfolding scan step
scan_open tokens rest = refl

scan_close :
    (tokens : List Bytes) (word : Bytes)
    → word ≢ []
    → scan (in_quotes tokens word) (b'"' ∷ b' ' ∷ []) ≡ at_rest (tokens ++ word ∷ []) []
unfolding scan step flush is_space
scan_close tokens [] h = absurd (h refl)
scan_close tokens (c ∷ word) h = refl

scan-quoted :
    (word : Bytes) (tokens : List Bytes)
    → word ≢ []
    → scan (at_rest tokens []) (quoted word ++ b' ' ∷ []) ≡ at_rest (tokens ++ word ∷ []) []
unfolding quoted
scan-quoted word tokens h =
    rw
      (
        scan_open tokens,
        append_assoc (escape word) (b'"' ∷ []) (b' ' ∷ []),
        scan-append (in_quotes tokens []) (escape word) (b'"' ∷ b' ' ∷ []),
        scan-escape word tokens [],
      )
      (scan_close tokens word h)

command_of-cons :
    (w : Bytes) (words : List Bytes)
    → command_of (w ∷ words) ≡ (quoted w ++ b' ' ∷ []) ++ command_of words
unfolding command_of
command_of-cons w words = simp append_assoc

scan-command_of :
    (words tokens : List Bytes)
    → All (λ w. w ≢ []) words
    → scan (at_rest tokens []) (command_of words) ≡ at_rest (tokens ++ words) []
scan-command_of [] tokens h = rw append-nil (unfold scan command_of in refl)
scan-command_of (w ∷ words) tokens h = rw (
  command_of-cons w words,
  scan-append (at_rest tokens []) (quoted w ++ b' ' ∷ []) (command_of words),
  scan-quoted w tokens h.0,
  scan-command_of words (tokens ++ w ∷ []) h.1,
  append_assoc tokens (w ∷ []) words,
)

-- Words that are quoted, none of them empty, are read back as the words, whatever they hold.
pub tokenize-command_of :
    (words : List Bytes) → All (λ w. w ≢ []) words → tokenize_command (command_of words) ≡ ok words
unfolding tokenize_command
tokenize-command_of words h = rw (scan-command_of words [] h) (unfold finish flush in refl)

-- What the loop keeps: the complete words are not empty.
abbrev NoEmpty : Scan → Type 0
NoEmpty s = All (λ w. w ≢ []) s.tokens

flush-NoEmpty :
    (tokens : List Bytes) (current : Bytes) (q : ℕ) (e : Bool)
    → All (λ w. w ≢ []) tokens
    → NoEmpty (flush (record { tokens = tokens; current = current; quote = q; escaped = e }))
unfolding flush
flush-NoEmpty tokens [] q e h = h
flush-NoEmpty tokens (c ∷ current) q e h =
    All-append _ tokens ((c ∷ current) ∷ []) h ((λ e. cc), tt)

step-NoEmpty : (s : Scan) (c : ℕ) → NoEmpty s → NoEmpty (step s c)
unfolding step
step-NoEmpty s c h = ground (arith, flush-NoEmpty s.tokens s.current s.quote s.escaped h)

scan-NoEmpty : (s : Scan) (line : Bytes) → NoEmpty s → NoEmpty (scan s line)
unfolding scan
scan-NoEmpty s [] h = h
scan-NoEmpty s (c ∷ line) h = scan-NoEmpty (step s c) line (step-NoEmpty s c h)

finish-NoEmpty :
    (s : Scan) {tokens : List Bytes} → NoEmpty s → finish s ≡ ok tokens → All (λ w. w ≢ []) tokens
unfolding finish
finish-NoEmpty s n h = elim (Bool-cases (s.escaped || not (s.quote == 0))) [
  | inl e ↦ absurd (cc (rw e at h))
  | inr e ↦ rw (ok-injective (rw e at h)) at (flush-NoEmpty s.tokens s.current s.quote s.escaped n)
]

-- No token of an accepted command is empty: an empty pair of quotes makes none.
pub tokenize_no_empty :
    (line : Bytes) {tokens : List Bytes}
    → tokenize_command line ≡ ok tokens
    → All (λ w. w ≢ []) tokens
unfolding tokenize_command
tokenize_no_empty line h = finish-NoEmpty _ (scan-NoEmpty _ line tt) h
