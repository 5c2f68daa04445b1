-- ===== src/Guards/Statements.antt =====
-- src/config.rs: what `reject_multi_statement` and `is_safe_sql_identifier` accept.
use mcpg_plugin_backend_sql.Common.{
  ℕ, ◌≡◌, ◌≢◌, refl, sym, ap, ◌∙◌, Bool, true, false, not, ◌&&◌, List, [], ◌∷◌, ◌++◌, Option, none,
  some, Result, ok, err, All, all, any, ◌==◌, if◌then◌else◌, arith, Text, codes,
}
use mcpg_plugin_backend_sql.Guards.{
  Refusal, is_whitespace, scan_statement, check_tail, after_scan, reject_multi_statement,
  is_identifier_byte, is_safe_sql_identifier,
}

-- The quotes that are open behind a text, by SQL's rule: each kind opens and closes outside the
-- other. It is not code of the repository.
unfoldable pub quotes : Bool → Bool → Text → Bool × Bool
quotes s d [] = (s, d)
quotes s d (c ∷ rest) =
    let single = quotes (not s) d rest in
    let double = quotes s (not d) rest in
    let same = quotes s d rest in
    if (c == b'\'') && not d then single else if (c == b'"') && not s then double else same

scan_statement-some :
    (s d : Bool) (t rest : Text) (r : Option Text)
    → scan_statement s d (some t) rest ≡ ok r
    → r ≡ some t
unfolding scan_statement
scan_statement-some s d t [] r h = cc
scan_statement-some s d t (c ∷ rest) r h = ground (
  arith,
  scan_statement-some (not s) d t rest r,
  scan_statement-some s (not d) t rest r,
  scan_statement-some s d t rest r,
)

scan_statement-split :
    (s d : Bool) (last : Option Text) (before after : Text) (r : Option Text)
    → quotes s d before ≡ (false, false)
    → scan_statement s d last (before ++ b';' ∷ after) ≡ ok r
    → (last ≡ none) × (r ≡ some after)
unfolding scan_statement quotes
scan_statement-split true d last [] after r q h = absurd cc
scan_statement-split false true last [] after r q h = absurd cc
scan_statement-split false false (some t) [] after r q h = absurd cc
scan_statement-split false false none [] after r q h =
    (refl, scan_statement-some false false after after r h)
scan_statement-split s d none (c ∷ before) after r q h = ground (
  arith,
  scan_statement-split (not s) d none before after r,
  scan_statement-split s (not d) none before after r,
  scan_statement-split s d none before after r,
  scan_statement-split s d (some (before ++ b';' ∷ after)) before after r,
)
scan_statement-split s d (some t) (c ∷ before) after r q h = ground (
  arith,
  scan_statement-split (not s) d (some t) before after r,
  scan_statement-split s (not d) (some t) before after r,
  scan_statement-split s d (some t) before after r,
)

any-false :
    (s : Text) → any (λ c. not (is_whitespace c)) s ≡ false → All (λ c. is_whitespace c ≡ true) s
any-false [] h = tt
any-false (c ∷ s) h = (ground arith, any-false s (ground arith))

check_tail-blank :
    (after : Text) → check_tail (some after) ≡ ok tt → All (λ c. is_whitespace c ≡ true) after
unfolding check_tail
check_tail-blank after h = any-false after (ground arith)

after_scan-ok :
    (scanned : Result Refusal (Option Text))
    → after_scan scanned ≡ ok tt
    → (r : Option Text) × (scanned ≡ ok r) × (check_tail r ≡ ok tt)
unfolding after_scan
after_scan-ok (ok r) h = (r, refl, h)
after_scan-ok (err e) h = absurd cc

-- In an accepted statement, what follows a `;` outside quotes is blank.
pub reject_multi_statement-ends :
    (before after : Text)
    → reject_multi_statement (before ++ b';' ∷ after) ≡ ok tt
    → quotes false false before ≡ (false, false)
    → All (λ c. is_whitespace c ≡ true) after
unfolding reject_multi_statement
reject_multi_statement-ends before after h q =
    let (r, scanned, tail) = after_scan-ok _ h in
    let (fresh, same) = scan_statement-split false false none before after r q scanned in
    check_tail-blank after (sym (ap check_tail same) ∙ tail)

hidden :
    (d : Bool) (last : Option Text) (s : Text)
    → All (λ c. c ≢ b'\'') s
    → scan_statement true false last s ≡ ok last
unfolding scan_statement
hidden d last [] a = refl
hidden d last (c ∷ s) a = ground (arith, hidden d last s a.1, a.0)

-- An apostrophe in a line comment in front hides every separator of a text without apostrophes: the
-- check takes it for an open quote, and accepts the text whatever its statements are.
pub reject_multi_statement-comment_apostrophe :
    (s : Text) → All (λ c. c ≢ b'\'') s → reject_multi_statement (codes "--'" ++ 10 ∷ s) ≡ ok tt
unfolding reject_multi_statement scan_statement after_scan check_tail
reject_multi_statement-comment_apostrophe s a = ap after_scan (hidden false none s a)

-- The bytes that end an identifier's position in a statement: quotes, blanks, separators, brackets,
-- and what comments and placeholders begin with.
abbrev pub breakers : List ℕ
breakers = codes "'\"`; \t\n()-/*,:$?@="

abbrev pub IsNot : ℕ → List ℕ → Type 0
IsNot c bs = All (λ b. c ≢ b) bs

identifier_byte-IsNot : (c : ℕ) → is_identifier_byte c ≡ true → IsNot c breakers
identifier_byte-IsNot c h = ground arith

all-All :
    {Q : ℕ → Type 0} (p : ℕ → Bool) (s : Text)
    → ((c : ℕ) → p c ≡ true → Q c)
    → all p s ≡ true
    → All Q s
all-All p [] f h = tt
all-All p (c ∷ s) f h = (f c (ground arith), all-All p s f (ground arith))

-- An accepted identifier is not empty and has none of the bytes that could end its position in a
-- statement.
pub is_safe_sql_identifier-IsNot :
    (s : Text) → is_safe_sql_identifier s ≡ true → (s ≢ []) × All (λ c. IsNot c breakers) s
unfolding is_safe_sql_identifier
is_safe_sql_identifier-IsNot [] h = absurd cc
is_safe_sql_identifier-IsNot (c ∷ s) h =
    ((λ e. cc), all-All is_identifier_byte (c ∷ s) identifier_byte-IsNot (ground arith))
