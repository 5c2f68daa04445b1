-- ===== src/Guards.antt =====
-- src/config.rs: the checks of a statement's text and of identifiers that go into one. Texts are
-- bytes. `str::trim`, `trim_start` and `char::is_whitespace` are written for the ASCII blanks; a
-- statement with other Unicode white space is outside of this model.
pub mod Statements
pub mod Comments
pub mod LeadIn
mod Tests
use mcpg_plugin_backend_sql.Common.{
  ℕ, zero, suc, ◌+◌, ◌-◌, Bool, true, false, not, ◌&&◌, ◌||◌, List, [], ◌∷◌, ◌++◌, Option, none,
  some, Result, ok, err, all, any, map, leb, ◌==◌, if◌then◌else◌, Text, codes, text_eq,
  is_ascii_alphabetic, is_ascii_alphanumeric, length,
}

pub data Refusal : Type 0 where
  multiple_statements content_after_semicolon : Refusal
  privileged_leading : Text → Refusal
  privileged_ddl : Text → Text → Refusal

-- Tab, line feed, vertical tab, form feed, carriage return and space.
abbrev pub is_whitespace : ℕ → Bool
is_whitespace c = (leb 9 c && leb c 13) || (c == 32)

-- The loop of `reject_multi_statement`: the quotes, and the text behind the first unquoted `;`.
unfoldable pub scan_statement :
    (in_single in_double : Bool) → Option Text → Text → Result Refusal (Option Text)
scan_statement s d last [] = ok last
scan_statement s d last (c ∷ rest) =
    let quote = scan_statement (not s) d last rest in
    let double = scan_statement s (not d) last rest in
    let semi : Result Refusal (Option Text) = elim last [
      | none ↦ scan_statement s d (some rest) rest
      | some t ↦ err multiple_statements
    ] in
    let next = scan_statement s d last rest in
    if (c == b'\'') && not d
    then quote
    else if (c == b'"') && not s
    then double
    else if (c == b';') && not s && not d
    then semi
    else next

unfoldable pub check_tail : Option Text → Result Refusal (Unit {0})
check_tail none = ok tt
check_tail (some tail) =
    if any (λ c. not (is_whitespace c)) tail then err content_after_semicolon else ok tt

unfoldable pub after_scan : Result Refusal (Option Text) → Result Refusal (Unit {0})
after_scan (err e) = err e
after_scan (ok last) = check_tail last

unfoldable pub reject_multi_statement : Text → Result Refusal (Unit {0})
reject_multi_statement sql = after_scan (scan_statement false false none sql)

abbrev is_identifier_byte : ℕ → Bool
is_identifier_byte c = is_ascii_alphanumeric c || (c == b'_') || (c == b'.')

unfoldable pub is_safe_sql_identifier : Text → Bool
is_safe_sql_identifier [] = false
is_safe_sql_identifier (c ∷ s) =
    all is_identifier_byte (c ∷ s) && (is_ascii_alphabetic c || (c == b'_'))

unfoldable pub trim_start : Text → Text
trim_start [] = []
trim_start (c ∷ s) = let rest = trim_start s in if is_whitespace c then rest else c ∷ s

-- What follows the first line feed, or the first `*/`, if there is one.
unfoldable pub after_newline : Text → Option Text
after_newline [] = none
after_newline (c ∷ s) = let rest = after_newline s in if c == 10 then some s else rest

unfoldable pub after_close : Text → Option Text
after_close [] = none
after_close (c ∷ []) = none
after_close (c ∷ d ∷ s) =
    let rest = after_close (d ∷ s) in if (c == b'*') && (d == b'/') then some s else rest

-- What the text begins with, once its blanks are gone.
pub data Opening : Type 0 where
  line_comment block_comment : Text → Opening
  code_text : Text → Opening

unfoldable pub opening : Text → Opening
opening [] = code_text []
opening (c ∷ []) = code_text (c ∷ [])
opening (c ∷ d ∷ s) =
    if (c == b'-') && (d == b'-')
    then line_comment s
    else if (c == b'/') && (d == b'*')
    then block_comment s
    else code_text (c ∷ d ∷ s)

-- The loop of `strip_leading_whitespace_and_comments`; `none` if the fuel runs out first.
unfoldable pub strip_loop : ℕ → Text → Option Text
strip_loop zero s = none
strip_loop (suc fuel) s = elim (opening (trim_start s)) [
  | code_text t ↦ some t
  | line_comment t ↦ elim (after_newline t) [ none ↦ some [] | some rest ↦ strip_loop fuel rest ]
  | block_comment t ↦ elim (after_close t) [ none ↦ some [] | some rest ↦ strip_loop fuel rest ]
]

unfoldable pub strip_leading_whitespace_and_comments : Text → Option Text
strip_leading_whitespace_and_comments s = strip_loop (suc (length s)) s

-- The first piece of a split at bytes other than letters and `_`, and the bytes behind it.
unfoldable pub first_token : Text → Text × Text
first_token [] = ([], [])
first_token (c ∷ s) =
    let (t, rest) = first_token s in
    if is_ascii_alphabetic c || (c == b'_') then (c ∷ t, rest) else ([], c ∷ s)

abbrev pub to_ascii_uppercase : Text → Text
to_ascii_uppercase = map (λ c. if leb b'a' c && leb c b'z' then c - 32 else c)

unfoldable pub is_one_of : List Text → Text → Bool
is_one_of words t = any (λ w. text_eq w t) words

abbrev pub blocked_leading : List Text
blocked_leading = codes "GRANT" ∷ codes "REVOKE" ∷ []

abbrev pub ddl_verbs : List Text
ddl_verbs = codes "CREATE" ∷ codes "ALTER" ∷ codes "DROP" ∷ []

abbrev pub blocked_second : List Text
blocked_second = codes "USER" ∷ codes "ROLE" ∷ codes "DATABASE" ∷ codes "GROUP" ∷ []

unfoldable pub check_second : Text → Option Text → Option (Result Refusal (Unit {0}))
check_second first none = none
check_second first (some rest) =
    let second = to_ascii_uppercase (first_token rest).0 in
    some (if is_one_of blocked_second second then err (privileged_ddl first second) else ok tt)

unfoldable pub check_first : Text → Text → Option (Result Refusal (Unit {0}))
check_first first rest =
    if text_eq first []
    then some (ok tt)
    else if is_one_of blocked_leading first
    then some (err (privileged_leading first))
    else if is_one_of ddl_verbs first
    then check_second first (strip_leading_whitespace_and_comments rest)
    else some (ok tt)

unfoldable pub check_trimmed : Option Text → Option (Result Refusal (Unit {0}))
check_trimmed none = none
check_trimmed (some trimmed) =
    check_first (to_ascii_uppercase (first_token trimmed).0) (first_token trimmed).1

unfoldable pub reject_privileged_ddl : Text → Option (Result Refusal (Unit {0}))
reject_privileged_ddl sql = check_trimmed (strip_leading_whitespace_and_comments sql)
