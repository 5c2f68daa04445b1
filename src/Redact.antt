-- ===== src/Redact.antt =====
-- src/redact.rs: passwords of URLs are taken out of messages. The `url` crate is a parameter.
-- `split_whitespace` is written for the ASCII blanks.
pub mod Passwords
mod Tests
use mcpg_plugin_backend_sql.Common.{
  ℕ, Bool, true, false, List, [], ◌∷◌, ◌++◌, Option, none, some, ◌==◌, any, map, if◌then◌else◌,
  Text, codes,
}
use mcpg_plugin_backend_sql.Guards.{is_whitespace}

-- `Url::parse`, `password`, `set_password` with its answer and the URL that it changed, and
-- `to_string`.
pub record UrlLibrary : Type 1 where
  pub Url : Type 0
  pub parse : Text → Option Url
  pub password : Url → Option Text
  pub set_password : Text → Url → Option Url
  pub to_text : Url → Text

pub data Cow : Type 0 where
  borrowed owned : Text → Cow

unfoldable pub into_owned : Cow → Text
into_owned (borrowed s) = s
into_owned (owned s) = s

abbrev pub mask : Text
mask = codes "***"

-- `.`, `,`, `;`, `:`, `)`, `]`, `}` and the two quotes.
unfoldable pub is_punct : ℕ → Bool
is_punct c = any (λ p. c == p) (46 ∷ 44 ∷ 59 ∷ 58 ∷ 41 ∷ 93 ∷ 125 ∷ 34 ∷ 39 ∷ [])

-- A byte, which is punctuation or not, in front of a split token.
unfoldable pub in_front : ℕ → Text × Text → Bool → Text × Text
in_front c ([], trail) true = ([], c ∷ trail)
in_front c ([], trail) false = (c ∷ [], trail)
in_front c (d ∷ core, trail) p = (c ∷ d ∷ core, trail)

-- The token without the longest run of punctuation at its end, and that run.
unfoldable pub split_trailing_punct : Text → Text × Text
split_trailing_punct [] = ([], [])
split_trailing_punct (c ∷ s) = in_front c (split_trailing_punct s) (is_punct c)

unfoldable pub flush : Text × List Text → List Text
flush ([], words) = words
flush (c ∷ word, words) = (c ∷ word) ∷ words

-- The word that the text begins with, if it does, and the words behind it.
unfoldable pub scan_words : Text → Text × List Text
scan_words [] = ([], [])
scan_words (c ∷ s) =
    let (word, words) = scan_words s in
    if is_whitespace c then ([], flush (word, words)) else (c ∷ word, words)

unfoldable pub split_whitespace : Text → List Text
split_whitespace s = flush (scan_words s)

-- `join(" ")`.
unfoldable pub join : List Text → Text
join [] = []
join (w ∷ []) = w
join (w ∷ v ∷ ws) = w ++ b' ' ∷ join (v ∷ ws)

module _ (url : UrlLibrary) where
  unfoldable pub replaced : Text → Option url.Url → Cow
  replaced s none = borrowed s
  replaced s (some u) = owned (url.to_text u)

  unfoldable pub with_password : Text → url.Url → Option Text → Cow
  with_password s u none = borrowed s
  with_password s u (some []) = borrowed s
  with_password s u (some (c ∷ pw)) = replaced s (url.set_password mask u)

  unfoldable pub redact_parsed : Text → Option url.Url → Cow
  redact_parsed s none = borrowed s
  redact_parsed s (some u) = with_password s u (url.password u)

  unfoldable pub redact_password : Text → Cow
  redact_password s = redact_parsed s (url.parse s)

  unfoldable pub put_back : Text → Text → Cow → Text
  put_back tok trail (borrowed s) = tok
  put_back tok trail (owned r) = r ++ trail

  unfoldable pub redact_token : Text → Text
  redact_token tok =
      let (core, trail) = split_trailing_punct tok in put_back tok trail (redact_password core)

  unfoldable pub redact_in_text : Text → Text
  redact_in_text text = join (map redact_token (split_whitespace text))
