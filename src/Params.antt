-- ===== src/Params.antt =====
-- src/params.rs: the rewriting of named placeholders, the CALL statement, and the arguments bound.
-- `rewrite_placeholders` walks the bytes of the statement; `out.push(c as char)` of a byte above 127
-- writes the two bytes of that code point. The walk of `rewrite_placeholders` has two indices: here
-- the bytes left, and for the inner loop the identifier behind the colon.
pub mod Names
pub mod Rounds
pub mod Pieces
pub mod Binding
mod Tests
use mcpg_plugin_backend_sql.Common.{
  ℕ, zero, suc, ◌+◌, ◌/◌, ◌%◌, Bool, true, false, not, ◌&&◌, ◌||◌, List, [], ◌∷◌, ◌++◌, Option,
  none, some, Result, ok, err, ◌>>=◌, length, ltb, ◌==◌, if◌then◌else◌, Text, codes,
  is_ascii_alphanumeric,
}
use mcpg_plugin_backend_sql.Common.Radix.{format}
use mcpg_plugin_backend_sql.Common.TextMaps.{lookup}

-- src/config.rs: `DriverKind`.
pub data DriverKind : Type 0 where
  postgres mysql mariadb sqlite : DriverKind

unfoldable pub is_name_byte : ℕ → Bool
is_name_byte c = is_ascii_alphanumeric c || (c == b'_')

-- `c as char`, pushed on a `String`.
unfoldable pub push_char : ℕ → Text
push_char c = if ltb c 128 then c ∷ [] else (192 + c / 64) ∷ (128 + c % 64) ∷ []

-- The identifier at the front, and what follows it.
unfoldable pub name_at : Text → Text × Text
name_at [] = ([], [])
name_at (c ∷ s) =
    let (name, rest) = name_at s in if is_name_byte c then (c ∷ name, rest) else ([], c ∷ s)

unfoldable pub placeholder : DriverKind → ℕ → Text
placeholder postgres n = b'$' ∷ format 10 n
placeholder mysql n = b'?' ∷ []
placeholder mariadb n = b'?' ∷ []
placeholder sqlite n = b'?' ∷ []

pub record Scan : Type 0 where
  pub out : Text
  pub order : List Text
  pub in_single_quote : Bool
  pub in_double_quote : Bool

abbrev pub initial_scan : Scan
initial_scan = record { out = []; order = []; in_single_quote = false; in_double_quote = false }

-- A name behind a colon, or a lone colon.
unfoldable pub bind_name : DriverKind → Text → Scan → Scan
bind_name d [] s = record s { out = s.out ++ b':' ∷ [] }
bind_name d (c ∷ name) s = record s {
  out = s.out ++ placeholder d (length s.order + 1);
  order = s.order ++ (c ∷ name) ∷ [];
}

-- `::` is a cast. Otherwise the name goes to the placeholder and the walk goes on behind it.
unfoldable pub colon : DriverKind → Text → Scan → Scan × Text
colon d [] s = (bind_name d [] s, [])
colon d (c ∷ rest) s =
    let (name, after) = name_at (c ∷ rest) in
    if c == b':'
    then (record s { out = s.out ++ b':' ∷ b':' ∷ [] }, rest)
    else (bind_name d name s, after)

-- One round of the walk: the byte at the front, and the bytes behind it.
unfoldable pub round : DriverKind → ℕ → Text → Scan → Scan × Text
round d c rest s =
    if (c == b'\'') && not s.in_double_quote
    then (record s { out = s.out ++ c ∷ []; in_single_quote = not s.in_single_quote }, rest)
    else if (c == b'"') && not s.in_single_quote
    then (record s { out = s.out ++ c ∷ []; in_double_quote = not s.in_double_quote }, rest)
    else if (c == b':') && not s.in_single_quote && not s.in_double_quote
    then colon d rest s
    else (record s { out = s.out ++ push_char c }, rest)

-- The loop, with a round for each byte at most; `none` if the fuel runs out first.
unfoldable pub walk : DriverKind → ℕ → Text → Scan → Option Scan
walk d fuel [] s = some s
walk d zero (c ∷ rest) s = none
walk d (suc fuel) (c ∷ rest) s = walk d fuel (round d c rest s).1 (round d c rest s).0

unfoldable pub rewritten : Option Scan → Option (Text × List Text)
rewritten none = none
rewritten (some s) = some (s.out, s.order)

unfoldable pub rewrite_placeholders : Text → DriverKind → Option (Text × List Text)
rewrite_placeholders sql d = rewritten (walk d (length sql) sql initial_scan)

-- The placeholders of `CALL`, from the i-th on, joined by ", ".
call_placeholders : DriverKind → ℕ → ℕ → Text
call_placeholders d i zero = []
call_placeholders d i (suc zero) = placeholder d i
call_placeholders d i (suc (suc n)) =
    placeholder d i ++ b',' ∷ b' ' ∷ call_placeholders d (i + 1) (suc n)

unfoldable pub call_statement : Text → ℕ → DriverKind → Text
unfolding call_placeholders placeholder
call_statement procedure arity d =
    codes "CALL " ++ procedure ++ b'(' ∷ (call_placeholders d 1 arity ++ b')' ∷ [])

-- `serde_json::Value` as far as this file asks: an object's entries, null, or anything else.
pub data Args (V : Type 0) : Type 0 where
  object : List (Text × V) → Args V
  null : Args V
  other : Args V

pub record BoundParam (V : Type 0) : Type 0 where
  pub name : Text
  pub value : V

pub data BindError : Type 0 where
  not_an_object : BindError
  no_arguments : Text → BindError
  missing_parameter : Text → BindError

module _ {V : Type 0} where
  bind_each : List (Text × V) → List Text → Result BindError (List (BoundParam V))
  bind_each m [] = ok []
  bind_each m (name ∷ names) = elim (lookup name m) [
    | none ↦ err (missing_parameter name)
    | some v ↦ do rest ← bind_each m names; ok (record { name = name; value = v } ∷ rest)
  ]

  unfoldable pub collect_bound_params : Args V → List Text → Result BindError (List (BoundParam V))
  unfolding bind_each
  collect_bound_params (object m) order = bind_each m order
  collect_bound_params null [] = ok []
  collect_bound_params null (name ∷ names) = err (no_arguments name)
  collect_bound_params other order = err not_an_object
