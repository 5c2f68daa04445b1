-- ===== src/Pgoutput/Rows.antt =====
-- src/pgoutput.rs: `value_of` and `row_of`, over an interface for `serde_json`: its values, the
-- objects and arrays of texts, the parse of a JSON text, and the parse of a finite float as a number. `str::parse::<i64>` is written
-- out.
use mcpg_plugin_backend_sql.Common.{
  ℕ, ◌+◌, ◌-◌, ◌^◌, Bool, true, false, not, ◌&&◌, ◌||◌, List, [], ◌∷◌, ◌++◌, Option, none, some,
  Text, codes, text_eq, ◌==◌, if◌then◌else◌,
}
use mcpg_plugin_backend_sql.Common.Int.{ℤ, pos, negsuc}
use mcpg_plugin_backend_sql.Common.Radix.{scan}
use mcpg_plugin_backend_sql.Common.TextMaps.{insert}
use mcpg_plugin_backend_sql.Pgoutput.Decode.{Column, Relation, Datum, null, unchanged, text}

pub record Json : Type 1 where
  pub Value : Type 0
  pub null_value : Value
  pub of_bool : Bool → Value
  pub of_int : ℤ → Value
  pub of_text : Text → Value
  pub finite_f64 : Text → Option Value
  pub from_str : Text → Option Value
  pub of_object : List (Text × Value) → Value
  pub of_texts : List Text → Value

abbrev negated : ℕ → ℤ
negated n = if n == 0 then pos 0 else negsuc (n - 1)

-- Digits behind the sign: a magnitude below 2 ^ 63, or up to 2 ^ 63 when negative.
parse_digits : Bool → Text → Option ℤ
parse_digits minus [] = none
parse_digits false (c ∷ s) = elim (scan 10 (2 ^ 63) (c ∷ s) 0) [
  | none ↦ none
  | some n ↦ some (pos n)
]
parse_digits true (c ∷ s) = elim (scan 10 (2 ^ 63 + 1) (c ∷ s) 0) [
  | none ↦ none
  | some n ↦ some (negated n)
]

unfoldable pub parse_i64 : Text → Option ℤ
unfolding parse_digits
parse_i64 [] = none
parse_i64 (c ∷ s) =
    if c == b'-'
    then parse_digits true s
    else if c == b'+'
    then parse_digits false s
    else parse_digits false (c ∷ s)

module _ (j : Json) where
  or_text : Text → Option j.Value → j.Value
  or_text s none = j.of_text s
  or_text s (some v) = v

  int_or_text : Text → Option ℤ → j.Value
  int_or_text s none = j.of_text s
  int_or_text s (some n) = j.of_int n

  unfoldable pub value_of : ℕ → Text → j.Value
  unfolding or_text int_or_text parse_i64
  value_of oid s =
      if oid == 16
      then j.of_bool (text_eq s (codes "t"))
      else if (oid == 20) || (oid == 21) || (oid == 23) || (oid == 26)
      then int_or_text s (parse_i64 s)
      else if (oid == 700) || (oid == 701)
      then or_text s (j.finite_f64 s)
      else if (oid == 114) || (oid == 3802)
      then or_text s (j.from_str s)
      else j.of_text s

  abbrev pub Row : Type 0
  Row = List (Text × j.Value)

  -- One column of the loop: the row so far, and the columns left unchanged.
  put_column : Column → Datum → Row × List Text → Row × List Text
  put_column c null (row, un) = (insert c.name j.null_value row, un)
  put_column c unchanged (row, un) = (row, un ++ c.name ∷ [])
  put_column c (text s) (row, un) = (insert c.name (value_of c.type_oid s) row, un)

  row_loop : List Column → List Datum → Bool → Row × List Text → Row × List Text
  row_loop [] ds keys_only acc = acc
  row_loop (c ∷ cs) [] keys_only acc = acc
  row_loop (c ∷ cs) (d ∷ ds) keys_only acc =
      row_loop cs ds keys_only (if keys_only && not c.key then acc else put_column c d acc)

  unfoldable pub row_of : Relation → List Datum → Bool → Row × List Text
  unfolding put_column row_loop value_of insert
  row_of relation datums keys_only = row_loop relation.columns datums keys_only ([], [])
