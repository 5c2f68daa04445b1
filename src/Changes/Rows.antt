-- ===== src/Changes/Rows.antt =====
-- src/watch_changes.rs: the arguments of a page, the key and the event of a row, the position that a
-- stored cursor names. Slicing and indexing out of range panic in the source: here they are `none`.
-- The names of the placeholders are ASCII, so a slice never splits a character.
use mcpg_plugin_backend_sql.Common.{
  ℕ, zero, suc, ◌+◌, ◌-◌, ◌/◌, not, ◌||◌, List, [], ◌∷◌, ◌++◌, Option, none, some, Result, ok, err,
  ◌&&◌, length, take, ltb, leb, ◌==◌, if◌then◌else◌, Text, codes, text_eq,
}
use mcpg_plugin_backend_sql.Common.Options.{◌>>=◌}
use mcpg_plugin_backend_sql.Common.Int.{ℤ, pos, negsuc}
use mcpg_plugin_backend_sql.Params.{BoundParam}
use mcpg_plugin_backend_sql.Changes.{
  Env, ChangeOp, insert_op, update_op, delete_op, Cursor, WatchEvent, Plan, event_type_text,
  limit_placeholder, settle_placeholder, after_prefix, cursor_version,
}

pub data ResumeRefusal : Type 0 where
  not_a_position position_does_not_fit : ResumeRefusal

-- `a - b`, for an `a` far from the ends of `i64`.
unfoldable pub minus : ℤ → ℕ → ℤ
minus (pos a) b = if ltb a b then negsuc (b - a - 1) else pos (a - b)
minus (negsuc a) b = negsuc (a + b)

-- `Option<Duration>` in milliseconds, to whole seconds.
unfoldable pub settle_secs : Option ℕ → ℕ
settle_secs none = 0
settle_secs (some ms) = ms / 1000

-- `&s[n..]`.
unfoldable pub slice_from : ℕ → Text → Option Text
slice_from zero s = some s
slice_from (suc n) [] = none
slice_from (suc n) (c ∷ s) = slice_from n s

unfoldable pub position : Text → List Text → Option ℕ
position column [] = none
position column (c ∷ cs) =
    let later = position column cs in
    if text_eq c column then some 0 else elim later [ none ↦ none | some i ↦ some (suc i) ]

-- `values[index]`.
unfoldable pub get_elem? {ℓ} : {A : Type ℓ} → ℕ → List A → Option A
get_elem? i [] = none
get_elem? zero (v ∷ vs) = some v
get_elem? (suc i) (v ∷ vs) = get_elem? i vs

unfoldable pub unwrap_or_default : Option ℕ → ℕ
unwrap_or_default none = 0
unwrap_or_default (some i) = i

-- `ChangeOp::of`, on the text in lower case.
unfoldable pub op_named : Text → Option ChangeOp
op_named s =
    if text_eq s (codes "insert")
    then some insert_op
    else if text_eq s (codes "update")
    then some update_op
    else if text_eq s (codes "delete")
    then some delete_op
    else none

unfoldable pub to_ascii_lowercase : Text → Text
to_ascii_lowercase [] = []
to_ascii_lowercase (c ∷ s) = (if leb b'A' c && leb c b'Z' then c + 32 else c) ∷ to_ascii_lowercase s

module _ (env : Env) where
  unfoldable pub change_op_of : env.Value → Option ChangeOp
  change_op_of v = elim (env.as_str v) [ none ↦ none | some s ↦ op_named (to_ascii_lowercase s) ]

  unfoldable pub key_argument : Plan env.Value → List env.Value → Option Text → Option env.Value
  key_argument plan key none = none
  key_argument plan key (some column) =
      get_elem? (unwrap_or_default (position column plan.key_columns)) key

  unfoldable pub page_value : Plan env.Value → List env.Value → ℤ → Text → Option env.Value
  page_value plan key now_secs name =
      if text_eq name limit_placeholder
      then some (env.of_int (pos plan.batch_size))
      else if text_eq name settle_placeholder
      then some (env.of_int (minus now_secs (settle_secs plan.settle)))
      else key_argument plan key (slice_from (length after_prefix) name)

  unfoldable pub page_args_loop :
      Plan env.Value → List env.Value → ℤ → List Text → Option (List (BoundParam env.Value))
  page_args_loop plan key now_secs [] = some []
  page_args_loop plan key now_secs (name ∷ names) = do
    value ← page_value plan key now_secs name
    rest ← page_args_loop plan key now_secs names
    some (record { name = name; value = value } ∷ rest)

  unfoldable pub page_args :
      Plan env.Value → List env.Value → ℤ → Option (List (BoundParam env.Value))
  page_args plan key now_secs = page_args_loop plan key now_secs plan.stmt.param_order

  unfoldable pub not_null : Option env.Value → Option env.Value
  not_null none = none
  not_null (some v) = if env.is_null v then none else some v

  unfoldable pub row_key_loop : List Text → env.Value → Option (List env.Value)
  row_key_loop [] row = some []
  row_key_loop (c ∷ cs) row = do
    v ← not_null (env.get row c)
    rest ← row_key_loop cs row
    some (v ∷ rest)

  unfoldable pub row_key : Plan env.Value → env.Value → Option (List env.Value)
  row_key plan row = row_key_loop plan.key_columns row

  -- RFC 3339 text, then the two naive formats.
  parse_text : Text → Option env.Instant
  parse_text s = elim (env.parse_rfc3339 s) [
    | some t ↦ some t
    | none ↦ elim (env.parse_naive (codes "%Y-%m-%dT%H:%M:%S%.f") s) [
      | some t ↦ some t
      | none ↦ env.parse_naive (codes "%Y-%m-%d %H:%M:%S%.f") s
    ]
  ]

  parse_seconds : env.Value → Option env.Instant
  parse_seconds value = do n ← env.as_i64 value; env.from_timestamp n

  unfoldable pub occurred_at_of : env.Value → Option Text
  unfolding parse_text parse_seconds
  occurred_at_of value = do
    at ← elim (env.as_str value) [ some s ↦ parse_text s | none ↦ parse_seconds value ]
    some (env.to_rfc3339 at)

  unfoldable pub row_occurred_at : Plan env.Value → env.Value → Option Text
  row_occurred_at plan row = do
    column ← plan.occurred_at_column
    v ← env.get row column
    occurred_at_of v

  unfoldable pub row_op : Plan env.Value → env.Value → Option ChangeOp
  row_op plan row = elim plan.op_column [
    | none ↦ some insert_op
    | some column ↦ do v ← env.get row column; change_op_of v
  ]

  or_empty : Option Text → Text
  or_empty none = []
  or_empty (some s) = s

  -- The hash is of the URI, a zero byte and the key's JSON.
  unfoldable pub row_event_id : Text → List env.Value → Text
  unfolding or_empty
  row_event_id uri key =
      codes "row-" ++ take 32 (env.hex_hash (uri ++ 0 ∷ [] ++ or_empty (env.to_string key)))

  unfoldable pub row_event :
      Plan env.Value → Text → env.Value → List env.Value → Option (WatchEvent env.Value)
  row_event plan uri row key = do
    op ← row_op plan row
    some (record {
      event_id = some (row_event_id uri key);
      event_type = some event_type_text;
      occurred_at = row_occurred_at plan row;
      event_data = some (env.of_change op row);
      upstream_cursor = env.from_cursor (record { v = cursor_version; k = key });
    })

  unfoldable pub check_cursor :
      Plan env.Value → Cursor env.Value → Result ResumeRefusal (List env.Value)
  check_cursor plan cursor =
      if not (cursor.v == cursor_version) || not (length cursor.k == length plan.key_columns)
      then err position_does_not_fit
      else ok cursor.k

  unfoldable pub resume_key : Plan env.Value → env.Value → Result ResumeRefusal (List env.Value)
  resume_key plan resume = elim (env.to_cursor resume) [
    | none ↦ err not_a_position
    | some cursor ↦ check_cursor plan cursor
  ]
