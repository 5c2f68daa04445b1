-- ===== src/Shaping.antt =====
-- src/lib.rs: `shape_response` with its `resource_contents`, `batch_to_resource_page` and
-- `cursor_value_to_string`, and the two classifications of errors. JSON is the record `Json`; a
-- message is a constructor with the index of the row. Counts fit 64 bits.
pub mod Contents
pub mod Truncation
pub mod Listing
mod Tests
use mcpg_plugin_backend_sql.Common.{
  ℕ, suc, ◌+◌, Bool, true, false, not, ◌&&◌, List, [], ◌∷◌, ◌++◌, Option, none, some, Result, ok,
  err, length, take, ltb, if◌then◌else◌, Text, codes,
}
use mcpg_plugin_backend_sql.Common.Options.{◌>>=◌}
use mcpg_plugin_backend_sql.Common.Radix.{format}
use mcpg_plugin_backend_sql.Common.TextMaps.{lookup, insert}
use mcpg_plugin_backend_sql.Errors.{
  SqlError, execute, prepare, driver, is_stale_statement_error, BackendError,
}
use mcpg_plugin_backend_sql.Errors as Errors
use mcpg_plugin_backend_sql.Config.{
  RowMode, single, many, scalar, affected_rows, resource_contents, stream_rows, result_sets,
  ListQueryConfig, keyset, offset,
}

-- `serde_json::Value`: an object's entries are in the order of its map.
pub record Json : Type 1 where
  pub Value : Type 0
  pub null_value : Value
  pub of_bool : Bool → Value
  pub of_nat : ℕ → Value
  pub of_text : Text → Value
  pub of_array : List Value → Value
  pub of_object : List (Text × Value) → Value
  pub as_object : Value → Option (List (Text × Value))
  pub as_str : Value → Option Text
  pub is_null : Value → Bool
  -- A string's own text, nothing for null, and else the value's JSON.
  pub display : Value → Text

pub data ShapeError : Type 0 where
  not_an_object no_uri text_and_blob text_nor_blob : ℕ → ShapeError
  result_sets_misrouted : ShapeError

pub record ListedResource : Type 0 where
  pub uri : Text
  pub name : Option Text
  pub description : Option Text
  pub mime_type : Option Text

pub record ResourcePage : Type 0 where
  pub resources : List ListedResource
  pub next_cursor : Option Text

unfoldable pub is_retryable_stale : {M : Type 0} → SqlError M → Bool
is_retryable_stale (execute e) = is_stale_statement_error e
is_retryable_stale (prepare e) = is_stale_statement_error e
is_retryable_stale (driver e) = is_stale_statement_error e
is_retryable_stale _ = false

unfoldable pub refund_reason_for : BackendError → Text
refund_reason_for (Errors.BackendError.timeout ms) = codes "timeout"
refund_reason_for (Errors.BackendError.transport t) = codes "transport"
refund_reason_for (Errors.BackendError.invalid_spec t) = codes "invalid_spec"
refund_reason_for (Errors.BackendError.profile_not_found t) = codes "invalid_spec"

module _ (json : Json) where
  pub record RowBatch : Type 0 where
    pub rows : List json.Value
    pub rows_affected : Option ℕ

  abbrev pub Object : Type 0
  Object = List (Text × json.Value)

  -- `get(..).and_then(as_str)`.
  unfoldable pub get_str : Text → Object → Option Text
  get_str key obj = do v ← lookup key obj; json.as_str v

  -- The value at the key, unless it is null.
  unfoldable pub not_null : Option json.Value → Option json.Value
  not_null none = none
  not_null (some v) = if json.is_null v then none else some v

  unfoldable pub head_or_null : List json.Value → json.Value
  head_or_null [] = json.null_value
  head_or_null (row ∷ rows) = row

  -- The first value of an object's map.
  unfoldable pub first_value : Object → json.Value
  first_value [] = json.null_value
  first_value ((k, v) ∷ obj) = v

  unfoldable pub scalar_of : json.Value → json.Value
  scalar_of row = elim (json.as_object row) [ none ↦ row | some obj ↦ first_value obj ]

  unfoldable pub with_mime_type : Option Text → Object → Object
  with_mime_type none entry = entry
  with_mime_type (some t) entry = insert (codes "mimeType") (json.of_text t) entry

  -- The text or the blob of a row, one of them and not both.
  unfoldable pub content :
      ℕ → Option json.Value → Option json.Value → Object → Result ShapeError Object
  content idx (some t) (some b) entry = err (text_and_blob idx)
  content idx none none entry = err (text_nor_blob idx)
  content idx (some t) none entry = ok (insert (codes "text") t entry)
  content idx none (some b) entry = ok (insert (codes "blob") b entry)

  unfoldable pub content_entry : ℕ → Option Text → Object → Result ShapeError Object
  content_entry idx none obj = err (no_uri idx)
  content_entry idx (some uri) obj =
      content idx (not_null (lookup (codes "text") obj)) (not_null (lookup (codes "blob") obj))
        (with_mime_type (get_str (codes "mime_type") obj) ((codes "uri", json.of_text uri) ∷ []))

  unfoldable pub content_of : ℕ → Option Object → Result ShapeError Object
  content_of idx none = err (not_an_object idx)
  content_of idx (some obj) = content_entry idx (get_str (codes "uri") obj) obj

  unfoldable pub contents_from : ℕ → List json.Value → Result ShapeError (List json.Value)
  contents_from idx [] = ok []
  contents_from idx (row ∷ rows) = elim (content_of idx (json.as_object row)) [
    | err e ↦ err e
    | ok entry ↦ elim (contents_from (idx + 1) rows) [
      | err e ↦ err e
      | ok contents ↦ ok (json.of_object entry ∷ contents)
    ]
  ]

  unfoldable pub wrap_contents :
      Bool → Result ShapeError (List json.Value) → Result ShapeError (json.Value × Bool)
  wrap_contents truncated (err e) = err e
  wrap_contents truncated (ok contents) =
      ok (json.of_object ((codes "contents", json.of_array contents) ∷ []), truncated)

  unfoldable pub affected_count : Option ℕ → ℕ
  affected_count none = 0
  affected_count (some n) = n

  -- By mode, from the rows left and whether some were dropped.
  unfoldable pub shape_rows :
      RowMode → Option ℕ → List json.Value → Bool → Result ShapeError (json.Value × Bool)
  shape_rows single affected rows truncated = ok (head_or_null rows, truncated)
  shape_rows many affected rows truncated = ok (json.of_array rows, truncated)
  shape_rows scalar affected rows truncated = ok (scalar_of (head_or_null rows), truncated)
  shape_rows affected_rows affected rows truncated =
      ok (
        json.of_object ((codes "rows_affected", json.of_nat (affected_count affected)) ∷ []),
        false,
      )
  shape_rows resource_contents affected rows truncated =
      wrap_contents truncated (contents_from 0 rows)
  shape_rows stream_rows affected rows truncated = ok (
    json.of_object
        ((codes "rows", json.of_array rows) ∷ (codes "truncated", json.of_bool truncated) ∷ []),
    truncated,
  )
  shape_rows result_sets affected rows truncated = err result_sets_misrouted

  unfoldable pub shape_response : RowBatch → RowMode → ℕ → Result ShapeError (json.Value × Bool)
  shape_response batch mode max_rows =
      let truncated : Bool = ltb max_rows (length batch.rows) in
      shape_rows mode batch.rows_affected
        (if truncated then take max_rows batch.rows else batch.rows) truncated

  -- The loop of a listing: the resources so far and the last cursor value.
  unfoldable pub listed : Text → Object → ListedResource
  listed uri obj = record {
    uri = uri;
    name = get_str (codes "name") obj;
    description = get_str (codes "description") obj;
    mime_type = get_str (codes "mime_type") obj;
  }

  unfoldable pub cursor_of_row : Option Text → Object → Option Text → Option Text
  cursor_of_row none obj before = before
  cursor_of_row (some column) obj before = elim (lookup column obj) [
    | none ↦ before
    | some v ↦ some (json.display v)
  ]

  -- A row's object and URI, if it has both.
  unfoldable pub uri_row : Option Object → Option (Text × Object)
  uri_row none = none
  uri_row (some obj) = do uri ← get_str (codes "uri") obj; some (uri, obj)

  unfoldable pub page_loop :
      Option Text
      → List json.Value
      → List ListedResource × Option Text
      → List ListedResource × Option Text
  page_loop column [] acc = acc
  page_loop column (row ∷ rows) (resources, last) = elim (uri_row (json.as_object row)) [
    | none ↦ page_loop column rows (resources, last)
    | some (uri, obj) ↦
        page_loop column rows (resources ++ listed uri obj ∷ [], cursor_of_row column obj last)
  ]

  unfoldable pub page_cursor : ListQueryConfig → ℕ → Option Text → Option Text
  page_cursor cfg row_count last =
      let full : Option Text = elim cfg.mode [
        | keyset ↦ last
        | offset ↦ some (format 10 row_count)
      ] in
      if ltb row_count cfg.page_size then none else full

  unfoldable pub batch_to_resource_page : RowBatch → ListQueryConfig → ResourcePage
  batch_to_resource_page batch cfg =
      let (resources, last) = page_loop cfg.cursor_column batch.rows ([], none) in
      record { resources = resources; next_cursor = page_cursor cfg (length batch.rows) last }
