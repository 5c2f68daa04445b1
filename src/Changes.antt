-- ===== src/Changes.antt =====
-- src/watch_changes.rs: the watch that reads a table's changed rows, page by page, behind an ordering
-- key. Here are the spec, the plan compiled from it, the positions and the events; the compilation is
-- in `Changes/Compile.antt`, a row's key, event and arguments in `Changes/Rows.antt`, the loop in
-- `Changes/Poll.antt`. JSON, the hash, the clock and the formats of time are the record `Env`.
pub mod Compile
pub mod Rows
pub mod Poll
pub mod Plans
pub mod Binding
pub mod Delivery
pub mod Polling
pub mod Resuming
pub mod Waiting
mod Tests
use mcpg_plugin_backend_sql.Common.{
  ℕ, ◌+◌, ◌-◌, Bool, true, false, List, [], ◌∷◌, Option, none, some, Text, codes, ltb, ◌==◌, ◌||◌,
  ◌&&◌, any, all, not, map, text_eq, if◌then◌else◌, is_ascii_alphanumeric,
}
use mcpg_plugin_backend_sql.Common.Int.{ℤ, pos, negsuc}
use mcpg_plugin_backend_sql.Params.{DriverKind}
use mcpg_plugin_backend_sql.Config as Config

pub data ChangesStart : Type 0 where
  latest beginning : ChangesStart

pub data ChangeOp : Type 0 where
  insert_op update_op delete_op : ChangeOp

-- The position after a row: its key.
pub record Cursor (V : Type 0) : Type 0 where
  pub v : ℕ
  pub k : List V

pub record WatchEvent (V : Type 0) : Type 0 where
  pub event_id : Option Text
  pub event_type : Option Text
  pub occurred_at : Option Text
  pub event_data : Option V
  pub upstream_cursor : Option V

-- What the source asks of `serde_json`, `blake3` and `chrono`.
pub record Env : Type 1 where
  pub Value : Type 0
  pub is_null : Value → Bool
  pub as_str : Value → Option Text
  pub as_i64 : Value → Option ℤ
  pub get : Value → Text → Option Value
  pub of_int : ℤ → Value
  -- `json!({ "op": op, "row": row })`.
  pub of_change : ChangeOp → Value → Value
  pub to_string : List Value → Option Text
  pub from_cursor : Cursor Value → Option Value
  pub to_cursor : Value → Option (Cursor Value)
  -- The length of `serde_json::to_vec`.
  pub size_of : WatchEvent Value → Option ℕ
  -- The hexadecimal digits of the hash.
  pub hex_hash : Text → Text
  pub Instant : Type 0
  pub parse_rfc3339 : Text → Option Instant
  pub parse_naive : (format value : Text) → Option Instant
  pub from_timestamp : ℤ → Option Instant
  pub to_rfc3339 : Instant → Text

pub record PreparedStmt : Type 0 where
  pub sql : Text
  pub param_order : List Text
  pub driver : DriverKind

pub record SqlChangesWatchSpec (V : Type 0) : Type 0 where
  pub connection : Config.SqlBackendConfig
  pub key_columns : List Text
  pub initial : List (Text × V)
  pub start : ChangesStart
  pub latest_sql : Option Text
  pub batch_size : ℕ
  pub interval_ms : ℕ
  pub occurred_at_column : Option Text
  pub op_column : Option Text
  pub settle_ms : Option ℕ

-- Durations are in milliseconds.
pub record Plan (V : Type 0) : Type 0 where
  pub stmt : PreparedStmt
  pub latest_stmt : Option PreparedStmt
  pub key_columns : List Text
  pub initial : List V
  pub start : ChangesStart
  pub batch_size : ℕ
  pub interval : ℕ
  pub timeout : ℕ
  pub occurred_at_column : Option Text
  pub op_column : Option Text
  pub settle : Option ℕ

-- `rewriting_unfinished` stands for a rewriting that ran out of fuel; `no_key_value` is of the poll.
pub data Refusal : Type 0 where
  profile_refused : Config.Reason → Refusal
  row_mode_not_many no_sql no_key_columns : Refusal
  not_a_column_name no_initial_value initial_not_a_key : Text → Refusal
  batch_size_out_of_range interval_too_short no_settle_time : Refusal
  unknown_placeholder missing_placeholder : Text → Refusal
  no_latest_sql : Refusal
  latest_sql_binds : Text → Refusal
  no_key_value : List Text → Refusal
  rewriting_unfinished : Refusal

abbrev pub event_type_text : Text
event_type_text = codes "sql.row.changed"

abbrev pub limit_placeholder : Text
limit_placeholder = codes "_limit"

abbrev pub settle_placeholder : Text
settle_placeholder = codes "_settle_before"

abbrev pub after_prefix : Text
after_prefix = codes "_after_"

abbrev pub cursor_version : ℕ
cursor_version = 1

abbrev pub min_interval_ms : ℕ
min_interval_ms = 100

abbrev pub max_batch_size : ℕ
max_batch_size = 500

abbrev pub max_rows_per_tick : ℕ
max_rows_per_tick = 500

abbrev pub max_event_bytes : ℕ
max_event_bytes = 262144

-- Membership of a text, as a test.
unfoldable pub is_among : Text → List Text → Bool
is_among name names = any (λ n. text_eq n name) names

unfoldable pub is_column_name : Text → Bool
is_column_name [] = false
is_column_name (c ∷ s) = all (λ b. is_ascii_alphanumeric b || (b == b'_')) (c ∷ s)
