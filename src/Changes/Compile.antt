-- ===== src/Changes/Compile.antt =====
-- src/watch_changes.rs: `SqlChangesWatchSpec::compile`, check by check.
use mcpg_plugin_backend_sql.Common.{
  ℕ, Bool, true, false, not, ◌||◌, List, [], ◌∷◌, ◌++◌, Option, none, some, Result, ok, err, ◌>>=◌,
  ◌>>◌, refuse_if, map, ltb, ◌==◌, Text,
}
use mcpg_plugin_backend_sql.Common.TextMaps.{lookup}
use mcpg_plugin_backend_sql.Params.{DriverKind, rewrite_placeholders}
use mcpg_plugin_backend_sql.Config as Config
use mcpg_plugin_backend_sql.Config.Parts.{Check, check_statement}
use mcpg_plugin_backend_sql.Config.Validate.{validate}
use mcpg_plugin_backend_sql.Changes.{
  Env, ChangesStart, latest, beginning, PreparedStmt, SqlChangesWatchSpec, Plan, Refusal,
  profile_refused, row_mode_not_many, no_sql, no_key_columns, not_a_column_name, no_initial_value,
  initial_not_a_key, batch_size_out_of_range, interval_too_short, no_settle_time,
  unknown_placeholder, missing_placeholder, no_latest_sql, latest_sql_binds, rewriting_unfinished,
  limit_placeholder, settle_placeholder, after_prefix, min_interval_ms, max_batch_size, is_among,
  is_column_name,
}

abbrev pub Step : Type 0
Step = Result Refusal (Unit {0})

-- `?` on a check of the profile.
unfoldable pub from_config : Check → Step
from_config (ok u) = ok tt
from_config (err e) = err (profile_refused e)

unfoldable pub is_many : Config.RowMode → Bool
is_many Config.many = true
is_many _ = false

unfoldable pub sql_of : Config.QueryBody → Result Refusal Text
sql_of (Config.sql_body sql) = ok sql
sql_of _ = err no_sql

-- A loop, or a `find`, that refuses with the first name that fails the test.
unfoldable pub refuse_unless : (Text → Bool) → (Text → Refusal) → List Text → Step
refuse_unless p r [] = ok tt
refuse_unless p r (t ∷ ts) = do refuse_if (not (p t)) (r t); refuse_unless p r ts

unfoldable pub check_optional_column : Option Text → Step
check_optional_column none = ok tt
check_optional_column (some c) = refuse_if (not (is_column_name c)) (not_a_column_name c)

unfoldable pub is_zero_settle : Option ℕ → Bool
is_zero_settle none = false
is_zero_settle (some ms) = ms == 0

abbrev pub settle_names : Option ℕ → List Text
settle_names none = []
settle_names (some ms) = settle_placeholder ∷ []

-- The placeholders that `query.sql` must bind, and may.
unfoldable pub allowed : List Text → Option ℕ → List Text
allowed columns settle =
    map (λ c. after_prefix ++ c) columns ++ limit_placeholder ∷ settle_names settle

unfoldable pub rewritten_sql : DriverKind → Option (Text × List Text) → Result Refusal PreparedStmt
rewritten_sql d none = err rewriting_unfinished
rewritten_sql d (some (sql, order)) = ok (record { sql = sql; param_order = order; driver = d })

unfoldable pub unbound : List Text → PreparedStmt → Result Refusal (Option PreparedStmt)
unbound [] s = ok (some s)
unbound (name ∷ names) s = err (latest_sql_binds name)

unfoldable pub compile_latest :
    DriverKind → ChangesStart → Option Text → Result Refusal (Option PreparedStmt)
compile_latest d latest none = err no_latest_sql
compile_latest d beginning none = ok none
compile_latest d start (some sql) =
    from_config (check_statement sql)
    >> (rewritten_sql d (rewrite_placeholders sql d) >>= λ s. unbound s.param_order s)

unfoldable pub timeout_of : Option ℕ → ℕ
timeout_of none = 30000
timeout_of (some ms) = ms

unfoldable pub check_columns : List Text → Step
check_columns [] = err no_key_columns
check_columns (c ∷ cs) = refuse_unless is_column_name not_a_column_name (c ∷ cs)

-- `query.sql`, rewritten, binds every name that it must and no other.
unfoldable pub check_order : List Text → List Text → Step
check_order names order = do
  refuse_unless (λ n. is_among n names) unknown_placeholder order
  refuse_unless (λ n. is_among n order) missing_placeholder names

module _ (env : Env) where
  unfoldable pub initial_value : Text → Option env.Value → Result Refusal env.Value
  initial_value column none = err (no_initial_value column)
  initial_value column (some v) = do refuse_if (env.is_null v) (no_initial_value column); ok v

  unfoldable pub collect_initial :
      List (Text × env.Value) → List Text → Result Refusal (List env.Value)
  collect_initial given [] = ok []
  collect_initial given (c ∷ cs) = do
    v ← initial_value c (lookup c given)
    rest ← collect_initial given cs
    ok (v ∷ rest)

  -- The checks between the initial key and the statement.
  unfoldable pub check_settings : SqlChangesWatchSpec env.Value → Step
  check_settings s = do
    refuse_unless (λ k. is_among k s.key_columns) initial_not_a_key (map (λ e. e.0) s.initial)
    refuse_if (ltb s.batch_size 1 || ltb max_batch_size s.batch_size) batch_size_out_of_range
    refuse_if (ltb s.interval_ms min_interval_ms) interval_too_short
    check_optional_column s.occurred_at_column
    check_optional_column s.op_column
    refuse_if (is_zero_settle s.settle_ms) no_settle_time

  unfoldable pub compile_query : SqlChangesWatchSpec env.Value → Text → Result Refusal PreparedStmt
  compile_query s sql = do
    from_config (check_statement sql)
    stmt ← rewritten_sql s.connection.driver (rewrite_placeholders sql s.connection.driver)
    check_order (allowed s.key_columns s.settle_ms) stmt.param_order
    ok stmt

  abbrev pub plan_of :
      SqlChangesWatchSpec env.Value
      → List env.Value
      → PreparedStmt
      → Option PreparedStmt
      → Plan env.Value
  plan_of s initial stmt newest = record {
    stmt = stmt;
    latest_stmt = newest;
    key_columns = s.key_columns;
    initial = initial;
    start = s.start;
    batch_size = s.batch_size;
    interval = s.interval_ms;
    timeout = timeout_of s.connection.query.timeout_ms;
    occurred_at_column = s.occurred_at_column;
    op_column = s.op_column;
    settle = s.settle_ms;
  }

  unfoldable pub compile :
      {F : Type 0}
      → Config.Libraries F
      → SqlChangesWatchSpec env.Value
      → Result Refusal (Plan env.Value)
  compile libraries s = do
    from_config (validate libraries s.connection)
    refuse_if (not (is_many s.connection.query.row_mode)) row_mode_not_many
    sql ← sql_of s.connection.query.body
    check_columns s.key_columns
    initial ← collect_initial s.initial s.key_columns
    check_settings s
    stmt ← compile_query s sql
    newest ← compile_latest s.connection.driver s.start s.latest_sql
    ok (plan_of s initial stmt newest)
