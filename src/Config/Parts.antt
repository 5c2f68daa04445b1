-- ===== src/Config/Parts.antt =====
-- src/config.rs, src/stream.rs, src/auth/mod.rs, src/cost.rs: the validation of a profile's parts.
use mcpg_plugin_backend_sql.Common.{
  Bool, true, false, not, ◌&&◌, ◌||◌, List, [], ◌∷◌, ◌++◌, Option, none, some, Result, ok, err,
  ◌>>◌, refuse_if, all, any, map, ltb, leb, ◌==◌, if◌then◌else◌, Text, codes, text_eq,
  is_ascii_alphanumeric,
}
use mcpg_plugin_backend_sql.Guards.{
  is_whitespace, trim_start, reject_multi_statement, reject_privileged_ddl, is_safe_sql_identifier,
}
use mcpg_plugin_backend_sql.Guards as Guards
use mcpg_plugin_backend_sql.Config.{
  Libraries, ListQueryConfig, AwaitConfig, CacheInvalidateOn, CostSpec, StreamConfig, AuthConfig,
  Reason, keyset, offset, auth_field_is_empty, no_cursor_columns, unsafe_cursor_column,
  initial_not_declared, text_is_empty, interval_too_short, statement_refused,
  page_size_out_of_range, no_cursor_column, unsafe_identifier, poll_too_fast, no_timeout,
  timeout_below_poll, amount_and_expression, amount_nor_expression, not_a_decimal, not_finite,
  below_zero, does_not_compile, currency_has_control, unfinished,
}

abbrev pub Check : Type 0
Check = Result Reason (Unit {0})

unfoldable pub trim_end : Text → Text
trim_end [] = []
trim_end (c ∷ s) =
    let rest = trim_end s in
    elim rest [ [] ↦ if is_whitespace c then [] else c ∷ [] | d ∷ t ↦ c ∷ d ∷ t ]

unfoldable pub trim : Text → Text
unfolding trim_start trim_end
trim s = trim_end (trim_start s)

abbrev pub is_empty : Text → Bool
is_empty [] = true
is_empty (c ∷ s) = false

-- `s.trim().is_empty()`.
unfoldable pub is_blank : Text → Bool
is_blank s = is_empty (trim s)

unfoldable pub statement_result : Result Guards.Refusal (Unit {0}) → Check
statement_result (err e) = err (statement_refused e)
statement_result (ok u) = ok tt

unfoldable pub ddl_result : Option (Result Guards.Refusal (Unit {0})) → Check
ddl_result none = err unfinished
ddl_result (some r) = statement_result r

-- `reject_multi_statement(sql)?; reject_privileged_ddl(sql)?;`.
unfoldable pub check_statement : Text → Check
check_statement sql = do
  statement_result (reject_multi_statement sql)
  ddl_result (reject_privileged_ddl sql)

unfoldable pub check_each : (Text → Check) → List Text → Check
check_each f [] = ok tt
check_each f (t ∷ ts) = do f t; check_each f ts

unfoldable pub check_option : {A : Type 0} → (A → Check) → Option A → Check
check_option f none = ok tt
check_option f (some a) = f a

-- src/stream.rs.
unfoldable pub is_safe_column_name : Text → Bool
is_safe_column_name s = not (is_empty s) && all (λ c. is_ascii_alphanumeric c || (c == b'_')) s

is_one_of : List Text → Text → Bool
is_one_of columns k = any (λ c. text_eq c k) columns

unfoldable pub validate_stream : StreamConfig → Check
unfolding is_one_of is_safe_column_name check_each
validate_stream s = do
  refuse_if (elim s.cursor_columns [ [] ↦ true | _ ∷ _ ↦ false ]) no_cursor_columns
  check_each (λ c. refuse_if (not (is_safe_column_name c)) unsafe_cursor_column) s.cursor_columns
  check_each (λ k. refuse_if (not (is_one_of s.cursor_columns k)) initial_not_declared) s.initial

unfoldable pub placeholder_names : StreamConfig → List Text
placeholder_names s = map (λ c. codes "_after_" ++ c) s.cursor_columns

-- src/auth/mod.rs.
unfoldable pub validate_auth : AuthConfig → Check
unfolding trim
validate_auth (AuthConfig.rds_iam region username) = do
  refuse_if (is_blank region) auth_field_is_empty
  refuse_if (is_blank username) auth_field_is_empty
validate_auth (AuthConfig.azure_ad scope) = refuse_if (is_blank scope) auth_field_is_empty
validate_auth (AuthConfig.gcp_iam username) = refuse_if (is_blank username) auth_field_is_empty
validate_auth (AuthConfig.aurora_failover []) = err auth_field_is_empty
validate_auth (AuthConfig.aurora_failover (e ∷ es)) = ok tt

unfoldable pub validate_list_query : ListQueryConfig → Check
validate_list_query q = do
  refuse_if (is_blank q.sql) text_is_empty
  check_statement q.sql
  refuse_if ((q.page_size == 0) || ltb 1000 q.page_size) page_size_out_of_range
  let col : Text = trim (elim q.cursor_column [ none ↦ [] | some c ↦ c ])
  elim q.mode [
    | offset ↦ ok tt
    | keyset ↦
        refuse_if (is_empty col) no_cursor_column
        >> refuse_if (not (is_safe_sql_identifier col)) unsafe_identifier
  ]

unfoldable pub check_step : Text → Check
check_step sql = do refuse_if (is_blank sql) text_is_empty; check_statement sql

unfoldable pub check_intervals : AwaitConfig → Check
check_intervals a = do
  refuse_if (ltb a.poll_interval_ms 100) poll_too_fast
  refuse_if (a.timeout_ms == 0) no_timeout
  refuse_if (ltb a.timeout_ms a.poll_interval_ms) timeout_below_poll

unfoldable pub validate_await : AwaitConfig → Check
validate_await a = do
  check_step a.check
  check_option check_step a.trigger
  refuse_if (is_blank a.predicate) text_is_empty
  check_intervals a

unfoldable pub validate_invalidate_on : CacheInvalidateOn → Check
validate_invalidate_on w = do check_step w.sql; refuse_if (ltb w.interval_ms 100) interval_too_short

-- `chars().any(char::is_control)` in UTF-8: U+0000 to U+001F, U+007F, and U+0080 to U+009F, which are
-- the byte 194 and one from 128 to 159.
unfoldable pub has_control : Text → Bool
has_control [] = false
has_control (c ∷ []) = ltb c 32 || (c == 127)
has_control (c ∷ d ∷ s) =
    ltb c 32 || (c == 127) || ((c == 194) && leb 128 d && leb d 159) || has_control (d ∷ s)

module _ {F : Type 0} (libraries : Libraries F) where
  check_amount_of : Option F → Check
  check_amount_of none = err not_a_decimal
  check_amount_of (some v) = do
    refuse_if (not (libraries.is_finite v)) not_finite
    refuse_if (libraries.below_zero v) below_zero

  unfoldable pub parse_decimal_amount : Text → Check
  unfolding trim check_amount_of
  parse_decimal_amount s = do
    refuse_if (is_blank s) text_is_empty
    check_amount_of (libraries.parse_f64 (trim s))

  check_rate : Option Text → Option Text → Check
  check_rate (some a) (some e) = err amount_and_expression
  check_rate none none = err amount_nor_expression
  check_rate (some a) none = parse_decimal_amount a
  check_rate none (some e) = do
    refuse_if (is_blank e) text_is_empty
    refuse_if (not (libraries.cel_compiles e)) does_not_compile

  unfoldable pub validate_cost : CostSpec → Check
  unfolding check_rate check_option parse_decimal_amount trim
  validate_cost c = do
    check_rate c.amount c.expression
    refuse_if (is_blank c.currency) text_is_empty
    refuse_if (has_control c.currency) currency_has_control
    check_option parse_decimal_amount c.max_per_call
