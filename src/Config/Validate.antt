-- ===== src/Config/Validate.antt =====
-- src/config.rs: `SqlBackendConfig::validate`, section by section.
use mcpg_plugin_backend_sql.Common.{
  ℕ, Bool, true, false, not, ◌&&◌, ◌||◌, List, [], ◌∷◌, Option, none, some, ok, err, ◌>>◌,
  refuse_if, ltb, ◌==◌, if◌then◌else◌, Text, codes, text_eq, contains,
}
use mcpg_plugin_backend_sql.Guards.{is_safe_sql_identifier}
use mcpg_plugin_backend_sql.Breaker as Breaker
use mcpg_plugin_backend_sql.Params.{DriverKind, postgres, mysql, mariadb, sqlite}
use mcpg_plugin_backend_sql.Config.{
  Url, Libraries, IsolationLevel, RowMode, QueryBody, CacheSpec, StreamConfig, AuthConfig,
  PoolConfig, QueryShape, SqlBackendConfig, read_committed, repeatable_read, affected_rows,
  stream_rows, result_sets, sql_body, procedure_body, sql_file, url_does_not_parse, wrong_scheme,
  auth_needs_postgres, auth_with_password, auth_with_cred_tokens, no_connections,
  min_idle_too_large, stream_missing, stream_not_allowed, placeholder_missing,
  result_sets_need_procedure, result_sets_unsupported, heartbeat_too_fast, breaker_refused,
  unsafe_identifier, cache_for_writes, cache_for_stream, cache_for_result_sets, cache_for_procedure,
  dotted_variable, variables_unsupported, isolation_unsupported,
}
use mcpg_plugin_backend_sql.Config.Parts.{
  Check, is_empty, check_statement, check_each, check_option, validate_stream, placeholder_names,
  validate_auth, validate_list_query, validate_await, validate_invalidate_on, validate_cost,
}

unfoldable pub scheme_is : DriverKind → Text → Bool
scheme_is postgres s = text_eq s (codes "postgres") || text_eq s (codes "postgresql")
scheme_is mysql s = text_eq s (codes "mysql") || text_eq s (codes "mariadb")
scheme_is mariadb s = text_eq s (codes "mysql") || text_eq s (codes "mariadb")
scheme_is sqlite s = text_eq s (codes "sqlite")

unfoldable pub check_auth_driver : DriverKind → Check
check_auth_driver postgres = ok tt
check_auth_driver _ = err auth_needs_postgres

unfoldable pub check_auth :
    {F : Type 0} → Libraries F → DriverKind → Text → Url → AuthConfig → Check
check_auth libraries driver url parsed auth = do
  validate_auth auth
  check_auth_driver driver
  refuse_if (not (is_empty (elim parsed.password [ none ↦ [] | some p ↦ p ]))) auth_with_password
  refuse_if (elim (libraries.cred_tokens url) [ [] ↦ false | _ ∷ _ ↦ true ]) auth_with_cred_tokens

unfoldable pub check_pool : PoolConfig → Check
check_pool p = do
  refuse_if (p.max_connections == 0) no_connections
  refuse_if (ltb p.max_connections p.min_idle) min_idle_too_large

starts_with : Text → Text → Bool
starts_with [] s = true
starts_with (p ∷ ps) [] = false
starts_with (p ∷ ps) (c ∷ s) = (p == c) && starts_with ps s

-- `str::contains` of a text.
unfoldable pub contains_text : Text → Text → Bool
unfolding starts_with
contains_text p [] = starts_with p []
contains_text p (c ∷ s) = starts_with p (c ∷ s) || contains_text p s

unfoldable pub check_placeholders : QueryBody → StreamConfig → Check
check_placeholders (sql_body sql) s =
    check_each (λ p. refuse_if (not (contains_text (b':' ∷ p) sql)) placeholder_missing)
      (placeholder_names s)
check_placeholders _ s = ok tt

unfoldable pub check_stream_block : QueryBody → Option StreamConfig → Check
check_stream_block body none = err stream_missing
check_stream_block body (some s) = do validate_stream s; check_placeholders body s

unfoldable pub check_stream : QueryShape → Check
unfolding check_stream_block check_placeholders check_each placeholder_names contains_text
check_stream q =
    let absent : Check = elim q.stream [ none ↦ ok tt | some s ↦ err stream_not_allowed ] in
    elim q.row_mode [ stream_rows ↦ check_stream_block q.body q.stream | _ ↦ absent ]

unfoldable pub is_procedure : QueryBody → Bool
is_procedure (procedure_body p) = true
is_procedure _ = false

unfoldable pub check_sets_driver : DriverKind → Check
check_sets_driver mysql = ok tt
check_sets_driver mariadb = ok tt
check_sets_driver _ = err result_sets_unsupported

unfoldable pub check_result_sets : DriverKind → QueryShape → Check
check_result_sets driver q = elim q.row_mode [
  | result_sets ↦
      refuse_if (not (is_procedure q.body)) result_sets_need_procedure >> check_sets_driver driver
  | _ ↦ ok tt
]

unfoldable pub check_heartbeat : ℕ → Check
check_heartbeat ms = refuse_if (ltb ms 50) heartbeat_too_fast

unfoldable pub check_breaker : Breaker.CircuitBreakerConfig → Check
check_breaker c = elim (Breaker.validate c) [ ok u ↦ ok tt | err e ↦ err (breaker_refused e) ]

unfoldable pub check_cacheable : RowMode → Check
check_cacheable affected_rows = err cache_for_writes
check_cacheable stream_rows = err cache_for_stream
check_cacheable result_sets = err cache_for_result_sets
check_cacheable _ = ok tt

unfoldable pub check_cache : QueryShape → CacheSpec → Check
check_cache q c =
    let checks : Check =
      check_cacheable q.row_mode
      >> refuse_if (is_procedure q.body) cache_for_procedure
      >> check_option validate_invalidate_on c.invalidate_on in
    if c.enabled then checks else ok tt

unfoldable pub check_dots : List Text → Check
check_dots keys = check_each (λ k. refuse_if (contains b'.' k) dotted_variable) keys

unfoldable pub check_variables_driver : DriverKind → List Text → Check
check_variables_driver d [] = ok tt
check_variables_driver postgres (k ∷ ks) = ok tt
check_variables_driver mysql (k ∷ ks) = check_dots (k ∷ ks)
check_variables_driver mariadb (k ∷ ks) = check_dots (k ∷ ks)
check_variables_driver sqlite (k ∷ ks) = err variables_unsupported

unfoldable pub check_session_vars : DriverKind → List Text → Check
check_session_vars driver keys = do
  check_each (λ k. refuse_if (not (is_safe_sql_identifier k)) unsafe_identifier) keys
  check_variables_driver driver keys

unfoldable pub check_body : QueryBody → Check
check_body (procedure_body p) = refuse_if (not (is_safe_sql_identifier p)) unsafe_identifier
check_body (sql_body sql) = check_statement sql
check_body (sql_file path) = ok tt

unfoldable pub check_isolation : DriverKind → IsolationLevel → Check
check_isolation sqlite read_committed = err isolation_unsupported
check_isolation sqlite repeatable_read = err isolation_unsupported
check_isolation d l = ok tt

unfoldable pub check_with_url : {F : Type 0} → Libraries F → SqlBackendConfig → Option Url → Check
check_with_url libraries c none = err url_does_not_parse
check_with_url libraries c (some u) = do
  refuse_if (not (scheme_is c.driver u.scheme)) wrong_scheme
  check_option (check_auth libraries c.driver c.url u) c.auth

-- From the pool section to the circuit breaker's.
unfoldable pub check_shape : SqlBackendConfig → Check
check_shape c = do
  check_pool c.pool
  check_stream c.query
  check_result_sets c.driver c.query
  check_option check_heartbeat c.query.progress_heartbeat_ms
  check_option check_breaker c.circuit_breaker

-- From the listing query to the cost.
unfoldable pub check_features : {F : Type 0} → Libraries F → SqlBackendConfig → Check
check_features libraries c = do
  check_option validate_list_query c.list_query
  check_option validate_await c.await
  check_option (check_cache c.query) c.cache
  check_option (validate_cost libraries) c.cost

-- The texts that go into statements, and the isolation level.
unfoldable pub check_texts : SqlBackendConfig → Check
check_texts c = do
  check_session_vars c.driver c.session_vars
  check_body c.query.body
  check_option (check_isolation c.driver) c.isolation_level

unfoldable pub validate : {F : Type 0} → Libraries F → SqlBackendConfig → Check
validate libraries c = do
  check_with_url libraries c (libraries.parse_url c.url)
  check_shape c
  check_features libraries c
  check_texts c
