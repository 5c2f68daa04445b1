-- ===== src/Config/Tests.antt =====
-- src/config.rs on concrete profiles.
use mcpg_plugin_backend_sql.Common.{
  ℕ, ◌≡◌, refl, true, false, [], ◌∷◌, none, some, ok, All, codes, text_eq,
}
use mcpg_plugin_backend_sql.Breaker as Breaker
use mcpg_plugin_backend_sql.Params.{postgres}
use mcpg_plugin_backend_sql.Guards.{
  reject_multi_statement, scan_statement, check_tail, after_scan, is_safe_sql_identifier,
  trim_start, after_newline, after_close, opening, strip_loop,
  strip_leading_whitespace_and_comments, first_token, is_one_of, check_second, check_first,
  check_trimmed, reject_privileged_ddl,
}
use mcpg_plugin_backend_sql.Config.{Libraries, many, sql_body, CacheSpec, SqlBackendConfig}
use mcpg_plugin_backend_sql.Config.Parts.{
  has_control, trim, trim_end, is_blank, statement_result, ddl_result, check_statement, check_each,
  check_option, validate_list_query, check_step, check_intervals, validate_await,
  validate_invalidate_on, parse_decimal_amount, validate_cost,
}
use mcpg_plugin_backend_sql.Config.Validate.{
  scheme_is, check_pool, check_stream, is_procedure, check_result_sets, check_heartbeat,
  check_breaker, check_cacheable, check_cache, check_dots, check_variables_driver,
  check_session_vars, check_body, check_isolation, check_with_url, check_shape, check_features,
  check_texts, validate,
}
use mcpg_plugin_backend_sql.Config.Limits.{WithinLimits, validate-WithinLimits}
use mcpg_plugin_backend_sql.Config.Inlined.{
  Identifier, Screened, names_of, statements_of, validate-Screened,
}

-- A URL parses if it is not empty, every expression compiles, and every amount is a number.
abbrev libraries : Libraries ℕ
libraries = record {
  parse_url = λ s. some (record { scheme = codes "postgres"; password = none });
  cred_tokens = λ s. [];
  cel_compiles = λ s. true;
  parse_f64 = λ s. some 1;
  is_finite = λ v. true;
  below_zero = λ v. false;
}

abbrev cached : CacheSpec
cached = record {
  enabled = true;
  invalidate_on = some (record { sql = codes "SELECT 1"; interval_ms = 500 });
}

abbrev profile : SqlBackendConfig
profile = record {
  driver = postgres;
  url = codes "postgres://db";
  pool = record { max_connections = 10; min_idle = 1 };
  query = record {
    body = sql_body (codes "SELECT id FROM t WHERE a = :a;");
    row_mode = many;
    timeout_ms = some 5000;
    progress_heartbeat_ms = some 1000;
    stream = none;
  };
  session_vars = codes "app.tenant" ∷ [];
  circuit_breaker = some Breaker.default_config;
  list_query = none;
  await = some (record {
    trigger = none;
    check = codes "SELECT status FROM jobs";
    predicate = codes "row.done";
    poll_interval_ms = 100;
    timeout_ms = 1000;
  });
  isolation_level = none;
  cache = some cached;
  cost = some (record {
    amount = some (codes "0.1");
    expression = none;
    currency = codes "USD";
    max_per_call = none;
  });
  auth = none;
}

accepted : validate libraries profile ≡ ok tt
unfolding validate check_with_url check_shape check_features check_texts scheme_is text_eq
    check_pool check_stream check_result_sets check_heartbeat check_breaker Breaker.validate
    check_cache check_cacheable is_procedure validate_invalidate_on check_step check_statement
    statement_result ddl_result check_option check_each trim trim_end is_blank validate_list_query
    validate_await check_intervals validate_cost has_control parse_decimal_amount check_session_vars
    check_variables_driver check_dots check_body check_isolation reject_multi_statement
    scan_statement check_tail after_scan is_safe_sql_identifier trim_start after_newline after_close
    opening strip_loop strip_leading_whitespace_and_comments first_token is_one_of check_second
    check_first check_trimmed reject_privileged_ddl
accepted = refl

validate-WithinLimits_example : WithinLimits profile
validate-WithinLimits_example = validate-WithinLimits libraries profile accepted

validate-Screened_example : All Identifier (names_of profile) × All Screened (statements_of profile)
validate-Screened_example = validate-Screened libraries profile accepted
