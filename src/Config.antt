-- ===== src/Config.antt =====
-- src/config.rs, with the checks of src/stream.rs, src/auth/mod.rs and src/cost.rs that it calls: the
-- profile as it is read, and its validation. Fields that no check reads are left out. The libraries
-- that the checks ask are the record `Libraries`; every refusal is a constructor in place of its
-- sentence. `str::trim` is written for the ASCII blanks.
pub mod Parts
pub mod Validate
pub mod Soundness
pub mod Inlined
pub mod Limits
pub mod Engines
mod Tests
use mcpg_plugin_backend_sql.Common.{
  ℕ, Bool, true, false, not, ◌&&◌, ◌||◌, List, [], ◌∷◌, Option, none, some, Result, ok, err, map,
  Text, if◌then◌else◌,
}
use mcpg_plugin_backend_sql.Guards as Guards
use mcpg_plugin_backend_sql.Breaker as Breaker
use mcpg_plugin_backend_sql.Errors.{SqlError}
use mcpg_plugin_backend_sql.Params.{DriverKind}

pub record Url : Type 0 where
  pub scheme : Text
  pub password : Option Text

-- `url::Url::parse`, the token scanner of the plugin protocol, the CEL compiler and the standard
-- library's floats, of the type `F`.
pub record Libraries (F : Type 0) : Type 0 where
  pub parse_url : Text → Option Url
  pub cred_tokens : Text → List Text
  pub cel_compiles : Text → Bool
  pub parse_f64 : Text → Option F
  pub is_finite : F → Bool
  pub below_zero : F → Bool

pub data IsolationLevel : Type 0 where
  read_committed repeatable_read serializable : IsolationLevel

pub data RowMode : Type 0 where
  single many scalar affected_rows resource_contents stream_rows result_sets : RowMode

pub data QueryBody : Type 0 where
  sql_body procedure_body sql_file : Text → QueryBody

pub data ListQueryMode : Type 0 where
  keyset offset : ListQueryMode

pub record ListQueryConfig : Type 0 where
  pub sql : Text
  pub mode : ListQueryMode
  pub cursor_column : Option Text
  pub page_size : ℕ

pub record AwaitConfig : Type 0 where
  pub trigger : Option Text
  pub check : Text
  pub predicate : Text
  pub poll_interval_ms : ℕ
  pub timeout_ms : ℕ

-- `CacheInvalidateOn::Watch`.
pub record CacheInvalidateOn : Type 0 where
  pub sql : Text
  pub interval_ms : ℕ

pub record CacheSpec : Type 0 where
  pub enabled : Bool
  pub invalidate_on : Option CacheInvalidateOn

pub record CostSpec : Type 0 where
  pub amount : Option Text
  pub expression : Option Text
  pub currency : Text
  pub max_per_call : Option Text

-- src/stream.rs; of `initial`, the keys.
pub record StreamConfig : Type 0 where
  pub cursor_columns : List Text
  pub initial : List Text

-- src/auth/mod.rs.
pub data AuthConfig : Type 0 where
  rds_iam : (region username : Text) → AuthConfig
  azure_ad : (scope : Text) → AuthConfig
  gcp_iam : (username : Text) → AuthConfig
  aurora_failover : (endpoints : List Text) → AuthConfig

pub record PoolConfig : Type 0 where
  pub max_connections : ℕ
  pub min_idle : ℕ

pub record QueryShape : Type 0 where
  pub body : QueryBody
  pub row_mode : RowMode
  pub timeout_ms : Option ℕ
  pub progress_heartbeat_ms : Option ℕ
  pub stream : Option StreamConfig

-- Of `session_vars`, the keys.
pub record SqlBackendConfig : Type 0 where
  pub driver : DriverKind
  pub url : Text
  pub pool : PoolConfig
  pub query : QueryShape
  pub session_vars : List Text
  pub circuit_breaker : Option Breaker.CircuitBreakerConfig
  pub list_query : Option ListQueryConfig
  pub await : Option AwaitConfig
  pub isolation_level : Option IsolationLevel
  pub cache : Option CacheSpec
  pub cost : Option CostSpec
  pub auth : Option AuthConfig

-- `unfinished` stands for a check that ran out of fuel.
pub data Reason : Type 0 where
  url_does_not_parse wrong_scheme : Reason
  auth_field_is_empty auth_needs_postgres auth_with_password auth_with_cred_tokens : Reason
  no_connections min_idle_too_large : Reason
  stream_missing stream_not_allowed no_cursor_columns unsafe_cursor_column : Reason
  initial_not_declared placeholder_missing : Reason
  result_sets_need_procedure result_sets_unsupported : Reason
  heartbeat_too_fast : Reason
  breaker_refused : SqlError Breaker.Refusal → Reason
  text_is_empty interval_too_short : Reason
  statement_refused : Guards.Refusal → Reason
  page_size_out_of_range no_cursor_column unsafe_identifier : Reason
  poll_too_fast no_timeout timeout_below_poll : Reason
  cache_for_writes cache_for_stream cache_for_result_sets cache_for_procedure : Reason
  amount_and_expression amount_nor_expression : Reason
  not_a_decimal not_finite below_zero : Reason
  does_not_compile currency_has_control : Reason
  dotted_variable variables_unsupported : Reason
  isolation_unsupported : Reason
  unfinished : Reason
