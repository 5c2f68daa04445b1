-- ===== src/Config/Engines.antt =====
-- src/config.rs: what each database engine allows.
use mcpg_plugin_backend_sql.Common.{◌≡◌, true, false, ◌⊎◌, [], some, All, contains}
use mcpg_plugin_backend_sql.Params.{postgres, mysql, mariadb, sqlite}
use mcpg_plugin_backend_sql.Config.{
  Url, Libraries, AuthConfig, result_sets, IsolationLevel, serializable, SqlBackendConfig,
}
use mcpg_plugin_backend_sql.Config.Validate.{scheme_is, is_procedure}

-- What an engine cannot do is not asked of it.
pub record FitsEngine {F : Type 0} (libraries : Libraries F) (c : SqlBackendConfig) : Type 0 where
  pub scheme :
      (u : Url) × (libraries.parse_url c.url ≡ some u) × (scheme_is c.driver u.scheme ≡ true)
  pub auth :
      (a : AuthConfig)
      → c.auth ≡ some a
      → (c.driver ≡ postgres) × (libraries.cred_tokens c.url ≡ [])
  pub sets :
      c.query.row_mode ≡ result_sets
      → (is_procedure c.query.body ≡ true) × ((c.driver ≡ mysql) ⊎ (c.driver ≡ mariadb))
  pub no_variables : c.driver ≡ sqlite → c.session_vars ≡ []
  pub no_dots :
      (c.driver ≡ mysql) ⊎ (c.driver ≡ mariadb) → All (λ k. contains b'.' k ≡ false) c.session_vars
  pub serial :
      (l : IsolationLevel) → c.driver ≡ sqlite → c.isolation_level ≡ some l → l ≡ serializable
