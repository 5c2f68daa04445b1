-- ===== src/CacheKey/Tests.antt =====
-- src/cache.rs on a key that is the bytes themselves.
use mcpg_plugin_backend_sql.Common.{◌≡◌, refl, [], ◌∷◌, codes}
use mcpg_plugin_backend_sql.CacheKey.{build_cache_key, write_session_vars}
use mcpg_plugin_backend_sql.CacheKey.Session.{build_cache_key-spelled}

build_cache_key-spelled_example :
    build_cache_key
      (λ s. s)
      (codes "orders")
      (codes "SELECT 1")
      []
      ((codes "role", codes "user;tenant=b") ∷ [])
      0
    ≡ build_cache_key
        (λ s. s)
        (codes "orders")
        (codes "SELECT 1")
        []
        ((codes "role", codes "user") ∷ (codes "tenant", codes "b") ∷ [])
        0
build_cache_key-spelled_example =
    build_cache_key-spelled (λ s. s) (codes "orders") (codes "SELECT 1") [] 0 (codes "role")
      (codes "user") (codes "tenant") (codes "b") []

two_variables :
    write_session_vars ((codes "a", codes "1") ∷ (codes "b", codes "2") ∷ []) ≡ codes "a=1;b=2;"
unfolding write_session_vars
two_variables = refl
