-- ===== src/Pool/Tests.antt =====
-- src/pool.rs on concrete registries.
use mcpg_plugin_backend_sql.Common.{ℕ, ◌+◌, ◌≡◌, refl, [], ◌∷◌, some, Result, ok, length, codes}
use mcpg_plugin_backend_sql.Common.Maps.{lookup, insert, remove}
use mcpg_plugin_backend_sql.Pool.{
  PoolRegistryConfig, PoolEntry, Pools, is_older, oldest, lru, make_room, get_or_build, on_miss,
  add_entry, evict_for,
}
use mcpg_plugin_backend_sql.Pool.Laws.{Distinct}
use mcpg_plugin_backend_sql.Pool.Calls.{Called, get_or_build-Called}
use mcpg_plugin_backend_sql.Pool.Revocation.{Revoked, evict_for-Revoked}

abbrev config : PoolRegistryConfig
config = record { pool_max_entries = 2; idle_eviction = 900 }

abbrev entry : ℕ → ℕ → PoolEntry ℕ
entry p t = record { pool = p; cred_keys = (codes "vault", codes "db") ∷ []; last_used = t }

abbrev two_pools : Pools ℕ
two_pools = (7, entry 70 100) ∷ (3, entry 30 50) ∷ []

two_pools-Distinct : Distinct two_pools
unfolding lookup
two_pools-Distinct = (refl, (refl, tt))

abbrev build : Result ℕ ℕ
build = ok 90

third_evicts_oldest :
    get_or_build config 200 9 [] build two_pools
    ≡ some
        (ok 90, (7, entry 70 100) ∷ (9, record { pool = 90; cred_keys = []; last_used = 200 }) ∷ [])
unfolding get_or_build lookup insert remove on_miss add_entry make_room lru oldest is_older
third_evicts_oldest = refl

get_or_build-Called_example :
    (r : Result ℕ ℕ) × (after : Pools ℕ) × (get_or_build config 200 9 [] build two_pools
      ≡ some (r, after))
    × Called 2 200 9 build two_pools after r
get_or_build-Called_example = get_or_build-Called config 200 9 [] build two_pools two_pools-Distinct

evict_for-Revoked_example :
    Revoked
      (codes "vault")
      (codes "db")
      two_pools
      (evict_for (codes "vault") (codes "db") two_pools).1
    × ((evict_for (codes "vault") (codes "db") two_pools).0
          + length (evict_for (codes "vault") (codes "db") two_pools).1
        ≡ length two_pools)
evict_for-Revoked_example =
    evict_for-Revoked (codes "vault") (codes "db") two_pools two_pools-Distinct
