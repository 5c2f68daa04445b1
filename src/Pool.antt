-- ===== src/Pool.antt =====
-- src/pool.rs: the registry of connection pools, one for each credential digest. A digest is the
-- number of its 32 bytes, in whose order digests compare; the map is an association list, a pool's
-- handle is the parameter `P`, the time is the argument `now`, in milliseconds, and the outcome of
-- `build()` is an argument. Every operation holds the registry's lock from its first look at the map
-- to its end, so that an operation is one step. The metrics are left out.
pub mod Calls
pub mod Eviction
pub mod Laws
pub mod Lru
pub mod Revocation
mod Tests
use mcpg_plugin_backend_sql.Common.{
  ℕ, zero, suc, ◌-◌, Bool, true, false, ◌&&◌, ◌||◌, List, [], ◌∷◌, Option, none, some, Result, ok,
  err, any, length, ltb, leb, ◌==◌, if◌then◌else◌, Text, text_eq,
}
use mcpg_plugin_backend_sql.Common.Maps.{lookup, insert, remove}

pub record PoolRegistryConfig : Type 0 where
  pub pool_max_entries : ℕ
  pub idle_eviction : ℕ

-- `PoolRegistryConfig::default`.
abbrev pub default_registry_config : PoolRegistryConfig
default_registry_config = record { pool_max_entries = 256; idle_eviction = 900000 }

pub record PoolEntry (P : Type 0) : Type 0 where
  pub pool : P
  pub cred_keys : List (Text × Text)
  pub last_used : ℕ

abbrev pub Pools : Type 0 → Type 0
Pools P = List (ℕ × PoolEntry P)

module _ {P : Type 0} where
  -- `(last_used, digest)` of the first entry is below that of the second.
  unfoldable pub is_older : ℕ × PoolEntry P → ℕ × PoolEntry P → Bool
  is_older (j, e) (k, f) = ltb e.last_used f.last_used || ((e.last_used == f.last_used) && ltb j k)

  oldest : ℕ × PoolEntry P → Pools P → ℕ × PoolEntry P
  oldest best [] = best
  oldest best (x ∷ pools) = oldest (if is_older x best then x else best) pools

  -- `pools.iter().min_by_key(..)`, with its entry.
  unfoldable pub lru : Pools P → Option (ℕ × PoolEntry P)
  unfolding oldest is_older
  lru [] = none
  lru (x ∷ pools) = some (oldest x pools)

  -- The loop that makes room; `none` if the fuel runs out first.
  unfoldable pub make_room : ℕ → ℕ → Pools P → Option (Pools P)
  make_room max_entries zero pools = if ltb (length pools) max_entries then some pools else none
  make_room max_entries (suc fuel) pools =
      let next = make_room max_entries fuel in
      if ltb (length pools) max_entries
      then some pools
      else elim (lru pools) [ none ↦ some pools | some (k, e) ↦ next (remove k pools) ]

  abbrev touch : ℕ → PoolEntry P → PoolEntry P
  touch now e = record e { last_used = now }

  add_entry : ℕ → ℕ → List (Text × Text) → P → Option (Pools P) → Option (Pools P)
  add_entry now digest cred_keys p none = none
  add_entry now digest cred_keys p (some pools) =
      some (insert digest (record { pool = p; cred_keys = cred_keys; last_used = now }) pools)

  on_miss :
      {E : Type 0}
      → PoolRegistryConfig
      → ℕ
      → ℕ
      → List (Text × Text)
      → Result E P
      → Pools P
      → Option (Result E P × Pools P)
  on_miss config now digest cred_keys (err e) pools = some (err e, pools)
  on_miss config now digest cred_keys (ok p) pools =
      elim (add_entry now digest cred_keys p
        (make_room config.pool_max_entries (suc (length pools)) pools)) [
          | none ↦ none
          | some after ↦ some (ok p, after)
        ]

  pub get_or_build :
      {E : Type 0}
      → PoolRegistryConfig
      → ℕ
      → ℕ
      → List (Text × Text)
      → Result E P
      → Pools P
      → Option (Result E P × Pools P)
  get_or_build config now digest cred_keys build pools = elim (lookup digest pools) [
    | some e ↦ some (ok e.pool, insert digest (touch now e) pools)
    | none ↦ on_miss config now digest cred_keys build pools
  ]

  -- The keys that a sweep collects, and their removal one by one.
  unfoldable pub keys_where : (PoolEntry P → Bool) → Pools P → List ℕ
  keys_where p [] = []
  keys_where p ((k, e) ∷ pools) = let rest = keys_where p pools in if p e then k ∷ rest else rest

  unfoldable pub remove_each : List ℕ → Pools P → Pools P
  remove_each [] pools = pools
  remove_each (k ∷ ks) pools = remove_each ks (remove k pools)

  unfoldable pub evict_where : (PoolEntry P → Bool) → Pools P → ℕ × Pools P
  unfolding keys_where remove_each
  evict_where p pools = (length (keys_where p pools), remove_each (keys_where p pools) pools)

  abbrev pub is_for : Text → Text → PoolEntry P → Bool
  is_for plugin_id target e =
      any (λ (c : Text × Text). text_eq c.0 plugin_id && text_eq c.1 target) e.cred_keys

  abbrev pub evict_for : Text → Text → Pools P → ℕ × Pools P
  evict_for plugin_id target pools = evict_where (is_for plugin_id target) pools

  abbrev pub evict_for_secret : Text → Pools P → ℕ × Pools P
  evict_for_secret secret_ref pools = (length pools, [])

  abbrev pub is_idle : PoolRegistryConfig → ℕ → PoolEntry P → Bool
  is_idle config now e = leb config.idle_eviction (now - e.last_used)

  abbrev pub sweep_idle : PoolRegistryConfig → ℕ → Pools P → ℕ × Pools P
  sweep_idle config now pools = evict_where (is_idle config now) pools
