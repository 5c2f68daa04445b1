-- ===== src/Pool/Revocation.antt =====
-- src/pool.rs: what a revocation and a sweep remove.
use mcpg_plugin_backend_sql.Common.{
  ℕ, ◌+◌, ◌≡◌, refl, ◌⊎◌, true, not, ◌&&◌, List, [], ◌∷◌, any, length, Bool-cases, inl, inr, filter,
  Text, text_eq, text_eq_self, text_eq→eq, arith,
}
use mcpg_plugin_backend_sql.Pool.{
  PoolRegistryConfig, PoolEntry, Pools, evict_for, is_for, sweep_idle, is_idle,
}
use mcpg_plugin_backend_sql.Pool.Laws.{Distinct, keep, evict_where-keep}

-- The credential is among the keys.
unfoldable pub Has : Text → Text → List (Text × Text) → Type 0
Has plugin_id target [] = ⊥
Has plugin_id target (c ∷ keys) = (c ≡ (plugin_id, target)) ⊎ Has plugin_id target keys

is_for-Has :
    (plugin_id target : Text) (keys : List (Text × Text))
    → any (λ (c : Text × Text). text_eq c.0 plugin_id && text_eq c.1 target) keys ≡ true
    → Has plugin_id target keys
unfolding Has
is_for-Has plugin_id target [] h = cc
is_for-Has plugin_id target ((a, b) ∷ keys) h =
    elim (Bool-cases (text_eq a plugin_id && text_eq b target)) [
      | inl e ↦
          let both : (text_eq a plugin_id ≡ true) × (text_eq b target ≡ true) = ground arith in
          inl (rw (text_eq→eq a plugin_id both.0, text_eq→eq b target both.1) refl)
      | inr e ↦ inr (is_for-Has plugin_id target keys (ground arith))
    ]

Has-is_for :
    (plugin_id target : Text) (keys : List (Text × Text))
    → Has plugin_id target keys
    → any (λ (c : Text × Text). text_eq c.0 plugin_id && text_eq c.1 target) keys ≡ true
unfolding Has
Has-is_for plugin_id target [] h = absurd h
Has-is_for plugin_id target (c ∷ keys) (inl e) =
    rw (e, text_eq_self plugin_id, text_eq_self target) refl
Has-is_for plugin_id target (c ∷ keys) (inr h) = ground (arith, Has-is_for plugin_id target keys h)

module _ {P : Type 0} where
  -- The pools left of a list by taking those out that have the credential, and only those.
  pub data Revoked (plugin_id target : Text) : Pools P → Pools P → Type 0 where
    nothing_left : Revoked plugin_id target [] []
    taken_out :
        {x : ℕ × PoolEntry P} {pools after : Pools P}
        → Has plugin_id target x.1.cred_keys
        → Revoked plugin_id target pools after
        → Revoked plugin_id target (x ∷ pools) after
    kept_in :
        {x : ℕ × PoolEntry P} {pools after : Pools P}
        → ¬ Has plugin_id target x.1.cred_keys
        → Revoked plugin_id target pools after
        → Revoked plugin_id target (x ∷ pools) (x ∷ after)

  keep-Revoked :
      (plugin_id target : Text) (pools : Pools P)
      → Revoked plugin_id target pools (keep (is_for plugin_id target) pools)
  keep-Revoked plugin_id target [] = nothing_left
  keep-Revoked plugin_id target (x ∷ pools) = elim (Bool-cases (is_for plugin_id target x.1)) [
    | inl e ↦ rw e (
        taken_out (is_for-Has plugin_id target x.1.cred_keys e)
          (keep-Revoked plugin_id target pools))
    | inr e ↦ rw e (
        kept_in (λ h. cc (e, Has-is_for plugin_id target x.1.cred_keys h))
          (keep-Revoked plugin_id target pools))
  ]

  -- On a registry of distinct digests, a revocation of a credential goes through the pools in their
  -- order: it removes each that has the pair of plugin and target among its keys, keeps each that
  -- has not, and returns the number of pools it removed.
  pub evict_for-Revoked :
      (plugin_id target : Text) (pools : Pools P)
      → Distinct pools
      → Revoked plugin_id target pools (evict_for plugin_id target pools).1
        × ((evict_for plugin_id target pools).0 + length (evict_for plugin_id target pools).1
            ≡ length pools)
  evict_for-Revoked plugin_id target pools d =
      let kept = evict_where-keep (is_for plugin_id target) pools d in
      (rw kept.0 (keep-Revoked plugin_id target pools), kept.1)

  -- On a registry of distinct digests, a sweep keeps exactly the pools that were used within the idle
  -- threshold, in their order, and returns the number of pools it removed.
  pub sweep_idle-keeps :
      (config : PoolRegistryConfig) (now : ℕ) (pools : Pools P)
      → Distinct pools
      → ((sweep_idle config now pools).1
          ≡ filter (λ (x : ℕ × PoolEntry P). not (is_idle config now x.1)) pools)
        × ((sweep_idle config now pools).0 + length (sweep_idle config now pools).1 ≡ length pools)
  sweep_idle-keeps config now pools d = evict_where-keep (is_idle config now) pools d
