-- ===== src/Pool/Calls.antt =====
-- src/pool.rs: a call of `get_or_build`.
use mcpg_plugin_backend_sql.Common.{
  ℕ, suc, ◌+◌, false, [], ◌∷◌, ◌≤◌, max, ◌≡◌, refl, List, none, some, length, Option-cases, inl,
  inr, arith, Result, ok, err, Text, ◌==◌,
}
use mcpg_plugin_backend_sql.Common.Maps.{lookup, insert, lookup-insert}
use mcpg_plugin_backend_sql.Pool.{
  PoolRegistryConfig, PoolEntry, Pools, get_or_build, on_miss, add_entry, touch,
}
use mcpg_plugin_backend_sql.Pool.Laws.{Distinct, insert-Distinct}
use mcpg_plugin_backend_sql.Pool.Eviction.{Room, make_room-Room, All-lookup}

module _ {P : Type 0} where
  length-insert_present :
      (k : ℕ) (e f : PoolEntry P) (pools : Pools P)
      → lookup k pools ≡ some f
      → length (insert k e pools) ≡ length pools
  unfolding insert lookup
  length-insert_present k e f [] h = absurd cc
  length-insert_present k e f ((j, g) ∷ pools) h = ground (arith, length-insert_present k e f pools)

  length-insert-le :
      (k : ℕ) (e : PoolEntry P) (pools : Pools P) → length (insert k e pools) ≤ 1 + length pools
  unfolding insert
  length-insert-le k e [] = omega arith
  length-insert-le k e ((j, g) ∷ pools) = ground (arith, length-insert-le k e pools)

  -- What a call leaves, and what it returns.
  pub record Called {E : Type 0} (max_entries now digest : ℕ) (build : Result E P)
      (before after : Pools P) (r : Result E P) : Type 0 where
    pub distinct : Distinct after
    pub bounded : length before ≤ max 1 max_entries → length after ≤ max 1 max_entries
    pub hit : (e : PoolEntry P) → lookup digest before ≡ some e → r ≡ ok e.pool
    pub miss : lookup digest before ≡ none → r ≡ build
    pub failed : (e : E) → r ≡ err e → after ≡ before
    pub registered :
        (p : P)
        → r ≡ ok p
        → (e : PoolEntry P) × (lookup digest after ≡ some e) × (e.pool ≡ p) × (e.last_used ≡ now)
    pub others :
        (k : ℕ) (e : PoolEntry P)
        → (k == digest) ≡ false
        → lookup k after ≡ some e
        → lookup k before ≡ some e

  module _ {E : Type 0} (config : PoolRegistryConfig) (now digest : ℕ)
      (cred_keys : List (Text × Text)) where
    hit-Called :
        (build : Result E P) (pools : Pools P) (e : PoolEntry P)
        → Distinct pools
        → lookup digest pools ≡ some e
        → Called config.pool_max_entries now digest build pools
            (insert digest (touch now e) pools)
            (ok e.pool)
    hit-Called build pools e d h = record {
      distinct = insert-Distinct digest (touch now e) pools d;
      bounded = λ l. omega (arith, length-insert_present digest (touch now e) e pools h);
      hit = λ f q. cc;
      miss = λ q. absurd cc;
      failed = λ f q. absurd cc;
      registered = λ p q.
          (touch now e, ground (arith, lookup-insert digest digest (touch now e) pools), cc, refl);
      others = λ k f q l. ground (arith, lookup-insert digest k (touch now e) pools);
    }

    miss-Called :
        (p : P) (pools room : Pools P)
        → lookup digest pools ≡ none
        → Room config.pool_max_entries pools room
        → Called {E = E} config.pool_max_entries now digest
            (ok p)
            pools
            (insert digest (record { pool = p; cred_keys = cred_keys; last_used = now }) room)
            (ok p)
    miss-Called p pools room h r =
        let e : PoolEntry P = record { pool = p; cred_keys = cred_keys; last_used = now } in
        record {
          distinct = insert-Distinct digest e room r.distinct;
          bounded = λ l. omega (arith, length-insert-le digest e room, r.room);
          hit = λ f q. absurd cc;
          miss = λ q. refl;
          failed = λ f q. absurd cc;
          registered = λ p q. (e, ground (arith, lookup-insert digest digest e room), cc, refl);
          others = λ k f q l.
              All-lookup (λ z. lookup z.0 pools ≡ some z.1) k f room r.kept
                (ground (arith, lookup-insert digest k e room));
        }

    failed-Called :
        (e : E) (pools : Pools P)
        → Distinct pools
        → lookup digest pools ≡ none
        → Called config.pool_max_entries now digest (err e) pools pools (err e)
    failed-Called e pools d h = record {
      distinct = d;
      bounded = λ l. l;
      hit = λ f q. absurd cc;
      miss = λ q. refl;
      failed = λ f q. refl;
      registered = λ p q. absurd cc;
      others = λ k f q l. l;
    }

    on_miss-Called :
        (build : Result E P) (pools : Pools P)
        → Distinct pools
        → lookup digest pools ≡ none
        → (r : Result E P) × (after : Pools P) × (on_miss config now digest cred_keys build pools
            ≡ some (r, after))
          × Called config.pool_max_entries now digest build pools after r
    unfolding on_miss add_entry
    on_miss-Called (err e) pools d h = (err e, pools, refl, failed-Called e pools d h)
    on_miss-Called (ok p) pools d h =
        let (room, e, r) =
          make_room-Room config.pool_max_entries (suc (length pools)) pools d (omega arith) in
        (ok p, _, rw (e, on_miss, add_entry) refl, miss-Called p pools room h r)

    -- On a registry of distinct digests, every call returns. On a hit it returns the registered pool and does not need the build; on a
    -- miss it returns what the build returns, and a failed build leaves the registry as it was. A
    -- pool that is returned is registered under its digest, as used now. A registry within its bound
    -- stays within it, and no other entry is added or changed.
    pub get_or_build-Called :
        (build : Result E P) (pools : Pools P)
        → Distinct pools
        → (r : Result E P) × (after : Pools P) × (get_or_build config now digest cred_keys build
              pools
            ≡ some (r, after))
          × Called config.pool_max_entries now digest build pools after r
    unfolding get_or_build
    get_or_build-Called build pools d = elim (Option-cases (lookup digest pools)) [
      | inl h ↦
          let (r, after, e, c) = on_miss-Called build pools d h in
          (r, after, rw (h, get_or_build) e, c)
      | inr (e, h) ↦ (ok e.pool, _, rw (h, get_or_build) refl, hit-Called build pools e d h)
    ]
