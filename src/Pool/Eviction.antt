-- ===== src/Pool/Eviction.antt =====
-- src/pool.rs: what the loop that makes room leaves.
use mcpg_plugin_backend_sql.Common.{
  ℕ, zero, suc, ◌≤◌, ◌<◌, max, ◌≡◌, refl, subst, ◌∙◌, ◌⊎◌, [], ◌∷◌, none, some, All, length, ltb,
  ◌==◌, Bool-cases, Option-cases, inl, inr, arith,
}
use mcpg_plugin_backend_sql.Common.Maps.{lookup, remove, lookup-remove}
use mcpg_plugin_backend_sql.Pool.{PoolEntry, Pools, lru, make_room}
use mcpg_plugin_backend_sql.Pool.Laws.{Distinct, remove-Distinct}
use mcpg_plugin_backend_sql.Pool.Lru.{NotOlder, lru-lookup, lru-none}

module _ {P : Type 0} where
  length-remove : (k : ℕ) (pools : Pools P) → length (remove k pools) ≤ length pools
  unfolding remove
  length-remove k [] = omega arith
  length-remove k ((j, e) ∷ pools) = ground (arith, length-remove k pools)

  length-remove-present :
      (k : ℕ) (e : PoolEntry P) (pools : Pools P)
      → lookup k pools ≡ some e
      → length (remove k pools) < length pools
  unfolding lookup remove
  length-remove-present k e [] h = absurd cc
  length-remove-present k e ((j, f) ∷ pools) h =
      ground (arith, length-remove-present k e pools, length-remove k pools)

  -- A round of the loop: it stops, or removes the victim.
  make_room-cases :
      (n fuel : ℕ) (pools : Pools P)
      → ((make_room n (suc fuel) pools ≡ some pools) × (length pools < max 1 n))
        ⊎ ((k : ℕ) × (v : PoolEntry P) × (lru pools ≡ some (k, v))
            × (n ≤ length pools)
            × (make_room n (suc fuel) pools ≡ make_room n fuel (remove k pools)))
  unfolding make_room
  make_room-cases n fuel pools = elim (Bool-cases (ltb (length pools) n)) [
    | inl e ↦ inl (rw e refl, ground arith)
    | inr e ↦ elim (Option-cases (lru pools)) [
      | inl q ↦ inl (rw (e, q) refl, rw (lru-none pools q) (omega arith))
      | inr ((k, v), q) ↦ inr (k, v, q, ground arith, rw (e, q) refl)
    ]
  ]

  All-map :
      {Q R : ℕ × PoolEntry P → Type 0} (f : (z : ℕ × PoolEntry P) → Q z → R z) (pools : Pools P)
      → All Q pools
      → All R pools
  All-map f [] a = tt
  All-map f (x ∷ pools) a = (f x a.0, All-map f pools a.1)

  pub All-lookup :
      (Q : ℕ × PoolEntry P → Type 0) (k : ℕ) (e : PoolEntry P) (pools : Pools P)
      → All Q pools
      → lookup k pools ≡ some e
      → Q (k, e)
  unfolding lookup
  All-lookup Q k e [] a h = absurd cc
  All-lookup Q k e ((j, f) ∷ pools) a h = elim (Bool-cases (j == k)) [
    | inl q ↦ let same : (j, f) ≡ (k, e) = ground arith in subst Q same a.0
    | inr q ↦ All-lookup Q k e pools a.1 (ground arith)
  ]

  lookups_self : (pools : Pools P) → Distinct pools → All (λ z. lookup z.0 pools ≡ some z.1) pools
  unfolding lookup
  lookups_self [] d = tt
  lookups_self ((k, e) ∷ pools) d =
      (ground arith, All-map (λ (j, f) h. ground (arith, h, d.0)) pools (lookups_self pools d.1))

  -- What the loop leaves: room for one more, keys of which none was changed, and of two pools of
  -- which one had to go, the one used later.
  pub record Room (n : ℕ) (before after : Pools P) : Type 0 where
    pub distinct : Distinct after
    pub room : length after < max 1 n
    pub untouched : length before < n → after ≡ before
    pub kept : All (λ z. lookup z.0 before ≡ some z.1) after
    pub evicted_oldest :
        (k : ℕ) (e : PoolEntry P)
        → lookup k before ≡ some e
        → lookup k after ≡ none
        → All (λ z. NotOlder z (k, e)) after

  remove-lookup :
      (k j : ℕ) (e : PoolEntry P) (pools : Pools P)
      → lookup j (remove k pools) ≡ some e
      → lookup j pools ≡ some e
  remove-lookup k j e pools h = ground (arith, lookup-remove k j pools)

  stop-Room :
      (n : ℕ) (pools : Pools P) → Distinct pools → length pools < max 1 n → Room n pools pools
  stop-Room n pools d h = record {
    distinct = d;
    room = h;
    untouched = λ l. refl;
    kept = lookups_self pools d;
    evicted_oldest = λ k e l m. absurd cc;
  }

  step-Room :
      (n k : ℕ) (v : PoolEntry P) (before after : Pools P)
      → Distinct before
      → lru before ≡ some (k, v)
      → n ≤ length before
      → Room n (remove k before) after
      → Room n before after
  step-Room n k v before after d h long r =
      let (present, least) = lru-lookup before k v d h in
      let kept = All-map (λ (j, e) l. remove-lookup k j e before l) after r.kept in
      record {
        distinct = r.distinct;
        room = r.room;
        untouched = λ l. absurd (omega arith);
        kept = kept;
        evicted_oldest = λ j e l m. elim (Bool-cases (k == j)) [
          | inl q ↦
              let same : (k, v) ≡ (j, e) = ground (arith, present, l) in
              subst (λ x. All (λ z. NotOlder z x) after) same
                (All-map (λ (i, f) z. All-lookup (λ z. NotOlder z (k, v)) i f before least z) after
                  kept)
          | inr q ↦ r.evicted_oldest j e (ground (arith, lookup-remove k j before)) m
        ];
      }

  -- On a registry of distinct digests and with more fuel than pools, the loop that makes room
  -- ends. It leaves place for one more entry, changes and adds none, removes
  -- none if there was place, and of two pools removes the one that was used less recently (of two
  -- used at once, the one with the smaller digest).
  pub make_room-Room :
      (n fuel : ℕ) (pools : Pools P)
      → Distinct pools
      → length pools < fuel
      → (after : Pools P) × (make_room n fuel pools ≡ some after) × Room n pools after
  make_room-Room n zero pools d h = absurd (omega arith)
  make_room-Room n (suc fuel) pools d h = elim (make_room-cases n fuel pools) [
    | inl (e, short) ↦ (pools, e, stop-Room n pools d short)
    | inr (k, v, q, long, e) ↦
        let shorter = length-remove-present k v pools (lru-lookup pools k v d q).0 in
        let (after, f, r) =
          make_room-Room n fuel (remove k pools) (remove-Distinct k pools d) (omega arith) in
        (after, e ∙ f, step-Room n k v pools after d q long r)
  ]
