-- ===== src/Pool/Lru.antt =====
-- src/pool.rs: the victim of an eviction.
use mcpg_plugin_backend_sql.Common.{
  ℕ, ◌≤◌, ◌<◌, ◌≡◌, refl, sym, ◌∙◌, true, false, ◌⊎◌, [], ◌∷◌, none, some, All, Bool-cases, inl,
  inr, arith,
}
use mcpg_plugin_backend_sql.Common.Maps.{lookup}
use mcpg_plugin_backend_sql.Pool.{PoolEntry, Pools, is_older, oldest, lru}
use mcpg_plugin_backend_sql.Pool.Laws.{Distinct}

module _ {P : Type 0} where
  -- The first entry was used later than the second, or at the same time with a digest at least as
  -- large.
  abbrev pub NotOlder : ℕ × PoolEntry P → ℕ × PoolEntry P → Type 0
  NotOlder (j, e) (k, f) = (f.last_used < e.last_used) ⊎ ((f.last_used ≡ e.last_used) × (k ≤ j))

  NotOlder-trans : (x y z : ℕ × PoolEntry P) → NotOlder x y → NotOlder y z → NotOlder x z
  NotOlder-trans x y z (inl a) (inl b) = inl (omega arith)
  NotOlder-trans x y z (inl a) (inr b) = inl (omega (arith, b.0))
  NotOlder-trans x y z (inr a) (inl b) = inl (omega (arith, a.0))
  NotOlder-trans x y z (inr a) (inr b) = inr (omega (arith, a.0, b.0), omega (arith, a.1, b.1))

  is_older→NotOlder : (x y : ℕ × PoolEntry P) → is_older x y ≡ true → NotOlder y x
  unfolding is_older
  is_older→NotOlder (j, e) (k, f) h = ground arith

  not_older→NotOlder : (x y : ℕ × PoolEntry P) → is_older x y ≡ false → NotOlder x y
  unfolding is_older
  not_older→NotOlder (j, e) (k, f) h = ground arith

  oldest-replaced :
      (x y : ℕ × PoolEntry P) (pools : Pools P)
      → is_older y x ≡ true
      → oldest x (y ∷ pools) ≡ oldest y pools
  unfolding oldest
  oldest-replaced x y pools h = rw h refl

  oldest-kept :
      (x y : ℕ × PoolEntry P) (pools : Pools P)
      → is_older y x ≡ false
      → oldest x (y ∷ pools) ≡ oldest x pools
  unfolding oldest
  oldest-kept x y pools h = rw h refl

  oldest_single : (x : ℕ × PoolEntry P) → oldest x [] ≡ x
  unfolding oldest
  oldest_single x = refl

  oldest-least :
      (x : ℕ × PoolEntry P) (pools : Pools P) (v : ℕ × PoolEntry P)
      → oldest x pools ≡ v
      → All (λ z. NotOlder z v) (x ∷ pools)
  oldest-least x [] v h = rw (sym h ∙ oldest_single x) (inr (refl, omega arith), tt)
  oldest-least x (y ∷ pools) v h = elim (Bool-cases (is_older y x)) [
    | inl e ↦
        let (least, rest) = oldest-least y pools v (sym (oldest-replaced x y pools e) ∙ h) in
        (NotOlder-trans x y v (is_older→NotOlder y x e) least, (least, rest))
    | inr e ↦
        let (least, rest) = oldest-least x pools v (sym (oldest-kept x y pools e) ∙ h) in
        (least, (NotOlder-trans y x v (not_older→NotOlder y x e) least, rest))
  ]

  absent_tail :
      (j : ℕ) (x : ℕ × PoolEntry P) (pools : Pools P)
      → lookup j (x ∷ pools) ≡ none
      → lookup j pools ≡ none
  unfolding lookup
  absent_tail j (i, f) pools h = ground arith

  oldest-lookup :
      (j k : ℕ) (e v : PoolEntry P) (pools : Pools P)
      → Distinct ((j, e) ∷ pools)
      → oldest (j, e) pools ≡ (k, v)
      → lookup k ((j, e) ∷ pools) ≡ some v
  unfolding lookup
  oldest-lookup j k e v [] d h = ground (arith, sym (oldest_single (j, e)) ∙ h)
  oldest-lookup j k e v ((i, f) ∷ pools) d h = elim (Bool-cases (is_older (i, f) (j, e))) [
    | inl q ↦ ground (
      arith,
      oldest-lookup i k f v pools d.1 (sym (oldest-replaced (j, e) (i, f) pools q) ∙ h),
      d.0,
    )
    | inr q ↦ ground (
      arith,
      oldest-lookup j k e v pools (absent_tail j (i, f) pools d.0, d.1.1)
          (sym (oldest-kept (j, e) (i, f) pools q) ∙ h),
      d.0,
      d.1.0,
    )
  ]

  pub lru-lookup :
      (pools : Pools P) (k : ℕ) (v : PoolEntry P)
      → Distinct pools
      → lru pools ≡ some (k, v)
      → (lookup k pools ≡ some v) × All (λ z. NotOlder z (k, v)) pools
  unfolding lru
  lru-lookup [] k v d h = absurd cc
  lru-lookup ((j, e) ∷ pools) k v d h =
      (oldest-lookup j k e v pools d cc, oldest-least (j, e) pools (k, v) cc)

  pub lru-none : (pools : Pools P) → lru pools ≡ none → pools ≡ []
  unfolding lru
  lru-none [] h = refl
  lru-none (x ∷ pools) h = absurd cc
