-- ===== src/Pool/Laws.antt =====
-- src/pool.rs: lemmas on the registry's map, whose keys are distinct as a hash map's are.
use mcpg_plugin_backend_sql.Common.{
  ℕ, ◌+◌, ◌≡◌, refl, ap, ◌∙◌, Bool, false, not, List, [], ◌∷◌, none, filter, contains, length, ◌==◌,
  Bool-cases, inl, inr, arith,
}
use mcpg_plugin_backend_sql.Common.Maps.{lookup, insert, remove, lookup-insert, lookup-remove}
use mcpg_plugin_backend_sql.Pool.{PoolEntry, Pools, keys_where, remove_each, evict_where}

==_sym-false : (j k : ℕ) → (j == k) ≡ false → (k == j) ≡ false
==_sym-false j k h = ground arith

module _ {P : Type 0} where
  abbrev pub Distinct : Pools P → Type 0
  Distinct [] = Unit
  Distinct ((k, e) ∷ pools) = (lookup k pools ≡ none) × Distinct pools

  pub remove-Distinct : (k : ℕ) (pools : Pools P) → Distinct pools → Distinct (remove k pools)
  unfolding remove
  remove-Distinct k [] d = tt
  remove-Distinct k ((j, e) ∷ pools) d = elim (Bool-cases (j == k)) [
    | inl e ↦ rw e (remove-Distinct k pools d.1)
    | inr e ↦ rw e (ground (arith, lookup-remove k j pools, d.0), remove-Distinct k pools d.1)
  ]

  pub insert-Distinct :
      (k : ℕ) (e : PoolEntry P) (pools : Pools P) → Distinct pools → Distinct (insert k e pools)
  unfolding insert lookup
  insert-Distinct k e [] d = (refl, tt)
  insert-Distinct k e ((j, f) ∷ pools) d = elim (Bool-cases (j == k)) [
    | inl q ↦ rw q (ground (arith, d.0), d.1)
    | inr q ↦ rw q (ground (arith, lookup-insert k j e pools, d.0), insert-Distinct k e pools d.1)
  ]

  pub remove-absent : (k : ℕ) (pools : Pools P) → lookup k pools ≡ none → remove k pools ≡ pools
  unfolding lookup remove
  remove-absent k [] h = refl
  remove-absent k ((j, e) ∷ pools) h = ground (arith, remove-absent k pools)

  remove_each-cons :
      (ks : List ℕ) (k : ℕ) (e : PoolEntry P) (pools : Pools P)
      → contains k ks ≡ false
      → remove_each ks ((k, e) ∷ pools) ≡ (k, e) ∷ remove_each ks pools
  unfolding remove_each remove
  remove_each-cons [] k e pools h = refl
  remove_each-cons (j ∷ ks) k e pools h = elim (Bool-cases (j == k)) [
    | inl q ↦ absurd (ground arith)
    | inr q ↦ rw (==_sym-false j k q) (remove_each-cons ks k e (remove j pools) (ground arith))
  ]

  keys_where-absent :
      (p : PoolEntry P → Bool) (k : ℕ) (pools : Pools P)
      → lookup k pools ≡ none
      → contains k (keys_where p pools) ≡ false
  unfolding lookup keys_where
  keys_where-absent p k [] h = refl
  keys_where-absent p k ((j, e) ∷ pools) h = ground (arith, keys_where-absent p k pools)

  abbrev pub keep : (PoolEntry P → Bool) → Pools P → Pools P
  keep p pools = filter (λ (x : ℕ × PoolEntry P). not (p x.1)) pools

  remove-head :
      (k : ℕ) (e : PoolEntry P) (pools : Pools P) → remove k ((k, e) ∷ pools) ≡ remove k pools
  unfolding remove
  remove-head k e pools = ground arith

  remove_each-keys_where :
      (p : PoolEntry P → Bool) (pools : Pools P)
      → Distinct pools
      → remove_each (keys_where p pools) pools ≡ keep p pools
  unfolding keys_where remove_each
  remove_each-keys_where p [] d = refl
  remove_each-keys_where p ((k, e) ∷ pools) d = elim (Bool-cases (p e)) [
    | inl q ↦ rw q (
        ap (remove_each (keys_where p pools)) (remove-head k e pools ∙ remove-absent k pools d.0)
        ∙ remove_each-keys_where p pools d.1)
    | inr q ↦ rw q (
        remove_each-cons (keys_where p pools) k e pools (keys_where-absent p k pools d.0)
        ∙ ap (λ r. (k, e) ∷ r) (remove_each-keys_where p pools d.1))
  ]

  count_kept :
      (p : PoolEntry P → Bool) (pools : Pools P)
      → length (keys_where p pools) + length (keep p pools) ≡ length pools
  unfolding keys_where
  count_kept p [] = refl
  count_kept p ((k, e) ∷ pools) = ground (arith, count_kept p pools)

  pub evict_where-keep :
      (p : PoolEntry P → Bool) (pools : Pools P)
      → Distinct pools
      → ((evict_where p pools).1 ≡ keep p pools)
        × ((evict_where p pools).0 + length (evict_where p pools).1 ≡ length pools)
  unfolding evict_where
  evict_where-keep p pools d =
      (remove_each-keys_where p pools d, rw (remove_each-keys_where p pools d) (count_kept p pools))

  keep-absent :
      (p : PoolEntry P → Bool) (k : ℕ) (pools : Pools P)
      → lookup k pools ≡ none
      → lookup k (keep p pools) ≡ none
  unfolding lookup
  keep-absent p k [] h = refl
  keep-absent p k ((j, e) ∷ pools) h = ground (arith, keep-absent p k pools)

  pub keep-Distinct :
      (p : PoolEntry P → Bool) (pools : Pools P) → Distinct pools → Distinct (keep p pools)
  keep-Distinct p [] d = tt
  keep-Distinct p ((k, e) ∷ pools) d = elim (Bool-cases (p e)) [
    | inl q ↦ rw q (keep-Distinct p pools d.1)
    | inr q ↦ rw q (keep-absent p k pools d.0, keep-Distinct p pools d.1)
  ]
