-- ===== src/Trackers/Counts.antt =====
-- src/watch.rs and src/cache.rs: what the loops count.
use mcpg_plugin_backend_sql.Common.{
  ℕ, ◌+◌, ◌%◌, ◌^◌, ◌<◌, ◌≡◌, refl, sym, ap, inl, inr, Bool, true, false, List, [], ◌∷◌, Option,
  none, some, ok, err, if◌then◌else◌, Bool-cases, arith,
}
use mcpg_plugin_backend_sql.Trackers.{
  Json, is_some, first_scalar, same_cursor, Answer, Watch, watch_cursor, watch_tick, poll_loop,
  Invalidator, bump, invalidator_cursor, invalidator_tick, invalidation_loop,
}

module _ (json : Json) where
  -- The cursors of the answers that were not errors.
  abbrev pub cursors : List (Answer json) → List (Option json.Value)
  cursors [] = []
  cursors (err e ∷ later) = cursors later
  cursors (ok rows ∷ later) = first_scalar json rows ∷ cursors later

  -- A change from a known value: to another value, or to none.
  abbrev pub is_change : Option json.Value → Option json.Value → ℕ
  is_change before now =
      if same_cursor json now before then 0 else (if is_some before then 1 else 0)

  -- The changes along a list of cursors, from the first one on.
  abbrev pub changes : Option json.Value → List (Option json.Value) → ℕ
  changes before [] = 0
  changes before (now ∷ later) = is_change before now + changes now later

  -- Equality of values decides equality.
  abbrev pub SameIsSame : Type 0
  SameIsSame = (a b : json.Value) → json.same a b ≡ true → a ≡ b

  same_cursor-eq : SameIsSame → (a b : Option json.Value) → same_cursor json a b ≡ true → a ≡ b
  unfolding same_cursor
  same_cursor-eq sound none none h = refl
  same_cursor-eq sound none (some b) h = absurd cc
  same_cursor-eq sound (some a) none h = absurd cc
  same_cursor-eq sound (some a) (some b) h = ap (λ x. some x) (sound a b h)

  watch_cursor-counts :
      SameIsSame
      → (w : Watch json) (cursor : Option json.Value)
      → ((watch_cursor json cursor w).last_cursor ≡ cursor)
        × ((watch_cursor json cursor w).emitted ≡ w.emitted + is_change w.last_cursor cursor)
  unfolding watch_cursor
  watch_cursor-counts sound w cursor = elim (Bool-cases (same_cursor json cursor w.last_cursor)) [
    | inl h ↦ rw h (sym (same_cursor-eq sound cursor w.last_cursor h), omega arith)
    | inr h ↦ rw h (refl, one_more (is_some w.last_cursor) w.emitted)
  ]
    where
      one_more : (b : Bool) (n : ℕ) → (if b then n + 1 else n) ≡ n + (if b then 1 else 0)
      one_more b n = ground arith

  -- Where the equality of values decides it: the loop of `watch.rs` emits an event for each change
  -- from a known value along the cursors of the answers that are not errors, and for nothing else.
  pub poll_loop-changes :
      SameIsSame
      → (answers : List (Answer json)) (w : Watch json)
      → (poll_loop json answers w).emitted ≡ w.emitted + changes w.last_cursor (cursors answers)
  unfolding poll_loop watch_tick
  poll_loop-changes sound [] w = omega arith
  poll_loop-changes sound (err e ∷ later) w = poll_loop-changes sound later w
  poll_loop-changes sound (ok rows ∷ later) w =
      let cursor : Option json.Value = first_scalar json rows in
      let next : Watch json = watch_cursor json cursor w in
      let (last, count) = watch_cursor-counts sound w cursor in
      let moved : changes next.last_cursor (cursors later) ≡ changes cursor (cursors later) =
        ap (λ c. changes c (cursors later)) last in
      omega (arith, poll_loop-changes sound later next, moved, count)

  invalidator_cursor-counts :
      SameIsSame
      → (i : Invalidator json) (cursor : Option json.Value) → i.version < 2 ^ 64
      → ((invalidator_cursor json cursor i).last_cursor ≡ cursor)
        × ((invalidator_cursor json cursor i).version
            ≡ (i.version + is_change i.last_cursor cursor) % 2 ^ 64)
  unfolding invalidator_cursor bump
  invalidator_cursor-counts sound i cursor small =
      elim (Bool-cases (same_cursor json cursor i.last_cursor)) [
        | inl h ↦ rw h (sym (same_cursor-eq sound cursor i.last_cursor h), omega arith)
        | inr h ↦ rw h (refl, one_more (is_some i.last_cursor) i.version small)
      ]
    where
      one_more :
          (b : Bool) (n : ℕ)
          → n < 2 ^ 64
          → (if b then (n + 1) % 2 ^ 64 else n) ≡ (n + (if b then 1 else 0)) % 2 ^ 64
      one_more true n h = refl
      one_more false n h = omega arith

  -- Where the equality of values decides it: the version of the cache counts the same changes as the
  -- watch on the same answers would, modulo 2 to the power 64.
  pub invalidation_loop-changes :
      SameIsSame
      → (answers : List (Answer json)) (i : Invalidator json) → i.version < 2 ^ 64
      → (invalidation_loop json answers i).version
        ≡ (i.version + changes i.last_cursor (cursors answers)) % 2 ^ 64
  unfolding invalidation_loop invalidator_tick
  invalidation_loop-changes sound [] i small = omega arith
  invalidation_loop-changes sound (err e ∷ later) i small =
      invalidation_loop-changes sound later i small
  invalidation_loop-changes sound (ok rows ∷ later) i small =
      let cursor : Option json.Value = first_scalar json rows in
      let next : Invalidator json = invalidator_cursor json cursor i in
      let (last, count) = invalidator_cursor-counts sound i cursor small in
      let moved : changes next.last_cursor (cursors later) ≡ changes cursor (cursors later) =
        ap (λ c. changes c (cursors later)) last in
      omega (arith, invalidation_loop-changes sound later next (omega (arith, count)), moved, count)
