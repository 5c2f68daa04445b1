-- ===== src/Trackers.antt =====
-- src/watch.rs and src/cache.rs: the two loops that run a tracking query at each tick and compare its
-- first value with the last one: `poll_loop`, which emits an event on a change, and
-- `invalidation_loop`, which bumps the version of the cache. An answer is what the driver returned at
-- a tick; a map of a row is the list of its values in the order of the map.
pub mod Counts
mod Tests
use mcpg_plugin_backend_sql.Common.{
  ℕ, ◌+◌, ◌%◌, ◌^◌, Bool, true, false, not, List, [], ◌∷◌, Option, none, some, Result, ok, err,
  if◌then◌else◌, Text,
}
use mcpg_plugin_backend_sql.Errors.{SqlError}

-- `serde_json::Value` with its equality, and the values of an object.
pub record Json : Type 1 where
  pub Value : Type 0
  pub same : Value → Value → Bool
  pub object_values : Value → Option (List Value)

unfoldable pub first {ℓ} : {A : Type ℓ} → List A → Option A
first [] = none
first (a ∷ rest) = some a

abbrev pub is_some {ℓ} : {A : Type ℓ} → Option A → Bool
is_some none = false
is_some (some a) = true

module _ (json : Json) where
  unfoldable pub scalar_of : json.Value → Option (List json.Value) → Option json.Value
  scalar_of row none = some row
  scalar_of row (some values) = first values

  unfoldable pub first_scalar : List json.Value → Option json.Value
  first_scalar [] = none
  first_scalar (row ∷ rows) = scalar_of row (json.object_values row)

  -- `==` on options of values.
  unfoldable pub same_cursor : Option json.Value → Option json.Value → Bool
  same_cursor none none = true
  same_cursor (some a) (some b) = json.same a b
  same_cursor _ _ = false

  abbrev pub Answer : Type 0
  Answer = Result (SqlError Text) (List json.Value)

  -- The loop of `watch.rs`, and the events that it has emitted.
  pub record Watch : Type 0 where
    pub last_cursor : Option json.Value
    pub emitted : ℕ

  unfoldable pub watch_cursor : Option json.Value → Watch → Watch
  watch_cursor cursor w =
      if not (same_cursor cursor w.last_cursor)
      then record {
        last_cursor = cursor;
        emitted = if is_some w.last_cursor then w.emitted + 1 else w.emitted;
      }
      else w

  unfoldable pub watch_tick : Answer → Watch → Watch
  watch_tick (err e) w = w
  watch_tick (ok rows) w = watch_cursor (first_scalar rows) w

  unfoldable pub poll_loop : List Answer → Watch → Watch
  poll_loop [] w = w
  poll_loop (a ∷ later) w = poll_loop later (watch_tick a w)

  -- The loop of `cache.rs`; `fetch_add` wraps around.
  pub record Invalidator : Type 0 where
    pub last_cursor : Option json.Value
    pub version : ℕ

  unfoldable pub bump : ℕ → ℕ
  bump version = (version + 1) % 2 ^ 64

  unfoldable pub invalidator_cursor : Option json.Value → Invalidator → Invalidator
  invalidator_cursor cursor i =
      if not (same_cursor cursor i.last_cursor)
      then record {
        last_cursor = cursor;
        version = if is_some i.last_cursor then bump i.version else i.version;
      }
      else i

  unfoldable pub invalidator_tick : Answer → Invalidator → Invalidator
  invalidator_tick (err e) i = i
  invalidator_tick (ok rows) i = invalidator_cursor (first_scalar rows) i

  unfoldable pub invalidation_loop : List Answer → Invalidator → Invalidator
  invalidation_loop [] i = i
  invalidation_loop (a ∷ later) i = invalidation_loop later (invalidator_tick a i)
