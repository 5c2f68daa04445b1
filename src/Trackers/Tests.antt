-- ===== src/Trackers/Tests.antt =====
-- src/watch.rs and src/cache.rs on answers of one number each.
use mcpg_plugin_backend_sql.Common.{
  ℕ, ◌+◌, ◌%◌, ◌^◌, ◌≡◌, refl, [], ◌∷◌, List, none, ok, err, ◌==◌, ==_iff, arith,
}
use mcpg_plugin_backend_sql.Errors.{timeout}
use mcpg_plugin_backend_sql.Trackers.{
  Json, Answer, Watch, poll_loop, invalidation_loop, first_scalar, scalar_of, same_cursor,
}
use mcpg_plugin_backend_sql.Trackers.Counts.{
  cursors, changes, poll_loop-changes, invalidation_loop-changes,
}

abbrev sample_json : Json
sample_json = record { Value = ℕ; same = λ a b. a == b; object_values = λ v. none }

-- A value, the same, an error, another value, no row, and a value again.
abbrev answers : List (Answer sample_json)
answers = ok (4 ∷ []) ∷ ok (4 ∷ []) ∷ err (timeout 5) ∷ ok (6 ∷ []) ∷ ok [] ∷ ok (7 ∷ []) ∷ []

abbrev fresh : Watch sample_json
fresh = record { last_cursor = none; emitted = 0 }

poll_loop-changes_example :
    (poll_loop sample_json answers fresh).emitted
    ≡ 0 + changes sample_json none (cursors sample_json answers)
poll_loop-changes_example = poll_loop-changes sample_json (λ a b h. (==_iff a b).0 h) answers fresh

-- The value behind the empty answer goes unnoticed.
two_changes : changes sample_json none (cursors sample_json answers) ≡ 2
unfolding first_scalar scalar_of same_cursor
two_changes = refl

invalidation_loop-changes_example :
    (invalidation_loop sample_json answers (record { last_cursor = none; version = 9 })).version
    ≡ (9 + changes sample_json none (cursors sample_json answers)) % 2 ^ 64
invalidation_loop-changes_example =
    invalidation_loop-changes sample_json (λ a b h. (==_iff a b).0 h) answers
      (record { last_cursor = none; version = 9 }) (omega arith)
