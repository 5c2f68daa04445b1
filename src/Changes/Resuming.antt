-- ===== src/Changes/Resuming.antt =====
-- src/watch_changes.rs: the position written behind a row, read back.
use mcpg_plugin_backend_sql.Common.{
  ◌≡◌, refl, sym, ap, ◌∙◌, List, Option, none, some, ok, length, ==_self, Text,
}
use mcpg_plugin_backend_sql.Common.Options.{bind-some}
use mcpg_plugin_backend_sql.Changes.{Env, Plan, Cursor, WatchEvent, cursor_version}
use mcpg_plugin_backend_sql.Changes.Rows.{row_op, row_event, row_key, check_cursor, resume_key}
use mcpg_plugin_backend_sql.Changes.Delivery.{row_key-length}

module _ (env : Env) (plan : Plan env.Value) where
  resume_key-read :
      (value : env.Value) (c : Cursor env.Value)
      → env.to_cursor value ≡ some c
      → resume_key env plan value ≡ check_cursor env plan c
  unfolding resume_key
  resume_key-read value c h = rw (h, resume_key) refl

  check_cursor-own :
      (key : List env.Value)
      → length key ≡ length plan.key_columns
      → check_cursor env plan (record { v = cursor_version; k = key }) ≡ ok key
  unfolding check_cursor
  check_cursor-own key h = rw (h, ==_self (length plan.key_columns)) refl

  cursor_of : Option (WatchEvent env.Value) → Option env.Value
  cursor_of none = none
  cursor_of (some e) = e.upstream_cursor

  row_event-cursor :
      (uri : Text) (row : env.Value) (key : List env.Value) (e : WatchEvent env.Value)
      → row_event env plan uri row key ≡ some e
      → e.upstream_cursor ≡ env.from_cursor (record { v = cursor_version; k = key })
  unfolding row_event cursor_of
  row_event-cursor uri row key e h =
      let (op, one, rest) = bind-some (row_op env plan row) _ e h in sym (ap cursor_of rest)

  -- Where reading undoes the writing of a position, the position that the event of a row carries is
  -- read back, by a watch with the same plan, as the key of that row.
  pub resume_key-row_event :
      ((c : Cursor env.Value) (value : env.Value)
        → env.from_cursor c ≡ some value
        → env.to_cursor value ≡ some c)
      → (uri : Text) (row : env.Value) (key : List env.Value) (e : WatchEvent env.Value)
        (value : env.Value)
      → row_key env plan row ≡ some key
      → row_event env plan uri row key ≡ some e
      → e.upstream_cursor ≡ some value
      → resume_key env plan value ≡ ok key
  resume_key-row_event codec uri row key e value k event written =
      resume_key-read value _ (codec _ value (sym (row_event-cursor uri row key e event) ∙ written))
      ∙ check_cursor-own key (row_key-length env plan row key k)
