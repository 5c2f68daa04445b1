-- ===== src/Transaction/Sqlite.antt =====
-- src/transaction.rs: the handle of SQLite, which has no session variables and decodes rows by probing.
use mcpg_plugin_backend_sql.Common.{
  ℕ, List, [], ◌∷◌, map, Option, none, some, Result, ok, err, Text,
}
use mcpg_plugin_backend_sql.Common.Int.{ℤ}
use mcpg_plugin_backend_sql.Common.TextMaps.{insert}
use mcpg_plugin_backend_sql.Errors.{SqlxError, from_execute}
use mcpg_plugin_backend_sql.Transaction.{
  TxError, Probe, Sqlx, Handle, RowBatch, Vars, Args, with_tx, counted, put,
}

module _ (db : Sqlx) where
  value_or_null : {A : Type 0} → (A → db.Value) → Option A → db.Value
  value_or_null f none = db.null_value
  value_or_null f (some a) = f a

  -- The integer if there is one, else the text, else null.
  probe_value : Option (Option ℤ) → Option (Option Text) → db.Value
  probe_value (some n) t = value_or_null db.of_int n
  probe_value none (some t) = value_or_null db.of_text t
  probe_value none none = db.null_value

  probe_row : List Probe → List (Text × db.Value) → List (Text × db.Value)
  probe_row [] obj = obj
  probe_row (p ∷ ps) obj = probe_row ps (insert p.name (probe_value p.as_int p.as_text) obj)

  unfoldable pub decode_row : db.Row → db.Value
  unfolding probe_row probe_value value_or_null insert
  decode_row row = db.of_object (probe_row (db.probes row) [])

  unfoldable pub rows_decoded :
      Result SqlxError (List db.Row)
      → db.Conn
      → Handle db
      → Result TxError (RowBatch db) × Handle db
  rows_decoded (err e) tx h = (err (from_execute e), put db tx h)
  rows_decoded (ok rows) tx h =
      (ok (record { columns = []; rows = map decode_row rows }), put db tx h)

  unfoldable pub execute :
      Text → Args db → Vars db → Handle db → Result TxError (RowBatch db) × Handle db
  execute sql args vars =
      with_tx db (λ tx h. let (r, tx) = db.fetch_all sql args tx in rows_decoded r tx h)

  unfoldable pub execute_affected :
      Text → Args db → Vars db → Handle db → Result TxError ℕ × Handle db
  execute_affected sql args vars =
      with_tx db (λ tx h. let (r, tx) = db.exec sql args tx in counted db r tx h)
