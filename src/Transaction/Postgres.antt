-- ===== src/Transaction/Postgres.antt =====
-- src/transaction.rs: the handle of PostgreSQL.
use mcpg_plugin_backend_sql.Common.{ℕ, Result, Text}
use mcpg_plugin_backend_sql.Transaction.{
  TxError, Sqlx, Handle, RowBatch, Vars, Args, with_tx, set_each, fetched, counted, after_vars,
}

module _ (db : Sqlx) where
  unfoldable pub execute :
      Text → Args db → Vars db → Handle db → Result TxError (RowBatch db) × Handle db
  execute sql args vars = with_tx db (λ tx h.
      after_vars db
        (λ tx h. let (r, tx) = db.fetch_all sql args tx in fetched db db.row_to_json_pg r tx h)
        (set_each db db.set_config vars tx) h)

  unfoldable pub execute_affected :
      Text → Args db → Vars db → Handle db → Result TxError ℕ × Handle db
  execute_affected sql args vars = with_tx db (λ tx h.
      after_vars db (λ tx h. let (r, tx) = db.exec sql args tx in counted db r tx h)
        (set_each db db.set_config vars tx) h)
