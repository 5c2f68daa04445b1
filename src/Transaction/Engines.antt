-- ===== src/Transaction/Engines.antt =====
-- src/transaction.rs: `SqlTxHandle`, the trait's two calls by engine.
use mcpg_plugin_backend_sql.Common.{ℕ, Result, Text}
use mcpg_plugin_backend_sql.Params.{DriverKind, postgres, mysql, mariadb, sqlite}
use mcpg_plugin_backend_sql.Transaction.{TxError, Sqlx, Handle, RowBatch, Vars, Args}
use mcpg_plugin_backend_sql.Transaction.Postgres as Postgres
use mcpg_plugin_backend_sql.Transaction.Mysql as Mysql
use mcpg_plugin_backend_sql.Transaction.Sqlite as Sqlite

module _ (db : Sqlx) where
  -- The trait's methods on the handle of an engine; MariaDB has MySQL's.
  unfoldable pub execute :
      DriverKind → Text → Args db → Vars db → Handle db → Result TxError (RowBatch db) × Handle db
  execute postgres = Postgres.execute db
  execute mysql = Mysql.execute db
  execute mariadb = Mysql.execute db
  execute sqlite = Sqlite.execute db

  unfoldable pub execute_affected :
      DriverKind → Text → Args db → Vars db → Handle db → Result TxError ℕ × Handle db
  execute_affected postgres = Postgres.execute_affected db
  execute_affected mysql = Mysql.execute_affected db
  execute_affected mariadb = Mysql.execute_affected db
  execute_affected sqlite = Sqlite.execute_affected db
