-- ===== src/Transaction/Ends.antt =====
-- src/transaction.rs: how one call leaves the handle, on an open transaction and on a closed one.
use mcpg_plugin_backend_sql.Common.{
  ℕ, ◌≡◌, refl, ◌⊎◌, inl, inr, List, [], ◌∷◌, none, some, Result, ok, err, Text,
}
use mcpg_plugin_backend_sql.Errors.{SqlxError, invalid_spec}
use mcpg_plugin_backend_sql.Params.{DriverKind, postgres, mysql, mariadb, sqlite}
use mcpg_plugin_backend_sql.Transaction.{
  TxError, already_closed, Sqlx, Ending, dropped, Handle, Vars, Args, with_tx, set_each, columns_of,
  decode_each, decoded, fetched, counted, after_vars, commit, rollback,
}
use mcpg_plugin_backend_sql.Transaction.Postgres as Postgres
use mcpg_plugin_backend_sql.Transaction.Mysql as Mysql
use mcpg_plugin_backend_sql.Transaction.Sqlite as Sqlite
use mcpg_plugin_backend_sql.Transaction.Engines.{execute, execute_affected}

module _ (db : Sqlx) where
  abbrev pub opened : db.Conn → Handle db
  opened tx = record { inner = some tx; ended = [] }

  abbrev pub closed : Ending db → Handle db
  closed e = record { inner = none; ended = e ∷ [] }

  -- The handle while a call holds the transaction.
  abbrev pub taken : Handle db
  taken = record { inner = none; ended = [] }

  abbrev pub IsOpen : Handle db → Type 0
  IsOpen h = (tx : db.Conn) × (h ≡ opened tx)

  -- After a success the handle is open. After an error it is too, or the transaction was dropped,
  -- which happens for the reasons `D`.
  abbrev pub Kept : {A : Type 0} → (TxError → Type 0) → Result TxError A × Handle db → Type 0
  Kept D (ok a, h) = IsOpen h
  Kept D (err e, h) = IsOpen h ⊎ ((tx : db.Conn) × (h ≡ closed (dropped tx)) × D e)

  -- The errors of rows that do not decode.
  abbrev Undecoded : (db.Row → Result TxError db.Value) → TxError → Type 0
  Undecoded decode e = (rows : List db.Row) × (decode_each db decode rows ≡ err e)

  abbrev pub Undecodable : DriverKind → TxError → Type 0
  Undecodable postgres e = Undecoded db.row_to_json_pg e
  Undecodable mysql e = Undecoded db.row_to_json_mysql e
  Undecodable mariadb e = Undecoded db.row_to_json_mysql e
  Undecodable sqlite e = ⊥

  with_tx-opened :
      {A : Type 0} (D : TxError → Type 0) (f : db.Conn → Handle db → Result TxError A × Handle db)
      (tx : db.Conn)
      → Kept D (f tx taken)
      → Kept D (with_tx db f (opened tx))
  unfolding with_tx
  with_tx-opened D f tx kept = kept

  decoded-Kept :
      (D : TxError → Type 0) (columns : List Text) (r : Result TxError (List db.Value))
      (tx : db.Conn)
      → ((e : TxError) → r ≡ err e → D e)
      → Kept D (decoded db columns r tx taken)
  unfolding decoded
  decoded-Kept D columns (err e) tx why = inr (tx, refl, why e refl)
  decoded-Kept D columns (ok rows) tx why = (tx, refl)

  fetched-Kept :
      (decode : db.Row → Result TxError db.Value) (r : Result SqlxError (List db.Row))
      (tx : db.Conn)
      → Kept (Undecoded decode) (fetched db decode r tx taken)
  unfolding fetched
  fetched-Kept decode (err e) tx = inl (tx, refl)
  fetched-Kept decode (ok rows) tx =
      decoded-Kept _ (columns_of db rows) (decode_each db decode rows) tx (λ e h. (rows, h))

  counted-Kept :
      (D : TxError → Type 0) (r : Result SqlxError ℕ) (tx : db.Conn)
      → Kept D (counted db r tx taken)
  unfolding counted
  counted-Kept D (err e) tx = inl (tx, refl)
  counted-Kept D (ok n) tx = (tx, refl)

  after_vars-Kept :
      {A : Type 0} (D : TxError → Type 0) (f : db.Conn → Handle db → Result TxError A × Handle db)
      (p : Result SqlxError (Unit {0}) × db.Conn)
      → ((tx : db.Conn) → Kept D (f tx taken))
      → Kept D (after_vars db f p taken)
  unfolding after_vars
  after_vars-Kept D f (err e, tx) each = inl (tx, refl)
  after_vars-Kept D f (ok u, tx) each = each tx

  rows_decoded-Kept :
      (D : TxError → Type 0) (r : Result SqlxError (List db.Row)) (tx : db.Conn)
      → Kept D (Sqlite.rows_decoded db r tx taken)
  unfolding Sqlite.rows_decoded
  rows_decoded-Kept D (err e) tx = inl (tx, refl)
  rows_decoded-Kept D (ok rows) tx = (tx, refl)

  -- A query on an open transaction leaves it open if it succeeds. If it fails, the transaction is open,
  -- or the error is one of PostgreSQL or MySQL rows that do not decode and the transaction is dropped.
  pub execute-Kept :
      (k : DriverKind) (sql : Text) (args : Args db) (vars : Vars db) (tx : db.Conn)
      → Kept (Undecodable k) (execute db k sql args vars (opened tx))
  unfolding execute Postgres.execute Mysql.execute Sqlite.execute
  execute-Kept postgres sql args vars tx =
      with_tx-opened _ _ tx
        (after_vars-Kept _ _ (set_each db db.set_config vars tx) (λ tx. fetched-Kept _ _ _))
  execute-Kept mysql sql args vars tx =
      with_tx-opened _ _ tx
        (after_vars-Kept _ _ (set_each db db.set_user_var vars tx) (λ tx. fetched-Kept _ _ _))
  execute-Kept mariadb sql args vars tx =
      with_tx-opened _ _ tx
        (after_vars-Kept _ _ (set_each db db.set_user_var vars tx) (λ tx. fetched-Kept _ _ _))
  execute-Kept sqlite sql args vars tx = with_tx-opened _ _ tx (rows_decoded-Kept _ _ _)

  pub execute_affected-Kept :
      (k : DriverKind) (sql : Text) (args : Args db) (vars : Vars db) (tx : db.Conn)
      → Kept (λ e. ⊥) (execute_affected db k sql args vars (opened tx))
  unfolding execute_affected Postgres.execute_affected Mysql.execute_affected
      Sqlite.execute_affected
  execute_affected-Kept postgres sql args vars tx =
      with_tx-opened _ _ tx
        (after_vars-Kept _ _ (set_each db db.set_config vars tx) (λ tx. counted-Kept _ _ _))
  execute_affected-Kept mysql sql args vars tx =
      with_tx-opened _ _ tx
        (after_vars-Kept _ _ (set_each db db.set_user_var vars tx) (λ tx. counted-Kept _ _ _))
  execute_affected-Kept mariadb sql args vars tx =
      with_tx-opened _ _ tx
        (after_vars-Kept _ _ (set_each db db.set_user_var vars tx) (λ tx. counted-Kept _ _ _))
  execute_affected-Kept sqlite sql args vars tx = with_tx-opened _ _ tx (counted-Kept _ _ _)

  -- Every call on a closed handle is refused and leaves it as it is.
  abbrev pub refused : {A : Type 0} → Ending db → Result TxError A × Handle db
  refused e = (err (invalid_spec already_closed), closed e)

  pub execute-closed :
      (k : DriverKind) (sql : Text) (args : Args db) (vars : Vars db) (e : Ending db)
      → execute db k sql args vars (closed e) ≡ refused e
  unfolding execute Postgres.execute Mysql.execute Sqlite.execute with_tx
  execute-closed postgres sql args vars e = refl
  execute-closed mysql sql args vars e = refl
  execute-closed mariadb sql args vars e = refl
  execute-closed sqlite sql args vars e = refl

  pub execute_affected-closed :
      (k : DriverKind) (sql : Text) (args : Args db) (vars : Vars db) (e : Ending db)
      → execute_affected db k sql args vars (closed e) ≡ refused e
  unfolding execute_affected Postgres.execute_affected Mysql.execute_affected
      Sqlite.execute_affected with_tx
  execute_affected-closed postgres sql args vars e = refl
  execute_affected-closed mysql sql args vars e = refl
  execute_affected-closed mariadb sql args vars e = refl
  execute_affected-closed sqlite sql args vars e = refl

  pub commit-closed : (e : Ending db) → commit db (closed e) ≡ refused e
  unfolding commit with_tx
  commit-closed e = refl

  pub rollback-closed : (e : Ending db) → rollback db (closed e) ≡ refused e
  unfolding rollback with_tx
  rollback-closed e = refl
