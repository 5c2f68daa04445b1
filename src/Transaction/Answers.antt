-- ===== src/Transaction/Answers.antt =====
-- src/transaction.rs: a query on an open transaction, against what the database answers.
use mcpg_plugin_backend_sql.Common.{
  ◌≡◌, refl, ap, ◌⊎◌, inl, inr, List, [], ◌∷◌, ◌++◌, map, Result, ok, err, All, Text,
}
use mcpg_plugin_backend_sql.Errors.{SqlxError, from_execute}
use mcpg_plugin_backend_sql.Params.{DriverKind, postgres, mysql, mariadb, sqlite}
use mcpg_plugin_backend_sql.Transaction.{
  TxError, Sqlx, Handle, RowBatch, dropped, Vars, Args, with_tx, set_each, clear_session_vars,
  columns_of, decode_each, decoded, fetched, after_vars,
}
use mcpg_plugin_backend_sql.Transaction.Ends.{opened, closed, taken}
use mcpg_plugin_backend_sql.Transaction.Postgres as Postgres
use mcpg_plugin_backend_sql.Transaction.Mysql as Mysql
use mcpg_plugin_backend_sql.Transaction.Sqlite as Sqlite
use mcpg_plugin_backend_sql.Transaction.Engines.{execute}

module _ (db : Sqlx) where
  abbrev pub Asked : Type 0
  Asked = Result SqlxError (List db.Row) × db.Conn

  -- The query behind the variables, unless one of them fails.
  unfoldable pub asked_behind : (db.Conn → Asked) → Result SqlxError (Unit {0}) × db.Conn → Asked
  asked_behind ask (err e, tx) = (err e, tx)
  asked_behind ask (ok u, tx) = ask tx

  abbrev asked_mysql : Text → Args db → Vars db → db.Conn → Asked
  asked_mysql sql args vars tx =
      let (r, tx) = db.fetch_all sql args tx in (r, clear_session_vars db vars tx)

  -- What the database answers to the variables and the query, and the connection behind it.
  unfoldable pub asked : DriverKind → Text → Args db → Vars db → db.Conn → Asked
  asked postgres sql args vars tx =
      asked_behind (db.fetch_all sql args) (set_each db db.set_config vars tx)
  asked mysql sql args vars tx =
      asked_behind (asked_mysql sql args vars) (set_each db db.set_user_var vars tx)
  asked mariadb sql args vars tx =
      asked_behind (asked_mysql sql args vars) (set_each db db.set_user_var vars tx)
  asked sqlite sql args vars tx = db.fetch_all sql args tx

  abbrev pub Decoder : Type 0
  Decoder = db.Row → Result TxError db.Value

  abbrev pub decoder : DriverKind → Decoder
  decoder postgres = db.row_to_json_pg
  decoder mysql = db.row_to_json_mysql
  decoder mariadb = db.row_to_json_mysql
  decoder sqlite = λ row. ok (Sqlite.decode_row db row)

  -- Each row decodes to the value in its place.
  abbrev pub DecodesTo : Decoder → List db.Row → List db.Value → Type 0
  DecodesTo decode [] [] = Unit
  DecodesTo decode [] (v ∷ vs) = ⊥
  DecodesTo decode (row ∷ rows) [] = ⊥
  DecodesTo decode (row ∷ rows) (v ∷ vs) = (decode row ≡ ok v) × DecodesTo decode rows vs

  -- A row that does not decode, behind rows that do.
  pub record FirstBad (decode : Decoder) (rows : List db.Row) (e : TxError) : Type 0 where
    pub before : List db.Row
    pub bad : db.Row
    pub after : List db.Row
    pub split : rows ≡ before ++ bad ∷ after
    pub good : All (λ row. (v : db.Value) × (decode row ≡ ok v)) before
    pub fails : decode bad ≡ err e

  -- An error of the database leaves the transaction open. So do rows that all decode. Rows of which
  -- one does not decode end it.
  abbrev pub Answered :
      Decoder
      → Result SqlxError (List db.Row)
      → db.Conn
      → Result TxError (RowBatch db) × Handle db
      → Type 0
  Answered decode (err e) tx out = out ≡ (err (from_execute e), opened db tx)
  Answered decode (ok rows) tx out =
      ((batch : RowBatch db) × DecodesTo decode rows batch.rows × (out ≡ (ok batch, opened db tx)))
      ⊎ ((e : TxError) × FirstBad decode rows e × (out ≡ (err e, closed db (dropped tx))))

  abbrev Outcome : Decoder → List db.Row → Result TxError (List db.Value) → Type 0
  Outcome decode rows (err e) = FirstBad decode rows e
  Outcome decode rows (ok vs) = DecodesTo decode rows vs

  cons-Outcome :
      (decode : Decoder) (row : db.Row) (rows : List db.Row) (d : Result TxError db.Value)
      (r : Result TxError (List db.Value))
      → decode row ≡ d
      → Outcome decode rows r
      → Outcome decode
          (row ∷ rows)
          (elim d [ err e ↦ err e | ok v ↦ elim r [ err e ↦ err e | ok vs ↦ ok (v ∷ vs) ] ])
  cons-Outcome decode row rows (err e) r h o = record {
    before = [];
    bad = row;
    after = rows;
    split = refl;
    good = tt;
    fails = h;
  }
  cons-Outcome decode row rows (ok v) (err e) h o = record {
    before = row ∷ o.before;
    bad = o.bad;
    after = o.after;
    split = ap (λ rs. row ∷ rs) o.split;
    good = ((v, h), o.good);
    fails = o.fails;
  }
  cons-Outcome decode row rows (ok v) (ok vs) h o = (h, o)

  decode_each-Outcome :
      (decode : Decoder) (rows : List db.Row) → Outcome decode rows (decode_each db decode rows)
  unfolding decode_each
  decode_each-Outcome decode [] = tt
  decode_each-Outcome decode (row ∷ rows) =
      cons-Outcome decode row rows (decode row) (decode_each db decode rows) refl
        (decode_each-Outcome decode rows)

  decoded-Answered :
      (decode : Decoder) (rows : List db.Row) (r : Result TxError (List db.Value)) (tx : db.Conn)
      → Outcome decode rows r
      → Answered decode (ok rows) tx (decoded db (columns_of db rows) r tx (taken db))
  unfolding decoded
  decoded-Answered decode rows (err e) tx o = inr (e, o, refl)
  decoded-Answered decode rows (ok vs) tx o =
      inl (record { columns = columns_of db rows; rows = vs }, o, refl)

  fetched-Answered :
      (decode : Decoder) (r : Result SqlxError (List db.Row)) (tx : db.Conn)
      → Answered decode r tx (fetched db decode r tx (taken db))
  unfolding fetched
  fetched-Answered decode (err e) tx = refl
  fetched-Answered decode (ok rows) tx =
      decoded-Answered decode rows (decode_each db decode rows) tx (decode_each-Outcome decode rows)

  after_vars-Answered :
      (decode : Decoder) (ask : db.Conn → Asked) (p : Result SqlxError (Unit {0}) × db.Conn)
      → Answered decode
          (asked_behind ask p).0
          (asked_behind ask p).1
          (after_vars db (λ tx h. fetched db decode (ask tx).0 (ask tx).1 h) p (taken db))
  unfolding after_vars asked_behind
  after_vars-Answered decode ask (err e, tx) = refl
  after_vars-Answered decode ask (ok u, tx) = fetched-Answered decode (ask tx).0 (ask tx).1

  DecodesTo-map :
      (f : db.Row → db.Value) (rows : List db.Row) → DecodesTo (λ row. ok (f row)) rows (map f rows)
  DecodesTo-map f [] = tt
  DecodesTo-map f (row ∷ rows) = (refl, DecodesTo-map f rows)

  rows_decoded-Answered :
      (r : Result SqlxError (List db.Row)) (tx : db.Conn)
      → Answered (decoder sqlite) r tx (Sqlite.rows_decoded db r tx (taken db))
  unfolding Sqlite.rows_decoded
  rows_decoded-Answered (err e) tx = refl
  rows_decoded-Answered (ok rows) tx = inl (
    record { columns = []; rows = map (Sqlite.decode_row db) rows },
    DecodesTo-map (Sqlite.decode_row db) rows,
    refl,
  )

  -- A query on an open transaction, by what the database answers to the variables and the query. An
  -- error is returned and the transaction stays open. Of rows that all decode the values are
  -- returned, each row's in its place, and the transaction stays open. Of other rows the error of
  -- the first that does not decode is returned, and the transaction is dropped and the handle closed.
  pub execute-Answered :
      (k : DriverKind) (sql : Text) (args : Args db) (vars : Vars db) (tx : db.Conn)
      → Answered
          (decoder k)
          (asked k sql args vars tx).0
          (asked k sql args vars tx).1
          (execute db k sql args vars (opened db tx))
  unfolding execute Postgres.execute Mysql.execute Sqlite.execute with_tx asked
  execute-Answered postgres sql args vars tx =
      after_vars-Answered db.row_to_json_pg (db.fetch_all sql args)
        (set_each db db.set_config vars tx)
  execute-Answered mysql sql args vars tx =
      after_vars-Answered db.row_to_json_mysql (asked_mysql sql args vars)
        (set_each db db.set_user_var vars tx)
  execute-Answered mariadb sql args vars tx =
      after_vars-Answered db.row_to_json_mysql (asked_mysql sql args vars)
        (set_each db db.set_user_var vars tx)
  execute-Answered sqlite sql args vars tx = rows_decoded-Answered _ _
