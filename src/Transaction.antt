-- ===== src/Transaction.antt =====
-- src/transaction.rs: the handles of an open transaction, one for each engine, over the database
-- library's transaction as the record `Sqlx`. The mutex is held for a pop and a put only; a call here
-- runs from its pop to its end. What ends a transaction is written down in the handle: a call of
-- commit or of rollback, whether it succeeds or not, or a drop, after which the library rolls back.
pub mod Postgres
pub mod Mysql
pub mod Sqlite
pub mod Engines
pub mod Steps
pub mod Lifetime
pub mod Ends
pub mod Answers
pub mod Stepping
pub mod Atomicity
mod Tests
use mcpg_plugin_backend_sql.Common.{
  ℕ, zero, suc, ◌+◌, Bool, true, false, List, [], ◌∷◌, ◌++◌, map, Option, none, some, Result, ok,
  err, Text,
}
use mcpg_plugin_backend_sql.Common.Int.{ℤ}
use mcpg_plugin_backend_sql.Common.TextMaps.{insert}
use mcpg_plugin_backend_sql.Errors.{SqlxError, SqlError, invalid_spec, from_execute}
use mcpg_plugin_backend_sql.Params.{BoundParam, DriverKind, postgres, mysql, mariadb, sqlite}

pub data Refusal : Type 0 where
  already_closed : Refusal

abbrev pub TxError : Type 0
TxError = SqlError Refusal

-- A SQLite column of a row: its name, and what `try_get` finds as an integer and as a text.
pub record Probe : Type 0 where
  pub name : Text
  pub as_int : Option (Option ℤ)
  pub as_text : Option (Option Text)

-- The library: a transaction with its calls, rows and values, and the decoders of `driver/`.
pub record Sqlx : Type 1 where
  pub Conn : Type 0
  pub Row : Type 0
  pub Value : Type 0
  -- `SELECT set_config($1, $2, true)`, `SET @k = ?` and `SET @k = NULL`.
  pub set_config : Text → Text → Conn → Result SqlxError (Unit {0}) × Conn
  pub set_user_var : Text → Text → Conn → Result SqlxError (Unit {0}) × Conn
  pub null_user_var : Text → Conn → Result SqlxError (Unit {0}) × Conn
  pub fetch_all : Text → List (BoundParam Value) → Conn → Result SqlxError (List Row) × Conn
  pub exec : Text → List (BoundParam Value) → Conn → Result SqlxError ℕ × Conn
  pub commit_tx : Conn → Result SqlxError (Unit {0})
  pub rollback_tx : Conn → Result SqlxError (Unit {0})
  pub column_names : Row → List Text
  pub row_to_json_pg : Row → Result TxError Value
  pub row_to_json_mysql : Row → Result TxError Value
  pub probes : Row → List Probe
  pub null_value : Value
  pub of_int : ℤ → Value
  pub of_text : Text → Value
  pub of_object : List (Text × Value) → Value

module _ (db : Sqlx) where
  pub data Ending : Type 0 where
    committed rolled_back dropped : db.Conn → Ending

  -- The transaction while it is open, and what has ended one.
  pub record Handle : Type 0 where
    pub inner : Option db.Conn
    pub ended : List Ending

  pub record RowBatch : Type 0 where
    pub columns : List Text
    pub rows : List db.Value

  abbrev pub Vars : Type 0
  Vars = List (Text × Text)

  abbrev pub Args : Type 0
  Args = List (BoundParam db.Value)

  -- `self.put(tx)`, and the end of a scope that holds the transaction.
  abbrev pub put : db.Conn → Handle → Handle
  put tx h = record h { inner = some tx }

  abbrev pub ends : Ending → Handle → Handle
  ends e h = record { inner = none; ended = h.ended ++ e ∷ [] }

  -- `self.take()?`, and the rest of the call on the transaction taken.
  unfoldable pub with_tx :
      {A : Type 0}
      → (db.Conn → Handle → Result TxError A × Handle)
      → Handle
      → Result TxError A × Handle
  with_tx f h = elim h.inner [
    | none ↦ (err (invalid_spec already_closed), h)
    | some tx ↦ f tx (record h { inner = none })
  ]

  -- The variables one after the other, until one fails.
  unfoldable pub set_each :
      (Text → Text → db.Conn → Result SqlxError (Unit {0}) × db.Conn)
      → Vars
      → db.Conn
      → Result SqlxError (Unit {0}) × db.Conn
  set_each set [] tx = (ok tt, tx)
  set_each set ((k, v) ∷ vars) tx =
      let (r, tx) = set k v tx in elim r [ err e ↦ (err e, tx) | ok u ↦ set_each set vars tx ]

  unfoldable pub clear_session_vars : Vars → db.Conn → db.Conn
  clear_session_vars [] tx = tx
  clear_session_vars ((k, v) ∷ vars) tx = clear_session_vars vars (db.null_user_var k tx).1

  unfoldable pub columns_of : List db.Row → List Text
  columns_of [] = []
  columns_of (row ∷ rows) = db.column_names row

  unfoldable pub decode_each :
      (db.Row → Result TxError db.Value) → List db.Row → Result TxError (List db.Value)
  decode_each decode [] = ok []
  decode_each decode (row ∷ rows) = elim (decode row) [
    | err e ↦ err e
    | ok v ↦ elim (decode_each decode rows) [ err e ↦ err e | ok vs ↦ ok (v ∷ vs) ]
  ]

  -- A row that does not decode returns from the call with the transaction still taken.
  unfoldable pub decoded :
      List Text
      → Result TxError (List db.Value)
      → db.Conn
      → Handle
      → Result TxError RowBatch × Handle
  decoded columns (err e) tx h = (err e, ends (dropped tx) h)
  decoded columns (ok rows) tx h = (ok (record { columns = columns; rows = rows }), put tx h)

  unfoldable pub fetched :
      (db.Row → Result TxError db.Value)
      → Result SqlxError (List db.Row)
      → db.Conn
      → Handle
      → Result TxError RowBatch × Handle
  fetched decode (err e) tx h = (err (from_execute e), put tx h)
  fetched decode (ok rows) tx h = decoded (columns_of rows) (decode_each decode rows) tx h

  unfoldable pub counted : Result SqlxError ℕ → db.Conn → Handle → Result TxError ℕ × Handle
  counted (err e) tx h = (err (from_execute e), put tx h)
  counted (ok n) tx h = (ok n, put tx h)

  -- The call behind the variables, or their error with the transaction put back.
  unfoldable pub after_vars :
      {A : Type 0}
      → (db.Conn → Handle → Result TxError A × Handle)
      → Result SqlxError (Unit {0}) × db.Conn
      → Handle
      → Result TxError A × Handle
  after_vars f (err e, tx) h = (err (from_execute e), put tx h)
  after_vars f (ok u, tx) h = f tx h

  -- `map_err(SqlError::from_execute)`.
  unfoldable pub mapped : Result SqlxError (Unit {0}) → Result TxError (Unit {0})
  mapped (ok u) = ok u
  mapped (err e) = err (from_execute e)

  unfoldable pub commit : Handle → Result TxError (Unit {0}) × Handle
  commit = with_tx (λ tx h. (mapped (db.commit_tx tx), ends (committed tx) h))

  unfoldable pub rollback : Handle → Result TxError (Unit {0}) × Handle
  rollback = with_tx (λ tx h. (mapped (db.rollback_tx tx), ends (rolled_back tx) h))

  unfoldable pub is_closed : Handle → Bool
  is_closed h = elim h.inner [ none ↦ true | some tx ↦ false ]
