-- ===== src/Transaction/Steps.antt =====
-- src/lib.rs: `execute_transaction` with `run_tx_nested_step` and `tx_first_scalar`, from a group that
-- is read already. Every message is a constructor with what it quotes. The session variables, none in
-- the source, are a parameter.
use mcpg_plugin_backend_sql.Common.{
  ℕ, List, [], ◌∷◌, Option, none, some, Result, ok, err, if◌then◌else◌, Text, codes, text_eq,
}
use mcpg_plugin_backend_sql.Common.TextMaps.{insert}
use mcpg_plugin_backend_sql.Params.{
  DriverKind, BoundParam, BindError, rewrite_placeholders, collect_bound_params,
}
use mcpg_plugin_backend_sql.Params as Params
use mcpg_plugin_backend_sql.Transaction.{TxError, Sqlx, Handle, RowBatch, Vars, commit, rollback}
use mcpg_plugin_backend_sql.Transaction.Engines.{execute, execute_affected}

pub record TxNestedStep : Type 0 where
  pub id : Text
  pub sql : Text
  pub params : List Text
  pub row_mode : Text

-- `rewriting_unfinished` stands for a rewriting that ran out of fuel.
pub data StepError : Type 0 where
  bind_failed : Text → BindError → StepError
  execute_affected_failed : TxError → StepError
  execute_failed : TxError → StepError
  unsupported_row_mode : Text → StepError
  rewriting_unfinished : StepError

pub data GroupError : Type 0 where
  begin_failed : TxError → GroupError
  step_failed : Text → StepError → GroupError
  commit_failed : TxError → GroupError

-- `json!({ "rows_affected": n })`, arrays, and the values of an object in the order of its map.
pub record Shapes (V : Type 0) : Type 0 where
  pub of_affected : ℕ → V
  pub of_array : List V → V
  pub object_values : V → Option (List V)

module _ (db : Sqlx) (shapes : Shapes db.Value) where
  unfoldable pub first_row : List db.Value → db.Value
  first_row [] = db.null_value
  first_row (row ∷ rows) = row

  scalar_of : db.Value → Option (List db.Value) → db.Value
  scalar_of row none = row
  scalar_of row (some values) = first_row values

  unfoldable pub tx_first_scalar : List db.Value → db.Value
  unfolding scalar_of
  tx_first_scalar [] = db.null_value
  tx_first_scalar (row ∷ rows) = scalar_of row (shapes.object_values row)

  unfoldable pub shaped_count : Result TxError ℕ × Handle db → Result StepError db.Value × Handle db
  shaped_count (err e, h) = (err (execute_affected_failed e), h)
  shaped_count (ok n, h) = (ok (shapes.of_affected n), h)

  unfoldable pub shaped_rows :
      (List db.Value → db.Value)
      → Result TxError (RowBatch db) × Handle db
      → Result StepError db.Value × Handle db
  shaped_rows f (err e, h) = (err (execute_failed e), h)
  shaped_rows f (ok batch, h) = (ok (f batch.rows), h)

  module _ (driver : DriverKind) (session : Vars db) where
    unfoldable pub submit :
        Text → Text → List (BoundParam db.Value) → Handle db → Result StepError db.Value × Handle db
    submit row_mode sql args h =
        if text_eq row_mode (codes "affected_rows")
        then shaped_count (execute_affected db driver sql args session h)
        else if text_eq row_mode (codes "many")
        then shaped_rows shapes.of_array (execute db driver sql args session h)
        else if text_eq row_mode (codes "single")
        then shaped_rows first_row (execute db driver sql args session h)
        else if text_eq row_mode (codes "scalar")
        then shaped_rows tx_first_scalar (execute db driver sql args session h)
        else (err (unsupported_row_mode row_mode), h)

    unfoldable pub param_order : List Text → List Text → List Text
    param_order params [] = params
    param_order params (name ∷ order) = name ∷ order

    unfoldable pub submit_bound :
        TxNestedStep
        → Text
        → Result BindError (List (BoundParam db.Value))
        → Handle db
        → Result StepError db.Value × Handle db
    submit_bound step sql (err e) h = (err (bind_failed step.id e), h)
    submit_bound step sql (ok args) h = submit step.row_mode sql args h

    unfoldable pub run_rewritten :
        TxNestedStep
        → Params.Args db.Value
        → Option (Text × List Text)
        → Handle db
        → Result StepError db.Value × Handle db
    run_rewritten step input none h = (err rewriting_unfinished, h)
    run_rewritten step input (some (sql, order)) h =
        submit_bound step sql (collect_bound_params input (param_order step.params order)) h

    unfoldable pub run_tx_nested_step :
        TxNestedStep → Params.Args db.Value → Handle db → Result StepError db.Value × Handle db
    run_tx_nested_step step input h =
        run_rewritten step input (rewrite_placeholders step.sql driver) h

    abbrev pub Results : Type 0
    Results = List (Text × db.Value)

    -- The outcome of a step decides: the next ones, or a rollback.
    unfoldable pub after_step :
        Text
        → Results
        → Result StepError db.Value × Handle db
        → (Results → Handle db → Result GroupError Results × Handle db)
        → Result GroupError Results × Handle db
    after_step id results (err e, h) next = (err (step_failed id e), (rollback db h).1)
    after_step id results (ok value, h) next = next (insert id value results) h

    unfoldable pub run_steps :
        Params.Args db.Value
        → List TxNestedStep
        → Results
        → Handle db
        → Result GroupError Results × Handle db
    run_steps input [] results h = (ok results, h)
    run_steps input (step ∷ steps) results h =
        after_step step.id results (run_tx_nested_step step input h) (run_steps input steps)

    unfoldable pub committed_results :
        Results → Result TxError (Unit {0}) × Handle db → Result GroupError Results × Handle db
    committed_results results (err e, h) = (err (commit_failed e), h)
    committed_results results (ok u, h) = (ok results, h)

    unfoldable pub finish :
        Result GroupError Results × Handle db → Result GroupError Results × Handle db
    finish (err e, h) = (err e, h)
    finish (ok results, h) = committed_results results (commit db h)

    -- On the handle of the transaction begun.
    unfoldable pub execute_transaction :
        List TxNestedStep → Params.Args db.Value → Handle db → Result GroupError Results × Handle db
    execute_transaction steps input h = finish (run_steps input steps [] h)
