-- ===== src/Transaction/Stepping.antt =====
-- src/lib.rs: how a step of a transaction group leaves the handle.
use mcpg_plugin_backend_sql.Common.{
  ℕ, ◌≡◌, refl, ◌⊎◌, inl, inr, Bool, true, false, List, Option, none, some, Result, ok, err,
  if◌then◌else◌, Text, codes, text_eq,
}
use mcpg_plugin_backend_sql.Params.{
  DriverKind, BoundParam, BindError, collect_bound_params, rewrite_placeholders,
}
use mcpg_plugin_backend_sql.Params as Params
use mcpg_plugin_backend_sql.Transaction.{TxError, Sqlx, dropped, Handle, RowBatch, Vars}
use mcpg_plugin_backend_sql.Transaction.Engines.{execute}
use mcpg_plugin_backend_sql.Transaction.Steps.{
  TxNestedStep, StepError, Shapes, first_row, tx_first_scalar, shaped_count, shaped_rows, submit,
  param_order, submit_bound, run_rewritten, run_tx_nested_step,
}
use mcpg_plugin_backend_sql.Transaction.Ends.{
  opened, closed, IsOpen, Kept, execute-Kept, execute_affected-Kept,
}

module _ (db : Sqlx) (shapes : Shapes db.Value) where
  -- A step leaves the handle open, or after an error it may have dropped the transaction.
  abbrev pub StepKept : Result StepError db.Value × Handle db → Type 0
  StepKept (ok v, h) = IsOpen db h
  StepKept (err e, h) = IsOpen db h ⊎ ((tx : db.Conn) × (h ≡ closed db (dropped tx)))

  shaped_count-StepKept :
      (D : TxError → Type 0) (p : Result TxError ℕ × Handle db)
      → Kept db D p
      → StepKept (shaped_count db shapes p)
  unfolding shaped_count
  shaped_count-StepKept D (ok n, h) kept = kept
  shaped_count-StepKept D (err e, h) (inl o) = inl o
  shaped_count-StepKept D (err e, h) (inr (tx, c, why)) = inr (tx, c)

  shaped_rows-StepKept :
      (D : TxError → Type 0) (f : List db.Value → db.Value)
      (p : Result TxError (RowBatch db) × Handle db)
      → Kept db D p
      → StepKept (shaped_rows db shapes f p)
  unfolding shaped_rows
  shaped_rows-StepKept D f (ok b, h) kept = kept
  shaped_rows-StepKept D f (err e, h) (inl o) = inl o
  shaped_rows-StepKept D f (err e, h) (inr (tx, c, why)) = inr (tx, c)

  module _ (driver : DriverKind) (session : Vars db) where
    if-StepKept :
        (b : Bool) (p q : Result StepError db.Value × Handle db)
        → StepKept p
        → StepKept q
        → StepKept (if b then p else q)
    if-StepKept true p q x y = x
    if-StepKept false p q x y = y

    submit-StepKept :
        (row_mode sql : Text) (args : List (BoundParam db.Value)) (tx : db.Conn)
        → StepKept (submit db shapes driver session row_mode sql args (opened db tx))
    unfolding submit
    submit-StepKept row_mode sql args tx =
        let count =
          shaped_count-StepKept _ _ (execute_affected-Kept db driver sql args session tx) in
        let rows : (f : List db.Value → db.Value)
            → StepKept
                (shaped_rows db shapes f (execute db driver sql args session (opened db tx))) =
          λ f. shaped_rows-StepKept _ f _ (execute-Kept db driver sql args session tx) in
        if-StepKept (text_eq row_mode (codes "affected_rows")) _ _ count (
          if-StepKept (text_eq row_mode (codes "many")) _ _ (rows shapes.of_array) (
            if-StepKept (text_eq row_mode (codes "single")) _ _ (rows (first_row db shapes)) (
              if-StepKept (text_eq row_mode (codes "scalar")) _ _ (rows (tx_first_scalar db shapes))
                (inl (tx, refl)))))

    submit_bound-StepKept :
        (step : TxNestedStep) (sql : Text) (r : Result BindError (List (BoundParam db.Value)))
        (tx : db.Conn)
        → StepKept (submit_bound db shapes driver session step sql r (opened db tx))
    unfolding submit_bound
    submit_bound-StepKept step sql (err e) tx = inl (tx, refl)
    submit_bound-StepKept step sql (ok args) tx = submit-StepKept step.row_mode sql args tx

    run_rewritten-StepKept :
        (step : TxNestedStep) (input : Params.Args db.Value) (o : Option (Text × List Text))
        (tx : db.Conn)
        → StepKept (run_rewritten db shapes driver session step input o (opened db tx))
    unfolding run_rewritten
    run_rewritten-StepKept step input none tx = inl (tx, refl)
    run_rewritten-StepKept step input (some (sql, order)) tx =
        submit_bound-StepKept step sql
          (collect_bound_params input (param_order db shapes driver session step.params order)) tx

    module _ (input : Params.Args db.Value) where
      abbrev pub run : TxNestedStep → Handle db → Result StepError db.Value × Handle db
      run step h = run_tx_nested_step db shapes driver session step input h

      pub run-StepKept : (step : TxNestedStep) (tx : db.Conn) → StepKept (run step (opened db tx))
      unfolding run_tx_nested_step
      run-StepKept step tx =
          run_rewritten-StepKept step input (rewrite_placeholders step.sql driver) tx
