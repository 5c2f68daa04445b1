-- ===== src/Transaction/Tests.antt =====
-- src/transaction.rs and src/lib.rs on a small database: its connection counts the statements, and a
-- query for `broken` answers with a row that does not decode.
use mcpg_plugin_backend_sql.Common.{
  ℕ, suc, Bool, true, false, List, [], ◌∷◌, none, Result, ok, err, if◌then◌else◌, Text, codes,
  text_eq,
}
use mcpg_plugin_backend_sql.Errors.{serialize}
use mcpg_plugin_backend_sql.Params.{postgres, object}
use mcpg_plugin_backend_sql.Transaction.{TxError, Sqlx}
use mcpg_plugin_backend_sql.Transaction.Engines.{execute}
use mcpg_plugin_backend_sql.Transaction.Steps.{TxNestedStep, Shapes, execute_transaction}
use mcpg_plugin_backend_sql.Transaction.Ends.{opened}
use mcpg_plugin_backend_sql.Transaction.Answers.{Answered, decoder, asked, execute-Answered}
use mcpg_plugin_backend_sql.Transaction.Lifetime.{
  Call, execute_affected_call, commit_call, rollback_call, Alive, apply_each,
  apply_each-opened-Alive,
}
use mcpg_plugin_backend_sql.Transaction.Atomicity.{Outcome, execute_transaction-Outcome}

abbrev decode : Bool → Result TxError Text
decode true = ok (codes "row")
decode false = err (serialize (codes "no decoder"))

abbrev sample_db : Sqlx
sample_db = record {
  Conn = ℕ;
  Row = Bool;
  Value = Text;
  set_config = λ k v n. (ok tt, suc n);
  set_user_var = λ k v n. (ok tt, suc n);
  null_user_var = λ k n. (ok tt, suc n);
  fetch_all = λ sql args n.
      (ok (if text_eq sql (codes "broken") then true ∷ false ∷ [] else true ∷ []), suc n);
  exec = λ sql args n. (ok 3, suc n);
  commit_tx = λ n. ok tt;
  rollback_tx = λ n. ok tt;
  column_names = λ r. codes "id" ∷ [];
  row_to_json_pg = decode;
  row_to_json_mysql = decode;
  probes = λ r. [];
  null_value = codes "null";
  of_int = λ n. codes "int";
  of_text = λ s. s;
  of_object = λ m. codes "object";
}

abbrev sample_shapes : Shapes Text
sample_shapes = record {
  of_affected = λ n. n ∷ [];
  of_array = λ vs. codes "array";
  object_values = λ v. none;
}

execute-Answered_example :
    Answered sample_db
      (decoder sample_db postgres)
      (asked sample_db postgres (codes "broken") [] [] 0).0
      (asked sample_db postgres (codes "broken") [] [] 0).1
      (execute sample_db postgres (codes "broken") [] [] (opened sample_db 0))
execute-Answered_example = execute-Answered sample_db postgres (codes "broken") [] [] 0

abbrev calls : List (Call sample_db)
calls = execute_affected_call (codes "DELETE") [] [] ∷ commit_call ∷ rollback_call ∷ []

apply_each-opened-Alive_example :
    Alive sample_db (apply_each sample_db postgres calls (opened sample_db 0))
apply_each-opened-Alive_example = apply_each-opened-Alive sample_db postgres calls 0

abbrev steps : List TxNestedStep
steps =
    record { id = codes "a"; sql = codes "DELETE"; params = []; row_mode = codes "affected_rows" }
    ∷ record { id = codes "b"; sql = codes "broken"; params = []; row_mode = codes "many" }
    ∷ []

execute_transaction-Outcome_example :
    Outcome sample_db sample_shapes postgres [] (object []) steps [] (opened sample_db 0) (
      execute_transaction sample_db sample_shapes postgres [] steps
        (object [])
        (opened sample_db 0))
execute_transaction-Outcome_example =
    execute_transaction-Outcome sample_db sample_shapes postgres [] (object []) steps 0
