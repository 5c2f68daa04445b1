-- ===== src/Transaction/Atomicity.antt =====
-- src/lib.rs: how a transaction group ends.
use mcpg_plugin_backend_sql.Common.{
  ◌≡◌, refl, sym, ap, ◌∙◌, subst, ◌⊎◌, inl, inr, List, [], ◌∷◌, Result, ok, err, Text,
}
use mcpg_plugin_backend_sql.Common.TextMaps.{insert}
use mcpg_plugin_backend_sql.Errors.{SqlxError}
use mcpg_plugin_backend_sql.Params.{
  DriverKind, BoundParam, BindError, collect_bound_params, rewrite_placeholders,
}
use mcpg_plugin_backend_sql.Params as Params
use mcpg_plugin_backend_sql.Transaction.{
  TxError, Sqlx, committed, rolled_back, dropped, Handle, Vars, with_tx, mapped, commit, rollback,
}
use mcpg_plugin_backend_sql.Transaction.Steps.{
  TxNestedStep, StepError, GroupError, begin_failed, step_failed, commit_failed, Shapes, Results,
  after_step, run_steps, committed_results, finish, execute_transaction,
}
use mcpg_plugin_backend_sql.Transaction.Stepping.{StepKept, run, run-StepKept}
use mcpg_plugin_backend_sql.Transaction.Ends.{opened, closed, IsOpen, rollback-closed}

module _ (db : Sqlx) where
  rollback-opened : (tx : db.Conn) → (rollback db (opened db tx)).1 ≡ closed db (rolled_back tx)
  unfolding rollback with_tx
  rollback-opened tx = refl

  commit-opened :
      (tx : db.Conn)
      → commit db (opened db tx) ≡ (mapped db (db.commit_tx tx), closed db (committed tx))
  unfolding commit with_tx
  commit-opened tx = refl

module _ (db : Sqlx) (shapes : Shapes db.Value) (driver : DriverKind) (session : Vars db)
    (input : Params.Args db.Value) where
  abbrev Map : Type 0
  Map = Results db shapes driver session

  -- Every step succeeds, one after the other, from the first handle to the last; each puts its
  -- value under its name.
  abbrev pub Ran : List TxNestedStep → Map → Handle db → Map → Handle db → Type 0
  Ran [] results h final end = (final ≡ results) × (end ≡ h)
  Ran (step ∷ steps) results h final end =
      (value : db.Value) × (next : Handle db) × (run db shapes driver session input step h
        ≡ (ok value, next))
      × Ran steps (insert step.id value results) next final end

  -- Steps succeed up to one that fails.
  abbrev pub Failing : List TxNestedStep → Handle db → Text → StepError → Handle db → Type 0
  Failing [] h id e end = ⊥
  Failing (step ∷ steps) h id e end =
      ((id ≡ step.id) × (run db shapes driver session input step h ≡ (err e, end)))
      ⊎ ((value : db.Value) × (next : Handle db) × (run db shapes driver session input step h
            ≡ (ok value, next))
          × Failing steps next id e end)

  -- What the outcome says of the transaction.
  abbrev pub Outcome :
      List TxNestedStep → Map → Handle db → Result GroupError Map × Handle db → Type 0
  Outcome steps results h (ok final, end) =
      (tx : db.Conn) × Ran steps results h final (opened db tx)
      × (db.commit_tx tx ≡ ok tt)
      × (end ≡ closed db (committed tx))
  Outcome steps results h (err (begin_failed e), end) = ⊥
  Outcome steps results h (err (step_failed id e), end) =
      (last : Handle db) × (tx : db.Conn) × Failing steps h id e last
      × ((end ≡ closed db (rolled_back tx)) ⊎ (end ≡ closed db (dropped tx)))
  Outcome steps results h (err (commit_failed e), end) =
      (final : Map) × (tx : db.Conn) × (x : SqlxError) × Ran steps results h final (opened db tx)
      × (db.commit_tx tx ≡ err x)
      × (end ≡ closed db (committed tx))

  -- The same of the steps alone, before the commit.
  StepsOutcome : List TxNestedStep → Map → Handle db → Result GroupError Map × Handle db → Type 0
  StepsOutcome steps results h (ok final, end) = IsOpen db end × Ran steps results h final end
  StepsOutcome steps results h (err (begin_failed e), end) = ⊥
  StepsOutcome steps results h (err (step_failed id e), end) =
      (last : Handle db) × (tx : db.Conn) × Failing steps h id e last
      × ((end ≡ closed db (rolled_back tx)) ⊎ (end ≡ closed db (dropped tx)))
  StepsOutcome steps results h (err (commit_failed e), end) = ⊥

  step-StepsOutcome :
      (step : TxNestedStep) (steps : List TxNestedStep) (results : Map) (h next : Handle db)
      (value : db.Value) (r : Result GroupError Map × Handle db)
      → run db shapes driver session input step h ≡ (ok value, next)
      → StepsOutcome steps (insert step.id value results) next r
      → StepsOutcome (step ∷ steps) results h r
  unfolding StepsOutcome
  step-StepsOutcome step steps results h next value (ok final, end) e (o, ran) =
      (o, (value, next, e, ran))
  step-StepsOutcome step steps results h next value (err (begin_failed x), end) e o = absurd o
  step-StepsOutcome step steps results h next value (err (step_failed id x), end) e
        (last, tx, failing, ends) =
      (last, tx, inr (value, next, e, failing), ends)
  step-StepsOutcome step steps results h next value (err (commit_failed x), end) e o = absurd o

  rollback-ends :
      (h : Handle db)
      → IsOpen db h ⊎ ((tx : db.Conn) × (h ≡ closed db (dropped tx)))
      → (tx : db.Conn) × (((rollback db h).1 ≡ closed db (rolled_back tx))
          ⊎ ((rollback db h).1 ≡ closed db (dropped tx)))
  rollback-ends h (inl (tx, e)) = (tx, inl (ap (λ x. (rollback db x).1) e ∙ rollback-opened db tx))
  rollback-ends h (inr (tx, e)) =
      (tx, inr (ap (λ x. (rollback db x).1) e ∙ ap (λ p. p.1) (rollback-closed db (dropped tx))))

  after_step-StepsOutcome :
      (step : TxNestedStep) (steps : List TxNestedStep) (results : Map) (h : Handle db)
      (p : Result StepError db.Value × Handle db)
      → run db shapes driver session input step h ≡ p
      → StepKept db shapes p
      → ((results : Map) (tx : db.Conn)
          → StepsOutcome steps results
              (opened db tx)
              (run_steps db shapes driver session input steps results (opened db tx)))
      → StepsOutcome (step ∷ steps) results h (
          after_step db shapes driver session step.id results p
            (run_steps db shapes driver session input steps))
  unfolding after_step StepsOutcome
  after_step-StepsOutcome step steps results h (err e, end) is kept rest =
      let (tx, ends) = rollback-ends end kept in (end, tx, inl (refl, is), ends)
  after_step-StepsOutcome step steps results h (ok value, next) is (tx, o) rest =
      step-StepsOutcome step steps results h next value _ is (
        subst
          (λ x.
            StepsOutcome steps (insert step.id value results) x
              (run_steps db shapes driver session input steps (insert step.id value results) x))
          (sym o) (rest (insert step.id value results) tx))

  run_steps-StepsOutcome :
      (steps : List TxNestedStep) (results : Map) (tx : db.Conn)
      → StepsOutcome steps results
          (opened db tx)
          (run_steps db shapes driver session input steps results (opened db tx))
  unfolding run_steps StepsOutcome
  run_steps-StepsOutcome [] results tx = ((tx, refl), (refl, refl))
  run_steps-StepsOutcome (step ∷ steps) results tx =
      after_step-StepsOutcome step steps results (opened db tx) _ refl
        (run-StepKept db shapes driver session input step tx) (run_steps-StepsOutcome steps)

  commit-Outcome :
      (steps : List TxNestedStep) (results final : Map) (h : Handle db) (tx : db.Conn)
      (r : Result SqlxError (Unit {0}))
      → db.commit_tx tx ≡ r
      → Ran steps results h final (opened db tx)
      → Outcome steps results h
          (committed_results db shapes driver session final (mapped db r, closed db (committed tx)))
  unfolding committed_results mapped
  commit-Outcome steps results final h tx (ok tt) e ran = (tx, ran, e, refl)
  commit-Outcome steps results final h tx (err x) e ran = (final, tx, x, ran, e, refl)

  finish-Outcome :
      (steps : List TxNestedStep) (results : Map) (h : Handle db)
      (r : Result GroupError Map × Handle db)
      → StepsOutcome steps results h r
      → Outcome steps results h (finish db shapes driver session r)
  unfolding finish StepsOutcome
  finish-Outcome steps results h (ok final, end) ((tx, o), ran) =
      let after : Result TxError (Unit {0}) × Handle db → Type 0 =
        λ p. Outcome steps results h (committed_results db shapes driver session final p) in
      subst (λ x. after (commit db x)) (sym o)
        (subst after (sym (commit-opened db tx)) (
          commit-Outcome steps results final h tx _ refl
            (subst (λ x. Ran steps results h final x) o ran)))
  finish-Outcome steps results h (err (begin_failed x), end) o = absurd o
  finish-Outcome steps results h (err (step_failed id x), end) o = o
  finish-Outcome steps results h (err (commit_failed x), end) o = absurd o

  -- A group run on a transaction just begun: if it returns results, every step succeeded, in
  -- order, each on the connection that the one before it left, the results are theirs, and the
  -- transaction was committed, once. If it returns that a step failed, the steps before that one
  -- succeeded, and the transaction was rolled back or dropped, once, and not committed. Otherwise
  -- every step succeeded and the commit failed.
  pub execute_transaction-Outcome :
      (steps : List TxNestedStep) (tx : db.Conn)
      → Outcome steps []
          (opened db tx)
          (execute_transaction db shapes driver session steps input (opened db tx))
  unfolding execute_transaction
  execute_transaction-Outcome steps tx =
      finish-Outcome steps [] (opened db tx) _ (run_steps-StepsOutcome steps [] tx)
