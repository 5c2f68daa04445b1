-- ===== src/Transaction/Lifetime.antt =====
-- src/transaction.rs: a handle over any calls.
use mcpg_plugin_backend_sql.Common.{
  ◌≡◌, sym, ap, subst, inl, inr, List, [], ◌∷◌, Option, none, some, Result, ok, err, Text,
}
use mcpg_plugin_backend_sql.Params.{DriverKind}
use mcpg_plugin_backend_sql.Transaction.{
  TxError, Sqlx, Ending, Handle, Vars, Args, with_tx, commit, rollback,
}
use mcpg_plugin_backend_sql.Transaction.Engines.{execute, execute_affected}
use mcpg_plugin_backend_sql.Transaction.Ends.{
  opened, closed, Kept, execute-Kept, execute_affected-Kept, execute-closed,
  execute_affected-closed, commit-closed, rollback-closed,
}

module _ (db : Sqlx) where
  -- Open and not ended, or closed and ended once.
  abbrev pub Life : Option db.Conn → List (Ending db) → Type 0
  Life (some tx) [] = Unit
  Life none (e ∷ []) = Unit
  Life _ _ = ⊥

  abbrev pub Alive : Handle db → Type 0
  Alive h = Life h.inner h.ended

  Kept-Alive :
      {A : Type 0} (D : TxError → Type 0) (p : Result TxError A × Handle db)
      → Kept db D p
      → Alive p.1
  Kept-Alive D (ok a, h) (tx, e) = subst Alive (sym e) tt
  Kept-Alive D (err x, h) (inl (tx, e)) = subst Alive (sym e) tt
  Kept-Alive D (err x, h) (inr (tx, e, why)) = subst Alive (sym e) tt

  -- A call on the handle of an engine.
  pub data Call : Type 0 where
    execute_call execute_affected_call : Text → Args db → Vars db → Call
    commit_call rollback_call : Call

  unfoldable pub apply : DriverKind → Call → Handle db → Handle db
  apply k (execute_call sql args vars) h = (execute db k sql args vars h).1
  apply k (execute_affected_call sql args vars) h = (execute_affected db k sql args vars h).1
  apply k commit_call h = (commit db h).1
  apply k rollback_call h = (rollback db h).1

  unfoldable pub apply_each : DriverKind → List Call → Handle db → Handle db
  apply_each k [] h = h
  apply_each k (c ∷ cs) h = apply_each k cs (apply k c h)

  apply-opened : (k : DriverKind) (c : Call) (tx : db.Conn) → Alive (apply k c (opened db tx))
  unfolding apply commit rollback with_tx
  apply-opened k (execute_call sql args vars) tx =
      Kept-Alive _ _ (execute-Kept db k sql args vars tx)
  apply-opened k (execute_affected_call sql args vars) tx =
      Kept-Alive _ _ (execute_affected-Kept db k sql args vars tx)
  apply-opened k commit_call tx = tt
  apply-opened k rollback_call tx = tt

  apply-closed : (k : DriverKind) (c : Call) (e : Ending db) → apply k c (closed db e) ≡ closed db e
  unfolding apply
  apply-closed k (execute_call sql args vars) e =
      ap (λ p. p.1) (execute-closed db k sql args vars e)
  apply-closed k (execute_affected_call sql args vars) e =
      ap (λ p. p.1) (execute_affected-closed db k sql args vars e)
  apply-closed k commit_call e = ap (λ p. p.1) (commit-closed db e)
  apply-closed k rollback_call e = ap (λ p. p.1) (rollback-closed db e)

  apply-Alive :
      (k : DriverKind) (c : Call) (inner : Option db.Conn) (ended : List (Ending db))
      → Life inner ended
      → Alive (apply k c (record { inner = inner; ended = ended }))
  apply-Alive k c (some tx) [] life = apply-opened k c tx
  apply-Alive k c (some tx) (e ∷ es) life = absurd life
  apply-Alive k c none [] life = absurd life
  apply-Alive k c none (e ∷ []) life = subst Alive (sym (apply-closed k c e)) tt
  apply-Alive k c none (e ∷ f ∷ es) life = absurd life

  apply_each-Alive :
      (k : DriverKind) (cs : List Call) (h : Handle db) → Alive h → Alive (apply_each k cs h)
  unfolding apply_each
  apply_each-Alive k [] h life = life
  apply_each-Alive k (c ∷ cs) h life =
      apply_each-Alive k cs (apply k c h) (apply-Alive k c h.inner h.ended life)

  -- Whatever calls are made on the handle of a transaction, in whatever order and with whatever
  -- outcomes, it is open and its transaction has not ended, or it is closed and its transaction was
  -- ended exactly once: by a commit, a rollback or a drop.
  pub apply_each-opened-Alive :
      (k : DriverKind) (calls : List Call) (tx : db.Conn)
      → Alive (apply_each k calls (opened db tx))
  apply_each-opened-Alive k calls tx = apply_each-Alive k calls (opened db tx) tt
