-- ===== src/Cdc/Marks.antt =====
-- src/watch_pg_cdc.rs: the events of a peek, and the flag of a gap.
use mcpg_plugin_backend_sql.Common.{
  ℕ, ◌≡◌, refl, Bool, false, ◌||◌, List, [], ◌∷◌, ◌++◌, Option, none, some, Result, ok, err, length,
  All, contains, ltb, leb, Bool-cases, Option-cases, inl, inr, ◌>>=◌,
}
use mcpg_plugin_backend_sql.Common.Int.{ℤ}
use mcpg_plugin_backend_sql.Common.Maps.{lookup}
use mcpg_plugin_backend_sql.Pgoutput.Decode.{Relation, Message}
use mcpg_plugin_backend_sql.Cdc.{Progress}
use mcpg_plugin_backend_sql.Cdc.Events.{
  CdcError, Env, WatchEvent, Context, truncate_events, change_events,
}
use mcpg_plugin_backend_sql.Cdc.Peek.{
  Query, Delivery, PeekState, receipts, deliver, on_change, on_commit, on_message, peek_loop,
  peek_messages, peeked, peek,
}

module _ (env : Env) where
  abbrev pub Plain : WatchEvent env → Type 0
  Plain e = e.gap ≡ false

  abbrev pub AllPlain : List (Delivery env) → Type 0
  AllPlain = All (λ d. Plain d.event)

  abbrev OkPlain : Result CdcError (List (WatchEvent env)) → Type 0
  OkPlain (err e) = Unit
  OkPlain (ok es) = All Plain es

  OkPlain-cons :
      (x : WatchEvent env) (r : Result CdcError (List (WatchEvent env)))
      → Plain x
      → OkPlain r
      → OkPlain (r >>= λ es. ok (x ∷ es))
  OkPlain-cons x (err e) h k = tt
  OkPlain-cons x (ok es) h k = (h, k)

  truncate_events-OkPlain :
      (c : Context env) (relations : List (ℕ × Relation)) (cascade restart : Bool) (oids : List ℕ)
      → OkPlain (truncate_events env c relations cascade restart oids)
  unfolding truncate_events
  truncate_events-OkPlain c relations cascade restart [] = tt
  truncate_events-OkPlain c relations cascade restart (oid ∷ oids) =
      elim (Option-cases (lookup oid relations)) [
        | inl h ↦ rw (h, OkPlain) tt
        | inr (relation, h) ↦
            rw (h, OkPlain)
              (OkPlain-cons _ _ refl (truncate_events-OkPlain c relations cascade restart oids))
      ]

  change_events-OkPlain :
      (lsn : ℕ) (begun : Option (ℕ × ℤ)) (relations : List (ℕ × Relation)) (m : Message)
      → OkPlain (change_events env lsn begun relations m)
  unfolding change_events
  change_events-OkPlain lsn begun relations (Message.insert oid new) =
      elim (Option-cases (lookup oid relations)) [
        | inl h ↦ rw (h, OkPlain) tt
        | inr (r, h) ↦ rw (h, OkPlain) (refl, tt)
      ]
  change_events-OkPlain lsn begun relations (Message.update oid old new) =
      elim (Option-cases (lookup oid relations)) [
        | inl h ↦ rw (h, OkPlain) tt
        | inr (r, h) ↦ rw (h, OkPlain) (refl, tt)
      ]
  change_events-OkPlain lsn begun relations (Message.delete oid old full) =
      elim (Option-cases (lookup oid relations)) [
        | inl h ↦ rw (h, OkPlain) tt
        | inr (r, h) ↦ rw (h, OkPlain) (refl, tt)
      ]
  change_events-OkPlain lsn begun relations (Message.truncate oids cascade restart) =
      truncate_events-OkPlain _ relations cascade restart oids
  change_events-OkPlain lsn begun relations (Message.begin f c x) = tt
  change_events-OkPlain lsn begun relations (Message.commit e) = tt
  change_events-OkPlain lsn begun relations (Message.relation o r) = tt
  change_events-OkPlain lsn begun relations Message.other = tt

  AllPlain-append : (ds es : List (Delivery env)) → AllPlain ds → AllPlain es → AllPlain (ds ++ es)
  AllPlain-append [] es a b = b
  AllPlain-append (d ∷ ds) es a b = (a.0, AllPlain-append ds es a.1 b)

  receipts-AllPlain :
      (lsn : ℕ) (es : List (WatchEvent env)) → All Plain es → AllPlain (receipts env lsn es)
  unfolding receipts
  receipts-AllPlain lsn [] a = tt
  receipts-AllPlain lsn (e ∷ []) a = (a.0, tt)
  receipts-AllPlain lsn (e ∷ f ∷ es) a = (a.0, receipts-AllPlain lsn (f ∷ es) a.1)

  deliver-AllPlain :
      (lsn : ℕ) (st : PeekState env) (r : Result CdcError (List (WatchEvent env)))
      → AllPlain st.deliveries
      → OkPlain r
      → AllPlain (deliver env lsn st r).0.deliveries
  unfolding deliver
  deliver-AllPlain lsn st (err e) a k = a
  deliver-AllPlain lsn st (ok es) a k =
      AllPlain-append st.deliveries (receipts env lsn es) a (receipts-AllPlain lsn es k)

  on_change-AllPlain :
      (max_new lsn : ℕ) (m : Message) (st : PeekState env)
      → AllPlain st.deliveries
      → AllPlain (on_change env max_new lsn m st).0.deliveries
  unfolding on_change
  on_change-AllPlain max_new lsn m st a =
      elim (Bool-cases (
        ltb lsn st.progress.consumed
        || contains lsn st.progress.delivered
        || leb max_new (length st.deliveries))) [
          | inl skipped ↦ rw skipped a
          | inr taken ↦ rw taken (
              deliver-AllPlain lsn (record st { transaction = st.transaction ++ lsn ∷ [] })
                (change_events env lsn st.begun st.relations m) a
                (change_events-OkPlain lsn st.begun st.relations m))
        ]

  on_commit-deliveries :
      (end_lsn : ℕ) (st : PeekState env) → (on_commit env end_lsn st).deliveries ≡ st.deliveries
  unfolding on_commit
  on_commit-deliveries end_lsn st = elim (Bool-cases (leb end_lsn st.progress.consumed)) [
    | inl old ↦ rw old refl
    | inr new ↦ rw new refl
  ]

  on_message-AllPlain :
      (max_new : ℕ) (st : PeekState env) (m : ℕ × Message)
      → AllPlain st.deliveries
      → AllPlain (on_message env max_new st m).0.deliveries
  unfolding on_message
  on_message-AllPlain max_new st (lsn, Message.begin f c x) a = a
  on_message-AllPlain max_new st (lsn, Message.commit e) a = rw (on_commit-deliveries e st) a
  on_message-AllPlain max_new st (lsn, Message.relation oid r) a = a
  on_message-AllPlain max_new st (lsn, Message.other) a = a
  on_message-AllPlain max_new st (lsn, Message.insert oid n) a =
      on_change-AllPlain max_new lsn (Message.insert oid n) st a
  on_message-AllPlain max_new st (lsn, Message.update oid o n) a =
      on_change-AllPlain max_new lsn (Message.update oid o n) st a
  on_message-AllPlain max_new st (lsn, Message.delete oid o f) a =
      on_change-AllPlain max_new lsn (Message.delete oid o f) st a
  on_message-AllPlain max_new st (lsn, Message.truncate os c r) a =
      on_change-AllPlain max_new lsn (Message.truncate os c r) st a

  peek_loop-AllPlain :
      (max_new : ℕ) (ms : List (ℕ × Message)) (st : PeekState env)
      → AllPlain st.deliveries
      → AllPlain (peek_loop env max_new ms st).0.deliveries
  unfolding peek_loop
  peek_loop-AllPlain max_new [] st a = a
  peek_loop-AllPlain max_new (m ∷ ms) st a = elim (Option-cases (on_message env max_new st m).1) [
    | inl go ↦
        rw (go, peek_loop)
          (peek_loop-AllPlain max_new ms (on_message env max_new st m).0
            (on_message-AllPlain max_new st m a))
    | inr (e, stop) ↦ rw (stop, peek_loop) (on_message-AllPlain max_new st m a)
  ]

  -- The deliveries of an answer of `peek` report no gap.
  abbrev pub PeekPlain : Option (Result CdcError (List (Delivery env)) × Progress) → Type 0
  PeekPlain none = Unit
  PeekPlain (some (err e, p)) = Unit
  PeekPlain (some (ok ds, p)) = AllPlain ds

  outcome-PeekPlain :
      (ds : List (Delivery env)) (failure : Option CdcError) (p : Progress)
      → AllPlain ds
      → PeekPlain (some (elim failure [ none ↦ ok ds | some e ↦ err e ], p))
  outcome-PeekPlain ds none p a = a
  outcome-PeekPlain ds (some e) p a = tt

  peeked-PeekPlain :
      (max_new : ℕ) (p : Progress) (o : Option (Result CdcError (List (ℕ × Message))))
      → PeekPlain (peeked env max_new p o)
  unfolding peeked peek_messages
  peeked-PeekPlain max_new p none = tt
  peeked-PeekPlain max_new p (some (err e)) = tt
  peeked-PeekPlain max_new p (some (ok ms)) =
      outcome-PeekPlain _ _ _ (peek_loop-AllPlain max_new ms _ tt)

  pub peek-PeekPlain :
      (query : Query) (max_new : ℕ) (p : Progress) → PeekPlain (peek env query max_new p)
  unfolding peek
  peek-PeekPlain query max_new p = peeked-PeekPlain max_new p _
