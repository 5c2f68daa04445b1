-- ===== src/Cdc/Peek.antt =====
-- src/watch_pg_cdc.rs: `peek` and `new_changes`. The rows come from the database, so the query is a
-- function from the limit to its rows or its error; `peek_rows` decodes them.
use mcpg_plugin_backend_sql.Common.{
  ℕ, zero, suc, ◌+◌, ◌*◌, min, max, Bool, true, false, not, ◌&&◌, ◌||◌, List, [], ◌∷◌, ◌++◌, Option,
  none, some, Result, ok, err, ◌>>=◌, ok_or, Text, length, ltb, leb, ◌==◌, if◌then◌else◌, contains,
  filter,
}
use mcpg_plugin_backend_sql.Common.Int.{ℤ}
use mcpg_plugin_backend_sql.Common.Maps.{insert}
use mcpg_plugin_backend_sql.Pgoutput.Bytes.{DecodeError}
use mcpg_plugin_backend_sql.Pgoutput.Decode.{Relation, Message, decode}
use mcpg_plugin_backend_sql.Pgoutput.Lsn.{parse_lsn}
use mcpg_plugin_backend_sql.Cdc.{Transaction, empty_transaction, Progress, set_insert}
use mcpg_plugin_backend_sql.Cdc.Events.{
  CdcError, decoding, lsn_does_not_parse, Env, WatchEvent, change_events,
}

abbrev pub max_peek_rows : ℕ
max_peek_rows = 65536

-- A message that is a change of a table.
unfoldable pub is_change : Message → Bool
is_change (Message.insert oid new) = true
is_change (Message.update oid old new) = true
is_change (Message.delete oid old full) = true
is_change (Message.truncate oids cascade restart) = true
is_change _ = false

-- `lsn >= consumed && !delivered.contains(lsn)`.
unfoldable pub is_new : Progress → ℕ → Bool
is_new p lsn = leb p.consumed lsn && not (contains lsn p.delivered)

unfoldable pub new_changes : Progress → List (ℕ × Message) → ℕ
unfolding is_change is_new
new_changes p messages = length (filter (λ m. is_change m.1 && is_new p m.0) messages)

from_decode : Result DecodeError Message → Result CdcError Message
from_decode (ok m) = ok m
from_decode (err e) = err (decoding e)

-- `entry(end).or_default()` of the ordered map, then its changes set and marked complete.
unfoldable pub put_transaction : ℕ → List ℕ → List (ℕ × Transaction) → List (ℕ × Transaction)
put_transaction end_lsn cs [] =
    (end_lsn, record empty_transaction { changes = cs; complete = true }) ∷ []
put_transaction end_lsn cs ((e, t) ∷ ts) =
    let rest = put_transaction end_lsn cs ts in
    if e == end_lsn
    then (e, record t { changes = cs; complete = true }) ∷ ts
    else if ltb end_lsn e
    then (end_lsn, record empty_transaction { changes = cs; complete = true }) ∷ (e, t) ∷ ts
    else (e, t) ∷ rest

-- The changes of a transaction, collected into a set.
unfoldable pub to_set : List ℕ → List ℕ
to_set [] = []
to_set (x ∷ xs) = set_insert x (to_set xs)

-- `for change in &transaction { owner.insert(*change, end_lsn) }`.
unfoldable pub own : ℕ → List ℕ → List (ℕ × ℕ) → List (ℕ × ℕ)
own end_lsn [] m = m
own end_lsn (c ∷ cs) m = own end_lsn cs (insert c end_lsn m)

unfoldable pub decode_row : Env → Text × Text → Result CdcError (ℕ × Message)
unfolding parse_lsn decode from_decode
decode_row env (lsn_value, bytes) = do
  lsn ← ok_or (parse_lsn lsn_value) (lsn_does_not_parse lsn_value)
  m ← from_decode (decode env.lossy bytes)
  ok (lsn, m)

unfoldable pub decode_rows : Env → List (Text × Text) → Result CdcError (List (ℕ × Message))
unfolding decode_row
decode_rows env [] = ok []
decode_rows env (r ∷ rs) = do m ← decode_row env r; ms ← decode_rows env rs; ok (m ∷ ms)

-- `SELECT … FROM pg_logical_slot_peek_binary_changes(slot, NULL, limit, …)`, as the server answers.
abbrev pub Query : Type 0
Query = ℕ → Result CdcError (List (Text × Text))

unfoldable pub peek_rows : Env → Query → ℕ → Result CdcError (List (ℕ × Message))
unfolding decode_rows
peek_rows env query limit = do rows ← query limit; decode_rows env rows

-- The loop that widens the limit; `none` if the fuel runs out first.
unfoldable pub read_loop :
    Env → Query → Progress → ℕ → ℕ → ℕ → Option (Result CdcError (List (ℕ × Message)))
read_loop env query p max_new zero limit = none
read_loop env query p max_new (suc fuel) limit = elim (peek_rows env query limit) [
  | err e ↦ some (err e)
  | ok messages ↦
      let wider = read_loop env query p max_new fuel (min (limit * 4) max_peek_rows) in
      if ltb (length messages) limit
        || (limit == max_peek_rows)
        || leb max_new (new_changes p messages)
      then some (ok messages)
      else wider
]

-- `(in_flight + max).clamp(1, MAX_PEEK_ROWS)`.
unfoldable pub first_limit : Progress → ℕ → ℕ
first_limit p max_new = min (max (length p.delivered + max_new) 1) max_peek_rows

module _ (env : Env) where
  pub record Delivery : Type 0 where
    pub event : WatchEvent env
    pub receipt : Option ℕ

  pub record PeekState : Type 0 where
    pub relations : List (ℕ × Relation)
    pub deliveries : List Delivery
    pub progress : Progress
    pub transaction : List ℕ
    pub begun : Option (ℕ × ℤ)

  -- The last event of a change carries its receipt.
  unfoldable pub receipts : ℕ → List (WatchEvent env) → List Delivery
  receipts lsn [] = []
  receipts lsn (e ∷ []) = record { event = e; receipt = some lsn } ∷ []
  receipts lsn (e ∷ f ∷ es) = record { event = e; receipt = none } ∷ receipts lsn (f ∷ es)

  unfoldable pub deliver :
      ℕ → PeekState → Result CdcError (List (WatchEvent env)) → PeekState × Option CdcError
  deliver lsn st (err e) = (st, some e)
  deliver lsn st (ok events) = (
    record st {
      deliveries = st.deliveries ++ receipts lsn events;
      progress = record (st.progress) { delivered = set_insert lsn st.progress.delivered };
    },
    none,
  )

  unfoldable pub on_change : ℕ → ℕ → Message → PeekState → PeekState × Option CdcError
  on_change max_new lsn m st =
      let st' = record st { transaction = st.transaction ++ lsn ∷ [] } in
      if ltb lsn st.progress.consumed
        || contains lsn st.progress.delivered
        || leb max_new (length st.deliveries)
      then (st', none)
      else deliver lsn st' (change_events env lsn st.begun st.relations m)

  unfoldable pub on_commit : ℕ → PeekState → PeekState
  on_commit end_lsn st =
      if leb end_lsn st.progress.consumed then record st { transaction = [] } else record st {
        progress = record (st.progress) {
          owner = own end_lsn st.transaction st.progress.owner;
          transactions = put_transaction end_lsn (to_set st.transaction) st.progress.transactions;
        };
        transaction = [];
      }

  -- One message of the loop of `peek`.
  unfoldable pub on_message : ℕ → PeekState → ℕ × Message → PeekState × Option CdcError
  on_message max_new st (lsn, Message.begin final_lsn micros xid) =
      (record st { begun = some (xid, micros); transaction = [] }, none)
  on_message max_new st (lsn, Message.commit end_lsn) = (on_commit end_lsn st, none)
  on_message max_new st (lsn, Message.relation oid r) =
      (record st { relations = insert oid r st.relations }, none)
  on_message max_new st (lsn, Message.other) = (st, none)
  on_message max_new st (lsn, m) = on_change max_new lsn m st

  -- The loop of `peek` over the messages, left at the first error with what it changed until then.
  unfoldable pub peek_loop : ℕ → List (ℕ × Message) → PeekState → PeekState × Option CdcError
  peek_loop max_new [] st = (st, none)
  peek_loop max_new (m ∷ ms) st = elim ((on_message max_new st m).1) [
    | some e ↦ ((on_message max_new st m).0, some e)
    | none ↦ peek_loop max_new ms (on_message max_new st m).0
  ]

  unfoldable pub peek_messages : ℕ → List (ℕ × Message) → Progress → PeekState × Option CdcError
  peek_messages max_new messages p =
      peek_loop max_new messages
        (record { relations = []; deliveries = []; progress = p; transaction = []; begun = none })

  unfoldable pub peeked :
      ℕ
      → Progress
      → Option (Result CdcError (List (ℕ × Message)))
      → Option (Result CdcError (List Delivery) × Progress)
  peeked max_new p none = none
  peeked max_new p (some (err e)) = some (err e, p)
  peeked max_new p (some (ok messages)) =
      let (st, failure) = peek_messages max_new messages p in
      some (elim failure [ none ↦ ok st.deliveries | some e ↦ err e ], st.progress)

  -- `peek`: the deliveries or the error, and the progress; nine rounds of the widening loop.
  unfoldable pub peek : Query → ℕ → Progress → Option (Result CdcError (List Delivery) × Progress)
  peek query max_new p = peeked max_new p (read_loop env query p max_new 9 (first_limit p max_new))
