-- ===== src/Cdc.antt =====
-- src/watch_pg_cdc.rs: the watch on a logical replication slot. `Progress` and the calls of the
-- queue are here; the loops of `peek` in `Cdc/Peek.antt`, the events in `Cdc/Events.antt`. Hash sets
-- are lists without repetition, the ordered map of transactions is an association list kept in the
-- order of its keys. Locks are held for a whole call, so the calls do not interleave.
pub mod Events
pub mod Peek
pub mod Advance
pub mod Settle
pub mod Delivery
pub mod Marks
pub mod Gaps
pub mod Reading
pub mod Receive
mod Tests
use mcpg_plugin_backend_sql.Common.{
  ℕ, ◌+◌, max, Bool, true, false, not, ◌||◌, List, [], ◌∷◌, ◌++◌, Option, none, some, length, ltb,
  leb, ◌==◌, if◌then◌else◌, contains, filter,
}
use mcpg_plugin_backend_sql.Common.Maps.{lookup, insert, remove}

-- `HashSet::insert` and `HashSet::remove`.
unfoldable pub set_insert : ℕ → List ℕ → List ℕ
set_insert x xs = if contains x xs then xs else x ∷ xs

unfoldable pub set_remove : ℕ → List ℕ → List ℕ
set_remove x xs = filter (λ y. not (y == x)) xs

pub record Transaction : Type 0 where
  pub changes : List ℕ
  pub complete : Bool
  pub acked : List ℕ

abbrev pub empty_transaction : Transaction
empty_transaction = record { changes = []; complete = false; acked = [] }

pub record Progress : Type 0 where
  pub delivered : List ℕ
  pub transactions : List (ℕ × Transaction)
  pub owner : List (ℕ × ℕ)
  pub consumed : ℕ

abbrev pub empty_progress : Progress
empty_progress = record { delivered = []; transactions = []; owner = []; consumed = 0 }

-- `for change in &tx.changes { owner.remove; delivered.remove }`.
unfoldable pub forget : List ℕ → Progress → Progress
forget [] p = p
forget (c ∷ cs) p =
    forget cs (record p { owner = remove c p.owner; delivered = set_remove c p.delivered })

-- `!tx.complete || tx.acked.len() < tx.changes.len()`.
unfoldable pub is_pending : Transaction → Bool
is_pending t = not t.complete || ltb (length t.acked) (length t.changes)

-- The `while let` of `advance` over the transactions left, and the last end LSN passed.
unfoldable pub advance_loop : List (ℕ × Transaction) → Progress → Option ℕ → Progress × Option ℕ
advance_loop [] p to = (record p { transactions = [] }, to)
advance_loop ((end_lsn, tx) ∷ rest) p to =
    let next =
      advance_loop rest (record (forget tx.changes p) { consumed = max p.consumed end_lsn })
        (some end_lsn) in
    if is_pending tx then (record p { transactions = (end_lsn, tx) ∷ rest }, to) else next

unfoldable pub advance : Progress → Progress × Option ℕ
unfolding advance_loop
advance p = advance_loop p.transactions p none

-- `if let Some(tx) = transactions.get_mut(&end) { tx.acked.insert(lsn) }`.
unfoldable pub acknowledge : ℕ → ℕ → List (ℕ × Transaction) → List (ℕ × Transaction)
acknowledge end_lsn lsn [] = []
acknowledge end_lsn lsn ((e, t) ∷ ts) =
    let rest = acknowledge end_lsn lsn ts in
    if e == end_lsn then (e, record t { acked = set_insert lsn t.acked }) ∷ ts else (e, t) ∷ rest

ack_owned : Option ℕ → ℕ → Progress → Progress
ack_owned none lsn p = p
ack_owned (some end_lsn) lsn p = record p { transactions = acknowledge end_lsn lsn p.transactions }

-- A receipt is the LSN of its change, or none for an event that settles nothing.
unfoldable pub ack : Option ℕ → Progress → Progress
unfolding ack_owned
ack none p = p
ack (some lsn) p = ack_owned (lookup lsn p.owner) lsn p

unfoldable pub release : Option ℕ → Progress → Progress
release none p = p
release (some lsn) p = record p { delivered = set_remove lsn p.delivered }

-- The database side of a watch: its progress, the gap to report, and the advance that failed.
pub record Source : Type 0 where
  pub progress : Progress
  pub resumed : Bool
  pub gap : Bool
  pub unadvanced : Option ℕ

-- `Option::max`: none is below every some.
unfoldable pub option_max : Option ℕ → Option ℕ → Option ℕ
option_max none b = b
option_max (some a) none = some a
option_max (some a) (some b) = some (max a b)

-- Nothing to advance to, or a request to the server, whose outcome is `accepted`.
unfoldable pub request_advance : Bool → Source → Option ℕ → Source × Option ℕ
request_advance accepted s none = (s, none)
request_advance true s (some to) = (record s { unadvanced = none }, some to)
request_advance false s (some to) = (record s { unadvanced = some to }, some to)

-- The new state, and the LSN that `pg_replication_slot_advance` was asked for.
unfoldable pub settle : Bool → Source → Source × Option ℕ
unfolding option_max request_advance
settle accepted s =
    let (p, to) = advance s.progress in
    request_advance accepted (record s { progress = p }) (option_max to s.unadvanced)

-- A connection made: `created` says that the slot was missing.
unfoldable pub connect : Bool → Source → Source
connect created s = record s {
  progress = empty_progress;
  gap = if created then (if s.resumed then true else s.gap) else s.gap;
}
