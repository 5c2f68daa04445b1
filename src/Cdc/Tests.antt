-- ===== src/Cdc/Tests.antt =====
-- src/watch_pg_cdc.rs: runs at concrete inputs, and the theorems at inputs that meet their hypotheses.
use mcpg_plugin_backend_sql.Common.{
  ℕ, ◌≡◌, ◌≢◌, refl, inr, true, false, List, [], ◌∷◌, none, some, ok, err, arith, Text, codes,
}
use mcpg_plugin_backend_sql.Common.Int.{pos}
use mcpg_plugin_backend_sql.Common.Maps
use mcpg_plugin_backend_sql.Pgoutput.Rows.{Json}
use mcpg_plugin_backend_sql.Pgoutput.Decode.{Message, Relation}
use mcpg_plugin_backend_sql.Cdc.{Progress, Source, empty_progress, advance, settle, set_insert}
use mcpg_plugin_backend_sql.Cdc.Events.{peek_failed, Env, change_events}
use mcpg_plugin_backend_sql.Cdc.Peek.{
  Query, peek, peek_rows, decode_rows, read_loop, peeked, first_limit, peek_messages, peek_loop,
  on_message, on_change, on_commit, deliver, receipts,
}
use mcpg_plugin_backend_sql.Cdc.Receive.{received, receive}
use mcpg_plugin_backend_sql.Cdc.Advance.{Splits, advance-Splits}
use mcpg_plugin_backend_sql.Cdc.Settle.{Inv, settle-Inv}
use mcpg_plugin_backend_sql.Cdc.Reading.{peek_returns}
use mcpg_plugin_backend_sql.Cdc.Delivery.{settled_lsns, Distinct, peek_messages-Fresh}
use mcpg_plugin_backend_sql.Cdc.Gaps.{stop, call, all_reported, Calls-all_reported}

-- JSON values as texts, for the tests.
abbrev texts : Json
texts = record {
  Value = Text;
  null_value = [];
  of_bool = λ b. [];
  of_int = λ n. [];
  of_text = λ s. s;
  finite_f64 = λ s. none;
  from_str = λ s. none;
  of_object = λ m. [];
  of_texts = λ m. [];
}

abbrev env : Env
env = record {
  json = texts;
  occurred_at_from_millis = λ m. none;
  lossy = λ s. s;
  slot = codes "mcpg_1";
}

abbrev orders : Relation
orders = record { schema = codes "public"; name = codes "orders"; columns = [] }

abbrev two_inserts : List (ℕ × Message)
two_inserts =
    (10, Message.begin 30 (pos 5) 7)
    ∷ (10, Message.relation 1 orders)
    ∷ (11, Message.insert 1 [])
    ∷ (12, Message.insert 1 [])
    ∷ (30, Message.commit 30)
    ∷ []

two_inserts_delivered :
    settled_lsns env (peek_messages env 5 two_inserts empty_progress).0.deliveries ≡ 11 ∷ 12 ∷ []
unfolding peek_messages peek_loop on_message on_change on_commit deliver receipts change_events
    Maps.insert set_insert
two_inserts_delivered = refl

peek_messages-Fresh_example :
    Distinct (settled_lsns env (peek_messages env 1 two_inserts empty_progress).0.deliveries)
peek_messages-Fresh_example = (peek_messages-Fresh env 1 two_inserts empty_progress).1

abbrev one_settled : Progress
one_settled = record {
  delivered = 11 ∷ 41 ∷ [];
  transactions =
      (30, record { changes = 11 ∷ []; complete = true; acked = 11 ∷ [] })
      ∷ (50, record { changes = 41 ∷ []; complete = true; acked = [] })
      ∷ [];
  owner = (11, 30) ∷ (41, 50) ∷ [];
  consumed = 9;
}

advance-Splits_example : Splits one_settled.transactions none (advance one_settled)
advance-Splits_example = advance-Splits one_settled

abbrev source : Source
source = record { progress = one_settled; resumed = true; gap = true; unadvanced = some 9 }

source-Inv : Inv source
source-Inv = record { rising = (omega arith, (omega arith, tt)); pending_advance = inr refl }

settle-Inv_example : Inv (settle false source).0
settle-Inv_example = (settle-Inv false source source-Inv).0

abbrev refusing : Query
refusing limit = err (peek_failed (codes "slot is active"))

peek_returns_example : peek env refusing 10 one_settled ≢ none
peek_returns_example = peek_returns env refusing 10 one_settled

-- The peek fails, and the gap that was flagged is not flagged any more.
gap_unreported :
    receive env refusing true 10 source
    ≡ some (err (peek_failed (codes "slot is active")), record source { gap = false })
unfolding receive received peek read_loop peek_rows peeked first_limit
gap_unreported = refl

-- Behind the refusal, a peek that reads nothing.
abbrev silent : Query
silent limit = ok []

abbrev unflagged_source : Source
unflagged_source = record source { gap = false }

nothing_read :
    receive env silent true 10 unflagged_source ≡ some (ok [], (settle true unflagged_source).0)
unfolding receive received peek read_loop peek_rows decode_rows peeked first_limit peek_messages
    peek_loop
nothing_read = refl

Calls-all_reported_example :
    (all_reported env (err (peek_failed (codes "slot is active")) ∷ ok [] ∷ []) ≡ 0)
    × ((settle true unflagged_source).0.gap ≡ false)
Calls-all_reported_example =
    Calls-all_reported env (err (peek_failed (codes "slot is active"))) (ok [] ∷ [])
      (call refusing true 10 gap_unreported (call silent true 10 nothing_read stop))
