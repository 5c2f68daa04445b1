-- ===== src/Cdc/Receive.antt =====
-- src/watch_pg_cdc.rs: `receive`, on a connected source. The sleep of an empty round is left out.
use mcpg_plugin_backend_sql.Common.{
  ℕ, Bool, true, false, List, [], ◌∷◌, ◌++◌, Option, none, some, Result, ok, err,
}
use mcpg_plugin_backend_sql.Cdc.{Progress, Source, settle}
use mcpg_plugin_backend_sql.Cdc.Events.{CdcError, Env, WatchEvent}
use mcpg_plugin_backend_sql.Cdc.Peek.{Query, Delivery, peek}

module _ (env : Env) where
  abbrev pub gap_event : WatchEvent env
  gap_event = record {
    event_id = none;
    event_type = none;
    occurred_at = none;
    event_data = none;
    upstream_cursor = none;
    gap = true;
  }

  -- The report of a gap, taken from its flag.
  abbrev pub gap_report : Bool → List (Delivery env)
  gap_report true = record { event = gap_event; receipt = none } ∷ []
  gap_report false = []

  unfoldable pub received :
      Bool
      → Source
      → List (Delivery env)
      → Result CdcError (List (Delivery env)) × Progress
      → Result CdcError (List (Delivery env)) × Source
  received accepted s reports (err e, p) = (err e, record s { progress = p })
  received accepted s reports (ok ds, p) =
      (ok (reports ++ ds), (settle accepted (record s { progress = p })).0)

  -- `accepted` is the outcome of the advance, if one is asked for.
  unfoldable pub receive :
      Query → Bool → ℕ → Source → Option (Result CdcError (List (Delivery env)) × Source)
  unfolding received
  receive query accepted max_new s = elim (peek env query max_new s.progress) [
    | none ↦ none
    | some answer ↦ some (received accepted (record s { gap = false }) (gap_report s.gap) answer)
  ]
