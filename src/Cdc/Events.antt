-- ===== src/Cdc/Events.antt =====
-- src/watch_pg_cdc.rs: `change_events`; src/pgoutput.rs: `commit_time`. Not of the repository, and
-- parameters here: `serde_json` (the interface `Json`) and the protocol crate's
-- `occurred_at_from_millis`. A `WatchEvent` has the fields that the watch sets.
use mcpg_plugin_backend_sql.Common.{
  ℕ, ◌+◌, ◌-◌, ◌/◌, ◌^◌, Bool, false, not, List, [], ◌∷◌, ◌++◌, Option, none, some, Result, ok, err,
  ◌>>=◌, Text, codes, ltb, ◌==◌, if◌then◌else◌,
}
use mcpg_plugin_backend_sql.Common.Int.{ℤ, pos, negsuc, of_word}
use mcpg_plugin_backend_sql.Common.Radix.{format}
use mcpg_plugin_backend_sql.Common.Maps.{lookup}
use mcpg_plugin_backend_sql.Common.TextMaps.{insert}
use mcpg_plugin_backend_sql.Pgoutput.Bytes.{DecodeError}
use mcpg_plugin_backend_sql.Pgoutput.Decode.{Relation, Datum, Message}
use mcpg_plugin_backend_sql.Pgoutput.Decode
use mcpg_plugin_backend_sql.Pgoutput.Lsn.{lsn_text}
use mcpg_plugin_backend_sql.Pgoutput.Rows.{Json, Row, row_of}

pub data CdcError : Type 0 where
  decoding : DecodeError → CdcError
  unknown_relation : ℕ → CdcError
  lsn_does_not_parse : Text → CdcError
  peek_failed : Text → CdcError

pub record Env : Type 1 where
  pub json : Json
  pub occurred_at_from_millis : ℤ → Option Text
  pub lossy : Text → Text
  pub slot : Text

abbrev pg_epoch_micros : ℕ
pg_epoch_micros = 946684800000000

-- An i64 sum wraps; the division rounds to zero.
add_epoch : ℤ → ℤ
add_epoch (pos n) = of_word (2 ^ 63) (n + pg_epoch_micros)
add_epoch (negsuc n) =
    if ltb n pg_epoch_micros then pos (pg_epoch_micros - 1 - n) else negsuc (n - pg_epoch_micros)

thousandth : ℤ → ℤ
thousandth (pos n) = pos (n / 1000)
thousandth (negsuc n) = let q = (n + 1) / 1000 in if q == 0 then pos 0 else negsuc (q - 1)

unfoldable pub commit_time : Env → ℤ → Option Text
unfolding add_epoch thousandth
commit_time env micros = env.occurred_at_from_millis (thousandth (add_epoch micros))

abbrev pub row_changed_event_type : Text
row_changed_event_type = codes "sql.row.changed"

abbrev pub truncated_event_type : Text
truncated_event_type = codes "sql.table.truncated"

module _ (env : Env) where
  abbrev pub Value : Type 0
  Value = env.json.Value

  pub record WatchEvent : Type 0 where
    pub event_id : Option Text
    pub event_type : Option Text
    pub occurred_at : Option Text
    pub event_data : Option Value
    pub upstream_cursor : Option Value
    pub gap : Bool

  -- What every change of one message has in common.
  pub record Context : Type 0 where
    pub lsn : ℕ
    pub committed : Option Text
    pub base : List (Text × Value)

  abbrev str : Text → Value
  str = env.json.of_text

  with_xid : Option (ℕ × ℤ) → List (Text × Value) → List (Text × Value)
  with_xid none m = m
  with_xid (some (xid, micros)) m = insert (codes "xid") (env.json.of_int (pos xid)) m

  committed_at : Option (ℕ × ℤ) → Option Text
  committed_at none = none
  committed_at (some (xid, micros)) = commit_time env micros

  with_time : Option Text → List (Text × Value) → List (Text × Value)
  with_time none m = m
  with_time (some at) m = insert (codes "commitTime") (str at) m

  context : ℕ → Option (ℕ × ℤ) → Context
  context lsn begun = record {
    lsn = lsn;
    committed = committed_at begun;
    base =
        with_time (committed_at begun)
          (with_xid begun (insert (codes "lsn") (str (lsn_text lsn)) []));
  }

  event : Context → Text → Text → List (Text × Value) → WatchEvent
  event c event_type id fields = record {
    event_id = some id;
    event_type = some event_type;
    occurred_at = c.committed;
    event_data = some (env.json.of_object fields);
    upstream_cursor = some (
        env.json.of_object
          ((codes "v", env.json.of_int (pos 1)) ∷ (codes "lsn", str (lsn_text c.lsn)) ∷ []));
    gap = false;
  }

  change_id : ℕ → Text
  change_id lsn = env.slot ++ b'/' ∷ lsn_text lsn

  with_old : Option (Row env.json) → List (Text × Value) → List (Text × Value)
  with_old none m = m
  with_old (some old) m = insert (codes "old") (env.json.of_object old) m

  with_unchanged : List Text → List (Text × Value) → List (Text × Value)
  with_unchanged [] m = m
  with_unchanged (u ∷ us) m = insert (codes "unchanged") (env.json.of_texts (u ∷ us)) m

  row_event :
      Context → Text → Relation → Row env.json → Option (Row env.json) → List Text → WatchEvent
  row_event c op relation row old un = event c row_changed_event_type (change_id c.lsn) (
      with_unchanged un (
        with_old old (
          insert (codes "row") (env.json.of_object row) (
            insert (codes "table") (str relation.name) (
              insert (codes "schema") (str relation.schema)
                (insert (codes "op") (str op) c.base))))))

  truncate_event : Context → Bool → Bool → ℕ → Relation → WatchEvent
  truncate_event c cascade restart oid relation =
      event c truncated_event_type (change_id c.lsn ++ b'/' ∷ format 10 oid) (
        insert (codes "restartIdentity") (env.json.of_bool restart) (
          insert (codes "cascade") (env.json.of_bool cascade) (
            insert (codes "table") (str relation.name)
              (insert (codes "schema") (str relation.schema) c.base))))

  relation_of : List (ℕ × Relation) → ℕ → Result CdcError Relation
  relation_of relations oid = elim (lookup oid relations) [
    | none ↦ err (unknown_relation oid)
    | some r ↦ ok r
  ]

  old_row : Relation → Option (List Datum × Bool) → Option (Row env.json)
  old_row relation none = none
  old_row relation (some (old, full)) = some (row_of env.json relation old (not full)).0

  unfoldable pub truncate_events :
      Context → List (ℕ × Relation) → Bool → Bool → List ℕ → Result CdcError (List WatchEvent)
  unfolding lookup relation_of truncate_event event change_id
  truncate_events c relations cascade restart [] = ok []
  truncate_events c relations cascade restart (oid ∷ oids) = do
    relation ← relation_of relations oid
    events ← truncate_events c relations cascade restart oids
    ok (truncate_event c cascade restart oid relation ∷ events)

  unfoldable pub change_events :
      ℕ → Option (ℕ × ℤ) → List (ℕ × Relation) → Message → Result CdcError (List WatchEvent)
  unfolding lookup relation_of truncate_events truncate_event row_event event context with_xid
      committed_at with_time change_id with_old with_unchanged old_row
  change_events lsn begun relations (Decode.Message.insert oid new) = do
    relation ← relation_of relations oid
    let (row, un) = row_of env.json relation new false
    ok (row_event (context lsn begun) (codes "insert") relation row none un ∷ [])
  change_events lsn begun relations (Decode.Message.update oid old new) = do
    relation ← relation_of relations oid
    let (row, un) = row_of env.json relation new false
    ok (row_event (context lsn begun) (codes "update") relation row (old_row relation old) un ∷ [])
  change_events lsn begun relations (Decode.Message.delete oid old full) = do
    relation ← relation_of relations oid
    let row = (row_of env.json relation old (not full)).0
    ok (row_event (context lsn begun) (codes "delete") relation row none [] ∷ [])
  change_events lsn begun relations (Decode.Message.truncate oids cascade restart) =
      truncate_events (context lsn begun) relations cascade restart oids
  change_events lsn begun relations _ = ok []
