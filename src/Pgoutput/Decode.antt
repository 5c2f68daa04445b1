-- ===== src/Pgoutput/Decode.antt =====
-- src/pgoutput.rs: the messages and `decode`.
use mcpg_plugin_backend_sql.Common.{
  ℕ, ◌%◌, ◌/◌, Bool, ◌||◌, List, [], ◌∷◌, Option, none, some, Result, ok, err, ◌==◌, if◌then◌else◌,
  Text, codes,
}
use mcpg_plugin_backend_sql.Common.Int.{ℤ, pos, negsuc}
use mcpg_plugin_backend_sql.Pgoutput.Bytes.{
  DecodeError, negative_length, value_kind, insert_tuple, update_tuple, delete_tuple, Reader, pure,
  fail, from_be, until_nul, ◌>>=◌, take_bytes, u8, u16, u32, i32, u64, i64, string, repeat,
}

pub record Column : Type 0 where
  pub name : Text
  pub type_oid : ℕ
  pub key : Bool

pub record Relation : Type 0 where
  pub schema : Text
  pub name : Text
  pub columns : List Column

pub data Datum : Type 0 where
  null unchanged : Datum
  text : Text → Datum

pub data Message : Type 0 where
  begin : (final_lsn : ℕ) (commit_time_micros : ℤ) (xid : ℕ) → Message
  commit : (end_lsn : ℕ) → Message
  relation : (oid : ℕ) (relation : Relation) → Message
  insert : (oid : ℕ) (new : List Datum) → Message
  update : (oid : ℕ) (old : Option (List Datum × Bool)) (new : List Datum) → Message
  delete : (oid : ℕ) (old : List Datum) (full : Bool) → Message
  truncate : (oids : List ℕ) (cascade restart_identity : Bool) → Message
  other : Message

module _ (lossy : Text → Text) where
  unfoldable pub sized_text : ℤ → Reader Datum
  sized_text (pos n) = do s ← take_bytes n; pure (text (lossy s))
  sized_text (negsuc n) = fail negative_length

  unfoldable pub datum : Reader Datum
  datum = do
    kind ← u8
    if kind == b'n'
        then pure null
        else if kind == b'u'
        then pure unchanged
        else if kind == b't'
        then i32 >>= sized_text
        else fail (value_kind kind)

  unfoldable pub tuple : Reader (List Datum)
  tuple = do columns ← u16; repeat columns datum

  unfoldable pub column : Reader Column
  column = do
    flags ← u8
    name ← string lossy
    type_oid ← u32
    _ ← i32
    pure (record { name = name; type_oid = type_oid; key = flags % 2 == 1 })

  unfoldable pub schema_or_catalog : Text → Text
  schema_or_catalog [] = codes "pg_catalog"
  schema_or_catalog (c ∷ s) = c ∷ s

  unfoldable pub decode_begin : Reader Message
  decode_begin = do final_lsn ← u64; micros ← i64; xid ← u32; pure (begin final_lsn micros xid)

  unfoldable pub decode_commit : Reader Message
  decode_commit = do _ ← u8; _ ← u64; end_lsn ← u64; pure (commit end_lsn)

  unfoldable pub decode_relation : Reader Message
  decode_relation = do
    oid ← u32
    schema ← string lossy
    name ← string lossy
    _ ← u8
    count ← u16
    columns ← repeat count column
    pure (
        relation oid (record { schema = schema_or_catalog schema; name = name; columns = columns }))

  unfoldable pub decode_insert : Reader Message
  decode_insert = do
    oid ← u32
    kind ← u8
    if kind == b'N' then (do new ← tuple; pure (insert oid new)) else fail (insert_tuple kind)

  -- The new tuple of an update, behind its kind byte.
  unfoldable pub new_tuple : ℕ → Option (List Datum × Bool) → ℕ → Reader Message
  new_tuple oid old kind =
      if kind == b'N' then (do new ← tuple; pure (update oid old new)) else fail (update_tuple kind)

  unfoldable pub decode_update : Reader Message
  decode_update = do
    oid ← u32
    kind ← u8
    if (kind == b'K') || (kind == b'O')
        then (do old ← tuple; next ← u8; new_tuple oid (some (old, kind == b'O')) next)
        else new_tuple oid none kind

  unfoldable pub decode_delete : Reader Message
  decode_delete = do
    oid ← u32
    kind ← u8
    if (kind == b'K') || (kind == b'O')
        then (do old ← tuple; pure (delete oid old (kind == b'O')))
        else fail (delete_tuple kind)

  unfoldable pub decode_truncate : Reader Message
  decode_truncate = do
    count ← u32
    options ← u8
    oids ← repeat count u32
    pure (truncate oids (options % 2 == 1) (options / 2 % 2 == 1))

  unfoldable pub body : ℕ → Reader Message
  body kind =
      if kind == b'B'
      then decode_begin
      else if kind == b'C'
      then decode_commit
      else if kind == b'R'
      then decode_relation
      else if kind == b'I'
      then decode_insert
      else if kind == b'U'
      then decode_update
      else if kind == b'D'
      then decode_delete
      else if kind == b'T'
      then decode_truncate
      else pure other

  unfoldable pub message : Reader Message
  message = do kind ← u8; body kind

  unfoldable pub finish : Result DecodeError (Message × Text) → Result DecodeError Message
  finish (ok (m, r)) = ok m
  finish (err e) = err e

  unfoldable pub decode : Text → Result DecodeError Message
  unfolding take_bytes from_be u8 u16 u32 i32 u64 i64 until_nul string repeat sized_text datum tuple
      column schema_or_catalog decode_begin decode_commit decode_relation decode_insert new_tuple
      decode_update decode_delete decode_truncate body message finish
  decode bytes = finish (message bytes)
