-- ===== src/Pgoutput/Wire.antt =====
-- The wire format of the messages that src/pgoutput.rs decodes, as PostgreSQL's protocol describes
-- it, written independently of the decoder: the specification of `decode`. It is not code of the
-- repository.
use mcpg_plugin_backend_sql.Common.{
  ℕ, zero, suc, ◌+◌, ◌*◌, ◌/◌, ◌%◌, ◌^◌, ◌<◌, ◌≡◌, ◌≢◌, Bool, true, false, List, [], ◌∷◌, ◌++◌,
  Option, none, some, length, All, if◌then◌else◌, Text,
}
use mcpg_plugin_backend_sql.Common.Int.{to_word, Fits}
use mcpg_plugin_backend_sql.Pgoutput.Decode.{
  Column, Datum, null, unchanged, text, Message, begin, commit, relation, insert, update, delete,
  truncate, other,
}

-- Big-endian, k bytes.
unfoldable pub be : ℕ → ℕ → Text
be zero n = []
be (suc k) n = be k (n / 256) ++ (n % 256) ∷ []

-- What the messages hold and the decoder passes over.
pub record Skipped : Type 0 where
  pub flags : ℕ
  pub commit_lsn : ℕ
  pub replica_identity : ℕ
  pub modifier : ℕ

abbrev pub bit : Bool → ℕ
bit true = 1
bit false = 0

abbrev pub nul : Text
nul = 0 ∷ []

unfoldable pub put_each : {A : Type 0} → (A → Text) → List A → Text
put_each f [] = []
put_each f (x ∷ xs) = f x ++ put_each f xs

unfoldable pub put_datum : Datum → Text
put_datum null = b'n' ∷ []
put_datum unchanged = b'u' ∷ []
put_datum (text s) = (b't' ∷ []) ++ (be 4 (length s) ++ s)

unfoldable pub put_tuple : List Datum → Text
put_tuple ds = be 2 (length ds) ++ put_each put_datum ds

unfoldable pub put_column : Skipped → Column → Text
put_column k c = (bit c.key ∷ []) ++ ((c.name ++ nul) ++ (be 4 c.type_oid ++ be 4 k.modifier))

unfoldable pub kind_of : Bool → ℕ
kind_of full = if full then b'O' else b'K'

unfoldable pub put_old : Option (List Datum × Bool) → Text
put_old none = []
put_old (some (old, full)) = (kind_of full ∷ []) ++ put_tuple old

unfoldable pub put_message : Skipped → Message → Text
put_message k (begin lsn micros xid) =
    (b'B' ∷ []) ++ (be 8 lsn ++ (be 8 (to_word (2 ^ 63) micros) ++ be 4 xid))
put_message k (commit end_lsn) =
    (b'C' ∷ []) ++ ((k.flags ∷ []) ++ (be 8 k.commit_lsn ++ be 8 end_lsn))
put_message k (relation oid r) =
    (b'R' ∷ [])
    ++ (be 4 oid
        ++ ((r.schema ++ nul)
            ++ ((r.name ++ nul)
                ++ ((k.replica_identity ∷ [])
                    ++ (be 2 (length r.columns) ++ put_each (put_column k) r.columns)))))
put_message k (insert oid new) = (b'I' ∷ []) ++ (be 4 oid ++ ((b'N' ∷ []) ++ put_tuple new))
put_message k (update oid none new) = (b'U' ∷ []) ++ (be 4 oid ++ ((b'N' ∷ []) ++ put_tuple new))
put_message k (update oid (some (old, full)) new) =
    (b'U' ∷ [])
    ++ (be 4 oid ++ ((kind_of full ∷ []) ++ (put_tuple old ++ ((b'N' ∷ []) ++ put_tuple new))))
put_message k (delete oid old full) =
    (b'D' ∷ []) ++ (be 4 oid ++ ((kind_of full ∷ []) ++ put_tuple old))
put_message k (truncate oids cascade restart) =
    (b'T' ∷ [])
    ++ (be 4 (length oids) ++ ((bit cascade + 2 * bit restart) ∷ [] ++ put_each (be 4) oids))
put_message k other = b'O' ∷ []

abbrev pub SkippedFits : Skipped → Type 0
SkippedFits k = (k.commit_lsn < 2 ^ 64) × (k.modifier < 2 ^ 32)

module _ (lossy : Text → Text) where
  -- A text that the server sends: valid UTF-8, which the lossy reading keeps.
  abbrev pub IsUtf8 : Text → Type 0
  IsUtf8 s = lossy s ≡ s

  abbrev pub IsString : Text → Type 0
  IsString s = IsUtf8 s × All (λ c. c ≢ 0) s

  abbrev pub DatumFits : Datum → Type 0
  DatumFits null = Unit
  DatumFits unchanged = Unit
  DatumFits (text s) = IsUtf8 s × (length s < 2 ^ 31)

  abbrev pub TupleFits : List Datum → Type 0
  TupleFits ds = (length ds < 2 ^ 16) × All DatumFits ds

  abbrev pub ColumnFits : Column → Type 0
  ColumnFits c = IsString c.name × (c.type_oid < 2 ^ 32)

  abbrev pub OldFits : Option (List Datum × Bool) → Type 0
  OldFits none = Unit
  OldFits (some (old, full)) = TupleFits old

  -- The numbers fit their fields, and a relation's schema is named.
  abbrev pub MessageFits : Message → Type 0
  MessageFits (begin lsn micros xid) = (lsn < 2 ^ 64) × Fits (2 ^ 63) micros × (xid < 2 ^ 32)
  MessageFits (commit end_lsn) = end_lsn < 2 ^ 64
  MessageFits (relation oid r) =
      (oid < 2 ^ 32)
      × (r.schema ≢ [])
      × IsString r.schema
      × IsString r.name
      × (length r.columns < 2 ^ 16)
      × All ColumnFits r.columns
  MessageFits (insert oid new) = (oid < 2 ^ 32) × TupleFits new
  MessageFits (update oid old new) = (oid < 2 ^ 32) × OldFits old × TupleFits new
  MessageFits (delete oid old full) = (oid < 2 ^ 32) × TupleFits old
  MessageFits (truncate oids cascade restart) =
      (length oids < 2 ^ 32) × All (λ oid. oid < 2 ^ 32) oids
  MessageFits other = Unit
