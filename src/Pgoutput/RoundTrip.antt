-- ===== src/Pgoutput/RoundTrip.antt =====
-- src/pgoutput.rs: `decode` on the wire format.
use mcpg_plugin_backend_sql.Common.{
  ℕ, ◌+◌, ◌*◌, ◌/◌, ◌%◌, ◌^◌, ◌<◌, ◌≡◌, ◌≢◌, refl, ap, Bool, true, false, List, [], ◌∷◌, ◌++◌,
  Option, none, some, ok, length, Text, ◌==◌,
}
use mcpg_plugin_backend_sql.Common.Int.{pos, to_word}
use mcpg_plugin_backend_sql.Pgoutput.Bytes.{
  Reader, pure, ◌>>=◌, u8, u16, u32, i32, u64, i64, string,
}
use mcpg_plugin_backend_sql.Pgoutput.Decode.{
  Column, Relation, Datum, null, unchanged, text, Message, begin, commit, relation, insert, update,
  delete, truncate, other, sized_text, datum, tuple, column, schema_or_catalog, decode_begin,
  decode_commit, decode_relation, decode_insert, new_tuple, decode_update, decode_delete,
  decode_truncate, body, message, finish, decode,
}
use mcpg_plugin_backend_sql.Pgoutput.Wire.{
  Skipped, be, nul, bit, put_datum, put_tuple, put_column, kind_of, put_message, SkippedFits,
  DatumFits, TupleFits, ColumnFits, MessageFits,
}
use mcpg_plugin_backend_sql.Pgoutput.Reads.{
  Reads, Reads-bind, Reads-pure, Reads-last, Reads-take, Reads-u8, Reads-u16, Reads-u32, Reads-u64,
  Reads-i64, Reads-i32, Reads-i32_pos, Reads-string, Reads-repeat,
}

bit-key : (b : Bool) → (bit b % 2 == 1) ≡ b
bit-key true = refl
bit-key false = refl

cascade-options : (c r : Bool) → ((bit c + 2 * bit r) % 2 == 1) ≡ c
cascade-options true true = refl
cascade-options true false = refl
cascade-options false true = refl
cascade-options false false = refl

restart-options : (c r : Bool) → ((bit c + 2 * bit r) / 2 % 2 == 1) ≡ r
restart-options true true = refl
restart-options true false = refl
restart-options false true = refl
restart-options false false = refl

module _ (lossy : Text → Text) where
  Reads-sized_text : (s : Text) → lossy s ≡ s → Reads (sized_text lossy (pos (length s))) s (text s)
  unfolding sized_text
  Reads-sized_text s e r = rw (Reads-take s r, ◌>>=◌, e)

  Reads-datum : (d : Datum) → DatumFits lossy d → Reads (datum lossy) (put_datum d) d
  unfolding datum put_datum
  Reads-datum null h = Reads-bind u8 _ (b'n' ∷ []) [] b'n' null (Reads-u8 b'n') (Reads-pure null)
  Reads-datum unchanged h =
      Reads-bind u8 _ (b'u' ∷ []) [] b'u' unchanged (Reads-u8 b'u') (Reads-pure unchanged)
  Reads-datum (text s) h = Reads-bind u8 _ (b't' ∷ []) _ b't' (text s) (Reads-u8 b't') (
      Reads-bind i32 (sized_text lossy) (be 4 (length s)) s (pos (length s)) (text s)
        (Reads-i32_pos (length s) h.1) (Reads-sized_text s h.0))

  Reads-tuple : (ds : List Datum) → TupleFits lossy ds → Reads (tuple lossy) (put_tuple ds) ds
  unfolding tuple put_tuple
  Reads-tuple ds h =
      Reads-bind u16 _ (be 2 (length ds)) _ (length ds) ds (Reads-u16 (length ds) h.0)
        (Reads-repeat (datum lossy) put_datum (DatumFits lossy) ds Reads-datum h.1)

  Reads-column :
      (k : Skipped)
      → SkippedFits k
      → (c : Column) → ColumnFits lossy c
      → Reads (column lossy) (put_column k c) c
  unfolding column put_column
  Reads-column k f c h = Reads-bind u8 _ (bit c.key ∷ []) _ (bit c.key) c (Reads-u8 (bit c.key)) (
      Reads-bind (string lossy) _ (c.name ++ nul) _ c.name c (Reads-string lossy c.name h.0) (
        Reads-bind u32 _ (be 4 c.type_oid) _ c.type_oid c (Reads-u32 c.type_oid h.1)
          (λ r. rw (Reads-i32 k.modifier f.1 r, ◌>>=◌, bit-key c.key))))

  Reads-new_tuple :
      (oid : ℕ) (old : Option (List Datum × Bool)) (new : List Datum)
      → TupleFits lossy new
      → Reads (new_tuple lossy oid old b'N') (put_tuple new) (update oid old new)
  unfolding new_tuple
  Reads-new_tuple oid old new h =
      Reads-last (tuple lossy) (update oid old) (put_tuple new) new (Reads-tuple new h)

  schema_or_catalog-named : (s : Text) → s ≢ [] → schema_or_catalog lossy s ≡ s
  unfolding schema_or_catalog
  schema_or_catalog-named [] h = absurd (h refl)
  schema_or_catalog-named (c ∷ s) h = refl

  Reads-relation :
      (k : Skipped) (oid : ℕ) (r : Relation)
      → SkippedFits k
      → MessageFits lossy (relation oid r)
      → Reads (message lossy) (put_message k (relation oid r)) (relation oid r)
  unfolding message body put_message decode_relation
  Reads-relation k oid r f h =
      Reads-bind u8 (body lossy) (b'R' ∷ []) _ b'R' (relation oid r) (Reads-u8 b'R') (
        Reads-bind u32 _ (be 4 oid) _ oid (relation oid r) (Reads-u32 oid h.0) (
          Reads-bind (string lossy) _ (r.schema ++ nul) _ r.schema (relation oid r)
            (Reads-string lossy r.schema h.2)
            (Reads-bind (string lossy) _ (r.name ++ nul) _ r.name (relation oid r)
              (Reads-string lossy r.name h.3)
              (Reads-bind u8 _ (k.replica_identity ∷ []) _ k.replica_identity (relation oid r)
                (Reads-u8 k.replica_identity)
                (Reads-bind u16 _ (be 2 (length r.columns)) _ (length r.columns) (relation oid r)
                  (Reads-u16 (length r.columns) h.4)
                  λ rest.
                    rw
                      (
                        Reads-repeat (column lossy) (put_column k) (ColumnFits lossy) r.columns
                            (Reads-column k f) h.5 rest,
                        ◌>>=◌,
                      )
                      (ap
                        (λ s. ok (
                          relation oid (record { schema = s; name = r.name; columns = r.columns }),
                          rest,
                        ))
                        (schema_or_catalog-named r.schema h.1)))))))

  Reads-message :
      (k : Skipped) (m : Message)
      → SkippedFits k
      → MessageFits lossy m
      → Reads (message lossy) (put_message k m) m
  unfolding message body put_message decode_begin decode_commit decode_insert decode_update
      decode_delete decode_truncate kind_of
  Reads-message k (begin lsn micros xid) f h =
      Reads-bind u8 (body lossy) (b'B' ∷ []) _ b'B' _ (Reads-u8 b'B') (
        Reads-bind u64 _ (be 8 lsn) _ lsn _ (Reads-u64 lsn h.0) (
          Reads-bind i64 _ (be 8 (to_word (2 ^ 63) micros)) _ micros _ (Reads-i64 micros h.1)
            (Reads-last u32 (begin lsn micros) (be 4 xid) xid (Reads-u32 xid h.2))))
  Reads-message k (commit end_lsn) f h =
      let numbers = be 8 k.commit_lsn ++ be 8 end_lsn in
      let last : ℕ → Reader Message = λ _. u64 >>= λ e. pure (commit e) in
      Reads-bind u8 (body lossy) (b'C' ∷ []) ((k.flags ∷ []) ++ numbers) b'C' (commit end_lsn)
        (Reads-u8 b'C')
        (Reads-bind u8 (λ _. u64 >>= last) (k.flags ∷ []) numbers k.flags (commit end_lsn)
          (Reads-u8 k.flags)
          (Reads-bind u64 last (be 8 k.commit_lsn) (be 8 end_lsn) k.commit_lsn (commit end_lsn)
            (Reads-u64 k.commit_lsn f.0)
            (Reads-last u64 commit (be 8 end_lsn) end_lsn (Reads-u64 end_lsn h))))
  Reads-message k (relation oid r) f h = Reads-relation k oid r f h
  Reads-message k (insert oid new) f h =
      Reads-bind u8 (body lossy) (b'I' ∷ []) _ b'I' _ (Reads-u8 b'I') (
        Reads-bind u32 _ (be 4 oid) _ oid _ (Reads-u32 oid h.0) (
          Reads-bind u8 _ (b'N' ∷ []) _ b'N' _ (Reads-u8 b'N')
            (Reads-last (tuple lossy) (insert oid) (put_tuple new) new (Reads-tuple new h.1))))
  Reads-message k (update oid none new) f h =
      Reads-bind u8 (body lossy) (b'U' ∷ []) _ b'U' _ (Reads-u8 b'U') (
        Reads-bind u32 _ (be 4 oid) _ oid _ (Reads-u32 oid h.0)
          (Reads-bind u8 _ (b'N' ∷ []) _ b'N' _ (Reads-u8 b'N') (Reads-new_tuple oid none new h.2)))
  Reads-message k (update oid (some (old, true)) new) f h =
      Reads-bind u8 (body lossy) (b'U' ∷ []) _ b'U' _ (Reads-u8 b'U') (
        Reads-bind u32 _ (be 4 oid) _ oid _ (Reads-u32 oid h.0) (
          Reads-bind u8 _ (b'O' ∷ []) _ b'O' _ (Reads-u8 b'O') (
            Reads-bind (tuple lossy) _ (put_tuple old) _ old _ (Reads-tuple old h.1) (
              Reads-bind u8 _ (b'N' ∷ []) _ b'N' _ (Reads-u8 b'N')
                (Reads-new_tuple oid (some (old, true)) new h.2)))))
  Reads-message k (update oid (some (old, false)) new) f h =
      Reads-bind u8 (body lossy) (b'U' ∷ []) _ b'U' _ (Reads-u8 b'U') (
        Reads-bind u32 _ (be 4 oid) _ oid _ (Reads-u32 oid h.0) (
          Reads-bind u8 _ (b'K' ∷ []) _ b'K' _ (Reads-u8 b'K') (
            Reads-bind (tuple lossy) _ (put_tuple old) _ old _ (Reads-tuple old h.1) (
              Reads-bind u8 _ (b'N' ∷ []) _ b'N' _ (Reads-u8 b'N')
                (Reads-new_tuple oid (some (old, false)) new h.2)))))
  Reads-message k (delete oid old true) f h =
      Reads-bind u8 (body lossy) (b'D' ∷ []) _ b'D' _ (Reads-u8 b'D') (
        Reads-bind u32 _ (be 4 oid) _ oid _ (Reads-u32 oid h.0) (
          Reads-bind u8 _ (b'O' ∷ []) _ b'O' _ (Reads-u8 b'O') (
            Reads-last (tuple lossy) (λ t. delete oid t true) (put_tuple old) old
              (Reads-tuple old h.1))))
  Reads-message k (delete oid old false) f h =
      Reads-bind u8 (body lossy) (b'D' ∷ []) _ b'D' _ (Reads-u8 b'D') (
        Reads-bind u32 _ (be 4 oid) _ oid _ (Reads-u32 oid h.0) (
          Reads-bind u8 _ (b'K' ∷ []) _ b'K' _ (Reads-u8 b'K') (
            Reads-last (tuple lossy) (λ t. delete oid t false) (put_tuple old) old
              (Reads-tuple old h.1))))
  Reads-message k (truncate oids c r) f h =
      Reads-bind u8 (body lossy) (b'T' ∷ []) _ b'T' _ (Reads-u8 b'T') (
        Reads-bind u32 _ (be 4 (length oids)) _ (length oids) _ (Reads-u32 (length oids) h.0) (
          Reads-bind u8 _ ((bit c + 2 * bit r) ∷ []) _ (bit c + 2 * bit r) _
            (Reads-u8 (bit c + 2 * bit r))
            λ rest. rw (
              Reads-repeat u32 (be 4) (λ o. o < 2 ^ 32) oids Reads-u32 h.1 rest,
              ◌>>=◌,
              cascade-options c r,
              restart-options c r,
            )))
  Reads-message k other f h =
      Reads-bind u8 (body lossy) (b'O' ∷ []) [] b'O' other (Reads-u8 b'O') (Reads-pure other)

  -- Every message whose numbers, texts and counts fit their fields decodes, from the bytes of its
  -- wire format, to itself: whatever the skipped fields hold and whatever bytes follow.
  pub decode-put_message :
      (k : Skipped) (m : Message) (rest : Text)
      → SkippedFits k
      → MessageFits lossy m
      → decode lossy (put_message k m ++ rest) ≡ ok m
  unfolding decode
  decode-put_message k m rest f h = ap (finish lossy) (Reads-message k m f h rest)
