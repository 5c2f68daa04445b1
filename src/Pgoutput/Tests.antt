-- ===== src/Pgoutput/Tests.antt =====
-- src/pgoutput.rs on concrete messages.
use mcpg_plugin_backend_sql.Common.{◌++◌, ◌≡◌, refl, [], ◌∷◌, some, ok, true, Text, codes, arith}
use mcpg_plugin_backend_sql.Pgoutput.Decode.{null, unchanged, text, Message, update, decode}
use mcpg_plugin_backend_sql.Pgoutput.Wire.{Skipped, SkippedFits, MessageFits, put_message}
use mcpg_plugin_backend_sql.Pgoutput.RoundTrip.{decode-put_message}
use mcpg_plugin_backend_sql.Pgoutput.Lsn.{lsn_text, parse_lsn, parse_lsn-lsn_text}

abbrev skipped : Skipped
skipped = record { flags = 0; commit_lsn = 5; replica_identity = b'd'; modifier = 4294967295 }

abbrev keep : Text → Text
keep s = s

abbrev changed : Message
changed =
    update 16384 (some (null ∷ text (codes "a") ∷ [], true)) (text (codes "1") ∷ unchanged ∷ [])

skipped-Fits : SkippedFits skipped
skipped-Fits = (omega arith, omega arith)

changed-Fits : MessageFits keep changed
changed-Fits = (
  omega arith,
  (omega arith, (tt, ((refl, omega arith), tt))),
  (omega arith, ((refl, omega arith), (tt, tt))),
)

decode-put_message_example : decode keep (put_message skipped changed ++ codes "rest") ≡ ok changed
decode-put_message_example =
    decode-put_message keep skipped changed (codes "rest") skipped-Fits changed-Fits

parse_lsn-lsn_text_example : parse_lsn (lsn_text 24023128) ≡ some 24023128
parse_lsn-lsn_text_example = parse_lsn-lsn_text 24023128 (omega arith)
