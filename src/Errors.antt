-- ===== src/Errors.antt =====
-- src/errors.rs: the SQL error taxonomy, its classification and its projection to `BackendError`.
-- `InvalidSpec` carries the reason of a refusal, of a type `M` that each component chooses, in
-- place of the formatted sentence. Of `sqlx::Error` the source names two variants and asks a
-- database error for its code; every other variant is `other`, with the text that it displays.
use mcpg_plugin_backend_sql.Common.{ℕ, Bool, false, ◌||◌, Option, some, Text, codes, text_eq}

pub data SqlxError : Type 0 where
  pool_timed_out pool_closed : SqlxError
  database : Option Text → Text → SqlxError
  other : Text → SqlxError

pub data SqlError (M : Type 0) : Type 0 where
  pool_timeout : ℕ → SqlError M
  connect prepare execute driver : SqlxError → SqlError M
  serialize : Text → SqlError M
  timeout : ℕ → SqlError M
  profile_not_found : Text → SqlError M
  invalid_spec : M → SqlError M

unfoldable pub from_execute : {M : Type 0} → SqlxError → SqlError M
from_execute pool_timed_out = pool_timeout 0
from_execute pool_closed = driver pool_closed
from_execute (database c t) = execute (database c t)
from_execute (other t) = execute (other t)

abbrev code_is_stale : Text → Bool
code_is_stale c =
    text_eq c (codes "26000")
    || text_eq c (codes "42P18")
    || text_eq c (codes "0A000")
    || text_eq c (codes "1615")

unfoldable pub is_stale_statement_error : SqlxError → Bool
unfolding text_eq
is_stale_statement_error (database (some c) t) = code_is_stale c
is_stale_statement_error _ = false

pub data BackendError : Type 0 where
  timeout : ℕ → BackendError
  profile_not_found : Text → BackendError
  invalid_spec : Text → BackendError
  transport : Text → BackendError
