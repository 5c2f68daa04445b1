-- ===== src/Lib.antt =====
-- The SQL backend plugin, as checked definitions with the theorems that make its parts correct. The
-- plugin runs an operator's SQL profiles for a gateway. A profile is validated when it is registered
-- (src/config.rs); a call rewrites the placeholders of its statement and binds the arguments
-- (src/params.rs), passes the binding's circuit breaker (src/breaker.rs), takes a connection pool from
-- the registry (src/pool.rs), and turns the database's values into JSON, intervals among them
-- (src/driver/interval.rs). A watch on a table peeks a logical replication slot
-- (src/watch_pg_cdc.rs), whose messages it decodes (src/pgoutput.rs), delivers the changes, and
-- advances the slot over what was acknowledged. A watch on changed rows reads a table page by page
-- behind an ordering key (src/watch_changes.rs), and two loops compare the first value of a tracking
-- query with the last one (src/watch.rs, src/cache.rs). A group of steps runs in one transaction
-- (src/transaction.rs, src/lib.rs), the requests that run are kept in a registry (src/in_flight.rs),
-- and a paged query is resumed with a signed token (src/stream.rs, src/lib.rs).
--
-- The files:
-- - Common and its children: shared names, tests, lists, results, texts, maps, integers, bits, and
--   numbers in a base.
-- - Errors: src/errors.rs, the taxonomy and the classification of database errors.
-- - Breaker: src/breaker.rs. Each method is a function from the state of the breaker; System adds the
--   clock and the guards that callers hold, with `step` and `run` over events; Race splits `try_admit`
--   into its atomic accesses.
-- - Pgoutput: src/pgoutput.rs. Bytes is `Reader`, Decode is `decode`, Rows is `value_of` and `row_of`,
--   Lsn is `lsn_text` and `parse_lsn`; Wire is the wire format, written from the protocol.
-- - Cdc: src/watch_pg_cdc.rs. `Progress` and `Source` are its state; Events is `change_events`, Peek is
--   `peek` and `new_changes`, Receive is `receive`; `advance`, `settle`, `ack` and `release` stand in
--   Cdc itself.
-- - Pool: src/pool.rs, the registry: `get_or_build`, `evict_for`, `evict_for_secret`, `sweep_idle`.
-- - Params: src/params.rs: `rewrite_placeholders`, `call_statement`, `collect_bound_params`.
-- - Guards: src/config.rs: `reject_multi_statement`, `reject_privileged_ddl`,
--   `is_safe_sql_identifier`, `strip_leading_whitespace_and_comments`.
-- - Config: src/config.rs: the profile and `SqlBackendConfig::validate`, section by section, with the
--   validation in src/stream.rs, src/auth/mod.rs and src/cost.rs that it calls.
-- - Changes: src/watch_changes.rs. Compile is `compile`, Rows has `page_args`, `row_key`, `row_event` and
--   `resume_key`, Poll has `start_key`, `poll` and `Backoff`. It uses Config, Guards and Params.
-- - Transaction: src/transaction.rs. Postgres, Mysql and Sqlite are the handles, Engines the trait; Steps
--   is `execute_transaction` of src/lib.rs, which uses Params.
-- - Streams: src/stream.rs, the tokens, and from src/lib.rs `apply_stream_cursor` and
--   `mint_next_cursor`.
-- - Shaping: from src/lib.rs `shape_response`, `batch_to_resource_page` and the classification of
--   errors.
-- - Trackers: `poll_loop` of src/watch.rs and `invalidation_loop` of src/cache.rs.
-- - CacheKey: src/cache.rs, `build_cache_key`.
-- - InFlight: src/in_flight.rs, the registry and its guards.
-- - Redact: src/redact.rs: `redact_password` and `redact_in_text`.
-- - Rotation: src/auth/rotator.rs, the schedule of `RotatorConfig`.
-- - Interval: src/driver/interval.rs: `pg_interval_to_iso8601`.
--
-- Conventions. Texts are lists of bytes. Numbers are natural numbers, signed ones are `ℤ`, and the width
-- of a machine integer is written where it matters. Hash maps are association lists. Error sentences are
-- constructors. Time is an argument. Each module's tests evaluate it on concrete inputs.
--
-- Fuel. The walk of `rewrite_placeholders` has a round for each byte; the stripping of comments has one
-- more than the text's length, and each round shortens the text; the loop that makes room in the pool
-- registry has one more than the number of pools, and each round removes one; the widening of a peek
-- multiplies its limit up to a cap, in nine rounds at most. The loop of the poll in Changes goes over a
-- list of rounds, in each of which the outside is what it is then.
--
-- Parameters. Code outside the repository is a parameter: JSON values and their parse, the lossy reading
-- of UTF-8, timestamps, the query that peeks a slot, the outcome of building a pool, URL parsing,
-- credential tokens, the CEL compiler and floating point numbers; the database library's transactions
-- and its rows, base64, the MAC and hashes.
--
-- Not modelled: metrics and logs; the store of the cache, which is the host's; the tasks that connect,
-- tick and refresh tokens; the listener for notifications; the drivers and authentication providers,
-- which call libraries; the registration of plugins. White space is the ASCII blanks, where the source
-- takes all of Unicode's.
pub mod Breaker
pub mod CacheKey
pub mod Cdc
pub mod Changes
pub mod Common
pub mod Config
pub mod Errors
pub mod Guards
pub mod InFlight
pub mod Interval
pub mod Params
pub mod Pgoutput
pub mod Pool
pub mod Redact
pub mod Rotation
pub mod Shaping
pub mod Streams
pub mod Trackers
pub mod Transaction
