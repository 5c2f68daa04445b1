-- ===== src/Changes/Tests.antt =====
-- src/watch_changes.rs on a table of three rows.
use mcpg_plugin_backend_sql.Common.{
  ℕ, zero, suc, ◌≡◌, refl, ap, ◌∙◌, subst, Bool, true, false, List, [], ◌∷◌, ◌++◌, Option, none,
  some, ok, take, Text, codes, text_eq, if◌then◌else◌, arith,
}
use mcpg_plugin_backend_sql.Common.Int.{ℤ, pos, negsuc}
use mcpg_plugin_backend_sql.Common.Radix.{format, digit_char}
use mcpg_plugin_backend_sql.Common.TextMaps.{lookup}
use mcpg_plugin_backend_sql.Guards as Guards
use mcpg_plugin_backend_sql.Params.{
  BoundParam, postgres, object, collect_bound_params, rewrite_placeholders, rewritten, walk, round,
  colon, name_at, bind_name, is_name_byte, push_char, placeholder,
}
use mcpg_plugin_backend_sql.Config.{Libraries, SqlBackendConfig, many, sql_body}
use mcpg_plugin_backend_sql.Config.Parts as Parts
use mcpg_plugin_backend_sql.Config.Validate as Validate
use mcpg_plugin_backend_sql.Changes.{
  Env, Cursor, WatchEvent, SqlChangesWatchSpec, Plan, beginning, is_among, is_column_name,
}
use mcpg_plugin_backend_sql.Changes.Compile as Compile
use mcpg_plugin_backend_sql.Changes.Rows.{
  position, get_elem?, unwrap_or_default, slice_from, key_argument, page_value, page_args_loop,
  page_args, not_null, row_key_loop, row_key, row_op, row_event, resume_key, row_event_id,
  row_occurred_at,
}
use mcpg_plugin_backend_sql.Changes.Poll.{Round, Polled, returned, poll, backoff_waits}
use mcpg_plugin_backend_sql.Changes.Plans.{IsPlan, compile-IsPlan}
use mcpg_plugin_backend_sql.Changes.Binding.{bindings, page_args-collect}
use mcpg_plugin_backend_sql.Changes.Polling.{Steady, Finished, poll-Finished}
use mcpg_plugin_backend_sql.Changes.Resuming.{resume_key-row_event}
use mcpg_plugin_backend_sql.Changes.Waiting.{backoff_waits-doubles}

-- A number, a row with that id, or a position behind it.
data Sample : Type 0 where
  nothing : Sample
  number row : ℕ → Sample
  position_at : ℕ → Sample → Sample

abbrev sample_of_int : ℤ → Sample
sample_of_int (pos n) = number n
sample_of_int (negsuc n) = nothing

abbrev sample_get : Sample → Text → Option Sample
sample_get (row n) column = if text_eq column (codes "id") then some (number n) else none
sample_get _ column = none

abbrev written : ℕ → List Sample → Option Sample
written v [] = none
written v (k ∷ []) = some (position_at v k)
written v (k ∷ l ∷ ks) = none

abbrev sample_to_cursor : Sample → Option (Cursor Sample)
sample_to_cursor (position_at v k) = some (record { v = v; k = k ∷ [] })
sample_to_cursor _ = none

abbrev sample_is_null : Sample → Bool
sample_is_null nothing = true
sample_is_null _ = false

abbrev sample_env : Env
sample_env = record {
  Value = Sample;
  is_null = sample_is_null;
  as_str = λ v. none;
  as_i64 = λ v. none;
  get = sample_get;
  of_int = sample_of_int;
  of_change = λ op r. r;
  to_string = λ k. some (codes "[]");
  from_cursor = λ c. written c.v c.k;
  to_cursor = sample_to_cursor;
  size_of = λ e. some 100;
  hex_hash = λ s. s;
  Instant = ℕ;
  parse_rfc3339 = λ s. none;
  parse_naive = λ f s. none;
  from_timestamp = λ n. none;
  to_rfc3339 = λ t. [];
}

abbrev libraries : Libraries ℕ
libraries = record {
  parse_url = λ s. some (record { scheme = codes "postgres"; password = none });
  cred_tokens = λ s. [];
  cel_compiles = λ s. true;
  parse_f64 = λ s. some 1;
  is_finite = λ v. true;
  below_zero = λ v. false;
}

abbrev connection : SqlBackendConfig
connection = record {
  driver = postgres;
  url = codes "postgres://db";
  pool = record { max_connections = 10; min_idle = 1 };
  query = record {
    body = sql_body (codes "SELECT id FROM t WHERE id > :_after_id LIMIT :_limit");
    row_mode = many;
    timeout_ms = none;
    progress_heartbeat_ms = none;
    stream = none;
  };
  session_vars = [];
  circuit_breaker = none;
  list_query = none;
  await = none;
  isolation_level = none;
  cache = none;
  cost = none;
  auth = none;
}

abbrev spec : SqlChangesWatchSpec Sample
spec = record {
  connection = connection;
  key_columns = codes "id" ∷ [];
  initial = (codes "id", number 0) ∷ [];
  start = beginning;
  latest_sql = none;
  batch_size = 2;
  interval_ms = 1000;
  occurred_at_column = none;
  op_column = none;
  settle_ms = none;
}

abbrev plan : Plan Sample
plan = record {
  stmt = record {
    sql = codes "SELECT id FROM t WHERE id > $1 LIMIT $2";
    param_order = codes "_after_id" ∷ codes "_limit" ∷ [];
    driver = postgres;
  };
  latest_stmt = none;
  key_columns = codes "id" ∷ [];
  initial = number 0 ∷ [];
  start = beginning;
  batch_size = 2;
  interval = 1000;
  timeout = 30000;
  occurred_at_column = none;
  op_column = none;
  settle = none;
}

compiled : Compile.compile sample_env libraries spec ≡ ok plan
unfolding Compile.compile Compile.from_config Compile.is_many Compile.sql_of Compile.check_columns
    Compile.refuse_unless is_column_name Compile.collect_initial Compile.initial_value lookup
    Compile.check_settings is_among Compile.check_optional_column Compile.is_zero_settle
    Compile.compile_query Compile.rewritten_sql Compile.check_order Compile.allowed
    Compile.compile_latest Compile.timeout_of Parts.check_statement Parts.statement_result
    Parts.ddl_result Parts.check_option Parts.check_each Validate.validate Validate.check_with_url
    Validate.check_shape Validate.check_features Validate.check_texts Validate.scheme_is
    Validate.check_pool Validate.check_stream Validate.check_result_sets Validate.check_session_vars
    Validate.check_variables_driver Validate.check_body text_eq Guards.reject_multi_statement
    Guards.scan_statement Guards.check_tail Guards.after_scan Guards.trim_start Guards.after_newline
    Guards.after_close Guards.opening Guards.strip_loop Guards.strip_leading_whitespace_and_comments
    Guards.first_token Guards.is_one_of Guards.check_second Guards.check_first Guards.check_trimmed
    Guards.reject_privileged_ddl rewrite_placeholders rewritten walk round colon name_at bind_name
    is_name_byte push_char placeholder format digit_char
compiled = refl

compile-IsPlan_example : IsPlan sample_env plan
compile-IsPlan_example = compile-IsPlan sample_env libraries spec plan compiled

page_args-collect_example :
    (args : List (BoundParam Sample)) × (page_args sample_env plan (number 7 ∷ []) (pos 100)
      ≡ some args)
    × (collect_bound_params
          (object (bindings sample_env plan (number 7 ∷ []) (pos 100)))
          plan.stmt.param_order
        ≡ ok args)
page_args-collect_example =
    page_args-collect sample_env plan (number 7 ∷ []) (pos 100)
      (compile-IsPlan sample_env libraries spec plan compiled) refl

-- The table: rows 1, 2 and 3.
abbrev behind : Sample → List Sample
behind (number zero) = row 1 ∷ row 2 ∷ row 3 ∷ []
behind (number (suc zero)) = row 2 ∷ row 3 ∷ []
behind (number (suc (suc zero))) = row 3 ∷ []
behind _ = []

abbrev after : List Sample → List Sample
after [] = []
after (v ∷ vs) = behind v

written-read :
    (v : ℕ) (k : List Sample) (value : Sample)
    → written v k ≡ some value
    → sample_to_cursor value ≡ some (record { v = v; k = k })
written-read v [] value h = absurd cc
written-read v (k ∷ []) value h =
    let same : position_at v k ≡ value = cc in
    subst (λ x. sample_to_cursor x ≡ some (record { v = v; k = k ∷ [] })) same refl
written-read v (k ∷ l ∷ ks) value h = absurd cc

abbrev sample_event : ℕ → WatchEvent Sample
sample_event n = record {
  event_id = some (codes "row-" ++ codes "t" ++ 0 ∷ [] ++ codes "[]");
  event_type = some (codes "sql.row.changed");
  occurred_at = none;
  event_data = some (row n);
  upstream_cursor = some (position_at 1 (number n));
}

row_2_key : row_key sample_env plan (row 2) ≡ some (number 2 ∷ [])
unfolding row_key row_key_loop not_null text_eq
row_2_key = refl

row_2_event : row_event sample_env plan (codes "t") (row 2) (number 2 ∷ []) ≡ some (sample_event 2)
unfolding row_event row_op row_event_id row_occurred_at
row_2_event = refl

resume_key-row_event_example :
    resume_key sample_env plan (position_at 1 (number 2)) ≡ ok (number 2 ∷ [])
resume_key-row_event_example =
    resume_key-row_event sample_env plan (λ c value h. written-read c.v c.k value h) (codes "t")
      (row 2) (number 2 ∷ []) (sample_event 2) (position_at 1 (number 2)) row_2_key row_2_event refl

backoff_waits-doubles_example : get_elem? 5 (backoff_waits 0 8) ≡ some 32
backoff_waits-doubles_example = backoff_waits-doubles 5 8 (omega arith)

row_step :
    (n : ℕ) (left rest : List Sample) (first : Sample)
    → behind (number n) ≡ left
    → row n ∷ left ≡ first ∷ rest
    → (next : List Sample) × (row_key sample_env plan first ≡ some next) × (after next ≡ rest)
unfolding row_key row_key_loop not_null text_eq
row_step n left rest first e h =
    let same : row n ≡ first = cc in
    let others : left ≡ rest = cc in
    (
      number n ∷ [],
      subst (λ x. row_key sample_env plan x ≡ some (number n ∷ [])) same refl,
      e ∙ others,
    )

keyset_behind :
    (v : Sample) (rest : List Sample) (first : Sample)
    → behind v ≡ first ∷ rest
    → (next : List Sample) × (row_key sample_env plan first ≡ some next) × (after next ≡ rest)
keyset_behind (number zero) rest first h = row_step 1 _ rest first refl h
keyset_behind (number (suc zero)) rest first h = row_step 2 _ rest first refl h
keyset_behind (number (suc (suc zero))) rest first h = row_step 3 _ rest first refl h
keyset_behind (number (suc (suc (suc n)))) rest first h = absurd cc
keyset_behind nothing rest first h = absurd cc
keyset_behind (row n) rest first h = absurd cc
keyset_behind (position_at v k) rest first h = absurd cc

keyset :
    (key rest : List Sample) (first : Sample)
    → after key ≡ first ∷ rest
    → (next : List Sample) × (row_key sample_env plan first ≡ some next) × (after next ≡ rest)
keyset [] rest first h = absurd cc
keyset (v ∷ vs) rest first h = keyset_behind v rest first h

-- The database takes the first argument as the key.
abbrev page_behind : List (BoundParam Sample) → List Sample
page_behind [] = []
page_behind (b ∷ bs) = take 2 (behind b.value)

abbrev steady_round : Round sample_env
steady_round = record {
  now = pos 100;
  cancelled = false;
  reply = λ args. some (ok (page_behind args));
  cancelled_after = false;
}

serves :
    (key : List Sample) (args : List (BoundParam Sample))
    → page_args sample_env plan key (pos 100) ≡ some args
    → page_behind args ≡ take 2 (after key)
unfolding page_args page_args_loop page_value key_argument slice_from position get_elem?
    unwrap_or_default text_eq
serves [] args h = absurd cc
serves (v ∷ vs) args h =
    let same : record { name = codes "_after_id"; value = v }
          ∷ record { name = codes "_limit"; value = number 2 }
          ∷ []
        ≡ args =
      cc in
    subst (λ x. page_behind x ≡ take 2 (behind v)) same refl

steady : Steady sample_env plan (codes "t") after steady_round
steady = record {
  cancelled = refl;
  cancelled_after = refl;
  serves = λ key args h. ap (λ r. some (ok r)) (serves key args h);
}

poll-Finished_example :
    (t : Polled sample_env) × (poll sample_env plan
        (codes "t")
        (steady_round ∷ steady_round ∷ steady_round ∷ steady_round ∷ [])
        (number 0 ∷ [])
        []
      ≡ returned (ok tt) t)
    × Finished sample_env plan
        (codes "t")
        after
        (record { key = number 0 ∷ []; sink = []; emitted = 0 })
        t
poll-Finished_example =
    poll-Finished sample_env plan (codes "t") after keyset
      (compile-IsPlan sample_env libraries spec plan compiled)
      (steady_round ∷ steady_round ∷ steady_round ∷ steady_round ∷ []) (number 0 ∷ []) []
      (steady, (steady, (steady, (steady, tt)))) refl (omega arith)
