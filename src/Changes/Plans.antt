-- ===== src/Changes/Plans.antt =====
-- src/watch_changes.rs: what a plan that `compile` returns satisfies.
use mcpg_plugin_backend_sql.Common.{
  ℕ, suc, ◌≤◌, ◌≡◌, ◌≢◌, refl, ap, subst, Bool, true, false, not, ◌||◌, List, [], ◌∷◌, Option, none,
  some, ok, refuse_if, bind-ok, then-ok, refuse_if-ok, All, length, ltb, arith, Text,
}
use mcpg_plugin_backend_sql.Common.TextMaps.{lookup}
use mcpg_plugin_backend_sql.Params.{DriverKind, rewrite_placeholders}
use mcpg_plugin_backend_sql.Config as Config
use mcpg_plugin_backend_sql.Config.Parts.{check_statement}
use mcpg_plugin_backend_sql.Config.Validate.{validate}
use mcpg_plugin_backend_sql.Changes.{
  Env, ChangesStart, latest, beginning, PreparedStmt, SqlChangesWatchSpec, Plan, Refusal, is_among,
  is_column_name, max_batch_size, min_interval_ms, no_initial_value, unknown_placeholder,
  batch_size_out_of_range, interval_too_short,
}
use mcpg_plugin_backend_sql.Changes.Compile.{
  from_config, refuse_unless, check_columns, allowed, is_zero_settle, rewritten_sql, unbound,
  compile_latest, initial_value, collect_initial, check_settings, check_order, compile_query,
  compile, plan_of, check_optional_column, is_many, sql_of,
}

-- The newest key's statement is there when the watch starts at it, and binds nothing.
abbrev pub HasLatest : ChangesStart → Option PreparedStmt → Type 0
HasLatest latest none = ⊥
HasLatest beginning none = Unit
HasLatest start (some s) = s.param_order ≡ []

pub record IsPlan (env : Env) (plan : Plan env.Value) : Type 0 where
  pub columns : All (λ c. is_column_name c ≡ true) plan.key_columns
  pub has_columns : plan.key_columns ≢ []
  pub initial : All (λ v. env.is_null v ≡ false) plan.initial
  pub initial_length : length plan.initial ≡ length plan.key_columns
  pub batch_low : 1 ≤ plan.batch_size
  pub batch_high : plan.batch_size ≤ 500
  pub interval : 100 ≤ plan.interval
  pub settles : plan.settle ≢ some 0
  pub only :
      All (λ n. is_among n (allowed plan.key_columns plan.settle) ≡ true) plan.stmt.param_order
  pub whole :
      All (λ n. is_among n plan.stmt.param_order ≡ true) (allowed plan.key_columns plan.settle)
  pub newest : HasLatest plan.start plan.latest_stmt

not-false : (b : Bool) → not b ≡ false → b ≡ true
not-false true h = refl
not-false false h = cc

refuse_unless-All :
    (p : Text → Bool) (r : Text → Refusal) (ts : List Text)
    → refuse_unless p r ts ≡ ok tt
    → All (λ t. p t ≡ true) ts
unfolding refuse_unless
refuse_unless-All p r [] h = tt
refuse_unless-All p r (t ∷ ts) h =
    let (one, rest) = then-ok (refuse_if (not (p t)) (r t)) (refuse_unless p r ts) tt h in
    (not-false (p t) (refuse_if-ok (not (p t)) (r t) one), refuse_unless-All p r ts rest)

check_columns-All :
    (cs : List Text) → check_columns cs ≡ ok tt → All (λ c. is_column_name c ≡ true) cs × (cs ≢ [])
unfolding check_columns
check_columns-All [] h = absurd cc
check_columns-All (c ∷ cs) h = (refuse_unless-All is_column_name _ (c ∷ cs) h, λ e. cc)

is_zero_settle-some : (o : Option ℕ) → is_zero_settle o ≡ false → o ≢ some 0
unfolding is_zero_settle
is_zero_settle-some none h = λ e. cc
is_zero_settle-some (some ms) h = λ e. ground arith

unbound-HasLatest :
    (start : ChangesStart) (order : List Text) (s : PreparedStmt) (newest : Option PreparedStmt)
    → s.param_order ≡ order
    → unbound order s ≡ ok newest
    → HasLatest start newest
unfolding unbound
unbound-HasLatest start [] s newest e h =
    let same : some s ≡ newest = cc in subst (HasLatest start) same e
unbound-HasLatest start (name ∷ names) s newest e h = absurd cc

compile_latest-HasLatest :
    (d : DriverKind) (start : ChangesStart) (given : Option Text) (newest : Option PreparedStmt)
    → compile_latest d start given ≡ ok newest
    → HasLatest start newest
unfolding compile_latest
compile_latest-HasLatest d latest none newest h = absurd cc
compile_latest-HasLatest d beginning none newest h =
    let same : none ≡ newest = cc in subst (HasLatest beginning) same tt
compile_latest-HasLatest d start (some sql) newest h =
    let (u, rest) = then-ok (from_config (check_statement sql)) _ newest h in
    let (s, v, last) = bind-ok (rewritten_sql d (rewrite_placeholders sql d)) _ newest rest in
    unbound-HasLatest start s.param_order s newest refl last

module _ (env : Env) where
  initial_value-ok :
      (c : Text) (o : Option env.Value) (v : env.Value)
      → initial_value env c o ≡ ok v
      → env.is_null v ≡ false
  unfolding initial_value
  initial_value-ok c none v h = absurd cc
  initial_value-ok c (some w) v h =
      let (one, two) = then-ok (refuse_if (env.is_null w) (no_initial_value c)) (ok w) v h in
      let same : w ≡ v = cc in
      subst (λ x. env.is_null x ≡ false) same (refuse_if-ok (env.is_null w) _ one)

  collect_initial-ok :
      (given : List (Text × env.Value)) (cs : List Text) (vs : List env.Value)
      → collect_initial env given cs ≡ ok vs
      → All (λ v. env.is_null v ≡ false) vs × (length vs ≡ length cs)
  unfolding collect_initial
  collect_initial-ok given [] vs h =
      let same : [] ≡ vs = cc in
      subst (λ x. All (λ v. env.is_null v ≡ false) x × (length x ≡ 0)) same (tt, refl)
  collect_initial-ok given (c ∷ cs) vs h =
      let (v, one, rest) = bind-ok (initial_value env c (lookup c given)) _ vs h in
      let (ws, two, last) = bind-ok (collect_initial env given cs) _ vs rest in
      let same : v ∷ ws ≡ vs = cc in
      let (below, size) = collect_initial-ok given cs ws two in
      subst (λ x. All (λ v. env.is_null v ≡ false) x × (length x ≡ suc (length cs))) same
        ((initial_value-ok c (lookup c given) v one, below), ap suc size)

  -- The order of the statement that `compile_query` returns.
  compile_query-ok :
      (s : SqlChangesWatchSpec env.Value) (sql : Text) (stmt : PreparedStmt)
      → compile_query env s sql ≡ ok stmt
      → All (λ n. is_among n (allowed s.key_columns s.settle_ms) ≡ true) stmt.param_order
        × All (λ n. is_among n stmt.param_order ≡ true) (allowed s.key_columns s.settle_ms)
  unfolding compile_query check_order
  compile_query-ok s sql stmt h =
      let (a, rest) = then-ok (from_config (check_statement sql)) _ stmt h in
      let (t, b, rest) =
        bind-ok (rewritten_sql s.connection.driver (rewrite_placeholders sql s.connection.driver)) _
          stmt rest in
      let (c, rest) =
        then-ok (check_order (allowed s.key_columns s.settle_ms) t.param_order) _ stmt rest in
      let same : t ≡ stmt = cc in
      let (d, e) = then-ok (refuse_unless _ unknown_placeholder t.param_order) _ tt c in
      let P : PreparedStmt → Type 0 = λ x.
        All (λ n. is_among n (allowed s.key_columns s.settle_ms) ≡ true) x.param_order
        × All (λ n. is_among n x.param_order ≡ true) (allowed s.key_columns s.settle_ms) in
      subst P same (
        refuse_unless-All _ _ t.param_order d,
        refuse_unless-All _ _ (allowed s.key_columns s.settle_ms) e,
      )

  record Settings (s : SqlChangesWatchSpec env.Value) : Type 0 where
    batch_low : 1 ≤ s.batch_size
    batch_high : s.batch_size ≤ 500
    interval : 100 ≤ s.interval_ms
    settles : s.settle_ms ≢ some 0

  batch_bounds : (n : ℕ) → (ltb n 1 || ltb max_batch_size n) ≡ false → (1 ≤ n) × (n ≤ 500)
  batch_bounds n h = ground arith

  interval_bound : (n : ℕ) → ltb n min_interval_ms ≡ false → 100 ≤ n
  interval_bound n h = ground arith

  check_settings-ok :
      (s : SqlChangesWatchSpec env.Value) → check_settings env s ≡ ok tt → Settings s
  unfolding check_settings
  check_settings-ok s h =
      let (a, rest) = then-ok (refuse_unless _ _ _) _ tt h in
      let (b, rest) = then-ok (refuse_if _ batch_size_out_of_range) _ tt rest in
      let (c, rest) = then-ok (refuse_if _ interval_too_short) _ tt rest in
      let (d, rest) = then-ok (check_optional_column s.occurred_at_column) _ tt rest in
      let (e, f) = then-ok (check_optional_column s.op_column) _ tt rest in
      let (low, high) = batch_bounds s.batch_size (refuse_if-ok _ _ b) in
      record {
        batch_low = low;
        batch_high = high;
        interval = interval_bound s.interval_ms (refuse_if-ok _ _ c);
        settles = is_zero_settle-some s.settle_ms (refuse_if-ok _ _ f);
      }

  -- A plan that `compile` returns has a column name for each of its key columns, at least one, and
  -- as many initial values, none null. Its batches have 1 to 500 rows and its interval is at least
  -- 100 ms. Its statement binds every placeholder that the loop gives a value to and no other, and
  -- the statement of the newest key, which is there when the watch starts at it, binds none.
  pub compile-IsPlan :
      {F : Type 0} (libraries : Config.Libraries F) (s : SqlChangesWatchSpec env.Value)
      (plan : Plan env.Value)
      → compile env libraries s ≡ ok plan
      → IsPlan env plan
  unfolding compile
  compile-IsPlan libraries s plan h =
      let (a, rest) = then-ok (from_config (validate libraries s.connection)) _ plan h in
      let (b, rest) =
        then-ok (refuse_if (not (is_many s.connection.query.row_mode)) _) _ plan rest in
      let (sql, c, rest) = bind-ok (sql_of s.connection.query.body) _ plan rest in
      let (d, rest) = then-ok (check_columns s.key_columns) _ plan rest in
      let (initial, e, rest) = bind-ok (collect_initial env s.initial s.key_columns) _ plan rest in
      let (f, rest) = then-ok (check_settings env s) _ plan rest in
      let (stmt, g, rest) = bind-ok (compile_query env s sql) _ plan rest in
      let (newest, k, last) =
        bind-ok (compile_latest s.connection.driver s.start s.latest_sql) _ plan rest in
      let same : plan_of env s initial stmt newest ≡ plan = cc in
      let (names, some_name) = check_columns-All s.key_columns d in
      let (values, size) = collect_initial-ok s.initial s.key_columns initial e in
      let settings = check_settings-ok s f in
      let (only, whole) = compile_query-ok s sql stmt g in
      subst (IsPlan env) same (record {
        columns = names;
        has_columns = some_name;
        initial = values;
        initial_length = size;
        batch_low = settings.batch_low;
        batch_high = settings.batch_high;
        interval = settings.interval;
        settles = settings.settles;
        only = only;
        whole = whole;
        newest = compile_latest-HasLatest s.connection.driver s.start s.latest_sql newest k;
      })
