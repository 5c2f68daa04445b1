-- ===== src/Config/Limits.antt =====
-- src/config.rs: the bounds on a profile's numbers.
use mcpg_plugin_backend_sql.Common.{
  ℕ, ◌≤◌, ◌<◌, ◌≡◌, false, ◌||◌, some, ok, refuse_if, ltb, ◌==◌, arith,
}
use mcpg_plugin_backend_sql.Breaker as Breaker
use mcpg_plugin_backend_sql.Config.{
  Libraries, Reason, PoolConfig, SqlBackendConfig, AwaitConfig, ListQueryConfig,
}
use mcpg_plugin_backend_sql.Config.Parts.{
  is_blank, check_step, check_option, validate_list_query, check_intervals, validate_await,
}
use mcpg_plugin_backend_sql.Config.Validate.{check_pool, check_heartbeat, check_breaker, validate}
use mcpg_plugin_backend_sql.Config.Soundness.{
  validate-Passed, both_pass, refuse_if-passes, check_option-some,
}

-- The numbers of a profile, within the bounds that the code documents.
pub record WithinLimits (c : SqlBackendConfig) : Type 0 where
  pub pool : (0 < c.pool.max_connections) × (c.pool.min_idle ≤ c.pool.max_connections)
  pub heartbeat : (ms : ℕ) → c.query.progress_heartbeat_ms ≡ some ms → 50 ≤ ms
  pub waiting :
      (a : AwaitConfig)
      → c.await ≡ some a
      → (100 ≤ a.poll_interval_ms) × (a.poll_interval_ms ≤ a.timeout_ms)
  pub listing :
      (q : ListQueryConfig) → c.list_query ≡ some q → (1 ≤ q.page_size) × (q.page_size ≤ 1000)
  pub breaker :
      (b : Breaker.CircuitBreakerConfig)
      → c.circuit_breaker ≡ some b
      → (1 ≤ b.failure_threshold) × (1 ≤ b.cooldown_ms)

check_pool-lem :
    (p : PoolConfig)
    → check_pool p ≡ ok tt
    → (0 < p.max_connections) × (p.min_idle ≤ p.max_connections)
unfolding check_pool
check_pool-lem p h =
    let (a, b) = both_pass _ _ h in
    let positive : (p.max_connections == 0) ≡ false = refuse_if-passes _ _ a in
    let within : ltb p.max_connections p.min_idle ≡ false = refuse_if-passes _ _ b in
    (ground arith, ground arith)

check_intervals-lem :
    (a : AwaitConfig)
    → check_intervals a ≡ ok tt
    → (100 ≤ a.poll_interval_ms) × (a.poll_interval_ms ≤ a.timeout_ms)
unfolding check_intervals
check_intervals-lem a h = (ground arith, ground arith)

validate_await-lem :
    (a : AwaitConfig)
    → validate_await a ≡ ok tt
    → (100 ≤ a.poll_interval_ms) × (a.poll_interval_ms ≤ a.timeout_ms)
unfolding validate_await
validate_await-lem a h =
    let (check, rest) = both_pass (check_step a.check) _ h in
    let (trigger, rest) = both_pass (check_option check_step a.trigger) _ rest in
    let (predicate, intervals) =
      both_pass (refuse_if (is_blank a.predicate) Reason.text_is_empty) _ rest in
    check_intervals-lem a intervals

page_in_range : (n : ℕ) → ((n == 0) || ltb 1000 n) ≡ false → (1 ≤ n) × (n ≤ 1000)
page_in_range n h = (ground arith, ground arith)

validate_list_query-lem :
    (q : ListQueryConfig) → validate_list_query q ≡ ok tt → (1 ≤ q.page_size) × (q.page_size ≤ 1000)
unfolding validate_list_query
validate_list_query-lem q h =
    let (x, h) = both_pass _ _ h in
    let (x, h) = both_pass _ _ h in
    let (page, h) = both_pass _ _ h in page_in_range q.page_size (refuse_if-passes _ _ page)

check_breaker-lem :
    (b : Breaker.CircuitBreakerConfig)
    → check_breaker b ≡ ok tt
    → (1 ≤ b.failure_threshold) × (1 ≤ b.cooldown_ms)
unfolding check_breaker Breaker.validate
check_breaker-lem b h = ground arith

-- The numbers of an accepted profile are within their bounds: the pool holds a connection and no
-- more idle ones than it may open, a heartbeat is 50 ms apart or more, a wait polls at most each
-- 100 ms and for at least one interval, a listing has 1 to 1,000 rows a page, and a circuit
-- breaker's threshold and cooldown are positive.
pub validate-WithinLimits :
    {F : Type 0} (libraries : Libraries F) (c : SqlBackendConfig)
    → validate libraries c ≡ ok tt
    → WithinLimits c
unfolding check_heartbeat
validate-WithinLimits libraries c h =
    let p = validate-Passed libraries c h in
    record {
      pool = check_pool-lem c.pool p.pool;
      heartbeat = λ ms e.
          let floor : ltb ms 50 ≡ false =
            refuse_if-passes _ _ (check_option-some _ _ ms e p.heartbeat) in
          ground arith;
      waiting = λ a e. validate_await-lem a (check_option-some _ _ a e p.waiting);
      listing = λ q e. validate_list_query-lem q (check_option-some _ _ q e p.listing);
      breaker = λ b e. check_breaker-lem b (check_option-some _ _ b e p.breaker);
    }
