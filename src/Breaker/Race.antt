-- ===== src/Breaker/Race.antt =====
-- src/breaker.rs: `try_admit` at the level of its atomic operations, and two callers interleaved.
-- Each step is one load, one store, one compare-and-exchange or one locked read.
use mcpg_plugin_backend_sql.Common.{
  ℕ, ◌≡◌, Bool, true, false, List, [], ◌∷◌, Result, ok, err, if◌then◌else◌, arith,
}
use mcpg_plugin_backend_sql.Errors.{SqlError}
use mcpg_plugin_backend_sql.Breaker.{
  CircuitState, closed, opened, half_open, CircuitBreaker, AdmitGuard, Refusal, fast_fail_error,
  cooldown_elapsed, try_admit,
}

-- Where a caller stands in `try_admit`.
pub data Pc : Type 0 where
  load_state check_cooldown store_state store_probe claim_probe : Pc
  done : Result (SqlError Refusal) AdmitGuard → Pc

abbrev branch : CircuitState → Pc
branch closed = done (ok (record { probe = false }))
branch opened = check_cooldown
branch half_open = claim_probe

unfoldable pub micro : ℕ → Pc × CircuitBreaker → Pc × CircuitBreaker
micro now (load_state, b) = (branch b.state, b)
micro now (check_cooldown, b) =
    (if cooldown_elapsed now b then store_state else done (err fast_fail_error), b)
micro now (store_state, b) = (store_probe, record b { state = half_open })
micro now (store_probe, b) =
    (done (ok (record { probe = true })), record b { probe_in_flight = true })
micro now (claim_probe, b) =
    if b.probe_in_flight
    then (done (err fast_fail_error), b)
    else (done (ok (record { probe = true })), record b { probe_in_flight = true })
micro now (done r, b) = (done r, b)

-- A caller whose steps nobody interrupts ends, in four steps at most, with the answer and the
-- breaker of `try_admit`.
micro-try_admit :
    (now : ℕ) (b : CircuitBreaker)
    → micro now (micro now (micro now (micro now (load_state, b))))
      ≡ (done (try_admit now b).0, (try_admit now b).1)
unfolding micro try_admit
micro-try_admit now b = ground arith

pub record Threads : Type 0 where
  pub first : Pc
  pub second : Pc
  pub breaker : CircuitBreaker

-- `true` lets the first caller take a step, `false` the second.
unfoldable pub schedule : ℕ → Threads → List Bool → Threads
schedule now t [] = t
schedule now t (true ∷ ws) =
    let (p, b) = micro now (t.first, t.breaker) in
    schedule now (record t { first = p; breaker = b }) ws
schedule now t (false ∷ ws) =
    let (p, b) = micro now (t.second, t.breaker) in
    schedule now (record t { second = p; breaker = b }) ws

abbrev pub both_arrive : CircuitBreaker → Threads
both_arrive b = record { first = load_state; second = load_state; breaker = b }

abbrev pub overlapping : List Bool
overlapping = true ∷ false ∷ true ∷ false ∷ true ∷ true ∷ false ∷ false ∷ []

-- The admission of a single probe is not atomic: for every open breaker whose cooldown has passed,
-- two callers that both load the state before either stores it are both admitted as the probe.
pub two_probes :
    (now : ℕ) (b : CircuitBreaker)
    → b.state ≡ opened
    → cooldown_elapsed now b ≡ true
    → let t = schedule now (both_arrive b) overlapping in
      (t.first ≡ done (ok (record { probe = true })))
      × (t.second ≡ done (ok (record { probe = true })))
unfolding schedule micro cooldown_elapsed
two_probes now b o e = ground arith
