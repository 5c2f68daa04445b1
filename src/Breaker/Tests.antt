-- ===== src/Breaker/Tests.antt =====
-- src/breaker.rs: runs at concrete inputs, and the theorems at inputs that meet their hypotheses.
use mcpg_plugin_backend_sql.Common.{
  ◌*◌, ◌≡◌, refl, true, false, some, List, [], ◌∷◌, arith, ok, err,
}
use mcpg_plugin_backend_sql.Errors.{SqlError}
use mcpg_plugin_backend_sql.Breaker.{
  CircuitBreakerConfig, CircuitBreaker, closed, opened, default_config, validate, zero_cooldown_ms,
  cooldown_elapsed, nanos_per_ms,
}
use mcpg_plugin_backend_sql.Breaker.System.{System, Event, arrive, finish, wait, start, step, run}
use mcpg_plugin_backend_sql.Breaker.Invariant.{Inv, run-start-Inv}
use mcpg_plugin_backend_sql.Breaker.Trips.{fail_calls, trips_at_threshold}
use mcpg_plugin_backend_sql.Breaker.Recovery.{recovers}
use mcpg_plugin_backend_sql.Breaker.Race.{done, schedule, both_arrive, overlapping, two_probes}

abbrev three_strikes : CircuitBreakerConfig
three_strikes = record { failure_threshold = 3; cooldown_ms = 10 }

abbrev tripped_then_waiting : List Event
tripped_then_waiting = arrive ∷ fail_calls 3

validate_default : validate default_config ≡ ok tt
unfolding validate
validate_default = refl

validate_zero_cooldown :
    validate (record three_strikes { cooldown_ms = 0 })
    ≡ err (SqlError.invalid_spec zero_cooldown_ms)
unfolding validate
validate_zero_cooldown = refl

-- A late success of a call admitted before the trip empties the streak and does not close.
late_success :
    let s = run (start three_strikes) (
      arrive
      ∷ arrive
      ∷ arrive
      ∷ arrive
      ∷ finish false false
      ∷ finish false false
      ∷ finish false false
      ∷ finish false true
      ∷ []) in
    (s.breaker.state ≡ opened) × (s.breaker.consecutive_failures ≡ 0)
unfolding run step start
late_success = (refl, refl)

run-start-Inv_example : Inv (run (start three_strikes) (fail_calls 3))
run-start-Inv_example = run-start-Inv three_strikes (fail_calls 3) (omega arith)

trips_at_threshold_example : (run (start three_strikes) (fail_calls 3)).breaker.state ≡ opened
trips_at_threshold_example = (trips_at_threshold three_strikes 2 (omega arith) (omega arith)).3

abbrev tripped : System
tripped = run (start three_strikes) (fail_calls 3)

abbrev probing : System
probing = run (start three_strikes) (
    arrive
    ∷ arrive
    ∷ arrive
    ∷ finish false false
    ∷ finish false false
    ∷ finish false false
    ∷ wait (10 * nanos_per_ms)
    ∷ arrive
    ∷ [])

recovers_example :
    (run tripped (wait (10 * nanos_per_ms) ∷ arrive ∷ finish true true ∷ [])).breaker.state ≡ closed
unfolding run step start
recovers_example = (recovers tripped run-start-Inv_example refl).0

probing-Inv : Inv probing
probing-Inv = run-start-Inv three_strikes _ (omega arith)

abbrev cooled : CircuitBreaker
cooled = record (tripped.breaker) { opened_at = some 0 }

two_probes_example :
    (schedule 10000000 (both_arrive cooled) overlapping).second
    ≡ done (ok (record { probe = true }))
unfolding cooldown_elapsed run step start
two_probes_example = (two_probes 10000000 cooled refl refl).1
