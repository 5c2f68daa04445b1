-- ===== src/Breaker.antt =====
-- src/breaker.rs: the circuit breaker of one binding. Each method of the source is one function on
-- the breaker's record, run to its end before the next; `Breaker/Race.antt` splits `try_admit` at
-- its atomic operations. Instants are nanoseconds of the monotonic clock, given to the methods
-- that read it; the counters wrap at 2 ^ 32 and 2 ^ 64 as `fetch_add` does.
pub mod System
pub mod Invariant
pub mod Trips
pub mod Recovery
pub mod Race
mod Tests
use mcpg_plugin_backend_sql.Common.{
  ℕ, ◌+◌, ◌-◌, ◌*◌, ◌%◌, ◌^◌, Bool, true, false, Option, none, some, Result, ok, err, ◌>>◌,
  refuse_if, leb, ◌==◌, if◌then◌else◌,
}
use mcpg_plugin_backend_sql.Errors.{SqlError, pool_closed}
use mcpg_plugin_backend_sql.Errors

pub record CircuitBreakerConfig : Type 0 where
  pub failure_threshold : ℕ
  pub cooldown_ms : ℕ

pub data Refusal : Type 0 where
  zero_failure_threshold zero_cooldown_ms : Refusal

abbrev pub default_config : CircuitBreakerConfig
default_config = record { failure_threshold = 5; cooldown_ms = 30000 }

unfoldable pub validate : CircuitBreakerConfig → Result (SqlError Refusal) (Unit {0})
validate c = do
  refuse_if (c.failure_threshold == 0) (SqlError.invalid_spec zero_failure_threshold)
  refuse_if (c.cooldown_ms == 0) (SqlError.invalid_spec zero_cooldown_ms)
  ok tt

pub data CircuitState : Type 0 where
  closed opened half_open : CircuitState

pub record CircuitBreaker : Type 0 where
  pub config : CircuitBreakerConfig
  pub consecutive_failures : ℕ
  pub opened_at : Option ℕ
  pub probe_in_flight : Bool
  pub total_trips : ℕ
  pub state : CircuitState

unfoldable pub new : CircuitBreakerConfig → CircuitBreaker
new c = record {
  config = c;
  consecutive_failures = 0;
  opened_at = none;
  probe_in_flight = false;
  total_trips = 0;
  state = closed;
}

pub record CircuitSnapshot : Type 0 where
  pub state : CircuitState
  pub consecutive_failures : ℕ
  pub total_trips : ℕ

unfoldable pub snapshot : CircuitBreaker → CircuitSnapshot
snapshot b = record {
  state = b.state;
  consecutive_failures = b.consecutive_failures;
  total_trips = b.total_trips;
}

-- A guard of the breaker: the admitted call, and whether it is the half-open probe.
pub record AdmitGuard : Type 0 where
  pub probe : Bool

abbrev pub nanos_per_ms : ℕ
nanos_per_ms = 1000000

abbrev pub fast_fail_error : SqlError Refusal
fast_fail_error = SqlError.driver pool_closed

elapsed_since : ℕ → ℕ → Option ℕ → Bool
elapsed_since now cooldown none = true
elapsed_since now cooldown (some t) = leb (cooldown * nanos_per_ms) (now - t)

unfoldable pub cooldown_elapsed : ℕ → CircuitBreaker → Bool
unfolding elapsed_since
cooldown_elapsed now b = elapsed_since now b.config.cooldown_ms b.opened_at

-- The `match` of `try_admit` on the loaded state.
admit_at : CircuitState → ℕ → CircuitBreaker → Result (SqlError Refusal) AdmitGuard × CircuitBreaker
admit_at closed now b = (ok (record { probe = false }), b)
admit_at opened now b =
    if cooldown_elapsed now b
    then (ok (record { probe = true }), record b { state = half_open; probe_in_flight = true })
    else (err fast_fail_error, b)
admit_at half_open now b =
    if b.probe_in_flight
    then (err fast_fail_error, b)
    else (ok (record { probe = true }), record b { probe_in_flight = true })

unfoldable pub try_admit :
    ℕ → CircuitBreaker → Result (SqlError Refusal) AdmitGuard × CircuitBreaker
unfolding admit_at cooldown_elapsed
try_admit now b = admit_at b.state now b

unfoldable pub record_success : Bool → CircuitBreaker → CircuitBreaker
record_success false b = record b { consecutive_failures = 0 }
record_success true b = record b {
  consecutive_failures = 0;
  probe_in_flight = false;
  state = closed;
  opened_at = none;
}

-- The compare-and-exchange of the trip: only from Closed.
trip : CircuitState → ℕ → CircuitBreaker → CircuitBreaker
trip closed now b = record b {
  state = opened;
  opened_at = some now;
  total_trips = (b.total_trips + 1) % 2 ^ 64;
}
trip opened now b = b
trip half_open now b = b

unfoldable pub record_failure : ℕ → Bool → CircuitBreaker → CircuitBreaker
unfolding trip
record_failure now true b = record b {
  probe_in_flight = false;
  state = opened;
  opened_at = some now;
}
record_failure now false b =
    let n = (b.consecutive_failures + 1) % 2 ^ 32 in
    let b' = record b { consecutive_failures = n } in
    if leb b.config.failure_threshold n then trip b.state now b' else b'

-- `AdmitGuard::record`, and the `Drop` of a guard that was never recorded.
unfoldable pub record_outcome : ℕ → AdmitGuard → Bool → CircuitBreaker → CircuitBreaker
unfolding record_success record_failure
record_outcome now g true b = record_success g.probe b
record_outcome now g false b = record_failure now g.probe b

unfoldable pub drop_guard : AdmitGuard → CircuitBreaker → CircuitBreaker
unfolding record_success
drop_guard g b = record_success g.probe b
