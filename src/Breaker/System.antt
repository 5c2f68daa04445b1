-- ===== src/Breaker/System.antt =====
-- A breaker with its callers: the clock, and how many guards of each kind are held. A guard is
-- consumed once, by its record or its drop; an event for a guard that nobody holds changes nothing.
use mcpg_plugin_backend_sql.Common.{
  ℕ, zero, suc, ◌+◌, Bool, true, false, List, [], ◌∷◌, Result, ok, err,
}
use mcpg_plugin_backend_sql.Errors.{SqlError}
use mcpg_plugin_backend_sql.Breaker.{
  CircuitBreakerConfig, CircuitBreaker, AdmitGuard, Refusal, new, try_admit, record_outcome,
  drop_guard,
}

pub record System : Type 0 where
  pub breaker : CircuitBreaker
  pub clock : ℕ
  pub calls : ℕ
  pub probes : ℕ

pub data Event : Type 0 where
  arrive : Event
  finish : (probe success : Bool) → Event
  abandon : (probe : Bool) → Event
  wait : ℕ → Event

unfoldable pub start : CircuitBreakerConfig → System
unfolding new
start c = record { breaker = new c; clock = 0; calls = 0; probes = 0 }

hold : Bool → System → System
hold true s = record s { probes = s.probes + 1 }
hold false s = record s { calls = s.calls + 1 }

admitted : System → Result (SqlError Refusal) AdmitGuard × CircuitBreaker → System
unfolding hold
admitted s (ok g, b) = hold g.probe (record s { breaker = b })
admitted s (err e, b) = record s { breaker = b }

-- One guard of the kind is handed over to `use`, if one is held.
consume_call : ℕ → (CircuitBreaker → CircuitBreaker) → System → System
consume_call zero use_guard s = s
consume_call (suc n) use_guard s = record s { breaker = use_guard s.breaker; calls = n }

consume_probe : ℕ → (CircuitBreaker → CircuitBreaker) → System → System
consume_probe zero use_guard s = s
consume_probe (suc n) use_guard s = record s { breaker = use_guard s.breaker; probes = n }

unfoldable pub step : System → Event → System
unfolding admitted consume_call consume_probe try_admit record_outcome drop_guard
step s arrive = admitted s (try_admit s.clock s.breaker)
step s (finish false r) =
    consume_call s.calls (record_outcome s.clock (record { probe = false }) r) s
step s (finish true r) =
    consume_probe s.probes (record_outcome s.clock (record { probe = true }) r) s
step s (abandon false) = consume_call s.calls (drop_guard (record { probe = false })) s
step s (abandon true) = consume_probe s.probes (drop_guard (record { probe = true })) s
step s (wait n) = record s { clock = s.clock + n }

unfoldable pub run : System → List Event → System
run s [] = s
run s (e ∷ es) = run (step s e) es
