-- ===== src/Breaker/Invariant.antt =====
-- What holds of a breaker and its callers between two events.
use mcpg_plugin_backend_sql.Common.{
  ℕ, ◌≤◌, ◌<◌, ◌≡◌, refl, ◌≢◌, true, false, Option, none, some, List, [], ◌∷◌, arith, if◌then◌else◌,
}
use mcpg_plugin_backend_sql.Breaker.{CircuitBreakerConfig, closed, opened, half_open}
use mcpg_plugin_backend_sql.Breaker.System.{
  System, Event, arrive, finish, abandon, wait, start, step, run,
}

abbrev pub stamp : Option ℕ → ℕ
stamp none = 0
stamp (some t) = t

pub record Inv (s : System) : Type 0 where
  pub probe_counted : s.probes ≡ (if s.breaker.probe_in_flight then 1 else 0)
  pub half_open_probing : s.breaker.state ≡ half_open → s.breaker.probe_in_flight ≡ true
  pub probing_half_open : s.breaker.probe_in_flight ≡ true → s.breaker.state ≡ half_open
  pub open_stamped : s.breaker.state ≡ opened → s.breaker.opened_at ≢ none
  pub stamped_past : stamp s.breaker.opened_at ≤ s.clock
  pub streak_short :
      s.breaker.state ≡ closed → s.breaker.consecutive_failures < s.breaker.config.failure_threshold

start-Inv : (c : CircuitBreakerConfig) → 0 < c.failure_threshold → Inv (start c)
unfolding start
start-Inv c h = ground arith

pub step-Inv :
    (s : System) (e : Event) → 0 < s.breaker.config.failure_threshold → Inv s → Inv (step s e)
unfolding step
step-Inv s arrive h v = ground arith
step-Inv s (finish false true) h v = ground arith
step-Inv s (finish false false) h v = ground arith
step-Inv s (finish true true) h v = ground arith
step-Inv s (finish true false) h v = ground arith
step-Inv s (abandon false) h v = ground arith
step-Inv s (abandon true) h v = ground arith
step-Inv s (wait n) h v = ground arith

step-config : (s : System) (e : Event) → (step s e).breaker.config ≡ s.breaker.config
unfolding step
step-config s arrive = ground arith
step-config s (finish false r) = ground arith
step-config s (finish true r) = ground arith
step-config s (abandon false) = ground arith
step-config s (abandon true) = ground arith
step-config s (wait n) = refl

run-Inv :
    (s : System) (es : List Event) → 0 < s.breaker.config.failure_threshold → Inv s → Inv (run s es)
unfolding run
run-Inv s [] h v = v
run-Inv s (e ∷ es) h v = run-Inv (step s e) es (rw (step-config s e) h) (step-Inv s e h v)

-- After any sequence of arrivals, outcomes, dropped guards and waits, a breaker with a positive
-- threshold has as many probes out as its flag says (one or none), is half-open exactly while the
-- probe is out, knows when it opened while it is open, and in the closed state has a streak
-- shorter than the threshold.
pub run-start-Inv :
    (c : CircuitBreakerConfig) (es : List Event) → 0 < c.failure_threshold → Inv (run (start c) es)
run-start-Inv c es h = run-Inv (start c) es (unfold start in h) (start-Inv c h)
