-- ===== src/Breaker/Trips.antt =====
-- src/breaker.rs: how many failures in a row open the breaker.
use mcpg_plugin_backend_sql.Common.{
  ℕ, zero, suc, ◌+◌, ◌^◌, ◌<◌, ◌≡◌, refl, false, some, List, [], ◌∷◌, arith, ◌∙◌, ap, subst, sym,
}
use mcpg_plugin_backend_sql.Breaker.{CircuitBreakerConfig, closed, opened}
use mcpg_plugin_backend_sql.Breaker.System.{System, Event, arrive, finish, start, step, run}

-- n calls, one after another, that all fail.
abbrev pub fail_calls : ℕ → List Event
fail_calls zero = []
fail_calls (suc n) = arrive ∷ finish false false ∷ fail_calls n

abbrev with_streak : System → ℕ → System
with_streak s n = record s { breaker = record (s.breaker) { consecutive_failures = n } }

fail_once :
    (s : System)
    → s.breaker.state ≡ closed
    → s.breaker.consecutive_failures + 1 < s.breaker.config.failure_threshold
    → s.breaker.config.failure_threshold < 2 ^ 32
    → step (step s arrive) (finish false false) ≡ with_streak s (s.breaker.consecutive_failures + 1)
unfolding step
fail_once s c h w = ground arith

fail_last :
    (s : System)
    → s.breaker.state ≡ closed
    → s.breaker.consecutive_failures + 1 ≡ s.breaker.config.failure_threshold
    → s.breaker.config.failure_threshold < 2 ^ 32
    → s.breaker.total_trips + 1 < 2 ^ 64
    → let t = step (step s arrive) (finish false false) in
      (t.breaker.state ≡ opened)
      × (t.breaker.opened_at ≡ some s.clock)
      × (t.breaker.total_trips ≡ s.breaker.total_trips + 1)
unfolding step
fail_last s c h w v = ground arith

fail_streak :
    (k : ℕ) (s : System)
    → s.breaker.state ≡ closed
    → s.breaker.consecutive_failures + k < s.breaker.config.failure_threshold
    → s.breaker.config.failure_threshold < 2 ^ 32
    → run s (fail_calls k) ≡ with_streak s (s.breaker.consecutive_failures + k)
unfolding run
fail_streak zero s c h w = ground arith
fail_streak (suc k) s c h w =
    ap (λ x. run x (fail_calls k)) (fail_once s c (omega arith) w)
    ∙ fail_streak k (with_streak s (s.breaker.consecutive_failures + 1)) c (omega arith) w
    ∙ ap (with_streak s) (omega arith)

abbrev Tripped : System → System → Type 0
Tripped s t =
    (t.breaker.state ≡ opened)
    × (t.breaker.opened_at ≡ some s.clock)
    × (t.breaker.total_trips ≡ s.breaker.total_trips + 1)

fail_trips :
    (n : ℕ) (s : System)
    → 0 < n
    → s.breaker.state ≡ closed
    → s.breaker.consecutive_failures + n ≡ s.breaker.config.failure_threshold
    → s.breaker.config.failure_threshold < 2 ^ 32
    → s.breaker.total_trips + 1 < 2 ^ 64
    → Tripped s (run s (fail_calls n))
unfolding run
fail_trips zero s p c h w v = absurd (omega arith)
fail_trips (suc zero) s p c h w v = fail_last s c (omega arith) w v
fail_trips (suc (suc n)) s p c h w v =
    subst (λ x. Tripped s (run x (fail_calls (suc n)))) (sym (fail_once s c (omega arith) w))
      (fail_trips (suc n) (with_streak s (s.breaker.consecutive_failures + 1)) (omega arith) c
        (omega arith) w v)

-- From a new breaker whose threshold fits a u32: after fewer failing calls in a row than the
-- threshold it is still closed and has counted each, and after as many as the threshold it is open
-- since that moment with one trip counted.
pub trips_at_threshold :
    (c : CircuitBreakerConfig) (k : ℕ)
    → k < c.failure_threshold
    → c.failure_threshold < 2 ^ 32
    → let s = run (start c) (fail_calls k) in
      let t = run (start c) (fail_calls c.failure_threshold) in
      (s.breaker.state ≡ closed)
      × (s.breaker.consecutive_failures ≡ k)
      × (s.breaker.total_trips ≡ 0)
      × (t.breaker.state ≡ opened)
      × (t.breaker.opened_at ≡ some 0)
      × (t.breaker.total_trips ≡ 1)
unfolding start
trips_at_threshold c k h w =
    let few = fail_streak k (start c) refl (omega arith) w in
    let all_failed =
      fail_trips c.failure_threshold (start c) (omega arith) refl (omega arith) w (omega arith) in
    (
      ap (λ x. x.breaker.state) few,
      ap (λ x. x.breaker.consecutive_failures) few ∙ omega arith,
      ap (λ x. x.breaker.total_trips) few,
      all_failed.0,
      all_failed.1,
      all_failed.2,
    )
