-- ===== src/Breaker/Recovery.antt =====
-- src/breaker.rs: what an open breaker does while it cools down, and how it closes again.
use mcpg_plugin_backend_sql.Common.{
  ℕ, ◌+◌, ◌*◌, ◌≤◌, ◌<◌, ◌≡◌, true, false, none, some, List, [], ◌∷◌, arith,
}
use mcpg_plugin_backend_sql.Breaker.{closed, opened, half_open, nanos_per_ms}
use mcpg_plugin_backend_sql.Breaker.System.{System, Event, arrive, finish, abandon, wait, step, run}
use mcpg_plugin_backend_sql.Breaker.Invariant.{Inv}

abbrev cooldown : System → ℕ
cooldown s = s.breaker.config.cooldown_ms * nanos_per_ms

abbrev waited : Event → ℕ
waited (wait n) = n
waited _ = 0

abbrev pub total_wait : List Event → ℕ
total_wait [] = 0
total_wait (e ∷ es) = waited e + total_wait es

-- Open since t, with no probe out.
record Cooling (t : ℕ) (d : ℕ) (s : System) : Type 0 where
  is_open : s.breaker.state ≡ opened
  since : s.breaker.opened_at ≡ some t
  alone : s.probes ≡ 0
  past : t ≤ s.clock
  length_of : s.breaker.config.cooldown_ms ≡ d

step-Cooling :
    (t d : ℕ) (s : System) (e : Event)
    → Cooling t d s
    → s.clock + waited e < t + d * nanos_per_ms
    → Cooling t d (step s e) × ((step s e).clock ≡ s.clock + waited e)
unfolding step
step-Cooling t d s arrive c h = ground arith
step-Cooling t d s (finish false true) c h = ground arith
step-Cooling t d s (finish false false) c h = ground arith
step-Cooling t d s (finish true r) c h = ground arith
step-Cooling t d s (abandon false) c h = ground arith
step-Cooling t d s (abandon true) c h = ground arith
step-Cooling t d s (wait n) c h = ground arith

run-Cooling :
    (t d : ℕ) (s : System) (es : List Event)
    → Cooling t d s
    → s.clock + total_wait es < t + d * nanos_per_ms
    → Cooling t d (run s es)
unfolding run
run-Cooling t d s [] c h = c
run-Cooling t d s (e ∷ es) c h =
    let n = step-Cooling t d s e c (omega arith) in run-Cooling t d (step s e) es n.0 (omega arith)

-- While the cooldown that began at t runs, no sequence of arrivals and outcomes of calls admitted
-- earlier moves an open breaker: it stays open with the same time stamp, and no probe is let out.
pub cooling_stays_open :
    (t : ℕ) (s : System) (es : List Event)
    → Inv s
    → s.breaker.state ≡ opened
    → s.breaker.opened_at ≡ some t
    → s.clock + total_wait es < t + cooldown s
    → ((run s es).breaker.state ≡ opened)
      × ((run s es).breaker.opened_at ≡ some t)
      × ((run s es).probes ≡ 0)
cooling_stays_open t s es v o since h =
    let c = run-Cooling t s.breaker.config.cooldown_ms s es (ground arith) h in
    (c.is_open, c.since, c.alone)

-- From an open state, once the cooldown has passed, one arrival is let out as the probe, and its
-- success closes the breaker with an empty streak and no time stamp, with no probe left out.
pub recovers :
    (s : System)
    → Inv s
    → s.breaker.state ≡ opened
    → let t = run s (wait (cooldown s) ∷ arrive ∷ finish true true ∷ []) in
      (t.breaker.state ≡ closed)
      × (t.breaker.consecutive_failures ≡ 0)
      × (t.breaker.opened_at ≡ none)
      × (t.breaker.probe_in_flight ≡ false)
      × (t.probes ≡ 0)
unfolding run step
recovers s v o = ground arith

-- A probe that fails after w more nanoseconds opens the breaker again, from that moment, and frees
-- the slot of the probe; it is not counted as a trip, and the streak stays as it was.
pub probe_failure_reopens :
    (s : System) (w : ℕ)
    → Inv s
    → s.breaker.state ≡ half_open
    → let t = run s (wait w ∷ finish true false ∷ []) in
      (t.breaker.state ≡ opened)
      × (t.breaker.opened_at ≡ some (s.clock + w))
      × (t.breaker.probe_in_flight ≡ false)
      × (t.probes ≡ 0)
      × (t.breaker.total_trips ≡ s.breaker.total_trips)
      × (t.breaker.consecutive_failures ≡ s.breaker.consecutive_failures)
unfolding run step
probe_failure_reopens s w v o = ground arith
