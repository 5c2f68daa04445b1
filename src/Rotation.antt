-- ===== src/Rotation.antt =====
-- src/auth/rotator.rs: when a token is refreshed, and how long a connection made with it may live.
-- Durations are in nanoseconds; `max_duration` is `Duration::MAX`. The task that refreshes is left
-- out.
pub mod Schedule
mod Tests
use mcpg_plugin_backend_sql.Common.{
  ℕ, ◌+◌, ◌-◌, ◌*◌, ◌^◌, max, Option, none, some, ltb, ◌==◌, if◌then◌else◌,
}

abbrev pub max_duration : ℕ
max_duration = (2 ^ 64 - 1) * 1000000000 + 999999999

pub record RotatorConfig : Type 0 where
  pub safety_margin : ℕ
  pub min_interval : ℕ

abbrev pub default_rotator_config : RotatorConfig
default_rotator_config = record { safety_margin = 60000000000; min_interval = 5000000000 }

-- `ttl.checked_sub(margin).unwrap_or_default()`.
unfoldable pub before_margin : ℕ → ℕ → ℕ
before_margin ttl margin = if ltb ttl margin then 0 else ttl - margin

unfoldable pub interval_for : RotatorConfig → ℕ → Option ℕ
interval_for c ttl =
    if ttl == max_duration
    then none
    else some (max (before_margin ttl c.safety_margin) c.min_interval)

unfoldable pub pool_max_lifetime_for : RotatorConfig → ℕ → Option ℕ
pool_max_lifetime_for c ttl =
    if ttl == max_duration
    then none
    else some (max (before_margin ttl c.safety_margin) c.min_interval)
