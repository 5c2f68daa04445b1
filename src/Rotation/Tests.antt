-- ===== src/Rotation/Tests.antt =====
-- src/auth/rotator.rs on a token of fifteen minutes, and on one that lives for three seconds.
use mcpg_plugin_backend_sql.Common.{◌≡◌, refl, some, none}
use mcpg_plugin_backend_sql.Rotation.{
  max_duration, default_rotator_config, before_margin, interval_for, pool_max_lifetime_for,
}

refreshed_a_minute_before : interval_for default_rotator_config 900000000000 ≡ some 840000000000
unfolding interval_for before_margin
refreshed_a_minute_before = refl

outlives_its_token : pool_max_lifetime_for default_rotator_config 3000000000 ≡ some 5000000000
unfolding pool_max_lifetime_for before_margin
outlives_its_token = refl

never_refreshed : interval_for default_rotator_config max_duration ≡ none
unfolding interval_for
never_refreshed = refl
