-- ===== src/Rotation/Schedule.antt =====
-- src/auth/rotator.rs: the schedule of a token that lives for longer than the floor and the margin.
use mcpg_plugin_backend_sql.Common.{ℕ, ◌+◌, ◌≤◌, ◌≡◌, ◌≢◌, refl, max, false, some, ◌==◌, arith}
use mcpg_plugin_backend_sql.Rotation.{
  max_duration, RotatorConfig, before_margin, interval_for, pool_max_lifetime_for,
}

before_margin-room : (ttl margin : ℕ) → margin ≤ ttl → before_margin ttl margin + margin ≡ ttl
unfolding before_margin
before_margin-room ttl margin h = ground arith

-- Where the lifetime of a token is finite and at least the floor and the margin together: the token
-- is refreshed exactly the margin before it expires, which is not sooner than the floor, and the
-- lifetime of its connections is capped at the same time.
pub interval_for-in_time :
    (c : RotatorConfig) (ttl : ℕ)
    → ttl ≢ max_duration
    → c.min_interval + c.safety_margin ≤ ttl
    → (t : ℕ) × (interval_for c ttl ≡ some t)
      × (pool_max_lifetime_for c ttl ≡ some t)
      × (c.min_interval ≤ t)
      × (t + c.safety_margin ≡ ttl)
unfolding interval_for pool_max_lifetime_for
interval_for-in_time c ttl finite room =
    let never : (ttl == max_duration) ≡ false = ground arith in
    let sum : before_margin ttl c.safety_margin + c.safety_margin ≡ ttl =
      before_margin-room ttl c.safety_margin (omega arith) in
    let most : max (before_margin ttl c.safety_margin) c.min_interval
        ≡ before_margin ttl c.safety_margin =
      omega arith in
    (
      before_margin ttl c.safety_margin,
      rw (never, most) refl,
      rw (never, most) refl,
      omega arith,
      sum,
    )
