-- ===== src/Changes/Waiting.antt =====
-- src/watch_changes.rs: the waits between failures.
use mcpg_plugin_backend_sql.Common.{
  ℕ, zero, suc, ◌+◌, ◌-◌, ◌^◌, ◌≤◌, ◌<◌, min, ◌≡◌, refl, ap, ◌⊎◌, inl, inr, some, arith,
}
use native.Mathlib.Nat.{pow-le-pow_right}
use mcpg_plugin_backend_sql.Changes.Rows.{get_elem?}
use mcpg_plugin_backend_sql.Changes.Poll.{backoff_delay, backoff_next, backoff_waits}

pow_ge : (n : ℕ) → 6 ≤ n → 64 ≤ 2 ^ n
pow_ge n h = pow-le-pow_right (omega arith) h

at_most_six : (n : ℕ) → (n ≤ 6) ⊎ (6 ≤ n)
at_most_six n = ground arith

first_six : (n : ℕ) → n ≤ 6 → min (min n (2 ^ 32 - 1)) 6 ≡ n
first_six n h = omega arith

beyond_six : (n : ℕ) → 6 ≤ n → min (min n (2 ^ 32 - 1)) 6 ≡ 6
beyond_six n h = omega arith

backoff_next-saturated : (a : ℕ) → backoff_next (min a (2 ^ 32 - 1)) ≡ min (a + 1) (2 ^ 32 - 1)
unfolding backoff_next
backoff_next-saturated a = omega arith

-- The counter stops growing long after the wait has.
backoff_delay-saturated : (n : ℕ) → backoff_delay (min n (2 ^ 32 - 1)) ≡ min (2 ^ n) 60
unfolding backoff_delay
backoff_delay-saturated n = elim (at_most_six n) [
  | inl low ↦ rw (first_six n low) refl
  | inr high ↦ rw (beyond_six n high) (omega (arith, pow_ge n high))
]

waits_from :
    (a i n : ℕ)
    → i < n
    → get_elem? i (backoff_waits (min a (2 ^ 32 - 1)) n) ≡ some (min (2 ^ (a + i)) 60)
unfolding get_elem? backoff_waits
waits_from a i zero h = absurd (omega arith)
waits_from a zero (suc n) h =
    let sum : a + 0 ≡ a = omega arith in rw sum (ap (λ d. some d) (backoff_delay-saturated a))
waits_from a (suc i) (suc n) h =
    let sum : a + suc i ≡ (a + 1) + i = omega arith in
    rw (backoff_next-saturated a, sum) (waits_from (a + 1) i n (omega arith))

-- However many failures there are in a row, the wait behind the failure number i, from 0, is of 2 to
-- the power i seconds, but at most 60.
pub backoff_waits-doubles :
    (i n : ℕ) → i < n → get_elem? i (backoff_waits 0 n) ≡ some (min (2 ^ i) 60)
backoff_waits-doubles i n h = let sum : 0 + i ≡ i = omega arith in rw sum at (waits_from 0 i n h)
