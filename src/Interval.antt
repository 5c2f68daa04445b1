-- ===== src/Interval.antt =====
-- src/driver/interval.rs: a PostgreSQL INTERVAL as an ISO 8601 duration. The components are signed
-- integers of 32, 32 and 64 bits; the warning about mixed signs is left out.
pub mod Reading
mod Tests
use mcpg_plugin_backend_sql.Common.{
  ℕ, zero, suc, ◌+◌, ◌*◌, ◌/◌, ◌%◌, Bool, true, false, not, ◌&&◌, ◌||◌, List, [], ◌∷◌, ◌++◌, ◌==◌,
  if◌then◌else◌, Text, codes,
}
use mcpg_plugin_backend_sql.Common.Int.{ℤ, pos, negsuc, unsigned_abs, is_negative}
use mcpg_plugin_backend_sql.Common.Radix.{format, digit_char}

pub record PgInterval : Type 0 where
  pub months : ℤ
  pub days : ℤ
  pub microseconds : ℤ

pub data Sign : Type 0 where
  positive negative mixed : Sign

abbrev pub is_positive : ℤ → Bool
is_positive (pos n) = not (n == 0)
is_positive (negsuc n) = false

unfoldable pub sign_of : (any_pos any_neg : Bool) → Sign
sign_of true true = mixed
sign_of false true = negative
sign_of true false = positive
sign_of false false = positive

unfoldable pub classify_sign : (months days micros : ℤ) → Sign
unfolding sign_of
classify_sign months days micros =
    sign_of (is_positive months || is_positive days || is_positive micros)
      (is_negative months || is_negative days || is_negative micros)

-- The k low decimal digits of n, with leading zeros: `{n:06}` at k = 6 for n below a million.
unfoldable pub padded : ℕ → ℕ → Text
padded zero n = []
padded (suc k) n = padded k (n / 10) ++ digit_char (n % 10) ∷ []

-- `while s.ends_with('0') { s.pop(); }`.
unfoldable pub keep_digit : ℕ → Text → Text
keep_digit c [] = if c == b'0' then [] else c ∷ []
keep_digit c (d ∷ ds) = c ∷ d ∷ ds

unfoldable pub trim_zeros : Text → Text
trim_zeros [] = []
trim_zeros (c ∷ s) = keep_digit c (trim_zeros s)

unfoldable pub format_frac_micros : ℕ → Text
format_frac_micros frac = trim_zeros (padded 6 frac)

-- A component with its designator, skipped at zero.
unfoldable pub part : ℕ → ℕ → Text
part n designator = if n == 0 then [] else format 10 n ++ designator ∷ []

unfoldable pub seconds_part : (seconds frac_micros : ℕ) → Text
seconds_part seconds frac =
    if (seconds == 0) && (frac == 0)
    then []
    else if frac == 0
    then format 10 seconds ++ b'S' ∷ []
    else format 10 seconds ++ b'.' ∷ (format_frac_micros frac ++ b'S' ∷ [])

unfoldable pub time_part : ℕ → Text
unfolding part seconds_part
time_part abs_micros =
    let total_secs = abs_micros / 1000000 in
    let rem_after_hours = total_secs % 3600 in
    if abs_micros == 0
    then []
    else b'T'
      ∷ (part (total_secs / 3600) b'H'
          ++ (part (rem_after_hours / 60) b'M'
              ++ seconds_part (rem_after_hours % 60) (abs_micros % 1000000)))

unfoldable pub sign_prefix : Sign → Text
sign_prefix negative = b'-' ∷ []
sign_prefix positive = []
sign_prefix mixed = []

unfoldable pub unsigned_body : (abs_months abs_days abs_micros : ℕ) → Text
unfolding part time_part
unsigned_body months days micros =
    b'P'
    ∷ (part (months / 12) b'Y' ++ (part (months % 12) b'M' ++ (part days b'D' ++ time_part micros)))

unfoldable pub pg_interval_to_iso8601 : PgInterval → Text
unfolding classify_sign sign_prefix unsigned_body
pg_interval_to_iso8601 iv =
    if (unsigned_abs iv.months == 0)
      && (unsigned_abs iv.days == 0)
      && (unsigned_abs iv.microseconds == 0)
    then codes "PT0S"
    else sign_prefix (classify_sign iv.months iv.days iv.microseconds)
      ++ unsigned_body (unsigned_abs iv.months) (unsigned_abs iv.days)
          (unsigned_abs iv.microseconds)
