-- ===== src/Interval/Tests.antt =====
-- src/driver/interval.rs on concrete intervals.
use mcpg_plugin_backend_sql.Common.{◌≡◌, refl, codes, arith}
use mcpg_plugin_backend_sql.Common.Int.{pos, negsuc}
use mcpg_plugin_backend_sql.Common.Radix.{format, digits_onto, digit_char}
use mcpg_plugin_backend_sql.Interval.{
  pg_interval_to_iso8601, format_frac_micros, padded, trim_zeros, keep_digit, classify_sign,
  sign_of, sign_prefix, unsigned_body, part, time_part, seconds_part,
}
use mcpg_plugin_backend_sql.Interval.Reading.{frac_value, frac_value-format_frac_micros}

one_year :
    pg_interval_to_iso8601
      (record { months = pos 14; days = pos 3; microseconds = pos 14705006700 })
    ≡ codes "P1Y2M3DT4H5M5.0067S"
unfolding pg_interval_to_iso8601 classify_sign sign_of sign_prefix unsigned_body part time_part
    seconds_part format_frac_micros padded trim_zeros keep_digit format digits_onto digit_char
one_year = refl

back_a_day :
    pg_interval_to_iso8601 (record { months = pos 0; days = negsuc 0; microseconds = pos 0 })
    ≡ codes "-P1D"
unfolding pg_interval_to_iso8601 classify_sign sign_of sign_prefix unsigned_body part time_part
    format digits_onto digit_char
back_a_day = refl

frac_value-format_frac_micros_example : frac_value 6 (format_frac_micros 6700) ≡ 6700
frac_value-format_frac_micros_example = frac_value-format_frac_micros 6700 (omega arith)
