-- ===== src/Interval/Reading.antt =====
-- src/driver/interval.rs: the value of the fraction of a second that is written.
use mcpg_plugin_backend_sql.Common.{
  ℕ, zero, suc, ◌+◌, ◌-◌, ◌*◌, ◌/◌, ◌%◌, ◌^◌, ◌<◌, ◌≡◌, refl, ap, ◌∙◌, inl, inr, true, [], ◌∷◌,
  ◌++◌, ◌==◌, arith, Text, length, length-append, Bool-cases,
}
use native.Mathlib.Nat.{pow-suc, mod-lt}
use mcpg_plugin_backend_sql.Common.Radix.{digit_char}
use mcpg_plugin_backend_sql.Interval.{padded, keep_digit, trim_zeros, format_frac_micros}

==→eq : (a b : ℕ) → (a == b) ≡ true → a ≡ b
==→eq a b h = ground arith

-- The value of digits behind a decimal point, in units of the k-th place.
unfoldable pub frac_value : ℕ → Text → ℕ
frac_value k [] = 0
frac_value zero (c ∷ s) = 0
frac_value (suc k) (c ∷ s) = (c - b'0') * 10 ^ k + frac_value k s

frac_value-snoc :
    (k : ℕ) (s : Text) (c : ℕ)
    → length s ≡ k
    → frac_value (suc k) (s ++ c ∷ []) ≡ frac_value k s * 10 + (c - b'0')
unfolding frac_value
frac_value-snoc zero [] c h = omega arith
frac_value-snoc (suc k) [] c h = absurd (omega arith)
frac_value-snoc zero (b ∷ s) c h = absurd (omega arith)
frac_value-snoc (suc k) (b ∷ s) c h =
    omega
      (arith, frac_value-snoc k s c (omega arith), ap (λ (t : ℕ). (b - b'0') * t) (pow-suc 10 k))

length-padded : (k n : ℕ) → length (padded k n) ≡ k
unfolding padded
length-padded zero n = refl
length-padded (suc k) n =
    omega (
      arith,
      length-append (padded k (n / 10)) (digit_char (n % 10) ∷ []),
      length-padded k (n / 10),
    )

digit_value : (d : ℕ) → d < 10 → digit_char d - b'0' ≡ d
unfolding digit_char
digit_value d h = ground arith

frac_value-padded : (k n : ℕ) → n < 10 ^ k → frac_value k (padded k n) ≡ n
unfolding padded frac_value
frac_value-padded zero n h = omega arith
frac_value-padded (suc k) n h =
    frac_value-snoc k (padded k (n / 10)) (digit_char (n % 10)) (length-padded k (n / 10))
    ∙ omega (
      arith,
      frac_value-padded k (n / 10) (omega (arith, pow-suc 10 k)),
      digit_value (n % 10) (mod-lt n (omega arith)),
    )

frac_value-keep_digit : (k c : ℕ) (s : Text) → frac_value k (keep_digit c s) ≡ frac_value k (c ∷ s)
unfolding frac_value keep_digit
frac_value-keep_digit k c (d ∷ s) = refl
frac_value-keep_digit zero c [] = elim (Bool-cases (c == b'0')) [
  | inl e ↦ rw e refl
  | inr e ↦ rw e refl
]
frac_value-keep_digit (suc k) c [] = elim (Bool-cases (c == b'0')) [
  | inl e ↦ rw e (omega (arith, ap (λ n. (n - b'0') * 10 ^ k) (==→eq c b'0' e)))
  | inr e ↦ rw e refl
]

frac_value-cons :
    (k c : ℕ) (s t : Text)
    → ((n : ℕ) → frac_value n s ≡ frac_value n t)
    → frac_value k (c ∷ s) ≡ frac_value k (c ∷ t)
unfolding frac_value
frac_value-cons zero c s t h = refl
frac_value-cons (suc k) c s t h = omega (arith, h k)

frac_value-trim_zeros : (k : ℕ) (s : Text) → frac_value k (trim_zeros s) ≡ frac_value k s
unfolding trim_zeros
frac_value-trim_zeros k [] = refl
frac_value-trim_zeros k (c ∷ s) =
    frac_value-keep_digit k c (trim_zeros s)
    ∙ frac_value-cons k c (trim_zeros s) s (λ n. frac_value-trim_zeros n s)

-- The fraction of a second that is written, its trailing zeros cut, is worth the microseconds that
-- it stands for.
pub frac_value-format_frac_micros :
    (frac : ℕ) → frac < 1000000 → frac_value 6 (format_frac_micros frac) ≡ frac
unfolding format_frac_micros
frac_value-format_frac_micros frac h =
    frac_value-trim_zeros 6 (padded 6 frac) ∙ frac_value-padded 6 frac h
