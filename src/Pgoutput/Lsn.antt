-- ===== src/Pgoutput/Lsn.antt =====
-- src/pgoutput.rs: `lsn_text` and `parse_lsn`. `|` joins disjoint halves in a text that `lsn_text`
-- wrote; for any other text it is the bitwise or of the two numbers.
use Prim.Native.Nat.{bit_or}
use mcpg_plugin_backend_sql.Common.{
  ℕ, zero, suc, ◌*◌, ◌/◌, ◌%◌, ◌^◌, ◌<◌, ◌≡◌, ◌≢◌, refl, ap, [], ◌∷◌, ◌++◌, Option, none, some,
  arith, Text, All, Bool-cases, inl, inr, ◌==◌, if◌then◌else◌,
}
use mcpg_plugin_backend_sql.Common.Bits.{bit_or-disjoint}
use mcpg_plugin_backend_sql.Common.Radix.{digit_char, digits_onto, format, parse, parse-format}

unfoldable pub lsn_text : ℕ → Text
lsn_text lsn = format 16 (lsn / 2 ^ 32) ++ b'/' ∷ format 16 (lsn % 2 ^ 32)

-- `split_once('/')`.
unfoldable pub split_slash : Text → Option (Text × Text)
split_slash [] = none
split_slash (c ∷ s) =
    let rest = split_slash s in
    if c == b'/' then some ([], s) else elim rest [ none ↦ none | some (a, b) ↦ some (c ∷ a, b) ]

-- A shift of a u64 by 32 drops the bits above the word.
join_halves : Option ℕ → Option ℕ → Option ℕ
join_halves none low = none
join_halves (some high) none = none
join_halves (some high) (some low) = some (bit_or (high * 2 ^ 32 % 2 ^ 64) low)

parse_halves : Option (Text × Text) → Option ℕ
parse_halves none = none
parse_halves (some (high, low)) = join_halves (parse 16 (2 ^ 64) high) (parse 16 (2 ^ 64) low)

unfoldable pub parse_lsn : Text → Option ℕ
unfolding split_slash join_halves parse_halves
parse_lsn s = parse_halves (split_slash s)

-- No digit is the separator.
abbrev NoSlash : Text → Type 0
NoSlash = All (λ c. c ≢ b'/')

digit_char-ne-slash : (d : ℕ) → d < 16 → digit_char d ≢ b'/'
unfolding digit_char
digit_char-ne-slash d h = ground arith

NoSlash-digits_onto : (fuel n : ℕ) (s : Text) → NoSlash s → NoSlash (digits_onto 16 fuel n s)
unfolding digits_onto
NoSlash-digits_onto zero n s h = h
NoSlash-digits_onto (suc fuel) n s h = elim (Bool-cases (n == 0)) [
  | inl e ↦ rw e h
  | inr e ↦ rw e (
      NoSlash-digits_onto fuel (n / 16) (digit_char (n % 16) ∷ s)
        (digit_char-ne-slash (n % 16) (omega arith), h))
]

NoSlash-format : (n : ℕ) → NoSlash (format 16 n)
unfolding format
NoSlash-format n = elim (Bool-cases (n == 0)) [
  | inl e ↦ rw e ((λ p. ground arith), tt)
  | inr e ↦ rw e (NoSlash-digits_onto n n [] tt)
]

split_slash-append : (s rest : Text) → NoSlash s → split_slash (s ++ b'/' ∷ rest) ≡ some (s, rest)
unfolding split_slash
split_slash-append [] rest h = refl
split_slash-append (c ∷ s) rest h = ground (arith, split_slash-append s rest h.1)

-- Every 64-bit LSN, written as `X/Y`, parses back to itself.
pub parse_lsn-lsn_text : (lsn : ℕ) → lsn < 2 ^ 64 → parse_lsn (lsn_text lsn) ≡ some lsn
unfolding parse_lsn lsn_text
parse_lsn-lsn_text lsn h =
    rw
      (
        split_slash-append (format 16 (lsn / 2 ^ 32)) (format 16 (lsn % 2 ^ 32))
            (NoSlash-format (lsn / 2 ^ 32)),
        parse_halves,
        parse-format 16 (2 ^ 64) (omega arith) (omega arith) (lsn / 2 ^ 32) (omega arith),
        parse-format 16 (2 ^ 64) (omega arith) (omega arith) (lsn % 2 ^ 32) (omega arith),
        join_halves,
      )
      (ap some (ground (arith, bit_or-disjoint 32 (lsn / 2 ^ 32) (lsn % 2 ^ 32))))
