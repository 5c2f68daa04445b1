-- ===== src/Common/Radix.antt =====
-- Numbers in a base, as `format!` writes them and `from_str_radix` reads them (a sign, at least one
-- digit, no overflow of the type).
use Prim.Native.Nat.{ℕ, zero, suc, ◌+◌, ◌-◌, ◌*◌, ◌/◌, ◌%◌, ◌≤◌, ◌<◌}
use mathlib.Core.Path.{◌≡◌, ap, ◌∙◌}
use mathlib.Core.Bool.{false, ◌&&◌}
use mathlib.Core.Logic.{◌⊎◌, ◌≢◌, inl, inr}
use mathlib.Core.List.{[], ◌∷◌}
use mathlib.Core.Option.{Option, none, some}
use native.Mathlib.Nat.{mod-lt, div-lt_self, div-add-mod'}
use native.Mathlib.Omega.{arith}
use mcpg_plugin_backend_sql.Common.Tests.{ltb, leb, ◌==◌, if◌then◌else◌, Bool-cases, lt→ltb}
use mcpg_plugin_backend_sql.Common.Texts.{Text}

-- The digit of a value below 16, in upper case.
unfoldable pub digit_char : ℕ → ℕ
digit_char d = if ltb d 10 then b'0' + d else b'A' + (d - 10)

-- `char::to_digit`.
unfoldable pub to_digit : ℕ → ℕ → Option ℕ
to_digit base c =
    let d =
      if leb b'0' c && leb c b'9'
      then c - b'0'
      else if leb b'A' c && leb c b'Z'
      then c - b'A' + 10
      else if leb b'a' c && leb c b'z'
      then c - b'a' + 10
      else base in
    if ltb d base then some d else none

-- The digits of n, above `out`; n rounds are enough, since each divides n.
unfoldable pub digits_onto : ℕ → ℕ → ℕ → Text → Text
digits_onto base zero n out = out
digits_onto base (suc fuel) n out =
    let rest = digits_onto base fuel (n / base) (digit_char (n % base) ∷ out) in
    if n == 0 then out else rest

unfoldable pub format : ℕ → ℕ → Text
unfolding digits_onto
format base n = if n == 0 then b'0' ∷ [] else digits_onto base n n []

-- The value of the digits, with the check of each product and sum against the type's size.
unfoldable pub scan : ℕ → ℕ → Text → ℕ → Option ℕ
scan base size [] n = some n
scan base size (c ∷ s) n = elim (to_digit base c) [
  | none ↦ none
  | some d ↦ if ltb (n * base + d) size then scan base size s (n * base + d) else none
]

scan_unsigned : ℕ → ℕ → Text → Option ℕ
scan_unsigned base size [] = none
scan_unsigned base size (c ∷ s) = scan base size (c ∷ s) 0

-- `u64::from_str_radix` at size 2 ^ 64: one leading `+` is accepted before a digit.
unfoldable pub parse : ℕ → ℕ → Text → Option ℕ
unfolding scan scan_unsigned
parse base size [] = none
parse base size (c ∷ s) =
    if c == b'+' then scan_unsigned base size s else scan_unsigned base size (c ∷ s)

pub to_digit-digit_char :
    (base d : ℕ) → d < base → base ≤ 16 → to_digit base (digit_char d) ≡ some d
unfolding to_digit digit_char
to_digit-digit_char base d h w = ground arith

to_digit-zero : (base : ℕ) → 2 ≤ base → to_digit base b'0' ≡ some 0
unfolding to_digit
to_digit-zero base h = ground arith

-- Not empty, and no sign in front.
abbrev HeadOk : Text → Type 0
HeadOk [] = ⊥
HeadOk (c ∷ s) = c ≢ b'+'

digit_char-ne-plus : (d : ℕ) → d < 16 → digit_char d ≢ b'+'
unfolding digit_char
digit_char-ne-plus d h = ground arith

parse_of_HeadOk : (base size : ℕ) (s : Text) → HeadOk s → parse base size s ≡ scan base size s 0
unfolding parse
parse_of_HeadOk base size [] h = absurd h
parse_of_HeadOk base size (c ∷ s) h = ground arith

module _ (base size : ℕ) (two : 2 ≤ base) (sixteen : base ≤ 16) where
  scan_digit :
      (n : ℕ) (s : Text)
      → n < size
      → scan base size (digit_char (n % base) ∷ s) (n / base) ≡ scan base size s n
  unfolding scan
  scan_digit n s h =
      rw (to_digit-digit_char base (n % base) (mod-lt n (omega arith)) sixteen, scan)
        (rw (div-add-mod' n base, lt→ltb n size h))

  shrinks : {n : ℕ} → (n == 0) ≡ false → n / base < n
  shrinks h = div-lt_self (ground arith) (omega arith)

  HeadOk-digits_onto :
      (fuel n : ℕ) (s : Text) → n ≤ fuel → (0 < n) ⊎ HeadOk s → HeadOk (digits_onto base fuel n s)
  unfolding digits_onto
  HeadOk-digits_onto zero n s h (inl p) = absurd (omega arith)
  HeadOk-digits_onto zero n s h (inr k) = k
  HeadOk-digits_onto (suc fuel) n s h k = elim (Bool-cases (n == 0)) [
    | inl e ↦ rw e (elim k [ inl p ↦ absurd (ground arith) | inr q ↦ q ])
    | inr e ↦ rw e (
        HeadOk-digits_onto fuel (n / base) (digit_char (n % base) ∷ s) (omega (arith, shrinks e))
          (inr (digit_char-ne-plus (n % base) (omega (arith, mod-lt n {m = base})))))
  ]

  pub scan-digits_onto :
      (fuel n : ℕ) (s : Text)
      → n ≤ fuel
      → n < size
      → scan base size (digits_onto base fuel n s) 0 ≡ scan base size s n
  unfolding digits_onto
  scan-digits_onto zero n s h k = ap (scan base size s) (omega arith)
  scan-digits_onto (suc fuel) n s h k = elim (Bool-cases (n == 0)) [
    | inl e ↦ rw e (ap (scan base size s) (ground arith))
    | inr e ↦ rw e (
        scan-digits_onto fuel (n / base) (digit_char (n % base) ∷ s) (omega (arith, shrinks e))
          (omega (arith, shrinks e))
        ∙ scan_digit n s k)
  ]

  -- What is written parses back, for every value of the type.
  pub parse-format : (n : ℕ) → n < size → parse base size (format base n) ≡ some n
  unfolding parse format
  parse-format n h = elim (Bool-cases (n == 0)) [
    | inl e ↦ rw e (rw (to_digit-zero base two, scan) (ground arith))
    | inr e ↦ rw e (
        parse_of_HeadOk base size _ (HeadOk-digits_onto n n [] (omega arith) (inl (ground arith)))
        ∙ scan-digits_onto n n [] (omega arith) h)
  ]
