-- ===== src/Common/Int.antt =====
-- Signed integers over the native numbers, and the two's complement reading of a machine word.
use Prim.Native.Nat.{ℕ, suc, ◌*◌, ◌-◌, ◌<◌}
use mathlib.Core.Path.{◌≡◌}
use mathlib.Core.Bool.{Bool, true, false}
use native.Mathlib.Omega.{arith}
use mcpg_plugin_backend_sql.Common.Tests.{ltb, if◌then◌else◌}

-- `negsuc n` is -(n + 1).
pub data ℤ : Type 0 where
  pos : ℕ → ℤ
  negsuc : ℕ → ℤ

-- `unsigned_abs`.
abbrev pub unsigned_abs : ℤ → ℕ
unsigned_abs (pos n) = n
unsigned_abs (negsuc n) = suc n

abbrev pub is_negative : ℤ → Bool
is_negative (pos n) = false
is_negative (negsuc n) = true

-- The signed value of the word `u` below `2 * half`, and the word of a signed value.
abbrev pub of_word : ℕ → ℕ → ℤ
of_word half u = if ltb u half then pos u else negsuc (2 * half - 1 - u)

abbrev pub to_word : ℕ → ℤ → ℕ
to_word half (pos n) = n
to_word half (negsuc n) = 2 * half - 1 - n

-- The values of the signed type with that many values on each side of zero.
abbrev pub Fits : ℕ → ℤ → Type 0
Fits half (pos n) = n < half
Fits half (negsuc n) = n < half

pub of_word-to_word : (half : ℕ) (z : ℤ) → Fits half z → of_word half (to_word half z) ≡ z
of_word-to_word half (pos n) h = ground arith
of_word-to_word half (negsuc n) h = ground arith

pub to_word-lt : (half : ℕ) (z : ℤ) → Fits half z → to_word half z < 2 * half
to_word-lt half (pos n) h = omega arith
to_word-lt half (negsuc n) h = omega arith
