-- ===== src/Common/Bits.antt =====
-- `|` of two numbers that share no binary place, as a sum.
use Prim.Native.Nat.{
  ℕ, zero, suc, ◌+◌, ◌*◌, ◌/◌, ◌%◌, ◌^◌, ◌≤◌, ◌<◌, max, bit_or, digits, bit_or-bitwise,
}
use mathlib.Core.Path.{◌≡◌, refl, ap}
use native.Mathlib.Nat.{pow-suc}
use native.Mathlib.Omega.{arith}

abbrev or_places : ℕ → ℕ → ℕ → ℕ
or_places rounds a b = digits (λ b. b) max rounds a b

rounds_irrelevant : (m n a b : ℕ) → a ≤ m → a ≤ n → or_places m a b ≡ or_places n a b
rounds_irrelevant zero zero a b h k = refl
rounds_irrelevant zero (suc n) zero b h k = refl
rounds_irrelevant zero (suc n) (suc a) b h k = absurd (omega arith)
rounds_irrelevant (suc m) zero zero b h k = refl
rounds_irrelevant (suc m) zero (suc a) b h k = absurd (omega arith)
rounds_irrelevant (suc m) (suc n) zero b h k = refl
rounds_irrelevant (suc m) (suc n) (suc a) b h k =
    omega (arith, rounds_irrelevant m n (suc a / 2) (b / 2) (omega arith) (omega arith))

lowest_place : (x y : ℕ) → bit_or x y ≡ max (x % 2) (y % 2) + 2 * bit_or (x / 2) (y / 2)
lowest_place zero y = omega (arith, bit_or-bitwise 0 y, bit_or-bitwise 0 (y / 2))
lowest_place (suc x) y = omega (
  arith,
  bit_or-bitwise (suc x) y,
  bit_or-bitwise (suc x / 2) (y / 2),
  rounds_irrelevant x (suc x / 2) (suc x / 2) (y / 2) (omega arith) (omega arith),
)

or_nothing : (bound a : ℕ) → a ≤ bound → bit_or a 0 ≡ a
or_nothing bound zero h = refl
or_nothing zero (suc a) h = absurd (omega arith)
or_nothing (suc bound) (suc a) h =
    omega (arith, lowest_place (suc a) 0, or_nothing bound (suc a / 2) (omega arith))

pub bit_or-disjoint :
    (k high low : ℕ) → low < 2 ^ k → bit_or (high * 2 ^ k) low ≡ high * 2 ^ k + low
bit_or-disjoint zero high low h = ground (arith, or_nothing high high)
bit_or-disjoint (suc k) high low h = ground (
  arith,
  lowest_place (high * 2 ^ suc k) low,
  ap (λ (t : ℕ). high * t) (pow-suc 2 k),
  pow-suc 2 k,
  bit_or-disjoint k high (low / 2) (omega (arith, pow-suc 2 k)),
)
