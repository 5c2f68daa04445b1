-- ===== src/Common/Xor.antt =====
-- When `^` and `|` of two numbers are zero.
use Prim.Native.Nat.{
  ℕ, zero, suc, ◌/◌, ◌%◌, ◌≤◌, max, differ, bit_or, bit_xor, digits, bit_or-bitwise,
  bit_xor-bitwise,
}
use mathlib.Core.Path.{◌≡◌, refl, sym, ◌∙◌}
use native.Mathlib.Omega.{arith}

differ_zero : (a b : ℕ) → differ a b ≡ 0 → a ≡ b
differ_zero zero b h = sym h
differ_zero (suc a) zero h = h
differ_zero (suc a) (suc b) h = omega (arith, differ_zero a b h)

differ_self : (a : ℕ) → differ a a ≡ 0
differ_self zero = refl
differ_self (suc a) = differ_self a

abbrev xor_places : ℕ → ℕ → ℕ → ℕ
xor_places rounds a b = digits (λ b. b) differ rounds a b

abbrev or_places : ℕ → ℕ → ℕ → ℕ
or_places rounds a b = digits (λ b. b) max rounds a b

xor_places_zero : (n a b : ℕ) → a ≤ n → xor_places n a b ≡ 0 → a ≡ b
xor_places_zero zero a b h e = omega arith
xor_places_zero (suc n) zero b h e = sym e
xor_places_zero (suc n) (suc a) b h e =
    let high : suc a / 2 ≡ b / 2 =
      xor_places_zero n (suc a / 2) (b / 2) (omega arith) (omega arith) in
    let low : suc a % 2 ≡ b % 2 = differ_zero (suc a % 2) (b % 2) (omega arith) in omega arith

xor_places_self : (n a : ℕ) → a ≤ n → xor_places n a a ≡ 0
xor_places_self zero a h = omega arith
xor_places_self (suc n) zero h = refl
xor_places_self (suc n) (suc a) h =
    omega (arith, xor_places_self n (suc a / 2) (omega arith), differ_self (suc a % 2))

or_places_zero : (n a b : ℕ) → a ≤ n → or_places n a b ≡ 0 → (a ≡ 0) × (b ≡ 0)
or_places_zero zero a b h e = (omega arith, e)
or_places_zero (suc n) zero b h e = (refl, e)
or_places_zero (suc n) (suc a) b h e =
    let (x, y) = or_places_zero n (suc a / 2) (b / 2) (omega arith) (omega arith) in
    (omega arith, omega arith)

pub bit_xor_zero : (a b : ℕ) → bit_xor a b ≡ 0 → a ≡ b
bit_xor_zero a b h = xor_places_zero a a b (omega arith) (sym (bit_xor-bitwise a b) ∙ h)

pub bit_xor_self : (a : ℕ) → bit_xor a a ≡ 0
bit_xor_self a = bit_xor-bitwise a a ∙ xor_places_self a a (omega arith)

pub bit_or_zero : (a b : ℕ) → bit_or a b ≡ 0 → (a ≡ 0) × (b ≡ 0)
bit_or_zero a b h = or_places_zero a a b (omega arith) (sym (bit_or-bitwise a b) ∙ h)
