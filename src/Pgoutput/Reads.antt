-- ===== src/Pgoutput/Reads.antt =====
-- src/pgoutput.rs: what each read of `Reader` takes from the wire format of its value.
use native.Mathlib.Nat.{div-lt_iff_lt-mul, pow-suc}
use mcpg_plugin_backend_sql.Common.{
  ℕ, zero, suc, ◌+◌, ◌*◌, ◌/◌, ◌%◌, ◌^◌, ◌<◌, ◌≡◌, ◌≢◌, refl, ap, subst, ◌∙◌, List, [], ◌∷◌, ◌++◌,
  append_assoc, ok, length, length-append, take-length_append, drop-length_append, All, arith, Text,
  le→leb,
}
use mcpg_plugin_backend_sql.Common.Int.{ℤ, pos, of_word, to_word, Fits, of_word-to_word, to_word-lt}
use mcpg_plugin_backend_sql.Pgoutput.Bytes.{
  Reader, pure, ◌>>=◌, take_bytes, from_be, u8, u16, u32, i32, u64, i64, until_nul, string, repeat,
}
use mcpg_plugin_backend_sql.Pgoutput.Wire.{be, put_each, nul}

-- `p` reads exactly the bytes `bs` as `v`, whatever follows.
abbrev pub Reads : {A : Type 0} → Reader A → Text → A → Type 0
Reads p bs v = (r : Text) → p (bs ++ r) ≡ ok (v, r)

pub Reads-bind :
    {A B : Type 0} (p : Reader A) (f : A → Reader B) (xs ys : Text) (a : A) (b : B)
    → Reads p xs a
    → Reads (f a) ys b
    → Reads (p >>= f) (xs ++ ys) b
Reads-bind p f xs ys a b hp hf r = rw (append_assoc xs ys r) (rw (hp (ys ++ r), ◌>>=◌) (hf r))

pub Reads-pure : {A : Type 0} (a : A) → Reads (pure a) [] a
Reads-pure a r = refl

-- The last read of a message.
pub Reads-last :
    {A B : Type 0} (p : Reader A) (f : A → B) (xs : Text) (a : A)
    → Reads p xs a
    → Reads (p >>= λ x. pure (f x)) xs (f a)
Reads-last p f xs a hp r = rw (hp r, ◌>>=◌)

pub Reads-take : (bs : Text) → Reads (take_bytes (length bs)) bs bs
unfolding take_bytes
Reads-take bs r = rw (
  le→leb (length bs) (length (bs ++ r)) (omega (arith, length-append bs r)),
  take-length_append bs r,
  drop-length_append bs r,
)

-- A read of n bytes, given as many.
pub Reads-sized : (n : ℕ) (bs : Text) → length bs ≡ n → Reads (take_bytes n) bs bs
Reads-sized n bs h = subst (λ k. Reads (take_bytes k) bs bs) h (Reads-take bs)

pub length-be : (k n : ℕ) → length (be k n) ≡ k
unfolding be
length-be zero n = refl
length-be (suc k) n =
    omega (arith, length-append (be k (n / 256)) ((n % 256) ∷ []), length-be k (n / 256))

from_be-append : (acc : ℕ) (xs ys : Text) → from_be acc (xs ++ ys) ≡ from_be (from_be acc xs) ys
unfolding from_be
from_be-append acc [] ys = refl
from_be-append acc (x ∷ xs) ys = from_be-append (acc * 256 + x) xs ys

pub from_be-be : (k n : ℕ) → n < 256 ^ k → from_be 0 (be k n) ≡ n
unfolding be from_be
from_be-be zero n h = omega arith
from_be-be (suc k) n h =
    from_be-append 0 (be k (n / 256)) ((n % 256) ∷ [])
    ∙ omega (
      arith,
      from_be-be k (n / 256) (
          (div-lt_iff_lt-mul {k = 256} {x = n} {y = 256 ^ k} (omega arith)).1
            (subst (λ t. n < t) (pow-suc 256 k) h)),
    )

Reads-word : (k n : ℕ) → n < 256 ^ k → Reads (take_bytes k >>= λ bs. pure (from_be 0 bs)) (be k n) n
Reads-word k n h r =
    rw (Reads-sized k (be k n) (length-be k n) r, ◌>>=◌) (ap (λ v. ok (v, r)) (from_be-be k n h))

from_be-byte : (b : ℕ) → from_be 0 (b ∷ []) ≡ b
unfolding from_be
from_be-byte b = omega arith

pub Reads-u8 : (b : ℕ) → Reads u8 (b ∷ []) b
unfolding u8
Reads-u8 b r = rw (Reads-take (b ∷ []) r, ◌>>=◌) (ap (λ v. ok (v, r)) (from_be-byte b))

pub Reads-u16 : (n : ℕ) → n < 2 ^ 16 → Reads u16 (be 2 n) n
unfolding u16
Reads-u16 n h = Reads-word 2 n h

pub Reads-u32 : (n : ℕ) → n < 2 ^ 32 → Reads u32 (be 4 n) n
unfolding u32
Reads-u32 n h = Reads-word 4 n h

pub Reads-u64 : (n : ℕ) → n < 2 ^ 64 → Reads u64 (be 8 n) n
unfolding u64
Reads-u64 n h = Reads-word 8 n h

pub Reads-i64 : (z : ℤ) → Fits (2 ^ 63) z → Reads i64 (be 8 (to_word (2 ^ 63) z)) z
unfolding i64
Reads-i64 z h r =
    rw (Reads-sized 8 (be 8 w) (length-be 8 w) r, ◌>>=◌)
      (ap (λ v. ok (of_word (2 ^ 63) v, r)) (from_be-be 8 w (to_word-lt (2 ^ 63) z h))
        ∙ ap (λ v. ok (v, r)) (of_word-to_word (2 ^ 63) z h))
  where
    w : ℕ
    w = to_word (2 ^ 63) z

-- Any four bytes are an i32.
pub Reads-i32 : (n : ℕ) → n < 2 ^ 32 → Reads i32 (be 4 n) (of_word (2 ^ 31) n)
unfolding i32
Reads-i32 n h r =
    rw (Reads-sized 4 (be 4 n) (length-be 4 n) r, ◌>>=◌)
      (ap (λ v. ok (of_word (2 ^ 31) v, r)) (from_be-be 4 n h))

pub Reads-i32_pos : (n : ℕ) → n < 2 ^ 31 → Reads i32 (be 4 n) (pos n)
Reads-i32_pos n h =
    subst (λ z. Reads i32 (be 4 n) z) (of_word-to_word (2 ^ 31) (pos n) h)
      (Reads-i32 n (omega arith))

pub Reads-until_nul : (s : Text) → All (λ c. c ≢ 0) s → Reads until_nul (s ++ nul) s
unfolding until_nul
Reads-until_nul [] h r = refl
Reads-until_nul (c ∷ s) h r = ground (arith, Reads-until_nul s h.1 r)

pub Reads-string :
    (lossy : Text → Text) (s : Text)
    → (lossy s ≡ s) × All (λ c. c ≢ 0) s
    → Reads (string lossy) (s ++ nul) s
unfolding string
Reads-string lossy s h r = rw (Reads-until_nul s h.1 r, ◌>>=◌, h.0)

pub Reads-repeat :
    {A : Type 0} (p : Reader A) (put : A → Text) (P : A → Type 0) (xs : List A)
    → ((x : A) → P x → Reads p (put x) x)
    → All P xs
    → Reads (repeat (length xs) p) (put_each put xs) xs
unfolding repeat put_each
Reads-repeat p put P [] each h = Reads-pure []
Reads-repeat p put P (x ∷ xs) each h =
    Reads-bind p _ (put x) (put_each put xs) x (x ∷ xs) (each x h.0) (
      Reads-last (repeat (length xs) p) (λ ys. x ∷ ys) (put_each put xs) xs
        (Reads-repeat p put P xs each h.1))
