-- ===== src/Guards/Comments.antt =====
-- src/config.rs: the blanks and comments in front of a statement, and the check of privileged words
-- behind them.
use mcpg_plugin_backend_sql.Common.{
  ℕ, zero, suc, ◌≤◌, ◌<◌, ◌≡◌, refl, ◌&&◌, [], ◌∷◌, Option, none, some, ◌==◌, arith, Text,
  Bool-cases, inl, inr, length,
}
use mcpg_plugin_backend_sql.Guards.{
  trim_start, after_newline, after_close, Opening, line_comment, block_comment, code_text, opening,
  strip_loop,
}

pub trim_start-le : (s : Text) → length (trim_start s) ≤ length s
unfolding trim_start
trim_start-le [] = omega arith
trim_start-le (c ∷ s) = ground (arith, trim_start-le s)

pub after_newline-lt : (s t : Text) → after_newline s ≡ some t → length t < length s
unfolding after_newline
after_newline-lt [] t h = absurd cc
after_newline-lt (c ∷ s) t h = ground (arith, after_newline-lt s t)

pub after_close-lt : (s t : Text) → after_close s ≡ some t → length t < length s
unfolding after_close
after_close-lt [] t h = absurd cc
after_close-lt (c ∷ []) t h = absurd cc
after_close-lt (c ∷ d ∷ s) t h = ground (arith, after_close-lt (d ∷ s) t)

-- The text behind the opening of a comment is shorter.
abbrev pub OpeningLe : Text → Opening → Type 0
OpeningLe s (line_comment t) = length t ≤ length s
OpeningLe s (block_comment t) = length t ≤ length s
OpeningLe s (code_text t) = t ≡ s

pub opening-OpeningLe : (s : Text) → OpeningLe s (opening s)
unfolding opening
opening-OpeningLe [] = refl
opening-OpeningLe (c ∷ []) = refl
opening-OpeningLe (c ∷ d ∷ s) = elim (Bool-cases ((c == b'-') && (d == b'-'))) [
  | inl e ↦ rw e (omega arith)
  | inr e ↦ elim (Bool-cases ((c == b'/') && (d == b'*'))) [
    | inl f ↦ rw (e, f) (omega arith)
    | inr f ↦ rw (e, f) refl
  ]
]

-- What is left behind a comment's end, stripped again.
unfoldable pub again : (Text → Option Text) → Option Text → Option Text
again f none = some []
again f (some t) = f t

unfoldable pub after_opening : (Text → Option Text) → Opening → Option Text
after_opening f (code_text t) = some t
after_opening f (line_comment t) = again f (after_newline t)
after_opening f (block_comment t) = again f (after_close t)

pub strip_loop-suc :
    (fuel : ℕ) (s : Text)
    → strip_loop (suc fuel) s ≡ after_opening (strip_loop fuel) (opening (trim_start s))
unfolding strip_loop after_opening again
strip_loop-suc fuel s = refl

again-agree :
    (f g : Text → Option Text) (n : ℕ) (o : Option Text)
    → ((t : Text) → length t < n → f t ≡ g t)
    → ((t : Text) → o ≡ some t → length t < n)
    → again f o ≡ again g o
unfolding again
again-agree f g n none e l = refl
again-agree f g n (some t) e l = e t (l t refl)

after_opening-agree :
    (f g : Text → Option Text) (s : Text) (o : Opening)
    → OpeningLe s o
    → ((t : Text) → length t < length s → f t ≡ g t)
    → after_opening f o ≡ after_opening g o
unfolding after_opening
after_opening-agree f g s (code_text t) l e = refl
after_opening-agree f g s (line_comment t) l e =
    again-agree f g (length s) (after_newline t) e (λ r q. omega (arith, after_newline-lt t r q))
after_opening-agree f g s (block_comment t) l e =
    again-agree f g (length s) (after_close t) e (λ r q. omega (arith, after_close-lt t r q))

-- Any two fuels above the length give the same result.
pub strip_loop-agree :
    (a b : ℕ) (s : Text) → length s < a → length s < b → strip_loop a s ≡ strip_loop b s
strip_loop-agree zero b s h k = absurd (omega arith)
strip_loop-agree (suc a) zero s h k = absurd (omega arith)
strip_loop-agree (suc a) (suc b) s h k =
    rw (strip_loop-suc a s, strip_loop-suc b s)
      (after_opening-agree (strip_loop a) (strip_loop b) (trim_start s) (opening (trim_start s))
        (opening-OpeningLe (trim_start s))
        (λ t l.
          strip_loop-agree a b t (omega (arith, trim_start-le s)) (omega (arith, trim_start-le s))))
