-- ===== src/Guards/LeadIn.antt =====
-- src/config.rs: what `strip_leading_whitespace_and_comments` leaves, and what may stand in front of a
-- statement.
use mcpg_plugin_backend_sql.Common.{
  ℕ, zero, suc, ◌≤◌, ◌<◌, ◌≡◌, ◌≢◌, refl, sym, ap, ◌∙◌, true, false, ◌&&◌, ◌==◌, List, [], ◌∷◌,
  ◌++◌, Option, none, some, All, arith, Text, Bool-cases, inl, inr, length, text_eq,
}
use mcpg_plugin_backend_sql.Guards.{
  is_whitespace, trim_start, after_newline, after_close, Opening, line_comment, block_comment,
  code_text, opening, check_second, check_first, check_trimmed, is_one_of, blocked_leading,
  ddl_verbs, strip_loop, strip_leading_whitespace_and_comments, reject_privileged_ddl,
}
use mcpg_plugin_backend_sql.Guards.Comments.{
  trim_start-le, OpeningLe, opening-OpeningLe, again, after_opening, strip_loop-suc,
  strip_loop-agree, after_newline-lt, after_close-lt,
}

-- No blank and no comment in front.
pub record IsBare (t : Text) : Type 0 where
  pub no_blank : trim_start t ≡ t
  pub no_comment : opening t ≡ code_text t

trim_start_idem : (s : Text) → trim_start (trim_start s) ≡ trim_start s
unfolding trim_start
trim_start_idem [] = refl
trim_start_idem (c ∷ s) = elim (Bool-cases (is_whitespace c)) [
  | inl e ↦ rw e (trim_start_idem s)
  | inr e ↦ rw e (rw e refl)
]

IsBare-empty : IsBare []
unfolding trim_start opening
IsBare-empty = record { no_blank = refl; no_comment = refl }

again-Strips :
    (fuel n : ℕ) (o : Option Text)
    → ((t : Text) → length t < n → (r : Text) × (strip_loop fuel t ≡ some r) × IsBare r)
    → ((t : Text) → o ≡ some t → length t < n)
    → (r : Text) × (again (strip_loop fuel) o ≡ some r) × IsBare r
unfolding again
again-Strips fuel n none f l = ([], refl, IsBare-empty)
again-Strips fuel n (some t) f l = f t (l t refl)

after_opening-Strips :
    (fuel : ℕ) (s : Text) (o : Opening)
    → trim_start s ≡ s
    → opening s ≡ o
    → OpeningLe s o
    → ((t : Text) → length t < length s → (r : Text) × (strip_loop fuel t ≡ some r) × IsBare r)
    → (r : Text) × (after_opening (strip_loop fuel) o ≡ some r) × IsBare r
unfolding after_opening
after_opening-Strips fuel s (code_text t) b q l f =
    (t, refl, record { no_blank = ap trim_start l ∙ b ∙ sym l; no_comment = ap opening l ∙ q })
after_opening-Strips fuel s (line_comment t) b q l f =
    again-Strips fuel (length s) (after_newline t) f (λ r e. omega (arith, after_newline-lt t r e))
after_opening-Strips fuel s (block_comment t) b q l f =
    again-Strips fuel (length s) (after_close t) f (λ r e. omega (arith, after_close-lt t r e))

strip_loop-IsBare :
    (fuel : ℕ) (s : Text) → length s < fuel → (r : Text) × (strip_loop fuel s ≡ some r) × IsBare r
strip_loop-IsBare zero s h = absurd (omega arith)
strip_loop-IsBare (suc fuel) s h =
    let (r, e, bare) =
      after_opening-Strips fuel (trim_start s) (opening (trim_start s)) (trim_start_idem s) refl
        (opening-OpeningLe (trim_start s))
        (λ t l. strip_loop-IsBare fuel t (omega (arith, trim_start-le s))) in
    (r, strip_loop-suc fuel s ∙ e, bare)

-- The stripping always ends, and what it leaves begins with no blank and no comment.
pub strip-IsBare :
    (s : Text) → (r : Text) × (strip_leading_whitespace_and_comments s ≡ some r) × IsBare r
unfolding strip_leading_whitespace_and_comments
strip-IsBare s = strip_loop-IsBare (suc (length s)) s (omega arith)

-- What may stand in front of a statement: blanks, line comments and block comments.
pub data Lead : Type 0 where
  blank line block : Text → Lead

abbrev pub put_lead : Lead → Text → Text
put_lead (blank t) s = t ++ s
put_lead (line t) s = b'-' ∷ b'-' ∷ (t ++ 10 ∷ s)
put_lead (block t) s = b'/' ∷ b'*' ∷ (t ++ b'*' ∷ b'/' ∷ s)

-- No `*/` inside.
unfoldable pub NoClose : Text → Type 0
NoClose [] = Unit
NoClose (c ∷ []) = Unit
NoClose (c ∷ d ∷ t) = (((c == b'*') && (d == b'/')) ≡ false) × NoClose (d ∷ t)

-- A line comment has no line feed inside, a block comment no `*/`.
abbrev pub LeadFits : Lead → Type 0
LeadFits (blank t) = All (λ c. is_whitespace c ≡ true) t
LeadFits (line t) = All (λ c. c ≢ 10) t
LeadFits (block t) = NoClose t

trim_start-blank :
    (t s : Text) → All (λ c. is_whitespace c ≡ true) t → trim_start (t ++ s) ≡ trim_start s
unfolding trim_start
trim_start-blank [] s a = refl
trim_start-blank (c ∷ t) s a = rw a.0 (trim_start-blank t s a.1)

after_newline-line : (t s : Text) → All (λ c. c ≢ 10) t → after_newline (t ++ 10 ∷ s) ≡ some s
unfolding after_newline
after_newline-line [] s a = refl
after_newline-line (c ∷ t) s a = ground (arith, after_newline-line t s a.1, a.0)

star_is_no_slash : (c : ℕ) → ((c == b'*') && (b'*' == b'/')) ≡ false
star_is_no_slash c = ground arith

after_close-block : (t s : Text) → NoClose t → after_close (t ++ b'*' ∷ b'/' ∷ s) ≡ some s
unfolding after_close NoClose
after_close-block [] s a = refl
after_close-block (c ∷ []) s a = rw (star_is_no_slash c) refl
after_close-block (c ∷ d ∷ t) s a = rw a.0 (after_close-block (d ∷ t) s a.1)

length-append_le : (t s : Text) → length s ≤ length (t ++ s)
length-append_le [] s = omega arith
length-append_le (c ∷ t) s = omega (arith, length-append_le t s)

strip_loop-comment :
    (s t : Text) (o : Opening)
    → trim_start t ≡ t
    → opening t ≡ o
    → ((f : Text → Option Text) → after_opening f o ≡ f s)
    → length s < length t
    → strip_loop (suc (length t)) t ≡ strip_loop (suc (length s)) s
strip_loop-comment s t o b q e l =
    strip_loop-suc (length t) t
    ∙ ap (λ x. after_opening (strip_loop (length t)) (opening x)) b
    ∙ ap (after_opening (strip_loop (length t))) q
    ∙ e (strip_loop (length t))
    ∙ strip_loop-agree (length t) (suc (length s)) s l (omega arith)

not_blank : (t : Text) → trim_start (b'-' ∷ b'-' ∷ t) ≡ b'-' ∷ b'-' ∷ t
unfolding trim_start
not_blank t = refl

slash_not_blank : (t : Text) → trim_start (b'/' ∷ b'*' ∷ t) ≡ b'/' ∷ b'*' ∷ t
unfolding trim_start
slash_not_blank t = refl

line_opens : (t : Text) → opening (b'-' ∷ b'-' ∷ t) ≡ line_comment t
unfolding opening
line_opens t = refl

block_opens : (t : Text) → opening (b'/' ∷ b'*' ∷ t) ≡ block_comment t
unfolding opening
block_opens t = refl

strip-put_lead :
    (l : Lead) (s : Text)
    → LeadFits l
    → strip_leading_whitespace_and_comments (put_lead l s) ≡ strip_leading_whitespace_and_comments s
unfolding strip_leading_whitespace_and_comments after_opening again
strip-put_lead (blank t) s a =
    strip_loop-suc (length (t ++ s)) (t ++ s)
    ∙ ap (λ x. after_opening (strip_loop (length (t ++ s))) (opening x)) (trim_start-blank t s a)
    ∙ sym (strip_loop-suc (length (t ++ s)) s)
    ∙ strip_loop-agree (suc (length (t ++ s))) (suc (length s)) s
        (omega (arith, length-append_le t s)) (omega arith)
strip-put_lead (line t) s a =
    strip_loop-comment s (put_lead (line t) s) (line_comment (t ++ 10 ∷ s)) (not_blank _)
      (line_opens _) (λ f. ap (again f) (after_newline-line t s a) ∙ refl)
      (omega (arith, length-append_le t (10 ∷ s)))
strip-put_lead (block t) s a =
    strip_loop-comment s (put_lead (block t) s) (block_comment (t ++ b'*' ∷ b'/' ∷ s))
      (slash_not_blank _) (block_opens _) (λ f. ap (again f) (after_close-block t s a) ∙ refl)
      (omega (arith, length-append_le t (b'*' ∷ b'/' ∷ s)))

unfoldable pub put_leads : List Lead → Text → Text
put_leads [] s = s
put_leads (l ∷ ls) s = put_lead l (put_leads ls s)

strip-put_leads :
    (ls : List Lead) (s : Text)
    → All LeadFits ls
    → strip_leading_whitespace_and_comments (put_leads ls s)
      ≡ strip_leading_whitespace_and_comments s
unfolding put_leads
strip-put_leads [] s a = refl
strip-put_leads (l ∷ ls) s a = strip-put_lead l (put_leads ls s) a.0 ∙ strip-put_leads ls s a.1

-- Blanks, line comments and block comments (which end at their first `*/`), in front of a statement
-- and however many, do not change whether it is refused as privileged, nor the reason.
pub reject_privileged_ddl-put_leads :
    (ls : List Lead) (s : Text)
    → All LeadFits ls
    → reject_privileged_ddl (put_leads ls s) ≡ reject_privileged_ddl s
unfolding reject_privileged_ddl
reject_privileged_ddl-put_leads ls s a = ap check_trimmed (strip-put_leads ls s a)

check_second-returns : (first : Text) (o : Option Text) → o ≢ none → check_second first o ≢ none
unfolding check_second
check_second-returns first none h = absurd (h refl)
check_second-returns first (some rest) h = λ e. cc

strip_returns : (s : Text) → strip_leading_whitespace_and_comments s ≢ none
strip_returns s = let (r, e, bare) = strip-IsBare s in λ q. cc

check_first-returns : (first rest : Text) → check_first first rest ≢ none
unfolding check_first
check_first-returns first rest = elim (Bool-cases (text_eq first [])) [
  | inl a ↦ rw a (λ e. cc)
  | inr a ↦ elim (Bool-cases (is_one_of blocked_leading first)) [
    | inl b ↦ rw (a, b) (λ e. cc)
    | inr b ↦ elim (Bool-cases (is_one_of ddl_verbs first)) [
      | inl d ↦ rw (a, b, d) (check_second-returns first _ (strip_returns rest))
      | inr d ↦ rw (a, b, d) (λ e. cc)
    ]
  ]
]

check_trimmed-returns : (o : Option Text) → o ≢ none → check_trimmed o ≢ none
unfolding check_trimmed
check_trimmed-returns none h = absurd (h refl)
check_trimmed-returns (some t) h = check_first-returns _ _

-- The check of privileged words returns, whatever the text.
pub reject_privileged_ddl-returns : (s : Text) → reject_privileged_ddl s ≢ none
unfolding reject_privileged_ddl
reject_privileged_ddl-returns s = check_trimmed-returns _ (strip_returns s)
