-- ===== src/Redact/Passwords.antt =====
-- src/redact.rs: the split of a token, what takes the place of a URL, and a second pass.
use mcpg_plugin_backend_sql.Common.{
  ℕ, ◌≡◌, refl, ap, ◌⊎◌, inl, inr, Bool, true, false, [], ◌∷◌, ◌++◌, Option, none, some, all, Text,
}
use mcpg_plugin_backend_sql.Redact.{
  UrlLibrary, Cow, borrowed, owned, mask, is_punct, in_front, split_trailing_punct, replaced,
  with_password, redact_parsed, redact_password,
}

unfoldable pub ends_in_punct : Text → Bool
ends_in_punct [] = false
ends_in_punct (c ∷ []) = is_punct c
ends_in_punct (c ∷ d ∷ s) = ends_in_punct (d ∷ s)

-- A text in two parts, the second punctuation, the first not ending in it.
pub record SplitOf (tok : Text) (parts : Text × Text) : Type 0 where
  pub whole : (parts.0 ++ parts.1) ≡ tok
  pub trail_is_punct : all is_punct parts.1 ≡ true
  pub core_ends : ends_in_punct parts.0 ≡ false

in_front-SplitOf :
    (c : ℕ) (s : Text) (parts : Text × Text) (p : Bool)
    → is_punct c ≡ p
    → SplitOf s parts
    → SplitOf (c ∷ s) (in_front c parts p)
unfolding in_front ends_in_punct
in_front-SplitOf c s ([], trail) true h w = record {
  whole = ap (λ r. c ∷ r) w.whole;
  trail_is_punct = rw (h, w.trail_is_punct) refl;
  core_ends = refl;
}
in_front-SplitOf c s ([], trail) false h w = record {
  whole = ap (λ r. c ∷ r) w.whole;
  trail_is_punct = w.trail_is_punct;
  core_ends = h;
}
in_front-SplitOf c s (d ∷ core, trail) p h w = record {
  whole = ap (λ r. c ∷ r) w.whole;
  trail_is_punct = w.trail_is_punct;
  core_ends = w.core_ends;
}

-- A token is split behind its last byte that is not punctuation.
pub split_trailing_punct-SplitOf : (tok : Text) → SplitOf tok (split_trailing_punct tok)
unfolding split_trailing_punct ends_in_punct
split_trailing_punct-SplitOf [] = record { whole = refl; trail_is_punct = refl; core_ends = refl }
split_trailing_punct-SplitOf (c ∷ s) =
    in_front-SplitOf c s (split_trailing_punct s) (is_punct c) refl (split_trailing_punct-SplitOf s)

module _ (url : UrlLibrary) where
  -- What the `url` crate documents: the text of a URL parses to it; and the mask, none of whose
  -- characters is escaped, is the password once it is set, and setting it again changes nothing.
  pub record Documented : Type 0 where
    pub parse-to_text : (u : url.Url) → url.parse (url.to_text u) ≡ some u
    pub password-set_password :
        (u v : url.Url) → url.set_password mask u ≡ some v → url.password v ≡ some mask
    pub set_password_again :
        (u v : url.Url) → url.set_password mask u ≡ some v → url.set_password mask v ≡ some v

  -- A masked text is that of a URL whose password is the mask.
  pub record Masked (c : Cow) : Type 0 where
    pub masked : url.Url
    pub here : c ≡ owned (url.to_text masked)
    pub password : url.password masked ≡ some mask
    pub again : url.set_password mask masked ≡ some masked

  replaced-Masked :
      Documented
      → (s : Text) (u : url.Url) (o : Option url.Url) → url.set_password mask u ≡ o
      → (replaced url s o ≡ borrowed s) ⊎ Masked (replaced url s o)
  unfolding replaced
  replaced-Masked d s u none h = inl refl
  replaced-Masked d s u (some v) h = inr (record {
    masked = v;
    here = refl;
    password = d.password-set_password u v h;
    again = d.set_password_again u v h;
  })

  with_password-Masked :
      Documented
      → (s : Text) (u : url.Url) (o : Option Text)
      → (with_password url s u o ≡ borrowed s) ⊎ Masked (with_password url s u o)
  unfolding with_password
  with_password-Masked d s u none = inl refl
  with_password-Masked d s u (some []) = inl refl
  with_password-Masked d s u (some (c ∷ pw)) = replaced-Masked d s u (url.set_password mask u) refl

  redact_parsed-Masked :
      Documented
      → (s : Text) (o : Option url.Url)
      → (redact_parsed url s o ≡ borrowed s) ⊎ Masked (redact_parsed url s o)
  unfolding redact_parsed
  redact_parsed-Masked d s none = inl refl
  redact_parsed-Masked d s (some u) = with_password-Masked d s u (url.password u)

  -- Where the `url` crate does what it documents, a text is left as it was, or it is replaced by the
  -- text of a URL whose password is the mask.
  pub redact_password-Masked :
      Documented
      → (s : Text) → (redact_password url s ≡ borrowed s) ⊎ Masked (redact_password url s)
  unfolding redact_password
  redact_password-Masked d s = redact_parsed-Masked d s (url.parse s)
