-- ===== src/Params/Rounds.antt =====
-- src/params.rs: the rounds of the walk of `rewrite_placeholders`, one lemma for each kind of byte.
use mcpg_plugin_backend_sql.Common.{
  ℕ, ◌+◌, ◌<◌, ◌≡◌, ◌≢◌, refl, Bool, true, false, ◌&&◌, List, [], ◌∷◌, ◌++◌, length, lt→ltb, ◌==◌,
  arith, Text,
}
use mcpg_plugin_backend_sql.Params.{
  DriverKind, Scan, push_char, name_at, placeholder, bind_name, colon, round,
}

ne-false : (a b : ℕ) → a ≢ b → (a == b) ≡ false
ne-false a b h = ground arith

and_false : (b : Bool) → (b && false) ≡ false
and_false true = refl
and_false false = refl

-- Outside quotes, and inside single quotes.
abbrev pub outside : Text → List Text → Scan
outside out order = record {
  out = out;
  order = order;
  in_single_quote = false;
  in_double_quote = false;
}

abbrev pub inside : Text → List Text → Scan
inside out order = record {
  out = out;
  order = order;
  in_single_quote = true;
  in_double_quote = false;
}

push_char-ascii : (c : ℕ) → c < 128 → push_char c ≡ c ∷ []
unfolding push_char
push_char-ascii c h = rw (lt→ltb c 128 h) refl

module _ (d : DriverKind) (out : Text) (order : List Text) where
  pub round-plain :
      (c : ℕ) (rest : Text)
      → c < 128
      → c ≢ b'\''
      → c ≢ b'"'
      → c ≢ b':'
      → round d c rest (outside out order) ≡ (outside (out ++ c ∷ []) order, rest)
  unfolding round
  round-plain c rest h a b e =
      rw (ne-false c 39 a, ne-false c 34 b, ne-false c 58 e, push_char-ascii c h) refl

  pub round-inside :
      (c : ℕ) (rest : Text)
      → c < 128
      → c ≢ b'\''
      → round d c rest (inside out order) ≡ (inside (out ++ c ∷ []) order, rest)
  unfolding round
  round-inside c rest h a =
      rw (ne-false c 39 a, and_false (c == 34), and_false (c == 58), push_char-ascii c h) refl

  pub round-open :
      (rest : Text)
      → round d b'\'' rest (outside out order) ≡ (inside (out ++ b'\'' ∷ []) order, rest)
  unfolding round
  round-open rest = refl

  pub round-close :
      (rest : Text)
      → round d b'\'' rest (inside out order) ≡ (outside (out ++ b'\'' ∷ []) order, rest)
  unfolding round
  round-close rest = refl

  pub round-cast :
      (rest : Text)
      → round d b':' (b':' ∷ rest) (outside out order)
        ≡ (outside (out ++ b':' ∷ b':' ∷ []) order, rest)
  unfolding round colon
  round-cast rest = refl

  pub round-name :
      (c : ℕ) (name rest : Text)
      → c ≢ b':'
      → name_at (c ∷ (name ++ rest)) ≡ (c ∷ name, rest)
      → round d b':' (c ∷ (name ++ rest)) (outside out order)
        ≡ (outside (out ++ placeholder d (length order + 1)) (order ++ (c ∷ name) ∷ []), rest)
  unfolding round colon bind_name
  round-name c name rest h e = rw (ne-false c 58 h, e) refl
