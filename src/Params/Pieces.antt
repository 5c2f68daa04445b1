-- ===== src/Params/Pieces.antt =====
-- src/params.rs: the pieces of a statement, their rendering, which is written independently of the walk
-- over the bytes, and the walk on their text.
use mcpg_plugin_backend_sql.Common.{
  ℕ, zero, suc, ◌+◌, ◌-◌, ◌<◌, ◌≤◌, ◌≡◌, ◌≢◌, refl, sym, ap, ◌∙◌, true, false, List, [], ◌∷◌, ◌++◌,
  some, All, length, arith, Text, append_assoc, append-nil, length-append,
}
use mcpg_plugin_backend_sql.Params.{
  DriverKind, Scan, is_name_byte, name_at, placeholder, round, walk, rewritten,
  rewrite_placeholders,
}
use mcpg_plugin_backend_sql.Params.Rounds.{
  outside, inside, round-plain, round-inside, round-open, round-close, round-cast, round-name,
}

-- A byte of code, a text in single quotes, a cast, and a placeholder with its name (of which the
-- first byte stands apart).
pub data Piece : Type 0 where
  plain : ℕ → Piece
  literal : Text → Piece
  cast : Piece
  named : ℕ → Text → Piece

-- The pieces as the operator writes them.
unfoldable pub source : List Piece → Text
source [] = []
source (plain c ∷ ps) = c ∷ source ps
source (literal t ∷ ps) = b'\'' ∷ (t ++ b'\'' ∷ source ps)
source (cast ∷ ps) = b':' ∷ b':' ∷ source ps
source (named c t ∷ ps) = b':' ∷ c ∷ (t ++ source ps)

-- The pieces as the driver gets them, the placeholders numbered on from n, and the names in order.
unfoldable pub render : DriverKind → ℕ → List Piece → Text
render d n [] = []
render d n (plain c ∷ ps) = c ∷ render d n ps
render d n (literal t ∷ ps) = b'\'' ∷ (t ++ b'\'' ∷ render d n ps)
render d n (cast ∷ ps) = b':' ∷ b':' ∷ render d n ps
render d n (named c t ∷ ps) = placeholder d n ++ render d (n + 1) ps

unfoldable pub names : List Piece → List Text
names [] = []
names (plain c ∷ ps) = names ps
names (literal t ∷ ps) = names ps
names (cast ∷ ps) = names ps
names (named c t ∷ ps) = (c ∷ t) ∷ names ps

-- No byte of a name in front.
abbrev pub Ends : Text → Type 0
Ends [] = Unit
Ends (c ∷ s) = is_name_byte c ≡ false

-- ASCII; code has no quote and no colon of its own, a literal no quote inside, and a name is whole.
abbrev pub Fits : List Piece → Type 0
Fits [] = Unit
Fits (plain c ∷ ps) = (c < 128) × (c ≢ b'\'') × (c ≢ b'"') × (c ≢ b':') × Fits ps
Fits (literal t ∷ ps) = All (λ c. (c < 128) × (c ≢ b'\'')) t × Fits ps
Fits (cast ∷ ps) = Fits ps
Fits (named c t ∷ ps) = All (λ c. is_name_byte c ≡ true) (c ∷ t) × Ends (source ps) × Fits ps

name_at-name :
    (name rest : Text)
    → All (λ c. is_name_byte c ≡ true) name
    → Ends rest
    → name_at (name ++ rest) ≡ (name, rest)
unfolding name_at
name_at-name [] [] a e = refl
name_at-name [] (c ∷ rest) a e = rw e refl
name_at-name (c ∷ name) rest a e = rw (a.0, name_at-name name rest a.1 e) refl

colon_is_no_name : is_name_byte b':' ≡ false
unfolding is_name_byte
colon_is_no_name = refl

not_colon : (c : ℕ) → is_name_byte c ≡ true → c ≢ b':'
not_colon c h e = absurd (ground (arith, ap is_name_byte e, colon_is_no_name))

walk-step :
    (d : DriverKind) (fuel c : ℕ) (rest after : Text) (s t : Scan)
    → round d c rest s ≡ (t, after)
    → walk d (suc fuel) (c ∷ rest) s ≡ walk d fuel after t
unfolding walk
walk-step d fuel c rest after s t h = ap (λ (x : Scan × Text). walk d fuel x.1 x.0) h

suc-add : (n m : ℕ) → suc n + m ≡ suc (n + m)
suc-add n m = omega arith

walk-literal :
    (d : DriverKind) (k : ℕ) (t rest out : Text) (order : List Text)
    → All (λ c. (c < 128) × (c ≢ b'\'')) t
    → walk d (length t + suc k) (t ++ b'\'' ∷ rest) (inside out order)
      ≡ walk d k rest (outside (out ++ (t ++ b'\'' ∷ [])) order)
walk-literal d k [] rest out order a =
    ap (λ n. walk d n (b'\'' ∷ rest) (inside out order)) (omega arith)
    ∙ walk-step d k b'\'' rest rest _ _ (round-close d out order rest)
walk-literal d k (c ∷ t) rest out order a =
    ap (λ n. walk d n (c ∷ (t ++ b'\'' ∷ rest)) (inside out order)) (suc-add (length t) (suc k))
    ∙ walk-step d (length t + suc k) c _ _ _ _ (round-inside d out order c _ a.0.0 a.0.1)
    ∙ walk-literal d k t rest (out ++ c ∷ []) order a.1
    ∙ ap (λ o. walk d k rest (outside o order)) (append_assoc out (c ∷ []) (t ++ b'\'' ∷ []))

walk_end : (d : DriverKind) (fuel : ℕ) (s : Scan) → walk d fuel [] s ≡ some s
unfolding walk
walk_end d zero s = refl
walk_end d (suc fuel) s = refl

source-positive : (p : Piece) (ps : List Piece) → 0 < length (source (p ∷ ps))
unfolding source
source-positive (plain c) ps = omega arith
source-positive (literal t) ps = omega arith
source-positive cast ps = omega arith
source-positive (named c t) ps = omega arith

assoc_literal :
    (out t s : Text) → out ++ b'\'' ∷ [] ++ (t ++ b'\'' ∷ []) ++ s ≡ out ++ b'\'' ∷ (t ++ b'\'' ∷ s)
assoc_literal out t s =
    append_assoc (out ++ b'\'' ∷ []) (t ++ b'\'' ∷ []) s
    ∙ append_assoc out (b'\'' ∷ []) (t ++ b'\'' ∷ [] ++ s)
    ∙ ap (λ r. out ++ b'\'' ∷ r) (append_assoc t (b'\'' ∷ []) s)

length_snoc : (order : List Text) (name : Text) → length (order ++ name ∷ []) ≡ length order + 1
length_snoc order name = length-append order (name ∷ [])

-- The state that the pieces leave.
abbrev after_pieces : DriverKind → Text → List Text → List Piece → Scan
after_pieces d out order ps = outside (out ++ render d (length order + 1) ps) (order ++ names ps)

walk-pieces :
    (d : DriverKind) (fuel : ℕ) (ps : List Piece) (out : Text) (order : List Text)
    → Fits ps
    → length (source ps) ≤ fuel
    → walk d fuel (source ps) (outside out order) ≡ some (after_pieces d out order ps)
unfolding source render names
walk-pieces d fuel [] out order f h =
    walk_end d fuel _
    ∙ ap (λ o. some (outside o order)) (sym (append-nil out))
    ∙ ap (λ o. some (outside (out ++ []) o)) (sym (append-nil order))
walk-pieces d zero (p ∷ ps) out order f h = absurd (omega (arith, source-positive p ps))
walk-pieces d (suc fuel) (plain c ∷ ps) out order f h =
    walk-step d fuel c _ _ _ _ (round-plain d out order c (source ps) f.0 f.1 f.2 f.3)
    ∙ walk-pieces d fuel ps (out ++ c ∷ []) order f.4 (omega arith)
    ∙ ap (λ o. some (outside o (order ++ names ps))) (append_assoc out (c ∷ []) _)
walk-pieces d (suc fuel) (literal t ∷ ps) out order f h =
    let k = fuel - suc (length t) in
    let enough : fuel ≡ length t + suc k = omega (arith, length-append t (b'\'' ∷ source ps)) in
    walk-step d fuel b'\'' _ _ _ _ (round-open d out order _)
    ∙ ap (λ n. walk d n (t ++ b'\'' ∷ source ps) (inside (out ++ b'\'' ∷ []) order)) enough
    ∙ walk-literal d k t (source ps) (out ++ b'\'' ∷ []) order f.0
    ∙ walk-pieces d k ps (out ++ b'\'' ∷ [] ++ (t ++ b'\'' ∷ [])) order f.1
        (omega (arith, length-append t (b'\'' ∷ source ps)))
    ∙ ap (λ o. some (outside o (order ++ names ps))) (assoc_literal out t _)
walk-pieces d (suc fuel) (cast ∷ ps) out order f h =
    walk-step d fuel b':' _ _ _ _ (round-cast d out order (source ps))
    ∙ walk-pieces d fuel ps (out ++ b':' ∷ b':' ∷ []) order f (omega arith)
    ∙ ap (λ o. some (outside o (order ++ names ps))) (append_assoc out (b':' ∷ b':' ∷ []) _)
walk-pieces d (suc fuel) (named c t ∷ ps) out order f h =
    walk-step d fuel b':' _ _ _ _ (
      round-name d out order c t (source ps) (not_colon c f.0.0)
        (name_at-name (c ∷ t) (source ps) f.0 f.1))
    ∙ walk-pieces d fuel ps (out ++ placeholder d (length order + 1)) (order ++ (c ∷ t) ∷ []) f.2
        (omega (arith, length-append t (source ps)))
    ∙ ap
        (λ n. some (
          outside (out ++ placeholder d (length order + 1) ++ render d (n + 1) ps)
            (order ++ (c ∷ t) ∷ [] ++ names ps)))
        (length_snoc order (c ∷ t))
    ∙ ap (λ o. some (outside o (order ++ (c ∷ t) ∷ [] ++ names ps))) (append_assoc out _ _)
    ∙ ap
        (λ o. some (
          outside (out ++ (placeholder d (length order + 1) ++ render d (length order + 1 + 1) ps))
            o))
        (append_assoc order ((c ∷ t) ∷ []) (names ps))

rewritten_lem :
    (d : DriverKind) (ps : List Piece)
    → rewritten (some (after_pieces d [] [] ps)) ≡ some (render d 1 ps, names ps)
unfolding rewritten
rewritten_lem d ps = refl

-- For pieces that fit (ASCII, names that end where the next piece begins, no quote or colon in code
-- nor quote in a literal), the rewriting, which walks the bytes once, ends, and is the rendering of the pieces: of code,
-- of literals in single quotes (whose colons stay), of casts and of named placeholders. Placeholders
-- are numbered from 1 in their order, and the names bound are the names written, in that order.
pub rewrite_placeholders-render :
    (d : DriverKind) (ps : List Piece)
    → Fits ps
    → rewrite_placeholders (source ps) d ≡ some (render d 1 ps, names ps)
unfolding rewrite_placeholders
rewrite_placeholders-render d ps f =
    ap rewritten (walk-pieces d (length (source ps)) ps [] [] f (omega arith)) ∙ rewritten_lem d ps
