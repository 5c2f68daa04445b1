-- ===== src/Streams/Sealed.antt =====
-- src/stream.rs: what a token must have for `decode_cursor` to accept it.
use mcpg_plugin_backend_sql.Common.{
  ℕ, ◌≡◌, ◌≢◌, refl, sym, ap, ◌∙◌, subst, inl, inr, Bool, true, false, [], ◌∷◌, ◌++◌, Option, none,
  some, ◌==◌, ==_iff, if◌then◌else◌, Text, Bool-cases, Option-cases,
}
use mcpg_plugin_backend_sql.Common.Options.{bind-some}
use mcpg_plugin_backend_sql.Streams.{
  StreamCursorPayload, Codec, split_once, strip_prefix, constant_time_eq, open_payload, check_mac,
  decode_cursor,
}
use mcpg_plugin_backend_sql.Streams.Tokens.{constant_time_eq_iff}

if-some :
    {A : Type 0} (b : Bool) (o : Option A) (a : A)
    → (if b then o else none) ≡ some a
    → (b ≡ true) × (o ≡ some a)
if-some true o a h = (refl, h)
if-some false o a h = absurd cc

strip_prefix-some : (t body : Text) → strip_prefix t ≡ some body → t ≡ b's' ∷ b'.' ∷ body
unfolding strip_prefix
strip_prefix-some [] body h = absurd cc
strip_prefix-some (c ∷ []) body h = absurd cc
strip_prefix-some (c ∷ d ∷ s) body h =
    let (first, rest) = if-some (c == b's') (if d == b'.' then some s else none) body h in
    let (second, last) = if-some (d == b'.') (some s) body rest in
    let e : c ≡ b's' = (==_iff c b's').0 first in
    let f : d ≡ b'.' = (==_iff d b'.').0 second in let g : s ≡ body = cc in cc

split_once-dot_first : (c : ℕ) (s : Text) → (c == b'.') ≡ true → split_once (c ∷ s) ≡ some ([], s)
unfolding split_once
split_once-dot_first c s e = rw (e, split_once) refl

abbrev front_of : Option (Text × Text) → Text
front_of none = []
front_of (some (x, y)) = x

abbrev back_of : Option (Text × Text) → Text
back_of none = []
back_of (some (x, y)) = y

split_once-later :
    (c : ℕ) (s a b : Text)
    → (c == b'.') ≡ false
    → split_once (c ∷ s) ≡ some (a, b)
    → (front : Text) × (split_once s ≡ some (front, b)) × (a ≡ c ∷ front)
unfolding split_once
split_once-later c s a b e h = elim (Option-cases (split_once s)) [
  | inl none_left ↦ absurd (none-some (rw (none_left, e) at h))
  | inr ((front, back), found) ↦
      let same : some (c ∷ front, back) ≡ some (a, b) = rw (found, e) at h in
      let left : a ≡ c ∷ front = sym (ap front_of same) in
      let right : back ≡ b = ap back_of same in
      (front, found ∙ ap (λ x. some (front, x)) right, left)
]
  where
    none-some : {A : Type 0} {x : A} → none ≡ some x → ⊥
    none-some q = cc

split_once_nil : (a b : Text) → split_once [] ≢ some (a, b)
unfolding split_once
split_once_nil a b h = cc

split_once-some : (s a b : Text) → split_once s ≡ some (a, b) → s ≡ a ++ b'.' ∷ b
split_once-some [] a b h = absurd (split_once_nil a b h)
split_once-some (c ∷ s) a b h = elim (Bool-cases (c == b'.')) [
  | inl e ↦
      let dot : c ≡ b'.' = (==_iff c b'.').0 e in
      let same : some ([], s) ≡ some (a, b) = sym (split_once-dot_first c s e) ∙ h in
      let left : [] ≡ a = ap front_of same in let right : s ≡ b = ap back_of same in cc
  | inr e ↦
      let (front, found, left) = split_once-later c s a b e h in
      rw left (ap (λ x. c ∷ x) (split_once-some s front b found))
]

module _ (codec : Codec) where
  -- The parts of an accepted token: its payload is under its MAC, and of version 1.
  pub record Sealed (token key : Text) (p : StreamCursorPayload codec.Value) : Type 0 where
    pub payload_b64 : Text
    pub mac_b64 : Text
    pub parts : token ≡ b's' ∷ b'.' ∷ (payload_b64 ++ b'.' ∷ mac_b64)
    pub under_mac : codec.decode_b64 mac_b64 ≡ some (codec.mac payload_b64 key)
    pub json : Text
    pub decoded : codec.decode_b64 payload_b64 ≡ some json
    pub read : codec.from_slice json ≡ some p
    pub version : p.version ≡ 1

  open_payload-some :
      (s : Text) (p : StreamCursorPayload codec.Value)
      → open_payload codec s ≡ some p
      → (json : Text) × (codec.decode_b64 s ≡ some json)
        × (codec.from_slice json ≡ some p)
        × (p.version ≡ 1)
  unfolding open_payload
  open_payload-some s p h =
      let (json, decoded, rest) = bind-some (codec.decode_b64 s) _ p h in
      let (q, read, last) = bind-some (codec.from_slice json) _ p rest in
      let (one, same) = if-some (q.version == 1) (some q) p last in
      let e : q ≡ p = cc in
      (
        json,
        decoded,
        subst (λ x. codec.from_slice json ≡ some x) e read,
        subst (λ x. x.version ≡ 1) e ((==_iff q.version 1).0 one),
      )

  -- A token that `decode_cursor` accepts has its two parts behind the prefix, the second is the MAC of
  -- the first under the key, and the first is a payload of version 1, which is the one returned.
  pub decode_cursor-Sealed :
      (token key : Text) (p : StreamCursorPayload codec.Value)
      → decode_cursor codec token key ≡ some p
      → Sealed token key p
  unfolding decode_cursor check_mac
  decode_cursor-Sealed token key p h =
      let (body, a, rest) = bind-some (strip_prefix token) _ p h in
      let (parts, b, rest) = bind-some (split_once body) _ p rest in
      let (actual, c, rest) = bind-some (codec.decode_b64 parts.1) _ p rest in
      let (same, opened) =
        if-some (constant_time_eq (codec.mac parts.0 key) actual) (open_payload codec parts.0) p
          rest in
      let (json, decoded, read, version) = open_payload-some parts.0 p opened in
      record {
        payload_b64 = parts.0;
        mac_b64 = parts.1;
        parts =
            strip_prefix-some token body a
            ∙ ap (λ x. b's' ∷ b'.' ∷ x) (split_once-some body parts.0 parts.1 b);
        under_mac =
            c
            ∙ ap (λ x. some x) (sym ((constant_time_eq_iff (codec.mac parts.0 key) actual).0 same));
        json = json;
        decoded = decoded;
        read = read;
        version = version;
      }
