-- ===== src/Shaping/Contents.antt =====
-- src/lib.rs: what the contents of a resource are made of.
use mcpg_plugin_backend_sql.Common.{
  ℕ, ◌+◌, ◌≡◌, refl, ◌∙◌, subst, ◌⊎◌, inl, inr, false, List, [], ◌∷◌, Option, none, some, Result,
  ok, err, Text, codes, text_eq, text_eq_self,
}
use mcpg_plugin_backend_sql.Common.TextMaps.{lookup, insert, lookup-insert}
use mcpg_plugin_backend_sql.Shaping.{
  Json, ShapeError, Object, get_str, not_null, with_mime_type, content, content_entry, content_of,
  contents_from,
}

module _ (json : Json) where
  -- The row has a URI and one of a text and a blob, and its entry has them.
  pub record Entry (obj entry : Object json) : Type 0 where
    pub uri : Text
    pub has_uri : get_str json (codes "uri") obj ≡ some uri
    pub entry_uri : lookup (codes "uri") entry ≡ some (json.of_text uri)
    pub one :
        ((v : json.Value) × (not_null json (lookup (codes "text") obj) ≡ some v)
          × (not_null json (lookup (codes "blob") obj) ≡ none)
          × (lookup (codes "text") entry ≡ some v)
          × (lookup (codes "blob") entry ≡ none))
        ⊎ ((v : json.Value) × (not_null json (lookup (codes "text") obj) ≡ none)
            × (not_null json (lookup (codes "blob") obj) ≡ some v)
            × (lookup (codes "text") entry ≡ none)
            × (lookup (codes "blob") entry ≡ some v))

  -- Entry by entry, the contents are those of the rows.
  abbrev pub Matches : List json.Value → List json.Value → Type 0
  Matches [] [] = Unit
  Matches (row ∷ rows) (c ∷ contents) =
      ((obj : Object json) × (entry : Object json) × (json.as_object row ≡ some obj)
        × (c ≡ json.of_object entry)
        × Entry obj entry)
      × Matches rows contents
  Matches _ _ = ⊥

  base : Text → Option Text → Object json
  base uri mime = with_mime_type json mime ((codes "uri", json.of_text uri) ∷ [])

  base-has :
      (uri : Text) (mime : Option Text)
      → (lookup (codes "uri") (base uri mime) ≡ some (json.of_text uri))
        × (lookup (codes "text") (base uri mime) ≡ none)
        × (lookup (codes "blob") (base uri mime) ≡ none)
  unfolding base with_mime_type lookup insert text_eq
  base-has uri none = (refl, refl, refl)
  base-has uri (some t) = (refl, refl, refl)

  -- One column on a base without either: the entry has it, and keeps the base's URI.
  insert-keeps :
      (key other : Text) (v : json.Value) (b : Object json)
      → text_eq key other ≡ false
      → lookup other (insert key v b) ≡ lookup other b
  insert-keeps key other v b h = lookup-insert key other v b ∙ rw h refl

  insert-own :
      (key : Text) (v : json.Value) (b : Object json) → lookup key (insert key v b) ≡ some v
  insert-own key v b = lookup-insert key key v b ∙ rw (text_eq_self key) refl

  content-Entry :
      (idx : ℕ) (uri : Text) (mime : Option Text) (t b : Option json.Value)
      (obj entry : Object json)
      → get_str json (codes "uri") obj ≡ some uri
      → not_null json (lookup (codes "text") obj) ≡ t
      → not_null json (lookup (codes "blob") obj) ≡ b
      → content json idx t b (base uri mime) ≡ ok entry
      → Entry obj entry
  unfolding content text_eq
  content-Entry idx uri mime (some t) (some b) obj entry u p q h = absurd cc
  content-Entry idx uri mime none none obj entry u p q h = absurd cc
  content-Entry idx uri mime (some t) none obj entry u p q h =
      let (has_uri, no_text, no_blob) = base-has uri mime in
      let made : insert (codes "text") t (base uri mime) ≡ entry = cc in
      subst (Entry obj) made (record {
        uri = uri;
        has_uri = u;
        entry_uri = insert-keeps (codes "text") (codes "uri") t (base uri mime) refl ∙ has_uri;
        one = inl (
          t,
          p,
          q,
          insert-own (codes "text") t (base uri mime),
          insert-keeps (codes "text") (codes "blob") t (base uri mime) refl ∙ no_blob,
        );
      })
  content-Entry idx uri mime none (some b) obj entry u p q h =
      let (has_uri, no_text, no_blob) = base-has uri mime in
      let made : insert (codes "blob") b (base uri mime) ≡ entry = cc in
      subst (Entry obj) made (record {
        uri = uri;
        has_uri = u;
        entry_uri = insert-keeps (codes "blob") (codes "uri") b (base uri mime) refl ∙ has_uri;
        one = inr (
          b,
          p,
          q,
          insert-keeps (codes "blob") (codes "text") b (base uri mime) refl ∙ no_text,
          insert-own (codes "blob") b (base uri mime),
        );
      })

  content_entry-Entry :
      (idx : ℕ) (o : Option Text) (obj entry : Object json)
      → get_str json (codes "uri") obj ≡ o
      → content_entry json idx o obj ≡ ok entry
      → Entry obj entry
  unfolding content_entry base
  content_entry-Entry idx none obj entry u h = absurd cc
  content_entry-Entry idx (some uri) obj entry u h =
      content-Entry idx uri (get_str json (codes "mime_type") obj) _ _ obj entry u refl refl h

  content_of-Entry :
      (idx : ℕ) (o : Option (Object json)) (entry : Object json)
      → content_of json idx o ≡ ok entry
      → (obj : Object json) × (o ≡ some obj) × Entry obj entry
  unfolding content_of
  content_of-Entry idx none entry h = absurd cc
  content_of-Entry idx (some obj) entry h =
      (obj, refl, content_entry-Entry idx (get_str json (codes "uri") obj) obj entry refl h)

  -- The two steps of the loop on a row.
  split :
      (row : json.Value) (a : Result ShapeError (Object json))
      (b : Result ShapeError (List json.Value)) (contents : List json.Value)
      → (elim a [
        | err e ↦ err e
        | ok entry ↦ elim b [ err e ↦ err e | ok rest ↦ ok (json.of_object entry ∷ rest) ]
      ])
        ≡ ok contents
      → (entry : Object json) × (rest : List json.Value) × (a ≡ ok entry)
        × (b ≡ ok rest)
        × (json.of_object entry ∷ rest ≡ contents)
  split row (err e) b contents h = absurd cc
  split row (ok entry) (err e) contents h = absurd cc
  split row (ok entry) (ok rest) contents h = (entry, rest, refl, refl, cc)

  -- Where the contents of a resource are returned, there is one for each row, in order. The row is an
  -- object with a URI and either a text or a blob, not null, and not both; the content has the same
  -- URI and that text or that blob, and not the other.
  pub contents_from-Matches :
      (idx : ℕ) (rows contents : List json.Value)
      → contents_from json idx rows ≡ ok contents
      → Matches rows contents
  unfolding contents_from
  contents_from-Matches idx [] contents h =
      let same : [] ≡ contents = cc in subst (Matches []) same tt
  contents_from-Matches idx (row ∷ rows) contents h =
      let (entry, rest, here, below, same) = split row _ _ contents h in
      let (obj, is, has) = content_of-Entry idx (json.as_object row) entry here in
      subst (Matches (row ∷ rows)) same
        ((obj, entry, is, refl, has), contents_from-Matches (idx + 1) rows rest below)
