-- ===== src/Shaping/Listing.antt =====
-- src/lib.rs: the resources of a page of a listing, and its next cursor.
use mcpg_plugin_backend_sql.Common.{
  ℕ, ◌≡◌, ◌<◌, ◌≤◌, ◌⊎◌, refl, ap, ◌∙◌, Bool, true, false, List, [], ◌∷◌, ◌++◌, append-nil,
  append_assoc, Option, none, some, length, All, ltb, if◌then◌else◌, Text, Option-cases, inl, inr,
}
use mcpg_plugin_backend_sql.Config.{ListQueryConfig, keyset, offset}
use mcpg_plugin_backend_sql.Common.Radix.{format}
use mcpg_plugin_backend_sql.Common.TextMaps.{lookup}
use mcpg_plugin_backend_sql.Shaping.{
  Json, ListedResource, RowBatch, Object, listed, cursor_of_row, uri_row, page_loop, page_cursor,
  batch_to_resource_page,
}

module _ (json : Json) where
  -- The resources of the rows that have a URI, in the order of the rows.
  abbrev resource_of : Option (Text × Object json) → List ListedResource
  resource_of none = []
  resource_of (some (uri, obj)) = listed json uri obj ∷ []

  unfoldable pub resources_of : List json.Value → List ListedResource
  resources_of [] = []
  resources_of (row ∷ rows) = resource_of (uri_row json (json.as_object row)) ++ resources_of rows

  -- The cursor value of the last row that has a URI and the cursor column.
  abbrev cursor_after : Option Text → Option (Text × Object json) → Option Text → Option Text
  cursor_after column none last = last
  cursor_after column (some (uri, obj)) last = cursor_of_row json column obj last

  unfoldable pub last_cursor : Option Text → List json.Value → Option Text → Option Text
  last_cursor column [] last = last
  last_cursor column (row ∷ rows) last =
      last_cursor column rows (cursor_after column (uri_row json (json.as_object row)) last)

  page_loop-resources :
      (column : Option Text) (rows : List json.Value) (found : List ListedResource)
      (last : Option Text)
      → page_loop json column rows (found, last)
        ≡ (found ++ resources_of rows, last_cursor column rows last)
  unfolding page_loop resources_of last_cursor
  page_loop-resources column [] found last = rw (append-nil found) refl
  page_loop-resources column (row ∷ rows) found last =
      elim (Option-cases (uri_row json (json.as_object row))) [
        | inl h ↦ rw (h, page_loop) (page_loop-resources column rows found last)
        | inr ((uri, obj), h) ↦
            rw (h, page_loop)
              (page_loop-resources column rows (found ++ listed json uri obj ∷ [])
                  (cursor_of_row json column obj last)
                ∙ ap (λ x. (x, last_cursor column rows (cursor_of_row json column obj last)))
                    (append_assoc found (listed json uri obj ∷ []) (resources_of rows)))
      ]

  -- The values in the cursor column of the rows that have a URI, in the order of the rows.
  abbrev value_at : Option Text → Object json → List Text
  value_at none obj = []
  value_at (some column) obj = elim (lookup column obj) [ none ↦ [] | some v ↦ json.display v ∷ [] ]

  abbrev values_of : Option Text → Option (Text × Object json) → List Text
  values_of column none = []
  values_of column (some (uri, obj)) = value_at column obj

  unfoldable pub cursor_values : Option Text → List json.Value → List Text
  cursor_values column [] = []
  cursor_values column (row ∷ rows) =
      values_of column (uri_row json (json.as_object row)) ++ cursor_values column rows

  -- What is known before a list of texts, and its last one if it has any.
  unfoldable pub last_of : Option Text → List Text → Option Text
  last_of before [] = before
  last_of before (t ∷ ts) = last_of (some t) ts

  -- No cursor behind fewer rows than a page can have; else by mode.
  abbrev pub NextCursor : ListQueryConfig → List json.Value → Option Text → Type 0
  NextCursor cfg rows next =
      ((length rows < cfg.page_size) × (next ≡ none))
      ⊎ ((cfg.page_size ≤ length rows)
          × (cfg.mode ≡ keyset)
          × (next ≡ last_of none (cursor_values cfg.cursor_column rows)))
      ⊎ ((cfg.page_size ≤ length rows)
          × (cfg.mode ≡ offset)
          × (next ≡ some (format 10 (length rows))))

  last_cursor-none :
      (column : Option Text) (rows : List json.Value)
      → All (λ row. uri_row json (json.as_object row) ≡ none) rows
      → last_cursor column rows none ≡ none
  unfolding last_cursor
  last_cursor-none column [] h = refl
  last_cursor-none column (row ∷ rows) (here, rest) = rw here (last_cursor-none column rows rest)

  either_way : (b : Bool) (o : Option Text) → (if b then o else o) ≡ o
  either_way true o = refl
  either_way false o = refl

  page_cursor-keyset :
      (cfg : ListQueryConfig) (n : ℕ) → cfg.mode ≡ keyset → page_cursor json cfg n none ≡ none
  unfolding page_cursor
  page_cursor-keyset cfg n h = rw h (either_way (ltb n cfg.page_size) none)

  -- In keyset mode a page without any row that has a URI ends the listing, however many rows there
  -- are, and so also when there are more behind a full page.
  pub batch_to_resource_page-no_uri :
      (batch : RowBatch json) (cfg : ListQueryConfig)
      → cfg.mode ≡ keyset
      → All (λ row. uri_row json (json.as_object row) ≡ none) batch.rows
      → (batch_to_resource_page json batch cfg).next_cursor ≡ none
  unfolding batch_to_resource_page
  batch_to_resource_page-no_uri batch cfg mode h =
      rw (page_loop-resources cfg.cursor_column batch.rows [] none) (
        ap (page_cursor json cfg (length batch.rows))
          (last_cursor-none cfg.cursor_column batch.rows h)
        ∙ page_cursor-keyset cfg (length batch.rows) mode)
