-- ===== src/Shaping/Tests.antt =====
-- src/lib.rs on small responses.
use mcpg_plugin_backend_sql.Common.{
  ◌≡◌, refl, Bool, true, false, List, [], ◌∷◌, Option, none, some, ok, Text, codes, text_eq,
}
use mcpg_plugin_backend_sql.Common.TextMaps.{lookup, insert}
use mcpg_plugin_backend_sql.Config.{ListQueryConfig, keyset}
use mcpg_plugin_backend_sql.Shaping.{
  Json, RowBatch, get_str, not_null, with_mime_type, content, content_entry, content_of,
  contents_from, uri_row,
}
use mcpg_plugin_backend_sql.Shaping.Contents.{Matches, contents_from-Matches}

-- A number, a text, or a row with a URI and a text.
data Sample : Type 0 where
  nothing : Sample
  word : Text → Sample
  full_row empty_row : Sample

abbrev sample_object : Sample → Option (List (Text × Sample))
sample_object full_row =
    some ((codes "uri", word (codes "a://1")) ∷ (codes "text", word (codes "hello")) ∷ [])
sample_object empty_row = some []
sample_object _ = none

abbrev sample_str : Sample → Option Text
sample_str (word s) = some s
sample_str _ = none

abbrev sample_null : Sample → Bool
sample_null nothing = true
sample_null _ = false

abbrev sample_json : Json
sample_json = record {
  Value = Sample;
  null_value = nothing;
  of_bool = λ b. nothing;
  of_nat = λ n. word (n ∷ []);
  of_text = word;
  of_array = λ vs. nothing;
  of_object = λ es. nothing;
  as_object = sample_object;
  as_str = sample_str;
  is_null = sample_null;
  display = λ v. codes "v";
}

abbrev batch : RowBatch sample_json
batch = record { rows = full_row ∷ full_row ∷ empty_row ∷ []; rows_affected = none }

contents_returned : contents_from sample_json 0 (full_row ∷ []) ≡ ok (nothing ∷ [])
unfolding contents_from content_of content_entry content with_mime_type not_null get_str lookup
    insert text_eq
contents_returned = refl

contents_from-Matches_example : Matches sample_json (full_row ∷ []) (nothing ∷ [])
contents_from-Matches_example =
    contents_from-Matches sample_json 0 (full_row ∷ []) (nothing ∷ []) contents_returned

abbrev listing : ListQueryConfig
listing = record {
  sql = codes "SELECT";
  mode = keyset;
  cursor_column = some (codes "uri");
  page_size = 2;
}

no_uri : uri_row sample_json (some []) ≡ none
unfolding uri_row get_str lookup
no_uri = refl
